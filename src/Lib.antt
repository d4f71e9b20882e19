-- ===== src/Lib.antt =====
-- The virtio network switch: it forwards Ethernet packets between the virtqueues of its clients,
-- one port for each client, by a table of MAC addresses and by VLANs.
--
-- How the parts interact: the server loop creates a port for a client, and handles its interrupts.
-- An interrupt leads to `handle_port_irq` of the switch, whose loops empty the queues of the port.
-- `handle_tx_queue` takes a request from the port's transmission queue, learns its source in the MAC
-- table, and hands it to the port of its destination, or to every port of the VLAN, and to the
-- monitor port. A port makes a transfer of it, which copies the packet into the chains of the port's
-- receive queue, rewriting the VLAN tag on the way, and keeps it in a list when the queue runs out of
-- chains.
--
-- Prelude: lists, tests, words, ordered maps and bits over the native numbers.
-- MacAddr: server/switch/mac_addr.h. An address is its 48-bit number.
-- MacTable: server/switch/mac_table.h. `learn`, `lookup` and `flush` on a map, an array of entries
--   and a round-robin index; a port is its address, an `Entry *` an index.
-- Kick: the notification of a queue, server/switch/virtio_net.h.
-- Buffer: server/switch/virtio_net_buffer.h. `Data_buffer` is the framework's: `DataBuffer` is an
--   interface with its documented laws, which every theorem takes as a parameter.
-- Vlan: server/switch/vlan.h and the header of server/switch/virtio_net.h. `copy_pkt` is resumable.
-- Transfer: server/switch/transfer.h. A queue is the list of chains that `next_avail` returns and
--   the list of results that `finish` has given to the driver.
-- Request: server/switch/request.h. Taking a request, the tests on its first buffer, and in
--   Request/Dump what the log shows of it.
-- Port: server/switch/port.h. VLANs with their Bloom filter, delivery, the waiting transfers.
-- Filter: server/switch/filter.h and filter.cc.
-- Switch: server/switch/switch.h and switch.cc. Slots; removal, with Switch/Leaving and
--   Switch/Departure for what waits in the ports that go; Switch/Forward has `handle_tx_queue`;
--   Switch/Irq has `handle_port_irq`, with where a request may be in Switch/Irq/Track, and the
--   interrupt of a monitor port of server/switch/main.cc; Switch/Timeout the timeout of a transfer.
-- Debug and Options: the verbosity of server/switch/debug.h, and server/switch/options.h and
--   options.cc. `getopt_long` gives the options; `atoi` and the capabilities are parameters.
-- Factory: `op_create` of server/switch/main.cc with the arguments of a port. Strings are lists of
--   bytes; `cxx::String` and `sscanf` are the interface `Parser`. Factory/Configuration has the
--   device of the new port.
-- Device: the reset and the set-up of the queues, server/switch/virtio_net.h; in Device/Features
--   what the constructors there and in server/switch/port.h offer to the driver. The framework's
--   bit fields and feature words are the interface `FeatureWord`.
-- Server: the events of the server loop of server/switch/main.cc, the switches they lead to, and
--   in Server/Main the start of the program, in Server/Known and the files beside it where the
--   requests are that the drivers wait for.
--
-- Stateful code passes its state on; a failed assertion and the use of a deleted port are results of
-- their own. `garbage` stands for memory that the code does not initialise. Words wrap where they can
-- reach their bound. The loop of `transfer` runs on fuel, `work` of the source and of the
-- destination; each round takes some of it, so it is enough. The loop of `check_ports` gets
-- `_max_used` rounds, which bounds its index. `tx_loop` gets a round for each chain of the queue, each
-- of which takes one, and `rx_loop` one, which leaves no work. The loop of `handle_port_irq` goes on
-- as long as the driver adds chains; what it adds is a list of arrivals, one before each of its tests.
-- The loop over the ids of a trunk gets a round for each character.
--
-- A shared request is named by its port and the head of its chain; two live requests of one port
-- with the same head, which a driver that breaks the protocol could make, are one here. Chains have
-- at least one descriptor. Errors that the framework throws for malformed descriptors are not
-- modelled, and source and destination memory do not overlap. Memory never runs out, so any number of
-- ports gives as many slots; and a driver does not change the flag `no_notify` of a queue.
--
-- The theorems on crashes and on delivery have conditions that a driver or a client can break. No
-- descriptor of a packet is empty but the first of its chain (`NoneEmpty`, `FullChains`,
-- `FullArrivals`, and `Inv` of a transfer that waits): an empty one at the end of a packet, when the
-- receiver's chain is exactly full, makes `finish_transfer` fail its assertion. The events of the
-- server are those that `Allowed` admits: besides, no transfer waits in a new port, and a client goes
-- only while no transfer waits that its port sent, which would go back to a port that is gone. A
-- timeout strikes at any time, as does the end of a receiver; those that delete a transfer that has
-- begun to write, which fails an assertion, are what `Spares` rules out, where a theorem says that
-- there is no crash.
--
-- Not modelled: the registration of objects and interrupts, and trusted dataspaces
-- (server/switch/main.cc, server/switch/virtio_net.h), which call the framework; the names of ports,
-- which only the log shows; and the log, but for the packets that it shows.
pub mod Prelude
pub mod MacAddr
pub mod MacTable
pub mod Kick
pub mod Buffer
pub mod Vlan
pub mod Transfer
pub mod Request
pub mod Port
pub mod Filter
pub mod Switch
pub mod Device
pub mod Debug
pub mod Options
pub mod Factory
pub mod Server
pub mod Tests
