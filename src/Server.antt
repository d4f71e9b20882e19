-- ===== src/Server.antt =====
-- server/switch/main.cc: the events that the server loop handles, and what the drivers do in
-- between. The loop itself is the framework's.
pub mod Health
pub mod Steps
pub mod Survive
pub mod Run
pub mod Clients
pub mod Main
pub mod Place
pub mod Watch
pub mod Expire
pub mod Known
use l4_virtio_net_switch.Prelude.{ℕ, ◌≡◌, Bool, true, Option, none, some, is_some, List, [], ◌∷◌}
use l4_virtio_net_switch.Buffer.{DataBuffer}
use l4_virtio_net_switch.Transfer.{Transfer}
use l4_virtio_net_switch.Port.{Port}
use l4_virtio_net_switch.Switch.{
  Switch, Ended, ok, threw, crashed, new_switch, add_port, add_monitor_port, check_ports, port_at,
}
use l4_virtio_net_switch.Device.{Change, change}
use l4_virtio_net_switch.Switch.Forward.Taking.{FullChains}
use l4_virtio_net_switch.Switch.Irq.{
  Arrival, arrive, with_port, handle_port_irq, handle_monitor_irq,
}
use l4_virtio_net_switch.Switch.Irq.Keep.{FullArrivals}
use l4_virtio_net_switch.Switch.Leaving.{AllSpared, SparedIn, AllDepart, Departs}
use l4_virtio_net_switch.Switch.Timeout.{take_out, port_expired, monitor_expired}

-- A new port for a client, capabilities that vanish, an interrupt by a driver, the timeout of a
-- transfer, a driver that configures its device, and one that adds chains.
pub data Event : Type 0 where
  create : Port → Event
  create_monitor : Port → Event
  vanish : (ℕ → Bool) → Event
  kick : ℕ → List Arrival → Event
  kick_monitor : List Arrival → Event
  timeout : ℕ → ℕ → Event
  timeout_monitor : ℕ → Event
  configure : ℕ → Change → Event
  configure_monitor : Change → Event
  offer : ℕ → Arrival → Event
  offer_monitor : Arrival → Event

-- An operation on the monitor port, if there is one.
abbrev pub at_monitor : (Port → Port) → Switch → Switch
at_monitor f sw = elim sw.monitor [ none ↦ sw | some m ↦ record sw { monitor = some (f m) } ]

module _ (db : DataBuffer) (filter : List ℕ → ℕ → Bool) (garbage : ℕ) where
  unfoldable pub serve : Event → Switch → Ended
  serve (create p) sw = ok (add_port p sw).1
  serve (create_monitor p) sw = ok (add_monitor_port p sw).1
  serve (vanish gone) sw = check_ports gone sw
  serve (kick a xs) sw = handle_port_irq db filter garbage a xs sw
  serve (kick_monitor xs) sw = handle_monitor_irq db xs sw
  serve (timeout a i) sw = port_expired a i sw
  serve (timeout_monitor i) sw = monitor_expired i sw
  serve (configure a c) sw = ok (with_port (change c) a sw)
  serve (configure_monitor c) sw = ok (at_monitor (change c) sw)
  serve (offer a x) sw = ok (with_port (arrive x) a sw)
  serve (offer_monitor x) sw = ok (at_monitor (arrive x) sw)

-- The transfer at a place of the list, if there is one, has not written its header yet.
abbrev pub Unwritten : ℕ → List Transfer → Type 0
Unwritten i ts =
    (t : Transfer) (rest : List Transfer) → take_out i ts ≡ some (t, rest) → t.dst_header ≡ none

-- What the environment keeps to. No transfer waits in a new port; an interrupt comes from a port
-- that is there, and the descriptors of its driver are not empty, but for the first of a chain. A
-- client goes only while no transfer waits that its port sent.
abbrev pub Allowed : Event → Switch → Type 0
Allowed (create p) sw = p.pending_requests ≡ []
Allowed (create_monitor p) sw = p.pending_requests ≡ []
Allowed (vanish gone) sw = AllSpared gone sw.ports × SparedIn gone sw.monitor
Allowed (kick a xs) sw =
    ((p : Port) × (port_at a sw.ports ≡ some p) × FullChains p.tx.avail) × FullArrivals xs
Allowed (kick_monitor xs) sw = is_some sw.monitor ≡ true
Allowed (timeout a i) sw = Unit {0}
Allowed (timeout_monitor i) sw = Unit {0}
Allowed (configure a c) sw = Unit {0}
Allowed (configure_monitor c) sw = Unit {0}
Allowed (offer a x) sw = Unit {0}
Allowed (offer_monitor x) sw = Unit {0}

-- The event deletes no transfer that has begun to write.
abbrev pub Spares : Event → Switch → Type 0
Spares (create p) sw = Unit {0}
Spares (create_monitor p) sw = Unit {0}
Spares (vanish gone) sw = AllDepart gone sw.ports × Departs gone sw.monitor
Spares (kick a xs) sw = Unit {0}
Spares (kick_monitor xs) sw = Unit {0}
Spares (timeout a i) sw = (p : Port) → port_at a sw.ports ≡ some p → Unwritten i p.pending_requests
Spares (timeout_monitor i) sw = (m : Port) → sw.monitor ≡ some m → Unwritten i m.pending_requests
Spares (configure a c) sw = Unit {0}
Spares (configure_monitor c) sw = Unit {0}
Spares (offer a x) sw = Unit {0}
Spares (offer_monitor x) sw = Unit {0}

-- The switch that the next event finds; an exception ends the event alone.
pub data Leads : Ended → Switch → Type 0 where
  returns : (sw : Switch) → Leads (ok sw) sw
  throws : (sw : Switch) → Leads (threw sw) sw

-- The switches that a server with so many slots comes to.
pub data Reach (db : DataBuffer) (filter : List ℕ → ℕ → Bool) (garbage n : ℕ)
    : Switch → Type 0 where
  start : Reach db filter garbage n (new_switch none n)
  step :
      {sw sw' : Switch} (e : Event)
      → Reach db filter garbage n sw
      → Allowed e sw
      → Leads (serve db filter garbage e sw) sw'
      → Reach db filter garbage n sw'
