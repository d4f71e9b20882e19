-- ===== src/Tests/Forwarding.antt =====
-- Packets that are forwarded, and clients that go, on concrete switches.
use l4_virtio_net_switch.Prelude.{◌≡◌, refl, true, none, some, [], ◌∷◌, ◌==◌, arith, take, drop}
use l4_virtio_net_switch.Prelude.OrdMap.{find, insert}
use l4_virtio_net_switch.Filter.{filter_none}
use l4_virtio_net_switch.MacAddr.{is_broadcast, of_bytes, is_unknown}
use l4_virtio_net_switch.MacTable.{lookup, learn, init, learn_new}
use l4_virtio_net_switch.Request.{
  Request, src_mac, dst_mac, hdr_at, get_request, from_chain, new_request, after_header,
}
use l4_virtio_net_switch.Switch.Forward.Account.{Accounted, handle_tx_queue-Accounted}
use l4_virtio_net_switch.Switch.Forward.{handle_tx_queue, forward, vlan_of}
use l4_virtio_net_switch.Buffer.{of_desc}
use l4_virtio_net_switch.Port.{new_port, get_tx_request, admits, is_trunk, is_access}
use l4_virtio_net_switch.Switch.{
  Switch, table_size, port_at, check_ports, add_port, lookup_free_slot, free_from, place,
  mac_in_use, new_switch, add_monitor_port,
}
use l4_virtio_net_switch.Switch.Forward.Unicast.{Unicast, forward-Unicast}
use l4_virtio_net_switch.Switch.Irq.{Arrival, handle_port_irq}
use l4_virtio_net_switch.Switch.Irq.Return.{EndsKnown, handle_port_irq-EndsKnown}
use l4_virtio_net_switch.Server.{Reach, start, step, returns, create, create_monitor, kick, serve}
use l4_virtio_net_switch.Server.Known.{Onward, now, after, EndsKept, serve-EndsKept}
use l4_virtio_net_switch.Tests.{plain_buffer, frame, room}
use l4_virtio_net_switch.Vlan.{rewrite_hdr, add}
use l4_virtio_net_switch.Transfer.{new}
use l4_virtio_net_switch.Switch.Forward.Sound.{Good, Good-monitor}
use l4_virtio_net_switch.Switch.Departure.{EndsCleared, check_ports-EndsCleared}
use l4_virtio_net_switch.Tests.Delivery.{
  header, port7, port8, one_port, one_port-Good, Seven, fresh, fresh-Inv, packet, port7_there,
}

abbrev direct : Request
direct = record {
  head = 3;
  header = header;
  pkt = of_desc (2 ∷ 2 ∷ 3 ∷ 4 ∷ 5 ∷ 6 ∷ 7 ∷ 8 ∷ 9 ∷ 10 ∷ 11 ∷ 12 ∷ 8 ∷ 0 ∷ []);
  more = (1 ∷ 2 ∷ []) ∷ [];
}

abbrev two_ports : Switch
two_ports = record {
  max_ports = 2;
  max_used = 2;
  ports = some port7 ∷ some port8 ∷ [];
  monitor = none;
  mac_table = learn table_size (init table_size) (dst_mac direct) 8;
}

known : lookup (learn table_size two_ports.mac_table (src_mac direct) 7) (dst_mac direct) ≡ some 8
unfolding lookup learn init learn_new dst_mac src_mac of_desc find insert of_bytes
known = refl

forward-Unicast_example :
    Unicast plain_buffer filter_none 0 port7 direct
      (vlan_of port7 direct)
      port8
      two_ports
      (forward plain_buffer filter_none 0 port7 direct two_ports)
unfolding is_broadcast dst_mac of_desc of_bytes new_port port_at
forward-Unicast_example =
    forward-Unicast plain_buffer filter_none 0 port7 direct two_ports 8 port8 refl known refl
      ((λ e. absurd (ground arith)), tt)

-- A packet of port 7 waits in the monitor port, whose client goes.
abbrev monitored : Switch
monitored = record one_port { monitor = some (record port8 { pending_requests = fresh ∷ [] }) }

monitored-Good : Good Seven Seven monitored
unfolding new
monitored-Good =
    Good-monitor Seven Seven one_port (some (record port8 { pending_requests = fresh ∷ [] }))
      one_port-Good (((packet, rewrite_hdr (add 7) header, fresh-Inv), refl), tt)

check_ports-EndsCleared_example :
    EndsCleared (λ a. a == 8) Seven (check_ports (λ a. a == 8) monitored)
unfolding new new_port add_port lookup_free_slot free_from place mac_in_use new_switch is_unknown
check_ports-EndsCleared_example =
    check_ports-EndsCleared (λ a. a == 8) Seven (λ b o. rw o refl) monitored monitored-Good
      ((λ _. tt), (tt, tt)) (λ _. (refl, tt))

abbrev taken : Request
taken = record {
  head = 3;
  header = hdr_at room;
  pkt = record { mapped = true; behind = take 12 room; ahead = drop 12 room };
  more = frame ∷ [];
}

port7_sends : (get_tx_request plain_buffer port7).0 ≡ some taken
unfolding get_tx_request new_port get_request from_chain new_request after_header of_desc admits
    is_trunk is_access
port7_sends = refl

handle_tx_queue-Accounted_example :
    Accounted
      (get_tx_request plain_buffer port7).1
      3
      (handle_tx_queue plain_buffer filter_none 0 7 one_port)
handle_tx_queue-Accounted_example =
    handle_tx_queue-Accounted Seven Seven plain_buffer filter_none 0 7 port7 taken one_port
      one_port-Good refl refl port7_there
      (unfold new_port in (((λ e. absurd (ground arith)), tt), tt)) port7_sends

abbrev later : Arrival
later = record { to_rx = []; to_tx = [] }

handle_port_irq-EndsKnown_example :
    EndsKnown 7 3 7 (handle_port_irq plain_buffer filter_none 0 7 (later ∷ []) one_port)
unfolding new_port
handle_port_irq-EndsKnown_example =
    handle_port_irq-EndsKnown 7 3 7 plain_buffer filter_none 0 Seven (later ∷ []) one_port port7
      refl one_port-Good port7_there (((λ e. absurd (ground arith)), tt), tt) (tt, tt)
      (port7, port7_there, refl)

abbrev watched : Switch
watched = record one_port { monitor = some port8 }

one_port_reached : Reach plain_buffer filter_none 0 2 one_port
unfolding serve new_port
one_port_reached = step (create port7) start refl (returns one_port)

monitor_follows : Onward plain_buffer filter_none 0 7 one_port watched
unfolding serve new_port add_monitor_port add_port is_unknown place lookup_free_slot new_switch
monitor_follows = after (create_monitor port8) now refl tt (returns watched)

serve-EndsKept_example : EndsKept 7 3 (serve plain_buffer filter_none 0 (kick 7 []) watched)
unfolding new_port
serve-EndsKept_example =
    serve-EndsKept 7 3 plain_buffer filter_none 0 2 (kick 7 []) one_port watched one_port_reached
      (port7, port7_there, refl) monitor_follows
      ((port7, port7_there, (((λ e. absurd (ground arith)), tt), tt)), tt) tt tt
