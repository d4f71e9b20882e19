-- ===== src/Tests/Events.antt =====
-- Concrete runs of the interrupts, the server, the factory and the command line.
use native.Mathlib.Omega.{arith}
use l4_virtio_net_switch.Prelude.{
  ℕ, ◌+◌, ◌-◌, ◌%◌, ◌^◌, ◌≡◌, ◌≢◌, refl, true, false, none, some, List, [], ◌∷◌, ◌++◌, ◌||◌, ◌&&◌,
  not, ltb, if◌then◌else◌, length, drop, length-drop,
}
use l4_virtio_net_switch.Prelude.Int.{pos}
use l4_virtio_net_switch.MacAddr.{of_bytes}
use l4_virtio_net_switch.MacTable.{lookup}
use l4_virtio_net_switch.MacTable.Queue.{Call, learned, flushed, table_after, queue_after, port_of}
use l4_virtio_net_switch.MacTable.Inv.{Inv}
use l4_virtio_net_switch.MacTable.Refine.{table_after-Inv, lookup-table_after}
use l4_virtio_net_switch.Transfer.{transfer}
use l4_virtio_net_switch.Transfer.Starve.{Waits, transfer-Waits}
use l4_virtio_net_switch.Port.{new_port, interrupts, emit_and_enable, disable_and_remember}
use l4_virtio_net_switch.Port.Interrupts.{finish_both, interrupts-emit_and_enable}
use l4_virtio_net_switch.Filter.{filter_none}
use l4_virtio_net_switch.Vlan.{vlan_valid_id}
use l4_virtio_net_switch.Switch.{Switch, crashed, port_at}
use l4_virtio_net_switch.Switch.Forward.{forward}
use l4_virtio_net_switch.Switch.Forward.Sound.{Good, Good-monitor}
use l4_virtio_net_switch.Switch.Forward.Frame.{Frames, forward-Frames}
use l4_virtio_net_switch.Switch.Irq.{Arrival, handle_port_irq, handle_monitor_irq}
use l4_virtio_net_switch.Switch.Irq.Work.{Leaves}
use l4_virtio_net_switch.Switch.Irq.Idle.{Idle, handle_port_irq-Idle}
use l4_virtio_net_switch.Switch.Irq.Safe.{EndsFull}
use l4_virtio_net_switch.Switch.Irq.Run.{handle_port_irq-EndsFull}
use l4_virtio_net_switch.Switch.Irq.Monitor.{EndsMonitored, handle_monitor_irq-EndsMonitored}
use l4_virtio_net_switch.Server.{create, kick, serve, Reach, start, step, returns}
use l4_virtio_net_switch.Server.Clients.{HealthyReply, op_create-HealthyReply}
use l4_virtio_net_switch.Server.Run.{Reach-Healthy, serve-ne-crashed}
use l4_virtio_net_switch.Factory.{Varg, text, Made, op_create, default_mac, default_settings}
use l4_virtio_net_switch.Factory.Text.{
  first, is_digit, read_digits, same_to, parse_int_optstring, int_limit,
}
use l4_virtio_net_switch.Factory.Arguments.{
  Parser, taken, handle_vlan, vlan_eq, access_eq, trunk_eq,
}
use l4_virtio_net_switch.Factory.Trunk.{Reads, last_id, more_ids, handle_vlan-Reads}
use l4_virtio_net_switch.Factory.Checks.{Shortens, Bounded}
use l4_virtio_net_switch.Factory.Create.{Answer, op_create-Answer}
use l4_virtio_net_switch.Factory.Addresses.{of_bytes-default_mac}
use l4_virtio_net_switch.Factory.Numbers.{value, chars, parse_int_optstring-chars}
use l4_virtio_net_switch.Tests.{plain_buffer}
use l4_virtio_net_switch.Tests.Delivery.{
  fresh, queue, sender, port7, port8, request, Seven, one_port, port7_there, one_port-Good,
}

abbrev quiet : Arrival
quiet = record { to_rx = []; to_tx = [] }

handle_port_irq-EndsFull_example :
    EndsFull Seven 7 (handle_port_irq plain_buffer filter_none 0 7 (quiet ∷ []) one_port)
handle_port_irq-EndsFull_example =
    handle_port_irq-EndsFull Seven plain_buffer filter_none 0 7 refl (quiet ∷ []) one_port port7
      one_port-Good port7_there (unfold new_port in (((λ e. absurd (ground arith)), tt), tt))
      (tt, tt)

handle_port_irq-Idle_example :
    Leaves 7 Idle (handle_port_irq plain_buffer filter_none 0 7 (quiet ∷ []) one_port)
handle_port_irq-Idle_example =
    handle_port_irq-Idle plain_buffer filter_none 0 7 (quiet ∷ []) one_port port7 port7_there

abbrev watched : Switch
watched = record one_port { monitor = some port8 }

watched-Good : Good Seven Seven watched
unfolding new_port
watched-Good = Good-monitor Seven Seven one_port (some port8) one_port-Good tt

handle_monitor_irq-EndsMonitored_example :
    EndsMonitored Seven plain_buffer (handle_monitor_irq plain_buffer (quiet ∷ []) watched)
handle_monitor_irq-EndsMonitored_example =
    handle_monitor_irq-EndsMonitored Seven plain_buffer (quiet ∷ []) watched watched-Good refl

one_port_reached : Reach plain_buffer filter_none 0 2 one_port
unfolding serve new_port
one_port_reached = step (create port7) start refl (returns one_port)

serve-ne-crashed_example : serve plain_buffer filter_none 0 (kick 7 []) one_port ≢ crashed
serve-ne-crashed_example =
    serve-ne-crashed plain_buffer filter_none 0 2 (kick 7 []) one_port one_port_reached
      ((port7, port7_there, unfold new_port in (((λ e. absurd (ground arith)), tt), tt)), tt) tt

abbrev calls : List Call
calls = learned 9 1 ∷ flushed 1 ∷ learned 8 2 ∷ learned 9 1 ∷ []

table_after-Inv_example : Inv 2 (table_after 2 calls)
table_after-Inv_example = table_after-Inv 2 (omega arith) calls

lookup-table_after_example : lookup (table_after 2 calls) 9 ≡ port_of 9 (queue_after 2 calls)
lookup-table_after_example = lookup-table_after 2 (omega arith) calls 9

transfer-Waits_example : Waits fresh (transfer plain_buffer fresh queue)
transfer-Waits_example = transfer-Waits plain_buffer fresh queue

interrupts-emit_and_enable_example :
    interrupts (emit_and_enable (finish_both 2 1 (disable_and_remember port7)))
    ≡ interrupts port7
      + (if (not port7.rx.kick.no_notify && ltb 0 2) || (not port7.tx.kick.no_notify && ltb 0 1)
          then 1
          else 0)
interrupts-emit_and_enable_example = interrupts-emit_and_enable 2 1 port7

forward-Frames_example :
    Frames port7.self
      (port_at port7.self one_port.ports)
      (forward plain_buffer filter_none 0 port7 request one_port)
forward-Frames_example = forward-Frames plain_buffer filter_none 0 port7 request one_port

abbrev pub plain_parser : Parser
plain_parser = record {
  from_dec = λ s.
      if is_digit (first s)
      then (length s - length (read_digits 0 s).1, (read_digits 0 s).0 % 2 ^ 16)
      else (0, 0);
  starts_with = λ s p. if same_to (length p) p s then length p else 0;
  substr = λ s n. drop n s;
  scan_mac = λ s. none;
}

plain_parser-Shortens : Shortens plain_parser
plain_parser-Shortens s n = omega (arith, length-drop n s)

plain_parser-Bounded : Bounded plain_parser
plain_parser-Bounded s = ground arith

abbrev made : Made
made = record { self = 9; rx = queue; tx = sender }

-- "trunk=3,5"
abbrev trunk_text : List ℕ
trunk_text = trunk_eq ++ (51 ∷ 44 ∷ 53 ∷ [])

three_five : Reads plain_parser (drop 6 trunk_text) (3 ∷ 5 ∷ [])
unfolding read_digits vlan_valid_id
three_five = more_ids 1 refl (omega arith) refl (omega arith) refl (last_id refl (omega arith) refl)

handle_vlan-Reads_example :
    handle_vlan plain_parser trunk_text default_settings
    ≡ taken (record default_settings { vlan_trunk = 3 ∷ 5 ∷ [] })
unfolding same_to
handle_vlan-Reads_example =
    handle_vlan-Reads plain_parser plain_parser-Shortens plain_parser-Bounded trunk_text
      default_settings (3 ∷ 5 ∷ []) refl refl three_five

-- "vlan=access=7"
abbrev access_seven : List Varg
access_seven = text (vlan_eq ++ access_eq ++ (55 ∷ [])) ∷ []

op_create-Answer_example :
    Answer plain_parser true access_seven one_port
      (op_create plain_parser true made 0 access_seven one_port)
op_create-Answer_example =
    op_create-Answer plain_parser true made 0 access_seven one_port plain_parser-Shortens
      plain_parser-Bounded

of_bytes-default_mac_example :
    (of_bytes (default_mac false 1) ≢ of_bytes (default_mac false 257))
    × (of_bytes (default_mac true 0) ≢ of_bytes (default_mac false 257))
of_bytes-default_mac_example =
    of_bytes-default_mac 1 257 0 (omega arith) (omega arith) (λ e. absurd (omega arith))
      (λ e. absurd (omega arith))

parse_int_optstring-chars_example :
    parse_int_optstring (chars (4 ∷ 2 ∷ []))
    ≡ (if ltb (value 0 (4 ∷ 2 ∷ [])) int_limit then some (pos (value 0 (4 ∷ 2 ∷ []))) else none)
parse_int_optstring-chars_example =
    parse_int_optstring-chars 4 (2 ∷ []) (omega arith) (omega arith, tt)

op_create-HealthyReply_example :
    HealthyReply (op_create plain_parser true made 0 access_seven one_port)
op_create-HealthyReply_example =
    op_create-HealthyReply plain_parser true made 0 access_seven one_port plain_parser-Shortens
      plain_parser-Bounded (Reach-Healthy plain_buffer filter_none 0 2 one_port_reached)
