-- ===== src/Tests/Delivery.antt =====
-- Concrete runs of transfers, ports and a switch of two ports.
use native.Mathlib.Omega.{arith}
use l4_virtio_net_switch.Prelude.{
  ℕ, false, ◌≡◌, ◌≢◌, ◌↔◌, refl, true, ◌||◌, none, some, is_some, List, [], ◌∷◌, ◌++◌, ◌==◌,
}
use l4_virtio_net_switch.Kick.{new_kick}
use l4_virtio_net_switch.Buffer.{of_desc}
use l4_virtio_net_switch.MacAddr.{is_unknown}
use l4_virtio_net_switch.Vlan.{Hdr, add, rewrite_hdr, vlan_valid_id, vlan_id_trunk}
use l4_virtio_net_switch.Vlan.Pending.{pending}
use l4_virtio_net_switch.Transfer.{
  RxQueue, Transfer, new, transfer, running, blocked, finish_transfer, assert_failed, get_dst,
  next_src, iterate, transfer_loop, work, next_chain,
}
use l4_virtio_net_switch.Transfer.Work.{transfer-ends}
use l4_virtio_net_switch.Transfer.Content.{Inv, concat}
use l4_virtio_net_switch.Transfer.Content.Result.{Result}
use l4_virtio_net_switch.Transfer.Drop.{new-Inv, blocked_drop}
use l4_virtio_net_switch.Request.{TxQueue, Request, has_vlan, vlan_id}
use l4_virtio_net_switch.Request.Tags.{vlan_id-add}
use l4_virtio_net_switch.Port.{Port, new_port, set_vlan_trunk, match_vlan}
use l4_virtio_net_switch.Port.Vlans.{member, match_vlan-set_vlan_trunk}
use l4_virtio_net_switch.Filter.{filter_none}
use l4_virtio_net_switch.Switch.{
  Switch, new_switch, add_port, free_from, lookup_free_slot, mac_in_use, place, port_at,
  check_ports,
}
use l4_virtio_net_switch.Switch.Slots.{WellFormed, new_switch-WellFormed, add_port-WellFormed}
use l4_virtio_net_switch.Switch.Removal.{EndsWell, check_ports-WellFormed}
use l4_virtio_net_switch.Switch.Forward.{flood, handle_tx_queue}
use l4_virtio_net_switch.Switch.Forward.Sound.{Good, EndsGood}
use l4_virtio_net_switch.Switch.Forward.Deliver.{handle_tx_queue-EndsGood}
use l4_virtio_net_switch.Switch.Forward.Flood.{Spread, flood-Spread}
use l4_virtio_net_switch.Tests.{plain_buffer, frame, room, add-InRange}

abbrev pub header : Hdr
header = record {
  flags = 0;
  gso_type = 0;
  hdr_len = 0;
  gso_size = 0;
  csum_start = 0;
  csum_offset = 0;
  num_buffers = 0;
}

-- The frame in two buffers, to be tagged on its way.
abbrev pub fresh : Transfer
fresh = new 0 (7, 3) header (of_desc frame) ((1 ∷ 2 ∷ []) ∷ []) (add 7)

abbrev pub packet : List ℕ
packet = pending (add 7) ((of_desc frame).ahead ++ concat ((1 ∷ 2 ∷ []) ∷ []))

pub fresh-Inv : Inv packet (rewrite_hdr (add 7) header) fresh
fresh-Inv =
    new-Inv 0 (7, 3) header (of_desc frame) ((1 ∷ 2 ∷ []) ∷ []) (add 7) add-InRange
      ((λ e. absurd (ground arith)), tt)

abbrev pub queue : RxQueue
queue = record {
  kick = new_kick false;
  wants_kick = true;
  ready = true;
  avail =
      record { head = 4; first = room; more = [] }
      ∷ record { head = 5; first = room; more = [] }
      ∷ [];
  used = [];
}

-- A queue with no chain.
abbrev no_queue : RxQueue
no_queue = record { kick = new_kick false; wants_kick = true; ready = true; avail = []; used = [] }

transfer-ends_example : transfer plain_buffer fresh queue ≢ running fresh queue
transfer-ends_example = transfer-ends plain_buffer fresh fresh queue queue fresh-Inv.range

fresh_waits : transfer plain_buffer fresh no_queue ≡ blocked fresh no_queue
unfolding transfer transfer_loop iterate next_src get_dst work new of_desc add next_chain
fresh_waits = refl

blocked_drop_example :
    (finish_transfer fresh no_queue ≡ assert_failed) ↔ (is_some fresh.dst_header ≡ true)
blocked_drop_example =
    blocked_drop plain_buffer packet (rewrite_hdr (add 7) header) fresh fresh no_queue no_queue
      fresh-Inv fresh_waits

abbrev pub sender : TxQueue
sender = record {
  kick = new_kick false;
  wants_kick = true;
  ready = true;
  avail = record { head = 3; first = room; more = frame ∷ [] } ∷ [];
  finished = [];
}

abbrev pub port7 : Port
port7 = new_port 7 0 queue sender

abbrev pub port8 : Port
port8 = new_port 8 0 queue sender

match_vlan-set_vlan_trunk_example :
    (q : Port) × (set_vlan_trunk (1 ∷ 33 ∷ []) port7 ≡ some q)
    × ((id : ℕ) → match_vlan q id ≡ ((id == vlan_id_trunk) || member id (1 ∷ 33 ∷ [])))
unfolding vlan_valid_id
match_vlan-set_vlan_trunk_example = match_vlan-set_vlan_trunk (1 ∷ 33 ∷ []) port7 refl

abbrev pub request : Request
request = record { head = 3; header = header; pkt = of_desc frame; more = (1 ∷ 2 ∷ []) ∷ [] }

-- The one address whose requests may wait.
abbrev pub Seven : ℕ → Type 0
Seven a = a ≡ 7

abbrev waiting_port : Port
waiting_port = record port8 { pending_requests = fresh ∷ [] }

flood-Spread_example :
    Spread plain_buffer filter_none 0 port7 request 0xffff 2
      (some port7 ∷ some port8 ∷ [])
      (flood plain_buffer filter_none 0 port7 request 0xffff 2 (some port7 ∷ some port8 ∷ []))
flood-Spread_example =
    flood-Spread plain_buffer filter_none 0 port7 request 0xffff 2 (some port7 ∷ some port8 ∷ [])
      ((λ e. absurd (ground arith)), tt)

abbrev pub one_port : Switch
one_port = (add_port port7 (new_switch none 2)).1

one_port-WellFormed : WellFormed one_port
one_port-WellFormed = add_port-WellFormed port7 (new_switch none 2) (new_switch-WellFormed none 2)

check_ports-WellFormed_example : EndsWell (check_ports (λ a. a == 7) one_port)
check_ports-WellFormed_example = check_ports-WellFormed (λ a. a == 7) one_port one_port-WellFormed

pub port7_there : port_at 7 one_port.ports ≡ some port7
unfolding add_port lookup_free_slot free_from place port_at mac_in_use new_switch new_port
    is_unknown
port7_there = refl

pub one_port-Good : Good Seven Seven one_port
unfolding add_port lookup_free_slot free_from place port_at mac_in_use new_switch new_port
    is_unknown
one_port-Good = record {
  formed = one_port-WellFormed;
  owners = λ b o. rw o refl;
  waiting = (tt, (tt, tt));
  monitored = tt;
}

handle_tx_queue-EndsGood_example :
    EndsGood Seven Seven (handle_tx_queue plain_buffer filter_none 0 7 one_port)
handle_tx_queue-EndsGood_example =
    handle_tx_queue-EndsGood Seven Seven plain_buffer filter_none 0 7 port7 one_port one_port-Good
      refl refl port7_there (unfold new_port in (((λ e. absurd (ground arith)), tt), tt))

abbrev tagged_request : Request
tagged_request = record {
  head = 3;
  header = header;
  pkt = of_desc (pending (add 7) frame);
  more = [];
}

vlan_id-add_example : (has_vlan tagged_request ≡ true) × (vlan_id tagged_request ≡ 7)
unfolding of_desc
vlan_id-add_example =
    vlan_id-add tagged_request 7 1 2 3 4 5 6 7 8 9 10 11 12 8 (0 ∷ []) refl (omega arith) refl refl
