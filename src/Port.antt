-- ===== src/Port.antt =====
-- server/switch/port.h: a port, its VLANs, and the transfers that wait for its receive queue.
pub mod Vlans
pub mod Deliver
pub mod Interrupts
use Prim.Native.Nat.{bit_and, bit_or}
use l4_virtio_net_switch.Prelude.{
  ℕ, ◌+◌, ◌*◌, ◌%◌, ◌^◌, Bool, true, false, not, ◌&&◌, ◌||◌, Option, none, some, is_some, List, [],
  ◌∷◌, ◌++◌, ◌==◌, if◌then◌else◌,
}
use l4_virtio_net_switch.Prelude.Bits.{◌<<<◌, u32}
use l4_virtio_net_switch.Prelude.OrdMap.{OrdMap, find, insert}
use l4_virtio_net_switch.Kick.{kick_enable_get_pending, kick_disable_and_remember}
use l4_virtio_net_switch.Buffer.{DataBuffer}
use l4_virtio_net_switch.Vlan.{
  Mangle, vlan_id_native, vlan_id_trunk, vlan_valid_id, untouched, add, remove,
}
use l4_virtio_net_switch.Transfer.{
  Transfer, RxQueue, new, Outcome, delivered, blocked, too_small, aborted, running, transfer,
  Finish, finished, assert_failed, finish_transfer,
}
use l4_virtio_net_switch.Request.{
  Request, TxQueue, get_request, finish_request, has_vlan, vlan_id, drop_requests,
}

-- `std::set<l4_uint16_t>`: its elements, in order.
abbrev pub VlanSet : Type 0
VlanSet = OrdMap (Unit {0})

abbrev pub contains : ℕ → VlanSet → Bool
contains id s = is_some (find id s)

unfoldable pub set_insert : ℕ → VlanSet → VlanSet
set_insert id s = if contains id s then s else insert id tt s

-- `self` is the address of the object, by which the switch and the MAC table refer to it. `emitted`
-- counts the interrupts that `kick_emit_and_enable` has raised.
pub record Port : Type 0 where
  pub self : ℕ
  pub own_vlan_id : ℕ
  pub vlan_bloom_filter : ℕ
  pub vlan_ids : VlanSet
  pub pending_requests : List Transfer
  pub mac : ℕ
  pub rx : RxQueue
  pub tx : TxQueue
  pub emitted : ℕ

-- `1UL << (vid & 31U)`, cut to 32 bits.
unfoldable pub vlan_bloom_hash : ℕ → ℕ
vlan_bloom_hash vid = u32 (1 <<< bit_and vid 31)

unfoldable pub is_trunk : Port → Bool
is_trunk p = p.own_vlan_id == vlan_id_trunk

unfoldable pub is_native : Port → Bool
is_native p = p.own_vlan_id == vlan_id_native

unfoldable pub is_access : Port → Bool
unfolding is_trunk is_native
is_access p = not (is_trunk p) && not (is_native p)

-- A new port, with the queues of its client: a native port with nothing pending.
unfoldable pub new_port : ℕ → ℕ → RxQueue → TxQueue → Port
new_port self mac rx tx = record {
  self = self;
  own_vlan_id = vlan_id_native;
  vlan_bloom_filter = 0;
  vlan_ids = [];
  pending_requests = [];
  mac = mac;
  rx = rx;
  tx = tx;
  emitted = 0;
}

-- `none` is a failed `assert(vlan_valid_id(id))`.
unfoldable pub set_vlan_access : ℕ → Port → Option Port
set_vlan_access id p =
    if vlan_valid_id id
    then some (record p { own_vlan_id = id; vlan_bloom_filter = 0; vlan_ids = [] })
    else none

-- The loop of `set_vlan_trunk` over the ids.
unfoldable pub collect : List ℕ → ℕ → VlanSet → Option (ℕ × VlanSet)
collect [] filter s = some (filter, s)
collect (id ∷ ids) filter s =
    let rest = collect ids (bit_or filter (vlan_bloom_hash id)) (set_insert id s) in
    if vlan_valid_id id then rest else none

unfoldable pub set_vlan_trunk : List ℕ → Port → Option Port
set_vlan_trunk ids p = elim (collect ids 0 []) [
  | none ↦ none
  | some (filter, s) ↦
      some (record p { own_vlan_id = vlan_id_trunk; vlan_bloom_filter = filter; vlan_ids = s })
]

unfoldable pub set_monitor : Port → Port
set_monitor p = record p { own_vlan_id = vlan_id_trunk; vlan_bloom_filter = 0 }

unfoldable pub match_vlan : Port → ℕ → Bool
match_vlan p id =
    if id == p.own_vlan_id
    then true
    else if bit_and p.vlan_bloom_filter (vlan_bloom_hash id) == 0
    then false
    else contains id p.vlan_ids

-- The tests of `get_tx_request` on a request.
unfoldable pub admits : Port → Request → Bool
admits p r =
    if is_trunk p
    then contains (vlan_id r) p.vlan_ids
    else if is_access p && has_vlan r
    then false
    else true

-- The rewriting that `handle_request` chooses for a packet from `src`.
unfoldable pub mangle_for : Port → Port → Mangle
mangle_for src dst =
    if is_trunk dst
    then (if not (is_trunk src) && not (is_native src) then add src.own_vlan_id else untouched)
    else (if is_trunk src then remove else untouched)

-- How a method ends: as it should, by the exception of `transfer`, or in a failed assertion.
pub data Done : Type 0 where
  ok : Port → Done
  threw : Port → Done
  failed : Done

unfoldable pub rx_work_pending : Port → Bool
rx_work_pending p = elim p.pending_requests [
  | [] ↦ false
  | t ∷ ts ↦ elim p.rx.avail [ [] ↦ false | c ∷ cs ↦ p.rx.ready ]
]

unfoldable pub tx_work_pending : Port → Bool
tx_work_pending p = elim p.tx.avail [ [] ↦ false | c ∷ cs ↦ p.tx.ready ]

-- The two loops over the queues of a device.
unfoldable pub emit_and_enable : Port → Port
emit_and_enable p =
    let (rx_pending, rx_kick) = kick_enable_get_pending p.rx.kick in
    let (tx_pending, tx_kick) = kick_enable_get_pending p.tx.kick in
    record p {
      rx = record p.rx { kick = rx_kick };
      tx = record p.tx { kick = tx_kick };
      emitted = if rx_pending || tx_pending then p.emitted + 1 else p.emitted;
    }

unfoldable pub disable_and_remember : Port → Port
disable_and_remember p = record p {
  rx = record p.rx { kick = kick_disable_and_remember p.rx.kick };
  tx = record p.tx { kick = kick_disable_and_remember p.tx.kick };
}

-- `disable_notify` and `enable_notify` of both queues.
unfoldable pub set_notify : Bool → Port → Port
set_notify b p = record p {
  rx = record p.rx { wants_kick = b };
  tx = record p.tx { wants_kick = b };
}

-- The interrupts that the client of a port has got.
unfoldable pub interrupts : Port → ℕ
interrupts p = p.rx.kick.irqs + p.tx.kick.irqs + p.emitted

module _ (db : DataBuffer) where
  -- A request that is not admitted is deleted, which finishes it.
  unfoldable pub get_tx_request : Port → Option Request × Port
  get_tx_request p =
      let (request, q) = get_request db p.tx in
      elim request [
        | none ↦ (none, record p { tx = q })
        | some r ↦
            if admits p r
            then (some r, record p { tx = q })
            else (none, record p { tx = finish_request r.head q })
      ]

  -- What becomes of a transfer after its call in `handle_request`.
  unfoldable pub settle : Port → Outcome → Done
  settle p (delivered t q) = ok (record p { rx = q })
  settle p (blocked t q) =
      ok (record p { rx = q; pending_requests = p.pending_requests ++ (t ∷ []) })
  settle p (too_small t q) = threw (record p { rx = q })
  settle p aborted = failed
  settle p (running t q) = failed

  -- `handle_request` of the port `p`. `garbage` is the uninitialised `_total` of the transfer. The
  -- timeout is set with the transfer's place in the list of pending requests.
  unfoldable pub handle_request : ℕ → Port → Port → Request → Done
  handle_request garbage src p r =
      settle p
        (transfer db (new garbage (src.self, r.head) r.header r.pkt r.more (mangle_for src p)) p.rx)

  -- The loop of `handle_rx_queue`, over the transfers that wait.
  unfoldable pub retry : Port → List Transfer → Done
  retry p [] = ok (record p { pending_requests = [] })
  retry p (t ∷ ts) = elim (transfer db t p.rx) [
    | delivered t' q ↦ retry (record p { rx = q }) ts
    | blocked t' q ↦ ok (record p { rx = q; pending_requests = t' ∷ ts })
    | too_small t' q ↦ threw (record p { rx = q; pending_requests = ts })
    | aborted ↦ failed
    | running t' q ↦ failed
  ]

  unfoldable pub handle_rx_queue : Port → Done
  handle_rx_queue p = retry p p.pending_requests

-- The destructor of a port deletes its transfers. `none` is a failed assertion.
unfoldable pub delete_pending : List Transfer → RxQueue → Option RxQueue
delete_pending [] q = some q
delete_pending (t ∷ ts) q = elim (finish_transfer t q) [
  | finished t' q' ↦ delete_pending ts q'
  | assert_failed ↦ none
]
