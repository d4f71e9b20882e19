-- ===== src/Switch/Forward.antt =====
-- server/switch/switch.cc: `handle_tx_queue`, which forwards one packet.
pub mod Sound
pub mod Taking
pub mod Deliver
pub mod Flood
pub mod Frame
pub mod Unicast
pub mod Account
pub mod Grow
pub mod TxFrame
use l4_virtio_net_switch.Prelude.{
  ℕ, zero, suc, Bool, true, false, not, ◌&&◌, Option, none, some, List, [], ◌∷◌, ◌==◌,
  if◌then◌else◌,
}
use l4_virtio_net_switch.Buffer.{DataBuffer}
use l4_virtio_net_switch.MacAddr.{is_broadcast}
use l4_virtio_net_switch.MacTable.{lookup, learn}
use l4_virtio_net_switch.Request.{Request, src_mac, dst_mac, has_vlan, vlan_id}
use l4_virtio_net_switch.Filter.{filter_request}
use l4_virtio_net_switch.Port.{Port, Done, match_vlan, handle_request, get_tx_request}
use l4_virtio_net_switch.Switch.{
  Switch, Ended, ok, threw, crashed, table_size, port_at, store, release,
}

-- How a loop over ports ends.
pub data Status : Type 0 where
  normal : Status
  exception : Status
  crash : Status

abbrev pub ended : Status → Switch → Ended
ended normal sw = ok sw
ended exception sw = threw sw
ended crash sw = crashed

abbrev pub rethrow : Ended → Ended
rethrow (ok sw) = threw sw
rethrow (threw sw) = threw sw
rethrow crashed = crashed

-- The reference of `handle_tx_queue` to the request goes, also when an exception leaves it.
abbrev pub end_request : ℕ × ℕ → Ended → Ended
end_request r (ok sw) = release r sw
end_request r (threw sw) = rethrow (release r sw)
end_request r crashed = crashed

-- `request->has_vlan() ? request->vlan_id() : port->get_vlan()`.
unfoldable pub vlan_of : Port → Request → ℕ
vlan_of src r = if has_vlan r then vlan_id r else src.own_vlan_id

-- `filter` is the filter of the build, and `garbage` as for `handle_request`.
module _ (db : DataBuffer) (filter : List ℕ → ℕ → Bool) (garbage : ℕ) (src : Port)
    (r : Request) where
  -- The port in a slot, after `handle_request`.
  abbrev pub put :
      Port → Done → List (Option Port) → List (Option Port) × Status → List (Option Port) × Status
  put o (Done.ok p) old rest = (some p ∷ rest.0, rest.1)
  put o (Done.threw p) old rest = (some p ∷ old, exception)
  put o Done.failed old rest = (some o ∷ old, crash)

  -- The loop over the ports: it ends at the first empty slot.
  unfoldable pub flood : ℕ → ℕ → List (Option Port) → List (Option Port) × Status
  flood vlan zero ps = (ps, normal)
  flood vlan (suc n) [] = ([], normal)
  flood vlan (suc n) (none ∷ ps) = (none ∷ ps, normal)
  flood vlan (suc n) (some p ∷ ps) =
      let rest = flood vlan n ps in
      if not (p.self == src.self) && match_vlan p vlan
      then put p (handle_request db garbage src p r) ps rest
      else (some p ∷ rest.0, rest.1)

  abbrev pub put_monitor : Done → Switch → Ended
  put_monitor (Done.ok p) sw = ok (record sw { monitor = some p })
  put_monitor (Done.threw p) sw = threw (record sw { monitor = some p })
  put_monitor Done.failed sw = crashed

  unfoldable pub copy_to_monitor : Switch → Ended
  copy_to_monitor sw = elim sw.monitor [
    | none ↦ ok sw
    | some m ↦
        if not (filter_request filter r)
        then put_monitor (handle_request db garbage src m r) sw
        else ok sw
  ]

  abbrev pub put_target : Done → Switch → Ended
  put_target (Done.ok p) sw = copy_to_monitor (record sw { ports = store p sw.ports })
  put_target (Done.threw p) sw = threw (record sw { ports = store p sw.ports })
  put_target Done.failed sw = crashed

  -- The address leads to a port in the MAC table.
  unfoldable pub to_target : ℕ → ℕ → Switch → Ended
  to_target vlan target sw = if target == src.self then ok sw else elim (port_at target sw.ports) [
    | none ↦ crashed
    | some p ↦
        if match_vlan p vlan then put_target (handle_request db garbage src p r) sw else ok sw
  ]

  abbrev pub flooded : Switch → List (Option Port) × Status → Ended
  flooded sw (ps, normal) = copy_to_monitor (record sw { ports = ps })
  flooded sw (ps, exception) = threw (record sw { ports = ps })
  flooded sw (ps, crash) = crashed

  unfoldable pub to_all : ℕ → Switch → Ended
  to_all vlan sw = flooded sw (flood vlan sw.max_used sw.ports)

  unfoldable pub forward : Switch → Ended
  forward sw =
      let sw' = record sw { mac_table = learn table_size sw.mac_table (src_mac r) src.self } in
      let vlan = vlan_of src r in
      if is_broadcast (dst_mac r)
      then to_all vlan sw'
      else elim (lookup sw'.mac_table (dst_mac r)) [
        | some target ↦ to_target vlan target sw'
        | none ↦ to_all vlan sw'
      ]

-- The transmission queue of the port at an address.
unfoldable pub handle_tx_queue : DataBuffer → (List ℕ → ℕ → Bool) → ℕ → ℕ → Switch → Ended
handle_tx_queue db filter garbage port sw = elim (port_at port sw.ports) [
  | none ↦ crashed
  | some p ↦
      let (request, src) = get_tx_request db p in
      let sw' = record sw { ports = store src sw.ports } in
      elim request [
        | none ↦ ok sw'
        | some r ↦ end_request (src.self, r.head) (forward db filter garbage src r sw')
      ]
]
