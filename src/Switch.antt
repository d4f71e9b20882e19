-- ===== src/Switch.antt =====
-- server/switch/switch.h and switch.cc: the ports, and what happens to them. A pointer to a port is
-- its address, the field `self`; the object itself stands in the slot, or is the monitor.
pub mod Slots
pub mod Forward
pub mod Removal
pub mod Same
pub mod Cleared
pub mod Leaving
pub mod Departure
pub mod Survive
pub mod Checked
pub mod Irq
pub mod Timeout
use l4_virtio_net_switch.Prelude.{
  ℕ, zero, suc, ◌+◌, ◌-◌, Bool, true, false, not, ◌&&◌, ◌||◌, Option, none, some, is_some, List, [],
  ◌∷◌, ◌++◌, ◌==◌, ltb, if◌then◌else◌, get_or, set, replicate, map,
}
use l4_virtio_net_switch.MacAddr.{is_unknown, eq}
use l4_virtio_net_switch.MacTable.{MacTable, init, flush}
use l4_virtio_net_switch.Transfer.{Transfer}
use l4_virtio_net_switch.Port.{Port, delete_pending}
use l4_virtio_net_switch.Request.{finish_request}

-- `ports` has `_max_ports` slots.
pub record Switch : Type 0 where
  pub ports : List (Option Port)
  pub monitor : Option Port
  pub max_ports : ℕ
  pub max_used : ℕ
  pub mac_table : MacTable

-- How an operation of the switch ends: as it should, by an exception, or in what the language does
-- not define: a failed assertion, or the use of a port that is deleted.
pub data Ended : Type 0 where
  ok : Switch → Ended
  threw : Switch → Ended
  crashed : Ended

-- The default `Size` of the MAC table.
abbrev pub table_size : ℕ
table_size = 1024

-- The constructor. It leaves `_monitor` as it finds it; `garbage` is what the memory holds.
unfoldable pub new_switch : Option Port → ℕ → Switch
new_switch garbage max_ports = record {
  ports = replicate max_ports none;
  monitor = garbage;
  max_ports = max_ports;
  max_used = 0;
  mac_table = init table_size;
}

-- The loop of `lookup_free_slot` from a slot on; `none` is -1.
unfoldable pub free_from : ℕ → List (Option Port) → Option ℕ
free_from i [] = none
free_from i (none ∷ ps) = some i
free_from i (some p ∷ ps) = free_from (i + 1) ps

unfoldable pub lookup_free_slot : Switch → Option ℕ
unfolding free_from
lookup_free_slot sw = free_from 0 sw.ports

unfoldable pub port_available : Bool → Switch → Option ℕ
port_available true sw = elim sw.monitor [ none ↦ some 0 | some m ↦ none ]
port_available false sw = lookup_free_slot sw

-- The loop of `add_port` that looks for the address.
unfoldable pub mac_in_use : ℕ → List (Option Port) → Bool
mac_in_use mac [] = false
mac_in_use mac (none ∷ ps) = mac_in_use mac ps
mac_in_use mac (some p ∷ ps) = eq p.mac mac || mac_in_use mac ps

unfoldable pub place : Port → Option ℕ → Switch → Bool × Switch
place port none sw = (false, sw)
place port (some i) sw = (
  true,
  record sw {
    ports = set sw.ports i (some port);
    max_used = if sw.max_used == i then sw.max_used + 1 else sw.max_used;
  },
)

unfoldable pub add_port : Port → Switch → Bool × Switch
add_port port sw =
    if not (is_unknown port.mac) && mac_in_use port.mac sw.ports
    then (false, sw)
    else place port (lookup_free_slot sw) sw

unfoldable pub add_monitor_port : Port → Switch → Bool × Switch
add_monitor_port port sw = elim sw.monitor [
  | none ↦ (true, record sw { monitor = some port })
  | some m ↦ (false, sw)
]

-- The object that a pointer leads to; `none` where there is none any more.
unfoldable pub port_at : ℕ → List (Option Port) → Option Port
port_at a [] = none
port_at a (none ∷ ps) = port_at a ps
port_at a (some p ∷ ps) = if p.self == a then some p else port_at a ps

-- The slots once the object at its address has become `p`.
unfoldable pub store : Port → List (Option Port) → List (Option Port)
store p [] = []
store p (none ∷ ps) = none ∷ store p ps
store p (some o ∷ ps) = if o.self == p.self then some p ∷ ps else some o ∷ store p ps

-- A request is shared: the transfers of all ports hold it.
unfoldable pub holds : ℕ × ℕ → List Transfer → Bool
holds r [] = false
holds r (t ∷ ts) = t.request.0 == r.0 && t.request.1 == r.1 || holds r ts

unfoldable pub held_in : ℕ × ℕ → List (Option Port) → Bool
held_in r [] = false
held_in r (none ∷ ps) = held_in r ps
held_in r (some p ∷ ps) = holds r p.pending_requests || held_in r ps

abbrev pub held_by : ℕ × ℕ → Option Port → Bool
held_by r none = false
held_by r (some p) = holds r p.pending_requests

-- The end of a reference to a request. The last one finishes it, in the queue of the port that
-- sent it.
unfoldable pub release : ℕ × ℕ → Switch → Ended
release r sw =
    if held_in r sw.ports || held_by r sw.monitor then ok sw else elim (port_at r.0 sw.ports) [
      | none ↦ crashed
      | some p ↦
          ok (record sw { ports = store (record p { tx = finish_request r.1 p.tx }) sw.ports })
    ]

-- The requests of transfers that are gone, one after the other.
unfoldable pub release_all : List Transfer → Switch → Ended
release_all [] sw = ok sw
release_all (t ∷ ts) sw = elim (release t.request sw) [
  | ok sw' ↦ release_all ts sw'
  | threw sw' ↦ threw sw'
  | crashed ↦ crashed
]

-- `delete(port)`, on a port that is in no slot.
unfoldable pub delete_port : Port → Switch → Ended
delete_port p sw = elim (delete_pending p.pending_requests p.rx) [
  | none ↦ crashed
  | some q ↦ release_all p.pending_requests sw
]

-- The body of the loop of `check_ports` for a port whose client is gone.
unfoldable pub remove_port : ℕ → Port → Switch → Ended
remove_port i p sw = delete_port p (record sw {
  ports = set sw.ports i none;
  max_used = if i == sw.max_used - 1 then sw.max_used - 1 else sw.max_used;
  mac_table = flush sw.mac_table p.self;
})

-- `gone` tells of each port whether its client is: its capability is there and no longer valid.
module _ (gone : ℕ → Bool) where
  unfoldable pub check_slot : ℕ → Switch → Ended
  check_slot i sw = elim (get_or sw.ports i none) [
    | none ↦ ok sw
    | some p ↦ if gone p.self then remove_port i p sw else ok sw
  ]

  -- The loop, for at most so many slots from one on: `_max_used` never grows in it.
  unfoldable pub check_from : ℕ → ℕ → Switch → Ended
  check_from zero i sw = ok sw
  check_from (suc n) i sw = if not (ltb i sw.max_used) then ok sw else elim (check_slot i sw) [
    | ok sw' ↦ check_from n (i + 1) sw'
    | threw sw' ↦ threw sw'
    | crashed ↦ crashed
  ]

  unfoldable pub check_monitor : Switch → Ended
  check_monitor sw = elim sw.monitor [
    | none ↦ ok sw
    | some m ↦ if gone m.self then delete_port m (record sw { monitor = none }) else ok sw
  ]

  unfoldable pub check_ports : Switch → Ended
  check_ports sw = elim (check_from sw.max_used 0 sw) [
    | ok sw' ↦ check_monitor sw'
    | threw sw' ↦ threw sw'
    | crashed ↦ crashed
  ]
