-- ===== src/MacTable.antt =====
-- server/switch/mac_table.h: which port a MAC address was last seen on. A port is its address, a
-- number; `Entry *` is an index into the array of entries. The debug output of `learn` is left out.
pub mod Inv
pub mod Learn
pub mod Flush
pub mod Ages
pub mod Queue
pub mod Refine
use l4_virtio_net_switch.Prelude.{
  ℕ, ◌+◌, ◌%◌, Option, none, some, List, [], ◌∷◌, if◌then◌else◌, is_some, points_to, get_or, set,
  replicate,
}
use l4_virtio_net_switch.Prelude.OrdMap.{OrdMap, find, insert, erase}

pub record Entry : Type 0 where
  pub port : Option ℕ
  pub addr : ℕ

-- `Entry()`: no port, and the unknown address.
abbrev pub vacant : Entry
vacant = record { port = none; addr = 0 }

pub record MacTable : Type 0 where
  pub mac_table : OrdMap ℕ
  pub entries : List Entry
  pub rr_index : ℕ

abbrev pub entry : List Entry → ℕ → Entry
entry es i = get_or es i vacant

unfoldable pub lookup : MacTable → ℕ → Option ℕ
lookup t dst = elim (find dst t.mac_table) [ none ↦ none | some i ↦ (entry t.entries i).port ]

-- The loop of `flush`, from an iterator on: `find_if` skips the nodes of other ports.
unfoldable pub flush_from : ℕ → OrdMap ℕ → List Entry → OrdMap ℕ × List Entry
flush_from port [] es = ([], es)
flush_from port ((k, i) ∷ m) es =
    let hit = flush_from port m (set es i vacant) in
    let skip = flush_from port m es in
    if points_to (entry es i).port port then hit else ((k, i) ∷ skip.0, skip.1)

unfoldable pub flush : MacTable → ℕ → MacTable
unfolding flush_from
flush t port =
    let (m, es) = flush_from port t.mac_table t.entries in record t { mac_table = m; entries = es }

-- The template parameter `Size`.
module _ (size : ℕ) where
  unfoldable pub init : MacTable
  init = record { mac_table = []; entries = replicate size vacant; rr_index = 0 }

  -- The branch of a new address. The index is below `Size`, so its sum does not wrap.
  unfoldable pub learn_new : MacTable → ℕ → ℕ → MacTable
  learn_new t src port =
      let emplaced = insert src t.rr_index t.mac_table in
      let old = entry t.entries t.rr_index in
      record {
        mac_table = if is_some old.port then erase old.addr emplaced else emplaced;
        entries = set t.entries t.rr_index (record { port = some port; addr = src });
        rr_index = (t.rr_index + 1) % size;
      }

  unfoldable pub learn : MacTable → ℕ → ℕ → MacTable
  unfolding learn_new
  learn t src port = elim (find src t.mac_table) [
    | none ↦ learn_new t src port
    | some i ↦ record t {
      entries = set t.entries i (record (entry t.entries i) { port = some port });
    }
  ]
