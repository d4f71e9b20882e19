-- ===== src/MacTable/Inv.antt =====
-- What holds of the MAC table between two calls: the map and the array of entries agree.
use l4_virtio_net_switch.Prelude.{
  ℕ, ◌+◌, ◌≤◌, ◌<◌, ◌≡◌, refl, sym, some, List, [], ◌∷◌, arith, is_some, true, length,
  length-replicate, get_or-replicate, if◌then◌else◌, set, replicate, zero, suc,
}
use l4_virtio_net_switch.Prelude.OrdMap.{OrdMap, find, IsSorted}
use l4_virtio_net_switch.MacTable.{Entry, vacant, MacTable, entry, init}

-- The map from `lo` on points at occupied entries that hold the key.
pub record Linked (lo : ℕ) (m : OrdMap ℕ) (es : List Entry) : Type 0 where
  pub sorted : IsSorted lo m
  pub in_range : (k i : ℕ) → find k m ≡ some i → i < length es
  pub occupied : (k i : ℕ) → find k m ≡ some i → is_some (entry es i).port ≡ true
  pub keyed : (k i : ℕ) → find k m ≡ some i → (entry es i).addr ≡ k

-- The number of entries in use.
unfoldable pub in_use : List Entry → ℕ
in_use [] = 0
in_use (e ∷ es) = if is_some e.port then in_use es + 1 else in_use es

pub in_use-le : (es : List Entry) → in_use es ≤ length es
unfolding in_use
in_use-le [] = omega arith
in_use-le (e ∷ es) = ground (arith, in_use-le es)

pub in_use-vacant : (n : ℕ) → in_use (replicate n vacant) ≡ 0
unfolding in_use
in_use-vacant zero = refl
in_use-vacant (suc n) = in_use-vacant n

-- A write changes the number in use by the entry that it replaces and the one that it puts there.
pub in_use-set :
    (es : List Entry) (i : ℕ) (e : Entry)
    → i < length es
    → in_use (set es i e) + (if is_some (entry es i).port then 1 else 0)
      ≡ in_use es + (if is_some e.port then 1 else 0)
unfolding in_use
in_use-set [] i e h = elim h [ ]
in_use-set (x ∷ es) zero e h = ground arith
in_use-set (x ∷ es) (suc i) e h = ground (arith, in_use-set es i e)

pub record Inv (size : ℕ) (t : MacTable) : Type 0 where
  pub linked : Linked 0 t.mac_table t.entries
  pub owned :
      (i : ℕ)
      → is_some (entry t.entries i).port ≡ true
      → find (entry t.entries i).addr t.mac_table ≡ some i
  pub sized : length t.entries ≡ size
  pub in_ring : t.rr_index < size
  pub counted : length t.mac_table ≡ in_use t.entries

-- The table never holds more addresses than there are entries.
pub length-le-size : (size : ℕ) (t : MacTable) → Inv size t → length t.mac_table ≤ size
length-le-size size t v = omega (arith, in_use-le t.entries, v.counted, v.sized)

pub init-Inv : (size : ℕ) → 0 < size → Inv size (init size)
unfolding init find
init-Inv size h = record {
  linked = record {
    sorted = tt;
    in_range = λ k i e. cc;
    occupied = λ k i e. cc;
    keyed = λ k i e. cc;
  };
  owned = λ i e. ground (arith, get_or-replicate size i vacant);
  sized = length-replicate size vacant;
  in_ring = h;
  counted = sym (in_use-vacant size);
}
