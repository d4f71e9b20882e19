-- ===== src/MacTable/Flush.antt =====
-- server/switch/mac_table.h: what `flush` does to the table.
use l4_virtio_net_switch.Prelude.{
  ℕ, suc, ◌+◌, ◌<◌, ◌≡◌, ◌≢◌, refl, Option, none, some, List, [], ◌∷◌, arith, false, ◌&&◌, length,
  length-set, get_or-set, if◌then◌else◌, set, inl, inr, Option-cases, ◌==◌, points_to,
}
use l4_virtio_net_switch.Prelude.OrdMap.{OrdMap, find, IsSorted, find_below, IsSorted-mono}
use l4_virtio_net_switch.MacTable.{Entry, vacant, MacTable, entry, lookup, flush_from, flush}
use l4_virtio_net_switch.MacTable.Inv.{Linked, Inv, in_use, in_use-set}

-- The rest of a linked map does not have the first key.
find-rest :
    (lo k i q j : ℕ) (m : OrdMap ℕ) (es : List Entry)
    → Linked lo ((k, i) ∷ m) es
    → find q m ≡ some j
    → (q ≢ k) × (find q ((k, i) ∷ m) ≡ some j)
unfolding find
find-rest lo k i q j m es v e =
    let ne : q ≢ k = λ same. ground (arith, find_below q (suc k) m v.sorted.1) in (ne, ground arith)

first-find : (lo k i : ℕ) (m : OrdMap ℕ) → find k ((k, i) ∷ m) ≡ some i
unfolding find
first-find lo k i m = ground arith

module _ (lo k i : ℕ) (m : OrdMap ℕ) (es : List Entry) (v : Linked lo ((k, i) ∷ m) es) where
  first_in_range : i < length es
  first_in_range = v.in_range k i (first-find lo k i m)

  first_keyed : (entry es i).addr ≡ k
  first_keyed = v.keyed k i (first-find lo k i m)

  -- No other key points at the entry of the first.
  rest-ne : (q j : ℕ) → find q m ≡ some j → (i == j) ≡ false
  rest-ne q j e =
      let (ne, f) = find-rest lo k i q j m es v e in ground (arith, v.keyed q j f, first_keyed)

  rest-Linked : Linked (suc k) m es
  rest-Linked = record {
    sorted = v.sorted.1;
    in_range = λ q j e. v.in_range q j (find-rest lo k i q j m es v e).1;
    occupied = λ q j e. v.occupied q j (find-rest lo k i q j m es v e).1;
    keyed = λ q j e. v.keyed q j (find-rest lo k i q j m es v e).1;
  }

  cleared-Linked : Linked (suc k) m (set es i vacant)
  cleared-Linked = record {
    sorted = v.sorted.1;
    in_range = λ q j e. omega (arith, length-set es i vacant, rest-Linked.in_range q j e);
    occupied = λ q j e. ground (
      arith,
      get_or-set es i j vacant vacant first_in_range,
      rest-ne q j e,
      rest-Linked.occupied q j e,
    );
    keyed = λ q j e. ground (
      arith,
      get_or-set es i j vacant vacant first_in_range,
      rest-ne q j e,
      rest-Linked.keyed q j e,
    );
  }

abbrev kept : ℕ → List Entry → Option ℕ → Option ℕ
kept port es none = none
kept port es (some i) = if points_to (entry es i).port port then none else some i

-- The map keeps exactly the keys whose entries are of other ports.
find-flush_from :
    (port q lo : ℕ) (m : OrdMap ℕ) (es : List Entry)
    → Linked lo m es
    → find q (flush_from port m es).0 ≡ kept port es (find q m)
unfolding flush_from find
find-flush_from port q lo [] es v = refl
find-flush_from port q lo ((k, i) ∷ m) es v = elim (Option-cases (find q m)) [
  | inl e ↦ ground (
    arith,
    find-flush_from port q (suc k) m es (rest-Linked lo k i m es v),
    find-flush_from port q (suc k) m (set es i vacant) (cleared-Linked lo k i m es v),
  )
  | inr (j, e) ↦ ground (
    arith,
    find-flush_from port q (suc k) m es (rest-Linked lo k i m es v),
    find-flush_from port q (suc k) m (set es i vacant) (cleared-Linked lo k i m es v),
    rest-ne lo k i m es v q j e,
    find-rest lo k i q j m es v e,
    get_or-set es i j vacant vacant (first_in_range lo k i m es v),
  )
]

-- The entries that are cleared are those of the port that the map points at.
entry-flush_from :
    (port j lo : ℕ) (m : OrdMap ℕ) (es : List Entry)
    → Linked lo m es
    → entry (flush_from port m es).1 j ≡ (
        if points_to (find (entry es j).addr m) j && points_to (entry es j).port port
        then vacant
        else entry es j)
unfolding flush_from find
entry-flush_from port j lo [] es v = refl
entry-flush_from port j lo ((k, i) ∷ m) es v = ground (
  arith,
  entry-flush_from port j (suc k) m es (rest-Linked lo k i m es v),
  entry-flush_from port j (suc k) m (set es i vacant) (cleared-Linked lo k i m es v),
  first_keyed lo k i m es v,
  find_below k (suc k) m v.sorted.1,
  get_or-set es i j vacant vacant (first_in_range lo k i m es v),
)

flush_from-IsSorted :
    (port lo : ℕ) (m : OrdMap ℕ) (es : List Entry)
    → IsSorted lo m
    → IsSorted lo (flush_from port m es).0
unfolding flush_from
flush_from-IsSorted port lo [] es s = tt
flush_from-IsSorted port lo ((k, i) ∷ m) es s = ground (
  arith,
  flush_from-IsSorted port (suc k) m es s.1,
  flush_from-IsSorted port (suc k) m (set es i vacant) s.1,
  IsSorted-mono lo (suc k) (flush_from port m (set es i vacant)).0,
)

length-flush_from :
    (port : ℕ) (m : OrdMap ℕ) (es : List Entry) → length (flush_from port m es).1 ≡ length es
unfolding flush_from
length-flush_from port [] es = refl
length-flush_from port ((k, i) ∷ m) es = ground (
  arith,
  length-flush_from port m es,
  length-flush_from port m (set es i vacant),
  length-set es i vacant,
)

-- Each node that goes frees one entry.
counted-flush_from :
    (port lo : ℕ) (m : OrdMap ℕ) (es : List Entry)
    → Linked lo m es
    → length (flush_from port m es).0 + in_use es ≡ in_use (flush_from port m es).1 + length m
unfolding flush_from
counted-flush_from port lo [] es v = omega arith
counted-flush_from port lo ((k, i) ∷ m) es v = ground (
  arith,
  counted-flush_from port (suc k) m es (rest-Linked lo k i m es v),
  counted-flush_from port (suc k) m (set es i vacant) (cleared-Linked lo k i m es v),
  v.occupied k i (first-find lo k i m),
  in_use-set es i vacant (first_in_range lo k i m es v),
)

module _ (size : ℕ) (t : MacTable) (port : ℕ) (v : Inv size t) where
  map_after : (q : ℕ) → find q (flush t port).mac_table ≡ kept port t.entries (find q t.mac_table)
  unfolding flush
  map_after q = find-flush_from port q 0 t.mac_table t.entries v.linked

  -- Every occupied entry is pointed at, so exactly the entries of the port are cleared.
  pub entry_after :
      (j : ℕ)
      → entry (flush t port).entries j
        ≡ (if points_to (entry t.entries j).port port then vacant else entry t.entries j)
  unfolding flush
  entry_after j =
      ground (arith, entry-flush_from port j 0 t.mac_table t.entries v.linked, v.owned j)

  -- What the map still points at was there before, and is of another port.
  survivor :
      (k i : ℕ)
      → find k (flush t port).mac_table ≡ some i
      → (find k t.mac_table ≡ some i) × (points_to (entry t.entries i).port port ≡ false)
  survivor k i e = elim (Option-cases (find k t.mac_table)) [
    | inl absent ↦ absurd (ground (arith, map_after k))
    | inr (j, f) ↦ ground (arith, map_after k)
  ]

  -- Flushing a port keeps the map and the entries in agreement.
  pub flush-Inv : Inv size (flush t port)
  unfolding flush
  flush-Inv = record {
    linked = record {
      sorted = flush_from-IsSorted port 0 t.mac_table t.entries v.linked.sorted;
      in_range = λ k i e.
          let (f, _) = survivor k i e in
          omega (arith, v.linked.in_range k i f, length-flush_from port t.mac_table t.entries);
      occupied = λ k i e.
          let (f, other) = survivor k i e in ground (arith, entry_after i, v.linked.occupied k i f);
      keyed = λ k i e.
          let (f, other) = survivor k i e in ground (arith, entry_after i, v.linked.keyed k i f);
    };
    owned = λ i o. ground (arith, entry_after i, v.owned i, map_after (entry t.entries i).addr);
    sized = omega (arith, v.sized, length-flush_from port t.mac_table t.entries);
    in_ring = v.in_ring;
    counted = omega (arith, v.counted, counted-flush_from port 0 t.mac_table t.entries v.linked);
  }

  -- Afterwards no address leads to the port, and every other association is as it was.
  pub lookup-flush :
      (q : ℕ) → lookup (flush t port) q ≡ (if points_to (lookup t q) port then none else lookup t q)
  unfolding lookup
  lookup-flush q = elim (Option-cases (find q t.mac_table)) [
    | inl e ↦ ground (arith, map_after q)
    | inr (j, e) ↦ ground (arith, map_after q, entry_after j)
  ]
