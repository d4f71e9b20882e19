-- ===== src/MacTable/Learn.antt =====
-- server/switch/mac_table.h: what `learn` does to the table.
use l4_virtio_net_switch.Prelude.{
  ℕ, ◌<◌, ◌≡◌, ap, Option, none, some, arith, is_some, true, false, ◌&&◌, not, length, length-set,
  get_or-set, if◌then◌else◌, set, inl, inr, Option-cases, ◌==◌,
}
use l4_virtio_net_switch.Prelude.OrdMap.{
  find, insert, find-insert, find-erase, insert-IsSorted, erase-IsSorted, length-insert,
  length-erase,
}
use l4_virtio_net_switch.MacTable.{Entry, vacant, MacTable, entry, lookup, learn_new, learn}
use l4_virtio_net_switch.MacTable.Inv.{Linked, Inv, in_use, in_use-set}

module _ (size : ℕ) (t : MacTable) (src port : ℕ) (v : Inv size t) where
  -- The entry that a new address takes over.
  abbrev pub old : Entry
  old = entry t.entries t.rr_index

  in_bounds : t.rr_index < length t.entries
  in_bounds = omega (arith, v.in_ring, v.sized)

  -- An occupied old entry is not under the new address.
  old-ne-src : find src t.mac_table ≡ none → is_some old.port ≡ true → (old.addr == src) ≡ false
  old-ne-src new o = ground (arith, v.owned t.rr_index, ap (λ a. find a t.mac_table))

  -- The map after a new address: the evicted key is gone, the new one points at the old entry.
  pub find-learn_new :
      (k : ℕ)
      → find src t.mac_table ≡ none
      → find k (learn_new size t src port).mac_table ≡ (
          if is_some old.port && (k == old.addr)
          then none
          else if k == src
          then some t.rr_index
          else find k t.mac_table)
  unfolding learn_new
  find-learn_new k new =
      let ins = insert-IsSorted src 0 t.rr_index t.mac_table new (omega arith) v.linked.sorted in
      ground (
        arith,
        find-insert k src t.rr_index t.mac_table new,
        find-erase k old.addr 0 (insert src t.rr_index t.mac_table) ins,
      )

  set-entry :
      (i : ℕ) (e : Entry)
      → entry (set t.entries t.rr_index e) i ≡ (if t.rr_index == i then e else entry t.entries i)
  set-entry i e = get_or-set t.entries t.rr_index i e vacant in_bounds

  learn_new-Linked :
      find src t.mac_table ≡ none
      → let u = learn_new size t src port in Linked 0 u.mac_table u.entries
  unfolding learn_new
  learn_new-Linked new = record {
    sorted = ground (
      arith,
      insert-IsSorted src 0 t.rr_index t.mac_table new,
      erase-IsSorted old.addr 0 (insert src t.rr_index t.mac_table),
      v.linked.sorted,
    );
    in_range = λ k i e. ground (
      arith,
      find-learn_new k new,
      length-set t.entries t.rr_index fresh,
      v.linked.in_range k i,
      in_bounds,
    );
    occupied = λ k i e.
        ground (
          arith,
          find-learn_new k new,
          set-entry i fresh,
          v.linked.occupied k i,
          v.linked.keyed k i,
        );
    keyed = λ k i e.
        ground (
          arith,
          find-learn_new k new,
          set-entry i fresh,
          v.linked.occupied k i,
          v.linked.keyed k i,
        );
  }
    where
      fresh : Entry
      fresh = record { port = some port; addr = src }

  counted_new :
      find src t.mac_table ≡ none
      → let u = learn_new size t src port in length u.mac_table ≡ in_use u.entries
  unfolding learn_new
  counted_new new = ground (
    arith,
    v.counted,
    v.owned t.rr_index,
    old-ne-src new,
    in_use-set t.entries t.rr_index (record { port = some port; addr = src }) in_bounds,
    length-insert src t.rr_index t.mac_table,
    find-insert old.addr src t.rr_index t.mac_table new,
    length-erase old.addr (insert src t.rr_index t.mac_table) t.rr_index,
  )

  learn_new-Inv : find src t.mac_table ≡ none → Inv size (learn_new size t src port)
  unfolding learn_new
  learn_new-Inv new = record {
    linked = learn_new-Linked new;
    owned = λ i o. ground (
      arith,
      find-learn_new (entry (learn_new size t src port).entries i).addr new,
      set-entry i (record { port = some port; addr = src }),
      old-ne-src new,
      v.owned i,
      v.owned t.rr_index,
    );
    sized =
        omega (
          arith,
          v.sized,
          length-set t.entries t.rr_index (record { port = some port; addr = src }),
        );
    in_ring = omega (arith, v.in_ring);
    counted = counted_new new;
  }

  module _ (i : ℕ) (known : find src t.mac_table ≡ some i) where
    abbrev moved : Entry
    moved = record { port = some port; addr = (entry t.entries i).addr }

    set-moved :
        (j : ℕ) (e : Entry)
        → entry (set t.entries i e) j ≡ (if i == j then e else entry t.entries j)
    set-moved j e = get_or-set t.entries i j e vacant (v.linked.in_range src i known)

    learn_known-Inv : Inv size (record t { entries = set t.entries i moved })
    learn_known-Inv = record {
      linked = record {
        sorted = v.linked.sorted;
        in_range = λ k j e. ground (arith, length-set t.entries i moved, v.linked.in_range k j e);
        occupied = λ k j e. ground (arith, set-moved j moved, v.linked.occupied k j e);
        keyed = λ k j e. ground (arith, set-moved j moved, v.linked.keyed k j e);
      };
      owned = λ j o.
          ground (arith, set-moved j moved, v.owned j, v.owned i, v.linked.keyed src i known);
      sized = omega (arith, v.sized, length-set t.entries i moved);
      in_ring = v.in_ring;
      counted = ground (
        arith,
        v.counted,
        v.linked.occupied src i known,
        in_use-set t.entries i moved (v.linked.in_range src i known),
      );
    }

  -- Learning an address keeps the map and the entries in agreement.
  pub learn-Inv : Inv size (learn size t src port)
  unfolding learn
  learn-Inv = elim (Option-cases (find src t.mac_table)) [
    | inl new ↦ rw (new, learn) (learn_new-Inv new)
    | inr (i, known) ↦ rw (known, learn) (learn_known-Inv i known)
  ]

  -- Where an address leads once `src` was new.
  abbrev after_new : ℕ → Option ℕ
  after_new q =
      if q == src
      then some port
      else if is_some old.port && (q == old.addr)
      then none
      else lookup t q

  lookup-learn_new :
      (q : ℕ) → find src t.mac_table ≡ none → lookup (learn_new size t src port) q ≡ after_new q
  unfolding lookup learn_new
  lookup-learn_new q new = elim (Option-cases (find q t.mac_table)) [
    | inl absent ↦ ground (
      arith,
      find-learn_new q new,
      old-ne-src new,
      set-entry t.rr_index (record { port = some port; addr = src }),
    )
    | inr (j, e) ↦ ground (
      arith,
      find-learn_new q new,
      old-ne-src new,
      set-entry t.rr_index (record { port = some port; addr = src }),
      set-entry j (record { port = some port; addr = src }),
      v.linked.occupied q j e,
      v.linked.keyed q j e,
    )
  ]

  lookup-learn_known :
      (q i : ℕ) (known : find src t.mac_table ≡ some i)
      → lookup (record t { entries = set t.entries i (moved i known) }) q
        ≡ (if q == src then some port else lookup t q)
  unfolding lookup
  lookup-learn_known q i known = elim (Option-cases (find q t.mac_table)) [
    | inl absent ↦ ground (arith, ap (λ k. find k t.mac_table) {x = q} {y = src})
    | inr (j, e) ↦ ground (
      arith,
      set-moved i known j (moved i known),
      v.linked.keyed q j e,
      v.linked.keyed src i known,
      ap (λ k. find k t.mac_table) {x = q} {y = src},
    )
  ]

  -- Afterwards the address leads to the port; if it was new, the address of the entry that it took
  -- over is forgotten; every other address leads where it led before.
  pub lookup-learn :
      (q : ℕ)
      → lookup (learn size t src port) q ≡ (
          if q == src
          then some port
          else if not (is_some (find src t.mac_table)) && (is_some old.port && (q == old.addr))
          then none
          else lookup t q)
  unfolding learn
  lookup-learn q = elim (Option-cases (find src t.mac_table)) [
    | inl new ↦ rw (new, learn) (lookup-learn_new q new)
    | inr (i, known) ↦ rw (known, learn) (lookup-learn_known q i known)
  ]
