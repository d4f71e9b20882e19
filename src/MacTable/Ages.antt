-- ===== src/MacTable/Ages.antt =====
-- The table as a queue of associations, oldest first: what the round-robin index stands for.
use l4_virtio_net_switch.Prelude.{
  ℕ, suc, ◌+◌, ◌%◌, ◌<◌, ◌≡◌, refl, sym, ap, ◌∙◌, none, some, List, [], ◌∷◌, ◌++◌, map, arith,
  is_some, ◌&&◌, length, length-set, get_or-set, if◌then◌else◌, set, take, drop, inl, inr,
  Bool-cases, ◌==◌, points_to, list_ext, drop_at, drop-set, take-set, take_all, drop_all,
  length-map, get_or-map, take-map, drop-map, map-append, append-nil, append_assoc,
}
use native.Mathlib.Nat.{mod_self, mod-eq_of_lt}
use l4_virtio_net_switch.Prelude.OrdMap.{find}
use l4_virtio_net_switch.MacTable.{Entry, vacant, MacTable, entry, learn_new, learn, flush}
use l4_virtio_net_switch.MacTable.Inv.{Inv}
use l4_virtio_net_switch.MacTable.Learn.{old}
use l4_virtio_net_switch.MacTable.Flush.{entry_after, flush-Inv}

-- The associations of the entries in use.
unfoldable pub live : List Entry → List (ℕ × ℕ)
live [] = []
live (e ∷ es) = elim e.port [ none ↦ live es | some p ↦ (e.addr, p) ∷ live es ]

live-append : (xs ys : List Entry) → live (xs ++ ys) ≡ live xs ++ live ys
unfolding live
live-append [] ys = refl
live-append (e ∷ xs) ys = ground (arith, live-append xs ys)

-- From the round-robin index on, and round the end of the array.
abbrev pub ring : MacTable → List Entry
ring t = drop t.rr_index t.entries ++ take t.rr_index t.entries

unfoldable pub ages : MacTable → List (ℕ × ℕ)
ages t = live (ring t)

abbrev pub without_first {ℓ} : {A : Type ℓ} → List A → List A
without_first [] = []
without_first (x ∷ xs) = xs

abbrev pub retarget : ℕ → ℕ → ℕ × ℕ → ℕ × ℕ
retarget src port (a, p) = if a == src then (a, port) else (a, p)

unfoldable pub without_port : ℕ → List (ℕ × ℕ) → List (ℕ × ℕ)
without_port port [] = []
without_port port ((a, p) ∷ l) =
    if p == port then without_port port l else (a, p) ∷ without_port port l

module _ (size : ℕ) (t : MacTable) (src port : ℕ) (v : Inv size t) where
  abbrev pub fresh : Entry
  fresh = record { port = some port; addr = src }

  in_range : t.rr_index < length t.entries
  in_range = omega (arith, v.in_ring, v.sized)

  abbrev pub others : List Entry
  others = drop (suc t.rr_index) t.entries ++ take t.rr_index t.entries

  pub ring_before : ring t ≡ old size t src port v ∷ others
  ring_before =
      ap (λ xs. xs ++ take t.rr_index t.entries)
        (drop_at t.entries t.rr_index vacant (omega (arith, v.in_ring, v.sized)))

  pub ring_after : ring (learn_new size t src port) ≡ others ++ (fresh ∷ [])
  unfolding learn_new
  ring_after = elim (Bool-cases (t.rr_index + 1 == size)) [
    | inl last ↦
        let wrap : (t.rr_index + 1) % size ≡ 0 = ground (arith, mod_self size) in
        let all : set t.entries t.rr_index fresh ≡ take t.rr_index t.entries ++ (fresh ∷ []) =
          sym (
            take_all (suc t.rr_index) _
              (ground (arith, v.sized, length-set t.entries t.rr_index fresh)))
          ∙ take-set t.entries t.rr_index fresh in_range in
        rw (wrap, append-nil, all, drop_all (suc t.rr_index) t.entries (ground (arith, v.sized)))
    | inr more ↦
        let next : (t.rr_index + 1) % size ≡ suc t.rr_index =
          ground (arith, v.in_ring, mod-eq_of_lt {n = t.rr_index + 1} {m = size}) in
        rw (
          next,
          drop-set t.entries t.rr_index fresh,
          take-set t.entries t.rr_index fresh in_range,
          append_assoc,
        )
  ]

  -- A new address joins at the end; if the entry at the round-robin index is in use, the oldest
  -- association leaves, and otherwise none does.
  pub ages-learn_new :
      find src t.mac_table ≡ none
      → ages (learn size t src port)
        ≡ (if is_some (old size t src port v).port then without_first (ages t) else ages t)
          ++ ((src, port) ∷ [])
  unfolding ages learn live
  ages-learn_new new =
      rw (new, learn, ring_after, live-append others (fresh ∷ []), ring_before)
        (ap (λ l. l ++ ((src, port) ∷ [])) (ground arith))

-- A change of every entry goes through to the ring.
pub ring-map :
    (f : Entry → Entry) (t : MacTable)
    → ring (record t { entries = map f t.entries }) ≡ map f (ring t)
ring-map f t = rw (drop-map f t.rr_index t.entries, take-map f t.rr_index t.entries, map-append)

abbrev pub relabel : ℕ → ℕ → Entry → Entry
relabel src port e =
    if is_some e.port && (e.addr == src) then record { port = some port; addr = e.addr } else e

live-relabel :
    (src port : ℕ) (es : List Entry)
    → live (map (relabel src port) es) ≡ map (retarget src port) (live es)
unfolding live
live-relabel src port [] = refl
live-relabel src port (e ∷ es) = ground (arith, live-relabel src port es)

abbrev pub clear : ℕ → Entry → Entry
clear port e = if points_to e.port port then vacant else e

live-clear : (port : ℕ) (es : List Entry) → live (map (clear port) es) ≡ without_port port (live es)
unfolding live without_port
live-clear port [] = refl
live-clear port (e ∷ es) = ground (arith, live-clear port es)

module _ (size : ℕ) (t : MacTable) (v : Inv size t) where
  pub entries-learn_known :
      (src port i : ℕ)
      → find src t.mac_table ≡ some i
      → learn size t src port ≡ record t { entries = map (relabel src port) t.entries }
  unfolding learn
  entries-learn_known src port i known = rw (known, learn, change) refl
    where
      moved : Entry
      moved = record { port = some port; addr = (entry t.entries i).addr }

      change : set t.entries i moved ≡ map (relabel src port) t.entries
      change =
          list_ext (set t.entries i moved) (map (relabel src port) t.entries) vacant
            (omega (arith, length-set t.entries i moved, length-map (relabel src port) t.entries))
            (λ j. ground (
              arith,
              get_or-set t.entries i j moved vacant (v.linked.in_range src i known),
              get_or-map (relabel src port) t.entries j vacant,
              v.linked.keyed src i known,
              v.linked.occupied src i known,
              v.owned j,
            ))

  -- A known address keeps its place, and leads to the port.
  pub ages-learn_known :
      (src port i : ℕ)
      → find src t.mac_table ≡ some i
      → ages (learn size t src port) ≡ map (retarget src port) (ages t)
  unfolding ages
  ages-learn_known src port i known =
      rw (entries-learn_known src port i known, ring-map (relabel src port) t)
        (live-relabel src port (ring t))

  pub entries-flush : (port : ℕ) → (flush t port).entries ≡ map (clear port) t.entries
  entries-flush port =
      list_ext (flush t port).entries (map (clear port) t.entries) vacant
        (omega (arith, v.sized, (flush-Inv size t port v).sized, length-map (clear port) t.entries))
        (λ j.
          ground (arith, entry_after size t port v j, get_or-map (clear port) t.entries j vacant))

  pub rr_index-flush : (port : ℕ) → (flush t port).rr_index ≡ t.rr_index
  unfolding flush
  rr_index-flush port = refl

  -- A flush drops the associations of the port, and keeps the others in their order.
  pub ages-flush : (port : ℕ) → ages (flush t port) ≡ without_port port (ages t)
  unfolding ages
  ages-flush port =
      rw (rr_index-flush port, entries-flush port, ring-map (clear port) t)
        (live-clear port (ring t))
