-- ===== src/MacTable/Refine.antt =====
-- server/switch/mac_table.h: the map, the array and the round-robin index together are the queue.
use l4_virtio_net_switch.Prelude.{
  ℕ, zero, suc, ◌<◌, ◌≤◌, ◌+◌, ◌≡◌, refl, sym, ap, ◌∙◌, Bool, true, false, ◌&&◌, Option, none, some,
  is_some, List, [], ◌∷◌, ◌++◌, ◌==◌, if◌then◌else◌, map, map-append, append-nil, take-append-drop,
  replicate, take, drop, arith, Option-cases, Bool-cases, inl, inr,
}
use mathlib.Core.Path.{subst}
use l4_virtio_net_switch.Prelude.OrdMap.{find}
use l4_virtio_net_switch.MacTable.{Entry, vacant, MacTable, entry, lookup, init, learn, flush}
use l4_virtio_net_switch.MacTable.Inv.{Inv, init-Inv}
use l4_virtio_net_switch.MacTable.Learn.{learn-Inv}
use l4_virtio_net_switch.MacTable.Flush.{flush-Inv}
use l4_virtio_net_switch.MacTable.Ages.{
  ring, ring_before, ring_after, fresh, others, ring-map, relabel, clear, entries-learn_known,
  entries-flush, rr_index-flush,
}
use l4_virtio_net_switch.MacTable.Queue.{
  Place, port_of, moved, emptied, note, forget, Call, learned, flushed, table_after, queue_after,
}

abbrev pub view : Entry → Place
view e = elim e.port [ none ↦ none | some p ↦ some (e.addr, p) ]

-- The queue that a table stands for.
abbrev pub places : MacTable → List Place
places t = map view (ring t)

abbrev hit : ℕ → Entry → Bool
hit a e = is_some e.port && (e.addr == a)

unfoldable find_entry : ℕ → List Entry → Option ℕ
find_entry a [] = none
find_entry a (e ∷ es) = if hit a e then e.port else find_entry a es

port_of-view : (a : ℕ) (es : List Entry) → port_of a (map view es) ≡ find_entry a es
unfolding port_of find_entry
port_of-view a [] = refl
port_of-view a (e ∷ es) = ground (arith, port_of-view a es)

abbrev Once : ℕ → List Entry → Type 0
Once a es = (j k : ℕ) → hit a (entry es j) ≡ true → hit a (entry es k) ≡ true → j ≡ k

find_entry-none :
    (a : ℕ) (es : List Entry) → ((j : ℕ) → hit a (entry es j) ≡ false) → find_entry a es ≡ none
unfolding find_entry
find_entry-none a [] h = refl
find_entry-none a (e ∷ es) h = rw (find_entry, h 0) (find_entry-none a es (λ j. h (suc j)))

find_entry-at :
    (a j : ℕ) (es : List Entry)
    → Once a es
    → hit a (entry es j) ≡ true
    → find_entry a es ≡ (entry es j).port
unfolding find_entry
find_entry-at a j [] u h = absurd (ground arith)
find_entry-at a zero (e ∷ es) u h = rw (find_entry, h) refl
find_entry-at a (suc j) (e ∷ es) u h = elim (Bool-cases (hit a e)) [
  | inl f ↦ absurd (ground (arith, u 0 (suc j) f h))
  | inr f ↦
      rw (find_entry, f) (find_entry-at a j es (λ k l x y. ground (arith, u (suc k) (suc l) x y)) h)
]

-- A split list, with its parts in either order.
find_entry-append :
    (a : ℕ) (xs ys : List Entry)
    → find_entry a (xs ++ ys) ≡ elim (find_entry a xs) [ none ↦ find_entry a ys | some p ↦ some p ]
unfolding find_entry
find_entry-append a [] ys = refl
find_entry-append a (e ∷ xs) ys = ground (arith, find_entry-append a xs ys)

unfoldable hits : ℕ → List Entry → ℕ
hits a [] = 0
hits a (e ∷ es) = if hit a e then suc (hits a es) else hits a es

hits-append : (a : ℕ) (xs ys : List Entry) → hits a (xs ++ ys) ≡ hits a xs + hits a ys
unfolding hits
hits-append a [] ys = omega arith
hits-append a (e ∷ xs) ys = ground (arith, hits-append a xs ys)

hits-find_entry : (a p : ℕ) (es : List Entry) → find_entry a es ≡ some p → 0 < hits a es
unfolding find_entry hits
hits-find_entry a p [] e = absurd (ground arith)
hits-find_entry a p (x ∷ es) e = ground (arith, hits-find_entry a p es)

hits-none : (a : ℕ) (es : List Entry) → ((j : ℕ) → hit a (entry es j) ≡ false) → hits a es ≡ 0
unfolding hits
hits-none a [] h = refl
hits-none a (e ∷ es) h = rw (hits, h 0) (hits-none a es (λ j. h (suc j)))

hits-Once : (a : ℕ) (es : List Entry) → Once a es → hits a es ≤ 1
unfolding hits
hits-Once a [] u = omega arith
hits-Once a (e ∷ es) u = elim (Bool-cases (hit a e)) [
  | inl f ↦ let rest = hits-none a es (λ j. ground (arith, u 0 (suc j) f)) in ground (arith, rest)
  | inr f ↦
      let rest = hits-Once a es (λ k l x y. ground (arith, u (suc k) (suc l) x y)) in
      ground (arith, rest)
]

find_entry-swap :
    (a : ℕ) (xs ys : List Entry)
    → hits a (xs ++ ys) ≤ 1
    → find_entry a (ys ++ xs) ≡ find_entry a (xs ++ ys)
find_entry-swap a xs ys h =
    let few : hits a xs + hits a ys ≤ 1 = omega (arith, h, hits-append a xs ys) in
    rw (find_entry-append a ys xs, find_entry-append a xs ys)
      (on (find_entry a xs) (find_entry a ys) (λ p e. hits-find_entry a p xs e)
        (λ p e. hits-find_entry a p ys e) few)
  where
    on :
        (u v : Option ℕ)
        → ((p : ℕ) → u ≡ some p → 0 < hits a xs)
        → ((p : ℕ) → v ≡ some p → 0 < hits a ys)
        → hits a xs + hits a ys ≤ 1
        → elim v [ none ↦ u | some p ↦ some p ] ≡ elim u [ none ↦ v | some p ↦ some p ]
    on none none f g few = refl
    on none (some p) f g few = refl
    on (some p) none f g few = refl
    on (some p) (some q) f g few = absurd (omega (arith, f p refl, g q refl))

module _ (size : ℕ) (t : MacTable) (v : Inv size t) where
  entries-Once : (a : ℕ) → Once a t.entries
  entries-Once a j k x y = ground (arith, v.owned j, v.owned k)

  find_ring : (a : ℕ) → port_of a (places t) ≡ find_entry a t.entries
  find_ring a =
      let all = take-append-drop t.rr_index t.entries in
      let once = hits-Once a t.entries (entries-Once a) in
      port_of-view a (ring t)
      ∙ find_entry-swap a (take t.rr_index t.entries) (drop t.rr_index t.entries)
          (subst (λ es. hits a es ≤ 1) (sym all) once)
      ∙ ap (find_entry a) all

  -- An address leads where its place does.
  port_of-places : (a : ℕ) → port_of a (places t) ≡ lookup t a
  unfolding lookup
  port_of-places a = find_ring a ∙ elim (Option-cases (find a t.mac_table)) [
    | inl e ↦ find_entry-none a t.entries (λ j. ground (arith, v.owned j)) ∙ rw (lookup, e) refl
    | inr (i, e) ↦
        find_entry-at a i t.entries (entries-Once a)
          (ground (arith, v.linked.occupied a i e, v.linked.keyed a i e))
        ∙ rw (lookup, e) refl
  ]

  -- The map has an address exactly if a place has.
  known-places : (a : ℕ) → is_some (find a t.mac_table) ≡ is_some (port_of a (places t))
  unfolding lookup
  known-places a = elim (Option-cases (find a t.mac_table)) [
    | inl e ↦ rw (port_of-places a, lookup, e) refl
    | inr (i, e) ↦ rw (port_of-places a, lookup, e) (sym (v.linked.occupied a i e))
  ]

map-view-relabel :
    (a port : ℕ) (es : List Entry)
    → map view (map (relabel a port) es) ≡ map (moved a port) (map view es)
map-view-relabel a port [] = refl
map-view-relabel a port (e ∷ es) = ground (arith, map-view-relabel a port es)

map-view-clear :
    (port : ℕ) (es : List Entry) → map view (map (clear port) es) ≡ map (emptied port) (map view es)
map-view-clear port [] = refl
map-view-clear port (e ∷ es) = ground (arith, map-view-clear port es)

module _ (size : ℕ) (t : MacTable) (v : Inv size t) where
  places-learn : (a port : ℕ) → places (learn size t a port) ≡ note a port (places t)
  unfolding note learn
  places-learn a port = elim (Option-cases (find a t.mac_table)) [
    | inl e ↦
        let none_there : port_of a (places t) ≡ none = ground (arith, known-places size t v a) in
        rw (note, none_there, learn, e, ring_after size t a port v, ring_before size t a port v)
          (map-append view (others size t a port v) (fresh size t a port v ∷ []))
    | inr (i, e) ↦ elim (Option-cases (port_of a (places t))) [
      | inl f ↦ absurd (ground (arith, known-places size t v a))
      | inr (p, f) ↦
          rw (note, f, entries-learn_known size t v a port i e, ring-map (relabel a port) t)
            (map-view-relabel a port (ring t))
    ]
  ]

  places-flush : (port : ℕ) → places (flush t port) ≡ forget port (places t)
  unfolding forget
  places-flush port =
      rw
        (forget, rr_index-flush size t v port, entries-flush size t v port, ring-map (clear port) t)
        (map-view-clear port (ring t))

places-init : (size : ℕ) → places (init size) ≡ replicate size none
unfolding init
places-init size = ap (map view) (append-nil (replicate size vacant)) ∙ vacancies size
  where
    vacancies : (n : ℕ) → map view (replicate n vacant) ≡ replicate n none
    vacancies zero = refl
    vacancies (suc n) = ap (λ l. none ∷ l) (vacancies n)

-- After any calls, the map and the entries of a table of at least one entry agree: a key leads to an
-- entry of its address that is in use, and every entry in use is found under its address.
pub table_after-Inv : (size : ℕ) → 0 < size → (cs : List Call) → Inv size (table_after size cs)
unfolding table_after
table_after-Inv size h [] = init-Inv size h
table_after-Inv size h (learned a port ∷ cs) =
    learn-Inv size (table_after size cs) a port (table_after-Inv size h cs)
table_after-Inv size h (flushed port ∷ cs) =
    flush-Inv size (table_after size cs) port (table_after-Inv size h cs)

places-table_after :
    (size : ℕ) → 0 < size → (cs : List Call) → places (table_after size cs) ≡ queue_after size cs
unfolding table_after queue_after
places-table_after size h [] = places-init size
places-table_after size h (learned a port ∷ cs) =
    places-learn size (table_after size cs) (table_after-Inv size h cs) a port
    ∙ ap (note a port) (places-table_after size h cs)
places-table_after size h (flushed port ∷ cs) =
    places-flush size (table_after size cs) (table_after-Inv size h cs) port
    ∙ ap (forget port) (places-table_after size h cs)

-- After any calls, a table of at least one entry answers as the queue of that many places does:
-- which port an address leads to follows from the calls alone.
pub lookup-table_after :
    (size : ℕ)
    → 0 < size
    → (cs : List Call) (a : ℕ) → lookup (table_after size cs) a ≡ port_of a (queue_after size cs)
lookup-table_after size h cs a =
    sym (port_of-places size (table_after size cs) (table_after-Inv size h cs) a)
    ∙ ap (port_of a) (places-table_after size h cs)
