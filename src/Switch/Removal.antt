-- ===== src/Switch/Removal.antt =====
-- server/switch/switch.cc, `check_ports`: the removal of ports whose clients are gone.
use l4_virtio_net_switch.Prelude.{
  ℕ, zero, suc, ◌+◌, ◌<◌, ◌≡◌, refl, ◌∙◌, Bool, true, false, not, ◌||◌, none, some, List, [], ◌∷◌,
  ◌==◌, ltb, if◌then◌else◌, get_or, set, ◌-◌, arith, Option-cases, Bool-cases, inl, inr, length,
  length-set, get_or-set,
}
use l4_virtio_net_switch.MacTable.{lookup, flush}
use l4_virtio_net_switch.MacTable.Flush.{flush-Inv, lookup-flush}
use l4_virtio_net_switch.Transfer.{Transfer}
use l4_virtio_net_switch.Request.{finish_request}
use l4_virtio_net_switch.Port.{Port, delete_pending}
use l4_virtio_net_switch.Switch.{
  Switch, Ended, ok, threw, crashed, table_size, port_at, store, release, release_all, held_in,
  held_by, delete_port, remove_port, check_slot, check_from, check_monitor, check_ports,
}
use l4_virtio_net_switch.Switch.Slots.{
  WellFormed, store-Kept, Kept-WellFormed, present-set-none, slot,
}

-- A switch that an operation leaves. A crash leaves none.
abbrev pub EndsWell : Ended → Type 0
EndsWell (ok sw) = WellFormed sw
EndsWell (threw sw) = WellFormed sw
EndsWell crashed = Unit {0}

release-WellFormed : (r : ℕ × ℕ) (sw : Switch) → WellFormed sw → EndsWell (release r sw)
unfolding release
release-WellFormed r sw v = elim (Bool-cases (held_in r sw.ports || held_by r sw.monitor)) [
  | inl e ↦ rw e v
  | inr e ↦ elim (Option-cases (port_at r.0 sw.ports)) [
    | inl f ↦ rw (e, f) tt
    | inr (p, f) ↦
        let q : Port = record p { tx = finish_request r.1 p.tx } in
        rw (e, f) (Kept-WellFormed sw (store q sw.ports) v (store-Kept q sw.ports))
  ]
]

release_all-WellFormed :
    (ts : List Transfer) (sw : Switch) → WellFormed sw → EndsWell (release_all ts sw)
unfolding release_all
release_all-WellFormed [] sw v = v
release_all-WellFormed (t ∷ ts) sw v =
    after (release t.request sw) (release-WellFormed t.request sw v)
      (λ sw'. release_all-WellFormed ts sw')
  where
    after :
        (e : Ended)
        → EndsWell e
        → ((sw' : Switch) → WellFormed sw' → EndsWell (release_all ts sw'))
        → EndsWell
            (elim e [ ok sw' ↦ release_all ts sw' | threw sw' ↦ threw sw' | crashed ↦ crashed ])
    after (ok sw') w ih = ih sw' w
    after (threw sw') w ih = w
    after crashed w ih = w

delete_port-WellFormed : (p : Port) (sw : Switch) → WellFormed sw → EndsWell (delete_port p sw)
unfolding delete_port
delete_port-WellFormed p sw v = elim (Option-cases (delete_pending p.pending_requests p.rx)) [
  | inl e ↦ rw (delete_port, e) tt
  | inr (q, e) ↦ rw (delete_port, e) (release_all-WellFormed p.pending_requests sw v)
]

-- An address that still leads to a port leads to another one, and did so before.
flushed :
    (sw : Switch) (p : Port) (q a : ℕ)
    → WellFormed sw
    → lookup (flush sw.mac_table p.self) q ≡ some a
    → ((a == p.self) ≡ false) × (lookup sw.mac_table q ≡ some a)
flushed sw p q a v e = ground (arith, lookup-flush table_size sw.mac_table p.self v.table q)

-- The switch in which a port is deleted that its slot and the MAC table have given up.
abbrev pub vacated : ℕ → Port → Switch → Switch
vacated i p sw = record sw {
  ports = set sw.ports i none;
  max_used = if i == sw.max_used - 1 then sw.max_used - 1 else sw.max_used;
  mac_table = flush sw.mac_table p.self;
}

pub vacated-WellFormed :
    (i : ℕ) (p : Port) (sw : Switch)
    → WellFormed sw
    → slot sw.ports i ≡ some p
    → i < sw.max_used
    → WellFormed (vacated i p sw)
vacated-WellFormed i p sw v e le =
    let in_slots : i < length sw.ports = omega (arith, v.used, v.sized) in
    record {
      sized = length-set sw.ports i none ∙ v.sized;
      used = ground (arith, v.used);
      unused = λ k h. ground (arith, get_or-set sw.ports i k none none in_slots, v.unused k);
      table = flush-Inv table_size sw.mac_table p.self v.table;
      targets = λ q a f.
          let (other, led) = flushed sw p q a v f in
          present-set-none sw.ports i p a e other (v.targets q a led);
    }

remove_port-WellFormed :
    (i : ℕ) (p : Port) (sw : Switch)
    → WellFormed sw
    → slot sw.ports i ≡ some p
    → i < sw.max_used
    → EndsWell (remove_port i p sw)
unfolding remove_port
remove_port-WellFormed i p sw v e le =
    delete_port-WellFormed p (vacated i p sw) (vacated-WellFormed i p sw v e le)

module _ (gone : ℕ → Bool) where
  check_slot-WellFormed :
      (i : ℕ) (sw : Switch) → WellFormed sw → i < sw.max_used → EndsWell (check_slot gone i sw)
  unfolding check_slot
  check_slot-WellFormed i sw v le = elim (Option-cases (get_or sw.ports i none)) [
    | inl e ↦ rw (check_slot, e) v
    | inr (p, e) ↦ elim (Bool-cases (gone p.self)) [
      | inl g ↦ rw (check_slot, e, g) (remove_port-WellFormed i p sw v e le)
      | inr g ↦ rw (check_slot, e, g) v
    ]
  ]

  check_from-WellFormed :
      (n i : ℕ) (sw : Switch) → WellFormed sw → EndsWell (check_from gone n i sw)
  unfolding check_from
  check_from-WellFormed zero i sw v = v
  check_from-WellFormed (suc n) i sw v = elim (Bool-cases (ltb i sw.max_used)) [
    | inr e ↦ if-EndsWell (not (ltb i sw.max_used)) _ _ (λ _. v) (λ f. absurd (ground arith))
    | inl e ↦
        if-EndsWell (not (ltb i sw.max_used)) _ _ (λ f. absurd (ground arith))
          (λ _.
            after (check_slot gone i sw) (check_slot-WellFormed i sw v (ground arith))
              (λ sw'. check_from-WellFormed n (i + 1) sw'))
  ]
    where
      if-EndsWell :
          (b : Bool) (x y : Ended)
          → (b ≡ true → EndsWell x)
          → (b ≡ false → EndsWell y)
          → EndsWell (if b then x else y)
      if-EndsWell true x y v w = v refl
      if-EndsWell false x y v w = w refl

      after :
          (e : Ended)
          → EndsWell e
          → ((sw' : Switch) → WellFormed sw' → EndsWell (check_from gone n (i + 1) sw'))
          → EndsWell (elim e [
            | ok sw' ↦ check_from gone n (i + 1) sw'
            | threw sw' ↦ threw sw'
            | crashed ↦ crashed
          ])
      after (ok sw') w ih = ih sw' w
      after (threw sw') w ih = w
      after crashed w ih = w

  kept_monitor : (sw : Switch) → sw.monitor ≡ none → check_monitor gone sw ≡ ok sw
  unfolding check_monitor
  kept_monitor sw e = ground arith

  tested_monitor :
      (sw : Switch) (m : Port)
      → sw.monitor ≡ some m
      → check_monitor gone sw
        ≡ (if gone m.self then delete_port m (record sw { monitor = none }) else ok sw)
  unfolding check_monitor
  tested_monitor sw m e = ground arith

  check_monitor-WellFormed : (sw : Switch) → WellFormed sw → EndsWell (check_monitor gone sw)
  check_monitor-WellFormed sw v = elim (Option-cases sw.monitor) [
    | inl e ↦ rw (kept_monitor sw e) v
    | inr (m, e) ↦ elim (Bool-cases (gone m.self)) [
      | inl g ↦
          rw (tested_monitor sw m e, g)
            (delete_port-WellFormed m (record sw { monitor = none })
              (record {
                sized = v.sized;
                used = v.used;
                unused = v.unused;
                table = v.table;
                targets = v.targets;
              }))
      | inr g ↦ rw (tested_monitor sw m e, g) v
    ]
  ]

  -- Removing the ports whose clients are gone keeps the switch well-formed: no slot from
  -- `_max_used` on is taken, and the MAC table leads only to ports that are left. A failed
  -- assertion, or a request that goes back to a port that is gone, leaves no switch.
  pub check_ports-WellFormed : (sw : Switch) → WellFormed sw → EndsWell (check_ports gone sw)
  unfolding check_ports
  check_ports-WellFormed sw v =
      after (check_from gone sw.max_used 0 sw) (check_from-WellFormed sw.max_used 0 sw v)
    where
      after :
          (e : Ended)
          → EndsWell e
          → EndsWell (elim e [
            | ok sw' ↦ check_monitor gone sw'
            | threw sw' ↦ threw sw'
            | crashed ↦ crashed
          ])
      after (ok sw') w = check_monitor-WellFormed sw' w
      after (threw sw') w = w
      after crashed w = w
