-- ===== src/Switch/Cleared.antt =====
-- server/switch/switch.cc, `check_ports`: no port stays whose client is gone.
use l4_virtio_net_switch.Prelude.{
  ℕ, zero, suc, ◌+◌, ◌≤◌, ◌<◌, ◌≡◌, refl, sym, ap, ◌∙◌, Bool, true, false, Option, none, some, ◌==◌,
  ltb, if◌then◌else◌, get_or, set, arith, Option-cases, Bool-cases, inl, inr, ==_iff, get_or-map,
}
use mathlib.Core.Path.{subst}
use l4_virtio_net_switch.Port.{Port}
use l4_virtio_net_switch.Switch.{
  Switch, Ended, ok, threw, crashed, delete_port, remove_port, check_slot, check_from,
  check_monitor, check_ports,
}
use l4_virtio_net_switch.Switch.Slots.{WellFormed, slot}
use l4_virtio_net_switch.Switch.Removal.{vacated}
use l4_virtio_net_switch.Switch.Same.{self_of, selves, EndsSame, delete_port-EndsSame, selves-set}

module _ (gone : ℕ → Bool) where
  abbrev pub Stays : Option ℕ → Type 0
  Stays none = Unit {0}
  Stays (some a) = gone a ≡ false

  -- The slots below the index have been tested, and those from `_max_used` on are empty.
  abbrev Tested : ℕ → Switch → Type 0
  Tested i sw =
      ((j : ℕ) → j < i → Stays (get_or (selves sw.ports) j none))
      × ((j : ℕ) → sw.max_used ≤ j → get_or (selves sw.ports) j none ≡ none)

  abbrev EndsTested : ℕ → ℕ → Ended → Type 0
  EndsTested bound i (ok sw) = Tested i sw × (sw.max_used ≤ bound)
  EndsTested bound i (threw sw) = ⊥
  EndsTested bound i crashed = Unit {0}

  Same-EndsTested :
      (bound i : ℕ) (sw : Switch) (e : Ended)
      → Tested i sw
      → sw.max_used ≤ bound
      → EndsSame sw e
      → EndsTested bound i e
  Same-EndsTested bound i sw (ok sw') t le (s, m, u) = (
    (
      (λ j h. subst (λ l. Stays (get_or l j none)) (sym s) (t.0 j h)),
      (λ j h. ap (λ l. get_or l j none) s ∙ t.1 j (omega arith)),
    ),
    omega arith,
  )
  Same-EndsTested bound i sw (threw sw') t le s = s
  Same-EndsTested bound i sw crashed t le s = tt

  -- One more slot has been tested: the ports below it have stayed, and so does what is in it.
  next_slot :
      (i : ℕ) (sw : Switch) (o : Option Port)
      → get_or sw.ports i none ≡ o
      → Stays (self_of o)
      → Tested i sw
      → Tested (i + 1) sw
  next_slot i sw o e s t = ((λ j h. on j h (j == i) refl), t.1)
    where
      on : (j : ℕ) → j < i + 1 → (b : Bool) → (j == i) ≡ b → Stays (get_or (selves sw.ports) j none)
      on j h true f =
          subst Stays
            (sym (rw ((==_iff j i).0 f) (get_or-map self_of sw.ports i none ∙ ap self_of e))) s
      on j h false f = t.0 j (ground arith)

  vacated_slot :
      (i : ℕ) (p : Port) (sw : Switch)
      → i < sw.max_used
      → Tested i sw
      → Tested (i + 1) (vacated i p sw)
  vacated_slot i p sw lt t = ((λ j h. low j h (j == i) refl), (λ j h. high j h (j == i) refl))
    where
      low :
          (j : ℕ)
          → j < i + 1
          → (b : Bool) → (j == i) ≡ b
          → Stays (get_or (selves (set sw.ports i none)) j none)
      low j h true f =
          let e : get_or (selves (set sw.ports i none)) j none ≡ none =
            selves-set sw.ports i j ∙ rw f refl in
          subst Stays (sym e) tt
      low j h false f =
          let e : get_or (selves (set sw.ports i none)) j none ≡ get_or (selves sw.ports) j none =
            selves-set sw.ports i j ∙ rw f refl in
          subst Stays (sym e) (t.0 j (ground arith))

      high :
          (j : ℕ)
          → (vacated i p sw).max_used ≤ j
          → (b : Bool) → (j == i) ≡ b
          → get_or (selves (set sw.ports i none)) j none ≡ none
      high j h true f = selves-set sw.ports i j ∙ rw f refl
      high j h false f = selves-set sw.ports i j ∙ rw f (t.1 j (ground arith))

  check_slot-EndsTested :
      (i : ℕ) (sw : Switch)
      → i < sw.max_used
      → Tested i sw
      → EndsTested sw.max_used (i + 1) (check_slot gone i sw)
  unfolding check_slot remove_port
  check_slot-EndsTested i sw lt t = elim (Option-cases (slot sw.ports i)) [
    | inl e ↦ rw (check_slot, e) (next_slot i sw none e tt t, omega arith)
    | inr (p, e) ↦ elim (Bool-cases (gone p.self)) [
      | inl g ↦
          rw (check_slot, e, g)
            (Same-EndsTested sw.max_used (i + 1) (vacated i p sw) _ (vacated_slot i p sw lt t)
              (ground arith) (delete_port-EndsSame p (vacated i p sw)))
      | inr g ↦ rw (check_slot, e, g) (next_slot i sw (some p) e g t, omega arith)
    ]
  ]

  -- Of the ports that an operation leaves, no client is gone.
  abbrev pub AllStay : Switch → Type 0
  AllStay sw = ((j : ℕ) → Stays (get_or (selves sw.ports) j none)) × Stays (self_of sw.monitor)

  abbrev EndsSlots : Ended → Type 0
  EndsSlots (ok sw) = (j : ℕ) → Stays (get_or (selves sw.ports) j none)
  EndsSlots (threw sw) = ⊥
  EndsSlots crashed = Unit {0}

  abbrev pub EndsStaying : Ended → Type 0
  EndsStaying (ok sw) = AllStay sw
  EndsStaying (threw sw) = ⊥
  EndsStaying crashed = Unit {0}

  Tested-Stays :
      (i : ℕ) (sw : Switch)
      → sw.max_used ≤ i
      → Tested i sw
      → (j : ℕ) → Stays (get_or (selves sw.ports) j none)
  Tested-Stays i sw le t j = elim (Bool-cases (ltb j i)) [
    | inl e ↦ t.0 j (ground arith)
    | inr e ↦ subst Stays (sym (t.1 j (ground arith))) tt
  ]

  check_from-EndsSlots :
      (n i : ℕ) (sw : Switch)
      → sw.max_used ≤ i + n
      → Tested i sw
      → EndsSlots (check_from gone n i sw)
  unfolding check_from
  check_from-EndsSlots zero i sw le t = Tested-Stays i sw (omega arith) t
  check_from-EndsSlots (suc n) i sw le t = elim (Bool-cases (ltb i sw.max_used)) [
    | inr e ↦ rw e (Tested-Stays i sw (ground arith) t)
    | inl e ↦ rw e (
        after (check_slot gone i sw) (check_slot-EndsTested i sw (ground arith) t)
          (λ sw' t' le'. check_from-EndsSlots n (i + 1) sw' (omega arith) t'))
  ]
    where
      after :
          (e : Ended)
          → EndsTested sw.max_used (i + 1) e
          → ((sw' : Switch)
              → Tested (i + 1) sw'
              → sw'.max_used ≤ sw.max_used
              → EndsSlots (check_from gone n (i + 1) sw'))
          → EndsSlots (elim e [
            | ok sw' ↦ check_from gone n (i + 1) sw'
            | threw sw' ↦ threw sw'
            | crashed ↦ crashed
          ])
      after (ok sw') h ih = ih sw' h.0 h.1
      after (threw sw') h ih = h
      after crashed h ih = tt

  Same-EndsStaying :
      (sw : Switch) (e : Ended)
      → ((j : ℕ) → Stays (get_or (selves sw.ports) j none))
      → Stays (self_of sw.monitor)
      → EndsSame sw e
      → EndsStaying e
  Same-EndsStaying sw (ok sw') a m (s, n, u) = (
    (λ j. subst (λ l. Stays (get_or l j none)) (sym s) (a j)),
    subst (λ o. Stays (self_of o)) (sym n) m,
  )
  Same-EndsStaying sw (threw sw') a m s = s
  Same-EndsStaying sw crashed a m s = tt

  check_monitor-EndsStaying :
      (sw : Switch)
      → ((j : ℕ) → Stays (get_or (selves sw.ports) j none))
      → EndsStaying (check_monitor gone sw)
  unfolding check_monitor
  check_monitor-EndsStaying sw a = on sw.monitor refl
    where
      on :
          (o : Option Port)
          → sw.monitor ≡ o
          → EndsStaying (elim o [
            | none ↦ ok sw
            | some m ↦ if gone m.self then delete_port m (record sw { monitor = none }) else ok sw
          ])
      on none e = (a, rw e tt)
      on (some m) e = elim (Bool-cases (gone m.self)) [
        | inl g ↦ rw g (
            Same-EndsStaying (record sw { monitor = none }) _ a tt
              (delete_port-EndsSame m (record sw { monitor = none })))
        | inr g ↦ rw g (a, rw e g)
      ]

  -- From a well-formed switch no port is left, in a slot or as the monitor, whose client is gone,
  -- unless a request goes back to a port that is gone or an assertion fails.
  pub check_ports-EndsStaying : (sw : Switch) → WellFormed sw → EndsStaying (check_ports gone sw)
  unfolding check_ports
  check_ports-EndsStaying sw v =
      after (check_from gone sw.max_used 0 sw)
        (check_from-EndsSlots sw.max_used 0 sw (omega arith) ((λ j h. elim h [ ]), beyond))
    where
      beyond : (j : ℕ) → sw.max_used ≤ j → get_or (selves sw.ports) j none ≡ none
      beyond j h = get_or-map self_of sw.ports j none ∙ ap self_of (v.unused j h)

      after :
          (e : Ended)
          → EndsSlots e
          → EndsStaying (elim e [
            | ok sw' ↦ check_monitor gone sw'
            | threw sw' ↦ threw sw'
            | crashed ↦ crashed
          ])
      after (ok sw') h = check_monitor-EndsStaying sw' h
      after (threw sw') h = h
      after crashed h = tt
