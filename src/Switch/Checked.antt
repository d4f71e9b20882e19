-- ===== src/Switch/Checked.antt =====
-- server/switch/switch.cc, `check_ports`: the requests of a port that stays.
use l4_virtio_net_switch.Prelude.{
  ℕ, zero, suc, ◌+◌, ◌≡◌, refl, ap, ◌∙◌, Bool, true, false, not, ◌||◌, Option, none, some, List, [],
  ◌∷◌, ◌==◌, ltb, set, if◌then◌else◌, if-intro, arith, Option-cases, Bool-cases, inl, inr, ==_iff,
}
use l4_virtio_net_switch.Port.{Port, delete_pending}
use l4_virtio_net_switch.Switch.{
  Switch, ok, port_at, holds, held_in, held_by, delete_port, remove_port, check_slot, check_from,
  check_monitor, check_ports,
}
use l4_virtio_net_switch.Switch.Slots.{slot}
use l4_virtio_net_switch.Switch.Removal.{vacated}
use l4_virtio_net_switch.Switch.Irq.Track.{at_driver, TracksOr, Tracks, release_all-EndsTracksOr}
use l4_virtio_net_switch.Switch.Irq.Follow.{EndsTracks, EndsTracksOr-EndsTracks}
use l4_virtio_net_switch.Switch.Irq.Quiet.{then-EndsTracks}

module _ (a h : ℕ) where
  -- A port leaves its slot, and its transfers are to let go of their requests.
  vacated-held :
      (ps : List (Option Port)) (i : ℕ) (p : Port)
      → slot ps i ≡ some p
      → held_in (a, h) ps ≡ true
      → (held_in (a, h) (set ps i none) || holds (a, h) p.pending_requests) ≡ true
  unfolding held_in
  vacated-held [] i p e w = absurd (ground arith)
  vacated-held (none ∷ ps) zero p e w = absurd (ground arith)
  vacated-held (some o ∷ ps) zero p e w = let one : o ≡ p = ground arith in rw⁻¹ one (ground arith)
  vacated-held (none ∷ ps) (suc i) p e w = vacated-held ps i p e w
  vacated-held (some o ∷ ps) (suc i) p e w = elim (Bool-cases (holds (a, h) o.pending_requests)) [
    | inl f ↦ rw f refl
    | inr f ↦ rw f (vacated-held ps i p e (ground arith))
  ]

  port_at-set :
      (ps : List (Option Port)) (i : ℕ) (p q : Port)
      → slot ps i ≡ some p
      → (p.self == a) ≡ false
      → port_at a ps ≡ some q
      → port_at a (set ps i none) ≡ some q
  unfolding port_at
  port_at-set [] i p q e other f = f
  port_at-set (none ∷ ps) zero p q e other f = f
  port_at-set (some o ∷ ps) zero p q e other f =
      let one : o ≡ p = ground arith in
      let off : (o.self == a) ≡ false = ap (λ k. k.self == a) one ∙ other in ground arith
  port_at-set (none ∷ ps) (suc i) p q e other f = port_at-set ps i p q e other f
  port_at-set (some o ∷ ps) (suc i) p q e other f = elim (Bool-cases (o.self == a)) [
    | inl here ↦ rw here (ground arith)
    | inr off ↦ rw off (port_at-set ps i p q e other (ground arith))
  ]

  delete_port-EndsTracks :
      (p : Port) (sw : Switch)
      → TracksOr a h (holds (a, h) p.pending_requests || false) sw
      → EndsTracks a h (delete_port p sw)
  unfolding delete_port
  delete_port-EndsTracks p sw t = elim (Option-cases (delete_pending p.pending_requests p.rx)) [
    | inl e ↦ rw (delete_port, e) tt
    | inr (q, e) ↦
        rw (delete_port, e)
          (EndsTracksOr-EndsTracks a h _
            (release_all-EndsTracksOr a h p.pending_requests false sw t))
  ]

  vacated-TracksOr :
      (i : ℕ) (p : Port) (sw : Switch)
      → slot sw.ports i ≡ some p
      → (p.self == a) ≡ false
      → Tracks a h sw
      → TracksOr a h (holds (a, h) p.pending_requests || false) (vacated i p sw)
  vacated-TracksOr i p sw e other (q, f, t) = (
    q,
    port_at-set sw.ports i p q e other f,
    on (at_driver h q.tx) (held_in (a, h) sw.ports) (held_in (a, h) (set sw.ports i none))
        (held_by (a, h) sw.monitor) (holds (a, h) p.pending_requests) (vacated-held sw.ports i p e)
        t,
  )
    where
      on :
          (d w w' m b : Bool)
          → (w ≡ true → (w' || b) ≡ true)
          → (d || (w || m)) ≡ true
          → ((d || (w' || m)) || (b || false)) ≡ true
      on d w w' m b g k = ground (arith, g)

  module _ (gone : ℕ → Bool) (stays : gone a ≡ false) where
    other : (p : Port) → gone p.self ≡ true → (p.self == a) ≡ false
    other p g = elim (Bool-cases (p.self == a)) [
      | inl e ↦ absurd (ground (arith, stays, ap gone ((==_iff p.self a).0 e)))
      | inr e ↦ e
    ]

    check_slot-EndsTracks :
        (i : ℕ) (sw : Switch) → Tracks a h sw → EndsTracks a h (check_slot gone i sw)
    unfolding check_slot remove_port
    check_slot-EndsTracks i sw t = elim (Option-cases (slot sw.ports i)) [
      | inl e ↦ rw (check_slot, e) t
      | inr (p, e) ↦ elim (Bool-cases (gone p.self)) [
        | inl g ↦
            rw (check_slot, e, g)
              (delete_port-EndsTracks p (vacated i p sw) (vacated-TracksOr i p sw e (other p g) t))
        | inr g ↦ rw (check_slot, e, g) t
      ]
    ]

    check_from-EndsTracks :
        (n i : ℕ) (sw : Switch) → Tracks a h sw → EndsTracks a h (check_from gone n i sw)
    unfolding check_from
    check_from-EndsTracks zero i sw t = t
    check_from-EndsTracks (suc n) i sw t =
        if-intro (EndsTracks a h) (not (ltb i sw.max_used)) _ _ (λ _. t)
          (λ _.
            then-EndsTracks a h (check_from gone n (i + 1)) _ (check_slot-EndsTracks i sw t)
              (check_from-EndsTracks n (i + 1)))

    check_monitor-EndsTracks :
        (sw : Switch) → Tracks a h sw → EndsTracks a h (check_monitor gone sw)
    unfolding check_monitor
    check_monitor-EndsTracks sw (q, f, t) = on sw.monitor t
      where
        on :
            (o : Option Port)
            → (at_driver h q.tx || (held_in (a, h) sw.ports || held_by (a, h) o)) ≡ true
            → EndsTracks a h (elim o [
              | none ↦ ok sw
              | some m ↦ if gone m.self then delete_port m (record sw { monitor = none }) else ok sw
            ])
        on none k = (q, f, t)
        on (some m) k = elim (Bool-cases (gone m.self)) [
          | inl g ↦
              rw g (delete_port-EndsTracks m (record sw { monitor = none }) (q, f, ground arith))
          | inr g ↦ rw g (q, f, t)
        ]

    pub check_ports-EndsTracks :
        (sw : Switch) → Tracks a h sw → EndsTracks a h (check_ports gone sw)
    unfolding check_ports
    check_ports-EndsTracks sw t =
        then-EndsTracks a h (check_monitor gone) _ (check_from-EndsTracks sw.max_used 0 sw t)
          check_monitor-EndsTracks
