-- ===== src/Server/Place.antt =====
-- server/switch/switch.cc and server/switch/main.cc: a new port or a change of one, and the requests
-- of the others.
use l4_virtio_net_switch.Prelude.{
  ℕ, zero, suc, ◌≡◌, refl, ap, ◌∙◌, Bool, true, false, ◌||◌, ◌&&◌, Option, none, some, List, [],
  ◌∷◌, ◌==◌, set, if-intro, arith, Option-cases, Bool-cases, inl, inr, ==_iff,
}
use l4_virtio_net_switch.Transfer.{RxQueue}
use l4_virtio_net_switch.Port.{Port}
use l4_virtio_net_switch.Switch.{Switch, port_at, store, holds, held_in, held_by, add_port, place}
use l4_virtio_net_switch.Switch.Slots.{slot, FirstFree, add_port_lem}
use l4_virtio_net_switch.Switch.Forward.Frame.{port_at-self, port_at-store}
use l4_virtio_net_switch.Switch.Forward.Account.{waits, store-held_in}
use l4_virtio_net_switch.Switch.Irq.{with_port}
use l4_virtio_net_switch.Switch.Irq.Track.{Tracks}
use l4_virtio_net_switch.Device.{
  Change, resets, starts, reconfigures, change, reset, check_queues, reconfig_queue, set_up_rx,
  set_up_tx,
}
use l4_virtio_net_switch.Request.{TxQueue}

pub change-self : (c : Change) (p : Port) → (change c p).self ≡ p.self
unfolding reset check_queues reconfig_queue
change-self resets p = refl
change-self starts p =
    if-intro (λ (r : Bool × Port). r.1.self ≡ p.self) (p.rx.ready && p.tx.ready) _ _ (λ _. refl)
      (λ _. refl)
change-self (reconfigures setup_rx setup_tx index) p =
    if-intro (λ (r : ℕ × Port). r.1.self ≡ p.self) (index == 0) _ _ (λ _. rx (setup_rx p.rx))
      (λ _.
        if-intro (λ (r : ℕ × Port). r.1.self ≡ p.self) (index == 1) _ _ (λ _. tx (setup_tx p.tx))
          (λ _. refl))
  where
    rx : (r : Bool × RxQueue) → (set_up_rx p r).1.self ≡ p.self
    rx (true, q) = refl
    rx (false, q) = refl

    tx : (r : Bool × TxQueue) → (set_up_tx p r).1.self ≡ p.self
    tx (true, q) = refl
    tx (false, q) = refl

module _ (a h : ℕ) where
  -- A port but that at `a` is changed.
  pub elsewhere-Tracks :
      (f : Port → Port) (c : ℕ) (sw : Switch)
      → (c == a) ≡ false
      → ((p : Port) → (f p).self ≡ p.self)
      → ((p : Port) → (f p).pending_requests ≡ p.pending_requests)
      → Tracks a h sw
      → Tracks a h (with_port f c sw)
  elsewhere-Tracks f c sw other self same (p, e, t) = elim (Option-cases (port_at c sw.ports)) [
    | inl n ↦ rw (with_port, n) (p, e, t)
    | inr (o, g) ↦
        let at : (f o).self ≡ c = self o ∙ (==_iff o.self c).0 (port_at-self c sw.ports o g) in
        let own : port_at (f o).self sw.ports ≡ some o = ap (λ k. port_at k sw.ports) at ∙ g in
        let off : ((f o).self == a) ≡ false = ap (λ k. k == a) at ∙ other in
        let waiting : waits (a, h) (record sw { ports = store (f o) sw.ports }) ≡ waits (a, h) sw =
          ap (λ k. k || held_by (a, h) sw.monitor)
            (store-held_in (a, h) (f o) o sw.ports own (same o)) in
        rw (with_port, g) (p, port_at-store a (f o) sw.ports ∙ rw (off, e) refl, rw waiting t)
  ]

  -- A port that comes into an empty slot.
  set-held :
      (ps : List (Option Port)) (i : ℕ) (p : Port)
      → slot ps i ≡ none
      → held_in (a, h) ps ≡ true
      → held_in (a, h) (set ps i (some p)) ≡ true
  unfolding held_in
  set-held [] i p e w = w
  set-held (none ∷ ps) zero p e w = ground arith
  set-held (some o ∷ ps) zero p e w = absurd (ground arith)
  set-held (none ∷ ps) (suc i) p e w = set-held ps i p e w
  set-held (some o ∷ ps) (suc i) p e w = elim (Bool-cases (holds (a, h) o.pending_requests)) [
    | inl f ↦ rw f refl
    | inr f ↦ rw f (set-held ps i p e (ground arith))
  ]

  port_at-set :
      (ps : List (Option Port)) (i : ℕ) (p q : Port)
      → slot ps i ≡ none
      → (p.self == a) ≡ false
      → port_at a ps ≡ some q
      → port_at a (set ps i (some p)) ≡ some q
  unfolding port_at
  port_at-set [] i p q e other f = f
  port_at-set (none ∷ ps) zero p q e other f = rw other f
  port_at-set (some o ∷ ps) zero p q e other f = absurd (ground arith)
  port_at-set (none ∷ ps) (suc i) p q e other f = port_at-set ps i p q e other f
  port_at-set (some o ∷ ps) (suc i) p q e other f = elim (Bool-cases (o.self == a)) [
    | inl here ↦ rw here (ground arith)
    | inr off ↦ rw off (port_at-set ps i p q e other (ground arith))
  ]

  place-Tracks :
      (p : Port) (i : ℕ) (sw : Switch)
      → (p.self == a) ≡ false
      → FirstFree 0 sw.ports (some i)
      → Tracks a h sw
      → Tracks a h (place p (some i) sw).1
  unfolding place
  place-Tracks p i sw other (n, same, lt, free, _) (q, f, t) =
      let i_n : i ≡ n = omega arith in
      let at_i : slot sw.ports i ≡ none = rw i_n free in
      (q, port_at-set sw.ports i p q at_i other f, ground (arith, set-held sw.ports i p at_i))

  pub create-Tracks :
      (p : Port) (sw : Switch)
      → (p.self == a) ≡ false
      → Tracks a h sw
      → Tracks a h (add_port p sw).1
  create-Tracks p sw other t = elim (add_port_lem p sw) [
    | inl (_, f) ↦ rw f t
    | inr (inl (_, f)) ↦ rw f t
    | inr (inr (i, f, g)) ↦ rw g (place-Tracks p i sw other f t)
  ]
