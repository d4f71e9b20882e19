-- ===== src/Switch/Irq/Work.antt =====
-- server/switch/switch.cc and port.h: what the loops of `handle_port_irq` take from the queues.
use l4_virtio_net_switch.Prelude.{
  ℕ, ◌≡◌, refl, ap, ◌∙◌, ◌||◌, some, List, [], ◌∷◌, ◌==◌, arith, Option-cases, Bool-cases, inl, inr,
  ==_iff,
}
use l4_virtio_net_switch.Transfer.{Transfer}
use l4_virtio_net_switch.Request.{finish_request}
use l4_virtio_net_switch.Port.{Port, rx_work_pending, tx_work_pending}
use l4_virtio_net_switch.Switch.{
  Switch, Ended, ok, threw, crashed, port_at, store, release, release_all, held_in, held_by,
}
use l4_virtio_net_switch.Switch.Forward.Frame.{port_at-self, port_at-store}

-- The port that an operation leaves at an address, if it ends as it should.
abbrev pub Leaves : ℕ → (Port → Type 0) → Ended → Type 0
Leaves a P (ok sw) = (q : Port) × (port_at a sw.ports ≡ some q) × P q
Leaves a P (threw sw) = Unit {0}
Leaves a P crashed = Unit {0}

-- The same work waits in both queues.
pub record SameWork (p q : Port) : Type 0 where
  pub tx_avail : q.tx.avail ≡ p.tx.avail
  pub tx_ready : q.tx.ready ≡ p.tx.ready
  pub rx_avail : q.rx.avail ≡ p.rx.avail
  pub rx_ready : q.rx.ready ≡ p.rx.ready
  pub pending : q.pending_requests ≡ p.pending_requests

pub SameWork-refl : (p : Port) → SameWork p p
SameWork-refl p = record {
  tx_avail = refl;
  tx_ready = refl;
  rx_avail = refl;
  rx_ready = refl;
  pending = refl;
}

pub SameWork-trans : {p q r : Port} → SameWork p q → SameWork q r → SameWork p r
SameWork-trans s t = record {
  tx_avail = t.tx_avail ∙ s.tx_avail;
  tx_ready = t.tx_ready ∙ s.tx_ready;
  rx_avail = t.rx_avail ∙ s.rx_avail;
  rx_ready = t.rx_ready ∙ s.rx_ready;
  pending = t.pending ∙ s.pending;
}

pub SameWork-pending :
    {p q : Port}
    → SameWork p q
    → (tx_work_pending q ≡ tx_work_pending p) × (rx_work_pending q ≡ rx_work_pending p)
unfolding tx_work_pending rx_work_pending
SameWork-pending s =
    (ground (arith, s.tx_avail, s.tx_ready), ground (arith, s.rx_avail, s.rx_ready, s.pending))

-- The object at an address, once the one at `q.self` is written.
pub Leaves-store :
    (a : ℕ) (sw : Switch) (p o q : Port)
    → port_at a sw.ports ≡ some p
    → port_at o.self sw.ports ≡ some o
    → q.self ≡ o.self
    → SameWork o q
    → Leaves a (SameWork p) (ok (record sw { ports = store q sw.ports }))
Leaves-store a sw p o q e f same s = elim (Bool-cases (o.self == a)) [
  | inl at ↦
      let here : o.self ≡ a = (==_iff o.self a).0 at in
      let one : o ≡ p = ground (arith, f, e, ap (λ k. port_at k sw.ports) here) in
      (q, port_at-store a q sw.ports ∙ rw (same, at, e) refl, rw⁻¹ one s)
  | inr other ↦ (p, port_at-store a q sw.ports ∙ rw (same, other) e, SameWork-refl p)
]

pub release-SameWork :
    (r : ℕ × ℕ) (a : ℕ) (p : Port) (sw : Switch)
    → port_at a sw.ports ≡ some p
    → Leaves a (SameWork p) (release r sw)
unfolding release finish_request
release-SameWork r a p sw e = elim (Bool-cases (held_in r sw.ports || held_by r sw.monitor)) [
  | inl h ↦ rw h (p, e, SameWork-refl p)
  | inr h ↦ elim (Option-cases (port_at r.0 sw.ports)) [
    | inl f ↦ rw (release, h, f) tt
    | inr (o, f) ↦
        rw (release, h, f)
          (Leaves-store a sw p o (record o { tx = finish_request r.1 o.tx }) e
            (ap (λ k. port_at k sw.ports) ((==_iff o.self r.0).0 (port_at-self r.0 sw.ports o f))
              ∙ f)
            refl
            (record {
              tx_avail = refl;
              tx_ready = refl;
              rx_avail = refl;
              rx_ready = refl;
              pending = refl;
            }))
  ]
]

pub release_all-SameWork :
    (ts : List Transfer) (a : ℕ) (p : Port) (sw : Switch)
    → port_at a sw.ports ≡ some p
    → Leaves a (SameWork p) (release_all ts sw)
unfolding release_all
release_all-SameWork [] a p sw e = (p, e, SameWork-refl p)
release_all-SameWork (t ∷ ts) a p sw e =
    after (release t.request sw) (release-SameWork t.request a p sw e)
      (λ q sw' f. release_all-SameWork ts a q sw' f)
  where
    more : (q : Port) (o : Ended) → SameWork p q → Leaves a (SameWork q) o → Leaves a (SameWork p) o
    more q (ok sw') s (r, f, s') = (r, f, SameWork-trans s s')
    more q (threw sw') s l = tt
    more q crashed s l = tt

    after :
        (o : Ended)
        → Leaves a (SameWork p) o
        → ((q : Port) (sw' : Switch)
            → port_at a sw'.ports ≡ some q
            → Leaves a (SameWork q) (release_all ts sw'))
        → Leaves a
            (SameWork p)
            (elim o [ ok sw' ↦ release_all ts sw' | threw sw' ↦ threw sw' | crashed ↦ crashed ])
    after (ok sw') (q, f, s) ih = more q _ s (ih q sw' f)
    after (threw sw') l ih = tt
    after crashed l ih = tt
