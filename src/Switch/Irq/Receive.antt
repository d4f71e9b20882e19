-- ===== src/Switch/Irq/Receive.antt =====
-- server/switch/port.h, `handle_rx_queue`: what it leaves to do.
use l4_virtio_net_switch.Prelude.{
  ◌≡◌, refl, ap, true, false, List, [], ◌∷◌, arith, Bool-cases, List-cases, inl, inr, ◌⊎◌,
}
use l4_virtio_net_switch.Buffer.{DataBuffer}
use l4_virtio_net_switch.Transfer.{
  Chain, Transfer, Outcome, delivered, blocked, too_small, aborted, running, transfer,
}
use l4_virtio_net_switch.Transfer.Starve.{Starved, Waits, transfer-Waits}
use l4_virtio_net_switch.Port.{Port, Done, retry, handle_rx_queue, rx_work_pending, tx_work_pending}

pub pending_cases :
    (p : Port)
    → (tx_work_pending p ≡ false)
      ⊎ ((c : Chain) × (cs : List Chain) × (p.tx.avail ≡ c ∷ cs) × (p.tx.ready ≡ true))
unfolding tx_work_pending
pending_cases p = elim (List-cases p.tx.avail) [
  | inl e ↦ inl (ground arith)
  | inr (c, cs, e) ↦ elim (Bool-cases p.tx.ready) [
    | inl r ↦ inr (c, cs, e, r)
    | inr r ↦ inl (ground arith)
  ]
]

pub none_pending : (p : Port) → p.tx.avail ≡ [] → tx_work_pending p ≡ false
unfolding tx_work_pending
none_pending p e = ground arith

pub some_pending :
    (p : Port) (c : Chain) (cs : List Chain)
    → p.tx.avail ≡ c ∷ cs
    → p.tx.ready ≡ true
    → tx_work_pending p ≡ true
unfolding tx_work_pending
some_pending p c cs e r = ground arith

pub same_tx : (p q : Port) → q.tx ≡ p.tx → tx_work_pending q ≡ tx_work_pending p
unfolding tx_work_pending
same_tx p q e = ground (arith, ap (λ t. t.avail) e, ap (λ t. t.ready) e)

-- The state of the receive side after a call of `handle_rx_queue`.
abbrev pub RxServed : Port → Done → Type 0
RxServed p (Done.ok q) = (rx_work_pending q ≡ false) × (q.tx ≡ p.tx) × (q.self ≡ p.self)
RxServed p (Done.threw q) = q.self ≡ p.self
RxServed p Done.failed = Unit {0}

pub Starved-Idle :
    (q : Port) (t : Transfer) (ts : List Transfer)
    → Starved q.rx
    → q.pending_requests ≡ t ∷ ts
    → rx_work_pending q ≡ false
unfolding rx_work_pending
Starved-Idle q t ts (inl e) f = ground arith
Starved-Idle q t ts (inr r) f = elim (List-cases q.rx.avail) [
  | inl e ↦ ground arith
  | inr (c, cs, e) ↦ ground arith
]

pub nothing_idle : (q : Port) → q.pending_requests ≡ [] → rx_work_pending q ≡ false
unfolding rx_work_pending
nothing_idle q e = ground arith

module _ (db : DataBuffer) where
  pub retry-RxServed :
      (ts : List Transfer) (p o : Port) → p.tx ≡ o.tx → p.self ≡ o.self → RxServed o (retry db p ts)
  unfolding retry
  retry-RxServed [] p o e f = (nothing_idle _ refl, e, f)
  retry-RxServed (t ∷ ts) p o e f =
      after (transfer db t p.rx) (transfer-Waits db t p.rx)
        (λ q. retry-RxServed ts (record p { rx = q }) o e f)
    where
      after :
          (r : Outcome)
          → Waits t r
          → ((q : _) → RxServed o (retry db (record p { rx = q }) ts))
          → RxServed o (elim r [
            | delivered t' q ↦ retry db (record p { rx = q }) ts
            | blocked t' q ↦ Done.ok (record p { rx = q; pending_requests = t' ∷ ts })
            | too_small t' q ↦ Done.threw (record p { rx = q; pending_requests = ts })
            | aborted ↦ Done.failed
            | running t' q ↦ Done.failed
          ])
      after (delivered t' q) w ih = ih q
      after (blocked t' q) (_, w) ih = (Starved-Idle _ t' ts w refl, e, f)
      after (too_small t' q) w ih = f
      after aborted w ih = tt
      after (running t' q) w ih = tt

  pub handle_rx_queue-RxServed : (p : Port) → RxServed p (handle_rx_queue db p)
  unfolding handle_rx_queue
  handle_rx_queue-RxServed p = retry-RxServed p.pending_requests p p refl refl
