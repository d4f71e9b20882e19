-- ===== src/Switch/Irq/Idle.antt =====
-- server/switch/switch.cc, `handle_port_irq`: the work that it leaves.
use l4_virtio_net_switch.Prelude.{
  ℕ, zero, suc, ◌≤◌, ◌≡◌, refl, ◌∙◌, Bool, true, false, none, some, List, [], ◌∷◌, ◌==◌,
  if◌then◌else◌, arith, Bool-cases, List-cases, inl, inr, if-intro, length,
}
use l4_virtio_net_switch.Buffer.{DataBuffer}
use l4_virtio_net_switch.Port.{
  Port, Done, handle_rx_queue, rx_work_pending, tx_work_pending, emit_and_enable,
  disable_and_remember, set_notify,
}
use l4_virtio_net_switch.Switch.{Switch, Ended, ok, threw, crashed, port_at, store}
use l4_virtio_net_switch.Switch.Forward.{rethrow}
use l4_virtio_net_switch.Switch.Forward.Frame.{port_at-self, port_at-store}
use l4_virtio_net_switch.Switch.Irq.{
  Arrival, arrive, each_port, gone_from, served, with_port, work_pending, serve_rx, tx_loop,
  rx_loop, serve_both, enable, round, handle_port_irq,
}
use l4_virtio_net_switch.Switch.Irq.Work.{Leaves, SameWork, SameWork-pending, release_all-SameWork}
use l4_virtio_net_switch.Switch.Irq.Take.{Took, handle_tx_queue-Took}
use l4_virtio_net_switch.Switch.Irq.Receive.{
  pending_cases, none_pending, some_pending, same_tx, RxServed, handle_rx_queue-RxServed,
}
use l4_virtio_net_switch.Switch.Irq.Visit.{
  port_at-each_port, port_at-with_port, emit-SameWork, disable-self, arrive-self,
  set_notify-SameWork,
}

-- No work in the transmission queue; in both.
abbrev pub TxIdle : Port → Type 0
TxIdle q = tx_work_pending q ≡ false

abbrev pub Idle : Port → Type 0
Idle q = (tx_work_pending q ≡ false) × (rx_work_pending q ≡ false)

-- The next operation, on the port that one has left.
next :
    (a : ℕ) (P Q : Port → Type 0) (f : Switch → Ended) (o : Ended)
    → Leaves a P o
    → ((sw : Switch) (q : Port) → port_at a sw.ports ≡ some q → P q → Leaves a Q (f sw))
    → Leaves a Q (elim o [ ok sw ↦ f sw | threw sw ↦ threw sw | crashed ↦ crashed ])
next a P Q f (ok sw) (q, e, h) g = g sw q e h
next a P Q f (threw sw) l g = tt
next a P Q f crashed l g = tt

module _ (db : DataBuffer) (filter : List ℕ → ℕ → Bool) (garbage a : ℕ) where
  serve_rx-Idle :
      (sw : Switch) (p : Port)
      → port_at a sw.ports ≡ some p
      → TxIdle p
      → Leaves a Idle (serve_rx db filter garbage a sw)
  unfolding serve_rx
  serve_rx-Idle sw p e idle =
      rw (serve_rx, e) (on (handle_rx_queue db p) (handle_rx_queue-RxServed db p))
    where
      at : (p.self == a) ≡ true
      at = port_at-self a sw.ports p e

      written : (q : Port) → q.self ≡ p.self → port_at a (store q sw.ports) ≡ some q
      written q same = port_at-store a q sw.ports ∙ rw (same, at, e) refl

      still : (q : Port) → (rx_work_pending q ≡ false) × (q.tx ≡ p.tx) × (q.self ≡ p.self) → Idle q
      still q (i, t, s) = (same_tx p q t ∙ idle, i)

      kept : (q : Port) (o : Ended) → Idle q → Leaves a (SameWork q) o → Leaves a Idle o
      kept q (ok sw') (t, r) (u, f, s) =
          let (st, sr) = SameWork-pending s in (u, f, (st ∙ t, sr ∙ r))
      kept q (threw sw') i l = tt
      kept q crashed i l = tt

      quiet : (o : Ended) → Leaves a Idle (rethrow o)
      quiet (ok sw') = tt
      quiet (threw sw') = tt
      quiet crashed = tt

      on : (d : Done) → RxServed p d → Leaves a Idle (served p d sw)
      on (Done.ok q) (i, t, s) = kept q _ (still q (i, t, s)) (
          release_all-SameWork (gone_from p.pending_requests q.pending_requests) a q
            (record sw { ports = store q sw.ports }) (written q s))
      on (Done.threw q) i = quiet _
      on Done.failed i = tt

  tx_loop-Idle :
      (n : ℕ) (sw : Switch) (p : Port)
      → port_at a sw.ports ≡ some p
      → length p.tx.avail ≤ n
      → Leaves a TxIdle (tx_loop db filter garbage a n sw)
  unfolding tx_loop
  tx_loop-Idle zero sw p e le = (
    p,
    e,
    none_pending p
        (elim (List-cases p.tx.avail) [ inl f ↦ f | inr (c, cs, f) ↦ absurd (ground arith) ]),
  )
  tx_loop-Idle (suc n) sw p e le = elim (pending_cases p) [
    | inl f ↦ rw (tx_loop, e, f) (p, e, f)
    | inr (c, cs, f, r) ↦
        rw (tx_loop, e, some_pending p c cs f r)
          (next a (Took p cs) TxIdle (tx_loop db filter garbage a n) _
            (handle_tx_queue-Took db filter garbage a sw p c cs e r f)
            (λ sw' q g t. tx_loop-Idle n sw' q g (ground (arith, t.tx_avail))))
  ]

  rx_loop-Idle :
      (sw : Switch) (p : Port)
      → port_at a sw.ports ≡ some p
      → TxIdle p
      → Leaves a Idle (rx_loop db filter garbage a 1 sw)
  unfolding rx_loop
  rx_loop-Idle sw p e idle = elim (Bool-cases (rx_work_pending p)) [
    | inl f ↦
        rw (rx_loop, e, f)
          (next a Idle Idle ok _ (serve_rx-Idle sw p e idle) (λ sw' q g i. (q, g, i)))
    | inr f ↦ rw (rx_loop, e, f) (p, e, (idle, f))
  ]

  serve_both-Idle :
      (sw : Switch) (p : Port)
      → port_at a sw.ports ≡ some p
      → Leaves a Idle (serve_both db filter garbage a sw)
  unfolding serve_both
  serve_both-Idle sw p e =
      rw (serve_both, e)
        (next a TxIdle Idle (rx_loop db filter garbage a 1) _
          (tx_loop-Idle (length p.tx.avail) sw p e (omega arith))
          (λ sw' q g i. rx_loop-Idle sw' q g i))

SameWork-Idle : (p q : Port) → SameWork p q → Idle p → Idle q
SameWork-Idle p q s (i, j) = let (st, sr) = SameWork-pending s in (st ∙ i, sr ∙ j)

not_pending : (p : Port) → work_pending p ≡ false → Idle p
unfolding work_pending
not_pending p e = (ground arith, ground arith)

module _ (db : DataBuffer) (filter : List ℕ → ℕ → Bool) (garbage a : ℕ) where
  enable-Idle : (o : Ended) → Leaves a Idle o → Leaves a Idle (enable db filter garbage a o)
  enable-Idle (ok sw) (q, e, i) =
      let f = port_at-each_port a emit_and_enable sw.ports q (λ o. (emit-SameWork o).1) e in
      let g =
        port_at-with_port a (set_notify true)
          (record sw { ports = each_port emit_and_enable sw.ports }) _
          (λ o. (set_notify-SameWork true o).1) f in
      (
        _,
        g,
        SameWork-Idle _ _ (set_notify-SameWork true (emit_and_enable q)).0
            (SameWork-Idle _ _ (emit-SameWork q).0 i),
      )
  enable-Idle (threw sw) l = tt
  enable-Idle crashed l = tt

  round-Idle :
      (sw : Switch) (p : Port)
      → port_at a sw.ports ≡ some p
      → Leaves a Idle (round db filter garbage a sw)
  unfolding round
  round-Idle sw p e =
      let f =
        port_at-with_port a (set_notify false) sw p (λ o. (set_notify-SameWork false o).1) e in
      let g = port_at-each_port a disable_and_remember _ _ disable-self f in
      enable-Idle _ (serve_both-Idle db filter garbage a _ _ g)

  -- When the interrupt of a port that is there has been handled, however often its driver adds
  -- chains meanwhile, no work waits in either of its queues: the transmission queue has no chain,
  -- and of the receive queue there is nothing to deliver or no chain to deliver it to. (An
  -- exception or a crash ends the handling before.)
  pub handle_port_irq-Idle :
      (xs : List Arrival) (sw : Switch) (p : Port)
      → port_at a sw.ports ≡ some p
      → Leaves a Idle (handle_port_irq db filter garbage a xs sw)
  unfolding handle_port_irq
  handle_port_irq-Idle [] sw p e = round-Idle sw p e
  handle_port_irq-Idle (x ∷ xs) sw p e =
      next a Idle Idle
        (λ sw'. elim (port_at a (with_port (arrive x) a sw').ports) [
          | none ↦ crashed
          | some p ↦
              if work_pending p
              then handle_port_irq db filter garbage a xs (with_port (arrive x) a sw')
              else ok (with_port (arrive x) a sw')
        ])
        _ (round-Idle sw p e)
        (λ sw' q f i.
          let g = port_at-with_port a (arrive x) sw' q (arrive-self x) f in
          rw g (
            if-intro (Leaves a Idle) (work_pending (arrive x q)) _ _
              (λ _. handle_port_irq-Idle xs (with_port (arrive x) a sw') (arrive x q) g)
              (λ w. (arrive x q, g, not_pending (arrive x q) w))))
