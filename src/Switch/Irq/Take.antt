-- ===== src/Switch/Irq/Take.antt =====
-- server/switch/switch.cc, `handle_tx_queue`: the chain that it takes.
use l4_virtio_net_switch.Switch.Irq.Work.{Leaves, SameWork, release-SameWork}
use l4_virtio_net_switch.Prelude.{
  ℕ, ◌≡◌, refl, ap, ◌∙◌, Bool, true, not, some, List, ◌∷◌, arith, Option-cases, Bool-cases, inl,
  inr, ==_iff, if-intro,
}
use mathlib.Core.Path.{subst}
use l4_virtio_net_switch.Buffer.{DataBuffer}
use l4_virtio_net_switch.Transfer.{Chain}
use l4_virtio_net_switch.Request.{TxQueue, finish_request, new_request, from_chain, get_request}
use l4_virtio_net_switch.Port.{Port, get_tx_request, admits}
use l4_virtio_net_switch.Switch.{Switch, Ended, ok, threw, crashed, port_at, store}
use l4_virtio_net_switch.Switch.Forward.{forward, end_request, rethrow, handle_tx_queue}
use l4_virtio_net_switch.Switch.Forward.Frame.{port_at-self, port_at-store, Frames, forward-Frames}

-- What is left of a port, in the queues and to be served.
pub record Took (p : Port) (cs : List Chain) (q : Port) : Type 0 where
  pub tx_avail : q.tx.avail ≡ cs
  pub tx_ready : q.tx.ready ≡ p.tx.ready
  pub rx_avail : q.rx.avail ≡ p.rx.avail
  pub rx_ready : q.rx.ready ≡ p.rx.ready
  pub pending : q.pending_requests ≡ p.pending_requests

module _ (db : DataBuffer) where
  pub from_chain-queue :
      (q : TxQueue) (c : Chain) (cs : List Chain)
      → ((from_chain db q (c ∷ cs)).1.avail ≡ cs) × ((from_chain db q (c ∷ cs)).1.ready ≡ q.ready)
  unfolding from_chain finish_request
  from_chain-queue q c cs = elim (Option-cases (new_request db c)) [
    | inl e ↦ rw (from_chain, e) (refl, refl)
    | inr (r, e) ↦ rw (from_chain, e) (refl, refl)
  ]

  pub get_request-queue :
      (q : TxQueue) (c : Chain) (cs : List Chain)
      → q.ready ≡ true
      → q.avail ≡ c ∷ cs
      → ((get_request db q).1.avail ≡ cs) × ((get_request db q).1.ready ≡ q.ready)
  unfolding get_request
  get_request-queue q c cs r e =
      let ready : get_request db q ≡ from_chain db q q.avail =
        if-intro (λ x. x ≡ from_chain db q q.avail) (not q.ready) _ _ (λ f. absurd (ground arith))
          (λ _. refl) in
      rw (ready ∙ ap (from_chain db q) e) (from_chain-queue q c cs)

  -- A request takes one chain of the queue.
  pub get_tx_request-Took :
      (p : Port) (c : Chain) (cs : List Chain)
      → p.tx.ready ≡ true
      → p.tx.avail ≡ c ∷ cs
      → Took p cs (get_tx_request db p).1 × ((get_tx_request db p).1.self ≡ p.self)
  unfolding get_tx_request finish_request
  get_tx_request-Took p c cs r e =
      let (f, g) = get_request-queue p.tx c cs r e in
      elim (Option-cases (get_request db p.tx).0) [
        | inl n ↦
            rw (get_tx_request, n)
              (
                record {
                  tx_avail = f;
                  tx_ready = g;
                  rx_avail = refl;
                  rx_ready = refl;
                  pending = refl;
                },
                refl,
              )
        | inr (r, s) ↦ elim (Bool-cases (admits p r)) [
          | inl a ↦
              rw (get_tx_request, s, a)
                (
                  record {
                    tx_avail = f;
                    tx_ready = g;
                    rx_avail = refl;
                    rx_ready = refl;
                    pending = refl;
                  },
                  refl,
                )
          | inr a ↦
              rw (get_tx_request, s, a)
                (
                  record {
                    tx_avail = f;
                    tx_ready = g;
                    rx_avail = refl;
                    rx_ready = refl;
                    pending = refl;
                  },
                  refl,
                )
        ]
      ]

  -- Of the port that sends it, the forwarding of a packet takes the one chain, and no more.
  pub handle_tx_queue-Took :
      (filter : List ℕ → ℕ → Bool) (garbage a : ℕ) (sw : Switch) (p : Port) (c : Chain)
      (cs : List Chain)
      → port_at a sw.ports ≡ some p
      → p.tx.ready ≡ true
      → p.tx.avail ≡ c ∷ cs
      → Leaves a (Took p cs) (handle_tx_queue db filter garbage a sw)
  unfolding handle_tx_queue
  handle_tx_queue-Took filter garbage a sw p c cs e r f =
      let src : Port = (get_tx_request db p).1 in
      let (took, same) = get_tx_request-Took p c cs r f in
      let at : src.self ≡ a = same ∙ (==_iff p.self a).0 (port_at-self a sw.ports p e) in
      let here : port_at a (store src sw.ports) ≡ some src =
        port_at-store a src sw.ports ∙ ground (arith, at, e) in
      elim (Option-cases (get_tx_request db p).0) [
        | inl n ↦ rw (handle_tx_queue, e, n) (src, here, took)
        | inr (q, s) ↦
            rw (handle_tx_queue, e, s)
              (ended src took q.head at
                (forward db filter garbage src q (record sw { ports = store src sw.ports }))
                (subst
                  (λ b.
                    Frames b (some src)
                      (forward db filter garbage src q (record sw { ports = store src sw.ports })))
                  at
                  (subst
                    (λ o.
                      Frames src.self o (
                        forward db filter garbage src q (record sw { ports = store src sw.ports })))
                    (ap (λ b. port_at b (store src sw.ports)) at ∙ here)
                    (forward-Frames db filter garbage src q
                      (record sw { ports = store src sw.ports })))))
      ]
    where
      more : (src q : Port) → Took p cs src → SameWork src q → Took p cs q
      more src q t s = record {
        tx_avail = s.tx_avail ∙ t.tx_avail;
        tx_ready = s.tx_ready ∙ t.tx_ready;
        rx_avail = s.rx_avail ∙ t.rx_avail;
        rx_ready = s.rx_ready ∙ t.rx_ready;
        pending = s.pending ∙ t.pending;
      }

      released :
          (src : Port)
          → Took p cs src
          → (o : Ended) → Leaves a (SameWork src) o
          → Leaves a (Took p cs) o
      released src t (ok sw') (q, e, s) = (q, e, more src q t s)
      released src t (threw sw') l = tt
      released src t crashed l = tt

      quiet : (o : Ended) → Leaves a (Took p cs) (rethrow o)
      quiet (ok sw') = tt
      quiet (threw sw') = tt
      quiet crashed = tt

      ended :
          (src : Port)
          → Took p cs src
          → (head : ℕ) → src.self ≡ a
          → (o : Ended) → Frames a (some src) o
          → Leaves a (Took p cs) (end_request (src.self, head) o)
      ended src t head at (ok sw') fr =
          released src t _ (release-SameWork (src.self, head) a src sw' fr)
      ended src t head at (threw sw') fr = quiet _
      ended src t head at crashed fr = tt
