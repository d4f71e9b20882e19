-- ===== src/Switch/Irq/Run.antt =====
-- server/switch/switch.cc, `handle_port_irq`: how it ends.
use l4_virtio_net_switch.Prelude.{
  ℕ, zero, suc, ◌≡◌, refl, ◌∙◌, Bool, true, false, none, some, List, [], ◌∷◌, if◌then◌else◌,
  Bool-cases, inl, inr, if-intro, length, ◌==◌,
}
use l4_virtio_net_switch.Buffer.{DataBuffer}
use l4_virtio_net_switch.Port.{
  Port, Done, handle_rx_queue, rx_work_pending, emit_and_enable, disable_and_remember, set_notify,
}
use l4_virtio_net_switch.Port.Deliver.{Waiting, handle_rx_queue-Served}
use l4_virtio_net_switch.Switch.{Switch, Ended, ok, threw, crashed, port_at, store}
use l4_virtio_net_switch.Switch.Forward.{rethrow}
use l4_virtio_net_switch.Switch.Forward.Frame.{port_at-self, port_at-store}
use l4_virtio_net_switch.Switch.Forward.Sound.{Good, EndsGood, port_at-Waiting, Good-store}
use l4_virtio_net_switch.Switch.Forward.Deliver.{handle_tx_queue-EndsGood}
use l4_virtio_net_switch.Switch.Forward.Taking.{FullChains}
use l4_virtio_net_switch.Switch.Irq.{
  Arrival, arrive, gone_from, served, with_port, work_pending, serve_rx, tx_loop, rx_loop,
  serve_both, enable, round, handle_port_irq,
}
use l4_virtio_net_switch.Switch.Irq.Work.{SameWork, release_all-SameWork}
use l4_virtio_net_switch.Switch.Irq.Take.{Took, handle_tx_queue-Took}
use l4_virtio_net_switch.Switch.Irq.Visit.{
  port_at-each_port, port_at-with_port, emit-SameWork, set_notify-SameWork, arrive-self,
  disable-self,
}
use l4_virtio_net_switch.Switch.Irq.Receive.{
  RxServed, handle_rx_queue-RxServed, pending_cases, some_pending,
}
use l4_virtio_net_switch.Switch.Irq.Safe.{
  take-Owned, release_all-Good, StillWaiting, Served-StillWaiting, EndsFull, both-EndsFull, next,
}
use l4_virtio_net_switch.Switch.Irq.Keep.{
  arrive-FullChains, arrive-pending, FullArrivals, each_port-Good, with_port-Good,
}

module _ (Own : ℕ → Type 0) (db : DataBuffer) (filter : List ℕ → ℕ → Bool) (garbage a : ℕ)
    (own : Own a) where
  serve_rx-EndsFull :
      (sw : Switch) (p : Port)
      → Good Own Own sw
      → port_at a sw.ports ≡ some p
      → FullChains p.tx.avail
      → EndsFull Own a (serve_rx db filter garbage a sw)
  unfolding serve_rx
  serve_rx-EndsFull sw p g e full =
      rw (serve_rx, e)
        (on (handle_rx_queue db p) (handle_rx_queue-RxServed db p)
          (Served-StillWaiting Own (handle_rx_queue-Served db Own p w) w))
    where
      w : Waiting Own p.pending_requests
      w = (port_at-Waiting Own Own a sw.ports p g.waiting e).0

      at : (p.self == a) ≡ true
      at = port_at-self a sw.ports p e

      on : (d : Done) → RxServed p d → StillWaiting Own d → EndsFull Own a (served p d sw)
      on (Done.ok q) (i, t, s) v =
          let here : port_at a (store q sw.ports) ≡ some q =
            port_at-store a q sw.ports ∙ rw (s, at, e) refl in
          both-EndsFull Own a (SameWork q) _
            (release_all-Good Own (gone_from p.pending_requests q.pending_requests) _
              (take-Owned Own _ _ w) (Good-store Own Own sw q g v))
            (release_all-SameWork (gone_from p.pending_requests q.pending_requests) a q
              (record sw { ports = store q sw.ports }) here)
            (λ u sm. rw (sm.tx_avail, t) full)
      on (Done.threw q) s v = escape _ (
          release_all-Good Own (gone_from p.pending_requests q.pending_requests) _
            (take-Owned Own _ _ w) (Good-store Own Own sw q g v))
        where
          escape : (e : Ended) → EndsGood Own Own e → EndsFull Own a (rethrow e)
          escape (ok sw') h = h
          escape (threw sw') h = h
          escape crashed h = h
      on Done.failed s v = v

  tx_loop-EndsFull :
      (n : ℕ) (sw : Switch) (p : Port)
      → Good Own Own sw
      → port_at a sw.ports ≡ some p
      → FullChains p.tx.avail
      → EndsFull Own a (tx_loop db filter garbage a n sw)
  unfolding tx_loop
  tx_loop-EndsFull zero sw p g e full = (g, (p, e, full))
  tx_loop-EndsFull (suc n) sw p g e full = elim (pending_cases p) [
    | inl f ↦ rw (tx_loop, e, f) (g, (p, e, full))
    | inr (c, cs, f, r) ↦
        let full' : FullChains (c ∷ cs) = rw f at full in
        rw (tx_loop, e, some_pending p c cs f r)
          (next Own a (tx_loop db filter garbage a n) _
            (both-EndsFull Own a (Took p cs) _
              (handle_tx_queue-EndsGood Own Own db filter garbage a p sw g own own e full)
              (handle_tx_queue-Took db filter garbage a sw p c cs e r f)
              (λ q t. rw t.tx_avail full'.1))
            (λ sw' q g' e' full''. tx_loop-EndsFull n sw' q g' e' full''))
  ]

  rx_loop-EndsFull :
      (sw : Switch) (p : Port)
      → Good Own Own sw
      → port_at a sw.ports ≡ some p
      → FullChains p.tx.avail
      → EndsFull Own a (rx_loop db filter garbage a 1 sw)
  unfolding rx_loop
  rx_loop-EndsFull sw p g e full = elim (Bool-cases (rx_work_pending p)) [
    | inl f ↦
        rw (rx_loop, e, f)
          (next Own a ok _ (serve_rx-EndsFull sw p g e full)
            (λ sw' q g' e' full'. (g', (q, e', full'))))
    | inr f ↦ rw (rx_loop, e, f) (g, (p, e, full))
  ]

  serve_both-EndsFull :
      (sw : Switch) (p : Port)
      → Good Own Own sw
      → port_at a sw.ports ≡ some p
      → FullChains p.tx.avail
      → EndsFull Own a (serve_both db filter garbage a sw)
  unfolding serve_both
  serve_both-EndsFull sw p g e full =
      rw (serve_both, e)
        (next Own a (rx_loop db filter garbage a 1) _
          (tx_loop-EndsFull (length p.tx.avail) sw p g e full) rx_loop-EndsFull)

module _ (Own : ℕ → Type 0) (db : DataBuffer) (filter : List ℕ → ℕ → Bool) (garbage a : ℕ)
    (own : Own a) where
  disable-pending : (p : Port) → (disable_and_remember p).pending_requests ≡ p.pending_requests
  unfolding disable_and_remember
  disable-pending p = refl

  disable-avail : (p : Port) → (disable_and_remember p).tx.avail ≡ p.tx.avail
  unfolding disable_and_remember
  disable-avail p = refl

  enable-EndsFull : (o : Ended) → EndsFull Own a o → EndsFull Own a (enable db filter garbage a o)
  enable-EndsFull (ok sw) (g, (q, e, full)) =
      let f = port_at-each_port a emit_and_enable sw.ports q (λ o. (emit-SameWork o).1) e in
      let g' =
        each_port-Good Own emit_and_enable sw (λ o. (emit-SameWork o).1)
          (λ o. (emit-SameWork o).0.pending) g in
      (
        with_port-Good Own (set_notify true) a _ _ (λ o. (set_notify-SameWork true o).0.pending) f
            g',
        (
          _,
          port_at-with_port a (set_notify true) _ _ (λ o. (set_notify-SameWork true o).1) f,
          rw
              (
                (set_notify-SameWork true (emit_and_enable q)).0.tx_avail,
                (emit-SameWork q).0.tx_avail,
              )
              full,
        ),
      )
  enable-EndsFull (threw sw) g = g
  enable-EndsFull crashed g = g

  round-EndsFull :
      (sw : Switch) (p : Port)
      → Good Own Own sw
      → port_at a sw.ports ≡ some p
      → FullChains p.tx.avail
      → EndsFull Own a (round db filter garbage a sw)
  unfolding round
  round-EndsFull sw p g e full =
      let quiet = set_notify false in
      let f = port_at-with_port a quiet sw p (λ o. (set_notify-SameWork false o).1) e in
      let g1 = with_port-Good Own quiet a sw p (λ o. (set_notify-SameWork false o).0.pending) e g in
      let f2 = port_at-each_port a disable_and_remember _ _ disable-self f in
      let g2 = each_port-Good Own disable_and_remember _ disable-self disable-pending g1 in
      enable-EndsFull _ (
        serve_both-EndsFull Own db filter garbage a own _ _ g2 f2
          (rw (disable-avail (quiet p), (set_notify-SameWork false p).0.tx_avail) full))

  -- The interrupt of a port that is there is handled without a crash, however often the driver adds
  -- chains meanwhile: no assertion fails, and no port that is gone is used. It ends in a switch as
  -- it starts in one: well-formed, with transfers that are in order and whose requests are of ports
  -- that `Own` holds of, all of which are there, the one at `a` among them. The descriptors that
  -- the driver offers are not empty, but for the first of a chain. To be in order includes that no
  -- descriptor that a transfer still has to read is empty.
  pub handle_port_irq-EndsFull :
      (xs : List Arrival) (sw : Switch) (p : Port)
      → Good Own Own sw
      → port_at a sw.ports ≡ some p
      → FullChains p.tx.avail
      → FullArrivals xs
      → EndsFull Own a (handle_port_irq db filter garbage a xs sw)
  unfolding handle_port_irq
  handle_port_irq-EndsFull [] sw p g e full fs = round-EndsFull sw p g e full
  handle_port_irq-EndsFull (x ∷ xs) sw p g e full fs =
      next Own a
        (λ sw'. elim (port_at a (with_port (arrive x) a sw').ports) [
          | none ↦ crashed
          | some p ↦
              if work_pending p
              then handle_port_irq db filter garbage a xs (with_port (arrive x) a sw')
              else ok (with_port (arrive x) a sw')
        ])
        _ (round-EndsFull sw p g e full)
        (λ sw' q g' f full'.
          let h = port_at-with_port a (arrive x) sw' q (arrive-self x) f in
          let g'' = with_port-Good Own (arrive x) a sw' q (arrive-pending x) f g' in
          let full'' = arrive-FullChains x q full' fs.0 in
          rw h (
            if-intro (EndsFull Own a) (work_pending (arrive x q)) _ _
              (λ _.
                handle_port_irq-EndsFull xs (with_port (arrive x) a sw') (arrive x q) g'' h full''
                  fs.1)
              (λ _. (g'', (arrive x q, h, full'')))))
