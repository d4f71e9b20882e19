-- ===== src/Switch/Irq/Return.antt =====
-- server/switch/switch.cc, `handle_port_irq`: where the requests of a port are afterwards.
use l4_virtio_net_switch.Prelude.{
  sym, false, List-cases, inl, inr, ℕ, zero, suc, ◌≡◌, refl, ap, ◌∙◌, Bool, true, ◌||◌, none, some,
  List, [], ◌∷◌, arith, length, if-intro, if◌then◌else◌, Option-cases,
}
use l4_virtio_net_switch.Buffer.{DataBuffer}
use l4_virtio_net_switch.Port.{
  Port, emit_and_enable, disable_and_remember, set_notify, tx_work_pending, rx_work_pending,
}
use l4_virtio_net_switch.Port.Vlans.{member}
use l4_virtio_net_switch.Switch.{Switch, Ended, ok, threw, crashed, port_at}
use l4_virtio_net_switch.Switch.Forward.Sound.{Good}
use l4_virtio_net_switch.Switch.Forward.Taking.{FullChains}
use l4_virtio_net_switch.Switch.Forward.Account.{waits}
use l4_virtio_net_switch.Switch.Irq.{
  Arrival, arrive, with_port, work_pending, tx_loop, rx_loop, serve_both, enable, round,
  handle_port_irq,
}
use l4_virtio_net_switch.Switch.Irq.Keep.{FullArrivals}
use l4_virtio_net_switch.Switch.Irq.Safe.{EndsFull}
use l4_virtio_net_switch.Switch.Irq.Run.{handle_port_irq-EndsFull}
use mathlib.Core.Path.{subst}
use l4_virtio_net_switch.Switch.Irq.Idle.{Idle, handle_port_irq-Idle}
use l4_virtio_net_switch.Switch.Irq.Work.{Leaves}
use l4_virtio_net_switch.Switch.Irq.Track.{at_driver, tracked, Tracks}
use l4_virtio_net_switch.Switch.Irq.Follow.{EndsTracks, handle_tx_queue-EndsTracks}
use l4_virtio_net_switch.Switch.Irq.Serve.{serve_rx-EndsTracks}
use l4_virtio_net_switch.Switch.Irq.Quiet.{
  set_notify-Quiet, emit-Quiet, disable-Quiet, arrive-Quiet, each_port-Tracks, with_port-Tracks,
  then-EndsTracks,
}

module _ (a h : ℕ) (db : DataBuffer) (filter : List ℕ → ℕ → Bool) (garbage c : ℕ) where
  tx_loop-EndsTracks :
      (n : ℕ) (sw : Switch) → Tracks a h sw → EndsTracks a h (tx_loop db filter garbage c n sw)
  unfolding tx_loop
  tx_loop-EndsTracks zero sw t = t
  tx_loop-EndsTracks (suc n) sw t = elim (Option-cases (port_at c sw.ports)) [
    | inl e ↦ rw (tx_loop, e) tt
    | inr (p, e) ↦
        rw (tx_loop, e)
          (if-intro (EndsTracks a h) (tx_work_pending p) _ _
            (λ _.
              then-EndsTracks a h (tx_loop db filter garbage c n) _
                (handle_tx_queue-EndsTracks a h db filter garbage c sw t) (tx_loop-EndsTracks n))
            (λ _. t))
  ]

  rx_loop-EndsTracks :
      (n : ℕ) (sw : Switch) → Tracks a h sw → EndsTracks a h (rx_loop db filter garbage c n sw)
  unfolding rx_loop
  rx_loop-EndsTracks zero sw t = t
  rx_loop-EndsTracks (suc n) sw t = elim (Option-cases (port_at c sw.ports)) [
    | inl e ↦ rw (rx_loop, e) tt
    | inr (p, e) ↦
        rw (rx_loop, e)
          (if-intro (EndsTracks a h) (rx_work_pending p) _ _
            (λ _.
              then-EndsTracks a h (rx_loop db filter garbage c n) _
                (serve_rx-EndsTracks a h db filter garbage c sw t) (rx_loop-EndsTracks n))
            (λ _. t))
  ]

  serve_both-EndsTracks :
      (sw : Switch) → Tracks a h sw → EndsTracks a h (serve_both db filter garbage c sw)
  unfolding serve_both
  serve_both-EndsTracks sw t = elim (Option-cases (port_at c sw.ports)) [
    | inl e ↦ rw (serve_both, e) tt
    | inr (p, e) ↦
        rw (serve_both, e)
          (then-EndsTracks a h (rx_loop db filter garbage c 1) _
            (tx_loop-EndsTracks (length p.tx.avail) sw t) (rx_loop-EndsTracks 1))
  ]

  enable-EndsTracks : (e : Ended) → EndsTracks a h e → EndsTracks a h (enable db filter garbage c e)
  enable-EndsTracks (ok sw) t =
      with_port-Tracks a h (set_notify true) c _ (set_notify-Quiet h true)
        (each_port-Tracks a h emit_and_enable sw (emit-Quiet h) t)
  enable-EndsTracks (threw sw) t = t
  enable-EndsTracks crashed t = t

  round-EndsTracks : (sw : Switch) → Tracks a h sw → EndsTracks a h (round db filter garbage c sw)
  unfolding round
  round-EndsTracks sw t = enable-EndsTracks _ (
      serve_both-EndsTracks _ (
        each_port-Tracks a h disable_and_remember (with_port (set_notify false) c sw)
          (disable-Quiet h)
          (with_port-Tracks a h (set_notify false) c sw (set_notify-Quiet h false) t)))

  -- The interrupt of the port at `c` loses no request of the port at `a`.
  pub irq-EndsTracks :
      (xs : List Arrival) (sw : Switch)
      → Tracks a h sw
      → EndsTracks a h (handle_port_irq db filter garbage c xs sw)
  unfolding handle_port_irq
  irq-EndsTracks [] sw t = round-EndsTracks sw t
  irq-EndsTracks (x ∷ xs) sw t =
      then-EndsTracks a h
        (λ sw'. elim (port_at c (with_port (arrive x) c sw').ports) [
          | none ↦ crashed
          | some p ↦
              if work_pending p
              then handle_port_irq db filter garbage c xs (with_port (arrive x) c sw')
              else ok (with_port (arrive x) c sw')
        ])
        _ (round-EndsTracks sw t)
        (λ sw' t'.
          more (with_port (arrive x) c sw')
            (with_port-Tracks a h (arrive x) c sw' (arrive-Quiet h x) t') (irq-EndsTracks xs))
    where
      more :
          (sw'' : Switch)
          → Tracks a h sw''
          → ((s : Switch)
              → Tracks a h s
              → EndsTracks a h (handle_port_irq db filter garbage c xs s))
          → EndsTracks a h (elim (port_at c sw''.ports) [
            | none ↦ crashed
            | some p ↦
                if work_pending p then handle_port_irq db filter garbage c xs sw'' else ok sw''
          ])
      more sw'' t ih = elim (Option-cases (port_at c sw''.ports)) [
        | inl e ↦ rw e tt
        | inr (p, e) ↦
            rw e (if-intro (EndsTracks a h) (work_pending p) _ _ (λ _. ih sw'' t) (λ _. t))
      ]

module _ (a h c : ℕ) where
  -- An operation that does not crash and loses nothing. If it ends as it should, and the port is the
  -- one at `c`, nothing is left in a transmission queue that is ready.
  abbrev pub EndsKnown : Ended → Type 0
  EndsKnown (ok sw) =
      (q : Port) × (port_at a sw.ports ≡ some q)
      × (tracked a h q sw ≡ true)
      × (a ≡ c → q.tx.ready ≡ true → (member h q.tx.finished || waits (a, h) sw) ≡ true)
  EndsKnown (threw sw) = Tracks a h sw
  EndsKnown crashed = ⊥

  all_taken :
      (q : Port)
      → tx_work_pending q ≡ false
      → q.tx.ready ≡ true
      → at_driver h q.tx ≡ member h q.tx.finished
  unfolding tx_work_pending
  all_taken q idle ready = elim (List-cases q.tx.avail) [
    | inl e ↦ rw e refl
    | inr (c, cs, e) ↦ absurd (ground arith)
  ]

  Full-EndsKnown :
      (Own : ℕ → Type 0) (e : Ended)
      → EndsFull Own c e
      → Leaves c Idle e
      → EndsTracks a h e
      → EndsKnown e
  Full-EndsKnown Own (ok sw) f (q', e', idle) (q, e, t) = (
    q,
    e,
    t,
    λ same ready.
        let one : q' ≡ q = ground (arith, e, e', ap (λ k. port_at k sw.ports) same) in
        ap (λ b. b || waits (a, h) sw)
          (sym (all_taken q (subst (λ p. tx_work_pending p ≡ false) one idle.0) ready))
        ∙ t,
  )
  Full-EndsKnown Own (threw sw) f i t = t
  Full-EndsKnown Own crashed f i t = f

  module _ (db : DataBuffer) (filter : List ℕ → ℕ → Bool) (garbage : ℕ) where
    -- No request gets lost: the interrupt of the port at `c` is handled without a crash, and when
    -- it ends, or an exception has ended it, the chain `h` of the transmission queue of any port,
    -- the one at `a`, is still in the queue, or its driver has it back and has not given it again,
    -- or a transfer waits for it, in some port or in the monitor port, if one of these was so
    -- before, however often the driver adds chains. Without an exception, if `a` is `c` and the
    -- queue is ready afterwards, the driver has the chain back or a transfer waits for it. The
    -- switch is well-formed before, its transfers are in order and of ports that `Own` holds of,
    -- all of which are there, the one at `c` among them. The descriptors that the driver offers are
    -- not empty, but for the first of a chain.
    pub handle_port_irq-EndsKnown :
        (Own : ℕ → Type 0) (xs : List Arrival) (sw : Switch) (p : Port)
        → Own c
        → Good Own Own sw
        → port_at c sw.ports ≡ some p
        → FullChains p.tx.avail
        → FullArrivals xs
        → Tracks a h sw
        → EndsKnown (handle_port_irq db filter garbage c xs sw)
    handle_port_irq-EndsKnown Own xs sw p own g e full fs t =
        Full-EndsKnown Own _
          (handle_port_irq-EndsFull Own db filter garbage c own xs sw p g e full fs)
          (handle_port_irq-Idle db filter garbage c xs sw p e)
          (irq-EndsTracks a h db filter garbage c xs sw t)
