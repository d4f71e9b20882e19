-- ===== src/Switch/Irq/Serve.antt =====
-- server/switch/port.h, `handle_rx_queue`: where the requests that wait are afterwards.
use l4_virtio_net_switch.Prelude.{
  Option-cases, inr, inl, ℕ, suc, ◌-◌, ◌≤◌, ◌≡◌, refl, ap, ◌∙◌, Bool, true, false, ◌||◌, some, List,
  [], ◌∷◌, arith, length, ==_iff,
}
use l4_virtio_net_switch.Buffer.{DataBuffer}
use l4_virtio_net_switch.Transfer.{
  Transfer, RxQueue, Outcome, delivered, blocked, too_small, aborted, running, transfer,
}
use l4_virtio_net_switch.Transfer.Starve.{Waits, transfer-Waits}
use l4_virtio_net_switch.Port.{Port, Done, retry, handle_rx_queue}
use l4_virtio_net_switch.Switch.{Switch, port_at, store, holds, held_in, held_by}
use l4_virtio_net_switch.Switch.Forward.Frame.{port_at-self}
use l4_virtio_net_switch.Switch.Forward.TxFrame.{store-TxAt}
use l4_virtio_net_switch.Switch.Forward.Grow.{store-held}
use l4_virtio_net_switch.Switch.Irq.{gone_from, served, serve_rx}
use l4_virtio_net_switch.Switch.Irq.Track.{at_driver, TracksOr, Tracks, release_all-EndsTracksOr}
use l4_virtio_net_switch.Switch.Irq.Follow.{EndsTracks, EndsTracksOr-EndsTracks, rethrow-EndsTracks}

module _ (s : ℕ × ℕ) where
  -- A request that waits in the list `ts` waits in the port afterwards, or has left the list.
  abbrev pub Left : List Transfer → Port → Type 0
  Left ts q =
      (length q.pending_requests ≤ length ts)
      × (holds s ts ≡ true
          → (holds s (gone_from ts q.pending_requests) || holds s q.pending_requests) ≡ true)

  Left-cons : (t : Transfer) (ts : List Transfer) (q : Port) → Left ts q → Left (t ∷ ts) q
  unfolding holds
  Left-cons t ts q (le, g) =
      let more : suc (length ts) - length q.pending_requests
          ≡ suc (length ts - length q.pending_requests) =
        omega (arith, le) in
      (omega (arith, le), λ h. rw more (ground (arith, g)))

  abbrev pub LeftIn : Port → List Transfer → Done → Type 0
  LeftIn p ts (Done.ok q) = Left ts q × (q.tx ≡ p.tx) × (q.self ≡ p.self)
  LeftIn p ts (Done.threw q) = Left ts q × (q.tx ≡ p.tx) × (q.self ≡ p.self)
  LeftIn p ts Done.failed = Unit {0}

  LeftIn-cons :
      (p p' : Port) (t : Transfer) (ts : List Transfer) (d : Done)
      → p'.tx ≡ p.tx
      → p'.self ≡ p.self
      → LeftIn p' ts d
      → LeftIn p (t ∷ ts) d
  LeftIn-cons p p' t ts (Done.ok q) e f (l, x, y) = (Left-cons t ts q l, x ∙ e, y ∙ f)
  LeftIn-cons p p' t ts (Done.threw q) e f (l, x, y) = (Left-cons t ts q l, x ∙ e, y ∙ f)
  LeftIn-cons p p' t ts Done.failed e f l = tt

  module _ (db : DataBuffer) where
    pub retry-LeftIn : (ts : List Transfer) (p : Port) → LeftIn p ts (retry db p ts)
    unfolding retry holds
    retry-LeftIn [] p = ((omega arith, λ h. h), refl, refl)
    retry-LeftIn (t ∷ ts) p =
        after (transfer db t p.rx) (transfer-Waits db t p.rx)
          (λ q. retry-LeftIn ts (record p { rx = q }))
      where
        after :
            (o : Outcome)
            → Waits t o
            → ((q : RxQueue) → LeftIn (record p { rx = q }) ts (retry db (record p { rx = q }) ts))
            → LeftIn p (t ∷ ts) (elim o [
              | delivered t' q ↦ retry db (record p { rx = q }) ts
              | blocked t' q ↦ Done.ok (record p { rx = q; pending_requests = t' ∷ ts })
              | too_small t' q ↦ Done.threw (record p { rx = q; pending_requests = ts })
              | aborted ↦ Done.failed
              | running t' q ↦ Done.failed
            ])
        after (delivered t' q) w ih = LeftIn-cons p (record p { rx = q }) t ts _ refl refl (ih q)
        after (blocked t' q) w ih =
            let none_left : length (t ∷ ts) - length (t' ∷ ts) ≡ 0 = omega arith in
            ((omega arith, λ h. rw (none_left, w.0) h), refl, refl)
        after (too_small t' q) w ih =
            let one_left : length (t ∷ ts) - length ts ≡ 1 = omega arith in
            ((omega arith, λ h. rw one_left (ground arith)), refl, refl)
        after aborted w ih = tt
        after (running t' q) w ih = tt

module _ (a h : ℕ) where
  -- A port is put back in its place, where `h` waits if it did, unless `b` is true.
  pub stored-TracksOr :
      (b : Bool) (q o : Port) (sw : Switch)
      → port_at o.self sw.ports ≡ some o
      → (holds (a, h) o.pending_requests ≡ true → (b || holds (a, h) q.pending_requests) ≡ true)
      → q.tx ≡ o.tx
      → q.self ≡ o.self
      → Tracks a h sw
      → TracksOr a h b (record sw { ports = store q sw.ports })
  stored-TracksOr b q o sw f l tx self (p, e, t) =
      let own : port_at q.self sw.ports ≡ some o = ap (λ k. port_at k sw.ports) self ∙ f in
      let held : held_in (a, h) sw.ports ≡ true → (b || held_in (a, h) (store q sw.ports)) ≡ true =
        store-held (a, h) b q o sw.ports own l in
      let (r, g, same) = store-TxAt a p.tx q o sw.ports own tx (p, e, refl) in
      (
        r,
        g,
        rw same (
            on (at_driver h p.tx) (held_in (a, h) sw.ports) (held_in (a, h) (store q sw.ports))
              (held_by (a, h) sw.monitor) b held t),
      )
    where
      on :
          (d w w' m b : Bool)
          → (w ≡ true → (b || w') ≡ true)
          → (d || (w || m)) ≡ true
          → ((d || (w' || m)) || b) ≡ true
      on d w w' m b g k = ground (arith, g)

  pub Left-or_here :
      (ts : List Transfer) (q : Port)
      → Left (a, h) ts q
      → holds (a, h) ts ≡ true
      → ((holds (a, h) (gone_from ts q.pending_requests) || false)
          || holds (a, h) q.pending_requests)
        ≡ true
  Left-or_here ts q l w = ground (arith, l.1)

  module _ (db : DataBuffer) where
    -- Serving what waits in a port loses no request of any.
    pub serve_rx-EndsTracks :
        (filter : List ℕ → ℕ → Bool) (garbage c : ℕ) (sw : Switch)
        → Tracks a h sw
        → EndsTracks a h (serve_rx db filter garbage c sw)
    unfolding serve_rx handle_rx_queue
    serve_rx-EndsTracks filter garbage c sw (p, e, t) = elim (Option-cases (port_at c sw.ports)) [
      | inl n ↦ rw (serve_rx, n) tt
      | inr (o, f) ↦
          let own : port_at o.self sw.ports ≡ some o =
            ap (λ k. port_at k sw.ports) ((==_iff o.self c).0 (port_at-self c sw.ports o f)) ∙ f in
          rw (serve_rx, f)
            (on o own (handle_rx_queue db o) (retry-LeftIn (a, h) db o.pending_requests o))
    ]
      where
        on :
            (o : Port)
            → port_at o.self sw.ports ≡ some o
            → (d : Done) → LeftIn (a, h) o o.pending_requests d
            → EndsTracks a h (served o d sw)
        on o f (Done.ok q) (l, tx, self) = EndsTracksOr-EndsTracks a h _ (
            release_all-EndsTracksOr a h (gone_from o.pending_requests q.pending_requests) false _ (
              stored-TracksOr
                (holds (a, h) (gone_from o.pending_requests q.pending_requests) || false) q o sw f
                (Left-or_here o.pending_requests q l) tx self (p, e, t)))
        on o f (Done.threw q) (l, tx, self) = rethrow-EndsTracks a h _ (
            EndsTracksOr-EndsTracks a h _ (
              release_all-EndsTracksOr a h (gone_from o.pending_requests q.pending_requests) false _
                (stored-TracksOr
                  (holds (a, h) (gone_from o.pending_requests q.pending_requests) || false) q o sw f
                  (Left-or_here o.pending_requests q l) tx self (p, e, t))))
        on o f Done.failed l = tt
