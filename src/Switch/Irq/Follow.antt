-- ===== src/Switch/Irq/Follow.antt =====
-- server/switch/switch.cc, `handle_tx_queue`: where the requests of a port are afterwards.
use l4_virtio_net_switch.Prelude.{
  ℕ, ◌≡◌, refl, sym, ap, ◌∙◌, Bool, true, false, ◌||◌, ◌&&◌, some, List, ◌==◌, arith, Option-cases,
  Bool-cases, inl, inr, ==_iff,
}
use mathlib.Core.Path.{subst}
use l4_virtio_net_switch.Buffer.{DataBuffer}
use l4_virtio_net_switch.Request.{TxQueue, get_request}
use l4_virtio_net_switch.Port.{Port, get_tx_request, admits}
use l4_virtio_net_switch.Switch.{Switch, Ended, ok, threw, crashed, port_at, store, held_by}
use l4_virtio_net_switch.Switch.Forward.{rethrow, end_request, handle_tx_queue}
use l4_virtio_net_switch.Switch.Forward.Frame.{port_at-self, port_at-store}
use l4_virtio_net_switch.Switch.Forward.Account.{waits, store-held_in}
use l4_virtio_net_switch.Switch.Forward.TxFrame.{EndsTxAt, forward-EndsTxAt}
use l4_virtio_net_switch.Switch.Forward.Grow.{EndsWaiting, forward-EndsWaiting}
use l4_virtio_net_switch.Switch.Irq.Track.{
  at_driver, tracked, TracksOr, EndsTracksOr, Tracks, release-EndsTracksOr,
}
use l4_virtio_net_switch.Switch.Irq.Yield.{yielded, get_tx_request-Yields}

pub get_tx_request-same :
    (db : DataBuffer) (p : Port)
    → ((get_tx_request db p).1.self ≡ p.self)
      × ((get_tx_request db p).1.pending_requests ≡ p.pending_requests)
unfolding get_tx_request
get_tx_request-same db p = elim (Option-cases (get_request db p.tx).0) [
  | inl e ↦ rw (get_tx_request, e) (refl, refl)
  | inr (r, e) ↦ elim (Bool-cases (admits p r)) [
    | inl a ↦ rw (get_tx_request, e, a) (refl, refl)
    | inr a ↦ rw (get_tx_request, e, a) (refl, refl)
  ]
]

and_false : (b : Bool) → (b && false) ≡ false
and_false true = refl
and_false false = refl

or_none : (b : Bool) → (b || false) ≡ b
or_none true = refl
or_none false = refl

module _ (a h : ℕ) where
  -- An operation after which the request is still known, if it leaves a switch.
  abbrev pub EndsTracks : Ended → Type 0
  EndsTracks (ok sw) = Tracks a h sw
  EndsTracks (threw sw) = Tracks a h sw
  EndsTracks crashed = Unit {0}

  pub TracksOr-Tracks : (sw : Switch) → TracksOr a h false sw → Tracks a h sw
  TracksOr-Tracks sw (q, e, t) = (q, e, sym (or_none (tracked a h q sw)) ∙ t)

  pub EndsTracksOr-EndsTracks : (e : Ended) → EndsTracksOr a h false e → EndsTracks e
  EndsTracksOr-EndsTracks (ok sw) t = TracksOr-Tracks sw t
  EndsTracksOr-EndsTracks (threw sw) t = absurd t
  EndsTracksOr-EndsTracks crashed t = tt

  pub rethrow-EndsTracks : (e : Ended) → EndsTracks e → EndsTracks (rethrow e)
  rethrow-EndsTracks (ok sw) t = t
  rethrow-EndsTracks (threw sw) t = t
  rethrow-EndsTracks crashed t = t

  onward :
      (d w w' c : Bool)
      → (w ≡ true → w' ≡ true)
      → ((d || w) || c) ≡ true
      → ((d || w') || (c || false)) ≡ true
  onward d w w' c g k = ground (arith, g)

  -- A request of a port is forwarded, while `before` says whether `h` waits and the port at `a` has
  -- the transmission queue `x`.
  end_request-EndsTracks :
      (r : ℕ × ℕ) (x : TxQueue) (before : Bool) (e : Ended)
      → EndsTxAt a x e
      → (before ≡ true → EndsWaiting (a, h) e)
      → ((at_driver h x || before) || (r.0 == a && r.1 == h)) ≡ true
      → EndsTracks (end_request r e)
  end_request-EndsTracks r x before (ok sw) (q, f, tx) w k = EndsTracksOr-EndsTracks _ (
      release-EndsTracksOr a h r false sw
        (q, f, rw tx (onward (at_driver h x) before (waits (a, h) sw) (r.0 == a && r.1 == h) w k)))
  end_request-EndsTracks r x before (threw sw) (q, f, tx) w k = rethrow-EndsTracks _ (
      EndsTracksOr-EndsTracks _ (
        release-EndsTracksOr a h r false sw (
          q,
          f,
          rw tx (onward (at_driver h x) before (waits (a, h) sw) (r.0 == a && r.1 == h) w k),
        )))
  end_request-EndsTracks r x before crashed f w k = tt

  module _ (db : DataBuffer) (filter : List ℕ → ℕ → Bool) (garbage : ℕ) where
    -- The port at `c` is stored once a request is taken from it. If it is the port at `a`, the
    -- request may be `h`.
    taken_from :
        (c : ℕ) (p s : Port) (sw : Switch)
        → port_at a sw.ports ≡ some p
        → tracked a h p sw ≡ true
        → port_at c sw.ports ≡ some s
        → (q : Port) × (port_at a (store (get_tx_request db s).1 sw.ports) ≡ some q)
          × (((at_driver h q.tx
                  || waits (a, h) (record sw { ports = store (get_tx_request db s).1 sw.ports }))
                || ((get_tx_request db s).1.self == a && yielded h (get_tx_request db s).0))
              ≡ true)
    taken_from c p s sw e t f =
        let src : Port = (get_tx_request db s).1 in
        let sw' : Switch = record sw { ports = store src sw.ports } in
        let (same, kept) = get_tx_request-same db s in
        let at : src.self ≡ c = same ∙ (==_iff s.self c).0 (port_at-self c sw.ports s f) in
        let own : port_at src.self sw.ports ≡ some s = ap (λ k. port_at k sw.ports) at ∙ f in
        let still : waits (a, h) sw' ≡ waits (a, h) sw =
          ap (λ k. k || held_by (a, h) sw.monitor) (store-held_in (a, h) src s sw.ports own kept) in
        elim (Bool-cases (src.self == a)) [
          | inr other ↦
              (p, port_at-store a src sw.ports ∙ rw (other, e) refl, ground (arith, still))
          | inl here ↦
              let is : src.self ≡ a = (==_iff src.self a).0 here in
              let one : s ≡ p = ground (arith, own, e, ap (λ k. port_at k sw.ports) is) in
              let t' : tracked a h s sw ≡ true = subst (λ k. tracked a h k sw ≡ true) (sym one) t in
              (
                src,
                port_at-store a src sw.ports ∙ rw (here, e) refl,
                ground (arith, still, get_tx_request-Yields db h s),
              )
        ]

    -- Forwarding a packet of any port loses no request.
    pub handle_tx_queue-EndsTracks :
        (c : ℕ) (sw : Switch) → Tracks a h sw → EndsTracks (handle_tx_queue db filter garbage c sw)
    unfolding handle_tx_queue
    handle_tx_queue-EndsTracks c sw (p, e, t) = elim (Option-cases (port_at c sw.ports)) [
      | inl n ↦ rw (handle_tx_queue, n) tt
      | inr (s, f) ↦
          let src : Port = (get_tx_request db s).1 in
          let sw' : Switch = record sw { ports = store src sw.ports } in
          let (q, g, k) = taken_from c p s sw e t f in
          elim (Option-cases (get_tx_request db s).0) [
            | inl n ↦
                let none_taken : (src.self == a && yielded h (get_tx_request db s).0) ≡ false =
                  rw n (and_false (src.self == a)) in
                rw (handle_tx_queue, f, n) (TracksOr-Tracks sw' (q, g, rw none_taken at k))
            | inr (r, n) ↦
                rw (handle_tx_queue, f, n)
                  (end_request-EndsTracks (src.self, r.head) q.tx (waits (a, h) sw') _
                    (forward-EndsTxAt a q.tx db filter garbage src r sw' (q, g, refl))
                    (forward-EndsWaiting (a, h) db filter garbage src r sw') (rw n at k))
          ]
    ]
