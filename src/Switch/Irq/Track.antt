-- ===== src/Switch/Irq/Track.antt =====
-- server/switch/switch.cc, `handle_port_irq`: where the requests of a port are.
use l4_virtio_net_switch.Prelude.{
  ℕ, ◌≡◌, refl, sym, ap, ◌∙◌, Bool, true, false, ◌||◌, ◌&&◌, some, List, [], ◌∷◌, ◌++◌, map, ◌==◌,
  arith, Option-cases, Bool-cases, inl, inr, ==_iff,
}
use mathlib.Core.Path.{subst}
use l4_virtio_net_switch.Transfer.{Transfer}
use l4_virtio_net_switch.Request.{TxQueue, finish_request}
use l4_virtio_net_switch.Port.{Port}
use l4_virtio_net_switch.Port.Vlans.{member}
use l4_virtio_net_switch.Switch.{
  Switch, Ended, ok, threw, crashed, port_at, store, holds, held_by, release, release_all,
}
use l4_virtio_net_switch.Switch.Forward.Frame.{port_at-self, port_at-store}
use l4_virtio_net_switch.Switch.Forward.Account.{waits, store-held_in}

pub member-append : (h : ℕ) (xs ys : List ℕ) → member h (xs ++ ys) ≡ (member h xs || member h ys)
member-append h [] ys = refl
member-append h (x ∷ xs) ys = ground (arith, member-append h xs ys)

-- The driver has given the chain to a transmission queue that has not taken it, or has it back and
-- has not given it again.
abbrev pub at_driver : ℕ → TxQueue → Bool
at_driver h q = member h (map (λ c. c.head) q.avail) || member h q.finished

-- The request `h` of the port at `a`: the switch has not taken it yet, or its driver has it back, or
-- a transfer waits for it.
abbrev pub tracked : ℕ → ℕ → Port → Switch → Bool
tracked a h q sw = at_driver h q.tx || waits (a, h) sw

module _ (a h : ℕ) where
  -- It is at one of those places, unless `b` is true. The port is there.
  abbrev pub TracksOr : Bool → Switch → Type 0
  TracksOr b sw = (q : Port) × (port_at a sw.ports ≡ some q) × ((tracked a h q sw || b) ≡ true)

  abbrev pub EndsTracksOr : Bool → Ended → Type 0
  EndsTracksOr b (ok sw) = TracksOr b sw
  EndsTracksOr b (threw sw) = ⊥
  EndsTracksOr b crashed = Unit {0}

  abbrev pub Tracks : Switch → Type 0
  Tracks sw = (q : Port) × (port_at a sw.ports ≡ some q) × (tracked a h q sw ≡ true)

  finished_there :
      (b : Bool) (o q : Port) (head : ℕ) (sw : Switch)
      → port_at o.self sw.ports ≡ some o
      → port_at a sw.ports ≡ some q
      → (tracked a h q sw || ((o.self == a && head == h) || b)) ≡ true
      → TracksOr b
          (record sw { ports = store (record o { tx = finish_request head o.tx }) sw.ports })
  unfolding finish_request
  finished_there b o q head sw f e t =
      let o' : Port = record o { tx = finish_request head o.tx } in
      let same : waits (a, h) (record sw { ports = store o' sw.ports }) ≡ waits (a, h) sw =
        ap (λ k. k || held_by (a, h) sw.monitor) (store-held_in (a, h) o' o sw.ports f refl) in
      elim (Bool-cases (o.self == a)) [
        | inl at ↦
            let here : o.self ≡ a = (==_iff o.self a).0 at in
            let one : o ≡ q = ground (arith, f, e, ap (λ k. port_at k sw.ports) here) in
            let was : (tracked a h o sw || ((true && head == h) || b)) ≡ true =
              subst (λ k. (tracked a h k sw || ((true && head == h) || b)) ≡ true) (sym one)
                (subst (λ c. (tracked a h q sw || ((c && head == h) || b)) ≡ true) at t) in
            (
              o',
              port_at-store a o' sw.ports ∙ rw (at, e) refl,
              rw (same, member-append h o.tx.finished (head ∷ []))
                  (back (member h (map (λ c. c.head) o.tx.avail)) (member h o.tx.finished)
                    (waits (a, h) sw) was),
            )
        | inr other ↦ (
          q,
          port_at-store a o' sw.ports ∙ rw (other, e) refl,
          rw same (subst (λ c. (tracked a h q sw || ((c && head == h) || b)) ≡ true) other t),
        )
      ]
    where
      back :
          (x y w : Bool)
          → (((x || y) || w) || ((head == h) || b)) ≡ true
          → (((x || (y || ((h == head) || false))) || w) || b) ≡ true
      back x y w k = ground arith

  -- A reference to a request ends. If it is the request `h` itself, it waits on or is finished.
  pub release-EndsTracksOr :
      (r : ℕ × ℕ) (b : Bool) (sw : Switch)
      → TracksOr ((r.0 == a && r.1 == h) || b) sw
      → EndsTracksOr b (release r sw)
  unfolding release
  release-EndsTracksOr r b sw (q, e, t) = elim (Bool-cases (waits r sw)) [
    | inl w ↦ rw w (q, e, still (r.0 == a && r.1 == h) refl w t)
    | inr w ↦ elim (Option-cases (port_at r.0 sw.ports)) [
      | inl f ↦ rw (release, w, f) tt
      | inr (o, f) ↦
          let self : o.self ≡ r.0 = (==_iff o.self r.0).0 (port_at-self r.0 sw.ports o f) in
          rw (release, w, f)
            (finished_there b o q r.1 sw (ap (λ k. port_at k sw.ports) self ∙ f) e (rw self t))
    ]
  ]
    where
      tail : (x : Bool) → ((x || true) || b) ≡ true
      tail true = refl
      tail false = refl

      still :
          (c : Bool)
          → (r.0 == a && r.1 == h) ≡ c
          → waits r sw ≡ true
          → ((tracked a h q sw || (c || b)) ≡ true)
          → (tracked a h q sw || b) ≡ true
      still false f w k = k
      still true f w k =
          let port : r.0 ≡ a = ground arith in
          let head : r.1 ≡ h = ground arith in
          let here : waits (a, h) sw ≡ true =
            subst (λ x. waits (a, x) sw ≡ true) head
              (subst (λ x. waits (x, r.1) sw ≡ true) port w) in
          rw here (tail (member h (map (λ c. c.head) q.tx.avail) || member h q.tx.finished))

  pub release_all-EndsTracksOr :
      (ts : List Transfer) (b : Bool) (sw : Switch)
      → TracksOr (holds (a, h) ts || b) sw
      → EndsTracksOr b (release_all ts sw)
  unfolding release_all holds
  release_all-EndsTracksOr [] b sw t = t
  release_all-EndsTracksOr (t ∷ ts) b sw (q, e, k) =
      after (release t.request sw)
        (release-EndsTracksOr t.request (holds (a, h) ts || b) sw (q, e, first))
        (λ sw'. release_all-EndsTracksOr ts b sw')
    where
      first :
          (tracked a h q sw || ((t.request.0 == a && t.request.1 == h) || (holds (a, h) ts || b)))
          ≡ true
      first = ground arith

      after :
          (e : Ended)
          → EndsTracksOr (holds (a, h) ts || b) e
          → ((sw' : Switch)
              → TracksOr (holds (a, h) ts || b) sw'
              → EndsTracksOr b (release_all ts sw'))
          → EndsTracksOr b
              (elim e [ ok sw' ↦ release_all ts sw' | threw sw' ↦ threw sw' | crashed ↦ crashed ])
      after (ok sw') l ih = ih sw' l
      after (threw sw') l ih = l
      after crashed l ih = tt
