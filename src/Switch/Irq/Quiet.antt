-- ===== src/Switch/Irq/Quiet.antt =====
-- server/switch/switch.cc, `handle_port_irq`: what the changes of a port's notification and
-- arrivals leave.
use l4_virtio_net_switch.Prelude.{
  sym, inl, inr, ℕ, ◌≡◌, refl, ap, ◌∙◌, Bool, true, false, ◌||◌, Option, none, some, List, [], ◌∷◌,
  ◌++◌, map, map-append, arith, ==_iff, Option-cases, Bool-cases, ◌==◌,
}
use l4_virtio_net_switch.Port.{Port, emit_and_enable, disable_and_remember, set_notify}
use l4_virtio_net_switch.Port.Vlans.{member}
use l4_virtio_net_switch.Switch.{
  Switch, Ended, ok, threw, crashed, port_at, holds, held_in, held_by, store,
}
use l4_virtio_net_switch.Switch.Forward.Frame.{port_at-self, port_at-store}
use l4_virtio_net_switch.Switch.Forward.Account.{waits, store-held_in}
use l4_virtio_net_switch.Switch.Irq.{Arrival, not_given, arrive, each_port, with_port}
use mathlib.Core.Path.{subst}
use l4_virtio_net_switch.Switch.Irq.Visit.{port_at-each_port}
use l4_virtio_net_switch.Switch.Irq.Track.{at_driver, tracked, Tracks, member-append}
use l4_virtio_net_switch.Switch.Irq.Follow.{EndsTracks}

-- A change of a port that leaves its address, what waits in it, and what its driver has.
pub record Quiet (h : ℕ) (f : Port → Port) : Type 0 where
  pub self : (p : Port) → (f p).self ≡ p.self
  pub pending : (p : Port) → (f p).pending_requests ≡ p.pending_requests
  pub driver : (p : Port) → at_driver h p.tx ≡ true → at_driver h (f p).tx ≡ true

pub set_notify-Quiet : (h : ℕ) (b : Bool) → Quiet h (set_notify b)
unfolding set_notify
set_notify-Quiet h b = record { self = λ p. refl; pending = λ p. refl; driver = λ p d. d }

pub emit-Quiet : (h : ℕ) → Quiet h emit_and_enable
unfolding emit_and_enable
emit-Quiet h = record { self = λ p. refl; pending = λ p. refl; driver = λ p d. d }

pub disable-Quiet : (h : ℕ) → Quiet h disable_and_remember
unfolding disable_and_remember
disable-Quiet h = record { self = λ p. refl; pending = λ p. refl; driver = λ p d. d }

-- What the driver does not give again it has back as before.
member-not_given :
    (h : ℕ) (given hs : List ℕ)
    → member h given ≡ false
    → member h (not_given given hs) ≡ member h hs
unfolding not_given
member-not_given h given [] e = refl
member-not_given h given (x ∷ hs) e = elim (Bool-cases (member x given)) [
  | inr f ↦ rw f (ap (λ b. (h == x) || b) (member-not_given h given hs e))
  | inl f ↦ rw f (elim (Bool-cases (h == x)) [
    | inl same ↦ absurd (ground (arith, e, f, ap (λ k. member k given) ((==_iff h x).0 same)))
    | inr other ↦ rw other (member-not_given h given hs e)
  ])
]

pub arrive-Quiet : (h : ℕ) (x : Arrival) → Quiet h (arrive x)
unfolding arrive
arrive-Quiet h x = record {
  self = λ p. refl;
  pending = λ p. refl;
  driver = λ p d.
      let given : List ℕ = map (λ c. c.head) x.to_tx in
      let heads : List ℕ = map (λ c. c.head) p.tx.avail in
      let all : member h (map (λ c. c.head) (p.tx.avail ++ x.to_tx))
          ≡ (member h heads || member h given) =
        ap (member h) (map-append (λ c. c.head) p.tx.avail x.to_tx) ∙ member-append h heads given in
      rw all (
        known (member h heads) (member h given) (member h p.tx.finished)
          (member h (not_given given p.tx.finished)) (member-not_given h given p.tx.finished) d);
}
  where
    known : (a g f f' : Bool) → (g ≡ false → f' ≡ f) → (a || f) ≡ true → ((a || g) || f') ≡ true
    known a true f f' same d = ground arith
    known a false f f' same d = ground (arith, same refl)

pub each_port-held_in :
    (s : ℕ × ℕ) (f : Port → Port) (ps : List (Option Port))
    → ((p : Port) → (f p).pending_requests ≡ p.pending_requests)
    → held_in s (each_port f ps) ≡ held_in s ps
unfolding each_port held_in
each_port-held_in s f [] same = refl
each_port-held_in s f (none ∷ ps) same = each_port-held_in s f ps same
each_port-held_in s f (some p ∷ ps) same =
    rw (same p) (ap (λ b. holds s p.pending_requests || b) (each_port-held_in s f ps same))

module _ (a h : ℕ) where
  pub each_port-Tracks :
      (f : Port → Port) (sw : Switch)
      → Quiet h f
      → Tracks a h sw
      → Tracks a h (record sw { ports = each_port f sw.ports })
  each_port-Tracks f sw u (p, e, t) = (
    f p,
    port_at-each_port a f sw.ports p u.self e,
    rw (each_port-held_in (a, h) f sw.ports u.pending) (ground (arith, u.driver p)),
  )

  pub with_port-Tracks :
      (f : Port → Port) (c : ℕ) (sw : Switch)
      → Quiet h f
      → Tracks a h sw
      → Tracks a h (with_port f c sw)
  with_port-Tracks f c sw u (p, e, t) = elim (Option-cases (port_at c sw.ports)) [
    | inl n ↦ rw (with_port, n) (p, e, t)
    | inr (o, g) ↦
        let own : port_at (f o).self sw.ports ≡ some o =
          ap (λ k. port_at k sw.ports)
            (u.self o ∙ (==_iff o.self c).0 (port_at-self c sw.ports o g))
          ∙ g in
        let same : waits (a, h) (record sw { ports = store (f o) sw.ports }) ≡ waits (a, h) sw =
          ap (λ k. k || held_by (a, h) sw.monitor)
            (store-held_in (a, h) (f o) o sw.ports own (u.pending o)) in
        rw (with_port, g)
          (elim (Bool-cases ((f o).self == a)) [
            | inr other ↦ (p, port_at-store a (f o) sw.ports ∙ rw (other, e) refl, rw same t)
            | inl here ↦
                let is : (f o).self ≡ a = (==_iff (f o).self a).0 here in
                let one : o ≡ p = ground (arith, own, e, ap (λ k. port_at k sw.ports) is) in
                let t' : tracked a h o sw ≡ true =
                  subst (λ k. tracked a h k sw ≡ true) (sym one) t in
                (
                  f o,
                  port_at-store a (f o) sw.ports ∙ rw (here, e) refl,
                  rw same (ground (arith, u.driver o)),
                )
          ])
  ]

  pub then-EndsTracks :
      (f : Switch → Ended) (e : Ended)
      → EndsTracks a h e
      → ((sw : Switch) → Tracks a h sw → EndsTracks a h (f sw))
      → EndsTracks a h (elim e [ ok sw ↦ f sw | threw sw ↦ threw sw | crashed ↦ crashed ])
  then-EndsTracks f (ok sw) t ih = ih sw t
  then-EndsTracks f (threw sw) t ih = t
  then-EndsTracks f crashed t ih = t
