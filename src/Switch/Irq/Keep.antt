-- ===== src/Switch/Irq/Keep.antt =====
-- server/switch/switch.cc, `handle_port_irq`: what arrivals and notifications keep.
use l4_virtio_net_switch.Prelude.{ℕ, ◌≡◌, refl, Option, none, some, List, [], ◌∷◌, ◌++◌}
use l4_virtio_net_switch.Transfer.{Chain}
use l4_virtio_net_switch.Port.{Port}
use l4_virtio_net_switch.Switch.{Switch, port_at, store}
use l4_virtio_net_switch.Switch.Slots.{Kept, Kept-refl, Kept-none, Kept-some}
use l4_virtio_net_switch.Switch.Forward.Sound.{
  AllWaiting, Good, port_at-Waiting, Good-ports, Good-store,
}
use l4_virtio_net_switch.Switch.Forward.Taking.{FullChains}
use l4_virtio_net_switch.Switch.Irq.{Arrival, arrive, each_port, with_port}

pub each_port-Kept :
    (f : Port → Port) (ps : List (Option Port))
    → ((o : Port) → (f o).self ≡ o.self)
    → Kept ps (each_port f ps)
unfolding each_port
each_port-Kept f [] same = Kept-refl []
each_port-Kept f (none ∷ ps) same = Kept-none ps _ (each_port-Kept f ps same)
each_port-Kept f (some o ∷ ps) same = Kept-some o (f o) ps _ (same o) (each_port-Kept f ps same)

pub FullChains-append : (xs ys : List Chain) → FullChains xs → FullChains ys → FullChains (xs ++ ys)
FullChains-append [] ys v w = w
FullChains-append (x ∷ xs) ys v w = (v.0, FullChains-append xs ys v.1 w)

pub arrive-FullChains :
    (x : Arrival) (q : Port)
    → FullChains q.tx.avail
    → FullChains x.to_tx
    → FullChains (arrive x q).tx.avail
unfolding arrive
arrive-FullChains x q v w = FullChains-append q.tx.avail x.to_tx v w

pub arrive-pending : (x : Arrival) (q : Port) → (arrive x q).pending_requests ≡ q.pending_requests
unfolding arrive
arrive-pending x q = refl

-- Every chain that arrives for the transmission queue is in order.
abbrev pub FullArrivals : List Arrival → Type 0
FullArrivals [] = Unit {0}
FullArrivals (x ∷ xs) = FullChains x.to_tx × FullArrivals xs

module _ (Own : ℕ → Type 0) where
  pub each_port-Waiting :
      (f : Port → Port) (ps : List (Option Port))
      → ((o : Port) → (f o).pending_requests ≡ o.pending_requests)
      → AllWaiting Own Own ps
      → AllWaiting Own Own (each_port f ps)
  unfolding each_port
  each_port-Waiting f [] same w = tt
  each_port-Waiting f (none ∷ ps) same w = (tt, each_port-Waiting f ps same w.1)
  each_port-Waiting f (some o ∷ ps) same w = (rw (same o) w.0, each_port-Waiting f ps same w.1)

  -- A change of a port that leaves its address and what waits in it, in all slots or in one.
  pub each_port-Good :
      (f : Port → Port) (sw : Switch)
      → ((o : Port) → (f o).self ≡ o.self)
      → ((o : Port) → (f o).pending_requests ≡ o.pending_requests)
      → Good Own Own sw
      → Good Own Own (record sw { ports = each_port f sw.ports })
  each_port-Good f sw same same' g =
      Good-ports Own Own sw (each_port f sw.ports) g (each_port-Kept f sw.ports same)
        (each_port-Waiting f sw.ports same' g.waiting)

  pub with_port-Good :
      (f : Port → Port) (a : ℕ) (sw : Switch) (p : Port)
      → ((o : Port) → (f o).pending_requests ≡ o.pending_requests)
      → port_at a sw.ports ≡ some p
      → Good Own Own sw
      → Good Own Own (with_port f a sw)
  with_port-Good f a sw p same e g =
      let step : with_port f a sw ≡ record sw { ports = store (f p) sw.ports } =
        rw (with_port, e) refl in
      rw step (
        Good-store Own Own sw (f p) g
          (rw (same p) (port_at-Waiting Own Own a sw.ports p g.waiting e).0))
