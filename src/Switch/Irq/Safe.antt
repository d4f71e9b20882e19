-- ===== src/Switch/Irq/Safe.antt =====
-- server/switch/switch.cc, `handle_port_irq`: the states that it goes through.
use l4_virtio_net_switch.Prelude.{ℕ, zero, suc, ◌≡◌, some, List, [], ◌∷◌, take}
use l4_virtio_net_switch.Buffer.{DataBuffer}
use l4_virtio_net_switch.Transfer.{Transfer, Used}
use l4_virtio_net_switch.Port.{Port, Done}
use l4_virtio_net_switch.Port.Deliver.{Waiting, Served, all_served, served, waits, leaves}
use l4_virtio_net_switch.Switch.{Switch, Ended, ok, threw, crashed, port_at, release_all, release}
use l4_virtio_net_switch.Switch.Forward.Sound.{Good, EndsGood, release-Good}
use l4_virtio_net_switch.Switch.Forward.Taking.{FullChains}
use l4_virtio_net_switch.Switch.Irq.Work.{Leaves}

module _ (Own : ℕ → Type 0) where
  -- The requests of the transfers are of ports that `Own` holds of.
  abbrev pub Owned : List Transfer → Type 0
  Owned [] = Unit {0}
  Owned (t ∷ ts) = Own t.request.0 × Owned ts

  pub take-Owned : (n : ℕ) (ts : List Transfer) → Waiting Own ts → Owned (take n ts)
  take-Owned zero ts w = tt
  take-Owned (suc n) [] w = tt
  take-Owned (suc n) (t ∷ ts) w = (w.0.1, take-Owned n ts w.1)

  pub release_all-Good :
      (ts : List Transfer) (sw : Switch)
      → Owned ts
      → Good Own Own sw
      → EndsGood Own Own (release_all ts sw)
  unfolding release_all
  release_all-Good [] sw o g = g
  release_all-Good (t ∷ ts) sw o g =
      after (release t.request sw) (release-Good Own Own t.request.0 t.request.1 sw o.0 g)
        (λ sw' g'. release_all-Good ts sw' o.1 g')
    where
      after :
          (e : Ended)
          → EndsGood Own Own e
          → ((sw' : Switch) → Good Own Own sw' → EndsGood Own Own (release_all ts sw'))
          → EndsGood Own Own
              (elim e [ ok sw' ↦ release_all ts sw' | threw sw' ↦ threw sw' | crashed ↦ crashed ])
      after (ok sw') g' ih = ih sw' g'
      after (threw sw') g' ih = g'
      after crashed g' ih = g'

  -- What waits in the port after a call of `handle_rx_queue`; there is no failed assertion.
  abbrev pub StillWaiting : Done → Type 0
  StillWaiting (Done.ok q) = Waiting Own q.pending_requests
  StillWaiting (Done.threw q) = Waiting Own q.pending_requests
  StillWaiting Done.failed = ⊥

  pub Served-StillWaiting :
      {db : DataBuffer} {ts : List Transfer} {used : List Used} {d : Done}
      → Served db ts used d
      → Waiting Own ts
      → StillWaiting d
  Served-StillWaiting (all_served e) w = rw e tt
  Served-StillWaiting (served packet hdr v g s) w = Served-StillWaiting s w.1
  Served-StillWaiting (waits packet hdr t' v v' of e u) w =
      rw e (((packet, hdr, v'), rw of w.0.1), w.1)
  Served-StillWaiting (leaves e u) w = rw e w.1

  -- An operation that ends in a good switch, and leaves a port with chains that are in order.
  abbrev pub EndsFull : ℕ → Ended → Type 0
  EndsFull a (ok sw) =
      Good Own Own sw × ((q : Port) × (port_at a sw.ports ≡ some q) × FullChains q.tx.avail)
  EndsFull a (threw sw) = Good Own Own sw
  EndsFull a crashed = ⊥

  pub both-EndsFull :
      (a : ℕ) (P : Port → Type 0) (e : Ended)
      → EndsGood Own Own e
      → Leaves a P e
      → ((q : Port) → P q → FullChains q.tx.avail)
      → EndsFull a e
  both-EndsFull a P (ok sw) g (q, f, p) full = (g, (q, f, full q p))
  both-EndsFull a P (threw sw) g l full = g
  both-EndsFull a P crashed g l full = g

  pub next :
      (a : ℕ) (f : Switch → Ended) (o : Ended)
      → EndsFull a o
      → ((sw : Switch) (q : Port)
          → Good Own Own sw
          → port_at a sw.ports ≡ some q
          → FullChains q.tx.avail
          → EndsFull a (f sw))
      → EndsFull a (elim o [ ok sw ↦ f sw | threw sw ↦ threw sw | crashed ↦ crashed ])
  next a f (ok sw) (g, (q, e, full)) h = h sw q g e full
  next a f (threw sw) g h = g
  next a f crashed g h = g
