-- ===== src/Server/Known.antt =====
-- server/switch/main.cc: where the requests of a port are after the events of the server loop.
use l4_virtio_net_switch.Prelude.{ℕ, ◌≡◌, ◌≢◌, refl, Bool, false, List, ◌==◌}
use l4_virtio_net_switch.Buffer.{DataBuffer}
use l4_virtio_net_switch.Switch.{Switch, Ended, ok, threw, crashed}
use l4_virtio_net_switch.Switch.Irq.{arrive}
use l4_virtio_net_switch.Switch.Irq.Track.{Tracks}
use l4_virtio_net_switch.Switch.Irq.Follow.{EndsTracks}
use l4_virtio_net_switch.Switch.Irq.Quiet.{arrive-Quiet, with_port-Tracks}
use l4_virtio_net_switch.Server.{
  Event, create, create_monitor, vanish, kick, kick_monitor, timeout, timeout_monitor, configure,
  configure_monitor, offer, offer_monitor, serve, Allowed, Spares, Leads, returns, throws, Reach,
  step,
}
use l4_virtio_net_switch.Server.Steps.{change-pending}
use l4_virtio_net_switch.Device.{change}
use l4_virtio_net_switch.Switch.Irq.Keep.{arrive-pending}
use l4_virtio_net_switch.Switch.Irq.Return.{irq-EndsTracks}
use l4_virtio_net_switch.Switch.Checked.{check_ports-EndsTracks}
use l4_virtio_net_switch.Server.Run.{serve-ne-crashed}
use l4_virtio_net_switch.Server.Place.{change-self, elsewhere-Tracks, create-Tracks}
use l4_virtio_net_switch.Server.Watch.{
  at_monitor-Tracks, create_monitor-Tracks, handle_monitor_irq-EndsTracks,
}
use l4_virtio_net_switch.Server.Expire.{timeout-EndsTracks, timeout_monitor-EndsTracks}

-- The event is not the end of the port at `a`: its client does not go, its driver does not
-- configure its device anew, and no other port is made with its address.
abbrev pub KeepsPort : ℕ → Event → Type 0
KeepsPort a (create p) = (p.self == a) ≡ false
KeepsPort a (create_monitor p) = Unit {0}
KeepsPort a (vanish gone) = gone a ≡ false
KeepsPort a (kick c xs) = Unit {0}
KeepsPort a (kick_monitor xs) = Unit {0}
KeepsPort a (timeout c i) = Unit {0}
KeepsPort a (timeout_monitor i) = Unit {0}
KeepsPort a (configure c x) = (c == a) ≡ false
KeepsPort a (configure_monitor x) = Unit {0}
KeepsPort a (offer c x) = Unit {0}
KeepsPort a (offer_monitor x) = Unit {0}

module _ (a h : ℕ) (db : DataBuffer) (filter : List ℕ → ℕ → Bool) (garbage : ℕ) where
  serve-EndsTracks :
      (e : Event) (sw : Switch)
      → KeepsPort a e
      → Tracks a h sw
      → EndsTracks a h (serve db filter garbage e sw)
  unfolding serve
  serve-EndsTracks (create p) sw s t = create-Tracks a h p sw s t
  serve-EndsTracks (create_monitor p) sw s t = create_monitor-Tracks a h p sw t
  serve-EndsTracks (vanish gone) sw s t = check_ports-EndsTracks a h gone s sw t
  serve-EndsTracks (kick c xs) sw s t = irq-EndsTracks a h db filter garbage c xs sw t
  serve-EndsTracks (kick_monitor xs) sw s t = handle_monitor_irq-EndsTracks a h db xs sw t
  serve-EndsTracks (timeout c i) sw s t = timeout-EndsTracks a h c i sw t
  serve-EndsTracks (timeout_monitor i) sw s t = timeout_monitor-EndsTracks a h i sw t
  serve-EndsTracks (configure c x) sw s t =
      elsewhere-Tracks a h (change x) c sw s (change-self x) (change-pending x) t
  serve-EndsTracks (configure_monitor x) sw s t =
      at_monitor-Tracks a h (change x) sw (change-pending x) t
  serve-EndsTracks (offer c x) sw s t = with_port-Tracks a h (arrive x) c sw (arrive-Quiet h x) t
  serve-EndsTracks (offer_monitor x) sw s t =
      at_monitor-Tracks a h (arrive x) sw (arrive-pending x) t

-- An operation that does not crash, after which the request `h` of the port at `a` is still known.
abbrev pub EndsKept : ℕ → ℕ → Ended → Type 0
EndsKept a h (ok sw) = Tracks a h sw
EndsKept a h (threw sw) = Tracks a h sw
EndsKept a h crashed = ⊥

-- The switches that allowed events lead to which spare the port at `a`.
pub data Onward (db : DataBuffer) (filter : List ℕ → ℕ → Bool) (garbage a : ℕ) (sw : Switch)
    : Switch → Type 0 where
  now : Onward db filter garbage a sw sw
  after :
      {sw' sw'' : Switch} (e : Event)
      → Onward db filter garbage a sw sw'
      → Allowed e sw'
      → KeepsPort a e
      → Leads (serve db filter garbage e sw') sw''
      → Onward db filter garbage a sw sw''

module _ (a h : ℕ) (db : DataBuffer) (filter : List ℕ → ℕ → Bool) (garbage n : ℕ) where
  led-Tracks : {e : Ended} {sw : Switch} → EndsTracks a h e → Leads e sw → Tracks a h sw
  led-Tracks t (returns sw) = t
  led-Tracks t (throws sw) = t

  Onward-Tracks :
      {sw sw' : Switch}
      → Onward db filter garbage a sw sw'
      → Reach db filter garbage n sw
      → Tracks a h sw
      → Reach db filter garbage n sw' × Tracks a h sw'
  Onward-Tracks now r t = (r, t)
  Onward-Tracks (after e o allowed spares l) r t =
      let (r', t') = Onward-Tracks o r t in
      (step e r' allowed l, led-Tracks (serve-EndsTracks a h db filter garbage e _ spares t') l)

  kept : (e : Ended) → e ≢ crashed → EndsTracks a h e → EndsKept a h e
  kept (ok sw) live t = t
  kept (threw sw) live t = t
  kept crashed live t = live refl

  -- The server loses no request: a request `h` of the port at `a` that is in its transmission queue,
  -- or that its driver has back and has not given again, or that a transfer waits for in some port or
  -- in the monitor port, is at one of these places still after any sequence of allowed events,
  -- exceptions on the way or not, and one more. That one does not crash the server, unless it deletes
  -- a transfer that has begun to write. All the while the client of the port stays, its driver does
  -- not configure its device anew, and no other port is made with the port's address. What is
  -- allowed: no transfer waits in a new port; an interrupt comes from a port that is there, and no
  -- descriptor of its driver is empty but the first of a chain; a client goes only while no transfer
  -- waits that its port sent.
  pub serve-EndsKept :
      (e : Event) (sw sw' : Switch)
      → Reach db filter garbage n sw
      → Tracks a h sw
      → Onward db filter garbage a sw sw'
      → Allowed e sw'
      → Spares e sw'
      → KeepsPort a e
      → EndsKept a h (serve db filter garbage e sw')
  serve-EndsKept e sw sw' r t o allowed spares keeps =
      let (r', t') = Onward-Tracks o r t in
      kept (serve db filter garbage e sw')
        (serve-ne-crashed db filter garbage n e sw' r' allowed spares)
        (serve-EndsTracks a h db filter garbage e sw' keeps t')
