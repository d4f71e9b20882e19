-- ===== src/Server/Run.antt =====
-- server/switch/main.cc: what holds whatever events the server loop handles.
use l4_virtio_net_switch.Device.{change}
use l4_virtio_net_switch.Switch.Irq.{arrive, handle_port_irq, handle_monitor_irq}
use l4_virtio_net_switch.Switch.Irq.Keep.{arrive-pending}
use l4_virtio_net_switch.Server.{
  configure, configure_monitor, Event, create, create_monitor, vanish, kick, kick_monitor, timeout,
  timeout_monitor, offer, offer_monitor, serve, Allowed, Spares, Leads, returns, throws, Reach,
  start, step,
}
use l4_virtio_net_switch.Prelude.{ℕ, ◌≢◌, refl, Bool, List}
use l4_virtio_net_switch.Buffer.{DataBuffer}
use l4_virtio_net_switch.Switch.{Switch, Ended, ok, threw, crashed}
use l4_virtio_net_switch.Switch.Irq.Run.{handle_port_irq-EndsFull}
use l4_virtio_net_switch.Switch.Irq.Monitor.{EndsMonitored, handle_monitor_irq-EndsMonitored}
use l4_virtio_net_switch.Server.Health.{
  There, Healthy, EndsHealthy, Good-Healthy, EndsFull-EndsHealthy,
}
use l4_virtio_net_switch.Server.Steps.{
  create-Healthy, create_monitor-Healthy, vanish-Healthy, with_port-Healthy, change-pending,
  at_monitor-Healthy, timeout-Healthy, timeout_monitor-Healthy, new_switch-Healthy,
}
use l4_virtio_net_switch.Server.Survive.{
  StaysHealthy, EndsHealthy-StaysHealthy, vanish-StaysHealthy, timeout-StaysHealthy,
  timeout_monitor-StaysHealthy,
}

module _ (db : DataBuffer) (filter : List ℕ → ℕ → Bool) (garbage : ℕ) where
  serve-Healthy :
      (e : Event) (sw : Switch)
      → Healthy sw
      → Allowed e sw
      → Spares e sw
      → EndsHealthy (serve db filter garbage e sw)
  unfolding serve
  serve-Healthy (create p) sw g a s = create-Healthy p sw a g
  serve-Healthy (create_monitor p) sw g a s = create_monitor-Healthy p sw a g
  serve-Healthy (vanish gone) sw g a s = vanish-Healthy gone sw a s g
  serve-Healthy (kick a xs) sw g ((p, e, full), fs) s =
      EndsFull-EndsHealthy (There sw) a (handle_port_irq db filter garbage a xs sw)
        (handle_port_irq-EndsFull (There sw) db filter garbage a (rw e refl) xs sw p g e full fs)
  serve-Healthy (kick_monitor xs) sw g a s =
      on (handle_monitor_irq db xs sw) (handle_monitor_irq-EndsMonitored (There sw) db xs sw g a)
    where
      on : (e : Ended) → EndsMonitored (There sw) db e → EndsHealthy e
      on (ok sw') h = Good-Healthy (There sw) sw' h.0
      on (threw sw') h = Good-Healthy (There sw) sw' h
      on crashed h = h
  serve-Healthy (timeout b i) sw g a s = timeout-Healthy b i sw s g
  serve-Healthy (timeout_monitor i) sw g a s = timeout_monitor-Healthy i sw s g
  serve-Healthy (configure b c) sw g a s = with_port-Healthy (change c) b sw (change-pending c) g
  serve-Healthy (configure_monitor c) sw g a s =
      at_monitor-Healthy (change c) sw (change-pending c) g
  serve-Healthy (offer b x) sw g a s = with_port-Healthy (arrive x) b sw (arrive-pending x) g
  serve-Healthy (offer_monitor x) sw g a s = at_monitor-Healthy (arrive x) sw (arrive-pending x) g

  serve-StaysHealthy :
      (e : Event) (sw : Switch)
      → Healthy sw
      → Allowed e sw
      → StaysHealthy (serve db filter garbage e sw)
  unfolding serve
  serve-StaysHealthy (vanish gone) sw g a = vanish-StaysHealthy gone sw a g
  serve-StaysHealthy (timeout b i) sw g a = timeout-StaysHealthy b i sw g
  serve-StaysHealthy (timeout_monitor i) sw g a = timeout_monitor-StaysHealthy i sw g
  serve-StaysHealthy (create p) sw g a =
      EndsHealthy-StaysHealthy (serve db filter garbage (create p) sw)
        (serve-Healthy (create p) sw g a tt)
  serve-StaysHealthy (create_monitor p) sw g a =
      EndsHealthy-StaysHealthy (serve db filter garbage (create_monitor p) sw)
        (serve-Healthy (create_monitor p) sw g a tt)
  serve-StaysHealthy (kick b xs) sw g a =
      EndsHealthy-StaysHealthy (serve db filter garbage (kick b xs) sw)
        (serve-Healthy (kick b xs) sw g a tt)
  serve-StaysHealthy (kick_monitor xs) sw g a =
      EndsHealthy-StaysHealthy (serve db filter garbage (kick_monitor xs) sw)
        (serve-Healthy (kick_monitor xs) sw g a tt)
  serve-StaysHealthy (configure b c) sw g a =
      EndsHealthy-StaysHealthy (serve db filter garbage (configure b c) sw)
        (serve-Healthy (configure b c) sw g a tt)
  serve-StaysHealthy (configure_monitor c) sw g a =
      EndsHealthy-StaysHealthy (serve db filter garbage (configure_monitor c) sw)
        (serve-Healthy (configure_monitor c) sw g a tt)
  serve-StaysHealthy (offer b x) sw g a =
      EndsHealthy-StaysHealthy (serve db filter garbage (offer b x) sw)
        (serve-Healthy (offer b x) sw g a tt)
  serve-StaysHealthy (offer_monitor x) sw g a =
      EndsHealthy-StaysHealthy (serve db filter garbage (offer_monitor x) sw)
        (serve-Healthy (offer_monitor x) sw g a tt)

  led-Healthy : {e : Ended} {sw : Switch} → StaysHealthy e → Leads e sw → Healthy sw
  led-Healthy h (returns sw) = h
  led-Healthy h (throws sw) = h

  module _ (n : ℕ) where
    -- Whatever allowed events the server handles from its start on without a crash, with exceptions
    -- on the way or not, its switch is well-formed and each transfer that waits is in order and comes
    -- from a port that is there. What is allowed: no transfer waits in a new port; an interrupt comes
    -- from a port that is there, and no descriptor of its driver is empty but the first of a chain;
    -- and a client goes only while no transfer waits that its port sent.
    pub Reach-Healthy : {sw : Switch} → Reach db filter garbage n sw → Healthy sw
    Reach-Healthy start = new_switch-Healthy n
    Reach-Healthy (step e r a l) = led-Healthy (serve-StaysHealthy e _ (Reach-Healthy r) a) l

    -- In no switch that the server comes to by allowed events does an allowed event crash it, unless
    -- it deletes a transfer that has begun to write, as a timeout or the end of its port may do. What
    -- is allowed: no transfer waits in a new port; an interrupt comes from a port that is there, and
    -- no descriptor of its driver is empty but the first of a chain; a client goes only while no
    -- transfer waits that its port sent. Timeouts strike at any time.
    pub serve-ne-crashed :
        (e : Event) (sw : Switch)
        → Reach db filter garbage n sw
        → Allowed e sw
        → Spares e sw
        → serve db filter garbage e sw ≢ crashed
    serve-ne-crashed e sw r a s crash = rw crash at (serve-Healthy e sw (Reach-Healthy r) a s)
