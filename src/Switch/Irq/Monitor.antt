-- ===== src/Switch/Irq/Monitor.antt =====
-- server/switch/main.cc, the interrupt of a monitor port: how it ends.
use l4_virtio_net_switch.Prelude.{
  ℕ, ◌≡◌, refl, true, false, ◌||◌, Option, none, some, is_some, List, [], ◌∷◌, if◌then◌else◌, arith,
  if-intro,
}
use l4_virtio_net_switch.Buffer.{DataBuffer}
use l4_virtio_net_switch.Transfer.{Transfer}
use l4_virtio_net_switch.Request.{finish_request}
use l4_virtio_net_switch.Port.{Port, Done, handle_rx_queue, set_notify}
use l4_virtio_net_switch.Port.Deliver.{Waiting, handle_rx_queue-Served}
use l4_virtio_net_switch.Switch.{
  Switch, Ended, ok, threw, crashed, release_all, release, held_in, held_by, port_at, store,
}
use l4_virtio_net_switch.Switch.Forward.{rethrow}
use l4_virtio_net_switch.Switch.Forward.Sound.{WaitsIn, Good, EndsGood, Good-monitor}
use l4_virtio_net_switch.Switch.Irq.{
  Arrival, arrive, gone_from, work_pending, drop_tx, served_monitor, monitor_round, monitor_pass,
  handle_monitor_irq,
}
use l4_virtio_net_switch.Switch.Irq.Safe.{
  take-Owned, release_all-Good, StillWaiting, Served-StillWaiting,
}

-- The monitor that an operation leaves.
abbrev pub Monitored : Option Port → Ended → Type 0
Monitored o (ok sw) = sw.monitor ≡ o
Monitored o (threw sw) = Unit {0}
Monitored o crashed = Unit {0}

release-Monitored :
    (r : ℕ × ℕ) (sw : Switch) (o : Option Port) → sw.monitor ≡ o → Monitored o (release r sw)
unfolding release
release-Monitored r sw o e =
    if-intro (Monitored o) (held_in r sw.ports || held_by r sw.monitor) _ _ (λ _. e)
      (λ _. found (port_at r.0 sw.ports))
  where
    found :
        (p : Option Port)
        → Monitored o (elim p [
          | none ↦ crashed
          | some p ↦
              ok (record sw { ports = store (record p { tx = finish_request r.1 p.tx }) sw.ports })
        ])
    found none = tt
    found (some p) = e

release_all-Monitored :
    (ts : List Transfer) (sw : Switch) (o : Option Port)
    → sw.monitor ≡ o
    → Monitored o (release_all ts sw)
unfolding release_all
release_all-Monitored [] sw o e = e
release_all-Monitored (t ∷ ts) sw o e =
    after (release t.request sw) (release-Monitored t.request sw o e)
      (λ sw' f. release_all-Monitored ts sw' o f)
  where
    after :
        (r : Ended)
        → Monitored o r
        → ((sw' : Switch) → sw'.monitor ≡ o → Monitored o (release_all ts sw'))
        → Monitored o
            (elim r [ ok sw' ↦ release_all ts sw' | threw sw' ↦ threw sw' | crashed ↦ crashed ])
    after (ok sw') f ih = ih sw' f
    after (threw sw') f ih = tt
    after crashed f ih = tt

module _ (Own : ℕ → Type 0) (db : DataBuffer) where
  -- A good switch that has a monitor.
  abbrev pub EndsMonitored : Ended → Type 0
  EndsMonitored (ok sw) = Good Own Own sw × (is_some sw.monitor ≡ true)
  EndsMonitored (threw sw) = Good Own Own sw
  EndsMonitored crashed = ⊥

  both : (m : Port) (e : Ended) → EndsGood Own Own e → Monitored (some m) e → EndsMonitored e
  both m (ok sw) g e = (g, rw e refl)
  both m (threw sw) g e = g
  both m crashed g e = g

  escape : (e : Ended) → EndsGood Own Own e → EndsMonitored (rethrow e)
  escape (ok sw) g = g
  escape (threw sw) g = g
  escape crashed g = g

  served_monitor-Monitored :
      (m : Port) (d : Done) (sw : Switch)
      → Good Own Own sw
      → Waiting Own m.pending_requests
      → StillWaiting Own d
      → EndsMonitored (served_monitor db m d sw)
  unfolding set_notify
  served_monitor-Monitored m (Done.ok q) sw g w v =
      both (set_notify true (drop_tx db q)) _
        (release_all-Good Own (gone_from m.pending_requests q.pending_requests) _
          (take-Owned Own _ _ w)
          (Good-monitor Own Own sw (some (set_notify true (drop_tx db q))) g v))
        (release_all-Monitored (gone_from m.pending_requests q.pending_requests) _ _ refl)
  served_monitor-Monitored m (Done.threw q) sw g w v = escape _ (
      release_all-Good Own (gone_from m.pending_requests q.pending_requests) _
        (take-Owned Own _ _ w) (Good-monitor Own Own sw (some q) g v))
  served_monitor-Monitored m Done.failed sw g w v = v

  monitor_round-Monitored :
      (m : Port) (sw : Switch)
      → Good Own Own sw
      → Waiting Own m.pending_requests
      → EndsMonitored (monitor_round db m sw)
  unfolding monitor_round set_notify
  monitor_round-Monitored m sw g w =
      let m' : Port = set_notify false m in
      served_monitor-Monitored m (handle_rx_queue db m') sw g w
        (Served-StillWaiting Own (handle_rx_queue-Served db Own m' w) w)

  monitor_pass-Monitored :
      (sw : Switch)
      → is_some sw.monitor ≡ true
      → Good Own Own sw
      → EndsMonitored (monitor_pass db sw)
  unfolding monitor_pass
  monitor_pass-Monitored sw h g = on sw.monitor h g.monitored
    where
      on :
          (o : Option Port)
          → is_some o ≡ true
          → WaitsIn Own Own o
          → EndsMonitored (elim o [ none ↦ crashed | some m ↦ monitor_round db m sw ])
      on none h w = absurd (ground arith)
      on (some m) h w = monitor_round-Monitored m sw g w

  arrive-Good :
      (x : Arrival) (sw : Switch) (m : Port)
      → Good Own Own sw
      → Waiting Own m.pending_requests
      → Good Own Own (record sw { monitor = some (arrive x m) })
  unfolding arrive
  arrive-Good x sw m g w = Good-monitor Own Own sw (some (arrive x m)) g w

  -- The interrupt of the monitor port is handled without a crash, however often its driver adds
  -- chains meanwhile, in a switch that is well-formed and whose transfers are in order and of ports
  -- that are there; it ends in such a switch, with a monitor port unless by an exception. To
  -- be in order includes that no descriptor that a transfer still has to read is empty.
  pub handle_monitor_irq-EndsMonitored :
      (xs : List Arrival) (sw : Switch)
      → Good Own Own sw
      → is_some sw.monitor ≡ true
      → EndsMonitored (handle_monitor_irq db xs sw)
  unfolding handle_monitor_irq
  handle_monitor_irq-EndsMonitored [] sw g h = monitor_pass-Monitored sw h g
  handle_monitor_irq-EndsMonitored (x ∷ xs) sw g h =
      after (monitor_pass db sw) (monitor_pass-Monitored sw h g)
        (λ sw' g' h'. handle_monitor_irq-EndsMonitored xs sw' g' h')
    where
      Again : Type 0
      Again =
          (sw' : Switch)
          → Good Own Own sw'
          → is_some sw'.monitor ≡ true
          → EndsMonitored (handle_monitor_irq db xs sw')

      again : Switch → Option Port → Ended
      again sw' o = elim o [
        | none ↦ crashed
        | some m ↦
            let sw'' = record sw' { monitor = some (arrive x m) } in
            if work_pending (arrive x m) then handle_monitor_irq db xs sw'' else ok sw''
      ]

      on :
          (sw' : Switch) (o : Option Port)
          → is_some o ≡ true
          → WaitsIn Own Own o
          → Good Own Own sw'
          → Again
          → EndsMonitored (again sw' o)
      on sw' none h w g' ih = absurd (ground arith)
      on sw' (some m) h w g' ih =
          let g'' = arrive-Good x sw' m g' w in
          if-intro EndsMonitored (work_pending (arrive x m)) _ _ (λ _. ih _ g'' refl)
            (λ _. (g'', refl))

      after :
          (e : Ended)
          → EndsMonitored e
          → Again
          → EndsMonitored (elim e [
            | ok sw' ↦ again sw' sw'.monitor
            | threw sw' ↦ threw sw'
            | crashed ↦ crashed
          ])
      after (ok sw') (g', h') ih = on sw' sw'.monitor h' g'.monitored g' ih
      after (threw sw') g' ih = g'
      after crashed g' ih = g'
