-- ===== src/Server/Watch.antt =====
-- server/switch/main.cc: the monitor port and the requests of the others.
use l4_virtio_net_switch.Prelude.{
  ℕ, ◌≡◌, refl, ap, ◌∙◌, Bool, true, false, ◌||◌, Option, none, some, List, [], ◌∷◌, if◌then◌else◌,
  if-intro, arith, Option-cases, inl, inr,
}
use l4_virtio_net_switch.Buffer.{DataBuffer}
use l4_virtio_net_switch.Port.{Port, Done, set_notify, handle_rx_queue}
use l4_virtio_net_switch.Switch.{Switch, ok, crashed, holds, held_in, held_by, add_monitor_port}
use l4_virtio_net_switch.Switch.Irq.{
  Arrival, arrive, gone_from, work_pending, drop_tx, served_monitor, monitor_round, monitor_pass,
  handle_monitor_irq,
}
use l4_virtio_net_switch.Switch.Irq.Track.{at_driver, TracksOr, Tracks, release_all-EndsTracksOr}
use l4_virtio_net_switch.Switch.Irq.Follow.{
  EndsTracks, EndsTracksOr-EndsTracks, rethrow-EndsTracks, TracksOr-Tracks,
}
use l4_virtio_net_switch.Switch.Irq.Serve.{LeftIn, retry-LeftIn, Left-or_here}
use l4_virtio_net_switch.Switch.Irq.Quiet.{then-EndsTracks}
use l4_virtio_net_switch.Server.{at_monitor}
use l4_virtio_net_switch.Switch.Irq.Keep.{arrive-pending}

module _ (a h : ℕ) where
  -- The monitor port is replaced by one in which `h` waits if it did, unless `b` is true.
  pub monitor-TracksOr :
      (b : Bool) (o : Option Port) (sw : Switch)
      → (held_by (a, h) sw.monitor ≡ true → (b || held_by (a, h) o) ≡ true)
      → Tracks a h sw
      → TracksOr a h b (record sw { monitor = o })
  monitor-TracksOr b o sw g (q, f, t) = (
    q,
    f,
    on (at_driver h q.tx) (held_in (a, h) sw.ports) (held_by (a, h) sw.monitor) (held_by (a, h) o) b
        g t,
  )
    where
      on :
          (d w m m' b : Bool)
          → (m ≡ true → (b || m') ≡ true)
          → (d || (w || m)) ≡ true
          → ((d || (w || m')) || b) ≡ true
      on d w m m' b g k = ground (arith, g)

  pub at_monitor-Tracks :
      (f : Port → Port) (sw : Switch)
      → ((p : Port) → (f p).pending_requests ≡ p.pending_requests)
      → Tracks a h sw
      → Tracks a h (at_monitor f sw)
  at_monitor-Tracks f sw same t = elim (Option-cases sw.monitor) [
    | inl e ↦ rw (at_monitor, e) t
    | inr (m, e) ↦
        rw (at_monitor, e)
          (TracksOr-Tracks a h (record sw { monitor = some (f m) })
            (monitor-TracksOr false (some (f m)) sw
              (λ w.
                let w' : held_by (a, h) (some m) ≡ true = rw e at w in
                ap (holds (a, h)) (same m) ∙ w')
              t))
  ]

  pub create_monitor-Tracks :
      (p : Port) (sw : Switch) → Tracks a h sw → Tracks a h (add_monitor_port p sw).1
  unfolding add_monitor_port
  create_monitor-Tracks p sw t = on sw.monitor refl (add_monitor_port p sw) refl
    where
      on :
          (o : Option Port)
          → sw.monitor ≡ o
          → (r : Bool × Switch)
          → r ≡ elim o [ none ↦ (true, record sw { monitor = some p }) | some m ↦ (false, sw) ]
          → Tracks a h r.1
      on none e r f = rw f (
          TracksOr-Tracks a h (record sw { monitor = some p })
            (monitor-TracksOr false (some p) sw
              (λ w. let w' : held_by (a, h) none ≡ true = rw e at w in absurd (ground arith)) t))
      on (some m) e r f = rw f t

  -- The monitor port's interrupt.
  module _ (db : DataBuffer) where
    served_monitor-EndsTracks :
        (m : Port) (d : Done) (sw : Switch)
        → LeftIn (a, h) (set_notify false m) m.pending_requests d
        → sw.monitor ≡ some m
        → Tracks a h sw
        → EndsTracks a h (served_monitor db m d sw)
    unfolding set_notify
    served_monitor-EndsTracks m (Done.ok q) sw (l, _, _) e t = EndsTracksOr-EndsTracks a h _ (
        release_all-EndsTracksOr a h (gone_from m.pending_requests q.pending_requests) false _ (
          monitor-TracksOr (holds (a, h) (gone_from m.pending_requests q.pending_requests) || false)
            (some (set_notify true (drop_tx db q))) sw
            (λ w. Left-or_here a h m.pending_requests q l (rw e at w)) t))
    served_monitor-EndsTracks m (Done.threw q) sw (l, _, _) e t = rethrow-EndsTracks a h _ (
        EndsTracksOr-EndsTracks a h _ (
          release_all-EndsTracksOr a h (gone_from m.pending_requests q.pending_requests) false _ (
            monitor-TracksOr
              (holds (a, h) (gone_from m.pending_requests q.pending_requests) || false) (some q) sw
              (λ w. Left-or_here a h m.pending_requests q l (rw e at w)) t)))
    served_monitor-EndsTracks m Done.failed sw l e t = tt

    monitor_pass-EndsTracks : (sw : Switch) → Tracks a h sw → EndsTracks a h (monitor_pass db sw)
    unfolding monitor_pass monitor_round handle_rx_queue set_notify
    monitor_pass-EndsTracks sw t = elim (Option-cases sw.monitor) [
      | inl e ↦ rw (monitor_pass, e) tt
      | inr (m, e) ↦
          rw (monitor_pass, e)
            (served_monitor-EndsTracks m (handle_rx_queue db (set_notify false m)) sw
              (retry-LeftIn (a, h) db m.pending_requests (set_notify false m)) e t)
    ]

    arrived-Tracks :
        (x : Arrival) (m : Port) (sw : Switch)
        → sw.monitor ≡ some m
        → Tracks a h sw
        → Tracks a h (record sw { monitor = some (arrive x m) })
    arrived-Tracks x m sw e t =
        TracksOr-Tracks a h (record sw { monitor = some (arrive x m) })
          (monitor-TracksOr false (some (arrive x m)) sw
            (λ w.
              let w' : held_by (a, h) (some m) ≡ true = rw e at w in
              ap (holds (a, h)) (arrive-pending x m) ∙ w')
            t)

    pub handle_monitor_irq-EndsTracks :
        (xs : List Arrival) (sw : Switch)
        → Tracks a h sw
        → EndsTracks a h (handle_monitor_irq db xs sw)
    unfolding handle_monitor_irq
    handle_monitor_irq-EndsTracks [] sw t = monitor_pass-EndsTracks sw t
    handle_monitor_irq-EndsTracks (x ∷ xs) sw t =
        then-EndsTracks a h
          (λ sw'. elim sw'.monitor [
            | none ↦ crashed
            | some m ↦
                let sw'' = record sw' { monitor = some (arrive x m) } in
                if work_pending (arrive x m) then handle_monitor_irq db xs sw'' else ok sw''
          ])
          (monitor_pass db sw) (monitor_pass-EndsTracks sw t)
          (next (handle_monitor_irq-EndsTracks xs))
      where
        next :
            ((sw' : Switch) → Tracks a h sw' → EndsTracks a h (handle_monitor_irq db xs sw'))
            → (sw' : Switch) → Tracks a h sw'
            → EndsTracks a h (elim sw'.monitor [
              | none ↦ crashed
              | some m ↦
                  let sw'' = record sw' { monitor = some (arrive x m) } in
                  if work_pending (arrive x m) then handle_monitor_irq db xs sw'' else ok sw''
            ])
        next ih sw' t' = elim (Option-cases sw'.monitor) [
          | inl e ↦ rw e tt
          | inr (m, e) ↦ rw e (
              if-intro (EndsTracks a h) (work_pending (arrive x m)) _ _
                (λ _. ih (record sw' { monitor = some (arrive x m) }) (arrived-Tracks x m sw' e t'))
                (λ _. arrived-Tracks x m sw' e t'))
        ]
