-- ===== src/Server/Steps.antt =====
-- server/switch/main.cc: the events that are not interrupts.
use l4_virtio_net_switch.Device.{
  Change, resets, starts, reconfigures, change, reset, check_queues, reconfig_queue, set_up_rx,
  set_up_tx,
}
use l4_virtio_net_switch.Transfer.{RxQueue, finish_transfer}
use l4_virtio_net_switch.Request.{TxQueue}
use l4_virtio_net_switch.Prelude.{
  ℕ, zero, suc, ◌≡◌, refl, ◌∙◌, Bool, true, false, Option, none, some, [], replicate, arith, ◌==◌,
  ◌&&◌, if-intro, Option-cases, inl, inr,
}
use l4_virtio_net_switch.Port.{Port}
use l4_virtio_net_switch.Port.Deliver.{Waiting}
use l4_virtio_net_switch.Switch.{
  Switch, ok, new_switch, add_port, add_monitor_port, place, port_at, store, check_ports,
}
use l4_virtio_net_switch.Switch.Slots.{
  WellFormed, FirstFree, new_switch-WellFormed, present-set, add_port_lem, add_port-WellFormed,
}
use l4_virtio_net_switch.Switch.Leaving.{
  AllSpared, SparedIn, AllDepart, Departs, Staying, SparedIn-WaitsIn, AllSpared-AllWaiting,
}
use l4_virtio_net_switch.Switch.Departure.{check_ports-EndsGood}
use l4_virtio_net_switch.Switch.Forward.Sound.{
  WaitsIn, AllWaiting, Good, set-AllWaiting, port_at-Waiting, Good-store, Good-monitor,
  release-Good,
}
use l4_virtio_net_switch.Switch.Irq.{with_port}
use l4_virtio_net_switch.Switch.Irq.Keep.{with_port-Good}
use l4_virtio_net_switch.Switch.Timeout.{take_out, expired, port_expired, monitor_expired}
use l4_virtio_net_switch.Server.{at_monitor, Unwritten}
use l4_virtio_net_switch.Server.Health.{
  There, Healthy, EndsHealthy, Good-Healthy, EndsGood-EndsHealthy, take_out-Waiting,
}

-- The port that is put in changes no other, and nothing waits in it.
pub place-Healthy :
    (p : Port) (i : ℕ) (sw : Switch)
    → p.pending_requests ≡ []
    → FirstFree 0 sw.ports (some i)
    → WellFormed (place p (some i) sw).1
    → Healthy sw
    → Healthy (place p (some i) sw).1
unfolding place
place-Healthy p i sw e (n, same, lt, free, _) v g =
    let i_n : i ≡ n = omega arith in
    Good-Healthy (There sw) _ (record {
      formed = v;
      owners = λ b o. present-set sw.ports i p b (omega arith) (rw i_n free) ∙ rw o (ground arith);
      waiting = set-AllWaiting (There sw) (There sw) sw.ports i (some p) g.waiting (rw e tt);
      monitored = g.monitored;
    })

pub create-Healthy :
    (p : Port) (sw : Switch) → p.pending_requests ≡ [] → Healthy sw → Healthy (add_port p sw).1
create-Healthy p sw e g = elim (add_port_lem p sw) [
  | inl (_, f) ↦ rw f g
  | inr (inl (_, f)) ↦ rw f g
  | inr (inr (i, f, h)) ↦
      rw h (place-Healthy p i sw e f (rw h at (add_port-WellFormed p sw g.formed)) g)
]

pub create_monitor-Healthy :
    (p : Port) (sw : Switch)
    → p.pending_requests ≡ []
    → Healthy sw
    → Healthy (add_monitor_port p sw).1
unfolding add_monitor_port
create_monitor-Healthy p sw e g = on sw.monitor (add_monitor_port p sw) refl
  where
    on :
        (o : Option Port) (r : Bool × Switch)
        → r ≡ elim o [ none ↦ (true, record sw { monitor = some p }) | some m ↦ (false, sw) ]
        → Healthy r.1
    on none r f = rw f (Good-monitor (There sw) (There sw) sw (some p) g (rw e tt))
    on (some m) r f = rw f g

pub vanish-Healthy :
    (gone : ℕ → Bool) (sw : Switch)
    → AllSpared gone sw.ports × SparedIn gone sw.monitor
    → AllDepart gone sw.ports × Departs gone sw.monitor
    → Healthy sw
    → EndsHealthy (check_ports gone sw)
vanish-Healthy gone sw s d g = EndsGood-EndsHealthy (Staying gone (There sw)) _ (
    check_ports-EndsGood gone (Staying gone (There sw)) (λ b o. o.1) sw
      (record {
        formed = g.formed;
        owners = λ b o. o.0;
        waiting = AllSpared-AllWaiting gone (There sw) sw.ports g.waiting s.0;
        monitored = SparedIn-WaitsIn gone (There sw) sw.monitor g.monitored s.1;
      })
      d.0 d.1)

-- A change of a port that leaves what waits in it.
pub with_port-Healthy :
    (f : Port → Port) (a : ℕ) (sw : Switch)
    → ((p : Port) → (f p).pending_requests ≡ p.pending_requests)
    → Healthy sw
    → Healthy (with_port f a sw)
with_port-Healthy f a sw same g = elim (Option-cases (port_at a sw.ports)) [
  | inl e ↦ rw (with_port, e) g
  | inr (p, e) ↦ Good-Healthy (There sw) _ (with_port-Good (There sw) f a sw p same e g)
]

pub at_monitor-Healthy :
    (f : Port → Port) (sw : Switch)
    → ((p : Port) → (f p).pending_requests ≡ p.pending_requests)
    → Healthy sw
    → Healthy (at_monitor f sw)
at_monitor-Healthy f sw same g = elim (Option-cases sw.monitor) [
  | inl e ↦ rw (at_monitor, e) g
  | inr (m, e) ↦
      let w : Waiting (There sw) m.pending_requests = rw e at g.monitored in
      rw (at_monitor, e) (Good-monitor (There sw) (There sw) sw (some (f m)) g (rw (same m) w))
]

pub change-pending : (c : Change) (p : Port) → (change c p).pending_requests ≡ p.pending_requests
unfolding reset check_queues reconfig_queue
change-pending resets p = refl
change-pending starts p =
    if-intro (λ (r : Bool × Port). r.1.pending_requests ≡ p.pending_requests)
      (p.rx.ready && p.tx.ready) _ _ (λ _. refl) (λ _. refl)
change-pending (reconfigures setup_rx setup_tx index) p =
    if-intro (λ (r : ℕ × Port). r.1.pending_requests ≡ p.pending_requests) (index == 0) _ _
      (λ _. rx (setup_rx p.rx))
      (λ _.
        if-intro (λ (r : ℕ × Port). r.1.pending_requests ≡ p.pending_requests) (index == 1) _ _
          (λ _. tx (setup_tx p.tx)) (λ _. refl))
  where
    rx : (r : Bool × RxQueue) → (set_up_rx p r).1.pending_requests ≡ p.pending_requests
    rx (true, q) = refl
    rx (false, q) = refl

    tx : (r : Bool × TxQueue) → (set_up_tx p r).1.pending_requests ≡ p.pending_requests
    tx (true, q) = refl
    tx (false, q) = refl

-- A transfer that has not begun to write goes without a trace, but for its request.
pub expired-Healthy :
    (i : ℕ) (p : Port) (put : Port → Switch) (Own : ℕ → Type 0)
    → Waiting Own p.pending_requests
    → Unwritten i p.pending_requests
    → ((q : Port) → Waiting Own q.pending_requests → Good Own Own (put q))
    → EndsHealthy (expired i p put)
unfolding expired finish_transfer
expired-Healthy i p put Own w u good = elim (Option-cases (take_out i p.pending_requests)) [
  | inl e ↦ rw (expired, e) (Good-Healthy Own _ (good p w))
  | inr ((t, rest), e) ↦
      let (v, o) = take_out-Waiting Own i p.pending_requests t rest w e in
      rw (expired, e, u t rest e)
        (EndsGood-EndsHealthy Own _ (
          release-Good Own Own t.request.0 t.request.1 _ o
            (good (record p { pending_requests = rest }) v)))
]

pub timeout-Healthy :
    (a i : ℕ) (sw : Switch)
    → ((p : Port) → port_at a sw.ports ≡ some p → Unwritten i p.pending_requests)
    → Healthy sw
    → EndsHealthy (port_expired a i sw)
unfolding port_expired
timeout-Healthy a i sw u g = elim (Option-cases (port_at a sw.ports)) [
  | inl e ↦ rw (port_expired, e) g
  | inr (p, e) ↦
      rw (port_expired, e)
        (expired-Healthy i p (λ q. record sw { ports = store q sw.ports }) (There sw)
          (port_at-Waiting (There sw) (There sw) a sw.ports p g.waiting e).0 (u p e)
          (λ q. Good-store (There sw) (There sw) sw q g))
]

pub timeout_monitor-Healthy :
    (i : ℕ) (sw : Switch)
    → ((m : Port) → sw.monitor ≡ some m → Unwritten i m.pending_requests)
    → Healthy sw
    → EndsHealthy (monitor_expired i sw)
unfolding monitor_expired
timeout_monitor-Healthy i sw u g = on sw.monitor u g.monitored
  where
    on :
        (o : Option Port)
        → ((m : Port) → o ≡ some m → Unwritten i m.pending_requests)
        → WaitsIn (There sw) (There sw) o
        → EndsHealthy
            (elim o [ none ↦ ok sw | some m ↦ expired i m (λ q. record sw { monitor = some q }) ])
    on none v w = g
    on (some m) v w =
        expired-Healthy i m (λ q. record sw { monitor = some q }) (There sw) w (v m refl)
          (λ q. Good-monitor (There sw) (There sw) sw (some q) g)

pub new_switch-Healthy : (n : ℕ) → Healthy (new_switch none n)
unfolding new_switch
new_switch-Healthy n = record {
  formed = new_switch-WellFormed none n;
  owners = λ b o. o;
  waiting = empty n;
  monitored = tt;
}
  where
    empty :
        (k : ℕ)
        → AllWaiting (There (new_switch none n)) (There (new_switch none n)) (replicate k none)
    empty zero = tt
    empty (suc k) = (tt, empty k)
