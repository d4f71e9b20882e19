-- ===== src/Server/Survive.antt =====
-- server/switch/main.cc: the switch after an event that may crash the server.
use l4_virtio_net_switch.Transfer.{finish_transfer, Transfer, Finish, finished, assert_failed}
use l4_virtio_net_switch.Prelude.{List, ℕ, Bool, Option, none, some, Option-cases, inl, inr}
use l4_virtio_net_switch.Port.{Port}
use l4_virtio_net_switch.Port.Deliver.{Waiting}
use l4_virtio_net_switch.Switch.{Switch, ok, port_at, store, check_ports, Ended, threw, crashed}
use l4_virtio_net_switch.Switch.Leaving.{
  AllSpared, SparedIn, Staying, SparedIn-WaitsIn, AllSpared-AllWaiting,
}
use l4_virtio_net_switch.Switch.Forward.Sound.{
  WaitsIn, Good, port_at-Waiting, Good-store, Good-monitor, release-Good,
}
use l4_virtio_net_switch.Switch.Timeout.{take_out, expired, port_expired, monitor_expired, dropped}
use l4_virtio_net_switch.Server.Health.{
  There, Healthy, EndsHealthy, Good-Healthy, EndsGood-EndsHealthy, take_out-Waiting,
}
use l4_virtio_net_switch.Switch.Survive.{Survives, check_ports-Survives}

-- An operation that leaves a healthy switch, if it leaves one.
abbrev pub StaysHealthy : Ended → Type 0
StaysHealthy (ok sw) = Healthy sw
StaysHealthy (threw sw) = Healthy sw
StaysHealthy crashed = Unit {0}

pub EndsHealthy-StaysHealthy : (e : Ended) → EndsHealthy e → StaysHealthy e
EndsHealthy-StaysHealthy (ok sw) h = h
EndsHealthy-StaysHealthy (threw sw) h = h
EndsHealthy-StaysHealthy crashed h = tt

pub vanish-StaysHealthy :
    (gone : ℕ → Bool) (sw : Switch)
    → AllSpared gone sw.ports × SparedIn gone sw.monitor
    → Healthy sw
    → StaysHealthy (check_ports gone sw)
vanish-StaysHealthy gone sw s g = on (check_ports gone sw) (
    check_ports-Survives gone (Staying gone (There sw)) (λ b o. o.1) sw
      (record {
        formed = g.formed;
        owners = λ b o. o.0;
        waiting = AllSpared-AllWaiting gone (There sw) sw.ports g.waiting s.0;
        monitored = SparedIn-WaitsIn gone (There sw) sw.monitor g.monitored s.1;
      }))
  where
    on : (e : Ended) → Survives gone (Staying gone (There sw)) (λ b o. o.1) e → StaysHealthy e
    on (ok sw') h = Good-Healthy (Staying gone (There sw)) sw' h
    on (threw sw') h = Good-Healthy (Staying gone (There sw)) sw' h
    on crashed h = tt

expired-StaysHealthy :
    (i : ℕ) (p : Port) (put : Port → Switch) (Own : ℕ → Type 0)
    → Waiting Own p.pending_requests
    → ((q : Port) → Waiting Own q.pending_requests → Good Own Own (put q))
    → StaysHealthy (expired i p put)
unfolding expired
expired-StaysHealthy i p put Own w good = elim (Option-cases (take_out i p.pending_requests)) [
  | inl e ↦ rw (expired, e) (Good-Healthy Own _ (good p w))
  | inr ((t, rest), e) ↦
      rw (expired, e)
        (on t rest (take_out-Waiting Own i p.pending_requests t rest w e) (finish_transfer t p.rx))
]
  where
    on :
        (t : Transfer) (rest : List Transfer)
        → Waiting Own rest × Own t.request.0
        → (f : Finish) → StaysHealthy (dropped t rest p put f)
    on t rest (v, o) (finished t' q) =
        EndsHealthy-StaysHealthy (dropped t rest p put (finished t' q)) (
          EndsGood-EndsHealthy Own (dropped t rest p put (finished t' q)) (
            release-Good Own Own t.request.0 t.request.1 _ o
              (good (record p { rx = q; pending_requests = rest }) v)))
    on t rest v assert_failed = tt

pub timeout-StaysHealthy : (a i : ℕ) (sw : Switch) → Healthy sw → StaysHealthy (port_expired a i sw)
unfolding port_expired
timeout-StaysHealthy a i sw g = elim (Option-cases (port_at a sw.ports)) [
  | inl e ↦ rw (port_expired, e) g
  | inr (p, e) ↦
      rw (port_expired, e)
        (expired-StaysHealthy i p (λ q. record sw { ports = store q sw.ports }) (There sw)
          (port_at-Waiting (There sw) (There sw) a sw.ports p g.waiting e).0
          (λ q. Good-store (There sw) (There sw) sw q g))
]

pub timeout_monitor-StaysHealthy :
    (i : ℕ) (sw : Switch) → Healthy sw → StaysHealthy (monitor_expired i sw)
unfolding monitor_expired
timeout_monitor-StaysHealthy i sw g = on sw.monitor g.monitored
  where
    on :
        (o : Option Port)
        → WaitsIn (There sw) (There sw) o
        → StaysHealthy
            (elim o [ none ↦ ok sw | some m ↦ expired i m (λ q. record sw { monitor = some q }) ])
    on none w = g
    on (some m) w =
        expired-StaysHealthy i m (λ q. record sw { monitor = some q }) (There sw) w
          (λ q. Good-monitor (There sw) (There sw) sw (some q) g)
