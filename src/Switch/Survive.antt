-- ===== src/Switch/Survive.antt =====
-- server/switch/switch.cc, `check_ports`: what the switch is afterwards, unless it has crashed.
use l4_virtio_net_switch.Prelude.{
  ℕ, zero, suc, ◌+◌, ◌<◌, ◌≡◌, Bool, true, false, Option, none, some, ltb, if◌then◌else◌, arith,
  Option-cases, Bool-cases, inl, inr,
}
use l4_virtio_net_switch.Port.{Port, delete_pending}
use l4_virtio_net_switch.Port.Deliver.{Waiting}
use l4_virtio_net_switch.Switch.{
  Switch, Ended, ok, threw, crashed, delete_port, remove_port, check_slot, check_from,
  check_monitor, check_ports,
}
use l4_virtio_net_switch.Switch.Slots.{present-set-none, slot}
use l4_virtio_net_switch.Switch.Removal.{vacated, vacated-WellFormed}
use l4_virtio_net_switch.Switch.Forward.Sound.{
  WaitsIn, Good, EndsGood, Good-monitor, set-AllWaiting, slot-WaitsIn,
}
use l4_virtio_net_switch.Switch.Irq.Safe.{release_all-Good}
use l4_virtio_net_switch.Switch.Departure.{Waiting-Owned, stays-other}

module _ (gone : ℕ → Bool) where
  -- `Own` holds of the ports that requests may come from. They are there, and their clients are too.
  module _ (Own : ℕ → Type 0) (stays : (b : ℕ) → Own b → gone b ≡ false) where
    -- An operation that leaves a good switch, if it leaves one.
    abbrev pub Survives : Ended → Type 0
    Survives (ok sw) = Good Own Own sw
    Survives (threw sw) = Good Own Own sw
    Survives crashed = Unit {0}

    Good-Survives : (e : Ended) → EndsGood Own Own e → Survives e
    Good-Survives (ok sw) g = g
    Good-Survives (threw sw) g = g
    Good-Survives crashed g = tt

    delete_port-Survives :
        (p : Port) (sw : Switch)
        → Waiting Own p.pending_requests
        → Good Own Own sw
        → Survives (delete_port p sw)
    unfolding delete_port
    delete_port-Survives p sw w good =
        elim (Option-cases (delete_pending p.pending_requests p.rx)) [
          | inl e ↦ rw (delete_port, e) tt
          | inr (q, e) ↦
              rw (delete_port, e)
                (Good-Survives _ (
                  release_all-Good Own p.pending_requests sw
                    (Waiting-Owned gone Own stays p.pending_requests w) good))
        ]

    vacated-Good :
        (i : ℕ) (p : Port) (sw : Switch)
        → slot sw.ports i ≡ some p
        → i < sw.max_used
        → gone p.self ≡ true
        → Good Own Own sw
        → Good Own Own (vacated i p sw)
    vacated-Good i p sw e le g good = record {
      formed = vacated-WellFormed i p sw good.formed e le;
      owners = λ b o.
          present-set-none sw.ports i p b e (stays-other gone Own stays p b g o) (good.owners b o);
      waiting = set-AllWaiting Own Own sw.ports i none good.waiting tt;
      monitored = good.monitored;
    }

    check_slot-Survives :
        (i : ℕ) (sw : Switch) → i < sw.max_used → Good Own Own sw → Survives (check_slot gone i sw)
    unfolding check_slot remove_port
    check_slot-Survives i sw le h = elim (Option-cases (slot sw.ports i)) [
      | inl e ↦ rw (check_slot, e) h
      | inr (p, e) ↦ elim (Bool-cases (gone p.self)) [
        | inl g ↦
            rw (check_slot, e, g)
              (delete_port-Survives p (vacated i p sw)
                (rw e at (slot-WaitsIn Own Own sw.ports i h.waiting))
                (vacated-Good i p sw e le g h))
        | inr g ↦ rw (check_slot, e, g) h
      ]
    ]

    then-Survives :
        (f : Switch → Ended) (e : Ended)
        → Survives e
        → ((sw : Switch) → Good Own Own sw → Survives (f sw))
        → Survives (elim e [ ok sw ↦ f sw | threw sw ↦ threw sw | crashed ↦ crashed ])
    then-Survives f (ok sw) h ih = ih sw h
    then-Survives f (threw sw) h ih = h
    then-Survives f crashed h ih = h

    check_from-Survives :
        (n i : ℕ) (sw : Switch) → Good Own Own sw → Survives (check_from gone n i sw)
    unfolding check_from
    check_from-Survives zero i sw h = h
    check_from-Survives (suc n) i sw h = elim (Bool-cases (ltb i sw.max_used)) [
      | inr e ↦ rw e h
      | inl e ↦ rw e (
          then-Survives (check_from gone n (i + 1)) (check_slot gone i sw)
            (check_slot-Survives i sw (ground arith) h) (λ sw'. check_from-Survives n (i + 1) sw'))
    ]

    check_monitor-Survives : (sw : Switch) → Good Own Own sw → Survives (check_monitor gone sw)
    unfolding check_monitor
    check_monitor-Survives sw h = on sw.monitor h.monitored
      where
        on :
            (o : Option Port)
            → WaitsIn Own Own o
            → Survives (elim o [
              | none ↦ ok sw
              | some m ↦ if gone m.self then delete_port m (record sw { monitor = none }) else ok sw
            ])
        on none w = h
        on (some m) w = elim (Bool-cases (gone m.self)) [
          | inl g ↦ rw g (
              delete_port-Survives m (record sw { monitor = none }) w
                (Good-monitor Own Own sw none h tt))
          | inr g ↦ rw g h
        ]

    pub check_ports-Survives : (sw : Switch) → Good Own Own sw → Survives (check_ports gone sw)
    unfolding check_ports
    check_ports-Survives sw g =
        then-Survives (check_monitor gone) (check_from gone sw.max_used 0 sw)
          (check_from-Survives sw.max_used 0 sw g) check_monitor-Survives
