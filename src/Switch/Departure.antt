-- ===== src/Switch/Departure.antt =====
-- server/switch/switch.cc, `check_ports`: clients that go while transfers wait.
use l4_virtio_net_switch.Prelude.{
  ℕ, zero, suc, ◌+◌, ◌<◌, ◌≡◌, Bool, true, false, Option, none, some, List, [], ◌∷◌, ◌==◌, ltb,
  if◌then◌else◌, arith, Option-cases, Bool-cases, inl, inr, ==_iff, ap,
}
use l4_virtio_net_switch.Transfer.{Transfer}
use l4_virtio_net_switch.Port.{Port}
use l4_virtio_net_switch.Port.Deliver.{Waiting}
use l4_virtio_net_switch.Switch.{
  Switch, Ended, ok, threw, crashed, delete_port, remove_port, check_slot, check_from,
  check_monitor, check_ports,
}
use l4_virtio_net_switch.Switch.Slots.{present-set-none, slot}
use l4_virtio_net_switch.Switch.Removal.{vacated, vacated-WellFormed}
use l4_virtio_net_switch.Switch.Forward.Sound.{
  WaitsIn, Good, EndsGood, Good-monitor, set-AllWaiting, slot-WaitsIn,
}
use l4_virtio_net_switch.Switch.Irq.Safe.{Owned, release_all-Good}
use l4_virtio_net_switch.Switch.Leaving.{
  Departs, AllDepart, EndsDeparting, set-AllDepart, slot-Departs, release_all-EndsDeparting,
  delete_pending-quiet,
}
use l4_virtio_net_switch.Switch.Cleared.{AllStay, EndsStaying, check_ports-EndsStaying}

module _ (gone : ℕ → Bool) where
  -- An operation that ends in a good switch from which all ports are removed whose clients are gone.
  abbrev pub EndsCleared : (ℕ → Type 0) → Ended → Type 0
  EndsCleared Own (ok sw) = Good Own Own sw × AllStay gone sw
  EndsCleared Own (threw sw) = ⊥
  EndsCleared Own crashed = ⊥

  -- `Own` holds of the ports that requests may come from. They are there, and their clients are too.
  module _ (Own : ℕ → Type 0) (stays : (b : ℕ) → Own b → gone b ≡ false) where
    abbrev Parting : Switch → Type 0
    Parting sw = Good Own Own sw × AllDepart gone sw.ports × Departs gone sw.monitor

    abbrev EndsParting : Ended → Type 0
    EndsParting (ok sw) = Parting sw
    EndsParting (threw sw) = Good Own Own sw
    EndsParting crashed = ⊥

    both : (e : Ended) → EndsGood Own Own e → EndsDeparting gone e → EndsParting e
    both (ok sw) g l = (g, l.0, l.1)
    both (threw sw) g l = g
    both crashed g l = g

    pub Waiting-Owned : (ts : List Transfer) → Waiting Own ts → Owned Own ts
    Waiting-Owned [] w = tt
    Waiting-Owned (t ∷ ts) w = (w.0.1, Waiting-Owned ts w.1)

    delete_port-EndsParting :
        (p : Port) (sw : Switch)
        → gone p.self ≡ true
        → Departs gone (some p)
        → Waiting Own p.pending_requests
        → Parting sw
        → EndsParting (delete_port p sw)
    unfolding delete_port
    delete_port-EndsParting p sw g l w (good, all, m) =
        rw (delete_port, delete_pending-quiet gone p.pending_requests p.rx (l g))
          (both _
            (release_all-Good Own p.pending_requests sw (Waiting-Owned p.pending_requests w) good)
            (release_all-EndsDeparting gone p.pending_requests sw all m))

    -- A port that stays is not the one that goes.
    pub stays-other : (p : Port) (b : ℕ) → gone p.self ≡ true → Own b → (b == p.self) ≡ false
    stays-other p b g o = elim (Bool-cases (b == p.self)) [
      | inl e ↦ absurd (ground (arith, stays b o, ap gone ((==_iff b p.self).0 e)))
      | inr e ↦ e
    ]

    vacated-Parting :
        (i : ℕ) (p : Port) (sw : Switch)
        → slot sw.ports i ≡ some p
        → i < sw.max_used
        → gone p.self ≡ true
        → Parting sw
        → Parting (vacated i p sw)
    vacated-Parting i p sw e le g (good, l, m) = (
      record {
        formed = vacated-WellFormed i p sw good.formed e le;
        owners = λ b o. present-set-none sw.ports i p b e (stays-other p b g o) (good.owners b o);
        waiting = set-AllWaiting Own Own sw.ports i none good.waiting tt;
        monitored = good.monitored;
      },
      set-AllDepart gone sw.ports i l,
      m,
    )

    check_slot-EndsParting :
        (i : ℕ) (sw : Switch) → i < sw.max_used → Parting sw → EndsParting (check_slot gone i sw)
    unfolding check_slot remove_port
    check_slot-EndsParting i sw le h = elim (Option-cases (slot sw.ports i)) [
      | inl e ↦ rw (check_slot, e) h
      | inr (p, e) ↦ elim (Bool-cases (gone p.self)) [
        | inl g ↦
            rw (check_slot, e, g)
              (delete_port-EndsParting p (vacated i p sw) g
                (rw e at (slot-Departs gone sw.ports i h.1))
                (rw e at (slot-WaitsIn Own Own sw.ports i h.0.waiting))
                (vacated-Parting i p sw e le g h))
        | inr g ↦ rw (check_slot, e, g) h
      ]
    ]

    then-EndsParting :
        (f : Switch → Ended) (e : Ended)
        → EndsParting e
        → ((sw : Switch) → Parting sw → EndsParting (f sw))
        → EndsParting (elim e [ ok sw ↦ f sw | threw sw ↦ threw sw | crashed ↦ crashed ])
    then-EndsParting f (ok sw) h ih = ih sw h
    then-EndsParting f (threw sw) h ih = h
    then-EndsParting f crashed h ih = h

    check_from-EndsParting :
        (n i : ℕ) (sw : Switch) → Parting sw → EndsParting (check_from gone n i sw)
    unfolding check_from
    check_from-EndsParting zero i sw h = h
    check_from-EndsParting (suc n) i sw h = elim (Bool-cases (ltb i sw.max_used)) [
      | inr e ↦ rw e h
      | inl e ↦ rw e (
          then-EndsParting (check_from gone n (i + 1)) (check_slot gone i sw)
            (check_slot-EndsParting i sw (ground arith) h)
            (λ sw'. check_from-EndsParting n (i + 1) sw'))
    ]

    check_monitor-EndsParting : (sw : Switch) → Parting sw → EndsParting (check_monitor gone sw)
    unfolding check_monitor
    check_monitor-EndsParting sw h = on sw.monitor h.2 h.0.monitored
      where
        on :
            (o : Option Port)
            → Departs gone o
            → WaitsIn Own Own o
            → EndsParting (elim o [
              | none ↦ ok sw
              | some m ↦ if gone m.self then delete_port m (record sw { monitor = none }) else ok sw
            ])
        on none l w = h
        on (some m) l w = elim (Bool-cases (gone m.self)) [
          | inl g ↦ rw g (
              delete_port-EndsParting m (record sw { monitor = none }) g l w
                (Good-monitor Own Own sw none h.0 tt, h.1, tt))
          | inr g ↦ rw g h
        ]

    Parted-EndsGood : (e : Ended) → EndsParting e → EndsGood Own Own e
    Parted-EndsGood (ok sw) h = h.0
    Parted-EndsGood (threw sw) h = h
    Parted-EndsGood crashed h = h

    pub check_ports-EndsGood :
        (sw : Switch)
        → Good Own Own sw
        → AllDepart gone sw.ports
        → Departs gone sw.monitor
        → EndsGood Own Own (check_ports gone sw)
    unfolding check_ports
    check_ports-EndsGood sw g l m = Parted-EndsGood _ (
        then-EndsParting (check_monitor gone) (check_from gone sw.max_used 0 sw)
          (check_from-EndsParting sw.max_used 0 sw (g, l, m)) check_monitor-EndsParting)

    both_cleared : (e : Ended) → EndsGood Own Own e → EndsStaying gone e → EndsCleared Own e
    both_cleared (ok sw) g s = (g, s)
    both_cleared (threw sw) g s = s
    both_cleared crashed g s = g

    -- Ports go without a crash while transfers wait, if each transfer that waits is of a port whose
    -- client stays, and none in a port that goes has begun to write: no assertion fails, and each
    -- request of a transfer that is deleted goes back to a port that is there. Afterwards no port is
    -- left, in a slot or as the monitor, whose client is gone; the switch is well-formed, and its
    -- transfers are in order.
    pub check_ports-EndsCleared :
        (sw : Switch)
        → Good Own Own sw
        → AllDepart gone sw.ports
        → Departs gone sw.monitor
        → EndsCleared Own (check_ports gone sw)
    check_ports-EndsCleared sw g l m =
        both_cleared _ (check_ports-EndsGood sw g l m) (check_ports-EndsStaying gone sw g.formed)
