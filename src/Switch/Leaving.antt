-- ===== src/Switch/Leaving.antt =====
-- server/switch/switch.cc, `check_ports`: what waits in ports whose clients go.
use l4_virtio_net_switch.Prelude.{
  ℕ, zero, suc, ◌≡◌, refl, Bool, true, false, ◌||◌, Option, none, some, List, [], ◌∷◌, ◌==◌, set,
  arith, Option-cases, Bool-cases, inl, inr,
}
use l4_virtio_net_switch.Transfer.{Transfer, RxQueue, finish_transfer}
use l4_virtio_net_switch.Request.{finish_request}
use l4_virtio_net_switch.Port.{Port, delete_pending}
use l4_virtio_net_switch.Port.Deliver.{Waiting}
use l4_virtio_net_switch.Switch.{
  Switch, Ended, ok, threw, crashed, port_at, store, release, release_all, held_in, held_by,
}
use l4_virtio_net_switch.Switch.Slots.{slot}
use l4_virtio_net_switch.Switch.Forward.Sound.{WaitsIn, AllWaiting}

-- No transfer of the list has written its header.
abbrev pub NotBegun : List Transfer → Type 0
NotBegun [] = Unit {0}
NotBegun (t ∷ ts) = (t.dst_header ≡ none) × NotBegun ts

module _ (gone : ℕ → Bool) where
  -- No transfer waits for the request of a port whose client is gone.
  abbrev pub Spared : List Transfer → Type 0
  Spared [] = Unit {0}
  Spared (t ∷ ts) = (gone t.request.0 ≡ false) × Spared ts

  abbrev pub SparedIn : Option Port → Type 0
  SparedIn none = Unit {0}
  SparedIn (some p) = Spared p.pending_requests

  abbrev pub AllSpared : List (Option Port) → Type 0
  AllSpared [] = Unit {0}
  AllSpared (o ∷ ps) = SparedIn o × AllSpared ps

  abbrev pub Departs : Option Port → Type 0
  Departs none = Unit {0}
  Departs (some p) = gone p.self ≡ true → NotBegun p.pending_requests

  -- In the ports whose clients are gone no transfer has begun to write.
  abbrev pub AllDepart : List (Option Port) → Type 0
  AllDepart [] = Unit {0}
  AllDepart (o ∷ ps) = Departs o × AllDepart ps

  -- The transfers that are spared are of ports that stay.
  module _ (Who : ℕ → Type 0) where
    abbrev pub Staying : ℕ → Type 0
    Staying b = Who b × (gone b ≡ false)

    Spared-Waiting : (ts : List Transfer) → Waiting Who ts → Spared ts → Waiting Staying ts
    Spared-Waiting [] w s = tt
    Spared-Waiting (t ∷ ts) w s = ((w.0.0, (w.0.1, s.0)), Spared-Waiting ts w.1 s.1)

    pub SparedIn-WaitsIn :
        (o : Option Port) → WaitsIn Who Who o → SparedIn o → WaitsIn Staying Staying o
    SparedIn-WaitsIn none w s = tt
    SparedIn-WaitsIn (some p) w s = Spared-Waiting p.pending_requests w s

    pub AllSpared-AllWaiting :
        (ps : List (Option Port))
        → AllWaiting Who Who ps
        → AllSpared ps
        → AllWaiting Staying Staying ps
    AllSpared-AllWaiting [] w s = tt
    AllSpared-AllWaiting (o ∷ ps) w s =
        (SparedIn-WaitsIn o w.0 s.0, AllSpared-AllWaiting ps w.1 s.1)

  port_at-Departs :
      (a : ℕ) (ps : List (Option Port)) (p : Port)
      → AllDepart ps
      → port_at a ps ≡ some p
      → Departs (some p)
  unfolding port_at
  port_at-Departs a [] p l e = absurd (ground arith)
  port_at-Departs a (none ∷ ps) p l e = port_at-Departs a ps p l.1 e
  port_at-Departs a (some o ∷ ps) p l e = elim (Bool-cases (o.self == a)) [
    | inl f ↦ let same : p ≡ o = ground arith in rw same l.0
    | inr f ↦ port_at-Departs a ps p l.1 (ground arith)
  ]

  store-AllDepart :
      (p : Port) (ps : List (Option Port))
      → AllDepart ps
      → Departs (some p)
      → AllDepart (store p ps)
  unfolding store
  store-AllDepart p [] l v = tt
  store-AllDepart p (none ∷ ps) l v = (tt, store-AllDepart p ps l.1 v)
  store-AllDepart p (some o ∷ ps) l v = elim (Bool-cases (o.self == p.self)) [
    | inl f ↦ rw f (v, l.1)
    | inr f ↦ rw f (l.0, store-AllDepart p ps l.1 v)
  ]

  pub set-AllDepart : (ps : List (Option Port)) (i : ℕ) → AllDepart ps → AllDepart (set ps i none)
  set-AllDepart [] i l = tt
  set-AllDepart (p ∷ ps) zero l = (tt, l.1)
  set-AllDepart (p ∷ ps) (suc i) l = (l.0, set-AllDepart ps i l.1)

  pub slot-Departs : (ps : List (Option Port)) (i : ℕ) → AllDepart ps → Departs (slot ps i)
  slot-Departs [] i l = tt
  slot-Departs (p ∷ ps) zero l = l.0
  slot-Departs (p ∷ ps) (suc i) l = slot-Departs ps i l.1

  -- An operation that leaves ports of that kind, if it leaves any.
  abbrev pub EndsDeparting : Ended → Type 0
  EndsDeparting (ok sw) = AllDepart sw.ports × Departs sw.monitor
  EndsDeparting (threw sw) = Unit {0}
  EndsDeparting crashed = Unit {0}

  release-EndsDeparting :
      (r : ℕ × ℕ) (sw : Switch)
      → AllDepart sw.ports
      → Departs sw.monitor
      → EndsDeparting (release r sw)
  unfolding release
  release-EndsDeparting r sw l m = elim (Bool-cases (held_in r sw.ports || held_by r sw.monitor)) [
    | inl e ↦ rw e (l, m)
    | inr e ↦ elim (Option-cases (port_at r.0 sw.ports)) [
      | inl f ↦ rw (e, f) tt
      | inr (p, f) ↦
          rw (e, f)
            (
              store-AllDepart (record p { tx = finish_request r.1 p.tx }) sw.ports l
                  (port_at-Departs r.0 sw.ports p l f),
              m,
            )
    ]
  ]

  pub release_all-EndsDeparting :
      (ts : List Transfer) (sw : Switch)
      → AllDepart sw.ports
      → Departs sw.monitor
      → EndsDeparting (release_all ts sw)
  unfolding release_all
  release_all-EndsDeparting [] sw l m = (l, m)
  release_all-EndsDeparting (t ∷ ts) sw l m =
      after (release t.request sw) (release-EndsDeparting t.request sw l m)
        (λ sw' h. release_all-EndsDeparting ts sw' h.0 h.1)
    where
      after :
          (e : Ended)
          → EndsDeparting e
          → ((sw' : Switch)
              → AllDepart sw'.ports × Departs sw'.monitor
              → EndsDeparting (release_all ts sw'))
          → EndsDeparting
              (elim e [ ok sw' ↦ release_all ts sw' | threw sw' ↦ threw sw' | crashed ↦ crashed ])
      after (ok sw') h ih = ih sw' h
      after (threw sw') h ih = tt
      after crashed h ih = tt

  -- What has not begun to write is deleted without a trace.
  pub delete_pending-quiet :
      (ts : List Transfer) (q : RxQueue) → NotBegun ts → delete_pending ts q ≡ some q
  unfolding delete_pending finish_transfer
  delete_pending-quiet [] q n = refl
  delete_pending-quiet (t ∷ ts) q n = rw n.0 (delete_pending-quiet ts q n.1)
