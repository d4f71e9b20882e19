-- ===== src/Switch/Forward/Grow.antt =====
-- server/switch/switch.cc, `handle_tx_queue`: the forwarding of a packet takes no transfer away.
use l4_virtio_net_switch.Prelude.{
  ℕ, zero, suc, ◌≡◌, refl, ap, ◌∙◌, Bool, true, false, not, ◌||◌, ◌&&◌, Option, none, some, List,
  [], ◌∷◌, ◌++◌, ◌==◌, if◌then◌else◌, arith, Option-cases, Bool-cases, inl, inr, ==_iff,
}
use l4_virtio_net_switch.Buffer.{DataBuffer}
use l4_virtio_net_switch.MacAddr.{is_broadcast}
use l4_virtio_net_switch.MacTable.{lookup, learn}
use l4_virtio_net_switch.Transfer.{
  Transfer, Outcome, delivered, blocked, too_small, aborted, running,
}
use l4_virtio_net_switch.Request.{Request, src_mac, dst_mac}
use l4_virtio_net_switch.Port.{Port, Done, match_vlan, settle, handle_request}
use l4_virtio_net_switch.Filter.{filter_request}
use l4_virtio_net_switch.Switch.{
  Switch, Ended, ok, threw, crashed, table_size, port_at, store, holds, held_in,
}
use l4_virtio_net_switch.Switch.Forward.{
  Status, normal, exception, crash, put, flood, put_monitor, copy_to_monitor, put_target, to_target,
  flooded, to_all, forward, vlan_of,
}
use l4_virtio_net_switch.Switch.Forward.Frame.{port_at-self, SelfIs, handled-SelfIs}
use l4_virtio_net_switch.Switch.Forward.Account.{waits}

pub or_true : (b : Bool) → (b || true) ≡ true
or_true true = refl
or_true false = refl

module _ (s : ℕ × ℕ) where
  pub holds-append : (ts us : List Transfer) → holds s (ts ++ us) ≡ (holds s ts || holds s us)
  unfolding holds
  holds-append [] us = refl
  holds-append (t ∷ ts) us = ground (arith, holds-append ts us)

  -- A port in which the request `s` waits is replaced by one in which it does, unless `b` is true.
  pub store-held :
      (b : Bool) (q p : Port) (ps : List (Option Port))
      → port_at q.self ps ≡ some p
      → (holds s p.pending_requests ≡ true → (b || holds s q.pending_requests) ≡ true)
      → held_in s ps ≡ true
      → (b || held_in s (store q ps)) ≡ true
  unfolding store held_in port_at
  store-held b q p [] e g h = ground arith
  store-held b q p (none ∷ ps) e g h = store-held b q p ps e g h
  store-held b q p (some o ∷ ps) e g h = elim (Bool-cases (o.self == q.self)) [
    | inl f ↦
        let is : o ≡ p = ground arith in
        let h' : (holds s p.pending_requests || held_in s ps) ≡ true = rw is at h in
        rw f (ground (arith, g))
    | inr f ↦ rw f (elim (Bool-cases (holds s o.pending_requests)) [
      | inl w ↦ rw w (or_true b)
      | inr w ↦ rw w (store-held b q p ps (ground arith) g (ground arith))
    ])
  ]

  abbrev Keeps : Port → Done → Type 0
  Keeps p (Done.ok q) = holds s p.pending_requests ≡ true → holds s q.pending_requests ≡ true
  Keeps p (Done.threw q) = holds s p.pending_requests ≡ true → holds s q.pending_requests ≡ true
  Keeps p Done.failed = Unit {0}

  settle-Keeps : (db : DataBuffer) (p : Port) (o : Outcome) → Keeps p (settle db p o)
  unfolding settle
  settle-Keeps db p (delivered t q) = λ h. h
  settle-Keeps db p (blocked t q) = λ h. holds-append p.pending_requests (t ∷ []) ∙ rw h refl
  settle-Keeps db p (too_small t q) = λ h. h
  settle-Keeps db p aborted = tt
  settle-Keeps db p (running t q) = tt

  abbrev pub EndsWaiting : Ended → Type 0
  EndsWaiting (ok sw) = waits s sw ≡ true
  EndsWaiting (threw sw) = waits s sw ≡ true
  EndsWaiting crashed = Unit {0}

  module _ (db : DataBuffer) (filter : List ℕ → ℕ → Bool) (garbage : ℕ) (src : Port)
      (r : Request) where
    handled-Keeps : (p : Port) → Keeps p (handle_request db garbage src p r)
    unfolding handle_request
    handled-Keeps p = settle-Keeps db p _

    put-held :
        (p : Port) (d : Done) (ps : List (Option Port)) (f : List (Option Port) × Status)
        → Keeps p d
        → (held_in s ps ≡ true → held_in s f.0 ≡ true)
        → held_in s (some p ∷ ps) ≡ true
        → held_in s (put db filter garbage src r p d ps f).0 ≡ true
    unfolding held_in
    put-held p (Done.ok q) ps f k ih h = ground (arith, k, ih)
    put-held p (Done.threw q) ps f k ih h = ground (arith, k)
    put-held p Done.failed ps f k ih h = h

    flood-held :
        (vlan n : ℕ) (ps : List (Option Port))
        → held_in s ps ≡ true
        → held_in s (flood db filter garbage src r vlan n ps).0 ≡ true
    unfolding flood held_in
    flood-held vlan zero ps h = h
    flood-held vlan (suc n) [] h = h
    flood-held vlan (suc n) (none ∷ ps) h = h
    flood-held vlan (suc n) (some p ∷ ps) h =
        elim (Bool-cases (not (p.self == src.self) && match_vlan p vlan)) [
          | inl e ↦ rw e (put-held p _ ps _ (handled-Keeps p) (flood-held vlan n ps) h)
          | inr e ↦ rw e (ground (arith, flood-held vlan n ps))
        ]

    -- A copy for the monitor port, where `s` waits there or in another port.
    put_monitor-EndsWaiting :
        (sw : Switch) (m : Port) (d : Done)
        → sw.monitor ≡ some m
        → Keeps m d
        → waits s sw ≡ true
        → EndsWaiting (put_monitor db filter garbage src r d sw)
    put_monitor-EndsWaiting sw m (Done.ok q) e k w =
        let h : (held_in s sw.ports || holds s m.pending_requests) ≡ true = rw e at w in
        ground (arith, k)
    put_monitor-EndsWaiting sw m (Done.threw q) e k w =
        let h : (held_in s sw.ports || holds s m.pending_requests) ≡ true = rw e at w in
        ground (arith, k)
    put_monitor-EndsWaiting sw m Done.failed e k w = tt

    copy_to_monitor-EndsWaiting :
        (sw : Switch) → waits s sw ≡ true → EndsWaiting (copy_to_monitor db filter garbage src r sw)
    unfolding copy_to_monitor
    copy_to_monitor-EndsWaiting sw w = on sw.monitor refl
      where
        on :
            (o : Option Port)
            → sw.monitor ≡ o
            → EndsWaiting (elim o [
              | none ↦ ok sw
              | some m ↦
                  if not (filter_request filter r)
                  then put_monitor db filter garbage src r (handle_request db garbage src m r) sw
                  else ok sw
            ])
        on none e = w
        on (some m) e = elim (Bool-cases (filter_request filter r)) [
          | inl f ↦ rw f w
          | inr f ↦ rw f (put_monitor-EndsWaiting sw m _ e (handled-Keeps m) w)
        ]

    stored-waits :
        (sw : Switch) (p q : Port)
        → port_at q.self sw.ports ≡ some p
        → (holds s p.pending_requests ≡ true → holds s q.pending_requests ≡ true)
        → waits s sw ≡ true
        → waits s (record sw { ports = store q sw.ports }) ≡ true
    stored-waits sw p q e g w = ground (arith, store-held false q p sw.ports e g)

    put_target-EndsWaiting :
        (sw : Switch) (p : Port) (d : Done)
        → port_at p.self sw.ports ≡ some p
        → SelfIs p.self d
        → Keeps p d
        → waits s sw ≡ true
        → EndsWaiting (put_target db filter garbage src r d sw)
    put_target-EndsWaiting sw p (Done.ok q) e same k w =
        copy_to_monitor-EndsWaiting (record sw { ports = store q sw.ports })
          (stored-waits sw p q (ap (λ a. port_at a sw.ports) same ∙ e) k w)
    put_target-EndsWaiting sw p (Done.threw q) e same k w =
        stored-waits sw p q (ap (λ a. port_at a sw.ports) same ∙ e) k w
    put_target-EndsWaiting sw p Done.failed e same k w = tt

    to_target-EndsWaiting :
        (vlan target : ℕ) (sw : Switch)
        → waits s sw ≡ true
        → EndsWaiting (to_target db filter garbage src r vlan target sw)
    unfolding to_target
    to_target-EndsWaiting vlan target sw w = elim (Bool-cases (target == src.self)) [
      | inl e ↦ rw e w
      | inr e ↦ elim (Option-cases (port_at target sw.ports)) [
        | inl f ↦ rw (e, f) tt
        | inr (p, f) ↦ elim (Bool-cases (match_vlan p vlan)) [
          | inl m ↦
              let self : p.self ≡ target =
                (==_iff p.self target).0 (port_at-self target sw.ports p f) in
              rw (e, f, m)
                (put_target-EndsWaiting sw p _ (ap (λ a. port_at a sw.ports) self ∙ f)
                  (handled-SelfIs db filter garbage src r p) (handled-Keeps p) w)
          | inr m ↦ rw (e, f, m) w
        ]
      ]
    ]

    flooded-EndsWaiting :
        (sw : Switch) (f : List (Option Port) × Status)
        → (held_in s sw.ports ≡ true → held_in s f.0 ≡ true)
        → waits s sw ≡ true
        → EndsWaiting (flooded db filter garbage src r sw f)
    flooded-EndsWaiting sw (qs, normal) g w =
        copy_to_monitor-EndsWaiting (record sw { ports = qs }) (ground (arith, g))
    flooded-EndsWaiting sw (qs, exception) g w = ground (arith, g)
    flooded-EndsWaiting sw (qs, crash) g w = tt

    to_all-EndsWaiting :
        (vlan : ℕ) (sw : Switch)
        → waits s sw ≡ true
        → EndsWaiting (to_all db filter garbage src r vlan sw)
    unfolding to_all
    to_all-EndsWaiting vlan sw w = flooded-EndsWaiting sw _ (flood-held vlan sw.max_used sw.ports) w

    -- A request that waits before the forwarding of a packet waits after it.
    pub forward-EndsWaiting :
        (sw : Switch) → waits s sw ≡ true → EndsWaiting (forward db filter garbage src r sw)
    unfolding forward
    forward-EndsWaiting sw w = elim (Bool-cases (is_broadcast (dst_mac r))) [
      | inl b ↦ rw b (to_all-EndsWaiting (vlan_of src r) _ w)
      | inr b ↦
          elim (Option-cases
            (lookup (learn table_size sw.mac_table (src_mac r) src.self) (dst_mac r))) [
              | inl f ↦ rw (b, f) (to_all-EndsWaiting (vlan_of src r) _ w)
              | inr (target, f) ↦ rw (b, f) (to_target-EndsWaiting (vlan_of src r) target _ w)
            ]
    ]
