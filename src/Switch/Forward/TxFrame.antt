-- ===== src/Switch/Forward/TxFrame.antt =====
-- server/switch/switch.cc, `handle_tx_queue`: the forwarding of a packet changes no transmission
-- queue.
use l4_virtio_net_switch.Prelude.{
  ℕ, zero, suc, ◌≡◌, refl, ap, ◌∙◌, Bool, not, ◌&&◌, Option, none, some, List, [], ◌∷◌, ◌==◌,
  if◌then◌else◌, arith, Option-cases, Bool-cases, inl, inr, ==_iff,
}
use l4_virtio_net_switch.Buffer.{DataBuffer}
use l4_virtio_net_switch.MacAddr.{is_broadcast}
use l4_virtio_net_switch.MacTable.{lookup, learn}
use l4_virtio_net_switch.Transfer.{Outcome, delivered, blocked, too_small, aborted, running}
use l4_virtio_net_switch.Request.{Request, TxQueue, src_mac, dst_mac}
use l4_virtio_net_switch.Port.{Port, Done, match_vlan, settle, handle_request}
use l4_virtio_net_switch.Filter.{filter_request}
use l4_virtio_net_switch.Switch.{Switch, Ended, ok, threw, crashed, table_size, port_at, store}
use l4_virtio_net_switch.Switch.Forward.{
  Status, normal, exception, crash, put, flood, put_monitor, copy_to_monitor, put_target, to_target,
  flooded, to_all, forward, vlan_of,
}
use l4_virtio_net_switch.Switch.Forward.Frame.{port_at-self, port_at-store}

-- The port at `a` is there and has the transmission queue `x`.
module _ (a : ℕ) (x : TxQueue) where
  abbrev pub TxAt : List (Option Port) → Type 0
  TxAt ps = (q : Port) × (port_at a ps ≡ some q) × (q.tx ≡ x)

  abbrev pub EndsTxAt : Ended → Type 0
  EndsTxAt (ok sw) = TxAt sw.ports
  EndsTxAt (threw sw) = TxAt sw.ports
  EndsTxAt crashed = Unit {0}

  -- Some port is replaced by one with the same transmission queue.
  pub store-TxAt :
      (o p : Port) (ps : List (Option Port))
      → port_at o.self ps ≡ some p
      → o.tx ≡ p.tx
      → TxAt ps
      → TxAt (store o ps)
  store-TxAt o p ps e tx (q, f, t) = elim (Bool-cases (o.self == a)) [
    | inl at ↦
        let here : o.self ≡ a = (==_iff o.self a).0 at in
        let one : p ≡ q = ground (arith, e, f, ap (λ k. port_at k ps) here) in
        (o, port_at-store a o ps ∙ rw (at, f) refl, tx ∙ ap (λ k. k.tx) one ∙ t)
    | inr other ↦ (q, port_at-store a o ps ∙ rw (other, f) refl, t)
  ]

  abbrev SameTx : Port → Done → Type 0
  SameTx p (Done.ok q) = (q.self ≡ p.self) × (q.tx ≡ p.tx)
  SameTx p (Done.threw q) = (q.self ≡ p.self) × (q.tx ≡ p.tx)
  SameTx p Done.failed = Unit {0}

  settle-SameTx : (db : DataBuffer) (p : Port) (o : Outcome) → SameTx p (settle db p o)
  unfolding settle
  settle-SameTx db p (delivered t q) = (refl, refl)
  settle-SameTx db p (blocked t q) = (refl, refl)
  settle-SameTx db p (too_small t q) = (refl, refl)
  settle-SameTx db p aborted = tt
  settle-SameTx db p (running t q) = tt

  -- A slot in front.
  cons-TxAt :
      (p q : Port) (ps qs : List (Option Port))
      → q.self ≡ p.self
      → q.tx ≡ p.tx
      → (TxAt ps → TxAt qs)
      → TxAt (some p ∷ ps)
      → TxAt (some q ∷ qs)
  unfolding port_at
  cons-TxAt p q ps qs self tx g (o, e, t) = elim (Bool-cases (p.self == a)) [
    | inl at ↦
        let one : p ≡ o = ground arith in (q, rw (self, at) refl, tx ∙ ap (λ k. k.tx) one ∙ t)
    | inr other ↦ let (o', e', t') = g (o, ground arith, t) in (o', rw (self, other) e', t')
  ]

  module _ (db : DataBuffer) (filter : List ℕ → ℕ → Bool) (garbage : ℕ) (src : Port)
      (r : Request) where
    handled-SameTx : (p : Port) → SameTx p (handle_request db garbage src p r)
    unfolding handle_request
    handled-SameTx p = settle-SameTx db p _

    put-TxAt :
        (p : Port) (d : Done) (ps : List (Option Port)) (f : List (Option Port) × Status)
        → SameTx p d
        → (TxAt ps → TxAt f.0)
        → TxAt (some p ∷ ps)
        → TxAt (put db filter garbage src r p d ps f).0
    put-TxAt p (Done.ok q) ps f (self, tx) g t = cons-TxAt p q ps f.0 self tx g t
    put-TxAt p (Done.threw q) ps f (self, tx) g t = cons-TxAt p q ps ps self tx (λ k. k) t
    put-TxAt p Done.failed ps f s g t = t

    flood-TxAt :
        (vlan n : ℕ) (ps : List (Option Port))
        → TxAt ps
        → TxAt (flood db filter garbage src r vlan n ps).0
    unfolding flood
    flood-TxAt vlan zero ps t = t
    flood-TxAt vlan (suc n) [] t = t
    flood-TxAt vlan (suc n) (none ∷ ps) t = t
    flood-TxAt vlan (suc n) (some p ∷ ps) t =
        elim (Bool-cases (not (p.self == src.self) && match_vlan p vlan)) [
          | inl e ↦ rw e (put-TxAt p _ ps _ (handled-SameTx p) (flood-TxAt vlan n ps) t)
          | inr e ↦ rw e (cons-TxAt p p ps _ refl refl (flood-TxAt vlan n ps) t)
        ]

    put_monitor-TxAt :
        (sw : Switch) (d : Done)
        → TxAt sw.ports
        → EndsTxAt (put_monitor db filter garbage src r d sw)
    put_monitor-TxAt sw (Done.ok q) t = t
    put_monitor-TxAt sw (Done.threw q) t = t
    put_monitor-TxAt sw Done.failed t = tt

    copy_to_monitor-TxAt :
        (sw : Switch) → TxAt sw.ports → EndsTxAt (copy_to_monitor db filter garbage src r sw)
    unfolding copy_to_monitor
    copy_to_monitor-TxAt sw t = on sw.monitor
      where
        on :
            (o : Option Port)
            → EndsTxAt (elim o [
              | none ↦ ok sw
              | some m ↦
                  if not (filter_request filter r)
                  then put_monitor db filter garbage src r (handle_request db garbage src m r) sw
                  else ok sw
            ])
        on none = t
        on (some m) = elim (Bool-cases (filter_request filter r)) [
          | inl f ↦ rw f t
          | inr f ↦ rw f (put_monitor-TxAt sw _ t)
        ]

    put_target-TxAt :
        (sw : Switch) (p : Port) (d : Done)
        → port_at p.self sw.ports ≡ some p
        → SameTx p d
        → TxAt sw.ports
        → EndsTxAt (put_target db filter garbage src r d sw)
    put_target-TxAt sw p (Done.ok q) e (self, tx) t =
        copy_to_monitor-TxAt (record sw { ports = store q sw.ports })
          (store-TxAt q p sw.ports (ap (λ k. port_at k sw.ports) self ∙ e) tx t)
    put_target-TxAt sw p (Done.threw q) e (self, tx) t =
        store-TxAt q p sw.ports (ap (λ k. port_at k sw.ports) self ∙ e) tx t
    put_target-TxAt sw p Done.failed e s t = tt

    to_target-TxAt :
        (vlan target : ℕ) (sw : Switch)
        → TxAt sw.ports
        → EndsTxAt (to_target db filter garbage src r vlan target sw)
    unfolding to_target
    to_target-TxAt vlan target sw t = elim (Bool-cases (target == src.self)) [
      | inl e ↦ rw e t
      | inr e ↦ elim (Option-cases (port_at target sw.ports)) [
        | inl f ↦ rw (e, f) tt
        | inr (p, f) ↦ elim (Bool-cases (match_vlan p vlan)) [
          | inl m ↦
              let self : p.self ≡ target =
                (==_iff p.self target).0 (port_at-self target sw.ports p f) in
              rw (e, f, m)
                (put_target-TxAt sw p _ (ap (λ k. port_at k sw.ports) self ∙ f) (handled-SameTx p)
                  t)
          | inr m ↦ rw (e, f, m) t
        ]
      ]
    ]

    flooded-TxAt :
        (sw : Switch) (f : List (Option Port) × Status)
        → TxAt f.0
        → EndsTxAt (flooded db filter garbage src r sw f)
    flooded-TxAt sw (qs, normal) t = copy_to_monitor-TxAt (record sw { ports = qs }) t
    flooded-TxAt sw (qs, exception) t = t
    flooded-TxAt sw (qs, crash) t = tt

    to_all-TxAt :
        (vlan : ℕ) (sw : Switch) → TxAt sw.ports → EndsTxAt (to_all db filter garbage src r vlan sw)
    unfolding to_all
    to_all-TxAt vlan sw t = flooded-TxAt sw _ (flood-TxAt vlan sw.max_used sw.ports t)

    -- The port keeps its transmission queue while a packet is forwarded, whoever sent it.
    pub forward-EndsTxAt :
        (sw : Switch) → TxAt sw.ports → EndsTxAt (forward db filter garbage src r sw)
    unfolding forward
    forward-EndsTxAt sw t = elim (Bool-cases (is_broadcast (dst_mac r))) [
      | inl b ↦ rw b (to_all-TxAt (vlan_of src r) _ t)
      | inr b ↦
          elim (Option-cases
            (lookup (learn table_size sw.mac_table (src_mac r) src.self) (dst_mac r))) [
              | inl f ↦ rw (b, f) (to_all-TxAt (vlan_of src r) _ t)
              | inr (target, f) ↦ rw (b, f) (to_target-TxAt (vlan_of src r) target _ t)
            ]
    ]
