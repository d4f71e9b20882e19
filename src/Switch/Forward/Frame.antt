-- ===== src/Switch/Forward/Frame.antt =====
-- server/switch/switch.cc, `handle_tx_queue`: what the forwarding of a packet leaves as it was.
use l4_virtio_net_switch.Prelude.{
  ℕ, zero, suc, ◌≡◌, refl, ◌∙◌, Bool, true, false, not, ◌&&◌, Option, none, some, is_some, List, [],
  ◌∷◌, ◌==◌, if◌then◌else◌, arith, Option-cases, Bool-cases, inl, inr, ==_iff,
}
use l4_virtio_net_switch.Buffer.{DataBuffer}
use l4_virtio_net_switch.MacAddr.{is_broadcast}
use l4_virtio_net_switch.MacTable.{lookup, learn}
use l4_virtio_net_switch.Transfer.{Outcome, delivered, blocked, too_small, aborted, running}
use l4_virtio_net_switch.Request.{Request, src_mac, dst_mac}
use l4_virtio_net_switch.Port.{Port, Done, match_vlan, settle, handle_request}
use l4_virtio_net_switch.Filter.{filter_request}
use l4_virtio_net_switch.Switch.{Switch, Ended, ok, threw, crashed, table_size, port_at, store}
use l4_virtio_net_switch.Switch.Forward.{
  Status, normal, exception, crash, put, flood, put_monitor, copy_to_monitor, put_target, to_target,
  flooded, to_all, forward, vlan_of,
}

pub port_at-self :
    (a : ℕ) (ps : List (Option Port)) (p : Port) → port_at a ps ≡ some p → (p.self == a) ≡ true
unfolding port_at
port_at-self a [] p e = absurd (ground arith)
port_at-self a (none ∷ ps) p e = port_at-self a ps p e
port_at-self a (some o ∷ ps) p e = elim (Bool-cases (o.self == a)) [
  | inl f ↦ let same : p ≡ o = ground arith in rw same f
  | inr f ↦ port_at-self a ps p (ground arith)
]

-- A write changes the object at its own address alone.
pub port_at-store :
    (a : ℕ) (q : Port) (ps : List (Option Port))
    → port_at a (store q ps)
      ≡ (if q.self == a then (if is_some (port_at a ps) then some q else none) else port_at a ps)
unfolding port_at store
port_at-store a q [] = ground arith
port_at-store a q (none ∷ ps) = port_at-store a q ps
port_at-store a q (some o ∷ ps) = elim (Bool-cases (o.self == q.self)) [
  | inl e ↦ rw e (ground arith)
  | inr e ↦ rw e (ground (arith, port_at-store a q ps))
]

-- The address of the port that an operation leaves.
abbrev pub SelfIs : ℕ → Done → Type 0
SelfIs a (Done.ok q) = q.self ≡ a
SelfIs a (Done.threw q) = q.self ≡ a
SelfIs a Done.failed = Unit {0}

settle-SelfIs : (db : DataBuffer) (p : Port) (o : Outcome) → SelfIs p.self (settle db p o)
unfolding settle
settle-SelfIs db p (delivered t q) = refl
settle-SelfIs db p (blocked t q) = refl
settle-SelfIs db p (too_small t q) = refl
settle-SelfIs db p aborted = tt
settle-SelfIs db p (running t q) = tt

-- What stands at an address is what it was, unless the switch has crashed.
abbrev pub Frames : ℕ → Option Port → Ended → Type 0
Frames a o (ok sw) = port_at a sw.ports ≡ o
Frames a o (threw sw) = port_at a sw.ports ≡ o
Frames a o crashed = Unit {0}

abbrev FloodFrames : ℕ → Option Port → List (Option Port) × Status → Type 0
FloodFrames a o (qs, normal) = port_at a qs ≡ o
FloodFrames a o (qs, exception) = port_at a qs ≡ o
FloodFrames a o (qs, crash) = Unit {0}

module _ (db : DataBuffer) (filter : List ℕ → ℕ → Bool) (garbage : ℕ) (src : Port)
    (r : Request) where
  pub handled-SelfIs : (p : Port) → SelfIs p.self (handle_request db garbage src p r)
  unfolding handle_request
  handled-SelfIs p = settle-SelfIs db p _

  pass-Frames :
      (o : Option Port) (ps : List (Option Port)) (f : List (Option Port) × Status)
      → FloodFrames src.self (port_at src.self ps) f
      → FloodFrames src.self (port_at src.self (o ∷ ps)) (o ∷ f.0, f.1)
  unfolding port_at
  pass-Frames none ps (qs, normal) e = e
  pass-Frames none ps (qs, exception) e = e
  pass-Frames none ps (qs, crash) e = tt
  pass-Frames (some p) ps (qs, normal) e = rw e refl
  pass-Frames (some p) ps (qs, exception) e = rw e refl
  pass-Frames (some p) ps (qs, crash) e = tt

  put-Frames :
      (p : Port) (ps : List (Option Port)) (d : Done) (f : List (Option Port) × Status)
      → (p.self == src.self) ≡ false
      → SelfIs p.self d
      → FloodFrames src.self (port_at src.self ps) f
      → FloodFrames src.self (port_at src.self (some p ∷ ps)) (put db filter garbage src r p d ps f)
  unfolding port_at
  put-Frames p ps (Done.ok q) (qs, normal) other same e = rw (same, other, e) refl
  put-Frames p ps (Done.ok q) (qs, exception) other same e = rw (same, other, e) refl
  put-Frames p ps (Done.ok q) (qs, crash) other same e = tt
  put-Frames p ps (Done.threw q) f other same e = rw (same, other) refl
  put-Frames p ps Done.failed f other same e = tt

  flood-Frames :
      (vlan n : ℕ) (ps : List (Option Port))
      → FloodFrames src.self (port_at src.self ps) (flood db filter garbage src r vlan n ps)
  unfolding flood
  flood-Frames vlan zero ps = refl
  flood-Frames vlan (suc n) [] = refl
  flood-Frames vlan (suc n) (none ∷ ps) = refl
  flood-Frames vlan (suc n) (some p ∷ ps) =
      elim (Bool-cases (not (p.self == src.self) && match_vlan p vlan)) [
        | inl e ↦
            rw e (put-Frames p ps _ _ (ground arith) (handled-SelfIs p) (flood-Frames vlan n ps))
        | inr e ↦ rw e (pass-Frames (some p) ps _ (flood-Frames vlan n ps))
      ]

  put_monitor-Frames :
      (sw : Switch) (d : Done)
      → Frames src.self (port_at src.self sw.ports) (put_monitor db filter garbage src r d sw)
  put_monitor-Frames sw (Done.ok q) = refl
  put_monitor-Frames sw (Done.threw q) = refl
  put_monitor-Frames sw Done.failed = tt

  copy_to_monitor-Frames :
      (sw : Switch)
      → Frames src.self (port_at src.self sw.ports) (copy_to_monitor db filter garbage src r sw)
  unfolding copy_to_monitor
  copy_to_monitor-Frames sw = on sw.monitor
    where
      on :
          (o : Option Port)
          → Frames src.self (port_at src.self sw.ports) (elim o [
            | none ↦ ok sw
            | some m ↦
                if not (filter_request filter r)
                then put_monitor db filter garbage src r (handle_request db garbage src m r) sw
                else ok sw
          ])
      on none = refl
      on (some m) = elim (Bool-cases (not (filter_request filter r))) [
        | inl e ↦ rw e (put_monitor-Frames sw _)
        | inr e ↦ rw e refl
      ]

  -- A copy for the monitor, once another port has been written.
  stored-Frames :
      (sw : Switch) (q : Port)
      → (q.self == src.self) ≡ false
      → port_at src.self (store q sw.ports) ≡ port_at src.self sw.ports
  stored-Frames sw q other = port_at-store src.self q sw.ports ∙ rw other refl

  put_target-Frames :
      (sw : Switch) (p : Port) (d : Done)
      → (p.self == src.self) ≡ false
      → SelfIs p.self d
      → Frames src.self (port_at src.self sw.ports) (put_target db filter garbage src r d sw)
  put_target-Frames sw p (Done.ok q) other same =
      rw⁻¹ (stored-Frames sw q (rw same other))
        (copy_to_monitor-Frames (record sw { ports = store q sw.ports }))
  put_target-Frames sw p (Done.threw q) other same = stored-Frames sw q (rw same other)
  put_target-Frames sw p Done.failed other same = tt

  to_target-Frames :
      (vlan target : ℕ) (sw : Switch)
      → Frames src.self
          (port_at src.self sw.ports)
          (to_target db filter garbage src r vlan target sw)
  unfolding to_target
  to_target-Frames vlan target sw = elim (Bool-cases (target == src.self)) [
    | inl e ↦ rw e refl
    | inr e ↦ elim (Option-cases (port_at target sw.ports)) [
      | inl f ↦ rw (e, f) tt
      | inr (p, f) ↦ elim (Bool-cases (match_vlan p vlan)) [
        | inl m ↦
            rw (e, f, m)
              (put_target-Frames sw p _
                (rw ((==_iff p.self target).0 (port_at-self target sw.ports p f)) e)
                (handled-SelfIs p))
        | inr m ↦ rw (e, f, m) refl
      ]
    ]
  ]

  flooded-Frames :
      (sw : Switch) (f : List (Option Port) × Status)
      → FloodFrames src.self (port_at src.self sw.ports) f
      → Frames src.self (port_at src.self sw.ports) (flooded db filter garbage src r sw f)
  flooded-Frames sw (qs, normal) e = rw⁻¹ e (copy_to_monitor-Frames (record sw { ports = qs }))
  flooded-Frames sw (qs, exception) e = e
  flooded-Frames sw (qs, crash) e = tt

  to_all-Frames :
      (vlan : ℕ) (sw : Switch)
      → Frames src.self (port_at src.self sw.ports) (to_all db filter garbage src r vlan sw)
  unfolding to_all
  to_all-Frames vlan sw = flooded-Frames sw _ (flood-Frames vlan sw.max_used sw.ports)

  -- Whatever becomes of a packet, unless the switch crashes, the port that sent it is as it was: no
  -- packet goes back to where it came from, neither to be written to its receive queue nor to wait
  -- there.
  pub forward-Frames :
      (sw : Switch)
      → Frames src.self (port_at src.self sw.ports) (forward db filter garbage src r sw)
  unfolding forward
  forward-Frames sw = elim (Bool-cases (is_broadcast (dst_mac r))) [
    | inl b ↦ rw b (to_all-Frames (vlan_of src r) _)
    | inr b ↦
        elim (Option-cases
          (lookup (learn table_size sw.mac_table (src_mac r) src.self) (dst_mac r))) [
            | inl f ↦ rw (b, f) (to_all-Frames (vlan_of src r) _)
            | inr (target, f) ↦ rw (b, f) (to_target-Frames (vlan_of src r) target _)
          ]
  ]
