-- ===== src/Factory/SetUp.antt =====
-- server/switch/main.cc, `op_create`: how a new port is put in order.
use l4_virtio_net_switch.Prelude.{
  ℕ, ◌≡◌, refl, Bool, true, false, not, ◌||◌, Option, none, some, List, [], ◌∷◌, ◌==◌,
  if◌then◌else◌, if-intro, arith, Option-cases, Bool-cases, inl, inr,
}
use l4_virtio_net_switch.Prelude.OrdMap.{find}
use l4_virtio_net_switch.Vlan.{vlan_valid_id, vlan_id_trunk, vlan_id_native}
use l4_virtio_net_switch.Port.{
  Port, new_port, set_vlan_access, set_vlan_trunk, set_monitor, match_vlan, collect,
}
use l4_virtio_net_switch.Port.Vlans.{
  all_valid, member, match_vlan-set_vlan_trunk, match_vlan-set_vlan_access,
}
use l4_virtio_net_switch.Factory.{Made, set_up, has_any}
use l4_virtio_net_switch.Factory.Arguments.{Settings}
use l4_virtio_net_switch.Factory.Checks.{Valid}

-- The VLANs that the settings ask for.
abbrev pub wanted : Bool → ℕ → List ℕ → ℕ → Bool
wanted monitor access trunk v =
    if monitor
    then v == vlan_id_trunk
    else if not (access == 0)
    then v == access
    else if has_any trunk
    then (v == vlan_id_trunk) || member v trunk
    else v == vlan_id_native

abbrev pub wants : Settings → ℕ → Bool
wants s = wanted s.monitor s.vlan_access s.vlan_trunk

abbrev pub Joins : (ℕ → Bool) → Port → Type 0
Joins w p = (v : ℕ) → match_vlan p v ≡ w v

new_port-native :
    (self mac : ℕ) (made : Made) (v : ℕ)
    → match_vlan (new_port self mac made.rx made.tx) v ≡ (v == vlan_id_native)
unfolding match_vlan new_port find
new_port-native self mac made v = ground arith

new_port-monitor :
    (self mac : ℕ) (made : Made) (v : ℕ)
    → match_vlan (set_monitor (new_port self mac made.rx made.tx)) v ≡ (v == vlan_id_trunk)
unfolding match_vlan new_port set_monitor find
new_port-monitor self mac made v = ground arith

-- The port is put in order as the settings say; no assertion on its VLANs fails.
abbrev pub SetUp : (ℕ → Bool) → Option Port → Type 0
SetUp w none = ⊥
SetUp w (some p) = Joins w p

pub set_up-SetUp :
    (s : Settings) (self mac : ℕ) (made : Made)
    → Valid s
    → SetUp (wants s) (set_up s (new_port self mac made.rx made.tx))
unfolding set_up
set_up-SetUp s self mac made v = elim (Bool-cases s.monitor) [
  | inl m ↦ rw (set_up, m) (λ q. new_port-monitor self mac made q)
  | inr m ↦ elim (Bool-cases (s.vlan_access == 0)) [
    | inr a ↦
        let ok : vlan_valid_id s.vlan_access ≡ true = elim v.0 [
          | inl e ↦ absurd (ground arith)
          | inr e ↦ e
        ] in
        let (q, e, f) =
          match_vlan-set_vlan_access s.vlan_access (new_port self mac made.rx made.tx) ok in
        rw (set_up, m, a, e) (λ q. rw a (f q))
    | inl a ↦ rw (set_up, m, a) (on a s.vlan_trunk v.1)
  ]
]
  where
    on :
        (s.vlan_access == 0) ≡ true
        → (ids : List ℕ) → all_valid ids ≡ true
        → SetUp (wanted false s.vlan_access ids) (elim ids [
          | [] ↦ some (new_port self mac made.rx made.tx)
          | id ∷ rest ↦ set_vlan_trunk (id ∷ rest) (new_port self mac made.rx made.tx)
        ])
    on a [] ok = λ q. rw a (new_port-native self mac made q)
    on a (id ∷ rest) ok =
        let (q, e, f) =
          match_vlan-set_vlan_trunk (id ∷ rest) (new_port self mac made.rx made.tx) ok in
        rw e (λ q. rw a (f q))

pub new_port-calm :
    (self mac : ℕ) (made : Made) → (new_port self mac made.rx made.tx).pending_requests ≡ []
unfolding new_port
new_port-calm self mac made = refl

-- What is waiting in a port stays as it was.
abbrev pub AsWaiting : Port → Option Port → Type 0
AsWaiting p none = Unit {0}
AsWaiting p (some q) = q.pending_requests ≡ p.pending_requests

set_vlan_access-AsWaiting : (id : ℕ) (p : Port) → AsWaiting p (set_vlan_access id p)
unfolding set_vlan_access
set_vlan_access-AsWaiting id p = if-intro (AsWaiting p) (vlan_valid_id id) _ _ (λ _. refl) (λ _. tt)

set_vlan_trunk-AsWaiting : (ids : List ℕ) (p : Port) → AsWaiting p (set_vlan_trunk ids p)
unfolding set_vlan_trunk
set_vlan_trunk-AsWaiting ids p = elim (Option-cases (collect ids 0 [])) [
  | inl e ↦ rw (set_vlan_trunk, e) tt
  | inr (r, e) ↦ rw (set_vlan_trunk, e) refl
]

pub set_up-AsWaiting : (s : Settings) (p : Port) → AsWaiting p (set_up s p)
unfolding set_up set_monitor
set_up-AsWaiting s p =
    if-intro (AsWaiting p) s.monitor _ _ (λ _. refl)
      (λ _.
        if-intro (AsWaiting p) (not (s.vlan_access == 0)) _ _
          (λ _. set_vlan_access-AsWaiting s.vlan_access p) (λ _. on s.vlan_trunk))
  where
    on :
        (ids : List ℕ)
        → AsWaiting p (elim ids [ [] ↦ some p | id ∷ rest ↦ set_vlan_trunk (id ∷ rest) p ])
    on [] = refl
    on (id ∷ rest) = set_vlan_trunk-AsWaiting (id ∷ rest) p
