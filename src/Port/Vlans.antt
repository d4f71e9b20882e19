-- ===== src/Port/Vlans.antt =====
-- server/switch/port.h: the VLANs of a port, and the Bloom filter of `match_vlan`.
use Prim.Native.Nat.{bit_and, bit_or}
use native.Mathlib.Nat.{pow-le-pow_right, one-le-pow, mul-le-mul}
use l4_virtio_net_switch.Prelude.{
  ℕ, ◌*◌, ◌%◌, ◌^◌, ◌≤◌, ◌≡◌, refl, Bool, true, false, ◌||◌, ◌&&◌, some, List, [], ◌∷◌, ◌==◌,
  if◌then◌else◌, arith, Option-cases, Bool-cases, inl, inr, ==_iff, ap, sym, ◌∙◌,
}
use l4_virtio_net_switch.Prelude.Bits.{bit, bit-bit_or, bit-two_pow, bit_and-two_pow, bit_and_mask}
use l4_virtio_net_switch.Prelude.OrdMap.{find, find-insert}
use l4_virtio_net_switch.Vlan.{vlan_id_trunk, vlan_valid_id}
use l4_virtio_net_switch.Port.{
  Port, VlanSet, contains, set_insert, vlan_bloom_hash, collect, set_vlan_trunk, set_vlan_access,
  match_vlan,
}

abbrev pub member : ℕ → List ℕ → Bool
member id [] = false
member id (x ∷ xs) = (id == x) || member id xs

abbrev pub all_valid : List ℕ → Bool
all_valid [] = true
all_valid (x ∷ xs) = vlan_valid_id x && all_valid xs

pub vlan_bloom_hash_lem : (id : ℕ) → vlan_bloom_hash id ≡ 2 ^ (id % 32)
unfolding vlan_bloom_hash
vlan_bloom_hash_lem id =
    let e : bit_and id 31 ≡ id % 32 = bit_and_mask 5 id in
    let le : 2 ^ (id % 32) ≤ 2 ^ 31 =
      pow-le-pow_right {n = 2} (omega arith) {i = id % 32} {j = 31} (omega arith) in
    rw e (omega arith)

contains-set_insert :
    (q id : ℕ) (s : VlanSet) → contains q (set_insert id s) ≡ ((q == id) || contains q s)
unfolding set_insert
contains-set_insert q id s = elim (Option-cases (find id s)) [
  | inl f ↦ ground (arith, find-insert q id tt s f)
  | inr (u, f) ↦ elim (Bool-cases (q == id)) [
    | inl e ↦ ground (arith, (==_iff q id).0 e)
    | inr e ↦ ground arith
  ]
]

-- Every element of the set has its bit in the filter.
abbrev Covered : ℕ → VlanSet → Type 0
Covered f s = (id : ℕ) → contains id s ≡ true → 1 ≤ bit (id % 32) f

insert-Covered :
    (f x : ℕ) (s : VlanSet) → Covered f s → Covered (bit_or f (vlan_bloom_hash x)) (set_insert x s)
insert-Covered f x s v id h = elim (Bool-cases (id == x)) [
  | inl e ↦
      let at_x : bit (id % 32) (2 ^ (x % 32)) ≡ 1 = rw ((==_iff id x).0 e) (bit-two_pow (x % 32)) in
      rw (vlan_bloom_hash_lem x, bit-bit_or (id % 32) f (2 ^ (x % 32))) (omega (arith, at_x))
  | inr e ↦
      let old : contains id s ≡ true = ground (arith, contains-set_insert id x s) in
      rw (bit-bit_or (id % 32) f (vlan_bloom_hash x)) (omega (arith, v id old))
]

-- The quick check answers no only for what is not in the set.
quick :
    (f id : ℕ) (s : VlanSet)
    → Covered f s
    → (bit_and f (vlan_bloom_hash id) == 0) ≡ true
    → contains id s ≡ false
quick f id s v h = elim (Bool-cases (contains id s)) [
  | inr e ↦ e
  | inl e ↦
      let z : bit_and f (vlan_bloom_hash id) ≡ 0 =
        (==_iff (bit_and f (vlan_bloom_hash id)) 0).0 h in
      let z' : bit (id % 32) f * 2 ^ (id % 32) ≡ 0 =
        sym (bit_and-two_pow (id % 32) f) ∙ ap (bit_and f) (sym (vlan_bloom_hash_lem id)) ∙ z in
      let le : 1 * 1 ≤ bit (id % 32) f * 2 ^ (id % 32) =
        mul-le-mul (v id e) (one-le-pow (id % 32) 2 (omega arith)) in
      absurd (omega arith)
]

nothing-Covered : (f : ℕ) → Covered f []
unfolding find
nothing-Covered f id h = ground arith

-- The test of a trunk port, with the quick check and without.
filtered :
    (f id : ℕ) (s : VlanSet) (ids : List ℕ)
    → Covered f s
    → contains id s ≡ (member id ids || contains id [])
    → (if id == vlan_id_trunk
        then true
        else if bit_and f (vlan_bloom_hash id) == 0
        then false
        else contains id s)
      ≡ ((id == vlan_id_trunk) || member id ids)
unfolding find
filtered f id s ids v c = elim (Bool-cases (bit_and f (vlan_bloom_hash id) == 0)) [
  | inl e ↦ ground (arith, quick f id s v e)
  | inr e ↦ ground arith
]

collect_lem :
    (ids : List ℕ) (f : ℕ) (s : VlanSet)
    → all_valid ids ≡ true
    → Covered f s
    → (f' : ℕ) × (s' : VlanSet) × (collect ids f s ≡ some (f', s'))
      × Covered f' s'
      × ((id : ℕ) → contains id s' ≡ (member id ids || contains id s))
unfolding collect
collect_lem [] f s ok v = (f, s, refl, v, λ id. refl)
collect_lem (x ∷ xs) f s ok v =
    let (f', s', e, v', c) =
      collect_lem xs (bit_or f (vlan_bloom_hash x)) (set_insert x s) (ground arith)
        (insert-Covered f x s v) in
    (f', s', ground arith, v', λ id. ground (arith, c id, contains-set_insert id x s))

-- A trunk port takes part in exactly the VLANs that it was given, and answers so for every id: the
-- Bloom filter rejects no VLAN of the port, whatever ids collide in it. The ids that the port gets
-- must be valid, as the code asserts; then it does become a trunk port.
pub match_vlan-set_vlan_trunk :
    (ids : List ℕ) (p : Port)
    → all_valid ids ≡ true
    → (q : Port) × (set_vlan_trunk ids p ≡ some q)
      × ((id : ℕ) → match_vlan q id ≡ ((id == vlan_id_trunk) || member id ids))
unfolding set_vlan_trunk match_vlan
match_vlan-set_vlan_trunk ids p ok =
    let (f, s, e, v, c) = collect_lem ids 0 [] ok (nothing-Covered 0) in
    (
      record p { own_vlan_id = vlan_id_trunk; vlan_bloom_filter = f; vlan_ids = s },
      rw (set_vlan_trunk, e) refl,
      λ id. filtered f id s ids v (c id),
    )

-- A port that becomes the access port of a valid VLAN takes part in that VLAN alone.
pub match_vlan-set_vlan_access :
    (id : ℕ) (p : Port)
    → vlan_valid_id id ≡ true
    → (q : Port) × (set_vlan_access id p ≡ some q) × ((v : ℕ) → match_vlan q v ≡ (v == id))
unfolding set_vlan_access match_vlan find
match_vlan-set_vlan_access id p ok = (
  record p { own_vlan_id = id; vlan_bloom_filter = 0; vlan_ids = [] },
  rw ok refl,
  λ v. ground arith,
)
