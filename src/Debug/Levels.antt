-- ===== src/Debug/Levels.antt =====
-- server/switch/debug.h: the level of each component.
use l4_virtio_net_switch.Prelude.{
  ℕ, zero, suc, ◌+◌, ◌-◌, ◌*◌, ◌/◌, ◌%◌, ◌^◌, ◌<◌, ◌≡◌, refl, ap, ap₂, ◌∙◌, sym, arith, Bool, true,
  false, not, ◌==◌, if◌then◌else◌,
}
use native.Mathlib.Nat.{one-le-pow, mod-eq_of_lt}
use l4_virtio_net_switch.Prelude.Bits.{bit_and-zero, bit_and_mask, bit_or_high, bit_or_fields}
use l4_virtio_net_switch.Debug.{set_component, is_active}
use l4_virtio_net_switch.Debug.Fields.{and_split, or_split, sixteen, field-lt}
use Prim.Native.Nat.{bit_and, bit_or}

-- The level of a component.
abbrev pub level_of : ℕ → ℕ → ℕ
level_of zero x = x % 16
level_of (suc c) x = level_of c (x / 16)

-- `set_component` on a word of so many fields.
abbrev set_field : ℕ → ℕ → ℕ → ℕ → ℕ
set_field v c m x =
    bit_or (bit_and x (2 ^ (4 * v) - 1 - 15 * 2 ^ (4 * c))) (bit_and m 15 * 2 ^ (4 * c))

mask_16 : (m : ℕ) → bit_and m 15 ≡ m % 16
mask_16 m = bit_and_mask 4 m

-- The first field, and the others.
set_field-zero : (v m x : ℕ) → x < 2 ^ (4 * suc v) → set_field (suc v) 0 m x ≡ x / 16 * 16 + m % 16
set_field-zero v m x h =
    let y : ℕ = 2 ^ (4 * suc v) - 1 - 15 * 2 ^ (4 * 0) in
    let low : x ≡ x / 16 * 16 + x % 16 = omega arith in
    let high : y ≡ (2 ^ (4 * v) - 1) * 16 + 0 =
      omega (arith, sixteen v, one-le-pow (4 * v) 2 (omega arith)) in
    let kept : bit_and x y ≡ x / 16 * 16 =
      ap₂ bit_and low high
      ∙ and_split (x / 16) (2 ^ (4 * v) - 1) (x % 16) 0 (omega arith) (omega arith)
      ∙ omega (
        arith,
        bit_and-zero (x % 16),
        bit_and_mask (4 * v) (x / 16),
        mod-eq_of_lt {n = x / 16} {m = 2 ^ (4 * v)} (omega (arith, sixteen v)),
      ) in
    let added : bit_and m 15 * 2 ^ (4 * 0) ≡ m % 16 = omega (arith, mask_16 m) in
    ap₂ bit_or kept added ∙ bit_or_high 4 (x / 16) (m % 16) (omega arith)

set_field-suc :
    (v c m x : ℕ) → c < v → set_field (suc v) (suc c) m x ≡ set_field v c m (x / 16) * 16 + x % 16
set_field-suc v c m x h =
    let y : ℕ = 2 ^ (4 * suc v) - 1 - 15 * 2 ^ (4 * suc c) in
    let y' : ℕ = 2 ^ (4 * v) - 1 - 15 * 2 ^ (4 * c) in
    let mask : ℕ = bit_and m 15 in
    let low : x ≡ x / 16 * 16 + x % 16 = omega arith in
    let high : y ≡ y' * 16 + 15 =
      omega (arith, sixteen v, sixteen c, field-lt c v h, one-le-pow (4 * c) 2 (omega arith)) in
    let kept : bit_and x y ≡ bit_and (x / 16) y' * 16 + x % 16 =
      ap₂ bit_and low high
      ∙ and_split (x / 16) y' (x % 16) 15 (omega arith) (omega arith)
      ∙ omega (arith, bit_and_mask 4 (x % 16)) in
    let added : mask * 2 ^ (4 * suc c) ≡ mask * 2 ^ (4 * c) * 16 + 0 =
      omega (arith, ap (λ (t : ℕ). mask * t) (sixteen c)) in
    ap₂ bit_or kept added
    ∙ or_split (bit_and (x / 16) y') (mask * 2 ^ (4 * c)) (x % 16) 0 (omega arith) (omega arith)
    ∙ omega (arith, bit_or_fields 4 (x % 16) 0)

-- The field that is set has the mask, and the others are as they were.
level_of-set_field :
    (v c d m x : ℕ)
    → d < v
    → x < 2 ^ (4 * v)
    → level_of c (set_field v d m x) ≡ (if c == d then m % 16 else level_of c x)
level_of-set_field zero c d m x h w = elim h [ ]
level_of-set_field (suc v) zero zero m x h w =
    ap (λ t. t % 16) (set_field-zero v m x w) ∙ ground arith
level_of-set_field (suc v) (suc c) zero m x h w =
    ap (λ t. level_of c (t / 16)) (set_field-zero v m x w)
    ∙ ap (level_of c) {x = (x / 16 * 16 + m % 16) / 16} {y = x / 16} (omega arith)
    ∙ ground arith
level_of-set_field (suc v) zero (suc d) m x h w =
    ap (λ t. t % 16) (set_field-suc v d m x (omega arith)) ∙ ground arith
level_of-set_field (suc v) (suc c) (suc d) m x h w =
    let y : ℕ = set_field v d m (x / 16) in
    ap (λ t. level_of c (t / 16)) (set_field-suc v d m x (omega arith))
    ∙ ap (level_of c) {x = (y * 16 + x % 16) / 16} {y = y} (omega arith)
    ∙ level_of-set_field v c d m (x / 16) (omega arith) (omega (arith, sixteen v))
    ∙ ground arith

-- The test of a component looks at its field alone.
bit_and-field :
    (c k x : ℕ) → k < 16 → (bit_and x (k * 2 ^ (4 * c)) == 0) ≡ (bit_and (level_of c x) k == 0)
bit_and-field zero k x h =
    let low : x ≡ x / 16 * 16 + x % 16 = omega arith in
    let up : k * 2 ^ (4 * 0) ≡ 0 * 16 + k = omega arith in
    let same : bit_and x (k * 2 ^ (4 * 0)) ≡ bit_and (x % 16) k =
      ap₂ bit_and low up
      ∙ and_split (x / 16) 0 (x % 16) k (omega arith) h
      ∙ omega (arith, bit_and-zero (x / 16)) in
    ap (λ t. t == 0) same
bit_and-field (suc c) k x h =
    let low : x ≡ x / 16 * 16 + x % 16 = omega arith in
    let up : k * 2 ^ (4 * suc c) ≡ k * 2 ^ (4 * c) * 16 + 0 =
      omega (arith, ap (λ (t : ℕ). k * t) (sixteen c)) in
    let same : bit_and x (k * 2 ^ (4 * suc c)) ≡ bit_and (x / 16) (k * 2 ^ (4 * c)) * 16 =
      ap₂ bit_and low up
      ∙ and_split (x / 16) (k * 2 ^ (4 * c)) (x % 16) 0 (omega arith) (omega arith)
      ∙ omega (arith, bit_and-zero (x % 16)) in
    ap (λ t. t == 0) same
    ∙ times_16 (bit_and (x / 16) (k * 2 ^ (4 * c)))
    ∙ bit_and-field c k (x / 16) h
  where
    times_16 : (n : ℕ) → (n * 16 == 0) ≡ (n == 0)
    times_16 n = ground arith

-- Once the level of a component, one of 16, is set in a word of 64 bits, its messages are shown at
-- the levels of the mask, and those of every other component as before.
pub is_active-set_component :
    (c d shown mask level : ℕ)
    → d < 16
    → level < 2 ^ 64
    → is_active c shown (set_component d mask level)
      ≡ (if c == d then not (bit_and (mask % 16) (shown % 16) == 0) else is_active c shown level)
unfolding is_active set_component
is_active-set_component c d shown mask level h w =
    let new : ℕ = set_field 16 d mask level in
    let tests : (x : ℕ) → is_active c shown x ≡ not (bit_and (level_of c x) (shown % 16) == 0) =
      λ x. active x in
    tests new
    ∙ ap (λ l. not (bit_and l (shown % 16) == 0)) (level_of-set_field 16 c d mask level h w)
    ∙ branch (c == d) (tests level)
  where
    active : (x : ℕ) → is_active c shown x ≡ not (bit_and (level_of c x) (shown % 16) == 0)
    active x = ap not (
        ap (λ k. bit_and x (k * 2 ^ (4 * c)) == 0) (mask_16 shown)
        ∙ bit_and-field c (shown % 16) x (omega arith))

    branch :
        (b : Bool)
        → is_active c shown level ≡ not (bit_and (level_of c level) (shown % 16) == 0)
        → not (bit_and (if b then mask % 16 else level_of c level) (shown % 16) == 0)
          ≡ (if b then not (bit_and (mask % 16) (shown % 16) == 0) else is_active c shown level)
    branch true e = refl
    branch false e = sym e
