-- ===== src/Debug/Fields.antt =====
-- Words of four-bit fields: `&` and `|` field by field.
use l4_virtio_net_switch.Prelude.{
  ℕ, zero, suc, ◌+◌, ◌*◌, ◌/◌, ◌%◌, ◌^◌, ◌<◌, ◌≤◌, ◌≡◌, refl, ap, ap₂, ◌∙◌, arith, min,
}
use native.Mathlib.Nat.{pow-suc, pow-le-pow_right}
use l4_virtio_net_switch.Prelude.Bits.{bit_and_step, bit_or_step, bit_and-zero}
use Prim.Native.Nat.{bit_and, bit_or, max}

twice : (k a : ℕ) → a * 2 ^ suc k ≡ 2 * (a * 2 ^ k)
twice k a = omega (arith, ap (λ (t : ℕ). a * t) (pow-suc 2 k))

module _ (op : ℕ → ℕ → ℕ) (on_bits : ℕ → ℕ → ℕ)
    (step : (a b : ℕ) → op a b ≡ op (a / 2) (b / 2) * 2 + on_bits (a % 2) (b % 2)) where
  -- An operation on bits works on the high and the low part alike.
  split :
      (k a b r s : ℕ)
      → op 0 0 ≡ 0
      → r < 2 ^ k
      → s < 2 ^ k
      → op (a * 2 ^ k + r) (b * 2 ^ k + s) ≡ op a b * 2 ^ k + op r s
  split zero a b r s z hr hs =
      let er : r ≡ 0 = omega arith in
      let es : s ≡ 0 = omega arith in
      ap₂ op {x = a * 1 + r} {y = a} {u = b * 1 + s} {v = b} (omega arith) (omega arith)
      ∙ omega (arith, z, ap₂ op er es)
  split (suc k) a b r s z hr hs =
      let x : ℕ = a * 2 ^ suc k + r in
      let y : ℕ = b * 2 ^ suc k + s in
      let ex : x / 2 ≡ a * 2 ^ k + r / 2 = omega (arith, twice k a) in
      let ey : y / 2 ≡ b * 2 ^ k + s / 2 = omega (arith, twice k b) in
      let ox : x % 2 ≡ r % 2 = omega (arith, twice k a) in
      let oy : y % 2 ≡ s % 2 = omega (arith, twice k b) in
      omega (
        arith,
        step x y,
        ap₂ op ex ey,
        ap₂ on_bits ox oy,
        split k a b (r / 2) (s / 2) z (omega (arith, pow-suc 2 k)) (omega (arith, pow-suc 2 k)),
        step r s,
        twice k (op a b),
      )

pub and_split :
    (a b r s : ℕ)
    → r < 16
    → s < 16
    → bit_and (a * 16 + r) (b * 16 + s) ≡ bit_and a b * 16 + bit_and r s
and_split a b r s hr hs = split bit_and min bit_and_step 4 a b r s (bit_and-zero 0) hr hs

pub or_split :
    (a b r s : ℕ)
    → r < 16
    → s < 16
    → bit_or (a * 16 + r) (b * 16 + s) ≡ bit_or a b * 16 + bit_or r s
or_split a b r s hr hs = split bit_or max bit_or_step 4 a b r s refl hr hs

pub sixteen : (c : ℕ) → 2 ^ (4 * suc c) ≡ 16 * 2 ^ (4 * c)
sixteen c =
    let k : ℕ = 4 * c in
    ap (λ (t : ℕ). 2 ^ t) {x = 4 * suc c} {y = suc (suc (suc (suc k)))} (omega arith)
    ∙ omega (
      arith,
      pow-suc 2 (suc (suc (suc k))),
      pow-suc 2 (suc (suc k)),
      pow-suc 2 (suc k),
      pow-suc 2 k,
    )

-- A field of a word of so many fields is below it.
pub field-lt : (c v : ℕ) → c < v → 15 * 2 ^ (4 * c) + 2 ^ (4 * c) ≤ 2 ^ (4 * v)
field-lt c v h =
    let le : 2 ^ (4 * suc c) ≤ 2 ^ (4 * v) =
      pow-le-pow_right {n = 2} (omega arith) {i = 4 * suc c} {j = 4 * v} (omega arith) in
    omega (arith, le, sixteen c)
