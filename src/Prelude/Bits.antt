-- ===== src/Prelude/Bits.antt =====
-- Bit operations on machine words, as arithmetic.
use Prim.Native.Nat.{
  ℕ, zero, suc, ◌+◌, ◌-◌, ◌*◌, ◌/◌, ◌%◌, ◌^◌, ◌≤◌, ◌<◌, min, max, bit_and, bit_or, digits,
  bit_and-bitwise, bit_or-bitwise,
}
use mathlib.Core.Path.{◌≡◌, refl, sym, ap, ◌∙◌}
use mathlib.Core.Logic.{inl, inr}
use native.Mathlib.Omega.{arith}
use native.Mathlib.Nat.{pow-suc, one-le-pow}
use l4_virtio_net_switch.Prelude.Tests.{◌==◌, ==_iff, Bool-cases}

infixl 72 ◌<<<◌ ◌>>>◌
abbrev pub ◌<<<◌ : ℕ → ℕ → ℕ
x <<< k = x * 2 ^ k

abbrev pub ◌>>>◌ : ℕ → ℕ → ℕ
x >>> k = x / 2 ^ k

abbrev pub u8 : ℕ → ℕ
u8 x = x % 2 ^ 8

abbrev pub u16 : ℕ → ℕ
u16 x = x % 2 ^ 16

abbrev pub u32 : ℕ → ℕ
u32 x = x % 2 ^ 32

-- `digits` does not depend on its fuel once that reaches the first word.
module _ (rest : ℕ → ℕ) (on_bits : ℕ → ℕ → ℕ) where
  one_more : (n a b : ℕ) → a ≤ n → digits rest on_bits (suc n) a b ≡ digits rest on_bits n a b
  one_more zero zero b le = refl
  one_more zero (suc a) b le = absurd (omega arith)
  one_more (suc n) zero b le = refl
  one_more (suc n) (suc a) b le =
      ap (λ d. d * 2 + on_bits (suc a % 2) (b % 2)) (one_more n (suc a / 2) (b / 2) (omega arith))

  many_more : (n m a b : ℕ) → m ≤ n → a ≤ m → digits rest on_bits n a b ≡ digits rest on_bits m a b
  many_more zero zero a b up le = refl
  many_more zero (suc m) a b up le = absurd (omega arith)
  many_more (suc n) m a b up le = elim (Bool-cases (m == suc n)) [
    | inl e ↦ ap (λ k. digits rest on_bits k a b) (sym ((==_iff m (suc n)).0 e))
    | inr e ↦ one_more n a b (ground arith) ∙ many_more n m a b (ground arith) le
  ]

  halves :
      (a b : ℕ)
      → digits rest on_bits a (suc a / 2) (b / 2)
        ≡ digits rest on_bits (suc a / 2) (suc a / 2) (b / 2)
  halves a b = many_more a (suc a / 2) (suc a / 2) (b / 2) (omega arith) (omega arith)

pub bit_and_step : (a b : ℕ) → bit_and a b ≡ bit_and (a / 2) (b / 2) * 2 + min (a % 2) (b % 2)
bit_and_step a b =
    elim a as (λ a. bit_and a b ≡ bit_and (a / 2) (b / 2) * 2 + min (a % 2) (b % 2)) [
      | zero ↦ omega (arith, bit_and-bitwise zero b, bit_and-bitwise zero (b / 2))
      | suc k ↦
          bit_and-bitwise (suc k) b
          ∙ omega (arith, halves (λ b. 0) min k b, bit_and-bitwise (suc k / 2) (b / 2))
    ]

pub bit_or_step : (a b : ℕ) → bit_or a b ≡ bit_or (a / 2) (b / 2) * 2 + max (a % 2) (b % 2)
bit_or_step a b = elim a as (λ a. bit_or a b ≡ bit_or (a / 2) (b / 2) * 2 + max (a % 2) (b % 2)) [
  | zero ↦ omega (arith, bit_or-bitwise zero b, bit_or-bitwise zero (b / 2))
  | suc k ↦
      bit_or-bitwise (suc k) b
      ∙ omega (arith, halves (λ b. b) max k b, bit_or-bitwise (suc k / 2) (b / 2))
]

-- Bit `k` of a word.
abbrev pub bit : ℕ → ℕ → ℕ
bit zero a = a % 2
bit (suc k) a = bit k (a / 2)

-- `|` of words has the greater of the bits.
pub bit-bit_or : (k a b : ℕ) → bit k (bit_or a b) ≡ max (bit k a) (bit k b)
bit-bit_or zero a b = omega (arith, bit_or_step a b)
bit-bit_or (suc k) a b =
    let e : bit_or a b / 2 ≡ bit_or (a / 2) (b / 2) = omega (arith, bit_or_step a b) in
    rw e (bit-bit_or k (a / 2) (b / 2))

pub bit-two_pow : (k : ℕ) → bit k (2 ^ k) ≡ 1
bit-two_pow zero = refl
bit-two_pow (suc k) =
    let e : 2 ^ suc k / 2 ≡ 2 ^ k = omega (arith, pow-suc 2 k) in rw e (bit-two_pow k)

no_bits : (n a : ℕ) → digits (λ b. 0) min n a 0 ≡ 0
no_bits zero a = refl
no_bits (suc n) zero = refl
no_bits (suc n) (suc a) = omega (arith, no_bits n (suc a / 2))

pub bit_and-zero : (a : ℕ) → bit_and a 0 ≡ 0
bit_and-zero a = bit_and-bitwise a 0 ∙ no_bits a a

-- `&` with a single bit tests that bit.
pub bit_and-two_pow : (k a : ℕ) → bit_and a (2 ^ k) ≡ bit k a * 2 ^ k
bit_and-two_pow zero a = omega (arith, bit_and_step a 1, bit_and-zero (a / 2))
bit_and-two_pow (suc k) a =
    let half : 2 ^ suc k / 2 ≡ 2 ^ k = omega (arith, pow-suc 2 k) in
    omega (
      arith,
      bit_and_step a (2 ^ suc k),
      ap (bit_and (a / 2)) half,
      bit_and-two_pow k (a / 2),
      pow-suc 2 k,
      ap (λ (t : ℕ). bit k (a / 2) * t) (pow-suc 2 k),
    )

-- `|` of disjoint fields is a sum.
pub bit_or_fields : (k r q : ℕ) → r < 2 ^ k → bit_or r (q <<< k) ≡ r + q * 2 ^ k
bit_or_fields zero zero q h = omega (arith, bit_or-bitwise 0 (q * 1))
bit_or_fields zero (suc r) q h = absurd (omega arith)
bit_or_fields (suc k) r q h =
    let e : q * 2 ^ suc k ≡ 2 * (q * 2 ^ k) = omega (arith, ap (λ (t : ℕ). q * t) (pow-suc 2 k)) in
    omega (
      arith,
      bit_or_step r (q * 2 ^ suc k),
      e,
      ap (bit_or (r / 2)) {x = q * 2 ^ suc k / 2} {y = q * 2 ^ k} (omega (arith, e)),
      bit_or_fields k (r / 2) q (omega (arith, pow-suc 2 k)),
    )

mod_double : (a m : ℕ) → 1 ≤ m → a % (m * 2) ≡ a / 2 % m * 2 + a % 2
mod_double a m h = grind arith

-- A mask of `k` low bits takes the remainder by `2 ^ k`.
pub bit_and_mask : (k a : ℕ) → bit_and a (2 ^ k - 1) ≡ a % 2 ^ k
bit_and_mask zero a = omega (arith, bit_and-zero a)
bit_and_mask (suc k) a =
    let one : 1 ≤ 2 ^ k = one-le-pow k 2 (omega arith) in
    let half : (2 ^ suc k - 1) / 2 ≡ 2 ^ k - 1 = omega (arith, pow-suc 2 k) in
    omega (
      arith,
      pow-suc 2 k,
      bit_and_step a (2 ^ suc k - 1),
      ap (bit_and (a / 2)) half,
      bit_and_mask k (a / 2),
      mod_double a (2 ^ k) one,
      ap (λ (t : ℕ). a % t) (pow-suc 2 k),
    )

same_bits : (n a : ℕ) → a ≤ n → digits (λ b. b) max n a 0 ≡ a
same_bits zero a le = omega arith
same_bits (suc n) zero le = refl
same_bits (suc n) (suc a) le = omega (arith, same_bits n (suc a / 2))

-- `|` of disjoint fields, the high one first.
pub bit_or_high : (k q r : ℕ) → r < 2 ^ k → bit_or (q <<< k) r ≡ q * 2 ^ k + r
bit_or_high zero q r h =
    let z : r ≡ 0 = omega arith in
    rw z (bit_or-bitwise (q * 1) 0 ∙ omega (arith, same_bits (q * 1) (q * 1)))
bit_or_high (suc k) q r h =
    let twice : q * 2 ^ suc k ≡ 2 * (q * 2 ^ k) =
      omega (arith, ap (λ (t : ℕ). q * t) (pow-suc 2 k)) in
    let half : q * 2 ^ suc k / 2 ≡ q * 2 ^ k = omega (arith, twice) in
    bit_or_step (q * 2 ^ suc k) r
    ∙ omega (
      arith,
      ap (λ t. bit_or t (r / 2)) half,
      bit_or_high k q (r / 2) (omega (arith, pow-suc 2 k)),
      twice,
    )
