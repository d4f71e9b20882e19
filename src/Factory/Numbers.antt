-- ===== src/Factory/Numbers.antt =====
-- server/switch/main.cc, `parse_int_optstring`, on the digits of a number.
use l4_virtio_net_switch.Prelude.{
  ℕ, ◌+◌, ◌-◌, ◌*◌, ◌<◌, ◌≡◌, refl, true, false, none, some, List, [], ◌∷◌, map, ◌==◌, ltb,
  if◌then◌else◌, arith,
}
use l4_virtio_net_switch.Prelude.Int.{pos}
use l4_virtio_net_switch.Factory.Text.{
  is_digit, is_space, skip_spaces, read_digits, signed, strtol, parse_int_optstring, int_limit,
}

-- The number that decimal digits stand for, read on from another.
abbrev pub value : ℕ → List ℕ → ℕ
value acc [] = acc
value acc (d ∷ ds) = value (acc * 10 + d) ds

abbrev pub Digits : List ℕ → Type 0
Digits [] = Unit {0}
Digits (d ∷ ds) = (d < 10) × Digits ds

abbrev pub chars : List ℕ → List ℕ
chars ds = map (λ d. 48 + d) ds

read_digits-chars :
    (acc : ℕ) (ds : List ℕ) → Digits ds → read_digits acc (chars ds) ≡ (value acc ds, [])
unfolding read_digits
read_digits-chars acc [] v = refl
read_digits-chars acc (d ∷ ds) (h, v) =
    let digit : is_digit (48 + d) ≡ true = ground arith in
    let same : 48 + d - 48 ≡ d = omega arith in
    rw (read_digits, digit, same) (read_digits-chars (acc * 10 + d) ds v)

strtol-chars :
    (d : ℕ) (ds : List ℕ)
    → d < 10
    → Digits ds
    → strtol (chars (d ∷ ds)) ≡ record { negative = false; magnitude = value 0 (d ∷ ds); rest = [] }
unfolding strtol skip_spaces signed
strtol-chars d ds h v =
    let digit : is_digit (48 + d) ≡ true = ground arith in
    let same : 48 + d - 48 ≡ d = omega arith in
    let solid : is_space (48 + d) ≡ false = ground arith in
    let no_minus : (48 + d == 45) ≡ false = ground arith in
    let no_plus : (48 + d == 43) ≡ false = ground arith in
    rw
      (
        strtol,
        skip_spaces,
        solid,
        no_minus,
        no_plus,
        signed,
        digit,
        read_digits-chars (0 * 10 + (48 + d - 48)) ds v,
        same,
      )
      refl

-- A text of decimal digits, of which there is at least one, is read as the number it stands for, if
-- that is below 2 ^ 31, and refused otherwise.
pub parse_int_optstring-chars :
    (d : ℕ) (ds : List ℕ)
    → d < 10
    → Digits ds
    → parse_int_optstring (chars (d ∷ ds))
      ≡ (if ltb (value 0 (d ∷ ds)) int_limit then some (pos (value 0 (d ∷ ds))) else none)
unfolding parse_int_optstring
parse_int_optstring-chars d ds h v = rw (parse_int_optstring, strtol-chars d ds h v) (ground arith)
