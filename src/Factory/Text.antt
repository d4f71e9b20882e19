-- ===== src/Factory/Text.antt =====
-- server/switch/main.cc, `parse_int_optstring` and `parse_int_param`, with what they use of the C
-- library. A string is its bytes; a read past the end finds the terminating zero.
use l4_virtio_net_switch.Prelude.{
  ℕ, zero, suc, ◌+◌, ◌-◌, ◌*◌, ◌^◌, Bool, true, false, not, ◌&&◌, ◌||◌, Option, none, some, List,
  [], ◌∷◌, ◌==◌, ltb, leb, if◌then◌else◌, length, drop,
}
use l4_virtio_net_switch.Prelude.Int.{ℤ, pos, negsuc}

abbrev pub first : List ℕ → ℕ
first [] = 0
first (c ∷ s) = c

abbrev pub behind : List ℕ → List ℕ
behind [] = []
behind (c ∷ s) = s

-- `strncmp(a, b, n) == 0`.
unfoldable pub same_to : ℕ → List ℕ → List ℕ → Bool
same_to zero a b = true
same_to (suc n) a b =
    let rest = same_to n (behind a) (behind b) in
    if not (first a == first b) then false else if first a == 0 then true else rest

-- `isspace` and `isdigit`.
abbrev pub is_space : ℕ → Bool
is_space c = c == 32 || (leb 9 c && leb c 13)

abbrev pub is_digit : ℕ → Bool
is_digit c = leb 48 c && leb c 57

unfoldable pub skip_spaces : List ℕ → List ℕ
skip_spaces [] = []
skip_spaces (c ∷ s) = if is_space c then skip_spaces s else c ∷ s

-- The digits from here on, read on from a number, and what is behind them.
unfoldable pub read_digits : ℕ → List ℕ → ℕ × List ℕ
read_digits acc [] = (acc, [])
read_digits acc (c ∷ s) =
    let rest = read_digits (acc * 10 + (c - 48)) s in if is_digit c then rest else (acc, c ∷ s)

-- What `strtol` leaves: the number, whether it fits a `long`, and the string from `endp` on.
pub record Number : Type 0 where
  pub negative : Bool
  pub magnitude : ℕ
  pub rest : List ℕ

unfoldable pub signed : Bool → List ℕ → List ℕ → Number
unfolding read_digits
signed negative text s =
    let (n, rest) = read_digits 0 s in
    if is_digit (first s)
    then record { negative = negative; magnitude = n; rest = rest }
    else record { negative = false; magnitude = 0; rest = text }

unfoldable pub strtol : List ℕ → Number
unfolding signed skip_spaces
strtol text =
    let s = skip_spaces text in
    if first s == 45
    then signed true text (behind s)
    else if first s == 43
    then signed false text (behind s)
    else signed false text s

abbrev pub long_limit : ℕ
long_limit = 2 ^ 63

abbrev pub int_limit : ℕ
int_limit = 2 ^ 31

-- A magnitude with its sign is between -limit and limit - 1.
abbrev pub fits : ℕ → Bool → ℕ → Bool
fits limit negative n = if negative then leb n limit else ltb n limit

abbrev pub with_sign : Bool → ℕ → ℤ
with_sign true (suc n) = negsuc n
with_sign true zero = pos 0
with_sign false n = pos n

-- A number out of the range of `long` sets `errno`.
unfoldable pub parse_int_optstring : List ℕ → Option ℤ
unfolding strtol
parse_int_optstring optstring =
    let num = strtol optstring in
    if not (fits long_limit num.negative num.magnitude) || not (first num.rest == 0)
    then none
    else if not (fits int_limit num.negative num.magnitude)
    then none
    else some (with_sign num.negative num.magnitude)

-- False, true with the number, or the exception.
pub data Param : Type 0 where
  absent : Param
  present : ℤ → Param
  bad : Param

unfoldable pub parse_int_param : List ℕ → List ℕ → Param
unfolding same_to parse_int_optstring
parse_int_param param prefix =
    if ltb (length param) (length prefix)
    then absent
    else if not (same_to (length prefix) param prefix)
    then absent
    else elim (parse_int_optstring (drop (length prefix) param)) [ none ↦ bad | some n ↦ present n ]
