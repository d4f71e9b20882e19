-- ===== src/Options/Size.antt =====
-- server/switch/options.cc: the size of the queues.
use l4_virtio_net_switch.Prelude.{
  ℕ, zero, suc, ◌-◌, ◌/◌, ◌%◌, ◌^◌, ◌<◌, ◌≤◌, ◌≡◌, refl, ap, Bool, true, List, [], ◌∷◌, ◌==◌,
  if-intro, arith, Bool-cases, inl, inr,
}
use l4_virtio_net_switch.Prelude.Int.{ℤ, pos, negsuc}
use l4_virtio_net_switch.Prelude.Bits.{bit_and_step}
use l4_virtio_net_switch.Options.{
  Options, default_options, Given, size, ports, mac, debug_level, verbose, silent, register_ds,
  unknown, Exit, done, failed, threw, valid_size, parse_loop, parse_cmd_line, parse_options,
}
use Prim.Native.Nat.{bit_and}

bit_and_self : (n m : ℕ) → m < n → bit_and m m ≡ m
bit_and_self zero m h = elim h [ ]
bit_and_self (suc n) m h = elim (Bool-cases (m == 0)) [
  | inl e ↦ let z : m ≡ 0 = ground arith in rw z refl
  | inr e ↦
      let half = bit_and_self n (m / 2) (ground arith) in omega (arith, bit_and_step m m, half)
]

-- A number that has no bit in common with its predecessor is a power of two.
power_of_two : (n m : ℕ) → m < n → 1 ≤ m → bit_and m (m - 1) ≡ 0 → (k : ℕ) × (m ≡ 2 ^ k)
power_of_two zero m h nonzero e = elim h [ ]
power_of_two (suc n) m h nonzero e = elim (Bool-cases (m % 2 == 0)) [
  | inl even ↦
      let two : m % 2 ≡ 0 = ground arith in
      let less : (m - 1) / 2 ≡ m / 2 - 1 = omega (arith, two) in
      let step : bit_and (m / 2) ((m - 1) / 2) ≡ 0 = omega (arith, bit_and_step m (m - 1), e) in
      let half : bit_and (m / 2) (m / 2 - 1) ≡ 0 = rw less at step in
      let (k, f) =
        power_of_two n (m / 2) (omega (arith, h, nonzero)) (omega (arith, two, nonzero)) half in
      (suc k, omega (arith, two, f))
  | inr odd ↦
      let one : m % 2 ≡ 1 = ground arith in
      let less : (m - 1) / 2 ≡ m / 2 = omega (arith, one) in
      let none_left : m / 2 ≡ 0 = omega (
        arith,
        bit_and_step m (m - 1),
        ap (bit_and (m / 2)) less,
        e,
        bit_and_self (suc (m / 2)) (m / 2) (omega arith),
      ) in
      (0, omega (arith, one, none_left))
]

-- The number of buffers of a queue is a power of two, at most 0x8000.
abbrev pub PowerOfTwo : ℤ → Type 0
PowerOfTwo (pos n) = ((k : ℕ) × (n ≡ 2 ^ k)) × (n ≤ 0x8000)
PowerOfTwo (negsuc n) = ⊥

abbrev pub Sized : Exit → Type 0
Sized (done o l) = PowerOfTwo o.virtq_max_num
Sized failed = Unit {0}
Sized threw = Unit {0}

valid_size-PowerOfTwo : (n : ℤ) → valid_size n ≡ true → PowerOfTwo n
valid_size-PowerOfTwo (pos n) e =
    let none_common : bit_and n (n - 1) ≡ 0 = ground arith in
    (power_of_two (suc n) n (omega arith) (ground arith) none_common, ground arith)
valid_size-PowerOfTwo (negsuc n) e = absurd (ground arith)

module _ (atoi : List ℕ → ℤ) (has_cap : List ℕ → Bool) where
  parse_loop-Sized :
      (opts : List Given) (o : Options) (verbosity level : ℕ)
      → PowerOfTwo o.virtq_max_num
      → Sized (parse_loop atoi has_cap opts o verbosity level)
  unfolding parse_loop
  parse_loop-Sized [] o verbosity level v = v
  parse_loop-Sized (size arg ∷ opts) o verbosity level v =
      if-intro Sized (valid_size (atoi arg)) _ _
        (λ e. parse_loop-Sized opts _ verbosity level (valid_size-PowerOfTwo (atoi arg) e))
        (λ _. tt)
  parse_loop-Sized (ports arg ∷ opts) o verbosity level v =
      parse_loop-Sized opts _ verbosity level v
  parse_loop-Sized (mac ∷ opts) o verbosity level v = parse_loop-Sized opts _ verbosity level v
  parse_loop-Sized (debug_level arg ∷ opts) o verbosity level v =
      parse_loop-Sized opts o verbosity _ v
  parse_loop-Sized (verbose ∷ opts) o verbosity level v = parse_loop-Sized opts o _ _ v
  parse_loop-Sized (silent ∷ opts) o verbosity level v = parse_loop-Sized opts o _ _ v
  parse_loop-Sized (register_ds arg ∷ opts) o verbosity level v =
      if-intro Sized (has_cap arg) _ _ (λ _. parse_loop-Sized opts o verbosity level v) (λ _. tt)
  parse_loop-Sized (unknown ∷ opts) o verbosity level v = tt

  -- Whatever the command line is, if the options are accepted the number of buffers of a queue is a
  -- power of two between 1 and 0x8000.
  pub parse_options-Sized :
      (opts : List Given) (level : ℕ) → Sized (parse_options atoi has_cap opts level)
  unfolding parse_options parse_cmd_line
  parse_options-Sized opts level =
      on (parse_cmd_line atoi has_cap opts level)
        (parse_loop-Sized opts default_options _ _ ((8, refl), omega arith))
    where
      on :
          (e : Exit)
          → Sized e
          → Sized (elim e [ done o l ↦ done o l | failed ↦ threw | threw ↦ threw ])
      on (done o l) v = v
      on failed v = tt
      on threw v = tt
