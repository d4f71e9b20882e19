-- ===== src/Tests/Configuration.antt =====
-- The device of a new port, with words of bits for the framework's features; the log; and `main`.
use l4_virtio_net_switch.Prelude.{
  get_or, ltb, ◌^◌, ◌==◌, if◌then◌else◌, ℕ, zero, suc, ◌≡◌, ◌≤◌, ◌/◌, ◌%◌, ◌^◌, refl, Bool, true,
  false, ◌||◌, [], ◌∷◌, ◌==◌, none, if◌then◌else◌, arith, Bool-cases, inl, inr, ==_iff,
}
use l4_virtio_net_switch.Prelude.Bits.{bit, bit-bit_or, bit-two_pow}
use native.Mathlib.Nat.{pow-suc}
use Prim.Native.Nat.{bit_or}
use l4_virtio_net_switch.Device.Features.{FeatureWord, NetConfig}
use l4_virtio_net_switch.Factory.{default_settings}
use l4_virtio_net_switch.Factory.Configuration.{Configured, device-Configured}
use l4_virtio_net_switch.Prelude.Int.{pos}
use l4_virtio_net_switch.Buffer.{of_desc}
use l4_virtio_net_switch.Request.{Request}
use l4_virtio_net_switch.Request.Dump.{Shows, dump_request, dump_request-Shows}
use l4_virtio_net_switch.Options.{size, verbose}
use l4_virtio_net_switch.Options.Verbosity.{
  of_component, level_names, is_active-set_verbosity_string,
}
use l4_virtio_net_switch.Options.{set_verbosity_string}
use l4_virtio_net_switch.Debug.{is_active}
use l4_virtio_net_switch.Server.Main.{RunsWell, main, main-RunsWell}
use l4_virtio_net_switch.Tests.Delivery.{header}
use l4_virtio_net_switch.Tests.Events.{plain_parser}

bit-le : (i a : ℕ) → bit i a ≤ 1
bit-le zero a = omega arith
bit-le (suc i) a = bit-le i (a / 2)

bit-none : (i : ℕ) → bit i 0 ≡ 0
bit-none zero = refl
bit-none (suc i) = bit-none i

bit-other : (i b : ℕ) → (i == b) ≡ false → bit i (2 ^ b) ≡ 0
bit-other zero zero e = absurd (ground arith)
bit-other zero (suc b) e = omega (arith, pow-suc 2 b)
bit-other (suc i) zero e = bit-none i
bit-other (suc i) (suc b) e =
    let half : 2 ^ suc b / 2 ≡ 2 ^ b = omega (arith, pow-suc 2 b) in
    rw half (bit-other i b (ground arith))

abbrev test : ℕ → ℕ → Bool
test i raw = bit i raw == 1

abbrev assign : ℕ → ℕ → ℕ
assign b raw = bit_or raw (2 ^ b)

test-assign : (i b raw : ℕ) → test i (assign b raw) ≡ ((i == b) || test i raw)
test-assign i b raw = elim (Bool-cases (i == b)) [
  | inl e ↦
      let one : bit i (2 ^ b) ≡ 1 = rw ((==_iff i b).0 e) (bit-two_pow b) in
      ground (arith, bit-bit_or i raw (2 ^ b), bit-le i raw)
  | inr e ↦ ground (arith, bit-bit_or i raw (2 ^ b), bit-other i b e)
]

abbrev words : FeatureWord
words = record {
  set_bit = assign;
  test_bit = test;
  set_host_feature = λ n ws w. if w == n / 32 then assign (n % 32) (ws w) else ws w;
  ring_indirect_desc = 28;
  version_1 = 32;
  test-zero = λ i. rw (bit-none i) refl;
  test-set_bit = test-assign;
  test-set_host_feature = λ n ws w i lt. elim (Bool-cases (w == n / 32)) [
    | inl e ↦ rw e (test-assign i (n % 32) (ws w))
    | inr e ↦ rw e refl
  ];
  above = omega arith;
  next_word = omega arith;
}

abbrev unset : NetConfig
unset = record { host_features = λ _. 0; config_mac = 0 ∷ 0 ∷ 0 ∷ 0 ∷ 0 ∷ 0 ∷ [] }

device-Configured_example : Configured plain_parser true words unset default_settings 3
device-Configured_example = device-Configured plain_parser true words unset default_settings 3

-- "port=debug": the component 2 shows debug messages, the component 5 does as before.
is_active-set_verbosity_string_example :
    is_active 2 (2 ^ 2) (set_verbosity_string (of_component 2 (get_or level_names 3 [])) 0x111111)
    ≡ (if 2 == 2 then ltb 2 3 else is_active 2 (2 ^ 2) 0x111111)
is_active-set_verbosity_string_example =
    is_active-set_verbosity_string 2 2 3 2 0x111111 (omega arith) (omega arith) (omega arith)
      (omega arith)

abbrev short : Request
short = record { head = 3; header = header; pkt = of_desc (1 ∷ 2 ∷ 3 ∷ []); more = [] }

dump_request-Shows_example : Shows 0xffffff short (dump_request 0xffffff short)
dump_request-Shows_example = dump_request-Shows 0xffffff short (unfold of_desc in omega arith)

main-RunsWell_example :
    RunsWell
      (λ _. pos 64)
      (λ _. true)
      (main (λ _. pos 64) (λ _. true) none true (size [] ∷ verbose ∷ []) 0)
main-RunsWell_example = main-RunsWell (λ _. pos 64) (λ _. true) true (size [] ∷ verbose ∷ []) 0
