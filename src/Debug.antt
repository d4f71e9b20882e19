-- ===== src/Debug.antt =====
-- server/switch/debug.h: which messages are shown. `level` is an `unsigned long` of 64 bits.
pub mod Fields
pub mod Levels
use l4_virtio_net_switch.Prelude.{ℕ, zero, suc, ◌-◌, ◌*◌, ◌%◌, ◌^◌, Bool, not, ◌==◌}
use l4_virtio_net_switch.Prelude.Bits.{◌<<<◌}
use Prim.Native.Nat.{bit_and, bit_or}

abbrev pub verbosity_shift : ℕ
verbosity_shift = 4

abbrev pub verbosity_mask : ℕ
verbosity_mask = 15

abbrev pub quiet : ℕ
quiet = 0

abbrev pub warn : ℕ
warn = 1

abbrev pub info : ℕ
info = 2

abbrev pub debug : ℕ
debug = 4

abbrev pub trace : ℕ
trace = 8

abbrev pub core : ℕ
core = 0

abbrev pub request : ℕ
request = 3

abbrev pub packet : ℕ
packet = 5

abbrev pub max_component : ℕ
max_component = 6

-- `~x` on 64 bits.
abbrev pub complement : ℕ → ℕ
complement x = 2 ^ 64 - 1 - x

-- Both return the new `level`.
unfoldable pub set_component : ℕ → ℕ → ℕ → ℕ
set_component c mask level =
    bit_or (bit_and level (complement (verbosity_mask <<< (verbosity_shift * c))))
      (bit_and mask verbosity_mask <<< (verbosity_shift * c))

-- The loop from a component on, for so many of them.
unfoldable pub set_from : ℕ → ℕ → ℕ → ℕ → ℕ
set_from zero c mask level = level
set_from (suc n) c mask level = set_from n (suc c) mask (set_component c mask level)

-- `unsigned mask`.
unfoldable pub set_verbosity : ℕ → ℕ → ℕ
unfolding set_from
set_verbosity mask level = set_from max_component 0 (mask % 2 ^ 32) level

unfoldable pub is_active : ℕ → ℕ → ℕ → Bool
is_active c mask level =
    not (bit_and level (bit_and mask verbosity_mask <<< (verbosity_shift * c)) == 0)
