-- ===== src/MacAddr.antt =====
-- server/switch/mac_addr.h: a MAC address is the `uint64_t` that the class wraps.
pub mod Octets
use l4_virtio_net_switch.Prelude.{ℕ, ◌*◌, ◌/◌, ◌^◌, Bool, not, List, [], ◌∷◌, ◌==◌, ltb, get_or}
use l4_virtio_net_switch.Prelude.Bits.{◌<<<◌, ◌>>>◌}
use Prim.Native.Nat.{bit_and, bit_or}

abbrev pub addr_length : ℕ
addr_length = 6

abbrev pub addr_unknown : ℕ
addr_unknown = 0

-- `Mac_addr(char const *)`: the first byte on the wire becomes the least significant one. Only
-- called where six bytes are there, so the default of a read past the end is never used.
unfoldable pub of_bytes : List ℕ → ℕ
of_bytes src =
    bit_or
      (bit_or
        (bit_or (bit_or (bit_or (get_or src 0 0) (get_or src 1 0 <<< 8)) (get_or src 2 0 <<< 16))
          (get_or src 3 0 <<< 24))
        (get_or src 4 0 <<< 32))
      (get_or src 5 0 <<< 40)

unfoldable pub is_broadcast : ℕ → Bool
is_broadcast mac = not (bit_and mac 1 == 0)

unfoldable pub is_unknown : ℕ → Bool
is_unknown mac = mac == addr_unknown

-- `operator ==` and `operator <`, by which `std::map` orders its keys.
abbrev pub eq : ℕ → ℕ → Bool
eq a b = a == b

abbrev pub lt : ℕ → ℕ → Bool
lt a b = ltb a b

-- The numbers that `print` hands to the format, in order.
unfoldable pub print : ℕ → List ℕ
print mac =
    bit_and mac 0xff
    ∷ bit_and (mac >>> 8) 0xff
    ∷ bit_and (mac >>> 16) 0xff
    ∷ bit_and (mac >>> 24) 0xff
    ∷ bit_and (mac >>> 32) 0xff
    ∷ bit_and (mac >>> 40) 0xff
    ∷ []
