-- ===== src/MacAddr/Octets.antt =====
-- The octets of a MAC address and its number.
use l4_virtio_net_switch.Prelude.{
  ℕ, ◌+◌, ◌*◌, ◌/◌, ◌%◌, ◌^◌, ◌<◌, ◌≡◌, refl, true, ◌↔◌, List, [], ◌∷◌, arith,
}
use l4_virtio_net_switch.Prelude.Bits.{bit_or_fields, bit_and_mask}
use l4_virtio_net_switch.MacAddr.{of_bytes, is_broadcast, is_unknown, print}

-- Six octets as they stand in a frame.
pub record Octets : Type 0 where
  pub o0 : ℕ
  pub o1 : ℕ
  pub o2 : ℕ
  pub o3 : ℕ
  pub o4 : ℕ
  pub o5 : ℕ

abbrev pub bytes : Octets → List ℕ
bytes o = o.o0 ∷ o.o1 ∷ o.o2 ∷ o.o3 ∷ o.o4 ∷ o.o5 ∷ []

pub record IsOctets (o : Octets) : Type 0 where
  pub b0 : o.o0 < 2 ^ 8
  pub b1 : o.o1 < 2 ^ 8
  pub b2 : o.o2 < 2 ^ 8
  pub b3 : o.o3 < 2 ^ 8
  pub b4 : o.o4 < 2 ^ 8
  pub b5 : o.o5 < 2 ^ 8

of_bytes_as_sum :
    (o : Octets)
    → IsOctets o
    → of_bytes (bytes o)
      ≡ o.o0 + o.o1 * 2 ^ 8 + o.o2 * 2 ^ 16 + o.o3 * 2 ^ 24 + o.o4 * 2 ^ 32 + o.o5 * 2 ^ 40
unfolding of_bytes
of_bytes_as_sum o h =
    rw
      (
        bit_or_fields 8 o.o0 o.o1 (omega arith),
        bit_or_fields 16 (o.o0 + o.o1 * 2 ^ 8) o.o2 (omega arith),
        bit_or_fields 24 (o.o0 + o.o1 * 2 ^ 8 + o.o2 * 2 ^ 16) o.o3 (omega arith),
        bit_or_fields 32 (o.o0 + o.o1 * 2 ^ 8 + o.o2 * 2 ^ 16 + o.o3 * 2 ^ 24) o.o4 (omega arith),
        bit_or_fields 40 (o.o0 + o.o1 * 2 ^ 8 + o.o2 * 2 ^ 16 + o.o3 * 2 ^ 24 + o.o4 * 2 ^ 32) o.o5
            (omega arith),
      )
      refl

-- The bytes of a number, by division.
digits-print :
    (x : ℕ)
    → print x
      ≡ x % 256
        ∷ x / 2 ^ 8 % 256
        ∷ x / 2 ^ 16 % 256
        ∷ x / 2 ^ 24 % 256
        ∷ x / 2 ^ 32 % 256
        ∷ x / 2 ^ 40 % 256
        ∷ []
unfolding print
digits-print x =
    rw
      (
        bit_and_mask 8 x,
        bit_and_mask 8 (x / 2 ^ 8),
        bit_and_mask 8 (x / 2 ^ 16),
        bit_and_mask 8 (x / 2 ^ 24),
        bit_and_mask 8 (x / 2 ^ 32),
        bit_and_mask 8 (x / 2 ^ 40),
      )
      refl

-- Of any six octets, the address prints as those octets in the order of the wire, and fits 48 bits.
pub print-of_bytes :
    (o : Octets)
    → IsOctets o
    → (print (of_bytes (bytes o)) ≡ bytes o) × (of_bytes (bytes o) < 2 ^ 48)
print-of_bytes o h =
    rw (digits-print (of_bytes (bytes o)), of_bytes_as_sum o h) (ground arith, omega arith)

-- The multicast test looks at the lowest bit of the first octet on the wire.
pub is_broadcast-of_bytes :
    (o : Octets) → IsOctets o → (is_broadcast (of_bytes (bytes o)) ≡ true) ↔ (o.o0 % 2 ≡ 1)
unfolding is_broadcast
is_broadcast-of_bytes o h =
    rw (bit_and_mask 1 (of_bytes (bytes o)), of_bytes_as_sum o h) (ground arith)

-- Only the address of six zero octets is taken for the unknown one.
pub is_unknown-of_bytes :
    (o : Octets)
    → IsOctets o
    → (is_unknown (of_bytes (bytes o)) ≡ true) ↔ (bytes o ≡ 0 ∷ 0 ∷ 0 ∷ 0 ∷ 0 ∷ 0 ∷ [])
unfolding is_unknown
is_unknown-of_bytes o h = rw (of_bytes_as_sum o h) (ground arith, ground arith)
