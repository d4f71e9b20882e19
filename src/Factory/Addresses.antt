-- ===== src/Factory/Addresses.antt =====
-- server/switch/main.cc, `op_create`: the addresses of ports that ask for none.
use l4_virtio_net_switch.Prelude.{
  ℕ, ◌/◌, ◌%◌, ◌<◌, ◌≡◌, ◌≢◌, sym, ap, ◌∙◌, Bool, true, false, arith, get_or,
}
use l4_virtio_net_switch.MacAddr.{of_bytes, print}
use l4_virtio_net_switch.MacAddr.Octets.{Octets, IsOctets, print-of_bytes}
use l4_virtio_net_switch.Factory.{default_mac}

abbrev octets : Bool → ℕ → Octets
octets true n = record { o0 = 0x02; o1 = 0x08; o2 = 0x0f; o3 = 0x2a; o4 = 0xde; o5 = 0xad }
octets false n = record {
  o0 = 0x02;
  o1 = 0x08;
  o2 = 0x0f;
  o3 = 0x2a;
  o4 = n / 256 % 256;
  o5 = n % 256;
}

print-default_mac : (b : Bool) (n : ℕ) → print (of_bytes (default_mac b n)) ≡ default_mac b n
unfolding default_mac
print-default_mac true n = (print-of_bytes (octets true n) (in_range)).0
  where
    in_range : IsOctets (octets true n)
    in_range = record {
      b0 = omega arith;
      b1 = omega arith;
      b2 = omega arith;
      b3 = omega arith;
      b4 = omega arith;
      b5 = omega arith;
    }
print-default_mac false n = (print-of_bytes (octets false n) (in_range)).0
  where
    in_range : IsOctets (octets false n)
    in_range = record {
      b0 = omega arith;
      b1 = omega arith;
      b2 = omega arith;
      b3 = omega arith;
      b4 = omega arith;
      b5 = omega arith;
    }

-- Two ports of different numbers below 0x10000 get different addresses by default, and the second
-- does not get that of a monitor port if its number is not 0xdead.
pub of_bytes-default_mac :
    (m n k : ℕ)
    → m < 0x10000
    → n < 0x10000
    → m ≢ n
    → n ≢ 0xdead
    → (of_bytes (default_mac false m) ≢ of_bytes (default_mac false n))
      × (of_bytes (default_mac true k) ≢ of_bytes (default_mac false n))
unfolding default_mac
of_bytes-default_mac m n k hm hn ne other =
    (λ e. ground (arith, fields false m e, ne), λ e. ground (arith, fields true k e, other))
  where
    fields :
        (b : Bool) (i : ℕ)
        → of_bytes (default_mac b i) ≡ of_bytes (default_mac false n)
        → (get_or (default_mac b i) 4 0 ≡ n / 256 % 256) × (get_or (default_mac b i) 5 0 ≡ n % 256)
    fields b i e =
        let same : default_mac b i ≡ default_mac false n =
          sym (print-default_mac b i) ∙ ap print e ∙ print-default_mac false n in
        (ap (λ l. get_or l 4 0) same, ap (λ l. get_or l 5 0) same)
