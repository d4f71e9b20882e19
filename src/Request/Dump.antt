-- ===== src/Request/Dump.antt =====
-- server/switch/request.h, `dump_request`: what a request shows in the log. The names of the
-- protocols are constructors.
use l4_virtio_net_switch.Prelude.{
  ℕ, ◌+◌, ◌*◌, ◌<◌, ◌^◌, ◌≡◌, ◌↔◌, ap, Bool, true, false, not, ◌&&◌, ◌||◌, Option, none, some, List,
  ◌==◌, ltb, if◌then◌else◌, get_or, arith, Bool-cases, inl, inr,
}
use l4_virtio_net_switch.Prelude.Bits.{◌<<<◌, bit_or_high}
use Prim.Native.Nat.{bit_or}
use l4_virtio_net_switch.Debug.{debug, trace, is_active, request, packet}
use l4_virtio_net_switch.Buffer.{Buffer, left}
use l4_virtio_net_switch.MacAddr.{print}
use l4_virtio_net_switch.Vlan.{Hdr}
use l4_virtio_net_switch.Request.{Request, src_mac, dst_mac, has_vlan}

pub data Protocol : Type 0 where
  ipv4 : Protocol
  arp : Protocol
  vlan : Protocol
  ipv6 : Protocol
  pppoe_discovery : Protocol
  pppoe_session : Protocol
  unnamed : ℕ → Protocol

abbrev pub protocol_of : ℕ → Protocol
protocol_of ether_type =
    if ether_type == 0x0800
    then ipv4
    else if ether_type == 0x0806
    then arp
    else if ether_type == 0x8100
    then vlan
    else if ether_type == 0x86dd
    then ipv6
    else if ether_type == 0x8863
    then pppoe_discovery
    else if ether_type == 0x8864
    then pppoe_session
    else unnamed ether_type

-- The number of bytes, the header, the addresses and the protocol, as far as they are shown.
pub record Dumped : Type 0 where
  pub size : Option ℕ
  pub header : Option Hdr
  pub macs : Option (List ℕ × List ℕ)
  pub protocol : Option Protocol

-- `*(packet + i)`; `none` is a read outside of the buffer.
abbrev pub byte_at : Buffer → ℕ → Option ℕ
byte_at b i = if b.mapped && ltb i (left b) then some (get_or b.ahead i 0) else none

unfoldable pub ether_type : Buffer → Option ℕ
ether_type b = elim (byte_at b 12) [
  | none ↦ none
  | some hi ↦ elim (byte_at b 13) [ none ↦ none | some lo ↦ some (bit_or (hi <<< 8) lo) ]
]

-- `none` is a read outside of the buffer.
unfoldable pub dump_request : ℕ → Request → Option Dumped
unfolding ether_type
dump_request level r =
    let debugging = is_active request debug level in
    let size = if debugging then some (left r.pkt) else none in
    let shown = debugging && (not (r.header.flags == 0) || not (r.header.gso_type == 0)) in
    let header = if shown then some r.header else none in
    if is_active packet debug level
    then (let macs = some (print (src_mac r), print (dst_mac r)) in
        if is_active packet trace level
        then elim (ether_type r.pkt) [
          | none ↦ none
          | some t ↦ some (record {
            size = size;
            header = header;
            macs = macs;
            protocol = some (protocol_of t);
          })
        ]
        else some (record { size = size; header = header; macs = macs; protocol = none }))
    else some (record { size = size; header = header; macs = none; protocol = none })

-- The bytes that tell the protocol are in the buffer.
abbrev pub readable : Buffer → Bool
readable b = b.mapped && not (ltb (left b) 14)

abbrev pub tracing : ℕ → Bool
tracing level = is_active packet debug level && is_active packet trace level

-- What may be shown of a request: a read outside of its buffer happens exactly when the protocol is
-- asked for and the buffer is short; else the protocol is that of a tagged packet exactly when
-- `has_vlan` says so.
abbrev pub Shows : ℕ → Request → Option Dumped → Type 0
Shows level r none = (tracing level ≡ true) × (readable r.pkt ≡ false)
Shows level r (some d) =
    ((tracing level ≡ true) → readable r.pkt ≡ true)
    × ((d.protocol ≡ some vlan) ↔ ((tracing level && has_vlan r) ≡ true))

ether_type-readable :
    (b : Buffer)
    → get_or b.ahead 13 0 < 2 ^ 8
    → ether_type b
      ≡ (if readable b then some (get_or b.ahead 12 0 * 256 + get_or b.ahead 13 0) else none)
unfolding ether_type
ether_type-readable b h =
    ground (arith, bit_or_high 8 (get_or b.ahead 12 0) (get_or b.ahead 13 0) h)

protocol_of-vlan :
    (hi lo : ℕ)
    → lo < 2 ^ 8
    → (protocol_of (hi * 256 + lo) ≡ vlan) ↔ ((hi == 0x81 && lo == 0) ≡ true)
protocol_of-vlan hi lo h = (λ e. ground arith, λ e. ground arith)

-- At every level, showing a request reads outside of its first buffer exactly when the debug and the
-- trace messages on packets are shown and the buffer is not mapped or shorter than 14 bytes.
-- Otherwise the protocol shown is that of a tagged packet exactly when both are shown and `has_vlan`
-- is true. The byte at 13, if there is one, is below 256.
pub dump_request-Shows :
    (level : ℕ) (r : Request)
    → get_or r.pkt.ahead 13 0 < 2 ^ 8
    → Shows level r (dump_request level r)
unfolding dump_request has_vlan
dump_request-Shows level r h = elim (Bool-cases (is_active packet debug level)) [
  | inr e ↦
      rw (dump_request, e)
        (λ t. absurd (ground arith), (λ t. absurd (ground arith), λ t. absurd (ground arith)))
  | inl e ↦ elim (Bool-cases (is_active packet trace level)) [
    | inr f ↦
        rw (dump_request, e, f)
          (λ t. absurd (ground arith), (λ t. absurd (ground arith), λ t. absurd (ground arith)))
    | inl f ↦ elim (Bool-cases (readable r.pkt)) [
      | inr g ↦ rw (dump_request, e, f, ether_type-readable r.pkt h, g) (ground arith, g)
      | inl g ↦
          rw (dump_request, e, f, ether_type-readable r.pkt h, g)
            (
              λ t. g,
              (
                λ t. ground (arith, long g, (named h).0 (ground arith)),
                λ t. ap some ((named h).1 (ground (arith, long g))),
              ),
            )
    ]
  ]
]
  where
    long :
        readable r.pkt ≡ true
        → has_vlan r ≡ (get_or r.pkt.ahead 12 0 == 0x81 && get_or r.pkt.ahead 13 0 == 0)
    long g = ground arith

    named :
        get_or r.pkt.ahead 13 0 < 2 ^ 8
        → (protocol_of (get_or r.pkt.ahead 12 0 * 256 + get_or r.pkt.ahead 13 0) ≡ vlan)
          ↔ ((get_or r.pkt.ahead 12 0 == 0x81 && get_or r.pkt.ahead 13 0 == 0) ≡ true)
    named = protocol_of-vlan (get_or r.pkt.ahead 12 0) (get_or r.pkt.ahead 13 0)
