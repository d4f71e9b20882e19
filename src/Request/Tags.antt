-- ===== src/Request/Tags.antt =====
-- server/switch/request.h and vlan.h: the VLAN that a request is read as, of a packet that got a tag.
use l4_virtio_net_switch.Prelude.{
  ℕ, ◌+◌, ◌%◌, ◌^◌, ◌<◌, ◌≡◌, refl, ◌∙◌, ◌==◌, true, false, List, ◌∷◌, arith, ap, Bool, not, ◌||◌,
  ◌&&◌, if◌then◌else◌, ltb, length, get_or,
}
use l4_virtio_net_switch.Prelude.Bits.{bit_or_high, bit_and_mask, ◌<<<◌, ◌>>>◌, u8}
use Prim.Native.Nat.{bit_or, bit_and}
use l4_virtio_net_switch.Vlan.{add}
use l4_virtio_net_switch.Vlan.Pending.{pending, tag_pending}
use l4_virtio_net_switch.Request.{Request, has_vlan, vlan_id}

word :
    (tci : ℕ)
    → tci < 2 ^ 12
    → bit_and (bit_or (u8 (tci >>> 8) <<< 8) (u8 (bit_and tci 0xff))) 0xfff ≡ tci
word tci h =
    let lo : u8 (bit_and tci 0xff) ≡ tci % 2 ^ 8 = omega (arith, bit_and_mask 8 tci) in
    let w : bit_or (u8 (tci >>> 8) <<< 8) (u8 (bit_and tci 0xff)) ≡ tci =
      bit_or_high 8 (u8 (tci >>> 8)) (u8 (bit_and tci 0xff)) (omega arith) ∙ omega (arith, lo) in
    ap (λ t. bit_and t 0xfff) w ∙ bit_and_mask 12 tci ∙ omega arith

tagged :
    (m : Bool) (n k x y : ℕ)
    → m ≡ true
    → n ≡ 17 + k
    → x ≡ 0x81
    → y ≡ 0
    → (if not m || ltb n 14 then false else x == 0x81 && y == 0) ≡ true
tagged m n k x y em en ex ey = ground arith

read :
    (b : Bool) (n k w : ℕ) (v : ℕ)
    → b ≡ true
    → n ≡ 17 + k
    → (if not b || ltb n 16 then w else v) ≡ v
read b n k w v eb en = ground arith

-- A packet that got the tag of a VLAN other than 0 and below 4096, behind two MAC addresses and
-- before at least one byte, is read as tagged with that VLAN's id if its buffer is mapped and holds
-- all of it.
pub vlan_id-add :
    (r : Request) (tci : ℕ) (a0 a1 a2 a3 a4 a5 b0 b1 b2 b3 b4 b5 x : ℕ) (xs : List ℕ)
    → (tci == 0) ≡ false
    → tci < 2 ^ 12
    → r.pkt.mapped ≡ true
    → r.pkt.ahead
      ≡ pending (add tci) (a0 ∷ a1 ∷ a2 ∷ a3 ∷ a4 ∷ a5 ∷ b0 ∷ b1 ∷ b2 ∷ b3 ∷ b4 ∷ b5 ∷ x ∷ xs)
    → (has_vlan r ≡ true) × (vlan_id r ≡ tci)
unfolding has_vlan vlan_id pending tag_pending add
vlan_id-add r tci a0 a1 a2 a3 a4 a5 b0 b1 b2 b3 b4 b5 x xs ne lt m e =
    let e' : r.pkt.ahead
        ≡ a0
          ∷ a1
          ∷ a2
          ∷ a3
          ∷ a4
          ∷ a5
          ∷ b0
          ∷ b1
          ∷ b2
          ∷ b3
          ∷ b4
          ∷ b5
          ∷ 0x81
          ∷ 0
          ∷ u8 (tci >>> 8)
          ∷ u8 (bit_and tci 0xff)
          ∷ x
          ∷ xs =
      e ∙ rw ne refl in
    let long : length r.pkt.ahead ≡ 17 + length xs = ap length e' ∙ omega arith in
    let t12 : get_or r.pkt.ahead 12 0 ≡ 0x81 = ap (λ l. get_or l 12 0) e' in
    let t13 : get_or r.pkt.ahead 13 0 ≡ 0 = ap (λ l. get_or l 13 0) e' in
    let t14 : get_or r.pkt.ahead 14 0 ≡ u8 (tci >>> 8) = ap (λ l. get_or l 14 0) e' in
    let t15 : get_or r.pkt.ahead 15 0 ≡ u8 (bit_and tci 0xff) = ap (λ l. get_or l 15 0) e' in
    let has : has_vlan r ≡ true =
      tagged r.pkt.mapped (length r.pkt.ahead) (length xs) _ _ m long t12 t13 in
    (
      has,
      read (has_vlan r) (length r.pkt.ahead) (length xs) _ _ has long ∙ rw (t14, t15) (word tci lt),
    )
