-- ===== src/Vlan.antt =====
-- server/switch/vlan.h: VLAN ids, and the rewriting of a packet while it is copied.
pub mod Pending
pub mod Progress
use Prim.Native.Nat.{bit_and}
use l4_virtio_net_switch.Prelude.{
  ℕ, ◌+◌, ◌-◌, ◌*◌, ◌/◌, ◌%◌, ◌^◌, min, Bool, ◌&&◌, not, List, [], ◌∷◌, ◌==◌, ltb, if◌then◌else◌,
  take, drop,
}
use l4_virtio_net_switch.Prelude.Bits.{◌>>>◌, u8, u16}
use l4_virtio_net_switch.Prelude.Int.{ℤ, pos, negsuc, pos_part, neg_part, ◌+ℤ◌, ◌-ℤ◌}
use l4_virtio_net_switch.Buffer.{Buffer, DataBuffer, left, write}

abbrev pub vlan_id_native : ℕ
vlan_id_native = 0xffff

abbrev pub vlan_id_trunk : ℕ
vlan_id_trunk = 0xfffe

unfoldable pub vlan_valid_id : ℕ → Bool
vlan_valid_id id = ltb 0 id && ltb id 0xfff

-- `Virtio_vlan_mangle`: a `uint16_t`, a `uint8_t` and an `int8_t`.
pub record Mangle : Type 0 where
  pub tci : ℕ
  pub mac_remaining : ℕ
  pub tag_remaining : ℤ

unfoldable pub untouched : Mangle
untouched = record { tci = 0; mac_remaining = 0; tag_remaining = pos 0 }

unfoldable pub add : ℕ → Mangle
add tci = record { tci = tci; mac_remaining = 12; tag_remaining = pos 4 }

unfoldable pub remove : Mangle
remove = record { tci = 0xffff; mac_remaining = 12; tag_remaining = negsuc 3 }

-- The four bytes of the tag.
abbrev pub tag : ℕ → List ℕ
tag tci = 0x81 ∷ 0x00 ∷ u8 (tci >>> 8) ∷ u8 (bit_and tci 0xff) ∷ []

-- What a call of `copy_pkt` returns, with the objects that it changed.
pub record Copied : Type 0 where
  pub ret : ℕ
  pub mangle : Mangle
  pub dst : Buffer
  pub src : Buffer

-- The header of a packet, `Virtio_net::Hdr` of server/switch/virtio_net.h.
pub record Hdr : Type 0 where
  pub flags : ℕ
  pub gso_type : ℕ
  pub hdr_len : ℕ
  pub gso_size : ℕ
  pub csum_start : ℕ
  pub csum_offset : ℕ
  pub num_buffers : ℕ

-- `sizeof(Virtio_net::Hdr)`: two bytes and five 16-bit words.
abbrev pub hdr_size : ℕ
hdr_size = 12

-- Bit 0 of the flags.
unfoldable pub need_csum : Hdr → Bool
need_csum h = not (bit_and h.flags 1 == 0)

unfoldable pub rewrite_hdr : Mangle → Hdr → Hdr
unfolding need_csum
rewrite_hdr m h =
    if not (m.tci == 0) && need_csum h
    then (if m.tci == 0xffff
        then record h { csum_start = u16 (h.csum_start + 2 ^ 16 - 4) }
        else record h { csum_start = u16 (h.csum_start + 4) })
    else h

module _ (db : DataBuffer) where
  open db use {skip, copy_to, copy_all}

  unfoldable pub pass_through : Mangle → Buffer → Buffer → Copied
  pass_through m dst src =
      let (n, src', dst') = copy_all src dst in
      record { ret = n; mangle = m; dst = dst'; src = src' }

  unfoldable pub copy_macs : Mangle → Buffer → Buffer → Copied
  copy_macs m dst src =
      let (n, src', dst') = copy_to src dst m.mac_remaining in
      record {
        ret = n;
        mangle = record m { mac_remaining = u8 (m.mac_remaining + 2 ^ 32 - n) };
        dst = dst';
        src = src';
      }

  -- `tag_remaining` stays within -4 and 4, so the `int8_t` does not wrap.
  unfoldable pub add_tag : Mangle → Buffer → Buffer → Copied
  add_tag m dst src =
      let n = min (pos_part m.tag_remaining) (left dst) in
      let bytes = take n (drop (4 - pos_part m.tag_remaining) (tag m.tci)) in
      record {
        ret = n;
        mangle = record m { tag_remaining = m.tag_remaining -ℤ pos n };
        dst = (skip (write dst bytes) n).1;
        src = src;
      }

  unfoldable pub remove_tag : Mangle → Buffer → Buffer → Copied
  remove_tag m dst src =
      let (n, src') = skip src (neg_part m.tag_remaining) in
      record {
        ret = 0;
        mangle = record m { tag_remaining = m.tag_remaining +ℤ pos n };
        dst = dst;
        src = src';
      }

  -- The branches of `copy_pkt` once the MAC addresses are copied.
  unfoldable pub behind_macs : Mangle → Buffer → Buffer → Copied
  behind_macs m dst src =
      if ltb 0 (pos_part m.tag_remaining)
      then add_tag m dst src
      else if ltb 0 (neg_part m.tag_remaining)
      then remove_tag m dst src
      else pass_through m dst src

  unfoldable pub copy_pkt : Mangle → Buffer → Buffer → Copied
  copy_pkt m dst src =
      if m.tci == 0
      then pass_through m dst src
      else if not (m.mac_remaining == 0)
      then copy_macs m dst src
      else behind_macs m dst src
