-- ===== src/Tests.antt =====
-- Concrete runs: each theorem with conditions at an input where they hold.
pub mod Delivery
pub mod Events
pub mod Forwarding
pub mod Configuration
use native.Mathlib.Omega.{arith}
use l4_virtio_net_switch.Prelude.{
  ℕ, ◌<◌, ◌≡◌, ◌≢◌, ◌↔◌, refl, Bool, true, false, not, ◌&&◌, ◌||◌, Option, none, some, is_some,
  List, [], ◌∷◌, ◌++◌, ◌==◌, ◌^◌, ◌%◌, if◌then◌else◌, length, take, drop, min, map, points_to,
}
use l4_virtio_net_switch.Prelude.OrdMap.{find, insert}
use l4_virtio_net_switch.Buffer.{Buffer, DataBuffer, of_desc}
use l4_virtio_net_switch.MacAddr.{of_bytes, print, is_broadcast, is_unknown}
use l4_virtio_net_switch.MacAddr.Octets.{
  Octets, bytes, IsOctets, print-of_bytes, is_broadcast-of_bytes, is_unknown-of_bytes,
}
use l4_virtio_net_switch.MacTable.{MacTable, init, learn, learn_new, flush, lookup}
use l4_virtio_net_switch.MacTable.Inv.{Inv, init-Inv}
use l4_virtio_net_switch.MacTable.Learn.{old, learn-Inv, lookup-learn}
use l4_virtio_net_switch.MacTable.Flush.{flush-Inv, lookup-flush}
use l4_virtio_net_switch.MacTable.Ages.{
  ages, without_first, without_port, ages-learn_new, ages-flush,
}
use l4_virtio_net_switch.Vlan.{
  Mangle, Hdr, add, remove, copy_pkt, rewrite_hdr, vlan_valid_id, vlan_id_trunk,
}
use l4_virtio_net_switch.Vlan.Pending.{InRange, pending, Conserves}
use l4_virtio_net_switch.Vlan.Progress.{Steps, copy_pkt-Copies}

-- A buffer that does what the documentation says.
abbrev pub plain_buffer : DataBuffer
plain_buffer = record {
  done = λ b. length b.ahead == 0;
  skip = λ b n. (
    min (length b.ahead) n,
    record b {
      behind = b.behind ++ take (min (length b.ahead) n) b.ahead;
      ahead = drop (min (length b.ahead) n) b.ahead;
    },
  );
  copy_to = λ src dst n.
      let k = min (min (length src.ahead) (length dst.ahead)) n in
      (
        k,
        record src { behind = src.behind ++ take k src.ahead; ahead = drop k src.ahead },
        record dst { behind = dst.behind ++ take k src.ahead; ahead = drop k dst.ahead },
      );
  copy_all = λ src dst.
      let k = min (length src.ahead) (length dst.ahead) in
      (
        k,
        record src { behind = src.behind ++ take k src.ahead; ahead = drop k src.ahead },
        record dst { behind = dst.behind ++ take k src.ahead; ahead = drop k dst.ahead },
      );
  done_lem = λ b. refl;
  skip_lem = λ b n. refl;
  copy_to_lem = λ src dst n. refl;
  copy_all_lem = λ src dst. refl;
}

abbrev octets : Octets
octets = record { o0 = 0x52; o1 = 0x54; o2 = 0; o3 = 0x12; o4 = 0x34; o5 = 0x56 }

octets-IsOctets : IsOctets octets
octets-IsOctets = record {
  b0 = omega arith;
  b1 = omega arith;
  b2 = omega arith;
  b3 = omega arith;
  b4 = omega arith;
  b5 = omega arith;
}

print-of_bytes_example :
    (print (of_bytes (bytes octets)) ≡ bytes octets) × (of_bytes (bytes octets) < 2 ^ 48)
print-of_bytes_example = print-of_bytes octets octets-IsOctets

-- A table of two entries that has learned one address.
abbrev table : MacTable
table = learn 2 (init 2) 5 1

table-Inv : Inv 2 table
table-Inv = learn-Inv 2 (init 2) 5 1 (init-Inv 2 (omega arith))

lookup-learn_example : lookup (learn 2 table 6 3) 5 ≡ (
    if 5 == 6
    then some 3
    else if not (is_some (find 6 table.mac_table))
        && (is_some (old 2 table 6 3 table-Inv).port && (5 == (old 2 table 6 3 table-Inv).addr))
    then none
    else lookup table 5)
lookup-learn_example = lookup-learn 2 table 6 3 table-Inv 5

lookup-flush_example :
    lookup (flush table 1) 5 ≡ (if points_to (lookup table 5) 1 then none else lookup table 5)
lookup-flush_example = lookup-flush 2 table 1 table-Inv 5

is_new : find 6 table.mac_table ≡ none
unfolding learn learn_new init find insert
is_new = refl

ages-learn_new_example :
    ages (learn 2 table 6 3)
    ≡ (if is_some (old 2 table 6 3 table-Inv).port then without_first (ages table) else ages table)
      ++ ((6, 3) ∷ [])
ages-learn_new_example = ages-learn_new 2 table 6 3 table-Inv is_new

-- A packet of fourteen bytes, for a tagged network.
abbrev pub frame : List ℕ
frame = 1 ∷ 2 ∷ 3 ∷ 4 ∷ 5 ∷ 6 ∷ 7 ∷ 8 ∷ 9 ∷ 10 ∷ 11 ∷ 12 ∷ 8 ∷ 0 ∷ []

abbrev pub room : List ℕ
room = 0 ∷ 0 ∷ 0 ∷ 0 ∷ 0 ∷ 0 ∷ 0 ∷ 0 ∷ 0 ∷ 0 ∷ 0 ∷ 0 ∷ 0 ∷ 0 ∷ 0 ∷ []

pub add-InRange : InRange (add 7)
unfolding add
add-InRange = record { macs = omega arith; adds = omega arith; removes = omega arith }

copy_pkt-Copies_example :
    Conserves plain_buffer
      (add 7)
      (of_desc room)
      (of_desc frame)
      []
      add-InRange
      (copy_pkt plain_buffer (add 7) (of_desc room) (of_desc frame))
    × Steps
        (add 7)
        (of_desc room)
        (of_desc frame)
        (copy_pkt plain_buffer (add 7) (of_desc room) (of_desc frame))
copy_pkt-Copies_example =
    copy_pkt-Copies plain_buffer (add 7) (of_desc room) (of_desc frame) [] add-InRange
      (unfold of_desc in (λ e. absurd (ground arith)))
