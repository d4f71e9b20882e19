-- ===== src/Vlan/Progress.antt =====
-- server/switch/vlan.h: how far a call of `copy_pkt` gets.
use l4_virtio_net_switch.Prelude.{
  ℕ, zero, suc, ◌+◌, ◌-◌, ◌≤◌, ◌<◌, ◌≡◌, ◌≢◌, refl, ap, min, false, ◌++◌, arith, inl, inr,
  Bool-cases, ◌==◌, List, [], length, take, drop, length-take, length-drop, length-append,
}
use l4_virtio_net_switch.Prelude.Int.{ℤ, pos, negsuc, pos_part, neg_part, ◌+ℤ◌, ◌-ℤ◌}
use l4_virtio_net_switch.Buffer.{Buffer, DataBuffer}
use l4_virtio_net_switch.Vlan.{
  Mangle, Copied, tag, pass_through, copy_macs, add_tag, remove_tag, behind_macs, copy_pkt,
}
use l4_virtio_net_switch.Vlan.Pending.{
  InRange, tag_part, skip-write, ahead-skip-write, Conserves, copy_pkt-Conserves,
}

-- What a source with `n` bytes left and the rest of a tag still ask for.
abbrev pub to_do : Mangle → ℕ → ℕ
to_do m n = n + pos_part m.tag_remaining

pub record Steps (m : Mangle) (dst src : Buffer) (c : Copied) : Type 0 where
  pub range : InRange c.mangle
  pub same_tci : c.mangle.tci ≡ m.tci
  pub wrote : length c.dst.behind ≡ length dst.behind + c.ret
  pub room : length c.dst.ahead + c.ret ≡ length dst.ahead
  pub source : length c.src.ahead ≤ length src.ahead
  pub kept : to_do c.mangle (length c.src.ahead) ≤ to_do m (length src.ahead)
  pub progress :
      0 < length src.ahead
      → 0 < length dst.ahead
      → to_do c.mangle (length c.src.ahead) < to_do m (length src.ahead)

pos_minus :
    (t n : ℕ) → n ≤ t → (pos_part (pos t -ℤ pos n) ≡ t - n) × (neg_part (pos t -ℤ pos n) ≡ 0)
unfolding ◌-ℤ◌
pos_minus t n h = ground arith

neg_plus :
    (t n : ℕ)
    → n ≤ suc t
    → (pos_part (negsuc t +ℤ pos n) ≡ 0) × (neg_part (negsuc t +ℤ pos n) ≡ suc t - n)
unfolding ◌+ℤ◌
neg_plus t n h = ground arith

module _ (db : DataBuffer) (m : Mangle) (dst src : Buffer) (v : InRange m) where
  moved :
      (k : ℕ)
      → k ≤ length src.ahead
      → k ≤ length dst.ahead
      → (length (dst.behind ++ take k src.ahead) ≡ length dst.behind + k)
        × (length (drop k dst.ahead) + k ≡ length dst.ahead)
        × (length (drop k src.ahead) + k ≡ length src.ahead)
  moved k hs hd = omega (
    arith,
    length-append {0} dst.behind (take k src.ahead),
    length-take {0} k src.ahead,
    length-drop {0} k dst.ahead,
    length-drop {0} k src.ahead,
  )

  pass_through-Steps : Steps m dst src (pass_through db m dst src)
  unfolding pass_through
  pass_through-Steps =
      let k = min (length src.ahead) (length dst.ahead) in
      rw db.copy_all_lem
        (omega (arith, v.macs, v.adds, v.removes, moved k (omega arith) (omega arith)))

  copy_macs-Steps : (m.mac_remaining == 0) ≡ false → Steps m dst src (copy_macs db m dst src)
  unfolding copy_macs
  copy_macs-Steps some =
      let k = min (min (length src.ahead) (length dst.ahead)) m.mac_remaining in
      let pos : m.mac_remaining ≢ 0 = ground arith in
      rw db.copy_to_lem
        (omega (arith, v.macs, v.adds, v.removes, pos, moved k (omega arith) (omega arith)))

  remove_tag-Steps :
      (t : ℕ) → m.tag_remaining ≡ negsuc t → Steps m dst src (remove_tag db m dst src)
  unfolding remove_tag
  remove_tag-Steps t e =
      let k = min (length src.ahead) (suc t) in
      rw (db.skip_lem, e)
        (omega (
          arith,
          v.macs,
          v.adds,
          v.removes,
          length-drop {0} k src.ahead,
          neg_plus t k (omega arith),
          ap pos_part e,
          ap neg_part e,
        ))

  add_tag-Steps : (t : ℕ) → m.tag_remaining ≡ pos (suc t) → Steps m dst src (add_tag db m dst src)
  unfolding add_tag
  add_tag-Steps t e =
      let n = min (suc t) (length dst.ahead) in
      let four : suc t ≤ 4 = omega (arith, ap pos_part e, v.adds) in
      let bytes = take n (drop (4 - suc t) (tag m.tci)) in
      let len = tag_part m.tci n (suc t) (omega arith) four in
      rw (e, skip-write db dst bytes n len, ahead-skip-write db dst bytes n len)
        (omega (
          arith,
          v.macs,
          four,
          len,
          length-append {0} dst.behind bytes,
          length-drop {0} (length bytes) dst.ahead,
          pos_minus (suc t) n (omega arith),
          ap pos_part e,
          ap neg_part e,
        ))

  behind_macs-Steps : (z : ℤ) → m.tag_remaining ≡ z → Steps m dst src (behind_macs db m dst src)
  behind_macs-Steps (pos zero) e =
      let branch : behind_macs db m dst src ≡ pass_through db m dst src =
        unfold behind_macs in ground arith in
      rw branch pass_through-Steps
  behind_macs-Steps (pos (suc t)) e =
      let branch : behind_macs db m dst src ≡ add_tag db m dst src =
        unfold behind_macs in ground arith in
      rw branch (add_tag-Steps t e)
  behind_macs-Steps (negsuc t) e =
      let branch : behind_macs db m dst src ≡ remove_tag db m dst src =
        unfold behind_macs in ground arith in
      rw branch (remove_tag-Steps t e)

  -- A call returns the number of bytes that it appended to the destination, writes no further than
  -- its end, keeps the counters in range, and leaves less to do if neither buffer was at its end.
  pub copy_pkt-Steps : Steps m dst src (copy_pkt db m dst src)
  unfolding copy_pkt
  copy_pkt-Steps = elim (Bool-cases (m.tci == 0)) [
    | inl t ↦ rw t pass_through-Steps
    | inr ne ↦ elim (Bool-cases (m.mac_remaining == 0)) [
      | inr some ↦ rw (ne, some) (copy_macs-Steps some)
      | inl none ↦ rw (ne, none) (behind_macs-Steps m.tag_remaining refl)
    ]
  ]

-- Where anything is left to write, a call of `copy_pkt` appends to the destination the next bytes of
-- what was to be written, as many as it returns, and no more than there is room for. If neither
-- buffer is at its end, fewer bytes of the source and of a new tag are left than before.
pub copy_pkt-Copies :
    (db : DataBuffer) (m : Mangle) (dst src : Buffer) (rest : List ℕ) (v : InRange m)
    → src.ahead ++ rest ≢ []
    → Conserves db m dst src rest v (copy_pkt db m dst src)
      × Steps m dst src (copy_pkt db m dst src)
copy_pkt-Copies db m dst src rest v more =
    (copy_pkt-Conserves db m dst src rest v more, copy_pkt-Steps db m dst src v)
