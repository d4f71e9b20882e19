-- ===== src/Vlan/Pending.antt =====
-- server/switch/vlan.h: what `copy_pkt` still has to write.
use l4_virtio_net_switch.Prelude.{
  ℕ, zero, suc, ◌+◌, ◌-◌, ◌^◌, ◌≤◌, ◌≡◌, ◌≢◌, refl, ap, ◌∙◌, min, false, List, [], ◌∷◌, ◌++◌, arith,
  inl, inr, Bool-cases, ◌==◌, ==_iff, if◌then◌else◌, length, take, drop, take_split, drop_split,
  take_all, drop_all, take-append_le, drop-append_le, take-append_self, drop-append_self,
  append_regroup, take-append-drop, length-take, length-drop, length-append,
}
use l4_virtio_net_switch.Prelude.Int.{ℤ, pos, negsuc, pos_part, neg_part, ◌+ℤ◌, ◌-ℤ◌}
use l4_virtio_net_switch.Prelude.Bits.{u8}
use l4_virtio_net_switch.Buffer.{Buffer, DataBuffer, write}
use l4_virtio_net_switch.Vlan.{
  Mangle, Copied, tag, pass_through, copy_macs, add_tag, remove_tag, behind_macs, copy_pkt,
}

-- The values that the constructors and `copy_pkt` give to the fields.
pub record InRange (m : Mangle) : Type 0 where
  pub macs : m.mac_remaining ≤ 12
  pub adds : pos_part m.tag_remaining ≤ 4
  pub removes : neg_part m.tag_remaining ≤ 4

-- Behind the MAC addresses: the rest of a tag and the bytes, or the bytes less the rest of a tag.
-- The loop that copies stops with the source, so where nothing follows no tag is written.
unfoldable pub tag_pending : ℕ → ℤ → List ℕ → List ℕ
tag_pending tci (pos t) [] = []
tag_pending tci (pos t) (x ∷ xs) = drop (4 - t) (tag tci) ++ x ∷ xs
tag_pending tci (negsuc t) xs = drop (suc t) xs

-- The bytes that are still to be written, of a source that still has `xs`.
unfoldable pub pending : Mangle → List ℕ → List ℕ
pending m xs =
    if m.tci == 0
    then xs
    else take m.mac_remaining xs ++ tag_pending m.tci m.tag_remaining (drop m.mac_remaining xs)

tag_pending-zero : (tci : ℕ) (xs : List ℕ) → tag_pending tci (pos 0) xs ≡ xs
unfolding tag_pending
tag_pending-zero tci [] = refl
tag_pending-zero tci (x ∷ xs) = refl

-- At the end of the source there is nothing left to write.
tag_pending-nil : (tci : ℕ) (z : ℤ) → tag_pending tci z [] ≡ []
unfolding tag_pending
tag_pending-nil tci (pos t) = refl
tag_pending-nil tci (negsuc t) = refl

pub pending-nil : (m : Mangle) → pending m [] ≡ []
unfolding pending
pending-nil m =
    let t = take_all {0} {A = ℕ} m.mac_remaining [] (omega arith) in
    let d = drop_all {0} {A = ℕ} m.mac_remaining [] (omega arith) in
    ground (arith, t, d, tag_pending-nil m.tci m.tag_remaining)

-- `k` bytes go from the source to the destination.
moved_through :
    (b a rest : List ℕ) (k : ℕ) → (b ++ take k a) ++ (drop k a ++ rest) ≡ b ++ (a ++ rest)
moved_through b a rest k =
    append_regroup b (take k a) (drop k a) rest ∙ ap (λ l. b ++ (l ++ rest)) (take-append-drop k a)

moved_macs :
    (b a rest : List ℕ) (k r : ℕ) (f : List ℕ → List ℕ)
    → k ≤ length a
    → (b ++ take k a) ++ (take r (drop k a ++ rest) ++ f (drop r (drop k a ++ rest)))
      ≡ b ++ (take (k + r) (a ++ rest) ++ f (drop (k + r) (a ++ rest)))
moved_macs b a rest k r f h =
    rw
      (
        take_split k r (a ++ rest),
        drop_split k r (a ++ rest),
        take-append_le k a rest h,
        drop-append_le k a rest h,
      )
      (append_regroup b (take k a) (take r (drop k a ++ rest)) (f (drop r (drop k a ++ rest))))

pos_less : (t n : ℕ) → n ≤ t → pos t -ℤ pos n ≡ pos (t - n)
unfolding ◌-ℤ◌
pos_less t n h = ground arith

pub tag_part : (tci n t : ℕ) → n ≤ t → t ≤ 4 → n ≡ length (take n (drop (4 - t) (tag tci)))
tag_part tci n t h lt =
    omega (arith, length-take {0} n (drop (4 - t) (tag tci)), length-drop {0} (4 - t) (tag tci))

-- A part of the tag goes to the destination.
moved_tag :
    (b xs : List ℕ) (tci n t : ℕ)
    → n ≤ t
    → t ≤ 4
    → xs ≢ []
    → (b ++ take n (drop (4 - t) (tag tci))) ++ tag_pending tci (pos (t - n)) xs
      ≡ b ++ tag_pending tci (pos t) xs
unfolding tag_pending
moved_tag b [] tci n t h lt ne = absurd (ne refl)
moved_tag b (x ∷ xs) tci n t h lt ne =
    let e : 4 - (t - n) ≡ 4 - t + n = omega arith in
    rw (e, drop_split (4 - t) n (tag tci))
      (append_regroup b (take n (drop (4 - t) (tag tci))) (drop n (drop (4 - t) (tag tci))) (x ∷ xs)
        ∙ ap (λ l. b ++ (l ++ (x ∷ xs))) (take-append-drop n (drop (4 - t) (tag tci))))

-- A part of the tag of the source is skipped.
skipped_tag :
    (a rest : List ℕ) (tci k t : ℕ)
    → k ≤ length a
    → k ≤ suc t
    → tag_pending tci (negsuc t +ℤ pos k) (drop k a ++ rest)
      ≡ tag_pending tci (negsuc t) (a ++ rest)
unfolding tag_pending ◌+ℤ◌
skipped_tag a rest tci k t ha ht = elim (Bool-cases (k == suc t)) [
  | inl all ↦
      let e : negsuc t +ℤ pos k ≡ pos 0 = ground arith in
      let same : k ≡ suc t = ground arith in
      rw (e, tag_pending-zero, ← drop-append_le k a rest ha) (ap (λ n. drop n (a ++ rest)) same)
  | inr some ↦
      let e : negsuc t +ℤ pos k ≡ negsuc (t - k) = ground arith in
      let parts : k + suc (t - k) ≡ suc t = ground arith in
      rw (e, ← drop-append_le k a rest ha, ← drop_split k (suc (t - k)) (a ++ rest))
        (ap (λ n. drop n (a ++ rest)) parts)
]

-- Writing at `pos` and skipping what was written.
pub skip-write :
    (db : DataBuffer) (b : Buffer) (bytes : List ℕ) (n : ℕ)
    → n ≡ length bytes
    → (db.skip (write b bytes) n).1.behind ≡ b.behind ++ bytes
unfolding write
skip-write db b bytes n e =
    let k : min (length (bytes ++ drop (length bytes) b.ahead)) (length bytes) ≡ length bytes =
      omega (arith, length-append {0} bytes (drop (length bytes) b.ahead)) in
    rw (e, db.skip_lem, k, take-append_self)

pub ahead-skip-write :
    (db : DataBuffer) (b : Buffer) (bytes : List ℕ) (n : ℕ)
    → n ≡ length bytes
    → (db.skip (write b bytes) n).1.ahead ≡ drop (length bytes) b.ahead
unfolding write
ahead-skip-write db b bytes n e =
    let k : min (length (bytes ++ drop (length bytes) b.ahead)) (length bytes) ≡ length bytes =
      omega (arith, length-append {0} bytes (drop (length bytes) b.ahead)) in
    rw (e, db.skip_lem, k, drop-append_self)

module _ (db : DataBuffer) (m : Mangle) (dst src : Buffer) (rest : List ℕ) (v : InRange m) where
  -- What was written and what is still to be written make up what was to be written.
  abbrev pub Conserves : Copied → Type 0
  Conserves c =
      c.dst.behind ++ pending c.mangle (c.src.ahead ++ rest)
      ≡ dst.behind ++ pending m (src.ahead ++ rest)

  pass_through-Conserves :
      ((xs : List ℕ) → pending m xs ≡ xs) → Conserves (pass_through db m dst src)
  unfolding pass_through
  pass_through-Conserves all =
      rw (db.copy_all_lem, all, all)
        (moved_through dst.behind src.ahead rest (min (length src.ahead) (length dst.ahead)))

  copy_macs-Conserves : (m.tci == 0) ≡ false → Conserves (copy_macs db m dst src)
  unfolding copy_macs pending
  copy_macs-Conserves t =
      let k = min (min (length src.ahead) (length dst.ahead)) m.mac_remaining in
      let left_over : u8 (m.mac_remaining + 2 ^ 32 - k) ≡ m.mac_remaining - k =
        omega (arith, v.macs) in
      let parts : k + (m.mac_remaining - k) ≡ m.mac_remaining = omega arith in
      rw (db.copy_to_lem, t, left_over)
        (moved_macs dst.behind src.ahead rest k (m.mac_remaining - k)
            (tag_pending m.tci m.tag_remaining) (omega arith)
          ∙ ap
              (λ n.
                dst.behind
                ++ (take n (src.ahead ++ rest)
                    ++ tag_pending m.tci m.tag_remaining (drop n (src.ahead ++ rest))))
              parts)

  add_tag-Conserves :
      (t : ℕ)
      → m.tag_remaining ≡ pos t
      → (m.tci == 0) ≡ false
      → m.mac_remaining ≡ 0
      → src.ahead ++ rest ≢ []
      → Conserves (add_tag db m dst src)
  unfolding add_tag pending
  add_tag-Conserves t e ne z more =
      let n = min t (length dst.ahead) in
      let four : t ≤ 4 = omega (arith, ap pos_part e, v.adds) in
      let less : pos t -ℤ pos n ≡ pos (t - n) = pos_less t n (omega arith) in
      rw
        (
          ne,
          z,
          e,
          skip-write db dst (take n (drop (4 - t) (tag m.tci))) n
              (tag_part m.tci n t (omega arith) four),
          less,
        )
        (moved_tag dst.behind (src.ahead ++ rest) m.tci n t (omega arith) four more)

  remove_tag-Conserves :
      (t : ℕ)
      → m.tag_remaining ≡ negsuc t
      → (m.tci == 0) ≡ false
      → m.mac_remaining ≡ 0
      → Conserves (remove_tag db m dst src)
  unfolding remove_tag pending
  remove_tag-Conserves t e ne z =
      rw (db.skip_lem, ne, z, e)
        (ap (λ l. dst.behind ++ l)
          (skipped_tag src.ahead rest m.tci (min (length src.ahead) (suc t)) t (omega arith)
            (omega arith)))

  pass_rest-Conserves :
      m.mac_remaining ≡ 0 → m.tag_remaining ≡ pos 0 → Conserves (pass_through db m dst src)
  pass_rest-Conserves z e = pass_through-Conserves all
    where
      all : (xs : List ℕ) → pending m xs ≡ xs
      all xs = unfold pending in rw (z, e, tag_pending-zero) (ground arith)

  behind_macs-Conserves :
      (z : ℤ)
      → m.tag_remaining ≡ z
      → (m.tci == 0) ≡ false
      → m.mac_remaining ≡ 0
      → src.ahead ++ rest ≢ []
      → Conserves (behind_macs db m dst src)
  behind_macs-Conserves (pos zero) e ne z more =
      let branch : behind_macs db m dst src ≡ pass_through db m dst src =
        unfold behind_macs in ground arith in
      rw branch (pass_rest-Conserves z e)
  behind_macs-Conserves (pos (suc t)) e ne z more =
      let branch : behind_macs db m dst src ≡ add_tag db m dst src =
        unfold behind_macs in ground arith in
      rw branch (add_tag-Conserves (suc t) e ne z more)
  behind_macs-Conserves (negsuc t) e ne z more =
      let branch : behind_macs db m dst src ≡ remove_tag db m dst src =
        unfold behind_macs in ground arith in
      rw branch (remove_tag-Conserves t e ne z)

  -- Each call writes the next bytes of what was to be written, whatever the sizes of the buffers.
  pub copy_pkt-Conserves : src.ahead ++ rest ≢ [] → Conserves (copy_pkt db m dst src)
  unfolding copy_pkt
  copy_pkt-Conserves more = elim (Bool-cases (m.tci == 0)) [
    | inl t ↦ rw t (pass_through-Conserves (λ xs. unfold pending in rw t))
    | inr ne ↦ elim (Bool-cases (m.mac_remaining == 0)) [
      | inr some ↦ rw (ne, some) (copy_macs-Conserves ne)
      | inl none ↦
          rw (ne, none)
            (behind_macs-Conserves m.tag_remaining refl ne ((==_iff m.mac_remaining 0).0 none) more)
    ]
  ]
