-- ===== src/Transfer/Content/Rounds.antt =====
-- server/switch/transfer.h: the invariant of a transfer in the parts of a round.
use l4_virtio_net_switch.Prelude.{
  ℕ, ◌≤◌, ◌≡◌, ◌≢◌, refl, sym, ap, ◌∙◌, none, some, List, [], ◌∷◌, ◌++◌, arith, inl, inr,
  Bool-cases, List-cases, length, drop, length-append, drop-append_le, append_assoc,
}
use l4_virtio_net_switch.Buffer.{DataBuffer, of_desc}
use l4_virtio_net_switch.Vlan.{Mangle, Hdr, copy_pkt, hdr_size, rewrite_hdr}
use l4_virtio_net_switch.Vlan.Pending.{pending, copy_pkt-Conserves}
use l4_virtio_net_switch.Vlan.Progress.{copy_pkt-Steps}
use l4_virtio_net_switch.Transfer.{Transfer, next_src, copy}
use l4_virtio_net_switch.Transfer.Content.{concat, content, NoneEmpty, out, Started, Inv}

append-nil_left : (xs ys : List ℕ) → xs ++ ys ≡ [] → xs ≡ []
append-nil_left [] ys e = refl
append-nil_left (x ∷ xs) ys e = cc

module _ (db : DataBuffer) (packet : List ℕ) (hdr : Hdr) where
  -- The source has come to its end.
  pub next_src-none : (s : Transfer) → next_src db s ≡ none → (s.src.ahead ≡ []) × (s.src_more ≡ [])
  unfolding next_src
  next_src-none s e = ground (arith, db.done_lem s.src)

  abbrev loaded : Transfer → List ℕ → List (List ℕ) → Transfer
  loaded s bytes rest = record s { src = of_desc bytes; src_more = rest }

  data SrcCase (s t : Transfer) : Type 0 where
    kept : t ≡ s → s.src.ahead ≢ [] → SrcCase s t
    loads :
        (bytes : List ℕ) (rest : List (List ℕ))
        → s.src.ahead ≡ []
        → s.src_more ≡ bytes ∷ rest
        → t ≡ loaded s bytes rest
        → SrcCase s t

  next_src_cases : (s t : Transfer) → next_src db s ≡ some t → SrcCase s t
  unfolding next_src
  next_src_cases s t e = elim (Bool-cases (db.done s.src)) [
    | inr left_over ↦ kept (ground arith) (ground (arith, db.done_lem s.src))
    | inl done ↦ elim (List-cases s.src_more) [
      | inl last ↦ absurd (ground arith)
      | inr (bytes, rest, m) ↦ loads bytes rest (ground (arith, db.done_lem s.src)) m (ground arith)
    ]
  ]

  loaded-Inv :
      (s : Transfer) (bytes : List ℕ) (rest : List (List ℕ))
      → s.src.ahead ≡ []
      → s.src_more ≡ bytes ∷ rest
      → Inv packet hdr s
      → Inv packet hdr (loaded s bytes rest) × (bytes ≢ [])
  unfolding of_desc
  loaded-Inv s bytes rest a m v =
      let f : (bytes ≢ []) × NoneEmpty rest = rw m at v.full_src in
      let e : bytes ++ concat rest ≡ s.src.ahead ++ concat s.src_more = rw (a, m) in
      (
        record {
          range = v.range;
          full_src = f.1;
          body = ap (λ l. drop hdr_size (out s) ++ pending s.mangle l) e ∙ v.body;
          rewritten = v.rewritten;
          stage = elim v.stage [
            | inl n ↦ inl (record {
              no_header = n.no_header;
              no_head = n.no_head;
              nothing = n.nothing;
              none_consumed = n.none_consumed;
              none_merged = n.none_merged;
            })
            | inr st ↦ inr (record {
              has_header = st.has_header;
              header_room = st.header_room;
              counted = st.counted;
              waiting = λ _. f.0;
            })
          ];
        },
        f.0,
      )

  -- The body of the loop finds a source that is not at its end.
  pub next_src-Inv :
      (s t : Transfer)
      → next_src db s ≡ some t
      → Inv packet hdr s
      → Inv packet hdr t × (t.src.ahead ≢ [])
  next_src-Inv s t e v = elim (next_src_cases s t e) [
    | kept same ne ↦ rw same (v, ne)
    | loads bytes rest a m same ↦ rw same (unfold of_desc in loaded-Inv s bytes rest a m v)
  ]

  same_rewrite : (m n : Mangle) (h : Hdr) → m.tci ≡ n.tci → rewrite_hdr m h ≡ rewrite_hdr n h
  unfolding rewrite_hdr
  same_rewrite m n h e = rw e

  -- A call of `copy_pkt` moves bytes from what is to be written to what is written.
  pub copy-Inv :
      (t : Transfer) (h : ℕ)
      → Inv packet hdr t
      → Started hdr t
      → t.dst_head ≡ some h
      → t.src.ahead ≢ []
      → Inv packet hdr (copy db t)
  unfolding copy
  copy-Inv t h v st open_head ne =
      let rest = concat t.src_more in
      let c = copy_pkt db t.mangle t.dst t.src in
      let w = copy_pkt-Steps db t.mangle t.dst t.src v.range in
      let more : t.src.ahead ++ rest ≢ [] = λ e. ne (append-nil_left t.src.ahead rest e) in
      let longer : hdr_size ≤ length (content t.memory ++ c.dst.behind) = omega (
        arith,
        st.header_room,
        w.wrote,
        length-append {0} (content t.memory) c.dst.behind,
        length-append {0} (content t.memory) t.dst.behind,
      ) in
      record {
        range = w.range;
        full_src = v.full_src;
        body =
            sym (drop-append_le hdr_size (content t.memory ++ c.dst.behind) _ longer)
            ∙ ap (drop hdr_size) (
                append_assoc (content t.memory) c.dst.behind _
                ∙ ap (λ l. content t.memory ++ l)
                    (copy_pkt-Conserves db t.mangle t.dst t.src rest v.range more)
                ∙ sym (append_assoc (content t.memory) t.dst.behind _))
            ∙ drop-append_le hdr_size (out t) _ st.header_room
            ∙ v.body;
        rewritten = same_rewrite c.mangle t.mangle t.header w.same_tci ∙ v.rewritten;
        stage = inr (record {
          has_header = st.has_header;
          header_room = longer;
          counted = st.counted;
          waiting = λ closed. cc;
        });
      }
