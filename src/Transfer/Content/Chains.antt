-- ===== src/Transfer/Content/Chains.antt =====
-- server/switch/transfer.h: the invariant of a transfer when it takes a chain of the destination.
use l4_virtio_net_switch.Prelude.{
  ℕ, ◌+◌, ◌≤◌, ◌≡◌, ◌≢◌, refl, sym, ap, ◌∙◌, true, false, none, some, is_some, List, [], ◌∷◌, ◌++◌,
  arith, inl, inr, Bool-cases, Option-cases, ltb, length, drop, take, length-take, length-append,
  append-nil, min, drop_all,
}
use l4_virtio_net_switch.Prelude.Bits.{u16}
use l4_virtio_net_switch.Buffer.{DataBuffer, of_desc}
use l4_virtio_net_switch.Vlan.{Hdr, hdr_size, rewrite_hdr}
use l4_virtio_net_switch.Vlan.Pending.{pending}
use l4_virtio_net_switch.Transfer.{
  Chain, RxQueue, Transfer, Used, Outcome, delivered, blocked, too_small, aborted, running,
  start_header, start_chain, next_chain, get_dst, replaced, open_chain,
}
use l4_virtio_net_switch.Transfer.Content.{
  concat, content, content-append, out, NotStarted, Started, Inv,
}

module _ (db : DataBuffer) (packet : List ℕ) (hdr : Hdr) where
  -- What holds when the loop body may copy.
  pub record Ready (t : Transfer) : Type 0 where
    pub inv : Inv packet hdr t
    pub started : Started hdr t
    pub has_head : is_some t.dst_head ≡ true
    pub more : t.src.ahead ≢ []

  -- How the search for a destination can end: the queue's results stay as they were.
  abbrev pub Got : List Used → Outcome → Type 0
  Got used (running t q) = Ready t × (q.used ≡ used)
  Got used (blocked t q) = Inv packet hdr t × (t.dst_head ≡ none) × (q.used ≡ used)
  Got used (too_small t q) = (t.dst_header ≡ none) × (q.used ≡ used)
  Got used (delivered t q) = ⊥
  Got used aborted = ⊥

  content-replaced : (s : Transfer) → content (replaced db s) ≡ out s
  content-replaced s = rw (content-append s.memory (s.dst ∷ []), append-nil)

  -- The transfer when `start` has taken a chain.
  abbrev taken : Transfer → Chain → Transfer
  taken s c = record s {
    dst_head = some c.head;
    dst = of_desc c.first;
    dst_more = c.more;
    memory = replaced db s;
  }

  -- The transfer when the header stands in the first chain.
  abbrev headed : Transfer → Chain → ℕ → Transfer
  headed s c k = record s {
    dst_head = some c.head;
    dst = record { mapped = true; behind = take k c.first; ahead = drop k c.first };
    dst_more = c.more;
    memory = replaced db s;
    dst_header = some (rewrite_hdr s.mangle s.header);
    total = hdr_size;
    num_merged = u16 (s.num_merged + 1);
  }

  headed-Ready :
      (s : Transfer) (c : Chain) (k : ℕ)
      → k ≡ hdr_size
      → hdr_size ≤ length c.first
      → Inv packet hdr s
      → NotStarted s
      → s.src.ahead ≢ []
      → Ready (headed s c k)
  headed-Ready s c k e room v n ne =
      let rest = pending s.mangle (s.src.ahead ++ concat s.src_more) in
      let before : rest ≡ packet = ap (λ l. drop hdr_size l ++ rest) (sym n.nothing) ∙ v.body in
      let none_yet : content (replaced db s) ≡ [] = content-replaced s ∙ n.nothing in
      let len : length (take k c.first) ≡ hdr_size = omega (arith, length-take {0} k c.first, e) in
      let started : Started hdr (headed s c k) = record {
        has_header = ap some v.rewritten;
        header_room =
            omega (arith, len, length-append {0} (content (replaced db s)) (take k c.first));
        counted = rw (n.none_merged, n.none_consumed);
        waiting = λ closed. cc;
      } in
      record {
        inv = record {
          range = v.range;
          full_src = v.full_src;
          body =
              ap (λ l. drop hdr_size (l ++ take k c.first) ++ rest) none_yet
              ∙ ap (λ l. l ++ rest) (drop_all hdr_size (take k c.first) (omega (arith, len)))
              ∙ before;
          rewritten = v.rewritten;
          stage = inr started;
        };
        started = started;
        has_head = refl;
        more = ne;
      }

  start_header-Got :
      (s : Transfer) (c : Chain) (q : RxQueue)
      → Inv packet hdr s
      → NotStarted s
      → s.src.ahead ≢ []
      → Got q.used (start_header db (taken s c) q)
  unfolding start_header of_desc
  start_header-Got s c q v n ne = elim (Bool-cases (ltb (length c.first) hdr_size)) [
    | inl short ↦ rw short (n.no_header, refl)
    | inr room ↦
        let fits : hdr_size ≤ length c.first = ground arith in
        rw (room, db.skip_lem)
          (headed-Ready s c (min (length c.first) hdr_size) (omega arith) fits v n ne, refl)
  ]

  -- The transfer when a further chain is merged.
  abbrev merged : Transfer → Chain → Transfer
  merged s c = record (taken s c) { num_merged = u16 (s.num_merged + 1) }

  merged-Ready :
      (s : Transfer) (c : Chain)
      → Inv packet hdr s
      → Started hdr s
      → s.dst_head ≡ none
      → s.src.ahead ≢ []
      → Ready (merged s c)
  unfolding of_desc
  merged-Ready s c v st closed ne =
      let rest = pending s.mangle (s.src.ahead ++ concat s.src_more) in
      let same : content (replaced db s) ++ [] ≡ out s = append-nil _ ∙ content-replaced s in
      let count : length s.consumed + open_chain s.dst_head ≡ length s.consumed + 0 =
        ap (λ o. length s.consumed + open_chain o) closed in
      let started : Started hdr (merged s c) = record {
        has_header = st.has_header;
        header_room = omega (arith, st.header_room, ap length same);
        counted = omega (arith, st.counted, count);
        waiting = λ none_now. cc;
      } in
      record {
        inv = record {
          range = v.range;
          full_src = v.full_src;
          body = ap (λ l. drop hdr_size l ++ rest) same ∙ v.body;
          rewritten = v.rewritten;
          stage = inr started;
        };
        started = started;
        has_head = refl;
        more = ne;
      }

  start_chain-Got :
      (s : Transfer) (c : Chain) (q : RxQueue)
      → Inv packet hdr s
      → s.dst_head ≡ none
      → s.src.ahead ≢ []
      → Got q.used (start_chain db (taken s c) q)
  unfolding start_chain
  start_chain-Got s c q v closed ne = elim v.stage [
    | inl n ↦ rw (n.no_header, start_chain) (start_header-Got s c q v n ne)
    | inr st ↦ rw (st.has_header, start_chain) (merged-Ready s c v st closed ne, refl)
  ]

  next_chain-Got :
      (s : Transfer) (p : RxQueue) (cs : List Chain)
      → Inv packet hdr s
      → s.dst_head ≡ none
      → s.src.ahead ≢ []
      → Got p.used (next_chain db s p cs)
  unfolding next_chain
  next_chain-Got s p [] v closed ne = (v, closed, refl)
  next_chain-Got s p (c ∷ rest) v closed ne =
      start_chain-Got s c (record p { avail = rest }) v closed ne

  get_dst-ready :
      (s : Transfer) (p : RxQueue)
      → s.dst_head ≡ none
      → p.ready ≡ true
      → get_dst db s p ≡ next_chain db s p p.avail
  unfolding get_dst
  get_dst-ready s p e r = ground arith

  get_dst-unready :
      (s : Transfer) (p : RxQueue)
      → s.dst_head ≡ none
      → p.ready ≡ false
      → get_dst db s p ≡ blocked s p
  unfolding get_dst
  get_dst-unready s p e r = ground arith

  get_dst-open :
      (s : Transfer) (p : RxQueue) (h : ℕ) → s.dst_head ≡ some h → get_dst db s p ≡ running s p
  unfolding get_dst
  get_dst-open s p h e = ground arith

  -- An open chain is one that was started.
  open-Started : (s : Transfer) (h : ℕ) → Inv packet hdr s → s.dst_head ≡ some h → Started hdr s
  open-Started s h v e = elim v.stage [ inl n ↦ absurd (ground (arith, n.no_head)) | inr st ↦ st ]

  -- The search for a destination keeps the invariant, however it ends.
  pub get_dst-Got :
      (s : Transfer) (p : RxQueue)
      → Inv packet hdr s
      → s.src.ahead ≢ []
      → Got p.used (get_dst db s p)
  get_dst-Got s p v ne = elim (Option-cases s.dst_head) [
    | inr (h, e) ↦
        rw (get_dst-open s p h e)
          (record { inv = v; started = open-Started s h v e; has_head = rw e; more = ne }, refl)
    | inl closed ↦ elim (Bool-cases p.ready) [
      | inl r ↦ rw (get_dst-ready s p closed r) (next_chain-Got s p p.avail v closed ne)
      | inr r ↦ rw (get_dst-unready s p closed r) (v, closed, refl)
    ]
  ]
