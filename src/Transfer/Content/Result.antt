-- ===== src/Transfer/Content/Result.antt =====
-- How a call of `transfer` ends, from any point that an earlier call may have left it at.
use l4_virtio_net_switch.Prelude.{
  ℕ, zero, suc, ◌+◌, ◌<◌, ◌≡◌, ◌⊎◌, refl, sym, ap, ◌∙◌, none, some, List, [], ◌∷◌, ◌++◌, arith, inl,
  inr, Option-cases, length, drop, length-append, append-nil,
}
use l4_virtio_net_switch.Prelude.Bits.{u16}
use l4_virtio_net_switch.Buffer.{DataBuffer, of_desc}
use l4_virtio_net_switch.Vlan.{Hdr, hdr_size}
use l4_virtio_net_switch.Vlan.Pending.{pending, pending-nil}
use l4_virtio_net_switch.Transfer.{
  RxQueue, Transfer, Used, Outcome, delivered, blocked, too_small, aborted, running, finished,
  finish, finish_transfer, finish_with, give_back, next_src, get_dst, save_chain, fill, then_fill,
  iterate, transfer_loop, transfer, work, resume, open_chain,
}
use l4_virtio_net_switch.Transfer.Work.{
  fill_cases, here, saved, next, next_dst, iterate-none, iterate-some, iterate-work,
}
use l4_virtio_net_switch.Transfer.Content.{concat, content, content-append, out, Started, Inv}
use l4_virtio_net_switch.Transfer.Content.Rounds.{next_src-none, next_src-Inv, copy-Inv}
use l4_virtio_net_switch.Transfer.Content.Chains.{Ready, Got, get_dst-Got}

module _ (db : DataBuffer) (packet : List ℕ) (hdr : Hdr) where
  save_chain-Inv : (t : Transfer) → Ready db packet hdr t → Inv packet hdr (save_chain db t)
  unfolding save_chain
  save_chain-Inv t r = elim (Option-cases t.dst_head) [
    | inl closed ↦ absurd (ground (arith, r.has_head))
    | inr (h, e) ↦
        rw (e, save_chain)
          (record {
            range = r.inv.range;
            full_src = r.inv.full_src;
            body = r.inv.body;
            rewritten = r.inv.rewritten;
            stage = inr (record {
              has_header = r.started.has_header;
              header_room = r.started.header_room;
              counted = omega (
                arith,
                r.started.counted,
                ap (λ o. length t.consumed + open_chain o) e,
                length-append {0} t.consumed ((h, t.total) ∷ []),
              );
              waiting = λ _. r.more;
            });
          })
  ]

  next_dst-Inv :
      (t : Transfer) (bytes : List ℕ) (rest : List (List ℕ))
      → Ready db packet hdr t
      → let u = next_dst db t bytes rest in Inv packet hdr u × Started hdr u
  unfolding of_desc
  next_dst-Inv t bytes rest r =
      let same : content (t.memory ++ (t.dst ∷ [])) ++ [] ≡ out t =
        append-nil _
        ∙ content-append t.memory (t.dst ∷ [])
        ∙ ap (λ l. content t.memory ++ l) (append-nil _) in
      let started : Started hdr (next_dst db t bytes rest) = record {
        has_header = r.started.has_header;
        header_room = omega (arith, r.started.header_room, ap length same);
        counted = r.started.counted;
        waiting = r.started.waiting;
      } in
      (
        record {
          range = r.inv.range;
          full_src = r.inv.full_src;
          body =
              ap (λ l. drop hdr_size l ++ pending t.mangle (t.src.ahead ++ concat t.src_more)) same
              ∙ r.inv.body;
          rewritten = r.inv.rewritten;
          stage = inr started;
        },
        started,
      )

  fill-Inv : (t : Transfer) → Ready db packet hdr t → Inv packet hdr (fill db t)
  fill-Inv t r = elim (Option-cases t.dst_head) [
    | inl closed ↦ absurd (ground (arith, r.has_head))
    | inr (h, o) ↦ elim (fill_cases db t) [
      | here room e ↦ rw e (copy-Inv db packet hdr t h r.inv r.started o r.more)
      | saved last e ↦ rw e (save_chain-Inv t r)
      | next bytes rest m e ↦
          let v = next_dst-Inv t bytes rest r in
          rw e (copy-Inv db packet hdr (next_dst db t bytes rest) h v.0 v.1 o r.more)
    ]
  ]

  -- One more result for the driver: the packet behind the header, and the number of chains.
  pub record Delivered (before after : List Used) : Type 0 where
    pub entry : Used
    pub appended : after ≡ before ++ (entry ∷ [])
    pub payload : drop hdr_size (content entry.memory) ≡ packet
    pub header : entry.header ≡ record hdr { num_buffers = u16 (length entry.heads) }

  -- How a call may end: nothing to deliver, the packet delivered, or a state to go on from; never
  -- in an assertion.
  abbrev pub Ends : List Used → Outcome → Type 0
  Ends used (delivered t q) = ((packet ≡ []) × (q.used ≡ used)) ⊎ Delivered used q.used
  Ends used (blocked t q) = Inv packet hdr t × (t.dst_head ≡ none) × (q.used ≡ used)
  Ends used (too_small t q) = (t.dst_header ≡ none) × (q.used ≡ used)
  Ends used aborted = ⊥
  Ends used (running t q) = Inv packet hdr t × (q.used ≡ used)

  content-all : (t : Transfer) → content (t.memory ++ (t.dst ∷ [])) ≡ out t
  content-all t =
      content-append t.memory (t.dst ∷ []) ∙ ap (λ l. content t.memory ++ l) (append-nil _)

  finish_with-Ends :
      (t : Transfer) (p : RxQueue) (h : ℕ) (consumed : List (ℕ × ℕ))
      → t.num_merged ≡ u16 (length consumed + 1)
      → drop hdr_size (out t) ≡ packet
      → Ends p.used (finish db (finish_with t p hdr consumed (some h)))
  unfolding finish_with
  finish_with-Ends t p h [] n e =
      let one : finish_with t p hdr [] (some h)
          ≡ give_back t p (record hdr { num_buffers = 1 }) ((h, t.total) ∷ []) =
        ground arith in
      rw one (
        inr (record {
          entry = _;
          appended = refl;
          payload = ap (drop hdr_size) (content-all t) ∙ e;
          header = refl;
        }))
  finish_with-Ends t p h (c ∷ cs) n e = inr (record {
    entry = _;
    appended = refl;
    payload = ap (drop hdr_size) (content-all t) ∙ e;
    header =
        ap (λ k. record hdr { num_buffers = k })
          (omega (arith, n, length-append {0} (c ∷ cs) ((h, t.total) ∷ [])));
  })

  finish-Ends :
      (t : Transfer) (p : RxQueue)
      → Inv packet hdr t
      → t.src.ahead ≡ []
      → t.src_more ≡ []
      → Ends p.used (finish db (finish_transfer t p))
  unfolding finish_transfer
  finish-Ends t p v a m =
      let all_read : t.src.ahead ++ concat t.src_more ≡ [] = rw (a, m) in
      let written : drop hdr_size (out t) ≡ packet =
        sym (append-nil (drop hdr_size (out t)))
        ∙ ap (λ l. drop hdr_size (out t) ++ l)
            (sym (pending-nil t.mangle) ∙ ap (pending t.mangle) (sym all_read))
        ∙ v.body in
      elim v.stage [
        | inl n ↦
            let empty : packet ≡ [] = sym written ∙ ap (drop hdr_size) n.nothing in
            let same : finish_transfer t p ≡ finished t p =
              unfold finish_transfer in ground (arith, n.no_header) in
            rw same (inl (empty, refl))
        | inr st ↦ elim (Option-cases t.dst_head) [
          | inl closed ↦ absurd (st.waiting closed a)
          | inr (h, o) ↦
              let same : finish_transfer t p ≡ finish_with t p hdr t.consumed (some h) =
                unfold finish_transfer in ground (arith, st.has_header) in
              rw same (
                finish_with-Ends t p h t.consumed
                  (omega (arith, st.counted, ap (λ x. length t.consumed + open_chain x) o)) written)
        ]
      ]

  then_fill-Ends :
      (used : List Used) (o : Outcome) → Got db packet hdr used o → Ends used (then_fill db o)
  then_fill-Ends used (running t q) (r, same) = (fill-Inv t r, same)
  then_fill-Ends used (blocked t q) g = g
  then_fill-Ends used (too_small t q) g = g
  then_fill-Ends used (delivered t q) g = absurd g
  then_fill-Ends used aborted g = absurd g

  iterate-Ends : (s : Transfer) (p : RxQueue) → Inv packet hdr s → Ends p.used (iterate db s p)
  iterate-Ends s p v = elim (Option-cases (next_src db s)) [
    | inl e ↦
        let (a, m) = next_src-none db packet hdr s e in
        rw (iterate-none db s p e) (finish-Ends s p v a m)
    | inr (s', e) ↦
        let (v', ne) = next_src-Inv db packet hdr s s' e v in
        rw (iterate-some db s s' p e)
          (then_fill-Ends p.used (get_dst db s' p) (get_dst-Got db packet hdr s' p v' ne))
  ]

  -- How a call ends: as `Ends` says, and not before the loop is over.
  abbrev pub Result : List Used → Outcome → Type 0
  Result used (delivered t q) = ((packet ≡ []) × (q.used ≡ used)) ⊎ Delivered used q.used
  Result used (blocked t q) = Inv packet hdr t × (t.dst_head ≡ none) × (q.used ≡ used)
  Result used (too_small t q) = (t.dst_header ≡ none) × (q.used ≡ used)
  Result used aborted = ⊥
  Result used (running t q) = ⊥

  transfer_loop-Result :
      (n : ℕ) (s : Transfer) (p : RxQueue)
      → Inv packet hdr s
      → work s p < n
      → Result p.used (transfer_loop db n s p)
  unfolding transfer_loop
  transfer_loop-Result zero s p v h = absurd (omega arith)
  transfer_loop-Result (suc n) s p v h =
      after (transfer_loop-Result n) (iterate db s p) refl (iterate-Ends s p v)
    where
      round : (o : Outcome) → iterate db s p ≡ o → transfer_loop db (suc n) s p ≡ resume db n o
      round o e = rw (e, transfer_loop)

      after :
          ((t : Transfer) (q : RxQueue)
            → Inv packet hdr t
            → work t q < n
            → Result q.used (transfer_loop db n t q))
          → (o : Outcome) → iterate db s p ≡ o
          → Ends p.used o
          → Result p.used (transfer_loop db (suc n) s p)
      after ih (delivered t q) e g = rw (round (delivered t q) e) g
      after ih (blocked t q) e g = rw (round (blocked t q) e) g
      after ih (too_small t q) e g = rw (round (too_small t q) e) g
      after ih aborted e g = absurd g
      after ih (running t q) e (v', same) =
          let (less, _) = iterate-work db s t p q v.range e in
          rw (round (running t q) e, ← same) (ih t q v' (omega arith))

  pub transfer-Result :
      (s : Transfer) (p : RxQueue) → Inv packet hdr s → Result p.used (transfer db s p)
  unfolding transfer
  transfer-Result s p v = transfer_loop-Result (suc (work s p)) s p v (omega arith)
