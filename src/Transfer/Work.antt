-- ===== src/Transfer/Work.antt =====
-- server/switch/transfer.h: how much the loop of `transfer` has left to do.
use l4_virtio_net_switch.Prelude.{
  ℕ, zero, suc, ◌≤◌, ◌<◌, ◌≡◌, ◌≢◌, ◌⊎◌, refl, sym, ◌∙◌, ap, true, none, some, is_some, List, [],
  ◌∷◌, arith, inl, inr, Bool-cases, Option-cases, List-cases, length,
}
use l4_virtio_net_switch.Buffer.{DataBuffer, of_desc}
use l4_virtio_net_switch.Vlan.{hdr_size}
use l4_virtio_net_switch.Vlan.Pending.{InRange}
use l4_virtio_net_switch.Vlan.Progress.{copy_pkt-Steps}
use l4_virtio_net_switch.Transfer.{
  RxQueue, Transfer, Outcome, delivered, blocked, too_small, aborted, running, next_src,
  start_header, start_chain, next_chain, get_dst, copy, save_chain, fill, finish, finish_transfer,
  iterate, transfer_loop, replaced, resume, then_fill, Finish, finished, assert_failed, work,
  transfer,
}

-- What does not depend on the destination.
abbrev pub SameSource : Transfer → Transfer → Type 0
SameSource s t = (t.src ≡ s.src) × (t.src_more ≡ s.src_more) × (t.mangle ≡ s.mangle)

module _ (db : DataBuffer) where
  -- The next source buffer is not empty, or it was one more that counted.
  next_src-work :
      (s t : Transfer) (q : RxQueue)
      → next_src db s ≡ some t
      → (t.mangle ≡ s.mangle) × ((work t q < work s q) ⊎ ((0 < length t.src.ahead) × (t ≡ s)))
  unfolding next_src work of_desc
  next_src-work s t q e = ground (arith, db.done_lem s.src)

  get_dst-work :
      (s t : Transfer) (p q : RxQueue)
      → get_dst db s p ≡ running t q
      → (work t q ≤ work s p) × SameSource s t × (is_some t.dst_head ≡ true)
  unfolding get_dst next_chain start_chain start_header work
  get_dst-work s t p q e = ground (arith, db.skip_lem s.dst hdr_size)

  -- The destination when the processor moves on to its next descriptor.
  abbrev pub next_dst : Transfer → List ℕ → List (List ℕ) → Transfer
  next_dst t bytes rest = record t { dst = of_desc bytes; dst_more = rest; memory = replaced db t }

  -- The three branches of `fill`.
  pub data FillCase (t : Transfer) : Type 0 where
    here : (0 < length t.dst.ahead) → fill db t ≡ copy db t → FillCase t
    saved : t.dst_more ≡ [] → fill db t ≡ save_chain db t → FillCase t
    next :
        (bytes : List ℕ) (rest : List (List ℕ))
        → t.dst_more ≡ bytes ∷ rest
        → fill db t ≡ copy db (next_dst t bytes rest)
        → FillCase t

  pub fill_cases : (t : Transfer) → FillCase t
  unfolding fill
  fill_cases t = elim (Bool-cases (db.done t.dst)) [
    | inr left_over ↦ here (ground (arith, db.done_lem t.dst)) (rw left_over)
    | inl done ↦ elim (List-cases t.dst_more) [
      | inl last ↦ saved last (ground arith)
      | inr (bytes, rest, e) ↦ next bytes rest e (ground arith)
    ]
  ]

  copy-work :
      (t : Transfer) (q : RxQueue)
      → InRange t.mangle
      → (work (copy db t) q ≤ work t q)
        × (0 < length t.src.ahead → 0 < length t.dst.ahead → work (copy db t) q < work t q)
        × InRange (copy db t).mangle
  unfolding copy work
  copy-work t q v =
      let c = copy_pkt-Steps db t.mangle t.dst t.src v in
      (omega (arith, c.kept), λ hs hd. omega (arith, c.progress hs hd), c.range)

  next_dst-work :
      (t : Transfer) (q : RxQueue) (bytes : List ℕ) (rest : List (List ℕ))
      → t.dst_more ≡ bytes ∷ rest
      → suc (work (next_dst t bytes rest) q) ≡ work t q
  unfolding work
  next_dst-work t q bytes rest m = omega (arith, ap length m)

  fill-work :
      (t : Transfer) (q : RxQueue)
      → InRange t.mangle
      → is_some t.dst_head ≡ true
      → (work (fill db t) q ≤ work t q)
        × (0 < length t.src.ahead → work (fill db t) q < work t q)
        × InRange (fill db t).mangle
  fill-work t q v h = elim (fill_cases t) [
    | here room e ↦ let (le, lt, r) = copy-work t q v in rw e (le, λ hs. lt hs room, r)
    | saved last e ↦ rw e (unfold save_chain work in ground arith)
    | next bytes rest m e ↦
        let (le, lt, r) = copy-work (next_dst t bytes rest) q v in
        let less = next_dst-work t q bytes rest m in
        rw e (omega (arith, le, less), λ hs. omega (arith, le, less), r)
  ]

  finish-ne-running : (f : Finish) {t : Transfer} {q : RxQueue} → finish db f ≡ running t q → ⊥
  finish-ne-running (finished u r) e = cc
  finish-ne-running assert_failed e = cc

  pub iterate-none :
      (s : Transfer) (p : RxQueue)
      → next_src db s ≡ none
      → iterate db s p ≡ finish db (finish_transfer s p)
  unfolding iterate
  iterate-none s p e = rw (e, iterate)

  pub iterate-some :
      (s t : Transfer) (p : RxQueue)
      → next_src db s ≡ some t
      → iterate db s p ≡ then_fill db (get_dst db t p)
  unfolding iterate
  iterate-some s t p e = rw (e, iterate)

  then_fill-running :
      (o : Outcome) {t : Transfer} {q : RxQueue}
      → then_fill db o ≡ running t q
      → (u : Transfer) × (o ≡ running u q) × (t ≡ fill db u)
  then_fill-running (delivered u r) e = cc
  then_fill-running (blocked u r) e = cc
  then_fill-running (too_small u r) e = cc
  then_fill-running aborted e = cc
  then_fill-running (running u r) e = (u, cc, cc)

  -- A round that goes on leaves less to do.
  pub iterate-work :
      (s t : Transfer) (p q : RxQueue)
      → InRange s.mangle
      → iterate db s p ≡ running t q
      → (work t q < work s p) × InRange t.mangle
  iterate-work s t p q v e = elim (Option-cases (next_src db s)) [
    | inl last ↦ absurd (finish-ne-running (finish_transfer s p) (sym (iterate-none s p last) ∙ e))
    | inr (s', more) ↦
        let (u, got, filled) = then_fill-running _ (sym (iterate-some s s' p more) ∙ e) in
        let (kept, read) = next_src-work s s' p more in
        let (le, (src, src_more, mangle), head) = get_dst-work s' u p q got in
        let v' : InRange u.mangle = rw (mangle, kept) v in
        let (f_le, f_lt, r) = fill-work u q v' head in
        let bytes : length u.src.ahead ≡ length s'.src.ahead = ap (λ b. length b.ahead) src in
        (ground (arith, read, filled, le, f_le, f_lt, bytes, ap (λ z. work z p)), rw filled r)
  ]

  -- With more rounds than there is work the loop comes to an end.
  pub transfer_loop-ends :
      (n : ℕ) (s t : Transfer) (p q : RxQueue)
      → InRange s.mangle
      → work s p < n
      → transfer_loop db n s p ≢ running t q
  unfolding transfer_loop
  transfer_loop-ends zero s t p q v h = absurd (omega arith)
  transfer_loop-ends (suc n) s t p q v h =
      after (λ u r. transfer_loop-ends n u t r q) (iterate db s p) refl
    where
      round : (o : Outcome) → iterate db s p ≡ o → transfer_loop db (suc n) s p ≡ resume db n o
      round o e = rw (e, transfer_loop)

      after :
          ((u : Transfer) (r : RxQueue)
            → InRange u.mangle
            → work u r < n
            → transfer_loop db n u r ≢ running t q)
          → (o : Outcome) → iterate db s p ≡ o
          → transfer_loop db (suc n) s p ≢ running t q
      after ih (delivered u r) e same = ground (arith, round (delivered u r) e)
      after ih (blocked u r) e same = ground (arith, round (blocked u r) e)
      after ih (too_small u r) e same = ground (arith, round (too_small u r) e)
      after ih aborted e same = ground (arith, round aborted e)
      after ih (running u r) e same =
          let (less, v') = iterate-work s u p r v e in
          ih u r v' (omega arith) (sym (round (running u r) e) ∙ same)

-- `transfer` is never cut short by the count of rounds.
pub transfer-ends :
    (db : DataBuffer) (s t : Transfer) (p q : RxQueue)
    → InRange s.mangle
    → transfer db s p ≢ running t q
unfolding transfer
transfer-ends db s t p q v = transfer_loop-ends db (suc (work s p)) s t p q v (omega arith)
