-- ===== src/Transfer/Leak.antt =====
-- server/switch/transfer.h: the chain that an exception leaves behind.
use l4_virtio_net_switch.Prelude.{
  ℕ, zero, suc, ◌<◌, ◌≡◌, refl, sym, ap, ◌∙◌, true, not, Option, none, some, is_some, List, [], ◌∷◌,
  ◌⊎◌, inl, inr, if◌then◌else◌, length, arith, Option-cases, ltb, if-intro, ◌+◌,
}
use l4_virtio_net_switch.Buffer.{DataBuffer, left, of_desc}
use l4_virtio_net_switch.Vlan.{Hdr, hdr_size}
use l4_virtio_net_switch.Prelude.Bits.{u16}
use l4_virtio_net_switch.Transfer.{
  Chain, RxQueue, Transfer, Outcome, delivered, blocked, too_small, aborted, running, Finish,
  finished, assert_failed, finish, next_src, start_header, start_chain, next_chain, get_dst, fill,
  copy, save_chain, then_fill, iterate, transfer_loop, transfer, work,
}

-- The transfer has its header in a chain, or has taken none of the chains `cs` yet.
abbrev pub Begun : List Chain → Transfer → RxQueue → Type 0
Begun cs t q =
    (is_some t.dst_header ≡ true) ⊎ ((t.dst_header ≡ none) × (t.dst_head ≡ none) × (q.avail ≡ cs))

-- The exception leaves a queue without its first chain, which has no room for the header.
abbrev pub Loses : List Chain → Outcome → Type 0
Loses cs (delivered t q) = Unit {0}
Loses cs (blocked t q) = Unit {0}
Loses cs (too_small t q) = (c : Chain) × (cs ≡ c ∷ q.avail) × (length c.first < hdr_size)
Loses cs aborted = Unit {0}
Loses cs (running t q) = Begun cs t q

module _ (db : DataBuffer) (cs : List Chain) where
  finish-Loses : (f : Finish) → Loses cs (finish db f)
  finish-Loses (finished t q) = tt
  finish-Loses assert_failed = tt

  -- The chain `c` is the first, unless there is a header already.
  start_chain-Loses :
      (t : Transfer) (q : RxQueue) (c : Chain)
      → t.dst ≡ of_desc c.first
      → (is_some t.dst_header ≡ true) ⊎ (cs ≡ c ∷ q.avail)
      → Loses cs (start_chain db t q)
  unfolding start_chain start_header of_desc
  start_chain-Loses t q c d b = on t.dst_header refl b
    where
      on :
          (h : Option Hdr)
          → t.dst_header ≡ h
          → (is_some h ≡ true) ⊎ (cs ≡ c ∷ q.avail)
          → Loses cs (elim h [
            | none ↦ start_header db t q
            | some h ↦ running (record t { num_merged = u16 (t.num_merged + 1) }) q
          ])
      on none same (inl e) = absurd (ground arith)
      on none same (inr e) =
          if-intro (Loses cs) (ltb (left t.dst) hdr_size) _ _
            (λ f.
              let room : left t.dst ≡ length c.first = ap left d in (c, e, ground (arith, f, room)))
            (λ f. inl refl)
      on (some h) same e = inl (ap is_some same)

  next_chain-Loses :
      (t : Transfer) (q : RxQueue) (avail : List Chain)
      → q.avail ≡ avail
      → Begun cs t q
      → Loses cs (next_chain db t q avail)
  unfolding next_chain
  next_chain-Loses t q [] f b = tt
  next_chain-Loses t q (c ∷ rest) f (inl h) = start_chain-Loses _ _ c refl (inl h)
  next_chain-Loses t q (c ∷ rest) f (inr (h, d, e)) = start_chain-Loses _ _ c refl (inr (sym e ∙ f))

  get_dst-Loses : (t : Transfer) (q : RxQueue) → Begun cs t q → Loses cs (get_dst db t q)
  unfolding get_dst
  get_dst-Loses t q b = on t.dst_head
    where
      on :
          (h : Option ℕ)
          → Loses cs (elim h [
            | some h ↦ running t q
            | none ↦ if not q.ready then blocked t q else next_chain db t q q.avail
          ])
      on (some h) = b
      on none =
          if-intro (Loses cs) (not q.ready) _ _ (λ f. tt) (λ f. next_chain-Loses t q q.avail refl b)

  -- A round that goes on has taken a chain, so the header is written.
  fill-dst_header : (t : Transfer) → (fill db t).dst_header ≡ t.dst_header
  unfolding fill copy save_chain
  fill-dst_header t = ground arith

  fill-dst_head : (t : Transfer) → t.dst_head ≡ none → (fill db t).dst_head ≡ none
  unfolding fill copy save_chain
  fill-dst_head t e = ground arith

  then_fill-Loses : (o : Outcome) → Loses cs o → Loses cs (then_fill db o)
  then_fill-Loses (delivered t q) w = tt
  then_fill-Loses (blocked t q) w = tt
  then_fill-Loses (too_small t q) w = w
  then_fill-Loses aborted w = tt
  then_fill-Loses (running t q) (inl w) = inl (ap is_some (fill-dst_header t) ∙ w)
  then_fill-Loses (running t q) (inr (h, d, e)) = inr (fill-dst_header t ∙ h, fill-dst_head t d, e)

  next_src-Begun :
      (s t : Transfer) (q : RxQueue) → next_src db s ≡ some t → Begun cs s q → Begun cs t q
  unfolding next_src
  next_src-Begun s t q e b =
      let h : t.dst_header ≡ s.dst_header = ground arith in
      let d : t.dst_head ≡ s.dst_head = ground arith in
      elim b [ inl w ↦ inl (ap is_some h ∙ w) | inr (w, v, u) ↦ inr (h ∙ w, d ∙ v, u) ]

  iterate-Loses : (t : Transfer) (q : RxQueue) → Begun cs t q → Loses cs (iterate db t q)
  unfolding iterate
  iterate-Loses t q b = elim (Option-cases (next_src db t)) [
    | inl f ↦ rw (iterate, f) (finish-Loses _)
    | inr (u, f) ↦
        rw (iterate, f) (then_fill-Loses _ (get_dst-Loses u q (next_src-Begun t u q f b)))
  ]

  transfer_loop-Loses :
      (n : ℕ) (t : Transfer) (q : RxQueue) → Begun cs t q → Loses cs (transfer_loop db n t q)
  unfolding transfer_loop
  transfer_loop-Loses zero t q b = b
  transfer_loop-Loses (suc n) t q b =
      on (iterate db t q) (iterate-Loses t q b) (λ u r f. transfer_loop-Loses n u r f)
    where
      on :
          (o : Outcome)
          → Loses cs o
          → ((u : Transfer) (r : RxQueue) → Begun cs u r → Loses cs (transfer_loop db n u r))
          → Loses cs (elim o [ running u r ↦ transfer_loop db n u r | ended ↦ ended ])
      on (delivered u r) w ih = tt
      on (blocked u r) w ih = tt
      on (too_small u r) w ih = w
      on aborted w ih = tt
      on (running u r) w ih = ih u r w

-- If a call for a transfer that has taken no chain yet ends in the exception, it has taken the first
-- chain of the queue, which is shorter than a header, and has left those behind it.
pub transfer-Loses :
    (db : DataBuffer) (t : Transfer) (q : RxQueue)
    → t.dst_header ≡ none
    → t.dst_head ≡ none
    → Loses q.avail (transfer db t q)
unfolding transfer
transfer-Loses db t q h d = transfer_loop-Loses db q.avail (suc (work t q)) t q (inr (h, d, refl))
