-- ===== src/Transfer/Starve.antt =====
-- server/switch/transfer.h: why a transfer waits.
use l4_virtio_net_switch.Prelude.{
  ℕ, zero, suc, ◌≡◌, refl, ◌∙◌, false, not, Option, none, some, List, [], ◌∷◌, ◌⊎◌, inl, inr,
  if◌then◌else◌, arith, Option-cases, ltb, if-intro, ◌+◌,
}
use l4_virtio_net_switch.Buffer.{DataBuffer, left}
use l4_virtio_net_switch.Vlan.{Hdr, hdr_size}
use l4_virtio_net_switch.Prelude.Bits.{u16}
use l4_virtio_net_switch.Transfer.{
  Chain, RxQueue, Transfer, Outcome, delivered, blocked, too_small, aborted, running, Finish,
  finished, assert_failed, finish, next_src, start_header, start_chain, next_chain, get_dst, fill,
  copy, save_chain, then_fill, iterate, transfer_loop, transfer, work,
}

-- A queue that has no chain to give.
abbrev pub Starved : RxQueue → Type 0
Starved q = (q.avail ≡ []) ⊎ (q.ready ≡ false)

-- What a call leaves that waits: a starved queue, and a transfer of the same request.
abbrev pub Waits : Transfer → Outcome → Type 0
Waits s (delivered t q) = Unit {0}
Waits s (blocked t q) = (t.request ≡ s.request) × Starved q
Waits s (too_small t q) = Unit {0}
Waits s aborted = Unit {0}
Waits s (running t q) = t.request ≡ s.request

module _ (db : DataBuffer) where
  finish-Waits : (s : Transfer) (f : Finish) → Waits s (finish db f)
  finish-Waits s (finished t q) = tt
  finish-Waits s assert_failed = tt

  start_chain-Waits :
      (s t : Transfer) (q : RxQueue) → t.request ≡ s.request → Waits s (start_chain db t q)
  unfolding start_chain start_header
  start_chain-Waits s t q e = on t.dst_header
    where
      on :
          (h : Option Hdr)
          → Waits s (elim h [
            | none ↦ start_header db t q
            | some h ↦ running (record t { num_merged = u16 (t.num_merged + 1) }) q
          ])
      on (some h) = e
      on none = if-intro (Waits s) (ltb (left t.dst) hdr_size) _ _ (λ f. tt) (λ f. e)

  next_chain-Waits :
      (s t : Transfer) (q : RxQueue) (cs : List Chain)
      → t.request ≡ s.request
      → q.avail ≡ cs
      → Waits s (next_chain db t q cs)
  unfolding next_chain
  next_chain-Waits s t q [] e f = (e, inl f)
  next_chain-Waits s t q (c ∷ cs) e f = start_chain-Waits s _ _ e

  get_dst-Waits : (s t : Transfer) (q : RxQueue) → t.request ≡ s.request → Waits s (get_dst db t q)
  unfolding get_dst
  get_dst-Waits s t q e = on t.dst_head
    where
      on :
          (h : Option ℕ)
          → Waits s (elim h [
            | some h ↦ running t q
            | none ↦ if not q.ready then blocked t q else next_chain db t q q.avail
          ])
      on (some h) = e
      on none =
          if-intro (Waits s) (not q.ready) _ _ (λ f. (e, inr (ground arith)))
            (λ f. next_chain-Waits s t q q.avail e refl)

  fill-request : (t : Transfer) → (fill db t).request ≡ t.request
  unfolding fill copy save_chain
  fill-request t = ground arith

  then_fill-Waits : (s : Transfer) (o : Outcome) → Waits s o → Waits s (then_fill db o)
  then_fill-Waits s (delivered t q) w = tt
  then_fill-Waits s (blocked t q) w = w
  then_fill-Waits s (too_small t q) w = tt
  then_fill-Waits s aborted w = tt
  then_fill-Waits s (running t q) w = fill-request t ∙ w

  next_src-request : (s t : Transfer) → next_src db s ≡ some t → t.request ≡ s.request
  unfolding next_src
  next_src-request s t e = ground arith

  iterate-Waits : (s t : Transfer) (q : RxQueue) → t.request ≡ s.request → Waits s (iterate db t q)
  unfolding iterate
  iterate-Waits s t q e = elim (Option-cases (next_src db t)) [
    | inl f ↦ rw (iterate, f) (finish-Waits s _)
    | inr (u, f) ↦
        rw (iterate, f) (then_fill-Waits s _ (get_dst-Waits s u q (next_src-request t u f ∙ e)))
  ]

  transfer_loop-Waits :
      (n : ℕ) (s t : Transfer) (q : RxQueue)
      → t.request ≡ s.request
      → Waits s (transfer_loop db n t q)
  unfolding transfer_loop
  transfer_loop-Waits zero s t q e = e
  transfer_loop-Waits (suc n) s t q e =
      on (iterate db t q) (iterate-Waits s t q e) (λ u r f. transfer_loop-Waits n s u r f)
    where
      on :
          (o : Outcome)
          → Waits s o
          → ((u : Transfer) (r : RxQueue)
              → u.request ≡ s.request
              → Waits s (transfer_loop db n u r))
          → Waits s (elim o [ running u r ↦ transfer_loop db n u r | ended ↦ ended ])
      on (delivered u r) w ih = tt
      on (blocked u r) w ih = w
      on (too_small u r) w ih = tt
      on aborted w ih = tt
      on (running u r) w ih = ih u r w

  -- A call of `transfer` waits only for a queue that has no chain to give, and for the request that
  -- the transfer had before.
  pub transfer-Waits : (s : Transfer) (q : RxQueue) → Waits s (transfer db s q)
  unfolding transfer
  transfer-Waits s q = transfer_loop-Waits (suc (work s q)) s s q refl
