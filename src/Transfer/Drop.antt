-- ===== src/Transfer/Drop.antt =====
-- What becomes of a transfer that is deleted while it waits: its destructor finishes it.
use l4_virtio_net_switch.Prelude.{
  ℕ, ◌≡◌, ◌↔◌, refl, none, some, is_some, true, List, ◌++◌, arith, inl, inr, Option-cases,
}
use l4_virtio_net_switch.Buffer.{Buffer, DataBuffer}
use l4_virtio_net_switch.Vlan.{Mangle, Hdr, rewrite_hdr}
use l4_virtio_net_switch.Vlan.Pending.{InRange, pending}
use l4_virtio_net_switch.Transfer.{
  RxQueue, Transfer, new, blocked, finished, assert_failed, finish_transfer, finish_with, transfer,
}
use l4_virtio_net_switch.Transfer.Content.{concat, NoneEmpty, Inv}
use l4_virtio_net_switch.Transfer.Content.Result.{Result, transfer-Result}

-- A new transfer has the whole packet before it.
pub new-Inv :
    (garbage : ℕ) (request : ℕ × ℕ) (header : Hdr) (pkt : Buffer) (more : List (List ℕ))
    (m : Mangle)
    → InRange m
    → NoneEmpty more
    → Inv
        (pending m (pkt.ahead ++ concat more))
        (rewrite_hdr m header)
        (new garbage request header pkt more m)
unfolding new
new-Inv garbage request header pkt more m v full = record {
  range = v;
  full_src = full;
  body = refl;
  rewritten = refl;
  stage = inl (record {
    no_header = refl;
    no_head = refl;
    nothing = refl;
    none_consumed = refl;
    none_merged = refl;
  });
}

-- The destructor of a transfer that is at neither chain: nothing happens, or the assertion fails.
drop_closed :
    (t : Transfer) (q : RxQueue)
    → t.dst_head ≡ none
    → (t.dst_header ≡ none → finish_transfer t q ≡ finished t q)
      × ((h : Hdr) → t.dst_header ≡ some h → finish_transfer t q ≡ assert_failed)
unfolding finish_transfer finish_with
drop_closed t q closed = (λ e. ground arith, λ h e. ground arith)

module _ (db : DataBuffer) (packet : List ℕ) (hdr : Hdr) where
  -- A transfer that waits in the list of pending requests and is deleted there, by its timeout or
  -- with its port, fails `assert(_dst_head)` exactly when its header was already written.
  pub blocked_drop :
      (s t : Transfer) (p q : RxQueue)
      → Inv packet hdr s
      → transfer db s p ≡ blocked t q
      → (finish_transfer t q ≡ assert_failed) ↔ (is_some t.dst_header ≡ true)
  blocked_drop s t p q v e =
      let r : Result db packet hdr p.used (blocked t q) =
        rw e at (transfer-Result db packet hdr s p v) in
      let (quiet, fails) = drop_closed t q r.1 in
      elim (Option-cases t.dst_header) [
        | inl f ↦ (λ a. absurd (ground (arith, quiet f)), λ b. absurd (ground arith))
        | inr (h, f) ↦ (λ _. ground arith, λ _. fails h f)
      ]
