-- ===== src/Port/Deliver.antt =====
-- What `handle_request` and `handle_rx_queue` do to a port and to the transfers that wait in it.
use l4_virtio_net_switch.Prelude.{
  ℕ, ◌<◌, length, ◌≡◌, ◌⊎◌, inl, inr, refl, Bool, true, false, List, [], ◌∷◌, ◌++◌, arith,
  if◌then◌else◌,
}
use l4_virtio_net_switch.Buffer.{DataBuffer}
use l4_virtio_net_switch.Vlan.{hdr_size, Mangle, Hdr, untouched, add, remove, rewrite_hdr}
use l4_virtio_net_switch.Vlan.Pending.{InRange, pending}
use l4_virtio_net_switch.Transfer.{
  Chain, Transfer, RxQueue, Outcome, delivered, blocked, too_small, aborted, running, transfer, new,
  Used,
}
use l4_virtio_net_switch.Transfer.Content.{concat, NoneEmpty, Inv}
use l4_virtio_net_switch.Transfer.Content.Result.{Delivered, Result, transfer-Result}
use l4_virtio_net_switch.Transfer.Drop.{new-Inv}
use l4_virtio_net_switch.Transfer.Leak.{Loses, transfer-Loses}
use l4_virtio_net_switch.Transfer.Starve.{Waits, transfer-Waits}
use l4_virtio_net_switch.Request.{Request}
use l4_virtio_net_switch.Port.{
  Port, Done, ok, threw, failed, mangle_for, settle, handle_request, retry, handle_rx_queue,
}

-- Every transfer that waits has a packet to deliver, has delivered its front part so far, and is of
-- a request of a port that `Who` holds of.
abbrev pub Waiting : (ℕ → Type 0) → List Transfer → Type 0
Waiting Who [] = Unit {0}
Waiting Who (t ∷ ts) =
    (((packet : List ℕ) × (hdr : Hdr) × Inv packet hdr t) × Who t.request.0) × Waiting Who ts

Waiting-append :
    (Who : ℕ → Type 0) (ts : List Transfer) (t : Transfer) (packet : List ℕ) (hdr : Hdr)
    → Waiting Who ts
    → Inv packet hdr t
    → Who t.request.0
    → Waiting Who (ts ++ (t ∷ []))
Waiting-append Who [] t packet hdr w v o = (((packet, hdr, v), o), tt)
Waiting-append Who (u ∷ ts) t packet hdr w v o = (w.0, Waiting-append Who ts t packet hdr w.1 v o)

if-InRange : (b : Bool) (m n : Mangle) → InRange m → InRange n → InRange (if b then m else n)
if-InRange true m n v w = v
if-InRange false m n v w = w

mangle_for-InRange : (src p : Port) → InRange (mangle_for src p)
unfolding mangle_for untouched add remove
mangle_for-InRange src p =
    let u : InRange untouched = record {
      macs = omega arith;
      adds = omega arith;
      removes = omega arith;
    } in
    let a : InRange (add src.own_vlan_id) = record {
      macs = omega arith;
      adds = omega arith;
      removes = omega arith;
    } in
    let r : InRange remove = record {
      macs = omega arith;
      adds = omega arith;
      removes = omega arith;
    } in
    if-InRange _ _ _ (if-InRange _ _ _ a u) (if-InRange _ _ _ r u)

-- The packet that a port is to get for a request, and the header before it.
abbrev pub packet_for : Port → Port → Request → List ℕ
packet_for src p r = pending (mangle_for src p) (r.pkt.ahead ++ concat r.more)

abbrev pub header_for : Port → Port → Request → Hdr
header_for src p r = rewrite_hdr (mangle_for src p) r.header

module _ (db : DataBuffer) (src p : Port) (r : Request) where
  -- How `handle_request` may end: the port gets the packet, whole and as its VLAN wants it, in one
  -- result for its driver (nothing for an empty packet); or it waits as the last of the transfers; or
  -- an exception leaves what waits and the results as they were, and the receive queue without its
  -- first chain, which is too short for a header.
  abbrev pub Handled : Done → Type 0
  Handled (ok p') =
      (p'.self ≡ p.self)
      × (((p'.pending_requests ≡ p.pending_requests)
            × (((packet_for src p r ≡ []) × (p'.rx.used ≡ p.rx.used))
                ⊎ Delivered db (packet_for src p r) (header_for src p r) p.rx.used p'.rx.used))
          ⊎ ((t : Transfer) × (p'.pending_requests ≡ p.pending_requests ++ (t ∷ []))
              × (t.request ≡ (src.self, r.head))
              × Inv (packet_for src p r) (header_for src p r) t
              × (p'.rx.used ≡ p.rx.used)))
  Handled (threw p') =
      (p'.self ≡ p.self)
      × (p'.pending_requests ≡ p.pending_requests)
      × (p'.rx.used ≡ p.rx.used)
      × ((c : Chain) × (p.rx.avail ≡ c ∷ p'.rx.avail) × (length c.first < hdr_size))
  Handled failed = ⊥

  abbrev made : ℕ → Transfer
  made garbage = new garbage (src.self, r.head) r.header r.pkt r.more (mangle_for src p)

  settle-Handled :
      (garbage : ℕ) (o : Outcome)
      → Result db (packet_for src p r) (header_for src p r) p.rx.used o
      → Waits (made garbage) o
      → Loses p.rx.avail o
      → Handled (settle db p o)
  unfolding settle new
  settle-Handled garbage (delivered t q) e w l = (refl, inl (refl, e))
  settle-Handled garbage (blocked t q) (h, closed, same) w l = (refl, inr (t, refl, w.0, h, same))
  settle-Handled garbage (too_small t q) e w l = (refl, refl, e.1, l)
  settle-Handled garbage aborted e w l = e
  settle-Handled garbage (running t q) e w l = e

  pub handle_request-Handled :
      (garbage : ℕ) → NoneEmpty r.more → Handled (handle_request db garbage src p r)
  unfolding handle_request
  handle_request-Handled garbage full =
      settle-Handled garbage _
        (transfer-Result db (packet_for src p r) (header_for src p r) _ p.rx (
          new-Inv garbage (src.self, r.head) r.header r.pkt r.more (mangle_for src p)
            (mangle_for-InRange src p) full))
        (transfer-Waits db (made garbage) p.rx)
        (transfer-Loses db (made garbage) p.rx (unfold new in refl) (unfold new in refl))

  module _ (Who : ℕ → Type 0) where
    -- What stays true of the port: its address, and that what waits in it is in order.
    abbrev pub Sound : Done → Type 0
    Sound (ok p') = (p'.self ≡ p.self) × Waiting Who p'.pending_requests
    Sound (threw p') = (p'.self ≡ p.self) × Waiting Who p'.pending_requests
    Sound failed = ⊥

    pub Handled-Sound :
        (d : Done) → Who src.self → Waiting Who p.pending_requests → Handled d → Sound d
    Handled-Sound (ok p') o w (same, inl (e, _)) = (same, rw e w)
    Handled-Sound (ok p') o w (same, inr (t, e, of, v, _)) =
        (same, rw e (Waiting-append Who p.pending_requests t _ _ w v (rw of o)))
    Handled-Sound (threw p') o w (same, e, _, _) = (same, rw e w)
    Handled-Sound failed o w h = h

module _ (db : DataBuffer) where
  -- How `handle_rx_queue` serves the transfers `ts`, of a port whose driver has the results `used`.
  pub data Served : List Transfer → List Used → Done → Type 0 where
    all_served : {p : Port} → p.pending_requests ≡ [] → Served [] p.rx.used (ok p)
    served :
        {t : Transfer} {ts : List Transfer} {used after : List Used} {d : Done} (packet : List ℕ)
        (hdr : Hdr)
        → Inv packet hdr t
        → ((packet ≡ []) × (after ≡ used)) ⊎ Delivered db packet hdr used after
        → Served ts after d
        → Served (t ∷ ts) used d
    waits :
        {t : Transfer} {ts : List Transfer} {used : List Used} {p : Port} (packet : List ℕ)
        (hdr : Hdr) (t' : Transfer)
        → Inv packet hdr t
        → Inv packet hdr t'
        → t'.request ≡ t.request
        → p.pending_requests ≡ t' ∷ ts
        → p.rx.used ≡ used
        → Served (t ∷ ts) used (ok p)
    leaves :
        {t : Transfer} {ts : List Transfer} {used : List Used} {p : Port}
        → p.pending_requests ≡ ts
        → p.rx.used ≡ used
        → Served (t ∷ ts) used (threw p)

  retry-Served :
      (Who : ℕ → Type 0) (ts : List Transfer) (p : Port)
      → Waiting Who ts
      → Served ts p.rx.used (retry db p ts)
  unfolding retry
  retry-Served Who [] p w = all_served refl
  retry-Served Who (t ∷ ts) p (((packet, hdr, v), _), w) =
      after (λ q. retry-Served Who ts (record p { rx = q }) w) (transfer db t p.rx) refl
        (transfer-Result db packet hdr t p.rx v) (transfer-Waits db t p.rx)
    where
      after :
          ((q : RxQueue) → Served ts q.used (retry db (record p { rx = q }) ts))
          → (o : Outcome) → transfer db t p.rx ≡ o
          → Result db packet hdr p.rx.used o
          → Waits t o
          → Served (t ∷ ts) p.rx.used (retry db p (t ∷ ts))
      after ih (delivered t' q) e g w' = rw (retry, e) (served packet hdr v g (ih q))
      after ih (blocked t' q) e (v', closed, same) w' =
          rw (retry, e) (waits packet hdr t' v v' w'.0 refl same)
      after ih (too_small t' q) e (no_header, same) w' = rw (retry, e) (leaves refl same)
      after ih aborted e g w' = absurd g
      after ih (running t' q) e g w' = absurd g

  pub handle_rx_queue-Served :
      (Who : ℕ → Type 0) (p : Port)
      → Waiting Who p.pending_requests
      → Served p.pending_requests p.rx.used (handle_rx_queue db p)
  unfolding handle_rx_queue
  handle_rx_queue-Served Who p w = retry-Served Who p.pending_requests p w
