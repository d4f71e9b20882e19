-- ===== src/Request.antt =====
-- server/switch/request.h: a packet taken from a transmission queue. The queue and the request
-- processor are not part of this repository: a queue is the chains that `next_avail` returns, and
-- `start` and `next` yield the memory of a chain's descriptors in turn.
pub mod Tags
pub mod Dump
use Prim.Native.Nat.{bit_and, bit_or}
use l4_virtio_net_switch.Prelude.{
  ℕ, ◌+◌, ◌*◌, Bool, false, not, ◌&&◌, ◌||◌, Option, none, some, List, [], ◌∷◌, ◌++◌, ◌==◌, ltb,
  leb, if◌then◌else◌, get_or, drop,
}
use l4_virtio_net_switch.Prelude.Bits.{◌<<<◌}
use l4_virtio_net_switch.Kick.{Kick, notify_queue}
use l4_virtio_net_switch.Buffer.{Buffer, DataBuffer, left, of_desc}
use l4_virtio_net_switch.MacAddr.{of_bytes, addr_length, addr_unknown}
use l4_virtio_net_switch.Vlan.{Hdr, hdr_size, vlan_id_native}
use l4_virtio_net_switch.Transfer.{Chain}

-- The transmission queue of a port; `finished` are the heads that went back to the driver, less
-- those that it has given again.
pub record TxQueue : Type 0 where
  pub kick : Kick
  pub wants_kick : Bool
  pub ready : Bool
  pub avail : List Chain
  pub finished : List ℕ

-- A valid request: `_head`, the header, `_pkt`, and what its request processor still holds.
pub record Request : Type 0 where
  pub head : ℕ
  pub header : Hdr
  pub pkt : Buffer
  pub more : List (List ℕ)

-- `Virtio_net::Hdr` as it lies in the memory of a little-endian machine.
unfoldable pub hdr_at : List ℕ → Hdr
hdr_at b = record {
  flags = get_or b 0 0;
  gso_type = get_or b 1 0;
  hdr_len = get_or b 2 0 + get_or b 3 0 * 256;
  gso_size = get_or b 4 0 + get_or b 5 0 * 256;
  csum_start = get_or b 6 0 + get_or b 7 0 * 256;
  csum_offset = get_or b 8 0 + get_or b 9 0 * 256;
  num_buffers = get_or b 10 0 + get_or b 11 0 * 256;
}

-- `buffer`: the bytes of the current buffer, with their number.
unfoldable pub buffer : Request → ℕ × List ℕ
buffer r = (left r.pkt, r.pkt.ahead)

unfoldable pub dst_mac : Request → ℕ
dst_mac r =
    if r.pkt.mapped && leb addr_length (left r.pkt) then of_bytes r.pkt.ahead else addr_unknown

unfoldable pub src_mac : Request → ℕ
src_mac r =
    if r.pkt.mapped && leb (addr_length * 2) (left r.pkt)
    then of_bytes (drop addr_length r.pkt.ahead)
    else addr_unknown

unfoldable pub has_vlan : Request → Bool
has_vlan r =
    if not r.pkt.mapped || ltb (left r.pkt) 14
    then false
    else get_or r.pkt.ahead 12 0 == 0x81 && get_or r.pkt.ahead 13 0 == 0

unfoldable pub vlan_id : Request → ℕ
unfolding has_vlan
vlan_id r =
    if not (has_vlan r) || ltb (left r.pkt) 16
    then vlan_id_native
    else bit_and (bit_or (get_or r.pkt.ahead 14 0 <<< 8) (get_or r.pkt.ahead 15 0)) 0xfff

abbrev request : Chain → Buffer → List (List ℕ) → Request
request c pkt rest = record { head = c.head; header = hdr_at c.first; pkt = pkt; more = rest }

-- The destructor of a request: its chain goes back to the driver of the source.
unfoldable pub finish_request : ℕ → TxQueue → TxQueue
finish_request head q = record q {
  finished = q.finished ++ (head ∷ []);
  kick = notify_queue q.kick;
}

-- The loop of `drop_requests`.
unfoldable pub drop_all_avail : TxQueue → List Chain → TxQueue
drop_all_avail q [] = record q { avail = [] }
drop_all_avail q (c ∷ rest) = drop_all_avail (finish_request c.head q) rest

unfoldable pub drop_requests : TxQueue → TxQueue
drop_requests q = if not q.ready then q else drop_all_avail q q.avail

module _ (db : DataBuffer) where
  open db use {done, skip}

  -- The rest of the constructor once the header is skipped.
  unfoldable pub after_header : Chain → Buffer → Option Request
  after_header c pkt =
      if not (done pkt)
      then some (request c pkt c.more)
      else elim c.more [ [] ↦ none | bytes ∷ rest ↦ some (request c (of_desc bytes) rest) ]

  -- The constructor; `none` is a request that is not valid.
  unfoldable pub new_request : Chain → Option Request
  new_request c =
      let (skipped, pkt) = skip (of_desc c.first) hdr_size in
      if not (skipped == hdr_size) then none else after_header c pkt

  -- An invalid request is deleted at once.
  unfoldable pub from_chain : TxQueue → List Chain → Option Request × TxQueue
  from_chain q [] = (none, q)
  from_chain q (c ∷ rest) = elim (new_request c) [
    | some r ↦ (some r, record q { avail = rest })
    | none ↦ (none, finish_request c.head (record q { avail = rest }))
  ]

  unfoldable pub get_request : TxQueue → Option Request × TxQueue
  get_request q = if not q.ready then (none, q) else from_chain q q.avail
