-- ===== src/Transfer.antt =====
-- server/switch/transfer.h: the delivery of one request to one port, over buffers that the source
-- and the destination cut as they like. The virtqueue and the request processor are not part of
-- this repository; what they answer is an input: a chain for each `next_avail` that succeeds, and
-- the memory of one descriptor for each `next` that succeeds.
pub mod Work
pub mod Content
pub mod Drop
pub mod Starve
pub mod Leak
use l4_virtio_net_switch.Prelude.{
  ℕ, zero, suc, ◌+◌, ◌%◌, ◌^◌, Bool, true, false, not, Option, none, some, List, [], ◌∷◌, ◌++◌,
  ◌==◌, ltb, if◌then◌else◌, is_some, length,
}
use l4_virtio_net_switch.Prelude.Bits.{u16, u32}
use l4_virtio_net_switch.Kick.{Kick, notify_queue}
use l4_virtio_net_switch.Buffer.{Buffer, DataBuffer, left, of_desc}
use l4_virtio_net_switch.Vlan.{Mangle, Hdr, hdr_size, rewrite_hdr, copy_pkt}
use l4_virtio_net_switch.Vlan.Progress.{to_do}

-- A chain of descriptors: its head, and the memory of each descriptor.
pub record Chain : Type 0 where
  pub head : ℕ
  pub first : List ℕ
  pub more : List (List ℕ)

-- What the driver gets back: the heads with their lengths, the header, and the memory written.
pub record Used : Type 0 where
  pub heads : List (ℕ × ℕ)
  pub header : Hdr
  pub memory : List Buffer

-- The receive queue of a port: `ready()`, the chains that `next_avail` returns, and what `finish`
-- has returned to the driver, newest last. `wants_kick` is what `disable_notify` and `enable_notify`
-- tell the driver.
pub record RxQueue : Type 0 where
  pub kick : Kick
  pub wants_kick : Bool
  pub ready : Bool
  pub avail : List Chain
  pub used : List Used

-- `Virtio_net_transfer`. The request processors are the descriptors still to come. `memory` holds
-- the destination buffers that the transfer has left, newest last. `request` names the shared
-- request, by the port that sent it and the head of its chain; `header` is the content of
-- `_request->header()`, and `dst_header` that of the header in the destination's memory.
pub record Transfer : Type 0 where
  pub request : ℕ × ℕ
  pub header : Hdr
  pub src : Buffer
  pub src_more : List (List ℕ)
  pub dst : Buffer
  pub dst_more : List (List ℕ)
  pub dst_head : Option ℕ
  pub dst_header : Option Hdr
  pub memory : List Buffer
  pub total : ℕ
  pub consumed : List (ℕ × ℕ)
  pub num_merged : ℕ
  pub mangle : Mangle

abbrev pub no_buffer : Buffer
no_buffer = record { mapped = false; behind = []; ahead = [] }

-- The constructor, on a valid request. `_total` is not initialised; `garbage` is what it holds.
unfoldable pub new : ℕ → ℕ × ℕ → Hdr → Buffer → List (List ℕ) → Mangle → Transfer
new garbage request header pkt more mangle = record {
  request = request;
  header = header;
  src = pkt;
  src_more = more;
  dst = no_buffer;
  dst_more = [];
  dst_head = none;
  dst_header = none;
  memory = [];
  total = garbage;
  consumed = [];
  num_merged = 0;
  mangle = mangle;
}

-- How `finish_transfer` ends: with the queue, or in `assert(_dst_head)` or
-- `assert(_num_merged == 1)`.
pub data Finish : Type 0 where
  finished : Transfer → RxQueue → Finish
  assert_failed : Finish

-- `_dst_queue->finish` with the list of heads.
abbrev pub give_back : Transfer → RxQueue → Hdr → List (ℕ × ℕ) → Finish
give_back tr q h heads =
    finished (record tr { dst_header = none })
      (record q {
        used =
            q.used
            ++ (record { heads = heads; header = h; memory = tr.memory ++ (tr.dst ∷ []) } ∷ []);
        kick = notify_queue q.kick;
      })

unfoldable pub finish_with : Transfer → RxQueue → Hdr → List (ℕ × ℕ) → Option ℕ → Finish
finish_with tr q h consumed none = assert_failed
finish_with tr q h [] (some head) =
    if tr.num_merged == 1
    then give_back tr q (record h { num_buffers = 1 }) ((head, tr.total) ∷ [])
    else assert_failed
finish_with tr q h (c ∷ cs) (some head) =
    give_back tr q (record h { num_buffers = tr.num_merged }) ((c ∷ cs) ++ ((head, tr.total) ∷ []))

unfoldable pub finish_transfer : Transfer → RxQueue → Finish
finish_transfer tr q = elim tr.dst_header [
  | none ↦ finished tr q
  | some h ↦ finish_with tr q h tr.consumed tr.dst_head
]

-- How `transfer` ends: true, false, the exception "Target buffer too small for header", or a
-- failed assertion. `running` is a loop that is not at its end.
pub data Outcome : Type 0 where
  delivered : Transfer → RxQueue → Outcome
  blocked : Transfer → RxQueue → Outcome
  too_small : Transfer → RxQueue → Outcome
  aborted : Outcome
  running : Transfer → RxQueue → Outcome

module _ (db : DataBuffer) where
  open db use {done, skip}

  -- `!_src.done() || next_src_buffer()`.
  unfoldable pub next_src : Transfer → Option Transfer
  next_src tr = if not (done tr.src) then some tr else elim tr.src_more [
    | [] ↦ none
    | bytes ∷ rest ↦ some (record tr { src = of_desc bytes; src_more = rest })
  ]

  -- The first chain gets the header.
  unfoldable pub start_header : Transfer → RxQueue → Outcome
  start_header tr q =
      if ltb (left tr.dst) hdr_size
      then too_small tr q
      else running
          (record tr {
            dst_header = some (rewrite_hdr tr.mangle tr.header);
            dst = (skip tr.dst hdr_size).1;
            total = hdr_size;
            num_merged = u16 (tr.num_merged + 1);
          })
          q

  unfoldable pub start_chain : Transfer → RxQueue → Outcome
  start_chain tr q = elim tr.dst_header [
    | none ↦ start_header tr q
    | some h ↦ running (record tr { num_merged = u16 (tr.num_merged + 1) }) q
  ]

  -- The destination buffer that `start` or `next` replaces stays in the memory of the client. (The
  -- null buffer of a new transfer is kept too, with nothing in it.)
  abbrev pub replaced : Transfer → List Buffer
  replaced tr = tr.memory ++ (tr.dst ∷ [])

  unfoldable pub next_chain : Transfer → RxQueue → List Chain → Outcome
  next_chain tr q [] = blocked tr q
  next_chain tr q (c ∷ rest) =
      start_chain
        (record tr {
          dst_head = some c.head;
          dst = of_desc c.first;
          dst_more = c.more;
          memory = replaced tr;
        })
        (record q { avail = rest })

  -- `if (!_dst_head) …`.
  unfoldable pub get_dst : Transfer → RxQueue → Outcome
  get_dst tr q = elim tr.dst_head [
    | some h ↦ running tr q
    | none ↦ if not q.ready then blocked tr q else next_chain tr q q.avail
  ]

  unfoldable pub copy : Transfer → Transfer
  copy tr =
      let c = copy_pkt db tr.mangle tr.dst tr.src in
      record tr { mangle = c.mangle; dst = c.dst; src = c.src; total = u32 (tr.total + c.ret) }

  unfoldable pub save_chain : Transfer → Transfer
  save_chain tr = elim tr.dst_head [
    | none ↦ tr
    | some head ↦ record tr {
      consumed = tr.consumed ++ ((head, tr.total) ∷ []);
      total = 0;
      dst_head = none;
    }
  ]

  -- `if (!_dst.done() || next_dst_buffer()) … else …`.
  unfoldable pub fill : Transfer → Transfer
  fill tr = if not (done tr.dst) then copy tr else elim tr.dst_more [
    | [] ↦ save_chain tr
    | bytes ∷ rest ↦ copy (record tr { dst = of_desc bytes; dst_more = rest; memory = replaced tr })
  ]

  abbrev pub finish : Finish → Outcome
  finish (finished tr q) = delivered tr q
  finish assert_failed = aborted

  abbrev pub then_fill : Outcome → Outcome
  then_fill (delivered tr q) = delivered tr q
  then_fill (blocked tr q) = blocked tr q
  then_fill (too_small tr q) = too_small tr q
  then_fill aborted = aborted
  then_fill (running tr q) = running (fill tr) q

  -- The test of the loop with its body, or with what follows the loop.
  unfoldable pub iterate : Transfer → RxQueue → Outcome
  iterate tr q = elim (next_src tr) [
    | none ↦ finish (finish_transfer tr q)
    | some tr' ↦ then_fill (get_dst tr' q)
  ]

  unfoldable pub transfer_loop : ℕ → Transfer → RxQueue → Outcome
  transfer_loop zero tr q = running tr q
  transfer_loop (suc n) tr q = elim (iterate tr q) [
    | running tr' q' ↦ transfer_loop n tr' q'
    | ended ↦ ended
  ]

  -- The rest of the loop after a round.
  abbrev pub resume : ℕ → Outcome → Outcome
  resume n (delivered tr q) = delivered tr q
  resume n (blocked tr q) = blocked tr q
  resume n (too_small tr q) = too_small tr q
  resume n aborted = aborted
  resume n (running tr q) = transfer_loop n tr q

-- What is left to read and to fill: each round of the loop takes some of it.
abbrev pub src_work : List (List ℕ) → ℕ
src_work [] = 0
src_work (b ∷ bs) = suc (length b + src_work bs)

abbrev pub chain_work : List Chain → ℕ
chain_work [] = 0
chain_work (c ∷ cs) = suc (suc (length c.more + chain_work cs))

abbrev pub open_chain : Option ℕ → ℕ
open_chain none = 0
open_chain (some h) = 1

unfoldable pub work : Transfer → RxQueue → ℕ
work tr q =
    to_do tr.mangle (length tr.src.ahead)
    + src_work tr.src_more
    + length tr.dst_more
    + open_chain tr.dst_head
    + chain_work q.avail

-- `transfer()`, with enough rounds for the loop to end.
unfoldable pub transfer : DataBuffer → Transfer → RxQueue → Outcome
transfer db tr q = transfer_loop db (suc (work tr q)) tr q
