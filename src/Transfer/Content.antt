-- ===== src/Transfer/Content.antt =====
-- What a transfer has written and what it still has to write make up the packet, at every point of
-- the loop and across calls that were blocked.
pub mod Rounds
pub mod Chains
pub mod Result
use l4_virtio_net_switch.Prelude.{
  ℕ, ◌+◌, ◌≤◌, ◌≡◌, ◌≢◌, ◌⊎◌, refl, ap, Bool, false, Option, none, some, List, [], ◌∷◌, ◌++◌,
  length, drop, append_assoc,
}
use l4_virtio_net_switch.Prelude.Bits.{u16}
use l4_virtio_net_switch.Buffer.{Buffer}
use l4_virtio_net_switch.Vlan.{Mangle, Hdr, hdr_size, rewrite_hdr}
use l4_virtio_net_switch.Vlan.Pending.{InRange, pending}
use l4_virtio_net_switch.Transfer.{Transfer, Used, RxQueue, open_chain}

abbrev pub concat : List (List ℕ) → List ℕ
concat [] = []
concat (b ∷ bs) = b ++ concat bs

-- The bytes written to a list of buffers, in order.
abbrev pub content : List Buffer → List ℕ
content [] = []
content (b ∷ bs) = b.behind ++ content bs

pub content-append : (xs ys : List Buffer) → content (xs ++ ys) ≡ content xs ++ content ys
content-append [] ys = refl
content-append (b ∷ xs) ys = rw (content-append xs ys, append_assoc)

-- No descriptor of the source is empty.
abbrev pub NoneEmpty : List (List ℕ) → Type 0
NoneEmpty [] = Unit {0}
NoneEmpty (b ∷ bs) = (b ≢ []) × NoneEmpty bs

-- What is in the destination's memory, the header included.
abbrev pub out : Transfer → List ℕ
out t = content t.memory ++ t.dst.behind

-- Before the first chain.
pub record NotStarted (t : Transfer) : Type 0 where
  pub no_header : t.dst_header ≡ none
  pub no_head : t.dst_head ≡ none
  pub nothing : out t ≡ []
  pub none_consumed : t.consumed ≡ []
  pub none_merged : t.num_merged ≡ 0

-- From the first chain on. Between two chains there is more to read.
pub record Started (hdr : Hdr) (t : Transfer) : Type 0 where
  pub has_header : t.dst_header ≡ some hdr
  pub header_room : hdr_size ≤ length (out t)
  pub counted : t.num_merged ≡ u16 (length t.consumed + open_chain t.dst_head)
  pub waiting : t.dst_head ≡ none → t.src.ahead ≢ []

-- `packet` is what the destination is to get behind the header `hdr`.
pub record Inv (packet : List ℕ) (hdr : Hdr) (t : Transfer) : Type 0 where
  pub range : InRange t.mangle
  pub full_src : NoneEmpty t.src_more
  pub body : drop hdr_size (out t) ++ pending t.mangle (t.src.ahead ++ concat t.src_more) ≡ packet
  pub rewritten : rewrite_hdr t.mangle t.header ≡ hdr
  pub stage : NotStarted t ⊎ Started hdr t
