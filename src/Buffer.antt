-- ===== src/Buffer.antt =====
-- server/switch/virtio_net_buffer.h: a stretch of a client's memory, with a position in it. Source
-- and destination are memory of their own each.
use l4_virtio_net_switch.Prelude.{ℕ, ◌≡◌, Bool, true, List, [], ◌++◌, ◌==◌, length, take, drop, min}

-- The bytes that `pos` has moved past, and the `left` bytes from `pos` on.
pub record Buffer : Type 0 where
  pub mapped : Bool  -- `pos` is not null
  pub behind : List ℕ
  pub ahead : List ℕ

abbrev pub left : Buffer → ℕ
left b = length b.ahead

-- `Buffer(r, d, _)` on a descriptor whose memory holds `bytes`.
unfoldable pub of_desc : List ℕ → Buffer
of_desc bytes = record { mapped = true; behind = []; ahead = bytes }

-- `memcpy(b.pos, bytes, n)`, which does not move `pos`.
unfoldable pub write : Buffer → List ℕ → Buffer
write b bytes = record b { ahead = bytes ++ drop (length bytes) b.ahead }

-- `L4virtio::Svr::Data_buffer`, which `Buffer` inherits and which is not part of this repository,
-- with what its documentation says of it: `skip` and `copy_to` move as many bytes as there are and
-- as are asked for, say how many, and copy them in order. `copy_to` without a limit is `copy_all`.
pub record DataBuffer : Type 0 where
  pub done : Buffer → Bool
  pub skip : Buffer → ℕ → ℕ × Buffer
  pub copy_to : Buffer → Buffer → ℕ → ℕ × Buffer × Buffer
  pub copy_all : Buffer → Buffer → ℕ × Buffer × Buffer
  pub done_lem : (b : Buffer) → done b ≡ (length b.ahead == 0)
  pub skip_lem :
      (b : Buffer) (n : ℕ)
      → let k = min (length b.ahead) n in
        skip b n ≡ (k, record b { behind = b.behind ++ take k b.ahead; ahead = drop k b.ahead })
  pub copy_to_lem :
      (src dst : Buffer) (n : ℕ)
      → let k = min (min (length src.ahead) (length dst.ahead)) n in
        copy_to src dst n ≡ (
          k,
          record src { behind = src.behind ++ take k src.ahead; ahead = drop k src.ahead },
          record dst { behind = dst.behind ++ take k src.ahead; ahead = drop k dst.ahead },
        )
  pub copy_all_lem :
      (src dst : Buffer)
      → let k = min (length src.ahead) (length dst.ahead) in
        copy_all src dst ≡ (
          k,
          record src { behind = src.behind ++ take k src.ahead; ahead = drop k src.ahead },
          record dst { behind = dst.behind ++ take k src.ahead; ahead = drop k dst.ahead },
        )
