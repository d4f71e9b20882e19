-- ===== src/Filter.antt =====
-- server/switch/filter.h and filter.cc: which packets the monitor port does not get. Which of the
-- two functions is compiled is a build option; the output of the second is left out.
use Prim.Native.Nat.{bit_or}
use l4_virtio_net_switch.Prelude.{ℕ, Bool, true, false, List, ◌==◌, leb, if◌then◌else◌, get_or}
use l4_virtio_net_switch.Prelude.Bits.{◌<<<◌}
use l4_virtio_net_switch.Request.{Request, buffer}

-- The default: nothing is filtered out.
unfoldable pub filter_none : List ℕ → ℕ → Bool
filter_none buf size = false

-- The example of filter.cc: everything but ARP and packets too short to tell.
unfoldable pub filter_example : List ℕ → ℕ → Bool
filter_example buf size =
    if leb size 13
    then false
    else if bit_or (get_or buf 12 0 <<< 8) (get_or buf 13 0) == 0x0806
    then false
    else true

-- `filter_request`, with the filter of the build.
unfoldable pub filter_request : (List ℕ → ℕ → Bool) → Request → Bool
filter_request filter r = let (size, buf) = buffer r in filter buf size
