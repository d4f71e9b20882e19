-- ===== src/Options.antt =====
-- server/switch/options.h and options.cc: the command line. `getopt_long` takes it apart; what it
-- finds is the input here. The log is left out.
pub mod Size
pub mod Verbosity
use l4_virtio_net_switch.Prelude.{
  ℕ, zero, suc, ◌+◌, ◌-◌, ◌*◌, ◌%◌, ◌^◌, Bool, true, false, not, ◌&&◌, ◌||◌, Option, none, some,
  List, [], ◌∷◌, ◌==◌, leb, if◌then◌else◌, get_or, length, drop,
}
use l4_virtio_net_switch.Prelude.Int.{ℤ, pos, negsuc}
use l4_virtio_net_switch.Factory.Text.{same_to}
use l4_virtio_net_switch.Debug.{quiet, warn, info, debug, trace, core, set_component, set_verbosity}
use Prim.Native.Nat.{bit_and, bit_or}

pub record Options : Type 0 where
  pub max_ports : ℤ
  pub virtq_max_num : ℤ
  pub portq_max_num : ℕ
  pub request_timeout : ℕ
  pub assign_mac : Bool

abbrev pub default_options : Options
default_options = record {
  max_ports = pos 5;
  virtq_max_num = pos 0x100;
  portq_max_num = 50;
  request_timeout = 1 * 1000 * 1000;
  assign_mac = false;
}

-- `strcmp(a, b) == 0`, where `a` is a constant without a zero: it is compared with its terminator.
abbrev pub same : List ℕ → List ℕ → Bool
same a b = same_to (suc (length a)) a b

-- "quiet", "warn", "info", "debug" and "trace".
unfoldable pub verbosity_mask_from_string : List ℕ → Option ℕ
unfolding same_to
verbosity_mask_from_string str =
    if same (113 ∷ 117 ∷ 105 ∷ 101 ∷ 116 ∷ []) str
    then some quiet
    else if same (119 ∷ 97 ∷ 114 ∷ 110 ∷ []) str
    then some warn
    else if same (105 ∷ 110 ∷ 102 ∷ 111 ∷ []) str
    then some (bit_or warn info)
    else if same (100 ∷ 101 ∷ 98 ∷ 117 ∷ 103 ∷ []) str
    then some (bit_or (bit_or warn info) debug)
    else if same (116 ∷ 114 ∷ 97 ∷ 99 ∷ 101 ∷ []) str
    then some (bit_or (bit_or (bit_or warn info) debug) trace)
    else none

-- "core", "virtio", "port", "request", "queue" and "packet".
abbrev pub component_names : List (List ℕ)
component_names =
    (99 ∷ 111 ∷ 114 ∷ 101 ∷ [])
    ∷ (118 ∷ 105 ∷ 114 ∷ 116 ∷ 105 ∷ 111 ∷ [])
    ∷ (112 ∷ 111 ∷ 114 ∷ 116 ∷ [])
    ∷ (114 ∷ 101 ∷ 113 ∷ 117 ∷ 101 ∷ 115 ∷ 116 ∷ [])
    ∷ (113 ∷ 117 ∷ 101 ∷ 117 ∷ 101 ∷ [])
    ∷ (112 ∷ 97 ∷ 99 ∷ 107 ∷ 101 ∷ 116 ∷ [])
    ∷ []

-- The mask that a string `<component>=<level>` gives.
unfoldable pub mask_for : List ℕ → List ℕ → Option ℕ
unfolding same_to verbosity_mask_from_string
mask_for name str =
    if same_to (length name) name str && (get_or str (length name) 0 == 61)
    then verbosity_mask_from_string (drop (length name + 1) str)
    else none

-- The loop over the components from one on.
unfoldable pub set_first : List (List ℕ) → ℕ → List ℕ → ℕ → ℕ
set_first [] i str level = level
set_first (name ∷ names) i str level = elim (mask_for name str) [
  | some mask ↦ set_component i mask level
  | none ↦ set_first names (i + 1) str level
]

unfoldable pub set_verbosity_string : List ℕ → ℕ → ℕ
unfolding set_first verbosity_mask_from_string
set_verbosity_string str level = elim (verbosity_mask_from_string str) [
  | some mask ↦ set_verbosity mask level
  | none ↦ set_first component_names 0 str level
]

-- An option as `getopt_long` returns it, with its argument.
pub data Given : Type 0 where
  size : List ℕ → Given
  ports : List ℕ → Given
  mac : Given
  debug_level : List ℕ → Given
  verbose : Given
  silent : Given
  register_ds : List ℕ → Given
  unknown : Given

-- 0 with the options and the debug level, -1, or the exception.
pub data Exit : Type 0 where
  done : Options → ℕ → Exit
  failed : Exit
  threw : Exit

-- The test on `_virtq_max_num` that lets it pass.
abbrev pub valid_size : ℤ → Bool
valid_size (pos n) = (leb 1 n && leb n 32768) && (bit_and n (n - 1) == 0)
valid_size (negsuc n) = false

-- `atoi` of the C library, and whether there is a capability of a name for a dataspace.
module _ (atoi : List ℕ → ℤ) (has_cap : List ℕ → Bool) where
  -- The loop; `verbosity` is the variable of that name.
  unfoldable pub parse_loop : List Given → Options → ℕ → ℕ → Exit
  parse_loop [] o verbosity level = done o level
  parse_loop (size arg ∷ opts) o verbosity level =
      let rest = parse_loop opts (record o { virtq_max_num = atoi arg }) verbosity level in
      if valid_size (atoi arg) then rest else failed
  parse_loop (ports arg ∷ opts) o verbosity level =
      parse_loop opts (record o { max_ports = atoi arg }) verbosity level
  parse_loop (mac ∷ opts) o verbosity level =
      parse_loop opts (record o { assign_mac = true }) verbosity level
  parse_loop (debug_level arg ∷ opts) o verbosity level =
      parse_loop opts o verbosity (set_verbosity_string arg level)
  parse_loop (verbose ∷ opts) o verbosity level =
      let more = bit_or (verbosity * 2 % 2 ^ 64) 1 in
      parse_loop opts o more (set_verbosity more level)
  parse_loop (silent ∷ opts) o verbosity level = parse_loop opts o quiet (set_verbosity quiet level)
  parse_loop (register_ds arg ∷ opts) o verbosity level =
      let rest = parse_loop opts o verbosity level in if has_cap arg then rest else threw
  parse_loop (unknown ∷ opts) o verbosity level = failed

  unfoldable pub parse_cmd_line : List Given → ℕ → Exit
  unfolding parse_loop
  parse_cmd_line opts level =
      parse_loop opts default_options warn (set_verbosity warn (set_component core info level))

  -- -1 becomes an exception.
  unfoldable pub parse_options : List Given → ℕ → Exit
  unfolding parse_cmd_line
  parse_options opts level = elim (parse_cmd_line opts level) [
    | done o l ↦ done o l
    | failed ↦ threw
    | threw ↦ threw
  ]
