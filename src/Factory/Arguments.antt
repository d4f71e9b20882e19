-- ===== src/Factory/Arguments.antt =====
-- server/switch/main.cc, `handle_opt_arg`: the options of a new port. Their texts for the log are
-- left out, and so is the name, which only the log shows.
use l4_virtio_net_switch.Prelude.{
  ℕ, zero, suc, ◌+◌, Bool, true, not, ◌&&◌, Option, none, some, List, [], ◌∷◌, ◌++◌, ◌==◌, ltb,
  if◌then◌else◌, get_or, length, drop,
}
use l4_virtio_net_switch.Vlan.{vlan_valid_id}
use l4_virtio_net_switch.Factory.Text.{same_to}

-- What is used of `cxx::String`, and the `sscanf` of six octets. `from_dec` tells how many
-- characters it took and the number; `starts_with` is the index behind the prefix, or 0.
pub record Parser : Type 0 where
  pub from_dec : List ℕ → ℕ × ℕ
  pub starts_with : List ℕ → List ℕ → ℕ
  pub substr : List ℕ → ℕ → List ℕ
  pub scan_mac : List ℕ → Option (List ℕ)

-- "type=", "monitor", "none", "name=", "vlan=", "access=", "trunk=", "mac=".
abbrev pub type_eq : List ℕ
type_eq = 116 ∷ 121 ∷ 112 ∷ 101 ∷ 61 ∷ []

abbrev pub type_monitor : List ℕ
type_monitor = type_eq ++ (109 ∷ 111 ∷ 110 ∷ 105 ∷ 116 ∷ 111 ∷ 114 ∷ [])

abbrev pub type_none : List ℕ
type_none = type_eq ++ (110 ∷ 111 ∷ 110 ∷ 101 ∷ [])

abbrev pub name_eq : List ℕ
name_eq = 110 ∷ 97 ∷ 109 ∷ 101 ∷ 61 ∷ []

abbrev pub vlan_eq : List ℕ
vlan_eq = 118 ∷ 108 ∷ 97 ∷ 110 ∷ 61 ∷ []

abbrev pub access_eq : List ℕ
access_eq = 97 ∷ 99 ∷ 99 ∷ 101 ∷ 115 ∷ 115 ∷ 61 ∷ []

abbrev pub trunk_eq : List ℕ
trunk_eq = 116 ∷ 114 ∷ 117 ∷ 110 ∷ 107 ∷ 61 ∷ []

abbrev pub mac_eq : List ℕ
mac_eq = 109 ∷ 97 ∷ 99 ∷ 61 ∷ []

-- The arguments by reference.
pub record Settings : Type 0 where
  pub monitor : Bool
  pub vlan_access : ℕ
  pub vlan_trunk : List ℕ
  pub mac : List ℕ
  pub mac_set : Bool

-- True, false, or a loop that is not at its end.
pub data Taken : Type 0 where
  taken : Settings → Taken
  rejected : Taken
  endless : Taken

-- The string up to its terminating zero.
unfoldable pub until_zero : List ℕ → List ℕ
until_zero [] = []
until_zero (c ∷ s) = let rest = until_zero s in if c == 0 then [] else c ∷ rest

module _ (parser : Parser) where
  -- The loop over the ids of a trunk, for at most so many of them. The string that it ends with,
  -- and the ids.
  unfoldable pub trunk_loop : ℕ → List ℕ → List ℕ → Option (List ℕ × List ℕ)
  trunk_loop zero str ids = none
  trunk_loop (suc n) str ids =
      let (next, vid) = parser.from_dec str in
      let rest = trunk_loop n (parser.substr str (next + 1)) (ids ++ (vid ∷ [])) in
      if next == 0
      then some (str, ids)
      else if not (vlan_valid_id vid)
      then some (str, ids)
      else if ltb next (length str) && not (get_or str next 0 == 44)
      then some (str, ids ++ (vid ∷ []))
      else rest

  abbrev pub take_trunk : Settings → Option (List ℕ × List ℕ) → Taken
  take_trunk s none = endless
  take_trunk s (some ([], ids)) = taken (record s { vlan_trunk = ids })
  take_trunk s (some (c ∷ str, ids)) = rejected

  unfoldable pub handle_vlan : List ℕ → Settings → Taken
  unfolding trunk_loop
  handle_vlan str s =
      let access = parser.starts_with str access_eq in
      let trunk = parser.starts_with str trunk_eq in
      let id = parser.substr str access in
      let ids = parser.substr str trunk in
      let (next, vid) = parser.from_dec id in
      if not (access == 0)
      then if not (next == 0) && (next == length id && vlan_valid_id vid)
        then taken (record s { vlan_access = vid })
        else rejected
      else if not (trunk == 0)
      then take_trunk s (trunk_loop (suc (length ids)) ids s.vlan_trunk)
      else rejected

  -- The digits of a MAC address and its colons are 17 characters.
  unfoldable pub handle_mac : List ℕ → Settings → Taken
  handle_mac opt s =
      if ltb 21 (length opt) && (get_or opt 21 1 == 0)
      then elim (parser.scan_mac (drop 4 opt)) [
        | none ↦ rejected
        | some mac ↦ taken (record s { mac = mac; mac_set = true })
      ]
      else rejected

  unfoldable pub handle_opt_arg : List ℕ → Settings → Taken
  unfolding same_to handle_vlan handle_mac until_zero
  handle_opt_arg opt s =
      let len = length opt in
      if not (ltb 5 len)
      then rejected
      else if same_to 5 type_eq opt
      then if same_to len type_monitor opt
        then taken (record s { monitor = true })
        else if same_to len type_none opt
        then taken s
        else rejected
      else if same_to 5 name_eq opt
      then taken s
      else if same_to 5 vlan_eq opt
      then handle_vlan (until_zero (drop 5 opt)) s
      else if same_to 4 mac_eq opt
      then handle_mac opt s
      else rejected
