-- ===== src/Factory/Checks.antt =====
-- server/switch/main.cc: what the arguments of a new port are checked for.
use l4_virtio_net_switch.Prelude.{
  ℕ, zero, suc, ◌+◌, ◌-◌, ◌<◌, ◌≤◌, ◌≡◌, Bool, true, not, ◌&&◌, Option, none, some, List, [], ◌∷◌,
  ◌++◌, ◌==◌, ltb, if◌then◌else◌, if-intro, get_or, length, drop, arith, inr, ◌⊎◌,
}
use l4_virtio_net_switch.Prelude.Int.{ℤ}
use l4_virtio_net_switch.Vlan.{vlan_valid_id}
use l4_virtio_net_switch.Port.Vlans.{all_valid}
use l4_virtio_net_switch.Factory.{
  Varg, text, other, Parsed, parsed, invalid, thrown, stuck, valid_num_ds, ds_max_eq, parse_args,
}
use l4_virtio_net_switch.Factory.Text.{Param, absent, present, bad, parse_int_param, same_to}
use l4_virtio_net_switch.Factory.Arguments.{
  Parser, Settings, Taken, taken, rejected, endless, trunk_loop, take_trunk, handle_vlan,
  handle_mac, handle_opt_arg, access_eq, trunk_eq, vlan_eq, mac_eq, name_eq, type_eq, type_monitor,
  type_none, until_zero,
}

-- The VLAN of an access port, if one is asked for, and those of a trunk are valid.
abbrev pub Valid : Settings → Type 0
Valid s =
    ((s.vlan_access ≡ 0) ⊎ (vlan_valid_id s.vlan_access ≡ true)) × (all_valid s.vlan_trunk ≡ true)

abbrev pub ValidTaken : Taken → Type 0
ValidTaken (taken s) = Valid s
ValidTaken rejected = Unit {0}
ValidTaken endless = ⊥

abbrev pub ValidParsed : Parsed → Type 0
ValidParsed (parsed s ds) = Valid s × (valid_num_ds ds ≡ true)
ValidParsed invalid = Unit {0}
ValidParsed thrown = Unit {0}
ValidParsed stuck = ⊥

-- `substr` from an index inside the string on leaves less of it, and from one behind it nothing.
abbrev pub Shortens : Parser → Type 0
Shortens parser = (s : List ℕ) (n : ℕ) → length (parser.substr s n) ≤ length s - n

-- `from_dec` takes no number from an empty string, and no more than the string has.
abbrev pub Bounded : Parser → Type 0
Bounded parser = (s : List ℕ) → (parser.from_dec s).0 ≤ length s

all_valid-append :
    (xs : List ℕ) (x : ℕ)
    → all_valid xs ≡ true
    → vlan_valid_id x ≡ true
    → all_valid (xs ++ (x ∷ [])) ≡ true
all_valid-append [] x v w = ground arith
all_valid-append (y ∷ xs) x v w = ground (arith, all_valid-append xs x)

module _ (parser : Parser) (shorter : Shortens parser) (bounded : Bounded parser) where
  abbrev ValidTrunk : Option (List ℕ × List ℕ) → Type 0
  ValidTrunk none = ⊥
  ValidTrunk (some (str, ids)) = all_valid ids ≡ true

  trunk_loop-ValidTrunk :
      (n : ℕ) (str ids : List ℕ)
      → length str < n
      → all_valid ids ≡ true
      → ValidTrunk (trunk_loop parser n str ids)
  unfolding trunk_loop
  trunk_loop-ValidTrunk zero str ids h v = elim h [ ]
  trunk_loop-ValidTrunk (suc n) str ids h v =
      let next = (parser.from_dec str).0 in
      let vid = (parser.from_dec str).1 in
      if-intro ValidTrunk (next == 0) _ _ (λ _. v)
        (λ some_digits.
          if-intro ValidTrunk (not (vlan_valid_id vid)) _ _ (λ _. v)
            (λ ok.
              let w = all_valid-append ids vid v (ground arith) in
              if-intro ValidTrunk (ltb next (length str) && not (get_or str next 0 == 44)) _ _
                (λ _. w)
                (λ _.
                  trunk_loop-ValidTrunk n (parser.substr str (next + 1)) (ids ++ (vid ∷ []))
                    (ground (arith, shorter str (next + 1), bounded str)) w)))

  take_trunk-ValidTaken :
      (s : Settings) (o : Option (List ℕ × List ℕ))
      → Valid s
      → ValidTrunk o
      → ValidTaken (take_trunk parser s o)
  take_trunk-ValidTaken s none v w = w
  take_trunk-ValidTaken s (some ([], ids)) v w = (v.0, w)
  take_trunk-ValidTaken s (some (c ∷ str, ids)) v w = tt

  handle_vlan-ValidTaken :
      (str : List ℕ) (s : Settings) → Valid s → ValidTaken (handle_vlan parser str s)
  unfolding handle_vlan
  handle_vlan-ValidTaken str s v =
      let id = parser.substr str (parser.starts_with str access_eq) in
      let ids = parser.substr str (parser.starts_with str trunk_eq) in
      let (next, vid) = parser.from_dec id in
      if-intro ValidTaken (not (parser.starts_with str access_eq == 0)) _ _
        (λ _.
          if-intro ValidTaken (not (next == 0) && (next == length id && vlan_valid_id vid)) _ _
            (λ e. (inr (ground arith), v.1)) (λ _. tt))
        (λ _.
          if-intro ValidTaken (not (parser.starts_with str trunk_eq == 0)) _ _
            (λ _.
              take_trunk-ValidTaken s _ v
                (trunk_loop-ValidTrunk (suc (length ids)) ids s.vlan_trunk (omega arith) v.1))
            (λ _. tt))

  handle_mac-ValidTaken :
      (opt : List ℕ) (s : Settings) → Valid s → ValidTaken (handle_mac parser opt s)
  unfolding handle_mac
  handle_mac-ValidTaken opt s v =
      if-intro ValidTaken (ltb 21 (length opt) && (get_or opt 21 1 == 0)) _ _
        (λ _. on (parser.scan_mac (drop 4 opt))) (λ _. tt)
    where
      on :
          (o : Option (List ℕ))
          → ValidTaken (elim o [
            | none ↦ rejected
            | some mac ↦ taken (record s { mac = mac; mac_set = true })
          ])
      on none = tt
      on (some mac) = v

  handle_opt_arg-ValidTaken :
      (opt : List ℕ) (s : Settings) → Valid s → ValidTaken (handle_opt_arg parser opt s)
  unfolding handle_opt_arg
  handle_opt_arg-ValidTaken opt s v =
      let len = length opt in
      let V = ValidTaken in
      if-intro ValidTaken (not (ltb 5 len)) _ _ (λ _. tt)
        (λ _.
          if-intro ValidTaken (same_to 5 type_eq opt) _ _
            (λ _.
              if-intro ValidTaken (same_to len type_monitor opt) _ _ (λ _. v)
                (λ _. if-intro ValidTaken (same_to len type_none opt) _ _ (λ _. v) (λ _. tt)))
            (λ _.
              if-intro ValidTaken (same_to 5 name_eq opt) _ _ (λ _. v)
                (λ _.
                  if-intro ValidTaken (same_to 5 vlan_eq opt) _ _
                    (λ _. handle_vlan-ValidTaken (until_zero (drop 5 opt)) s v)
                    (λ _.
                      if-intro ValidTaken (same_to 4 mac_eq opt) _ _
                        (λ _. handle_mac-ValidTaken opt s v) (λ _. tt)))))

  -- The loops over the arguments and over the ids of a trunk end, and what they accept is in range:
  -- 1 to 80 dataspaces, and VLANs that are neither 0 nor above 0xffe.
  pub parse_args-ValidParsed :
      (assign_mac : Bool) (va : List Varg) (s : Settings) (ds : ℤ)
      → Valid s
      → valid_num_ds ds ≡ true
      → ValidParsed (parse_args parser assign_mac va s ds)
  unfolding parse_args
  parse_args-ValidParsed assign_mac [] s ds v d = (v, d)
  parse_args-ValidParsed assign_mac (other ∷ va) s ds v d = tt
  parse_args-ValidParsed assign_mac (text opt ∷ va) s ds v d =
      param (parse_int_param opt ds_max_eq) (handle_opt_arg parser opt s)
        (handle_opt_arg-ValidTaken opt s v) (λ s' n. parse_args-ValidParsed assign_mac va s' n)
    where
      Rest : Type 0
      Rest =
          (s' : Settings) (n : ℤ)
          → Valid s'
          → valid_num_ds n ≡ true
          → ValidParsed (parse_args parser assign_mac va s' n)

      option :
          (t : Taken)
          → ValidTaken t
          → Rest
          → ValidParsed (elim t [
            | taken s' ↦ parse_args parser assign_mac va s' ds
            | rejected ↦ invalid
            | endless ↦ stuck
          ])
      option (taken s') w ih = ih s' ds w d
      option rejected w ih = tt
      option endless w ih = w

      param :
          (q : Param) (t : Taken)
          → ValidTaken t
          → Rest
          → ValidParsed (elim q [
            | bad ↦ thrown
            | present n ↦ if valid_num_ds n then parse_args parser assign_mac va s n else invalid
            | absent ↦ elim t [
              | taken s' ↦ parse_args parser assign_mac va s' ds
              | rejected ↦ invalid
              | endless ↦ stuck
            ]
          ])
      param absent t w ih = option t w ih
      param (present n) t w ih =
          if-intro ValidParsed (valid_num_ds n) _ _ (λ e. ih s n v e) (λ _. tt)
      param bad t w ih = tt
