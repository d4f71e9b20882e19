-- ===== src/Factory/Trunk.antt =====
-- server/switch/main.cc, `handle_opt_arg`: the VLANs of a trunk port.
use l4_virtio_net_switch.Prelude.{
  ℕ, zero, suc, ◌+◌, ◌<◌, ◌≡◌, refl, ap, ◌∙◌, true, false, some, List, [], ◌∷◌, ◌++◌, ◌==◌, ltb,
  get_or, length, arith, append_assoc,
}
use l4_virtio_net_switch.Vlan.{vlan_valid_id}
use l4_virtio_net_switch.Factory.Arguments.{
  Parser, Settings, taken, trunk_loop, handle_vlan, access_eq, trunk_eq,
}
use l4_virtio_net_switch.Factory.Checks.{Shortens, Bounded}

-- The string is a list of valid ids with a comma, which is 44, between them.
pub data Reads (parser : Parser) : List ℕ → List ℕ → Type 0 where
  last_id :
      {str : List ℕ} {vid : ℕ}
      → parser.from_dec str ≡ (length str, vid)
      → 0 < length str
      → vlan_valid_id vid ≡ true
      → Reads parser str (vid ∷ [])
  more_ids :
      {str : List ℕ} {vid : ℕ} {ids : List ℕ} (next : ℕ)
      → parser.from_dec str ≡ (next, vid)
      → 0 < next
      → vlan_valid_id vid ≡ true
      → next < length str
      → get_or str next 0 ≡ 44
      → Reads parser (parser.substr str (next + 1)) ids
      → Reads parser str (vid ∷ ids)

nothing : (s : List ℕ) → length s < 1 → s ≡ []
nothing [] h = refl
nothing (c ∷ s) h = absurd (omega arith)

module _ (parser : Parser) (shorter : Shortens parser) (bounded : Bounded parser) where
  trunk_loop-nil : (n : ℕ) (ids : List ℕ) → 0 < n → trunk_loop parser n [] ids ≡ some ([], ids)
  unfolding trunk_loop
  trunk_loop-nil zero ids h = absurd (omega arith)
  trunk_loop-nil (suc n) ids h =
      let none_read : ((parser.from_dec []).0 == 0) ≡ true = ground (arith, bounded []) in
      rw none_read refl

  trunk_loop-Reads :
      (n : ℕ) (str acc ids : List ℕ)
      → length str < n
      → Reads parser str ids
      → trunk_loop parser n str acc ≡ some ([], acc ++ ids)
  unfolding trunk_loop
  trunk_loop-Reads zero str acc ids h r = absurd (omega arith)
  trunk_loop-Reads (suc n) str acc [] h r = elim r [ ]
  trunk_loop-Reads (suc n) str acc (vid ∷ []) h (last_id e some_chars ok) =
      let read : (length str == 0) ≡ false = ground arith in
      let at_end : ltb (length str) (length str) ≡ false = ground arith in
      let none_left : parser.substr str (length str + 1) ≡ [] =
        nothing (parser.substr str (length str + 1))
          (omega (arith, shorter str (length str + 1))) in
      rw (e, read, ok, at_end, none_left) (trunk_loop-nil n (acc ++ (vid ∷ [])) (omega arith))
  trunk_loop-Reads (suc n) str acc (vid ∷ ids) h (more_ids next e some_digits ok inside comma r) =
      let read : (next == 0) ≡ false = ground arith in
      let within : ltb next (length str) ≡ true = ground arith in
      let rest : List ℕ = parser.substr str (next + 1) in
      rw (e, read, ok, within, comma)
        (trunk_loop-Reads n rest (acc ++ (vid ∷ [])) ids (omega (arith, shorter str (next + 1))) r
          ∙ ap (λ xs. some ([], xs)) (append_assoc acc (vid ∷ []) ids))

  -- The argument `vlan=trunk=<ids>`, where `ids` are valid ids with a comma between them, adds these
  -- ids, in their order, to those that the port is to be a trunk of. `substr` from an index on leaves
  -- no more of a string than stands there, and `from_dec` takes no more characters than there are.
  pub handle_vlan-Reads :
      (str : List ℕ) (s : Settings) (ids : List ℕ)
      → (parser.starts_with str access_eq == 0) ≡ true
      → (parser.starts_with str trunk_eq == 0) ≡ false
      → Reads parser (parser.substr str (parser.starts_with str trunk_eq)) ids
      → handle_vlan parser str s ≡ taken (record s { vlan_trunk = s.vlan_trunk ++ ids })
  unfolding handle_vlan
  handle_vlan-Reads str s ids no_access trunk r =
      let text : List ℕ = parser.substr str (parser.starts_with str trunk_eq) in
      rw
        (
          no_access,
          trunk,
          trunk_loop-Reads (suc (length text)) text s.vlan_trunk ids (omega arith) r,
        )
        refl
