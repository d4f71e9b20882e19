-- ===== src/Options/Verbosity.antt =====
-- server/switch/options.cc, `set_verbosity`: the argument `<component>=<level>` of the option -D.
use l4_virtio_net_switch.Prelude.{
  ℕ, zero, suc, ◌-◌, ◌^◌, ◌%◌, ◌==◌, ltb, not, if◌then◌else◌, ◌≡◌, ◌<◌, refl, ap, Option, none,
  some, List, [], ◌∷◌, ◌++◌, get_or, arith, ◌∙◌,
}
use l4_virtio_net_switch.Factory.Text.{same_to}
use l4_virtio_net_switch.Debug.{set_component, set_verbosity, is_active}
use l4_virtio_net_switch.Debug.Levels.{is_active-set_component}
use Prim.Native.Nat.{bit_and}
use l4_virtio_net_switch.Options.{
  verbosity_mask_from_string, component_names, mask_for, set_first, set_verbosity_string,
}

-- "<component>=<level>"
abbrev pub of_component : ℕ → List ℕ → List ℕ
of_component c text = get_or component_names c [] ++ (61 ∷ text)

-- What it makes of the levels.
abbrev Sets : ℕ → List ℕ → ℕ → Type 0
Sets c text level =
    set_verbosity_string (of_component c text) level ≡ elim (verbosity_mask_from_string text) [
      | none ↦ level
      | some mask ↦ set_component c mask level
    ]

-- No component's name is the beginning of a level's.
no_level : (c : ℕ) (text : List ℕ) → c < 6 → verbosity_mask_from_string (of_component c text) ≡ none
unfolding verbosity_mask_from_string same_to
no_level zero text h = refl
no_level (suc zero) text h = refl
no_level (suc (suc zero)) text h = refl
no_level (suc (suc (suc zero))) text h = refl
no_level (suc (suc (suc (suc zero)))) text h = refl
no_level (suc (suc (suc (suc (suc zero))))) text h = refl
no_level (suc (suc (suc (suc (suc (suc c)))))) text h = absurd (omega arith)

first_component :
    (c : ℕ) (text : List ℕ) (level : ℕ)
    → c < 6
    → set_first component_names 0 (of_component c text) level
      ≡ elim (verbosity_mask_from_string text) [
        | none ↦ level
        | some mask ↦ set_component c mask level
      ]
unfolding set_first mask_for same_to
first_component zero text level h = refl
first_component (suc zero) text level h = refl
first_component (suc (suc zero)) text level h = refl
first_component (suc (suc (suc zero))) text level h = refl
first_component (suc (suc (suc (suc zero)))) text level h = refl
first_component (suc (suc (suc (suc (suc zero))))) text level h = refl
first_component (suc (suc (suc (suc (suc (suc c)))))) text level h = absurd (omega arith)

set_verbosity_string-Sets : (c : ℕ) (text : List ℕ) (level : ℕ) → c < 6 → Sets c text level
unfolding set_verbosity_string
set_verbosity_string-Sets c text level h =
    ap
      (λ (o : Option ℕ). elim o [
        | some mask ↦ set_verbosity mask level
        | none ↦ set_first component_names 0 (of_component c text) level
      ])
      (no_level c text h)
    ∙ first_component c text level h

-- "quiet", "warn", "info", "debug" and "trace": each shows one kind of messages more.
abbrev pub level_names : List (List ℕ)
level_names =
    (113 ∷ 117 ∷ 105 ∷ 101 ∷ 116 ∷ [])
    ∷ (119 ∷ 97 ∷ 114 ∷ 110 ∷ [])
    ∷ (105 ∷ 110 ∷ 102 ∷ 111 ∷ [])
    ∷ (100 ∷ 101 ∷ 98 ∷ 117 ∷ 103 ∷ [])
    ∷ (116 ∷ 114 ∷ 97 ∷ 99 ∷ 101 ∷ [])
    ∷ []

level_mask :
    (i : ℕ) → i < 5 → verbosity_mask_from_string (get_or level_names i []) ≡ some (2 ^ i - 1)
unfolding verbosity_mask_from_string same_to
level_mask zero h = refl
level_mask (suc zero) h = refl
level_mask (suc (suc zero)) h = refl
level_mask (suc (suc (suc zero))) h = refl
level_mask (suc (suc (suc (suc zero)))) h = refl
level_mask (suc (suc (suc (suc (suc i))))) h = absurd (omega arith)

-- The kinds of messages are bits, warnings the lowest.
shown_at :
    (i k : ℕ) → i < 5 → k < 4 → not (bit_and ((2 ^ i - 1) % 16) ((2 ^ k) % 16) == 0) ≡ ltb k i
shown_at zero zero i_lt k_lt = refl
shown_at zero (suc zero) i_lt k_lt = refl
shown_at zero (suc (suc zero)) i_lt k_lt = refl
shown_at zero (suc (suc (suc zero))) i_lt k_lt = refl
shown_at zero (suc (suc (suc (suc k)))) i_lt k_lt = absurd (omega arith)
shown_at (suc zero) zero i_lt k_lt = refl
shown_at (suc zero) (suc zero) i_lt k_lt = refl
shown_at (suc zero) (suc (suc zero)) i_lt k_lt = refl
shown_at (suc zero) (suc (suc (suc zero))) i_lt k_lt = refl
shown_at (suc zero) (suc (suc (suc (suc k)))) i_lt k_lt = absurd (omega arith)
shown_at (suc (suc zero)) zero i_lt k_lt = refl
shown_at (suc (suc zero)) (suc zero) i_lt k_lt = refl
shown_at (suc (suc zero)) (suc (suc zero)) i_lt k_lt = refl
shown_at (suc (suc zero)) (suc (suc (suc zero))) i_lt k_lt = refl
shown_at (suc (suc zero)) (suc (suc (suc (suc k)))) i_lt k_lt = absurd (omega arith)
shown_at (suc (suc (suc zero))) zero i_lt k_lt = refl
shown_at (suc (suc (suc zero))) (suc zero) i_lt k_lt = refl
shown_at (suc (suc (suc zero))) (suc (suc zero)) i_lt k_lt = refl
shown_at (suc (suc (suc zero))) (suc (suc (suc zero))) i_lt k_lt = refl
shown_at (suc (suc (suc zero))) (suc (suc (suc (suc k)))) i_lt k_lt = absurd (omega arith)
shown_at (suc (suc (suc (suc zero)))) zero i_lt k_lt = refl
shown_at (suc (suc (suc (suc zero)))) (suc zero) i_lt k_lt = refl
shown_at (suc (suc (suc (suc zero)))) (suc (suc zero)) i_lt k_lt = refl
shown_at (suc (suc (suc (suc zero)))) (suc (suc (suc zero))) i_lt k_lt = refl
shown_at (suc (suc (suc (suc zero)))) (suc (suc (suc (suc k)))) i_lt k_lt = absurd (omega arith)
shown_at (suc (suc (suc (suc (suc i))))) k i_lt k_lt = absurd (omega arith)

-- The argument `<component>=<level>`, for one of the six components and one of the five levels,
-- makes the component show the warnings, the infos, the debug and the trace messages up to the level,
-- none for quiet, and leaves every other component as it was, in a word of 64 bits.
pub is_active-set_verbosity_string :
    (c d i k level : ℕ)
    → d < 6
    → i < 5
    → k < 4
    → level < 2 ^ 64
    → is_active c (2 ^ k) (set_verbosity_string (of_component d (get_or level_names i [])) level)
      ≡ (if c == d then ltb k i else is_active c (2 ^ k) level)
is_active-set_verbosity_string c d i k level d_lt i_lt k_lt w =
    let name : List ℕ = get_or level_names i [] in
    let sets : set_verbosity_string (of_component d name) level
        ≡ set_component d (2 ^ i - 1) level =
      set_verbosity_string-Sets d name level d_lt
      ∙ ap (λ (o : Option ℕ). elim o [ none ↦ level | some mask ↦ set_component d mask level ])
          (level_mask i i_lt) in
    ap (is_active c (2 ^ k)) sets
    ∙ is_active-set_component c d (2 ^ k) (2 ^ i - 1) level (omega arith) w
    ∙ ap (λ b. if c == d then b else is_active c (2 ^ k) level) (shown_at i k i_lt k_lt)
