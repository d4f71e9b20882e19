-- ===== src/Prelude/OrdMap.antt =====
-- `std::map` with numbers for keys: an association list in the order of the keys.
use Prim.Native.Nat.{ℕ, suc, ◌+◌, ◌≤◌, ◌<◌}
use mathlib.Core.Path.{◌≡◌, refl}
use mathlib.Core.Option.{Option, none, some}
use mathlib.Core.List.{List, [], ◌∷◌}
use native.Mathlib.Omega.{arith}
use l4_virtio_net_switch.Prelude.Tests.{◌==◌, ltb, if◌then◌else◌}
use l4_virtio_net_switch.Prelude.Lists.{length}

abbrev pub OrdMap {ℓ} : Type ℓ → Type ℓ
OrdMap V = List (ℕ × V)

module _ {ℓ} {V : Type ℓ} where
  unfoldable pub find : ℕ → OrdMap V → Option V
  find k [] = none
  find k ((j, v) ∷ m) = if k == j then some v else find k m

  -- The place of a new key: before the first greater one.
  unfoldable pub insert : ℕ → V → OrdMap V → OrdMap V
  insert k v [] = (k, v) ∷ []
  insert k v ((j, w) ∷ m) = if ltb k j then (k, v) ∷ (j, w) ∷ m else (j, w) ∷ insert k v m

  unfoldable pub erase : ℕ → OrdMap V → OrdMap V
  erase k [] = []
  erase k ((j, v) ∷ m) = if k == j then m else (j, v) ∷ erase k m

  -- Strictly increasing keys, the first at least `lo`.
  abbrev pub IsSorted : ℕ → OrdMap V → Type 0
  IsSorted lo [] = Unit {0}
  IsSorted lo ((k, v) ∷ m) = (lo ≤ k) × IsSorted (suc k) m

  pub find_below : (k lo : ℕ) (m : OrdMap V) → IsSorted lo m → k < lo → find k m ≡ none
  unfolding find
  find_below k lo [] s h = refl
  find_below k lo ((j, v) ∷ m) s h = ground (arith, find_below k (suc j) m s.1)

  pub IsSorted-mono : (lo hi : ℕ) (m : OrdMap V) → lo ≤ hi → IsSorted hi m → IsSorted lo m
  IsSorted-mono lo hi [] h s = tt
  IsSorted-mono lo hi ((k, v) ∷ m) h s = (omega arith, s.1)

  pub find-insert :
      (q k : ℕ) (v : V) (m : OrdMap V)
      → find k m ≡ none
      → find q (insert k v m) ≡ (if q == k then some v else find q m)
  unfolding find insert
  find-insert q k v [] h = refl
  find-insert q k v ((j, w) ∷ m) h = ground (arith, find-insert q k v m)

  pub insert-IsSorted :
      (k lo : ℕ) (v : V) (m : OrdMap V)
      → find k m ≡ none
      → lo ≤ k
      → IsSorted lo m
      → IsSorted lo (insert k v m)
  unfolding find insert
  insert-IsSorted k lo v [] h le s = omega arith
  insert-IsSorted k lo v ((j, w) ∷ m) h le s = ground (arith, insert-IsSorted k (suc j) v m)

  pub length-insert : (k : ℕ) (v : V) (m : OrdMap V) → length (insert k v m) ≡ length m + 1
  unfolding insert
  length-insert k v [] = refl
  length-insert k v ((j, w) ∷ m) = ground (arith, length-insert k v m)

  pub find-erase :
      (q k lo : ℕ) (m : OrdMap V)
      → IsSorted lo m
      → find q (erase k m) ≡ (if q == k then none else find q m)
  unfolding find erase
  find-erase q k lo [] s = ground arith
  find-erase q k lo ((j, w) ∷ m) s =
      ground (arith, find-erase q k (suc j) m s.1, find_below q (suc j) m s.1)

  pub erase-IsSorted : (k lo : ℕ) (m : OrdMap V) → IsSorted lo m → IsSorted lo (erase k m)
  unfolding erase
  erase-IsSorted k lo [] s = tt
  erase-IsSorted k lo ((j, w) ∷ m) s =
      ground (arith, erase-IsSorted k (suc j) m s.1, IsSorted-mono lo (suc j) m)

  pub length-erase :
      (k : ℕ) (m : OrdMap V) (v : V) → find k m ≡ some v → length (erase k m) + 1 ≡ length m
  unfolding find erase
  length-erase k [] v h = cc
  length-erase k ((j, w) ∷ m) v h = ground (arith, length-erase k m v)
