-- ===== src/Switch/Forward/Flood.antt =====
-- server/switch/switch.cc: which ports a packet reaches that goes to all of them.
use l4_virtio_net_switch.Prelude.{
  ℕ, zero, suc, ◌≡◌, refl, Bool, true, false, not, ◌&&◌, ◌⊎◌, Option, none, some, List, [], ◌∷◌,
  ◌==◌, if◌then◌else◌, Bool-cases, inl, inr,
}
use l4_virtio_net_switch.Buffer.{DataBuffer}
use l4_virtio_net_switch.Transfer.Content.{NoneEmpty}
use l4_virtio_net_switch.Request.{Request}
use l4_virtio_net_switch.Port.{Port, Done, match_vlan}
use l4_virtio_net_switch.Port.Deliver.{Handled, handle_request-Handled}
use l4_virtio_net_switch.Switch.Forward.{Status, normal, exception, crash, put, flood}

module _ (db : DataBuffer) (filter : List ℕ → ℕ → Bool) (garbage : ℕ) (src : Port) (r : Request)
    (vlan : ℕ) where
  -- The ports to send to: the others of the packet's VLAN.
  abbrev pub addressed : Port → Bool
  addressed p = not (p.self == src.self) && match_vlan p vlan

  -- The first `n` slots before and after, up to the first that is empty: the ports addressed have
  -- handled the request, the others are as they were. Nothing has changed behind an empty slot.
  abbrev pub Reached : ℕ → List (Option Port) → List (Option Port) → Type 0
  Reached zero ps qs = qs ≡ ps
  Reached (suc n) [] qs = qs ≡ []
  Reached (suc n) (none ∷ ps) qs = qs ≡ none ∷ ps
  Reached (suc n) (some p ∷ ps) [] = ⊥
  Reached (suc n) (some p ∷ ps) (none ∷ qs) = ⊥
  Reached (suc n) (some p ∷ ps) (some q ∷ qs) =
      (if addressed p then Handled db src p r (Done.ok q) else (q ≡ p)) × Reached n ps qs

  -- As above up to a port that is addressed, which an exception has left as `Handled` tells; the
  -- ports behind it are as they were.
  abbrev pub Broken : ℕ → List (Option Port) → List (Option Port) → Type 0
  Broken zero ps qs = ⊥
  Broken (suc n) [] qs = ⊥
  Broken (suc n) (none ∷ ps) qs = ⊥
  Broken (suc n) (some p ∷ ps) [] = ⊥
  Broken (suc n) (some p ∷ ps) (none ∷ qs) = ⊥
  Broken (suc n) (some p ∷ ps) (some q ∷ qs) =
      ((if addressed p then Handled db src p r (Done.ok q) else (q ≡ p)) × Broken n ps qs)
      ⊎ ((addressed p ≡ true) × Handled db src p r (Done.threw q) × (qs ≡ ps))

  abbrev pub Spread : ℕ → List (Option Port) → List (Option Port) × Status → Type 0
  Spread n ps (qs, normal) = Reached n ps qs
  Spread n ps (qs, exception) = Broken n ps qs
  Spread n ps (qs, crash) = ⊥

  put-Spread :
      (n : ℕ) (p : Port) (ps : List (Option Port)) (d : Done) (f : List (Option Port) × Status)
      → addressed p ≡ true
      → Handled db src p r d
      → Spread n ps f
      → Spread (suc n) (some p ∷ ps) (put db filter garbage src r p d ps f)
  put-Spread n p ps (Done.ok q) (qs, normal) e h s = (rw e h, s)
  put-Spread n p ps (Done.ok q) (qs, exception) e h s = inl (rw e h, s)
  put-Spread n p ps (Done.ok q) (qs, crash) e h s = s
  put-Spread n p ps (Done.threw q) f e h s = inr (e, h, refl)
  put-Spread n p ps Done.failed f e h s = h

  pass-Spread :
      (n : ℕ) (p : Port) (ps : List (Option Port)) (f : List (Option Port) × Status)
      → addressed p ≡ false
      → Spread n ps f
      → Spread (suc n) (some p ∷ ps) (some p ∷ f.0, f.1)
  pass-Spread n p ps (qs, normal) e s = (rw e refl, s)
  pass-Spread n p ps (qs, exception) e s = inl (rw e refl, s)
  pass-Spread n p ps (qs, crash) e s = s

  -- A packet for all ports is handled by every other port of its VLAN that stands in the first `n`
  -- slots before an empty one, and by no other port. An exception ends this at one of these ports:
  -- those before it have handled the packet, it keeps what waits in it and what its driver has, and
  -- those behind it are as they were. The descriptors of the packet are not empty, but for the
  -- first.
  pub flood-Spread :
      (n : ℕ) (ps : List (Option Port))
      → NoneEmpty r.more
      → Spread n ps (flood db filter garbage src r vlan n ps)
  unfolding flood
  flood-Spread zero ps full = refl
  flood-Spread (suc n) [] full = refl
  flood-Spread (suc n) (none ∷ ps) full = refl
  flood-Spread (suc n) (some p ∷ ps) full = elim (Bool-cases (addressed p)) [
    | inl e ↦ rw e (
        put-Spread n p ps _ _ e (handle_request-Handled db src p r garbage full)
          (flood-Spread n ps full))
    | inr e ↦ rw e (pass-Spread n p ps _ e (flood-Spread n ps full))
  ]
