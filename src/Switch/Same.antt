-- ===== src/Switch/Same.antt =====
-- server/switch/switch.cc, `check_ports`: what the deletion of a port leaves in the slots.
use l4_virtio_net_switch.Prelude.{
  ℕ, zero, suc, ◌≡◌, refl, ap, ◌∙◌, ◌||◌, Option, none, some, List, [], ◌∷◌, ◌==◌, map,
  if◌then◌else◌, get_or, set, arith, Option-cases, Bool-cases, inl, inr, ==_iff,
}
use l4_virtio_net_switch.Transfer.{Transfer}
use l4_virtio_net_switch.Request.{finish_request}
use l4_virtio_net_switch.Port.{Port, delete_pending}
use l4_virtio_net_switch.Switch.{
  Switch, Ended, ok, threw, crashed, port_at, store, release, release_all, held_in, held_by,
  delete_port,
}

-- The addresses of the ports in the slots.
abbrev pub self_of : Option Port → Option ℕ
self_of none = none
self_of (some p) = some p.self

abbrev pub selves : List (Option Port) → List (Option ℕ)
selves ps = map self_of ps

store-selves : (p : Port) (ps : List (Option Port)) → selves (store p ps) ≡ selves ps
unfolding store
store-selves p [] = refl
store-selves p (none ∷ ps) = ap (λ l. none ∷ l) (store-selves p ps)
store-selves p (some o ∷ ps) = elim (Bool-cases (o.self == p.self)) [
  | inl e ↦ rw (e, (==_iff o.self p.self).0 e) refl
  | inr e ↦ rw e (ap (λ l. some o.self ∷ l) (store-selves p ps))
]

-- The same ports stand in the same slots, and the bound is the same.
abbrev pub Same : Switch → Switch → Type 0
Same sw sw' =
    (selves sw'.ports ≡ selves sw.ports) × (sw'.monitor ≡ sw.monitor) × (sw'.max_used ≡ sw.max_used)

abbrev pub EndsSame : Switch → Ended → Type 0
EndsSame sw (ok sw') = Same sw sw'
EndsSame sw (threw sw') = ⊥
EndsSame sw crashed = Unit {0}

release-EndsSame : (r : ℕ × ℕ) (sw : Switch) → EndsSame sw (release r sw)
unfolding release
release-EndsSame r sw = elim (Bool-cases (held_in r sw.ports || held_by r sw.monitor)) [
  | inl e ↦ rw e (refl, refl, refl)
  | inr e ↦ elim (Option-cases (port_at r.0 sw.ports)) [
    | inl f ↦ rw (e, f) tt
    | inr (p, f) ↦
        rw (e, f) (store-selves (record p { tx = finish_request r.1 p.tx }) sw.ports, refl, refl)
  ]
]

Same-trans : (a b c : Switch) → Same a b → Same b c → Same a c
Same-trans a b c s t = (t.0 ∙ s.0, t.1 ∙ s.1, t.2 ∙ s.2)

release_all-EndsSame : (ts : List Transfer) (sw : Switch) → EndsSame sw (release_all ts sw)
unfolding release_all
release_all-EndsSame [] sw = (refl, refl, refl)
release_all-EndsSame (t ∷ ts) sw =
    after (release t.request sw) (release-EndsSame t.request sw) (release_all-EndsSame ts)
  where
    from : (sw' : Switch) (e : Ended) → Same sw sw' → EndsSame sw' e → EndsSame sw e
    from sw' (ok sw'') s t = Same-trans sw sw' sw'' s t
    from sw' (threw sw'') s t = t
    from sw' crashed s t = t

    after :
        (e : Ended)
        → EndsSame sw e
        → ((sw' : Switch) → EndsSame sw' (release_all ts sw'))
        → EndsSame sw
            (elim e [ ok sw' ↦ release_all ts sw' | threw sw' ↦ threw sw' | crashed ↦ crashed ])
    after (ok sw') s ih = from sw' (release_all ts sw') s (ih sw')
    after (threw sw') s ih = s
    after crashed s ih = s

pub delete_port-EndsSame : (p : Port) (sw : Switch) → EndsSame sw (delete_port p sw)
unfolding delete_port
delete_port-EndsSame p sw = elim (Option-cases (delete_pending p.pending_requests p.rx)) [
  | inl e ↦ rw (delete_port, e) tt
  | inr (q, e) ↦ rw (delete_port, e) (release_all-EndsSame p.pending_requests sw)
]

pub selves-set :
    (ps : List (Option Port)) (i j : ℕ)
    → get_or (selves (set ps i none)) j none ≡ (if j == i then none else get_or (selves ps) j none)
selves-set [] i j = ground arith
selves-set (p ∷ ps) zero zero = refl
selves-set (p ∷ ps) zero (suc j) = ground arith
selves-set (p ∷ ps) (suc i) zero = ground arith
selves-set (p ∷ ps) (suc i) (suc j) = ground (arith, selves-set ps i j)
