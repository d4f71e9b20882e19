-- ===== src/Switch/Slots.antt =====
-- What holds of a switch between two calls: its slots, and the ports that its MAC table leads to.
use l4_virtio_net_switch.Prelude.{
  ℕ, zero, suc, ◌+◌, ◌≤◌, ◌<◌, ◌≡◌, refl, ◌∙◌, Bool, true, false, not, ◌&&◌, ◌||◌, Option, none,
  some, is_some, List, [], ◌∷◌, ◌==◌, ltb, get_or, set, length, arith, Option-cases, Bool-cases,
  inl, inr, ◌⊎◌, length-set, length-replicate, get_or-set, get_or-replicate,
}
use l4_virtio_net_switch.Prelude.OrdMap.{find}
use l4_virtio_net_switch.MacAddr.{is_unknown}
use l4_virtio_net_switch.MacTable.{lookup, init}
use l4_virtio_net_switch.MacTable.Inv.{Inv, init-Inv}
use l4_virtio_net_switch.Port.{Port}
use l4_virtio_net_switch.Switch.{
  Switch, table_size, new_switch, free_from, lookup_free_slot, mac_in_use, place, add_port, port_at,
  store,
}

abbrev pub slot : List (Option Port) → ℕ → Option Port
slot ps i = get_or ps i none

-- A port of the switch is at an address.
abbrev pub present : List (Option Port) → ℕ → Bool
present ps a = is_some (port_at a ps)

-- The slots have their number, none from `_max_used` on is taken, the MAC table is in order, and
-- every port that it leads to is there.
pub record WellFormed (sw : Switch) : Type 0 where
  pub sized : length sw.ports ≡ sw.max_ports
  pub used : sw.max_used ≤ sw.max_ports
  pub unused : (i : ℕ) → sw.max_used ≤ i → slot sw.ports i ≡ none
  pub table : Inv table_size sw.mac_table
  pub targets : (q a : ℕ) → lookup sw.mac_table q ≡ some a → present sw.ports a ≡ true

-- The new slots hold ports where the old ones do, at the same addresses.
pub record Kept (ps qs : List (Option Port)) : Type 0 where
  pub as_long : length qs ≡ length ps
  pub as_full : (i : ℕ) → is_some (slot qs i) ≡ is_some (slot ps i)
  pub as_present : (a : ℕ) → present qs a ≡ present ps a

pub Kept-refl : (ps : List (Option Port)) → Kept ps ps
Kept-refl ps = record { as_long = refl; as_full = λ i. refl; as_present = λ a. refl }

full_cons :
    (o p : Option Port) (ps qs : List (Option Port))
    → is_some p ≡ is_some o
    → ((i : ℕ) → is_some (slot qs i) ≡ is_some (slot ps i))
    → (i : ℕ) → is_some (slot (p ∷ qs) i) ≡ is_some (slot (o ∷ ps) i)
full_cons o p ps qs h t zero = h
full_cons o p ps qs h t (suc i) = t i

pub Kept-none : (ps qs : List (Option Port)) → Kept ps qs → Kept (none ∷ ps) (none ∷ qs)
unfolding port_at
Kept-none ps qs k = record {
  as_long = ground (arith, k.as_long);
  as_full = full_cons none none ps qs refl k.as_full;
  as_present = λ a. k.as_present a;
}

pub Kept-some :
    (o p : Port) (ps qs : List (Option Port))
    → p.self ≡ o.self
    → Kept ps qs
    → Kept (some o ∷ ps) (some p ∷ qs)
unfolding port_at
Kept-some o p ps qs same k = record {
  as_long = ground (arith, k.as_long);
  as_full = full_cons (some o) (some p) ps qs refl k.as_full;
  as_present = λ a. ground (arith, k.as_present a);
}

pub store-Kept : (p : Port) (ps : List (Option Port)) → Kept ps (store p ps)
unfolding store
store-Kept p [] = Kept-refl []
store-Kept p (none ∷ ps) = Kept-none ps (store p ps) (store-Kept p ps)
store-Kept p (some o ∷ ps) = elim (Bool-cases (o.self == p.self)) [
  | inl e ↦ rw e (Kept-some o p ps ps (ground arith) (Kept-refl ps))
  | inr e ↦ rw e (Kept-some o o ps (store p ps) refl (store-Kept p ps))
]

pub Kept-WellFormed :
    (sw : Switch) (ps : List (Option Port))
    → WellFormed sw
    → Kept sw.ports ps
    → WellFormed (record sw { ports = ps })
Kept-WellFormed sw ps v k = record {
  sized = k.as_long ∙ v.sized;
  used = v.used;
  unused = λ i h. ground (arith, k.as_full i, v.unused i h);
  table = v.table;
  targets = λ q a e. k.as_present a ∙ v.targets q a e;
}

-- What `lookup_free_slot` answers from slot `i` on: the first empty slot, or that there is none.
abbrev pub FirstFree : ℕ → List (Option Port) → Option ℕ → Type 0
FirstFree i ps none = (k : ℕ) → k < length ps → is_some (slot ps k) ≡ true
FirstFree i ps (some j) =
    (n : ℕ) × (j ≡ i + n)
    × (n < length ps)
    × (slot ps n ≡ none)
    × ((k : ℕ) → k < n → is_some (slot ps k) ≡ true)

free_from-FirstFree : (i : ℕ) (ps : List (Option Port)) → FirstFree i ps (free_from i ps)
unfolding free_from
free_from-FirstFree i [] = λ k h. elim h [ ]
free_from-FirstFree i (none ∷ ps) = (0, omega arith, omega arith, refl, λ k h. elim h [ ])
free_from-FirstFree i (some p ∷ ps) = shift (free_from (i + 1) ps) (free_from-FirstFree (i + 1) ps)
  where
    taken :
        (k m : ℕ)
        → ((l : ℕ) → l < m → is_some (slot ps l) ≡ true)
        → k < suc m
        → is_some (slot (some p ∷ ps) k) ≡ true
    taken zero m full h = refl
    taken (suc k) m full h = full k (omega arith)

    shift : (o : Option ℕ) → FirstFree (i + 1) ps o → FirstFree i (some p ∷ ps) o
    shift none full = λ k h. taken k (length ps) full h
    shift (some j) (n, e, le, free, full) =
        (suc n, omega arith, omega arith, free, λ k h. taken k n full h)

-- The new switch is well-formed, whatever its monitor is.
pub new_switch-WellFormed : (garbage : Option Port) (n : ℕ) → WellFormed (new_switch garbage n)
unfolding new_switch lookup init find
new_switch-WellFormed garbage n = record {
  sized = length-replicate n none;
  used = omega arith;
  unused = λ i h. get_or-replicate n i none;
  table = init-Inv table_size (omega arith);
  targets = λ q a e. absurd (ground arith);
}

pub present-set :
    (ps : List (Option Port)) (i : ℕ) (p : Port) (a : ℕ)
    → i < length ps
    → slot ps i ≡ none
    → present (set ps i (some p)) a ≡ ((p.self == a) || present ps a)
unfolding port_at
present-set [] i p a h e = elim h [ ]
present-set (none ∷ ps) zero p a h e = ground arith
present-set (some o ∷ ps) zero p a h e = absurd (ground arith)
present-set (none ∷ ps) (suc i) p a h e = present-set ps i p a (omega arith) e
present-set (some o ∷ ps) (suc i) p a h e = ground (arith, present-set ps i p a)

-- The removal of a port leaves those at other addresses.
pub present-set-none :
    (ps : List (Option Port)) (i : ℕ) (p : Port) (a : ℕ)
    → slot ps i ≡ some p
    → (a == p.self) ≡ false
    → present ps a ≡ true
    → present (set ps i none) a ≡ true
unfolding port_at
present-set-none [] i p a e other here = here
present-set-none (none ∷ ps) zero p a e other here = absurd (ground arith)
present-set-none (some o ∷ ps) zero p a e other here = ground arith
present-set-none (none ∷ ps) (suc i) p a e other here = present-set-none ps i p a e other here
present-set-none (some o ∷ ps) (suc i) p a e other here = ground (arith, present-set-none ps i p a)

-- What `add_port` does: an address that another port has is refused, and so is a port for which
-- there is no slot; else it is in the first empty slot, which alone has changed.
pub add_port_lem :
    (port : Port) (sw : Switch)
    → ((not (is_unknown port.mac) && mac_in_use port.mac sw.ports ≡ true)
        × (add_port port sw ≡ (false, sw)))
      ⊎ (((k : ℕ) → k < length sw.ports → is_some (slot sw.ports k) ≡ true)
          × (add_port port sw ≡ (false, sw)))
      ⊎ ((i : ℕ) × FirstFree 0 sw.ports (some i) × (add_port port sw ≡ place port (some i) sw))
unfolding add_port lookup_free_slot place
add_port_lem port sw =
    elim (Bool-cases (not (is_unknown port.mac) && mac_in_use port.mac sw.ports)) [
      | inl e ↦ inl (e, rw e refl)
      | inr e ↦ elim (Option-cases (free_from 0 sw.ports)) [
        | inl f ↦ inr (inl (rw f at (free_from-FirstFree 0 sw.ports), rw (e, f) refl))
        | inr (i, f) ↦ inr (inr (i, rw f at (free_from-FirstFree 0 sw.ports), rw (e, f) refl))
      ]
    ]

place-WellFormed :
    (port : Port) (i : ℕ) (sw : Switch)
    → WellFormed sw
    → FirstFree 0 sw.ports (some i)
    → WellFormed (place port (some i) sw).1
unfolding place
place-WellFormed port i sw v (n, e, le, free, full) =
    let same : i ≡ n = omega arith in
    let at_i : slot sw.ports i ≡ none = rw same free in
    let in_slots : i < length sw.ports = omega arith in
    let below : i ≤ sw.max_used = elim (Bool-cases (ltb sw.max_used n)) [
      | inl lt ↦ absurd (ground (arith, full sw.max_used, v.unused sw.max_used))
      | inr ge ↦ ground arith
    ] in
    record {
      sized = length-set sw.ports i (some port) ∙ v.sized;
      used = ground (arith, v.used, v.sized);
      unused = λ k h. ground (arith, get_or-set sw.ports i k (some port) none in_slots, v.unused k);
      table = v.table;
      targets =
          λ q a f. present-set sw.ports i port a in_slots at_i ∙ ground (arith, v.targets q a f);
    }

-- Adding a port keeps the switch well-formed.
pub add_port-WellFormed :
    (port : Port) (sw : Switch) → WellFormed sw → WellFormed (add_port port sw).1
add_port-WellFormed port sw v = elim (add_port_lem port sw) [
  | inl (_, e) ↦ rw e v
  | inr (inl (_, e)) ↦ rw e v
  | inr (inr (i, f, e)) ↦ rw e (place-WellFormed port i sw v f)
]
