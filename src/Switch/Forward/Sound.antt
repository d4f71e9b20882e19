-- ===== src/Switch/Forward/Sound.antt =====
-- server/switch/switch.cc, `handle_tx_queue`: the state that it goes through, with its lemmas.
use l4_virtio_net_switch.Prelude.{
  ℕ, zero, suc, ◌≡◌, ◌∙◌, true, ◌||◌, get_or, set, Option, none, some, List, [], ◌∷◌, ◌==◌, arith,
  Option-cases, Bool-cases, inl, inr, ==_iff,
}
use l4_virtio_net_switch.Request.{finish_request}
use l4_virtio_net_switch.Port.{Port}
use l4_virtio_net_switch.Port.Deliver.{Waiting}
use l4_virtio_net_switch.Switch.{
  Switch, Ended, ok, threw, crashed, port_at, store, release, held_in, held_by,
}
use l4_virtio_net_switch.Switch.Slots.{WellFormed, Kept, store-Kept, Kept-WellFormed, present}

-- `Who` holds of the ports whose requests may wait, and `Own` of ports that are there.
module _ (Who Own : ℕ → Type 0) where
  abbrev pub WaitsIn : Option Port → Type 0
  WaitsIn none = Unit {0}
  WaitsIn (some p) = Waiting Who p.pending_requests

  abbrev pub AllWaiting : List (Option Port) → Type 0
  AllWaiting [] = Unit {0}
  AllWaiting (o ∷ ps) = WaitsIn o × AllWaiting ps

  -- A well-formed switch in which the ports are there that `Own` holds of, and in whose ports every
  -- transfer is in order.
  pub record Good (sw : Switch) : Type 0 where
    pub formed : WellFormed sw
    pub owners : (b : ℕ) → Own b → present sw.ports b ≡ true
    pub waiting : AllWaiting sw.ports
    pub monitored : WaitsIn sw.monitor

  -- An operation that ends, without a crash, in a good switch.
  abbrev pub EndsGood : Ended → Type 0
  EndsGood (ok sw) = Good sw
  EndsGood (threw sw) = Good sw
  EndsGood crashed = ⊥

  pub port_at-Waiting :
      (a : ℕ) (ps : List (Option Port)) (p : Port)
      → AllWaiting ps
      → port_at a ps ≡ some p
      → Waiting Who p.pending_requests × (p.self ≡ a)
  unfolding port_at
  port_at-Waiting a [] p w e = absurd (ground arith)
  port_at-Waiting a (none ∷ ps) p w e = port_at-Waiting a ps p w.1 e
  port_at-Waiting a (some o ∷ ps) p w e = elim (Bool-cases (o.self == a)) [
    | inl f ↦ let same : p ≡ o = ground arith in rw same (w.0, (==_iff o.self a).0 f)
    | inr f ↦ port_at-Waiting a ps p w.1 (ground arith)
  ]

  pub store-Waiting :
      (p : Port) (ps : List (Option Port))
      → AllWaiting ps
      → Waiting Who p.pending_requests
      → AllWaiting (store p ps)
  unfolding store
  store-Waiting p [] w v = tt
  store-Waiting p (none ∷ ps) w v = (tt, store-Waiting p ps w.1 v)
  store-Waiting p (some o ∷ ps) w v = elim (Bool-cases (o.self == p.self)) [
    | inl f ↦ rw f (v, w.1)
    | inr f ↦ rw f (w.0, store-Waiting p ps w.1 v)
  ]

  pub set-AllWaiting :
      (ps : List (Option Port)) (i : ℕ) (o : Option Port)
      → AllWaiting ps
      → WaitsIn o
      → AllWaiting (set ps i o)
  set-AllWaiting [] i o w v = tt
  set-AllWaiting (p ∷ ps) zero o w v = (v, w.1)
  set-AllWaiting (p ∷ ps) (suc i) o w v = (w.0, set-AllWaiting ps i o w.1 v)

  pub slot-WaitsIn : (ps : List (Option Port)) (i : ℕ) → AllWaiting ps → WaitsIn (get_or ps i none)
  slot-WaitsIn [] i w = tt
  slot-WaitsIn (p ∷ ps) zero w = w.0
  slot-WaitsIn (p ∷ ps) (suc i) w = slot-WaitsIn ps i w.1

  -- The ports of a good switch, changed in place.
  pub Good-ports :
      (sw : Switch) (ps : List (Option Port))
      → Good sw
      → Kept sw.ports ps
      → AllWaiting ps
      → Good (record sw { ports = ps })
  Good-ports sw ps g k w = record {
    formed = Kept-WellFormed sw ps g.formed k;
    owners = λ b o. k.as_present b ∙ g.owners b o;
    waiting = w;
    monitored = g.monitored;
  }

  pub Good-store :
      (sw : Switch) (p : Port)
      → Good sw
      → Waiting Who p.pending_requests
      → Good (record sw { ports = store p sw.ports })
  Good-store sw p g w =
      Good-ports sw (store p sw.ports) g (store-Kept p sw.ports)
        (store-Waiting p sw.ports g.waiting w)

  -- The end of a reference to a request of the port at `a`.
  pub release-Good : (a head : ℕ) (sw : Switch) → Own a → Good sw → EndsGood (release (a, head) sw)
  unfolding release
  release-Good a head sw o g =
      elim (Bool-cases (held_in (a, head) sw.ports || held_by (a, head) sw.monitor)) [
        | inl e ↦ rw e g
        | inr e ↦ elim (Option-cases (port_at a sw.ports)) [
          | inl f ↦ absurd (ground (arith, g.owners a o))
          | inr (p, f) ↦
              rw (e, f)
                (Good-store sw (record p { tx = finish_request head p.tx }) g
                  (port_at-Waiting a sw.ports p g.waiting f).0)
        ]
      ]

  pub Good-monitor :
      (sw : Switch) (o : Option Port) → Good sw → WaitsIn o → Good (record sw { monitor = o })
  Good-monitor sw o g w = record {
    formed = record {
      sized = g.formed.sized;
      used = g.formed.used;
      unused = g.formed.unused;
      table = g.formed.table;
      targets = g.formed.targets;
    };
    owners = g.owners;
    waiting = g.waiting;
    monitored = w;
  }
