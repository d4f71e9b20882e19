-- ===== src/Switch/Forward/Account.antt =====
-- server/switch/switch.cc, `handle_tx_queue`: what becomes of the request that it takes.
use l4_virtio_net_switch.Prelude.{
  ℕ, ◌≡◌, refl, sym, ap, ◌∙◌, Bool, true, false, ◌||◌, Option, none, some, List, [], ◌∷◌, ◌==◌,
  if◌then◌else◌, arith, Bool-cases, inl, inr, ==_iff,
}
use mathlib.Core.Path.{subst}
use l4_virtio_net_switch.Buffer.{DataBuffer}
use l4_virtio_net_switch.Request.{Request, finish_request}
use l4_virtio_net_switch.Port.{Port, get_tx_request}
use l4_virtio_net_switch.Switch.{
  Switch, Ended, ok, threw, crashed, port_at, store, holds, held_in, held_by, release,
}
use l4_virtio_net_switch.Switch.Forward.{rethrow, end_request, handle_tx_queue}
use l4_virtio_net_switch.Switch.Forward.Sound.{Good, EndsGood, Good-store, port_at-Waiting}
use l4_virtio_net_switch.Switch.Forward.Taking.{FullChains, Requested, get_tx_request-Taken}
use l4_virtio_net_switch.Switch.Forward.Frame.{Frames, port_at-store, forward-Frames}
use l4_virtio_net_switch.Switch.Forward.Deliver.{forward-Good}

-- A transfer that waits in some port or in the monitor port holds the request.
abbrev pub waits : ℕ × ℕ → Switch → Bool
waits r sw = held_in r sw.ports || held_by r sw.monitor

-- A write that leaves what waits in a port.
pub store-held_in :
    (r : ℕ × ℕ) (q p : Port) (ps : List (Option Port))
    → port_at q.self ps ≡ some p
    → q.pending_requests ≡ p.pending_requests
    → held_in r (store q ps) ≡ held_in r ps
unfolding store held_in port_at
store-held_in r q p [] e same = refl
store-held_in r q p (none ∷ ps) e same = store-held_in r q p ps e same
store-held_in r q p (some o ∷ ps) e same = elim (Bool-cases (o.self == q.self)) [
  | inl f ↦ let is : o ≡ p = ground arith in rw (f, same, is) refl
  | inr f ↦
      rw f (ap (λ b. holds r o.pending_requests || b) (store-held_in r q p ps (ground arith) same))
]

stored :
    (q p : Port) (ps : List (Option Port))
    → port_at q.self ps ≡ some p
    → port_at q.self (store q ps) ≡ some q
stored q p ps e =
    let own : (q.self == q.self) ≡ true = (==_iff q.self q.self).1 refl in
    port_at-store q.self q ps ∙ rw (own, e) refl

module _ (src : Port) (head : ℕ) where
  -- The port that sent the request `head`: it has it back if no transfer holds it, and only then.
  abbrev pub Settled : Switch → Type 0
  Settled sw =
      port_at src.self sw.ports
      ≡ some (
          if waits (src.self, head) sw then src else record src { tx = finish_request head src.tx })

  abbrev pub Accounted : Ended → Type 0
  Accounted (ok sw) = Settled sw
  Accounted (threw sw) = Settled sw
  Accounted crashed = ⊥

  release-Accounted :
      (sw : Switch) → port_at src.self sw.ports ≡ some src → Accounted (release (src.self, head) sw)
  unfolding release
  release-Accounted sw e = elim (Bool-cases (waits (src.self, head) sw)) [
    | inl w ↦ rw (w, w) e
    | inr w ↦
        let q : Port = record src { tx = finish_request head src.tx } in
        let free : waits (src.self, head) (record sw { ports = store q sw.ports }) ≡ false =
          ap (λ b. b || held_by (src.self, head) sw.monitor)
            (store-held_in (src.self, head) q src sw.ports e refl)
          ∙ w in
        rw (w, e) (stored q src sw.ports e ∙ rw free refl)
  ]

  rethrow-Accounted : (e : Ended) → Accounted e → Accounted (rethrow e)
  rethrow-Accounted (ok sw) s = s
  rethrow-Accounted (threw sw) s = s
  rethrow-Accounted crashed s = s

  end_request-Accounted :
      (Who Own : ℕ → Type 0) (e : Ended)
      → Frames src.self (some src) e
      → EndsGood Who Own e
      → Accounted (end_request (src.self, head) e)
  end_request-Accounted Who Own (ok sw) f g = release-Accounted sw f
  end_request-Accounted Who Own (threw sw) f g = rethrow-Accounted _ (release-Accounted sw f)
  end_request-Accounted Who Own crashed f g = g

module _ (Who Own : ℕ → Type 0) (db : DataBuffer) (filter : List ℕ → ℕ → Bool) (garbage : ℕ) where
  -- No request is lost: once the switch has forwarded the request that it has taken from a port, or
  -- an exception has ended that, the sender has got its chain back if no transfer waits for it, and
  -- has not if one does; else the sender is as `get_tx_request` has left it. The switch is
  -- well-formed before, its transfers are in order and of ports that `Who` holds of, and the ports
  -- that `Own` holds of are there; both hold of the sender. The descriptors that the sender offers
  -- are not empty, but for the first of a chain.
  pub handle_tx_queue-Accounted :
      (port : ℕ) (p : Port) (r : Request) (sw : Switch)
      → Good Who Own sw
      → Who port
      → Own port
      → port_at port sw.ports ≡ some p
      → FullChains p.tx.avail
      → (get_tx_request db p).0 ≡ some r
      → Accounted (get_tx_request db p).1 r.head (handle_tx_queue db filter garbage port sw)
  unfolding handle_tx_queue
  handle_tx_queue-Accounted port p r sw g who own e f taken =
      let (waiting, at_port) = port_at-Waiting Who Own port sw.ports p g.waiting e in
      let src : Port = (get_tx_request db p).1 in
      let (full, same, kept) = get_tx_request-Taken db p f in
      let is : port ≡ src.self = sym (same ∙ at_port) in
      let full' : Requested (some r) = rw taken at full in
      let sw' : Switch = record sw { ports = store src sw.ports } in
      let there : port_at src.self sw'.ports ≡ some src =
        stored src p sw.ports (subst (λ a. port_at a sw.ports ≡ some p) is e) in
      rw (handle_tx_queue, e, taken)
        (end_request-Accounted src r.head Who Own _
          (rw there at (forward-Frames db filter garbage src r sw'))
          (forward-Good Who Own db filter garbage src r full' (subst Who is who) (subst Own is own)
            sw' (Good-store Who Own sw src g (rw kept waiting))))
