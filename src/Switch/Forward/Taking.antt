-- ===== src/Switch/Forward/Taking.antt =====
-- server/switch/switch.cc, `handle_tx_queue`: the request that it takes.
use l4_virtio_net_switch.Prelude.{
  ◌≡◌, refl, Bool, true, false, not, Option, none, some, List, [], ◌∷◌, ◌==◌, if◌then◌else◌,
  Option-cases, Bool-cases, List-cases, inl, inr,
}
use l4_virtio_net_switch.Buffer.{Buffer, DataBuffer, of_desc}
use l4_virtio_net_switch.Vlan.{hdr_size}
use l4_virtio_net_switch.Transfer.{Chain}
use l4_virtio_net_switch.Transfer.Content.{NoneEmpty}
use l4_virtio_net_switch.Request.{
  Request, TxQueue, after_header, new_request, from_chain, get_request,
}
use l4_virtio_net_switch.Port.{Port, get_tx_request, admits}

-- No chain that the driver of the sender offers has an empty descriptor behind its first.
abbrev pub FullChains : List Chain → Type 0
FullChains [] = Unit {0}
FullChains (c ∷ cs) = NoneEmpty c.more × FullChains cs

-- A request that a queue yields.
abbrev pub Requested : Option Request → Type 0
Requested none = Unit {0}
Requested (some r) = NoneEmpty r.more

-- What `get_tx_request` leaves of the port `p`.
abbrev pub Taken : Port → Option Request × Port → Type 0
Taken p (o, q) = Requested o × (q.self ≡ p.self) × (q.pending_requests ≡ p.pending_requests)

module _ (db : DataBuffer) where
  pub after_header-Requested :
      (c : Chain) (pkt : Buffer) → NoneEmpty c.more → Requested (after_header db c pkt)
  unfolding after_header
  after_header-Requested c pkt full = elim (Bool-cases (db.done pkt)) [
    | inr e ↦ rw e full
    | inl e ↦ elim (List-cases c.more) [
      | inl f ↦ rw (e, f) tt
      | inr (b, rest, f) ↦ let full' : NoneEmpty (b ∷ rest) = rw f at full in rw (e, f) full'.1
    ]
  ]

  pub new_request-Requested : (c : Chain) → NoneEmpty c.more → Requested (new_request db c)
  unfolding new_request
  new_request-Requested c full =
      elim (Bool-cases ((db.skip (of_desc c.first) hdr_size).0 == hdr_size)) [
        | inl e ↦ rw e (after_header-Requested c _ full)
        | inr e ↦ rw e tt
      ]

  pub get_request-Requested : (q : TxQueue) → FullChains q.avail → Requested (get_request db q).0
  unfolding get_request from_chain
  get_request-Requested q f =
      either (not q.ready) (none, q) (from_chain db q q.avail) tt (from q.avail f)
    where
      either :
          (b : Bool) (x y : Option Request × TxQueue)
          → Requested x.0
          → Requested y.0
          → Requested (if b then x else y).0
      either true x y v w = v
      either false x y v w = w

      from : (cs : List Chain) → FullChains cs → Requested (from_chain db q cs).0
      from [] f = tt
      from (c ∷ cs) f = elim (Option-cases (new_request db c)) [
        | inl e ↦ rw (Requested, from_chain, e) tt
        | inr (r, e) ↦
            let full : Requested (some r) = rw e at (new_request-Requested c f.0) in
            rw (Requested, from_chain, e) full
      ]

  pub get_tx_request-Taken : (p : Port) → FullChains p.tx.avail → Taken p (get_tx_request db p)
  unfolding get_tx_request
  get_tx_request-Taken p f = elim (Option-cases (get_request db p.tx).0) [
    | inl e ↦ rw (get_tx_request, e) (tt, refl, refl)
    | inr (r, e) ↦
        let full : Requested (some r) = rw e at (get_request-Requested p.tx f) in
        elim (Bool-cases (admits p r)) [
          | inl a ↦ rw (get_tx_request, e, a) (full, refl, refl)
          | inr a ↦ rw (get_tx_request, e, a) (tt, refl, refl)
        ]
  ]
