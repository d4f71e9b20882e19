-- ===== src/Switch/Irq/Yield.antt =====
-- server/switch/port.h, `get_tx_request`: where the chain goes that it takes.
use l4_virtio_net_switch.Prelude.{
  ℕ, ◌≡◌, refl, Bool, true, false, not, ◌||◌, Option, none, some, List, [], ◌∷◌, map, ◌==◌, arith,
  Option-cases, Bool-cases, List-cases, inl, inr, if-intro,
}
use l4_virtio_net_switch.Buffer.{Buffer, DataBuffer, of_desc}
use l4_virtio_net_switch.Vlan.{hdr_size}
use l4_virtio_net_switch.Transfer.{Chain}
use l4_virtio_net_switch.Request.{
  Request, TxQueue, finish_request, after_header, new_request, from_chain, get_request,
}
use l4_virtio_net_switch.Port.{Port, get_tx_request, admits}
use l4_virtio_net_switch.Port.Vlans.{member}
use l4_virtio_net_switch.Switch.Irq.Track.{at_driver, member-append}

-- A request is named by the head of its chain.
abbrev HeadIs : ℕ → Option Request → Type 0
HeadIs head none = Unit {0}
HeadIs head (some r) = r.head ≡ head

abbrev pub yielded : ℕ → Option Request → Bool
yielded h none = false
yielded h (some r) = r.head == h

-- No chain gets lost: what was with the driver still is, or is the request that is taken.
abbrev pub Yields : ℕ → TxQueue → Option Request × TxQueue → Type 0
Yields h q (o, q') = at_driver h q ≡ true → (at_driver h q' || yielded h o) ≡ true

module _ (db : DataBuffer) where
  after_header-HeadIs : (c : Chain) (pkt : Buffer) → HeadIs c.head (after_header db c pkt)
  unfolding after_header
  after_header-HeadIs c pkt = elim (Bool-cases (db.done pkt)) [
    | inr e ↦ rw e refl
    | inl e ↦ elim (List-cases c.more) [ inl f ↦ rw (e, f) tt | inr (b, rest, f) ↦ rw (e, f) refl ]
  ]

  new_request-HeadIs : (c : Chain) → HeadIs c.head (new_request db c)
  unfolding new_request
  new_request-HeadIs c = elim (Bool-cases ((db.skip (of_desc c.first) hdr_size).0 == hdr_size)) [
    | inl e ↦ rw e (after_header-HeadIs c _)
    | inr e ↦ rw e tt
  ]

  finish-at_driver :
      (h head : ℕ) (q : TxQueue)
      → at_driver h (finish_request head q) ≡ (at_driver h q || (h == head))
  unfolding finish_request
  finish-at_driver h head q = ground (arith, member-append h q.finished (head ∷ []))

  from_chain-Yields :
      (h : ℕ) (q : TxQueue) (cs : List Chain) → q.avail ≡ cs → Yields h q (from_chain db q cs)
  unfolding from_chain
  from_chain-Yields h q [] e = λ d. ground arith
  from_chain-Yields h q (c ∷ cs) e = elim (Option-cases (new_request db c)) [
    | inl f ↦ λ d.
        let d' : (member h (c.head ∷ map (λ k. k.head) cs) || member h q.finished) ≡ true =
          rw e at d in
        rw (from_chain, f, finish-at_driver h c.head (record q { avail = cs })) (ground arith)
    | inr (r, f) ↦ λ d.
        let d' : (member h (c.head ∷ map (λ k. k.head) cs) || member h q.finished) ≡ true =
          rw e at d in
        let same : r.head ≡ c.head = rw f at (new_request-HeadIs c) in
        rw (from_chain, f) (ground arith)
  ]

  get_request-Yields : (h : ℕ) (q : TxQueue) → Yields h q (get_request db q)
  unfolding get_request
  get_request-Yields h q =
      if-intro (Yields h q) (not q.ready) _ _ (λ _ d. ground arith)
        (λ _. from_chain-Yields h q q.avail refl)

  -- The same of `get_tx_request`, which finishes a request that is not admitted.
  pub get_tx_request-Yields :
      (h : ℕ) (p : Port)
      → at_driver h p.tx ≡ true
      → (at_driver h (get_tx_request db p).1.tx || yielded h (get_tx_request db p).0) ≡ true
  unfolding get_tx_request
  get_tx_request-Yields h p d = elim (Option-cases (get_request db p.tx).0) [
    | inl e ↦ rw (get_tx_request, e) (rw e at (get_request-Yields h p.tx d))
    | inr (r, e) ↦
        let y : (at_driver h (get_request db p.tx).1 || (r.head == h)) ≡ true =
          rw e at (get_request-Yields h p.tx d) in
        elim (Bool-cases (admits p r)) [
          | inl a ↦ rw (get_tx_request, e, a) y
          | inr a ↦
              rw (get_tx_request, e, a, finish-at_driver h r.head (get_request db p.tx).1)
                (ground arith)
        ]
  ]
