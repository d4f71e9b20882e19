-- ===== src/Switch/Forward/Unicast.antt =====
-- server/switch/switch.cc, `handle_tx_queue`: who gets a packet for an address that is known.
use l4_virtio_net_switch.Prelude.{
  ℕ, ◌≡◌, ◌≢◌, refl, sym, ap, ◌∙◌, Bool, true, false, not, Option, none, some, List, ◌==◌,
  if◌then◌else◌, Bool-cases, inl, inr, ==_iff,
}
use l4_virtio_net_switch.Buffer.{DataBuffer}
use l4_virtio_net_switch.MacAddr.{is_broadcast}
use l4_virtio_net_switch.MacTable.{lookup, learn}
use l4_virtio_net_switch.Transfer.Content.{NoneEmpty}
use l4_virtio_net_switch.Request.{Request, src_mac, dst_mac}
use l4_virtio_net_switch.Port.{Port, Done, match_vlan, handle_request}
use l4_virtio_net_switch.Port.Deliver.{Handled, handle_request-Handled}
use l4_virtio_net_switch.Filter.{filter_request}
use l4_virtio_net_switch.Switch.{Switch, Ended, ok, threw, crashed, table_size, port_at, store}
use l4_virtio_net_switch.Switch.Forward.{
  put_monitor, copy_to_monitor, put_target, to_target, forward, vlan_of,
}
use l4_virtio_net_switch.Switch.Forward.Flood.{addressed}
use l4_virtio_net_switch.Switch.Forward.Frame.{port_at-self, port_at-store}

module _ (db : DataBuffer) (filter : List ℕ → ℕ → Bool) (garbage : ℕ) (src : Port)
    (r : Request) where
  -- The monitor port, if there is one, handles a copy of each packet that the filter lets through.
  abbrev pub Mirrored : Option Port → Option Port → Type 0
  Mirrored none o = o ≡ none
  Mirrored (some m) none = ⊥
  Mirrored (some m) (some q) =
      if filter_request filter r then (q ≡ m) else Handled db src m r (Done.ok q)

  -- Only the port at the target may have changed.
  abbrev pub Only : ℕ → Switch → Switch → Type 0
  Only target sw sw' = (a : ℕ) → a ≢ target → port_at a sw'.ports ≡ port_at a sw.ports

  -- The target, `p`, is not the sender and takes part in the VLAN: it has handled the request, and
  -- the monitor its copy. Otherwise nothing has changed.
  abbrev pub Sent : ℕ → Port → Switch → Switch → Type 0
  Sent vlan p sw sw' =
      if addressed db filter garbage src r vlan p
      then ((q : Port) × (port_at p.self sw'.ports ≡ some q) × Handled db src p r (Done.ok q))
        × Mirrored sw.monitor sw'.monitor
      else (port_at p.self sw'.ports ≡ some p) × (sw'.monitor ≡ sw.monitor)

  abbrev pub Unicast : ℕ → Port → Switch → Ended → Type 0
  Unicast vlan p sw (ok sw') = Only p.self sw sw' × Sent vlan p sw sw'
  Unicast vlan p sw (threw sw') = Only p.self sw sw'
  Unicast vlan p sw crashed = ⊥

  -- What is left to do for the monitor, once the ports are written.
  abbrev Copies : Switch → Ended → Type 0
  Copies sw (ok sw') = (sw'.ports ≡ sw.ports) × Mirrored sw.monitor sw'.monitor
  Copies sw (threw sw') = sw'.ports ≡ sw.ports
  Copies sw crashed = ⊥

  put_monitor-Copies :
      (sw : Switch) (m : Port) (d : Done)
      → sw.monitor ≡ some m
      → filter_request filter r ≡ false
      → Handled db src m r d
      → Copies sw (put_monitor db filter garbage src r d sw)
  put_monitor-Copies sw m (Done.ok q) e f h = (refl, rw (e, f) h)
  put_monitor-Copies sw m (Done.threw q) e f h = refl
  put_monitor-Copies sw m Done.failed e f h = h

  copy_to_monitor-Copies :
      (sw : Switch) → NoneEmpty r.more → Copies sw (copy_to_monitor db filter garbage src r sw)
  unfolding copy_to_monitor
  copy_to_monitor-Copies sw full = on sw.monitor refl
    where
      on :
          (o : Option Port)
          → sw.monitor ≡ o
          → Copies sw (elim o [
            | none ↦ ok sw
            | some m ↦
                if not (filter_request filter r)
                then put_monitor db filter garbage src r (handle_request db garbage src m r) sw
                else ok sw
          ])
      on none e = (refl, rw e refl)
      on (some m) e = elim (Bool-cases (filter_request filter r)) [
        | inl f ↦ rw f (refl, rw (e, f) refl)
        | inr f ↦
            rw f (put_monitor-Copies sw m _ e f (handle_request-Handled db src m r garbage full))
      ]

  stored-Only :
      (p q : Port) (sw sw' : Switch)
      → q.self ≡ p.self
      → sw'.ports ≡ store q sw.ports
      → Only p.self sw sw'
  stored-Only p q sw sw' self same a other =
      ap (port_at a) same ∙ port_at-store a q sw.ports ∙ rw (differ (q.self == a) refl) refl
    where
      differ : (b : Bool) → (q.self == a) ≡ b → b ≡ false
      differ true e = absurd (other (sym ((==_iff q.self a).0 e) ∙ self))
      differ false e = refl

  stored-there :
      (p q : Port) (sw sw' : Switch)
      → q.self ≡ p.self
      → port_at p.self sw.ports ≡ some p
      → sw'.ports ≡ store q sw.ports
      → port_at p.self sw'.ports ≡ some q
  stored-there p q sw sw' self there same =
      ap (port_at p.self) same
      ∙ port_at-store p.self q sw.ports
      ∙ rw ((==_iff q.self p.self).1 self, there) refl

  copied-Unicast :
      (vlan : ℕ) (p q : Port) (sw : Switch) (e : Ended)
      → addressed db filter garbage src r vlan p ≡ true
      → port_at p.self sw.ports ≡ some p
      → Handled db src p r (Done.ok q)
      → Copies (record sw { ports = store q sw.ports }) e
      → Unicast vlan p sw e
  copied-Unicast vlan p q sw (ok sw') sent there h (same, m) =
      (stored-Only p q sw sw' h.0 same, rw sent ((q, stored-there p q sw sw' h.0 there same, h), m))
  copied-Unicast vlan p q sw (threw sw') sent there h same = stored-Only p q sw sw' h.0 same
  copied-Unicast vlan p q sw crashed sent there h c = c

  put_target-Unicast :
      (vlan : ℕ) (p : Port) (sw : Switch) (d : Done)
      → addressed db filter garbage src r vlan p ≡ true
      → port_at p.self sw.ports ≡ some p
      → NoneEmpty r.more
      → Handled db src p r d
      → Unicast vlan p sw (put_target db filter garbage src r d sw)
  put_target-Unicast vlan p sw (Done.ok q) sent there full h =
      copied-Unicast vlan p q sw _ sent there h (copy_to_monitor-Copies _ full)
  put_target-Unicast vlan p sw (Done.threw q) sent there full h =
      stored-Only p q sw (record sw { ports = store q sw.ports }) h.0 refl
  put_target-Unicast vlan p sw Done.failed sent there full h = h

  kept-Unicast :
      (vlan : ℕ) (p : Port) (sw : Switch)
      → addressed db filter garbage src r vlan p ≡ false
      → port_at p.self sw.ports ≡ some p
      → Unicast vlan p sw (ok sw)
  kept-Unicast vlan p sw e there = ((λ a other. refl), rw e (there, refl))

  to_target-Unicast :
      (vlan target : ℕ) (p : Port) (sw : Switch)
      → port_at target sw.ports ≡ some p
      → NoneEmpty r.more
      → Unicast vlan p sw (to_target db filter garbage src r vlan target sw)
  unfolding to_target
  to_target-Unicast vlan target p sw there full =
      let self : p.self ≡ target =
        (==_iff p.self target).0 (port_at-self target sw.ports p there) in
      let there' : port_at p.self sw.ports ≡ some p = ap (λ a. port_at a sw.ports) self ∙ there in
      let sender : (p.self == src.self) ≡ (target == src.self) = ap (λ a. a == src.self) self in
      elim (Bool-cases (target == src.self)) [
        | inl e ↦ rw e (kept-Unicast vlan p sw (rw (sender, e) refl) there')
        | inr e ↦ elim (Bool-cases (match_vlan p vlan)) [
          | inl m ↦
              rw (e, there, m)
                (put_target-Unicast vlan p sw _ (rw (sender, e, m) refl) there' full
                  (handle_request-Handled db src p r garbage full))
          | inr m ↦ rw (e, there, m) (kept-Unicast vlan p sw (rw (sender, e, m) refl) there')
        ]
      ]

  -- A packet whose destination is no multicast address and leads, once the packet's source is
  -- learned, to a port that is there changes no other port. If that port is not the sender and
  -- takes part in the packet's VLAN, it handles the packet, and the monitor port handles a copy if
  -- the filter lets it through; otherwise no port handles it. An exception may end it early; there
  -- is no crash. The descriptors of the packet are not empty, but for the first.
  pub forward-Unicast :
      (sw : Switch) (target : ℕ) (p : Port)
      → is_broadcast (dst_mac r) ≡ false
      → lookup (learn table_size sw.mac_table (src_mac r) src.self) (dst_mac r) ≡ some target
      → port_at target sw.ports ≡ some p
      → NoneEmpty r.more
      → Unicast (vlan_of src r) p sw (forward db filter garbage src r sw)
  unfolding forward
  forward-Unicast sw target p single known there full =
      rw (single, known)
        (to_target-Unicast (vlan_of src r) target p
          (record sw { mac_table = learn table_size sw.mac_table (src_mac r) src.self }) there full)
