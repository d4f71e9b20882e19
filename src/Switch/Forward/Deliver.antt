-- ===== src/Switch/Forward/Deliver.antt =====
-- server/switch/switch.cc, `handle_tx_queue`: how the forwarding of one packet ends.
use l4_virtio_net_switch.Prelude.{
  ℕ, zero, suc, ◌≡◌, refl, sym, ◌∙◌, Bool, true, not, ◌&&◌, Option, none, some, List, [], ◌∷◌, ◌==◌,
  if◌then◌else◌, arith, Option-cases, Bool-cases, inl, inr, ◌⊎◌,
}
use mathlib.Core.Path.{subst}
use l4_virtio_net_switch.Buffer.{DataBuffer}
use l4_virtio_net_switch.MacAddr.{is_broadcast}
use l4_virtio_net_switch.MacTable.{lookup, learn}
use l4_virtio_net_switch.MacTable.Inv.{Inv}
use l4_virtio_net_switch.MacTable.Learn.{learn-Inv, lookup-learn}
use l4_virtio_net_switch.Transfer.Content.{NoneEmpty}
use l4_virtio_net_switch.Request.{Request, src_mac, dst_mac}
use l4_virtio_net_switch.Port.{Port, Done, match_vlan, handle_request, get_tx_request}
use l4_virtio_net_switch.Port.Deliver.{Waiting, Sound, Handled-Sound, handle_request-Handled}
use l4_virtio_net_switch.Filter.{filter_request}
use l4_virtio_net_switch.Switch.{
  Switch, Ended, ok, threw, crashed, table_size, port_at, store, release,
}
use l4_virtio_net_switch.Switch.Slots.{Kept, Kept-refl, Kept-none, Kept-some, present}
use l4_virtio_net_switch.Switch.Forward.{
  Status, normal, exception, crash, end_request, rethrow, put, flood, put_monitor, copy_to_monitor,
  put_target, to_target, flooded, to_all, forward, handle_tx_queue, vlan_of,
}
use l4_virtio_net_switch.Switch.Forward.Sound.{
  WaitsIn, AllWaiting, Good, EndsGood, port_at-Waiting, Good-ports, Good-store, release-Good,
  Good-monitor,
}
use l4_virtio_net_switch.Switch.Forward.Taking.{FullChains, Requested, get_tx_request-Taken}

module _ (Who Own : ℕ → Type 0) where
  -- What a loop over the ports leaves: it never crashes.
  abbrev Flooded : List (Option Port) → List (Option Port) × Status → Type 0
  Flooded ps (qs, normal) = Kept ps qs × AllWaiting Who Own qs
  Flooded ps (qs, exception) = Kept ps qs × AllWaiting Who Own qs
  Flooded ps (qs, crash) = ⊥

  module _ (db : DataBuffer) (filter : List ℕ → ℕ → Bool) (garbage : ℕ) (src : Port) (r : Request)
      (full : NoneEmpty r.more) (who : Who src.self) (own : Own src.self) where
    handled :
        (p : Port)
        → Waiting Who p.pending_requests
        → Sound db src p r Who (handle_request db garbage src p r)
    handled p w =
        Handled-Sound db src p r Who _ who w (handle_request-Handled db src p r garbage full)

    keep-Flooded :
        (o : Option Port) (ps : List (Option Port)) (f : List (Option Port) × Status)
        → WaitsIn Who Own o
        → Flooded ps f
        → Flooded (o ∷ ps) (o ∷ f.0, f.1)
    keep-Flooded none ps (qs, normal) w (k, v) = (Kept-none ps qs k, (w, v))
    keep-Flooded none ps (qs, exception) w (k, v) = (Kept-none ps qs k, (w, v))
    keep-Flooded none ps (qs, crash) w k = k
    keep-Flooded (some p) ps (qs, normal) w (k, v) = (Kept-some p p ps qs refl k, (w, v))
    keep-Flooded (some p) ps (qs, exception) w (k, v) = (Kept-some p p ps qs refl k, (w, v))
    keep-Flooded (some p) ps (qs, crash) w k = k

    put-Flooded :
        (p : Port) (ps : List (Option Port)) (d : Done) (f : List (Option Port) × Status)
        → AllWaiting Who Own ps
        → Sound db src p r Who d
        → Flooded ps f
        → Flooded (some p ∷ ps) (put db filter garbage src r p d ps f)
    put-Flooded p ps (Done.ok q) (qs, normal) w (same, v) (k, w') =
        (Kept-some p q ps qs same k, (v, w'))
    put-Flooded p ps (Done.ok q) (qs, exception) w (same, v) (k, w') =
        (Kept-some p q ps qs same k, (v, w'))
    put-Flooded p ps (Done.ok q) (qs, crash) w s k = k
    put-Flooded p ps (Done.threw q) f w (same, v) k =
        (Kept-some p q ps ps same (Kept-refl ps), (v, w))
    put-Flooded p ps Done.failed f w s k = s

    flood-Flooded :
        (vlan n : ℕ) (ps : List (Option Port))
        → AllWaiting Who Own ps
        → Flooded ps (flood db filter garbage src r vlan n ps)
    unfolding flood
    flood-Flooded vlan zero ps w = (Kept-refl ps, w)
    flood-Flooded vlan (suc n) [] w = (Kept-refl [], tt)
    flood-Flooded vlan (suc n) (none ∷ ps) w = (Kept-refl _, w)
    flood-Flooded vlan (suc n) (some p ∷ ps) w =
        elim (Bool-cases (not (p.self == src.self) && match_vlan p vlan)) [
          | inl e ↦ rw e (put-Flooded p ps _ _ w.1 (handled p w.0) (flood-Flooded vlan n ps w.1))
          | inr e ↦ rw e (keep-Flooded (some p) ps _ w.0 (flood-Flooded vlan n ps w.1))
        ]

    put_monitor-Good :
        (sw : Switch) (m : Port) (d : Done)
        → Good Who Own sw
        → Sound db src m r Who d
        → EndsGood Who Own (put_monitor db filter garbage src r d sw)
    put_monitor-Good sw m (Done.ok q) g (_, w) = Good-monitor Who Own sw (some q) g w
    put_monitor-Good sw m (Done.threw q) g (_, w) = Good-monitor Who Own sw (some q) g w
    put_monitor-Good sw m Done.failed g s = s

    copy_nowhere :
        (sw : Switch) → sw.monitor ≡ none → copy_to_monitor db filter garbage src r sw ≡ ok sw
    unfolding copy_to_monitor
    copy_nowhere sw e = ground arith

    copy_somewhere :
        (sw : Switch) (m : Port)
        → sw.monitor ≡ some m
        → copy_to_monitor db filter garbage src r sw ≡ (
            if not (filter_request filter r)
            then put_monitor db filter garbage src r (handle_request db garbage src m r) sw
            else ok sw)
    unfolding copy_to_monitor
    copy_somewhere sw m e = ground arith

    copy_to_monitor-Good :
        (sw : Switch)
        → Good Who Own sw
        → EndsGood Who Own (copy_to_monitor db filter garbage src r sw)
    copy_to_monitor-Good sw g = elim (Option-cases sw.monitor) [
      | inl e ↦ rw (copy_nowhere sw e) g
      | inr (m, e) ↦
          let w : Waiting Who m.pending_requests = rw e at g.monitored in
          elim (Bool-cases (not (filter_request filter r))) [
            | inl f ↦ rw (copy_somewhere sw m e, f) (put_monitor-Good sw m _ g (handled m w))
            | inr f ↦ rw (copy_somewhere sw m e, f) g
          ]
    ]

    put_target-Good :
        (sw : Switch) (p : Port) (d : Done)
        → Good Who Own sw
        → Sound db src p r Who d
        → EndsGood Who Own (put_target db filter garbage src r d sw)
    put_target-Good sw p (Done.ok q) g (_, w) =
        copy_to_monitor-Good (record sw { ports = store q sw.ports }) (Good-store Who Own sw q g w)
    put_target-Good sw p (Done.threw q) g (_, w) = Good-store Who Own sw q g w
    put_target-Good sw p Done.failed g s = s

    to_target-Good :
        (vlan target : ℕ) (sw : Switch)
        → Good Who Own sw
        → present sw.ports target ≡ true
        → EndsGood Who Own (to_target db filter garbage src r vlan target sw)
    unfolding to_target
    to_target-Good vlan target sw g h = elim (Bool-cases (target == src.self)) [
      | inl e ↦ rw e g
      | inr e ↦ elim (Option-cases (port_at target sw.ports)) [
        | inl f ↦ absurd (ground arith)
        | inr (p, f) ↦ elim (Bool-cases (match_vlan p vlan)) [
          | inl m ↦
              rw (e, f, m)
                (put_target-Good sw p _ g
                  (handled p (port_at-Waiting Who Own target sw.ports p g.waiting f).0))
          | inr m ↦ rw (e, f, m) g
        ]
      ]
    ]

    flooded-Good :
        (sw : Switch) (f : List (Option Port) × Status)
        → Good Who Own sw
        → Flooded sw.ports f
        → EndsGood Who Own (flooded db filter garbage src r sw f)
    flooded-Good sw (ps, normal) g (k, w) = copy_to_monitor-Good _ (Good-ports Who Own sw ps g k w)
    flooded-Good sw (ps, exception) g (k, w) = Good-ports Who Own sw ps g k w
    flooded-Good sw (ps, crash) g k = k

    to_all-Good :
        (vlan : ℕ) (sw : Switch)
        → Good Who Own sw
        → EndsGood Who Own (to_all db filter garbage src r vlan sw)
    unfolding to_all
    to_all-Good vlan sw g = flooded-Good sw _ g (flood-Flooded vlan sw.max_used sw.ports g.waiting)

    -- An address leads to the source after `learn`, or where it led before.
    learned :
        (sw : Switch) (k q b : ℕ)
        → Inv table_size sw.mac_table
        → lookup (learn table_size sw.mac_table q src.self) k ≡ some b
        → (b ≡ src.self) ⊎ (lookup sw.mac_table k ≡ some b)
    learned sw k q b v e = ground (arith, lookup-learn table_size sw.mac_table q src.self v k)

    -- The source is learned: it is there.
    learn-Good :
        (q : ℕ) (sw : Switch)
        → Good Who Own sw
        → Good Who Own (record sw { mac_table = learn table_size sw.mac_table q src.self })
    learn-Good q sw g = record {
      formed = record {
        sized = g.formed.sized;
        used = g.formed.used;
        unused = g.formed.unused;
        table = learn-Inv table_size sw.mac_table q src.self g.formed.table;
        targets = λ k b e. elim (learned sw k q b g.formed.table e) [
          | inl f ↦ rw f (g.owners src.self own)
          | inr f ↦ g.formed.targets k b f
        ];
      };
      owners = g.owners;
      waiting = g.waiting;
      monitored = g.monitored;
    }

    pub forward-Good :
        (sw : Switch) → Good Who Own sw → EndsGood Who Own (forward db filter garbage src r sw)
    unfolding forward
    forward-Good sw g =
        let g' = learn-Good (src_mac r) sw g in
        elim (Bool-cases (is_broadcast (dst_mac r))) [
          | inl b ↦ rw b (to_all-Good (vlan_of src r) _ g')
          | inr b ↦
              elim (Option-cases
                (lookup (learn table_size sw.mac_table (src_mac r) src.self) (dst_mac r))) [
                  | inl f ↦ rw (b, f) (to_all-Good (vlan_of src r) _ g')
                  | inr (target, f) ↦
                      rw (b, f)
                        (to_target-Good (vlan_of src r) target _ g'
                          (g'.formed.targets (dst_mac r) target f))
                ]
        ]

module _ (Who Own : ℕ → Type 0) where
  module _ (db : DataBuffer) (filter : List ℕ → ℕ → Bool) (garbage : ℕ) where
    pub rethrow-Good : (e : Ended) → EndsGood Who Own e → EndsGood Who Own (rethrow e)
    rethrow-Good (ok sw) g = g
    rethrow-Good (threw sw) g = g
    rethrow-Good crashed g = g

    end_request-Good :
        (a head : ℕ) (e : Ended)
        → Own a
        → EndsGood Who Own e
        → EndsGood Who Own (end_request (a, head) e)
    end_request-Good a head (ok sw) o g = release-Good Who Own a head sw o g
    end_request-Good a head (threw sw) o g =
        rethrow-Good (release (a, head) sw) (release-Good Who Own a head sw o g)
    end_request-Good a head crashed o g = g

    -- Forwarding the next packet of a port that is there ends, in a switch that is well-formed and
    -- whose ports' transfers are in order as before, also when it ends by an exception. It does not
    -- crash: the MAC table leads to no port that is gone, and no assertion fails. The requests that
    -- wait, before and after, are of ports that `Who` holds of, and the ports that `Own` holds of
    -- are there; both hold of the sender. The descriptors that the sender offers are not empty, but
    -- for the first of a chain.
    pub handle_tx_queue-EndsGood :
        (port : ℕ) (p : Port) (sw : Switch)
        → Good Who Own sw
        → Who port
        → Own port
        → port_at port sw.ports ≡ some p
        → FullChains p.tx.avail
        → EndsGood Who Own (handle_tx_queue db filter garbage port sw)
    unfolding handle_tx_queue
    handle_tx_queue-EndsGood port p sw g who own e f =
        let (waiting, at_port) = port_at-Waiting Who Own port sw.ports p g.waiting e in
        let src : Port = (get_tx_request db p).1 in
        let (full, same, kept) = get_tx_request-Taken db p f in
        let is : port ≡ src.self = sym (same ∙ at_port) in
        let g' = Good-store Who Own sw src g (rw kept waiting) in
        elim (Option-cases (get_tx_request db p).0) [
          | inl n ↦ rw (handle_tx_queue, e, n) g'
          | inr (r, s) ↦
              let full' : Requested (some r) = rw s at full in
              rw (handle_tx_queue, e, s)
                (end_request-Good src.self r.head _ (subst Own is own) (
                  forward-Good Who Own db filter garbage src r full' (subst Who is who)
                    (subst Own is own) (record sw { ports = store src sw.ports }) g'))
        ]
