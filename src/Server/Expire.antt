-- ===== src/Server/Expire.antt =====
-- server/switch/transfer.h, `expired`: the requests that wait when a transfer times out.
use l4_virtio_net_switch.Prelude.{
  ℕ, zero, suc, ◌≡◌, refl, ap, ◌∙◌, Bool, true, false, ◌||◌, ◌&&◌, some, List, [], ◌∷◌, ◌==◌, arith,
  Option-cases, inl, inr, ==_iff,
}
use mathlib.Core.Path.{subst}
use l4_virtio_net_switch.Transfer.{Transfer, Finish, finished, assert_failed, finish_transfer}
use l4_virtio_net_switch.Port.{Port}
use l4_virtio_net_switch.Switch.{Switch, port_at, store, holds, held_by, release}
use l4_virtio_net_switch.Switch.Forward.Frame.{port_at-self}
use l4_virtio_net_switch.Switch.Irq.Track.{TracksOr, Tracks, release-EndsTracksOr}
use l4_virtio_net_switch.Switch.Irq.Follow.{EndsTracks, EndsTracksOr-EndsTracks, TracksOr-Tracks}
use l4_virtio_net_switch.Switch.Irq.Serve.{stored-TracksOr}
use l4_virtio_net_switch.Switch.Timeout.{take_out, dropped, expired, port_expired, monitor_expired}
use l4_virtio_net_switch.Server.Watch.{monitor-TracksOr}

module _ (a h : ℕ) where
  -- The transfer that a timeout takes from a list lets go of its request.
  take_out-holds :
      (i : ℕ) (ts : List Transfer) (t : Transfer) (rest : List Transfer)
      → take_out i ts ≡ some (t, rest)
      → holds (a, h) ts ≡ true
      → (((t.request.0 == a && t.request.1 == h) || false) || holds (a, h) rest) ≡ true
  unfolding take_out holds
  take_out-holds i [] t rest e w = absurd (ground arith)
  take_out-holds zero (u ∷ us) t rest e w =
      let first : u ≡ t = ground arith in
      let others : us ≡ rest = ground arith in
      subst (λ x. (((x.request.0 == a && x.request.1 == h) || false) || holds (a, h) rest) ≡ true)
        first
        (subst (λ xs. (((u.request.0 == a && u.request.1 == h) || false) || holds (a, h) xs) ≡ true)
          others (ground arith))
  take_out-holds (suc i) (u ∷ us) t rest e w = elim (Option-cases (take_out i us)) [
    | inl n ↦ absurd (ground arith)
    | inr ((v, vs), n) ↦
        let one : v ≡ t = ground arith in
        let list : u ∷ vs ≡ rest = ground arith in
        rw⁻¹ list (
          on (u.request.0 == a && u.request.1 == h) (holds (a, h) us) (holds (a, h) vs)
            (t.request.0 == a && t.request.1 == h)
            (take_out-holds i us t vs (n ∙ ap (λ x. some (x, vs)) one)) w)
  ]
    where
      on :
          (c x y d : Bool)
          → (x ≡ true → ((d || false) || y) ≡ true)
          → (c || x) ≡ true
          → ((d || false) || (c || y)) ≡ true
      on c x y d g k = ground (arith, g)

  expired-EndsTracks :
      (i : ℕ) (o : Port) (put : Port → Switch)
      → ((b : Bool) (q : Port)
          → (holds (a, h) o.pending_requests ≡ true → (b || holds (a, h) q.pending_requests) ≡ true)
          → q.tx ≡ o.tx
          → q.self ≡ o.self
          → TracksOr a h b (put q))
      → EndsTracks a h (expired i o put)
  unfolding expired
  expired-EndsTracks i o put there = elim (Option-cases (take_out i o.pending_requests)) [
    | inl e ↦ rw (expired, e) (TracksOr-Tracks a h (put o) (there false o (λ w. w) refl refl))
    | inr ((t, rest), e) ↦
        rw (expired, e)
          (on t rest (take_out-holds i o.pending_requests t rest e) (finish_transfer t o.rx))
  ]
    where
      on :
          (t : Transfer) (rest : List Transfer)
          → (holds (a, h) o.pending_requests ≡ true
              → (((t.request.0 == a && t.request.1 == h) || false) || holds (a, h) rest) ≡ true)
          → (f : Finish) → EndsTracks a h (dropped t rest o put f)
      on t rest g (finished t' q) =
          let o' : Port = record o { rx = q; pending_requests = rest } in
          EndsTracksOr-EndsTracks a h (release t.request (put o')) (
            release-EndsTracksOr a h t.request false (put o')
              (there ((t.request.0 == a && t.request.1 == h) || false) o' g refl refl))
      on t rest g assert_failed = tt

  pub timeout-EndsTracks :
      (c i : ℕ) (sw : Switch) → Tracks a h sw → EndsTracks a h (port_expired c i sw)
  unfolding port_expired
  timeout-EndsTracks c i sw t = elim (Option-cases (port_at c sw.ports)) [
    | inl e ↦ rw (port_expired, e) t
    | inr (o, e) ↦
        let own : port_at o.self sw.ports ≡ some o =
          ap (λ k. port_at k sw.ports) ((==_iff o.self c).0 (port_at-self c sw.ports o e)) ∙ e in
        rw (port_expired, e)
          (expired-EndsTracks i o (λ q. record sw { ports = store q sw.ports })
            (λ b q g tx self. stored-TracksOr a h b q o sw own g tx self t))
  ]

  pub timeout_monitor-EndsTracks :
      (i : ℕ) (sw : Switch) → Tracks a h sw → EndsTracks a h (monitor_expired i sw)
  unfolding monitor_expired
  timeout_monitor-EndsTracks i sw t = elim (Option-cases sw.monitor) [
    | inl e ↦ rw (monitor_expired, e) t
    | inr (m, e) ↦
        rw (monitor_expired, e)
          (expired-EndsTracks i m (λ q. record sw { monitor = some q })
            (λ b q g tx self.
              monitor-TracksOr a h b (some q) sw
                (λ w. let w' : held_by (a, h) (some m) ≡ true = rw e at w in g w') t))
  ]
