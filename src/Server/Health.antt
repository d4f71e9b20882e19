-- ===== src/Server/Health.antt =====
-- server/switch/main.cc: what a switch keeps between two events.
use l4_virtio_net_switch.Prelude.{
  ℕ, zero, suc, ◌≡◌, true, Option, none, some, List, [], ◌∷◌, arith, Option-cases, inl, inr,
}
use mathlib.Core.Path.{subst}
use l4_virtio_net_switch.Transfer.{Transfer}
use l4_virtio_net_switch.Port.{Port}
use l4_virtio_net_switch.Port.Deliver.{Waiting}
use l4_virtio_net_switch.Switch.{Switch, Ended, ok, threw, crashed}
use l4_virtio_net_switch.Switch.Slots.{present}
use l4_virtio_net_switch.Switch.Forward.Sound.{WaitsIn, AllWaiting, Good, EndsGood}
use l4_virtio_net_switch.Switch.Irq.Safe.{EndsFull}
use l4_virtio_net_switch.Switch.Timeout.{take_out}

-- A port of the switch is at the address.
abbrev pub There : Switch → ℕ → Type 0
There sw a = present sw.ports a ≡ true

-- A well-formed switch in which every transfer that waits is in order, and comes from a port that
-- is there.
abbrev pub Healthy : Switch → Type 0
Healthy sw = Good (There sw) (There sw) sw

-- An operation that ends, without a crash, in a healthy switch.
abbrev pub EndsHealthy : Ended → Type 0
EndsHealthy (ok sw) = Healthy sw
EndsHealthy (threw sw) = Healthy sw
EndsHealthy crashed = ⊥

module _ (Who Who' Own Own' : ℕ → Type 0) (f : (a : ℕ) → Who a → Who' a) where
  pub Waiting-mono : (ts : List Transfer) → Waiting Who ts → Waiting Who' ts
  Waiting-mono [] w = tt
  Waiting-mono (t ∷ ts) w = ((w.0.0, f t.request.0 w.0.1), Waiting-mono ts w.1)

  pub WaitsIn-mono : (o : Option Port) → WaitsIn Who Own o → WaitsIn Who' Own' o
  WaitsIn-mono none w = tt
  WaitsIn-mono (some p) w = Waiting-mono p.pending_requests w

  pub AllWaiting-mono : (ps : List (Option Port)) → AllWaiting Who Own ps → AllWaiting Who' Own' ps
  AllWaiting-mono [] w = tt
  AllWaiting-mono (o ∷ ps) w = (WaitsIn-mono o w.0, AllWaiting-mono ps w.1)

-- The ports of the requests that wait are still there, so they are among all that are there.
pub Good-Healthy : (Own : ℕ → Type 0) (sw : Switch) → Good Own Own sw → Healthy sw
Good-Healthy Own sw g = record {
  formed = g.formed;
  owners = λ b o. o;
  waiting = AllWaiting-mono Own (There sw) Own (There sw) g.owners sw.ports g.waiting;
  monitored = WaitsIn-mono Own (There sw) Own (There sw) g.owners sw.monitor g.monitored;
}

pub EndsGood-EndsHealthy : (Own : ℕ → Type 0) (e : Ended) → EndsGood Own Own e → EndsHealthy e
EndsGood-EndsHealthy Own (ok sw) g = Good-Healthy Own sw g
EndsGood-EndsHealthy Own (threw sw) g = Good-Healthy Own sw g
EndsGood-EndsHealthy Own crashed g = g

pub EndsFull-EndsHealthy : (Own : ℕ → Type 0) (a : ℕ) (e : Ended) → EndsFull Own a e → EndsHealthy e
EndsFull-EndsHealthy Own a (ok sw) g = Good-Healthy Own sw g.0
EndsFull-EndsHealthy Own a (threw sw) g = Good-Healthy Own sw g
EndsFull-EndsHealthy Own a crashed g = g

module _ (Own : ℕ → Type 0) where
  pub take_out-Waiting :
      (i : ℕ) (ts : List Transfer) (t : Transfer) (rest : List Transfer)
      → Waiting Own ts
      → take_out i ts ≡ some (t, rest)
      → Waiting Own rest × Own t.request.0
  unfolding take_out
  take_out-Waiting i [] t rest w e = absurd (ground arith)
  take_out-Waiting zero (u ∷ us) t rest w e =
      let (a, b) : (u ≡ t) × (us ≡ rest) = (ground arith, ground arith) in
      (subst (Waiting Own) b w.1, subst (λ t. Own t.request.0) a w.0.1)
  take_out-Waiting (suc i) (u ∷ us) t rest w e = elim (Option-cases (take_out i us)) [
    | inl f ↦ absurd (ground arith)
    | inr (r, f) ↦
        let same : r.0 ≡ t = ground arith in
        let split : (u ∷ r.1) ≡ rest = ground arith in
        let (v, o) = take_out-Waiting i us r.0 r.1 w.1 f in
        (subst (Waiting Own) split (w.0, v), subst (λ t. Own t.request.0) same o)
  ]
