-- ===== src/Switch/Irq/Visit.antt =====
-- server/switch/switch.cc, `handle_port_irq`: the steps that only change how a port is notified.
use l4_virtio_net_switch.Prelude.{
  ℕ, ◌≡◌, refl, ap, ◌∙◌, Bool, true, Option, none, some, List, [], ◌∷◌, ◌==◌, arith, Bool-cases,
  inl, inr,
}
use l4_virtio_net_switch.Port.{Port, emit_and_enable, disable_and_remember, set_notify}
use l4_virtio_net_switch.Switch.{Switch, port_at, store}
use l4_virtio_net_switch.Switch.Forward.Frame.{port_at-self, port_at-store}
use l4_virtio_net_switch.Switch.Irq.{Arrival, arrive, each_port, with_port}
use l4_virtio_net_switch.Switch.Irq.Work.{SameWork}

pub port_at-each_port :
    (a : ℕ) (f : Port → Port) (ps : List (Option Port)) (p : Port)
    → ((o : Port) → (f o).self ≡ o.self)
    → port_at a ps ≡ some p
    → port_at a (each_port f ps) ≡ some (f p)
unfolding port_at each_port
port_at-each_port a f [] p same e = absurd (ground arith)
port_at-each_port a f (none ∷ ps) p same e = port_at-each_port a f ps p same e
port_at-each_port a f (some o ∷ ps) p same e = elim (Bool-cases (o.self == a)) [
  | inl at ↦
      let one : o ≡ p = ground arith in
      rw (ap (λ k. k == a) (same o) ∙ at) (ap (λ x. some (f x)) one)
  | inr other ↦
      rw (ap (λ k. k == a) (same o) ∙ other) (port_at-each_port a f ps p same (ground arith))
]

pub port_at-with_port :
    (a : ℕ) (f : Port → Port) (sw : Switch) (p : Port)
    → ((o : Port) → (f o).self ≡ o.self)
    → port_at a sw.ports ≡ some p
    → port_at a (with_port f a sw).ports ≡ some (f p)
port_at-with_port a f sw p same e =
    let at : (p.self == a) ≡ true = port_at-self a sw.ports p e in
    let step : (with_port f a sw).ports ≡ store (f p) sw.ports = rw (with_port, e) refl in
    ap (port_at a) step ∙ port_at-store a (f p) sw.ports ∙ rw (same p, at, e) refl

pub emit-SameWork :
    (p : Port) → SameWork p (emit_and_enable p) × ((emit_and_enable p).self ≡ p.self)
unfolding emit_and_enable
emit-SameWork p = (
  record { tx_avail = refl; tx_ready = refl; rx_avail = refl; rx_ready = refl; pending = refl },
  refl,
)

pub disable-self : (p : Port) → (disable_and_remember p).self ≡ p.self
unfolding disable_and_remember
disable-self p = refl

pub arrive-self : (x : Arrival) (p : Port) → (arrive x p).self ≡ p.self
unfolding arrive
arrive-self x p = refl

pub set_notify-SameWork :
    (b : Bool) (p : Port) → SameWork p (set_notify b p) × ((set_notify b p).self ≡ p.self)
unfolding set_notify
set_notify-SameWork b p = (
  record { tx_avail = refl; tx_ready = refl; rx_avail = refl; rx_ready = refl; pending = refl },
  refl,
)
