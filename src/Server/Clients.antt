-- ===== src/Server/Clients.antt =====
-- server/switch/main.cc, `op_create`, as an event of the server loop.
use l4_virtio_net_switch.Prelude.{ℕ, ◌≡◌, ap, Bool, true, false, List, []}
use mathlib.Core.Path.{subst}
use l4_virtio_net_switch.Port.{Port}
use l4_virtio_net_switch.Switch.{Switch}
use l4_virtio_net_switch.Factory.{
  Varg, Made, Reply, created, refused, raised, aborted, never, add_to, op_create,
}
use l4_virtio_net_switch.Factory.Arguments.{Parser}
use l4_virtio_net_switch.Factory.Checks.{Shortens, Bounded}
use l4_virtio_net_switch.Factory.Create.{Answer, op_create-Answer}
use l4_virtio_net_switch.Server.Health.{Healthy}
use l4_virtio_net_switch.Server.Steps.{create-Healthy, create_monitor-Healthy}

-- A reply that leaves a healthy switch.
abbrev pub HealthyReply : Reply → Type 0
HealthyReply (created p ds sw) = Healthy sw
HealthyReply (refused code sw) = Healthy sw
HealthyReply (raised sw) = Healthy sw
HealthyReply aborted = ⊥
HealthyReply never = ⊥

module _ (parser : Parser) (assign_mac : Bool) where
  add_to-Healthy :
      (monitor : Bool) (p : Port) (sw : Switch)
      → p.pending_requests ≡ []
      → Healthy sw
      → Healthy (add_to parser assign_mac monitor p sw).1
  add_to-Healthy true p sw e g = create_monitor-Healthy p sw e g
  add_to-Healthy false p sw e g = create-Healthy p sw e g

  answered-Healthy :
      (va : List Varg) (sw : Switch) (r : Reply)
      → Healthy sw
      → Answer parser assign_mac va sw r
      → HealthyReply r
  answered-Healthy va sw (created p ds sw') g (s, _, _, _, w, a) =
      subst Healthy (ap (λ r. r.1) a) (add_to-Healthy s.monitor p sw w g)
  answered-Healthy va sw (refused code sw') g same = rw same g
  answered-Healthy va sw (raised sw') g same = rw same g
  answered-Healthy va sw aborted g h = h
  answered-Healthy va sw never g h = h

  -- A call by a client, whatever its arguments are, leaves a healthy switch healthy, and gets a
  -- reply without a failed assertion. Of the framework's strings: `substr` from an index on leaves no
  -- more of a string than stands there, and `from_dec` takes no more characters than there are.
  pub op_create-HealthyReply :
      (made : Made) (type : ℕ) (va : List Varg) (sw : Switch)
      → Shortens parser
      → Bounded parser
      → Healthy sw
      → HealthyReply (op_create parser assign_mac made type va sw)
  op_create-HealthyReply made type va sw shorter bounded g =
      answered-Healthy va sw (op_create parser assign_mac made type va sw) g
        (op_create-Answer parser assign_mac made type va sw shorter bounded)
