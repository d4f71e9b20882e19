-- ===== src/Switch/Irq.antt =====
-- server/switch/switch.cc, `handle_port_irq`, and server/switch/main.cc, the interrupt of a monitor
-- port. A driver may add chains while the switch works; the loops see them at the latest in their
-- last test, and here they arrive there.
pub mod Take
pub mod Track
pub mod Yield
pub mod Follow
pub mod Serve
pub mod Work
pub mod Receive
pub mod Visit
pub mod Idle
pub mod Safe
pub mod Keep
pub mod Run
pub mod Quiet
pub mod Return
pub mod Monitor
use l4_virtio_net_switch.Prelude.{
  ℕ, zero, suc, ◌-◌, Bool, true, false, ◌||◌, Option, none, some, List, [], ◌∷◌, ◌++◌,
  if◌then◌else◌, length, take, map,
}
use l4_virtio_net_switch.Buffer.{DataBuffer}
use l4_virtio_net_switch.Transfer.{Chain, Transfer}
use l4_virtio_net_switch.Request.{drop_requests}
use l4_virtio_net_switch.Port.Vlans.{member}
use l4_virtio_net_switch.Port.{
  Port, Done, handle_rx_queue, rx_work_pending, tx_work_pending, emit_and_enable,
  disable_and_remember, set_notify,
}
use l4_virtio_net_switch.Switch.{Switch, Ended, ok, threw, crashed, port_at, store, release_all}
use l4_virtio_net_switch.Switch.Forward.{handle_tx_queue, rethrow}

-- The chains that the driver of a port adds to its receive and to its transmission queue. It does
-- not have back any more what it gives again.
pub record Arrival : Type 0 where
  pub to_rx : List Chain
  pub to_tx : List Chain

unfoldable pub not_given : List ℕ → List ℕ → List ℕ
not_given given [] = []
not_given given (h ∷ hs) = if member h given then not_given given hs else h ∷ not_given given hs

unfoldable pub arrive : Arrival → Port → Port
arrive x p = record p {
  rx = record p.rx { avail = p.rx.avail ++ x.to_rx };
  tx = record p.tx {
    avail = p.tx.avail ++ x.to_tx;
    finished = not_given (map (λ c. c.head) x.to_tx) p.tx.finished;
  };
}

-- The transfers that have left a list from its front.
abbrev pub gone_from : List Transfer → List Transfer → List Transfer
gone_from before after = take (length before - length after) before

-- `if (_ports[idx])` over all slots.
unfoldable pub each_port : (Port → Port) → List (Option Port) → List (Option Port)
each_port f [] = []
each_port f (none ∷ ps) = none ∷ each_port f ps
each_port f (some p ∷ ps) = some (f p) ∷ each_port f ps

unfoldable pub work_pending : Port → Bool
work_pending p = tx_work_pending p || rx_work_pending p

-- `handle_rx_queue` of a port of the switch. The transfers that are deleted let go of their
-- requests.
abbrev pub served : Port → Done → Switch → Ended
served p (Done.ok q) sw =
    release_all (gone_from p.pending_requests q.pending_requests)
      (record sw { ports = store q sw.ports })
served p (Done.threw q) sw = rethrow (
    release_all (gone_from p.pending_requests q.pending_requests)
      (record sw { ports = store q sw.ports }))
served p Done.failed sw = crashed

-- An operation on the port at an address.
abbrev pub with_port : (Port → Port) → ℕ → Switch → Switch
with_port f a sw = elim (port_at a sw.ports) [
  | none ↦ sw
  | some p ↦ record sw { ports = store (f p) sw.ports }
]

module _ (db : DataBuffer) (filter : List ℕ → ℕ → Bool) (garbage : ℕ) (a : ℕ) where
  unfoldable pub serve_rx : Switch → Ended
  serve_rx sw = elim (port_at a sw.ports) [
    | none ↦ crashed
    | some p ↦ served p (handle_rx_queue db p) sw
  ]

  -- The loop over the transmission queue, for at most so many requests.
  unfoldable pub tx_loop : ℕ → Switch → Ended
  tx_loop zero sw = ok sw
  tx_loop (suc n) sw = elim (port_at a sw.ports) [
    | none ↦ crashed
    | some p ↦
        if tx_work_pending p
        then elim (handle_tx_queue db filter garbage a sw) [
          | ok sw' ↦ tx_loop n sw'
          | threw sw' ↦ threw sw'
          | crashed ↦ crashed
        ]
        else ok sw
  ]

  -- The loop over the receive queue, for at most so many passes.
  unfoldable pub rx_loop : ℕ → Switch → Ended
  rx_loop zero sw = ok sw
  rx_loop (suc n) sw = elim (port_at a sw.ports) [
    | none ↦ crashed
    | some p ↦
        if rx_work_pending p
        then elim (serve_rx sw) [
          | ok sw' ↦ rx_loop n sw'
          | threw sw' ↦ threw sw'
          | crashed ↦ crashed
        ]
        else ok sw
  ]

  -- Both loops: each request takes a chain of the queue, and one pass over the receive queue leaves
  -- no work there.
  unfoldable pub serve_both : Switch → Ended
  serve_both sw = elim (port_at a sw.ports) [
    | none ↦ crashed
    | some p ↦ elim (tx_loop (length p.tx.avail) sw) [
      | ok sw' ↦ rx_loop 1 sw'
      | threw sw' ↦ threw sw'
      | crashed ↦ crashed
    ]
  ]

  abbrev pub enable : Ended → Ended
  enable (ok sw) =
      ok (with_port (set_notify true) a (record sw { ports = each_port emit_and_enable sw.ports }))
  enable (threw sw) = threw sw
  enable crashed = crashed

  -- The body of the loop.
  unfoldable pub round : Switch → Ended
  round sw =
      let quiet = with_port (set_notify false) a sw in
      enable (serve_both (record quiet { ports = each_port disable_and_remember quiet.ports }))

  unfoldable pub handle_port_irq : List Arrival → Switch → Ended
  handle_port_irq [] sw = round sw
  handle_port_irq (x ∷ xs) sw = elim (round sw) [
    | ok sw' ↦
        let sw'' = with_port (arrive x) a sw' in
        elim (port_at a sw''.ports) [
          | none ↦ crashed
          | some p ↦ if work_pending p then handle_port_irq xs sw'' else ok sw''
        ]
    | threw sw' ↦ threw sw'
    | crashed ↦ crashed
  ]

-- The interrupt of a monitor port, which is not in a slot. The switch is not asked.
module _ (db : DataBuffer) where
  abbrev pub drop_tx : Port → Port
  drop_tx p = record p { tx = drop_requests p.tx }

  abbrev pub served_monitor : Port → Done → Switch → Ended
  served_monitor m (Done.ok q) sw =
      release_all (gone_from m.pending_requests q.pending_requests)
        (record sw { monitor = some (set_notify true (drop_tx q)) })
  served_monitor m (Done.threw q) sw = rethrow (
      release_all (gone_from m.pending_requests q.pending_requests)
        (record sw { monitor = some q }))
  served_monitor m Done.failed sw = crashed

  -- The body of the loop in `Monitor_port::Kick_irq::handle_irq`.
  unfoldable pub monitor_round : Port → Switch → Ended
  monitor_round m sw = served_monitor m (handle_rx_queue db (set_notify false m)) sw

  unfoldable pub monitor_pass : Switch → Ended
  monitor_pass sw = elim sw.monitor [ none ↦ crashed | some m ↦ monitor_round m sw ]

  unfoldable pub handle_monitor_irq : List Arrival → Switch → Ended
  handle_monitor_irq [] sw = monitor_pass sw
  handle_monitor_irq (x ∷ xs) sw = elim (monitor_pass sw) [
    | ok sw' ↦ elim sw'.monitor [
      | none ↦ crashed
      | some m ↦
          let sw'' = record sw' { monitor = some (arrive x m) } in
          if work_pending (arrive x m) then handle_monitor_irq xs sw'' else ok sw''
    ]
    | threw sw' ↦ threw sw'
    | crashed ↦ crashed
  ]
