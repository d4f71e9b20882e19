-- ===== src/Switch/Timeout.antt =====
-- server/switch/transfer.h, `expired`: the timeout of a transfer that waits.
use l4_virtio_net_switch.Prelude.{ℕ, zero, suc, Option, none, some, List, [], ◌∷◌}
use l4_virtio_net_switch.Transfer.{Transfer, Finish, finished, assert_failed, finish_transfer}
use l4_virtio_net_switch.Port.{Port}
use l4_virtio_net_switch.Switch.{Switch, Ended, ok, crashed, port_at, store, release}

-- A transfer of the list of pending requests, and the list without it.
unfoldable pub take_out : ℕ → List Transfer → Option (Transfer × List Transfer)
take_out n [] = none
take_out zero (t ∷ ts) = some (t, ts)
take_out (suc n) (t ∷ ts) = elim (take_out n ts) [ none ↦ none | some (u, us) ↦ some (u, t ∷ us) ]

-- `Pending_list::remove(this)` and the destructor. `put` is the switch with the port changed.
abbrev pub dropped : Transfer → List Transfer → Port → (Port → Switch) → Finish → Ended
dropped t rest p put (finished t' q) =
    release t.request (put (record p { rx = q; pending_requests = rest }))
dropped t rest p put assert_failed = crashed

unfoldable pub expired : ℕ → Port → (Port → Switch) → Ended
expired i p put = elim (take_out i p.pending_requests) [
  | none ↦ ok (put p)
  | some (t, rest) ↦ dropped t rest p put (finish_transfer t p.rx)
]

-- The timeout of a transfer to a port in a slot, or to the monitor.
unfoldable pub port_expired : ℕ → ℕ → Switch → Ended
port_expired a i sw = elim (port_at a sw.ports) [
  | none ↦ ok sw
  | some p ↦ expired i p (λ q. record sw { ports = store q sw.ports })
]

unfoldable pub monitor_expired : ℕ → Switch → Ended
monitor_expired i sw = elim sw.monitor [
  | none ↦ ok sw
  | some m ↦ expired i m (λ q. record sw { monitor = some q })
]
