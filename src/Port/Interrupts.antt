-- ===== src/Port/Interrupts.antt =====
-- server/switch/virtio_net.h: the interrupts that a client gets for what an operation finishes.
use l4_virtio_net_switch.Prelude.{ℕ, ◌+◌, ◌≡◌, refl, not, ◌&&◌, ◌||◌, if◌then◌else◌, arith, ltb}
use l4_virtio_net_switch.Kick.{kick_enable_get_pending, kick_disable_and_remember}
use l4_virtio_net_switch.Kick.Window.{notify_times, notify_times-off}
use l4_virtio_net_switch.Port.{Port, emit_and_enable, disable_and_remember, interrupts}

-- The port once `n` chains of its receive queue and `m` of its transmission queue are finished.
abbrev pub finish_both : ℕ → ℕ → Port → Port
finish_both n m p = record p {
  rx = record p.rx { kick = notify_times n p.rx.kick };
  tx = record p.tx { kick = notify_times m p.tx.kick };
}

-- Between `kick_disable_and_remember` and `kick_emit_and_enable`, however many chains of the two
-- queues are finished, the client gets one interrupt if there is one that it wants to hear of, and
-- none otherwise.
pub interrupts-emit_and_enable :
    (n m : ℕ) (p : Port)
    → interrupts (emit_and_enable (finish_both n m (disable_and_remember p)))
      ≡ interrupts p
        + (if (not p.rx.kick.no_notify && ltb 0 n) || (not p.tx.kick.no_notify && ltb 0 m)
            then 1
            else 0)
unfolding interrupts emit_and_enable disable_and_remember kick_enable_get_pending
    kick_disable_and_remember
interrupts-emit_and_enable n m p =
    let a = notify_times-off n (kick_disable_and_remember p.rx.kick) refl in
    let b = notify_times-off m (kick_disable_and_remember p.tx.kick) refl in
    rw (a, b) (ground arith)
