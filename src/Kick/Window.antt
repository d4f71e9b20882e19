-- ===== src/Kick/Window.antt =====
-- server/switch/virtio_net.h: what a client is told of the chains that are finished while its
-- interrupts are put off.
use l4_virtio_net_switch.Prelude.{
  ℕ, zero, suc, ◌+◌, ◌≡◌, true, false, not, ◌&&◌, ◌||◌, if◌then◌else◌, arith, ltb,
}
use l4_virtio_net_switch.Kick.{Kick, kick_queue, notify_queue}

-- `n` chains are finished, one after the other.
unfoldable pub notify_times : ℕ → Kick → Kick
notify_times zero k = k
notify_times (suc n) k = notify_times n (notify_queue k)

step_off :
    (k : Kick)
    → k.do_kick ≡ false
    → notify_queue k ≡ record k { kick_pending = k.kick_pending || not k.no_notify }
unfolding notify_queue kick_queue
step_off k e = ground arith

step_on :
    (k : Kick)
    → k.do_kick ≡ true
    → notify_queue k ≡ record k { irqs = if k.no_notify then k.irqs else k.irqs + 1 }
unfolding notify_queue kick_queue
step_on k e = ground arith

-- While interrupts are put off none is raised, and the queue remembers whether there was one to
-- raise.
pub notify_times-off :
    (n : ℕ) (k : Kick)
    → k.do_kick ≡ false
    → notify_times n k ≡ record k { kick_pending = k.kick_pending || (not k.no_notify && ltb 0 n) }
unfolding notify_times
notify_times-off zero k e = ground arith
notify_times-off (suc n) k e = rw (step_off k e) (
    ground
      (arith, notify_times-off n (record k { kick_pending = k.kick_pending || not k.no_notify })))

-- Else each chain raises one, unless the driver wants none.
pub notify_times-on :
    (n : ℕ) (k : Kick)
    → k.do_kick ≡ true
    → notify_times n k ≡ record k { irqs = if k.no_notify then k.irqs else k.irqs + n }
unfolding notify_times
notify_times-on zero k e = ground arith
notify_times-on (suc n) k e = rw (step_on k e) (
    ground
      (arith, notify_times-on n (record k { irqs = if k.no_notify then k.irqs else k.irqs + 1 })))
