-- ===== src/Kick.antt =====
-- server/switch/virtio_net.h, `Virtqueue`: the interrupts of a client, put off while an operation
-- serves several requests.
pub mod Window
use l4_virtio_net_switch.Prelude.{ℕ, ◌+◌, Bool, true, false, if◌then◌else◌}

-- `no_notify` is what the driver has written into the queue, `no_notify_guest()`. `irqs` counts the
-- interrupts that `notify_queue` has raised for the queue.
pub record Kick : Type 0 where
  pub no_notify : Bool
  pub do_kick : Bool
  pub kick_pending : Bool
  pub irqs : ℕ

unfoldable pub new_kick : Bool → Kick
new_kick no_notify = record {
  no_notify = no_notify;
  do_kick = true;
  kick_pending = false;
  irqs = 0;
}

unfoldable pub kick_queue : Kick → Bool × Kick
kick_queue k =
    if k.no_notify
    then (false, k)
    else if k.do_kick
    then (true, k)
    else (false, record k { kick_pending = true })

unfoldable pub kick_enable_get_pending : Kick → Bool × Kick
kick_enable_get_pending k = (k.kick_pending, record k { do_kick = true })

unfoldable pub kick_disable_and_remember : Kick → Kick
kick_disable_and_remember k = record k { do_kick = false; kick_pending = false }

-- `Virtio_net::notify_queue`, which a virtqueue calls when a chain is finished.
unfoldable pub notify_queue : Kick → Kick
notify_queue k =
    let (now, k') = kick_queue k in if now then record k' { irqs = k'.irqs + 1 } else k'
