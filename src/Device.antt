-- ===== src/Device.antt =====
-- server/switch/virtio_net.h: a driver resets the device of its port, sets up a queue, or starts it.
-- What the framework keeps of a queue's configuration is left out; `setup_queue` is the
-- framework's, and comes as an argument.
pub mod Features
use l4_virtio_net_switch.Prelude.{ℕ, Bool, true, false, ◌&&◌, ◌==◌, if◌then◌else◌}
use l4_virtio_net_switch.Transfer.{RxQueue}
use l4_virtio_net_switch.Request.{TxQueue}
use l4_virtio_net_switch.Port.{Port}

abbrev pub erange : ℕ
erange = 34

abbrev pub einval : ℕ
einval = 22

unfoldable pub reset : Port → Port
reset p = record p { rx = record p.rx { ready = false }; tx = record p.tx { ready = false } }

unfoldable pub check_queues : Port → Bool × Port
check_queues p = if p.rx.ready && p.tx.ready then (true, p) else (false, reset p)

abbrev pub set_up_rx : Port → Bool × RxQueue → ℕ × Port
set_up_rx p (true, q) = (0, record p { rx = q })
set_up_rx p (false, q) = (einval, record p { rx = q })

abbrev pub set_up_tx : Port → Bool × TxQueue → ℕ × Port
set_up_tx p (true, q) = (0, record p { tx = q })
set_up_tx p (false, q) = (einval, record p { tx = q })

-- The number of the error, or 0. The receive queue has the index 0.
unfoldable pub reconfig_queue :
    (RxQueue → Bool × RxQueue) → (TxQueue → Bool × TxQueue) → ℕ → Port → ℕ × Port
reconfig_queue setup_rx setup_tx index p =
    if index == 0
    then set_up_rx p (setup_rx p.rx)
    else if index == 1
    then set_up_tx p (setup_tx p.tx)
    else (erange, p)

pub data Change : Type 0 where
  resets : Change
  starts : Change
  reconfigures : (RxQueue → Bool × RxQueue) → (TxQueue → Bool × TxQueue) → ℕ → Change

abbrev pub change : Change → Port → Port
change resets p = reset p
change starts p = (check_queues p).1
change (reconfigures setup_rx setup_tx index) p = (reconfig_queue setup_rx setup_tx index p).1
