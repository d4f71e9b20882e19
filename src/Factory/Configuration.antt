-- ===== src/Factory/Configuration.antt =====
-- server/switch/main.cc, `op_create`: what the driver of a new port finds in its device.
use l4_virtio_net_switch.Prelude.{
  ℕ, ◌≡◌, refl, Bool, true, ◌||◌, ◌&&◌, Option, none, some, List, ◌==◌, if◌then◌else◌, Bool-cases,
  inl, inr, arith,
}
use l4_virtio_net_switch.MacAddr.{of_bytes}
use l4_virtio_net_switch.Device.Features.{
  Feature, bit, mac, mrg_rxbuf, FeatureWord, NetConfig, port_config, offers, port_config-offers,
  port_config-mac,
}
use l4_virtio_net_switch.Factory.{default_mac, mac_of}
use l4_virtio_net_switch.Factory.Arguments.{Parser, Settings}

module _ (parser : Parser) (assign_mac : Bool) where
  -- `mac_ptr`: the address for the port, or null.
  unfoldable pub mac_ptr : Settings → ℕ → Option (List ℕ)
  unfolding default_mac
  mac_ptr s port_num =
      let bytes = if s.mac_set then s.mac else default_mac s.monitor port_num in
      if s.mac_set || assign_mac then some bytes else none

  module _ (fw : FeatureWord) (fresh : NetConfig) where
    -- The device of the new port, and its `_mac`.
    abbrev pub device : Settings → ℕ → NetConfig × ℕ
    device s port_num = port_config fw (mac_ptr s port_num) fresh

    abbrev pub Configured : Settings → ℕ → Type 0
    Configured s port_num =
        ((device s port_num).1 ≡ mac_of parser assign_mac s port_num)
        × ((f : Feature)
            → offers fw f (device s port_num).0
              ≡ ((bit f == bit mrg_rxbuf) || ((s.mac_set || assign_mac) && (bit f == bit mac))))
        × ((s.mac_set || assign_mac) ≡ true
            → of_bytes (device s port_num).0.config_mac ≡ mac_of parser assign_mac s port_num)

    -- Of the features of a network device, a new port offers that it merges receive buffers, and
    -- that it has an address exactly if one was asked for or the switch assigns them; then the
    -- driver reads in the configuration space the address that the switch has for the port.
    pub device-Configured : (s : Settings) (port_num : ℕ) → Configured s port_num
    unfolding mac_ptr mac_of port_config
    device-Configured s port_num = elim (Bool-cases s.mac_set) [
      | inl e ↦
          rw (mac_ptr, mac_of, e)
            (refl, port_config-offers fw (some s.mac) fresh, λ _. port_config-mac fw s.mac fresh)
      | inr e ↦ elim (Bool-cases assign_mac) [
        | inl f ↦
            rw (mac_ptr, mac_of, e, f)
              (
                refl,
                port_config-offers fw (some (default_mac s.monitor port_num)) fresh,
                λ _. port_config-mac fw (default_mac s.monitor port_num) fresh,
              )
        | inr f ↦
            rw (mac_ptr, mac_of, e, f)
              (refl, port_config-offers fw none fresh, λ g. absurd (ground arith))
      ]
    ]
