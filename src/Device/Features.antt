-- ===== src/Device/Features.antt =====
-- server/switch/virtio_net.h and port.h: the features that a port offers to its driver, and the
-- address in its configuration space. `CXX_BITFIELD_MEMBER`, the base class of `Features` and
-- `Dev_config` are the framework's: `FeatureWord` is an interface with their documented laws.
use l4_virtio_net_switch.Prelude.{
  ℕ, ◌≤◌, ◌<◌, ◌/◌, ◌%◌, ◌≡◌, refl, Bool, true, false, ◌||◌, ◌&&◌, Option, none, some, is_some,
  List, ◌==◌, if◌then◌else◌, take, get_or-take, arith, sym, ◌∙◌,
}
use l4_virtio_net_switch.MacAddr.{of_bytes, addr_unknown}

-- The members of `Features`.
pub data Feature : Type 0 where
  csum : Feature
  guest_csum : Feature
  mac : Feature
  gso : Feature
  guest_tso4 : Feature
  guest_tso6 : Feature
  guest_ecn : Feature
  guest_ufo : Feature
  host_tso4 : Feature
  host_tso6 : Feature
  host_ecn : Feature
  host_ufo : Feature
  mrg_rxbuf : Feature
  status : Feature
  ctrl_vq : Feature
  ctrl_rx : Feature
  ctrl_vlan : Feature
  ctrl_rx_extra : Feature
  guest_announce : Feature
  mq : Feature
  ctrl_mac_addr : Feature

unfoldable pub bit : Feature → ℕ
bit csum = 0
bit guest_csum = 1
bit mac = 5
bit gso = 6
bit guest_tso4 = 7
bit guest_tso6 = 8
bit guest_ecn = 9
bit guest_ufo = 10
bit host_tso4 = 11
bit host_tso6 = 12
bit host_ecn = 13
bit host_ufo = 14
bit mrg_rxbuf = 15
bit status = 16
bit ctrl_vq = 17
bit ctrl_rx = 18
bit ctrl_vlan = 19
bit ctrl_rx_extra = 20
bit guest_announce = 21
bit mq = 22
bit ctrl_mac_addr = 23

-- `set_bit b raw` is `raw` once the member at bit `b` is true, and `test_bit` reads that member.
-- `set_host_feature n` sets the feature `n` in words of 32 bits. The members of the base class stand
-- above those of the network device, and VIRTIO_F_VERSION_1 in a word above the first.
pub record FeatureWord : Type 0 where
  pub set_bit : ℕ → ℕ → ℕ
  pub test_bit : ℕ → ℕ → Bool
  pub set_host_feature : ℕ → (ℕ → ℕ) → ℕ → ℕ
  pub ring_indirect_desc : ℕ
  pub version_1 : ℕ
  pub test-zero : (i : ℕ) → test_bit i 0 ≡ false
  pub test-set_bit : (i b raw : ℕ) → test_bit i (set_bit b raw) ≡ ((i == b) || test_bit i raw)
  pub test-set_host_feature :
      (n : ℕ) (words : ℕ → ℕ) (w i : ℕ)
      → i < 32
      → test_bit i (set_host_feature n words w)
        ≡ (((w == n / 32) && (i == n % 32)) || test_bit i (words w))
  pub above : 24 ≤ ring_indirect_desc
  pub next_word : 32 ≤ version_1

-- The words of the features that the device offers, and the address in the configuration space.
pub record NetConfig : Type 0 where
  pub host_features : ℕ → ℕ
  pub config_mac : List ℕ

-- `_dev_config.host_features(0) = raw`.
abbrev pub put_word : ℕ → (ℕ → ℕ) → ℕ → ℕ
put_word raw words w = if w == 0 then raw else words w

or-false : (b : Bool) → (b || false) ≡ b
or-false true = refl
or-false false = refl

or_comm : (a b : Bool) → (a || b) ≡ (b || a)
or_comm true true = refl
or_comm true false = refl
or_comm false true = refl
or_comm false false = refl

module _ (fw : FeatureWord) where
  -- The constructor of `Virtio_net`; `fresh` is what the framework's has made.
  unfoldable pub net_config : NetConfig → NetConfig
  net_config fresh = record fresh {
    host_features = fw.set_host_feature fw.version_1 (
        put_word (fw.set_bit (bit mrg_rxbuf) (fw.set_bit fw.ring_indirect_desc 0))
          fresh.host_features);
  }

  -- The constructor of `Virtio_port` and its argument `mac`, a pointer to six bytes or null: the
  -- configuration, and `_mac`.
  unfoldable pub port_config : Option (List ℕ) → NetConfig → NetConfig × ℕ
  unfolding net_config
  port_config given fresh =
      let base = net_config fresh in
      let hf = base.host_features 0 in
      elim given [
        | none ↦ (record base { host_features = put_word hf base.host_features }, addr_unknown)
        | some bytes ↦ (
          record {
            host_features = put_word (fw.set_bit (bit mac) hf) base.host_features;
            config_mac = take 6 bytes;
          },
          of_bytes bytes,
        )
      ]

  abbrev pub offers : Feature → NetConfig → Bool
  offers f c = fw.test_bit (bit f) (c.host_features 0)

  bit-lt : (f : Feature) → bit f < 24
  unfolding bit
  bit-lt f = grind arith

  net_config-offers :
      (f : Feature) (fresh : NetConfig) → offers f (net_config fresh) ≡ (bit f == bit mrg_rxbuf)
  unfolding net_config
  net_config-offers f fresh =
      let other : (bit f == fw.ring_indirect_desc) ≡ false = ground (arith, fw.above, bit-lt f) in
      let first : (0 == fw.version_1 / 32) ≡ false = ground (arith, fw.next_word) in
      fw.test-set_host_feature fw.version_1
        (put_word (fw.set_bit (bit mrg_rxbuf) (fw.set_bit fw.ring_indirect_desc 0))
          fresh.host_features)
        0 (bit f) (omega (arith, bit-lt f))
      ∙ rw
          (
            first,
            fw.test-set_bit (bit f) (bit mrg_rxbuf) (fw.set_bit fw.ring_indirect_desc 0),
            fw.test-set_bit (bit f) fw.ring_indirect_desc 0,
            other,
            fw.test-zero (bit f),
          )
          (or-false _)

  pub port_config-offers :
      (given : Option (List ℕ)) (fresh : NetConfig) (f : Feature)
      → offers f (port_config given fresh).0
        ≡ ((bit f == bit mrg_rxbuf) || (is_some given && (bit f == bit mac)))
  unfolding port_config
  port_config-offers none fresh f = net_config-offers f fresh ∙ sym (or-false _)
  port_config-offers (some bytes) fresh f =
      fw.test-set_bit (bit f) (bit mac) ((net_config fresh).host_features 0)
      ∙ rw (net_config-offers f fresh) (or_comm (bit f == bit mac) (bit f == bit mrg_rxbuf))

  -- The address in the configuration space of a port that was given one is that of the port.
  pub port_config-mac :
      (bytes : List ℕ) (fresh : NetConfig)
      → of_bytes (port_config (some bytes) fresh).0.config_mac ≡ (port_config (some bytes) fresh).1
  unfolding port_config of_bytes
  port_config-mac bytes fresh =
      rw
        (
          get_or-take 6 0 bytes 0 (omega arith),
          get_or-take 6 1 bytes 0 (omega arith),
          get_or-take 6 2 bytes 0 (omega arith),
          get_or-take 6 3 bytes 0 (omega arith),
          get_or-take 6 4 bytes 0 (omega arith),
          get_or-take 6 5 bytes 0 (omega arith),
        )
        refl
