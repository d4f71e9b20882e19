-- ===== src/Factory.antt =====
-- server/switch/main.cc, `op_create`: a new port for a client. Capabilities, trusted dataspaces and
-- the log are left out.
pub mod Text
pub mod Numbers
pub mod Arguments
pub mod Checks
pub mod SetUp
pub mod Create
pub mod Trunk
pub mod Addresses
pub mod Configuration
use l4_virtio_net_switch.Prelude.{
  ℕ, ◌/◌, ◌%◌, Bool, true, false, not, ◌&&◌, ◌||◌, Option, none, some, List, [], ◌∷◌, ◌==◌, leb,
  if◌then◌else◌,
}
use l4_virtio_net_switch.Prelude.Int.{ℤ, pos, negsuc}
use l4_virtio_net_switch.MacAddr.{of_bytes, addr_unknown}
use l4_virtio_net_switch.Device.{einval}
use l4_virtio_net_switch.Transfer.{RxQueue}
use l4_virtio_net_switch.Request.{TxQueue}
use l4_virtio_net_switch.Port.{Port, new_port, set_vlan_access, set_vlan_trunk, set_monitor}
use l4_virtio_net_switch.Switch.{Switch, port_available, add_port, add_monitor_port}
use l4_virtio_net_switch.Factory.Text.{Param, absent, present, bad, parse_int_param}
use l4_virtio_net_switch.Factory.Arguments.{
  Parser, Settings, Taken, taken, rejected, endless, handle_opt_arg,
}

abbrev pub enomem : ℕ
enomem = 12

-- "ds-max="
abbrev pub ds_max_eq : List ℕ
ds_max_eq = 100 ∷ 115 ∷ 45 ∷ 109 ∷ 97 ∷ 120 ∷ 61 ∷ []

-- An argument of the call: a string, or of another type.
pub data Varg : Type 0 where
  text : List ℕ → Varg
  other : Varg

-- The arguments so far: those of `handle_opt_arg` and the number of dataspaces.
pub data Parsed : Type 0 where
  parsed : Settings → ℤ → Parsed
  invalid : Parsed
  thrown : Parsed
  stuck : Parsed

-- What the client gets: a port, an error, an exception; or a failed assertion, or nothing ever.
pub data Reply : Type 0 where
  created : Port → ℤ → Switch → Reply
  refused : ℕ → Switch → Reply
  raised : Switch → Reply
  aborted : Reply
  never : Reply

abbrev pub valid_num_ds : ℤ → Bool
valid_num_ds (pos n) = leb 1 n && leb n 80
valid_num_ds (negsuc n) = false

abbrev pub default_settings : Settings
default_settings = record {
  monitor = false;
  vlan_access = 0;
  vlan_trunk = [];
  mac = 0x02 ∷ 0x08 ∷ 0x0f ∷ 0x2a ∷ 0x00 ∷ 0x00 ∷ [];
  mac_set = false;
}

-- The address of a port that asked for none.
unfoldable pub default_mac : Bool → ℕ → List ℕ
default_mac true port_num = 0x02 ∷ 0x08 ∷ 0x0f ∷ 0x2a ∷ 0xde ∷ 0xad ∷ []
default_mac false port_num = 0x02 ∷ 0x08 ∷ 0x0f ∷ 0x2a ∷ port_num / 256 % 256 ∷ port_num % 256 ∷ []

-- The object that the framework makes: its address and its queues.
pub record Made : Type 0 where
  pub self : ℕ
  pub rx : RxQueue
  pub tx : TxQueue

-- `none` is a failed assertion.
unfoldable pub set_up : Settings → Port → Option Port
set_up s p =
    if s.monitor
    then some (set_monitor p)
    else if not (s.vlan_access == 0)
    then set_vlan_access s.vlan_access p
    else elim s.vlan_trunk [ [] ↦ some p | id ∷ ids ↦ set_vlan_trunk (id ∷ ids) p ]

abbrev pub has_any : List ℕ → Bool
has_any [] = false
has_any (x ∷ xs) = true

module _ (parser : Parser) (assign_mac : Bool) where
  -- The loop over the arguments.
  unfoldable pub parse_args : List Varg → Settings → ℤ → Parsed
  parse_args [] s ds = parsed s ds
  parse_args (other ∷ va) s ds = invalid
  parse_args (text opt ∷ va) s ds = elim (parse_int_param opt ds_max_eq) [
    | bad ↦ thrown
    | present n ↦ if valid_num_ds n then parse_args va s n else invalid
    | absent ↦ elim (handle_opt_arg parser opt s) [
      | taken s' ↦ parse_args va s' ds
      | rejected ↦ invalid
      | endless ↦ stuck
    ]
  ]

  -- The port's address: what it asked for, or the default one if the switch assigns addresses.
  unfoldable pub mac_of : Settings → ℕ → ℕ
  unfolding default_mac
  mac_of s port_num =
      if s.mac_set
      then of_bytes s.mac
      else if assign_mac
      then of_bytes (default_mac s.monitor port_num)
      else addr_unknown

  abbrev pub handed_over : Port → ℤ → Switch → Bool × Switch → Reply
  handed_over p ds sw (true, sw') = created p ds sw'
  handed_over p ds sw (false, sw') = refused enomem sw'

  abbrev pub add_to : Bool → Port → Switch → Bool × Switch
  add_to monitor p sw = if monitor then add_monitor_port p sw else add_port p sw

  unfoldable pub create_port : Made → Settings → ℤ → Switch → Reply
  create_port made s ds sw = elim (port_available s.monitor sw) [
    | none ↦ refused enomem sw
    | some port_num ↦
        if not (s.vlan_access == 0) && has_any s.vlan_trunk
        then refused einval sw
        else elim (set_up s (new_port made.self (mac_of s port_num) made.rx made.tx)) [
          | none ↦ aborted
          | some p ↦ handed_over p ds sw (add_to s.monitor p sw)
        ]
  ]

  unfoldable pub op_create : Made → ℕ → List Varg → Switch → Reply
  op_create made type va sw =
      if not (type == 0) then refused einval sw else elim (parse_args va default_settings (pos 2)) [
        | parsed s ds ↦ create_port made s ds sw
        | invalid ↦ refused einval sw
        | thrown ↦ raised sw
        | stuck ↦ never
      ]
