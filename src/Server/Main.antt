-- ===== src/Server/Main.antt =====
-- server/switch/main.cc, `main`: from the command line to the server loop. The greeting is left out.
use l4_virtio_net_switch.Server.Health.{Healthy}
use l4_virtio_net_switch.Server.Steps.{new_switch-Healthy}
use l4_virtio_net_switch.Prelude.{
  ℕ, ◌-◌, ◌%◌, ◌^◌, ◌≡◌, refl, Bool, true, false, Option, none, List, if◌then◌else◌,
}
use l4_virtio_net_switch.Prelude.Int.{ℤ, pos, negsuc}
use l4_virtio_net_switch.Port.{Port}
use l4_virtio_net_switch.Switch.{Switch, new_switch}
use l4_virtio_net_switch.Options.{Given, Exit, done, failed, threw, parse_options}
use l4_virtio_net_switch.Options.Size.{PowerOfTwo, Sized, parse_options-Sized}

-- The server loop with its switch and the size of the queues; the exit code 1; an exception.
pub data Started : Type 0 where
  loops : Switch → ℤ → Started
  exits : Started
  throws : Started

-- An `int` where an `unsigned` is wanted.
abbrev pub unsigned : ℤ → ℕ
unsigned (pos n) = n % 2 ^ 32
unsigned (negsuc n) = 2 ^ 32 - 1 - n % 2 ^ 32

module _ (atoi : List ℕ → ℤ) (has_cap : List ℕ → Bool) where
  -- `garbage` is what `new_switch` leaves, and `registered` tells whether the factory could be.
  unfoldable pub main : Option Port → Bool → List Given → ℕ → Started
  main garbage registered opts level = elim (parse_options atoi has_cap opts level) [
    | done o l ↦
        if registered
        then loops (new_switch garbage (unsigned o.max_ports)) o.virtq_max_num
        else exits
    | failed ↦ throws
    | threw ↦ throws
  ]

  -- The server loop starts with queues of a valid size and a healthy switch without ports.
  abbrev pub RunsWell : Started → Type 0
  RunsWell (loops sw vq_max) = PowerOfTwo vq_max × ((n : ℕ) × (sw ≡ new_switch none n)) × Healthy sw
  RunsWell exits = Unit {0}
  RunsWell throws = Unit {0}

  -- Whatever the command line is, `main` throws an exception or ends, or the server loop starts with
  -- queues of a size that is a power of two between 1 and 0x8000, and with a well-formed switch
  -- without ports, if the memory of the new switch holds no monitor port.
  pub main-RunsWell :
      (registered : Bool) (opts : List Given) (level : ℕ)
      → RunsWell (main none registered opts level)
  unfolding main
  main-RunsWell registered opts level =
      on (parse_options atoi has_cap opts level) (parse_options-Sized atoi has_cap opts level)
        registered
    where
      on :
          (x : Exit)
          → Sized x
          → (b : Bool)
          → RunsWell (elim x [
            | done o l ↦
                if b then loops (new_switch none (unsigned o.max_ports)) o.virtq_max_num else exits
            | failed ↦ throws
            | threw ↦ throws
          ])
      on (done o l) v true =
          (v, (unsigned o.max_ports, refl), new_switch-Healthy (unsigned o.max_ports))
      on (done o l) v false = tt
      on failed v b = tt
      on threw v b = tt
