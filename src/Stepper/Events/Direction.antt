-- ===== src/Stepper/Events/Direction.antt =====
-- The direction of the motor: the variable `direction` and the pin.
use real_time_systems.Base.{ℕ, ◌≡◌, ◌≢◌, false, Option, some, List, ◌∷◌, arith, if◌then◌else◌}
use real_time_systems.Base.Int.{ℤ, pos, eqb_ℤ, eqb_ℤ_iff, eqb_ℤ_refl}
use real_time_systems.Os.{Env, Trace, After, forever, forever_inv, locked}
use real_time_systems.Stepper.Rotate.{high, low}
use real_time_systems.Stepper.Gpio.{set_direction}
use real_time_systems.Stepper.Threads.Invariant.{IsFlag}
use real_time_systems.Stepper.Sequence.{seq_rotate, rotate_and_restore}
use real_time_systems.Stepper.Sequence.Mutex.{IsOrderly, level, rotate-Same}
use real_time_systems.Stepper.Setup.{Pins}
use real_time_systems.Stepper.Events.{Motor, motor_round}
use real_time_systems.Stepper.Events.Steady.{KeptByRotations, KeptByTurns, Steady}
use real_time_systems.Stepper.Events.Rounds.{motor_round-Steady}

-- The level that stands for a direction.
abbrev pub level_of : ℤ → List ℕ
level_of direction = if eqb_ℤ direction (pos 1) then high else low

-- The variable is 0 or 1, and the pin is at its level.
abbrev pub IsAligned : ℤ → Option (List ℕ) → Type 0
IsAligned direction pin = IsFlag direction × (pin ≡ some (level_of direction))

module _ (env : Env) (fuel : ℕ) (pins : Pins) (not_pul : pins.pulse_fd ≢ pins.direction_fd)
    (not_ena : pins.enable_fd ≢ pins.direction_fd) where
  apart : (a b : ℤ) → a ≢ b → eqb_ℤ a b ≡ false
  apart a b h = ground (arith, eqb_ℤ_iff a b)

  level-seq_rotate :
      (rotations working : ℤ) (t : Trace)
      → level pins.direction_fd
          (seq_rotate env fuel rotations pins.pulse_fd pins.enable_fd working t).1
        ≡ level pins.direction_fd t
  unfolding seq_rotate rotate_and_restore
  level-seq_rotate rotations working t =
      let same =
        rotate-Same env pins.direction_fd fuel pins.pulse_fd pins.enable_fd
          (apart pins.pulse_fd pins.direction_fd not_pul)
          (apart pins.enable_fd pins.direction_fd not_ena) rotations in
      ground (arith, same t, same (locked ∷ t))

  rotations-IsAligned : KeptByRotations env fuel pins IsAligned
  rotations-IsAligned d rotations working t h = rw (level-seq_rotate rotations working t) h

  turns-IsAligned : KeptByTurns env pins IsAligned
  unfolding set_direction
  turns-IsAligned d dir_in ret t h e = ground (arith, eqb_ℤ_refl pins.direction_fd)

  -- Where the pin of the direction is a descriptor of its own: if the event loop of stepper starts with
  -- `direction` 0 or 1 and the pin at its level, `working` 0 or 1, and the mutex held just where that is
  -- 0, then after any number of rounds all this holds again, whatever clients and user have sent; and
  -- the mutex has been locked only where it was not held, and unlocked only where it was.
  pub loop-IsAligned :
      (connection_socket : ℤ) (rounds : ℕ) (s : Motor) (t : Trace)
      → Steady IsAligned pins s t
      → After
          (Steady IsAligned pins)
          IsOrderly
          (forever rounds (motor_round env fuel pins connection_socket) s t)
  loop-IsAligned connection_socket rounds s t h =
      forever_inv (Steady IsAligned pins) IsOrderly (motor_round env fuel pins connection_socket)
        (motor_round-Steady env fuel pins connection_socket IsAligned rotations-IsAligned
          turns-IsAligned)
        rounds s t h
