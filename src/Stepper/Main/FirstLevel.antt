-- ===== src/Stepper/Main/FirstLevel.antt =====
-- The direction that stepper starts with, and the variable that should hold it.
use real_time_systems.Base.{ℕ, ◌≡◌, ◌↔◌, false, List, [], ◌∷◌, some, arith, get_or, codes, str_eq}
use real_time_systems.Os.{Env, Trace, MotorPacket, next}
use real_time_systems.Stepper.Sequence.Mutex.{level}
use real_time_systems.Stepper.Setup.{Pins, no_pins, direction_arg, init_values}
use real_time_systems.Stepper.Setup.FirstLevel.{level-init_values}
use real_time_systems.Stepper.Events.Direction.{IsAligned}
use real_time_systems.Stepper.Main.{motor_from}

-- Once the values of the pins are set, the pin of the direction is at the level of the variable
-- `direction`, with which the event loop starts, just where the argument DIRECTION is not "+".
pub motor_from-IsAligned :
    (env : Env) (argv : List (List ℕ)) (uninitialized : MotorPacket) (pins : Pins) (t : Trace)
    → (init_values env argv (1 ∷ 2 ∷ []) no_pins t).0 ≡ some (next pins)
    → IsAligned
        (motor_from argv uninitialized).direction
        (level pins.direction_fd (init_values env argv (1 ∷ 2 ∷ []) no_pins t).1)
      ↔ (str_eq (get_or argv direction_arg []) (codes "+") ≡ false)
motor_from-IsAligned env argv uninitialized pins t e =
    rw (level-init_values env argv pins t e) (ground arith)
