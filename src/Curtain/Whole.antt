-- ===== src/Curtain/Whole.antt =====
-- The whole of src/control_thread_inet.c and the whole of src/stepper.c, with what the one sends to the
-- other.
use real_time_systems.Base.{ℕ, ◌≡◌, List, ◌∷◌, ◌++◌}
use real_time_systems.Base.Int.{ℤ}
use real_time_systems.Os.{Env, Trace, MotorPacket}
use real_time_systems.Control.Inet
use real_time_systems.Control.Inet.Update.Sends.{Packets}
use real_time_systems.Stepper.Setup.{Pins}
use real_time_systems.Stepper.Setup.FirstLevel.{IsDirectionOf}
use real_time_systems.Stepper.Setup.Unlocked.{waits}
use real_time_systems.Stepper.Events.{Motor}
use real_time_systems.Stepper.Main
use real_time_systems.Curtain.Loop.{IsReady}

-- The packets that a run of the controller has sent.
abbrev pub IsFrom : Packets → MotorPacket → Type 0
IsFrom sent p =
    (later : Packets) × (motor_fd : ℤ) × (earlier : Packets) × (sent
      ≡ later ++ (motor_fd, p) ∷ earlier)

-- The event loop of stepper is ready, with pins of which that of the direction is in `argv[DIR_NUM]`.
abbrev pub Ready : Env → List (List ℕ) → (MotorPacket → Type 0) → Motor → Trace → Type 0
Ready env argv IsSent s t =
    (pins : Pins) × IsDirectionOf env argv pins.direction_fd × IsReady IsSent pins s t

-- The event loop has not begun.
abbrev pub Unbegun : Trace → Type 0
Unbegun t = waits t ≡ 0
