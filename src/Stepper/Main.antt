-- ===== src/Stepper/Main.antt =====
-- `main` of src/stepper.c, around its set-up and its event loop.
pub mod Start
pub mod Mutex
pub mod FirstLevel
pub mod Exit
mod Tests
use real_time_systems.Base.{ℕ, ◌==◌, not, List, [], ◌∷◌, length, get_or, if◌then◌else◌}
use real_time_systems.Base.Int.{ℤ, pos, truthy}
use real_time_systems.Os.{
  Env, Io, MotorPacket, Flow, next, return, and_then, forever, pure, ◌>>=◌, ◌>>◌, close,
}
use real_time_systems.Stepper.Gpio.{pin_args, export, unexport}
use real_time_systems.Stepper.Setup.{
  Pins, no_pins, value_path, pul_num, args_number, exit_failure, init_directions, init_values,
  init_pulse, open_server, start_worker,
}
use real_time_systems.Stepper.Events.{Motor, motor_round}

-- The variables as they are before the loop. `in_packet` is not set there; `buf` has the path of the
-- last pin.
abbrev pub motor_from : List (List ℕ) → MotorPacket → Motor
motor_from argv uninitialized = record {
  working = pos 0;
  direction = pos 0;
  in_packet = uninitialized;
  buf = value_path (get_or argv pul_num []);
}

module _ (env : Env) (fuel rounds : ℕ) (argv : List (List ℕ)) (uninitialized : MotorPacket) where
  -- The lines behind the loop.
  unfoldable pub shut_down : Pins → ℤ → Io (Flow Motor)
  shut_down pins connection_socket = do
    close connection_socket
    close pins.pulse_fd
    close pins.direction_fd
    close pins.enable_fd
    unexport env argv
    pure (return (pos 0))

  -- What follows the loop, once it has ended.
  abbrev pub finish : Pins → ℤ → Flow Motor → Io (Flow Motor)
  finish pins connection_socket (next s) = pure (next s)
  finish pins connection_socket (return ret) = shut_down pins connection_socket

  -- The loop, for so many rounds, and the end.
  unfoldable pub serve_commands : Pins → ℤ → Io (Flow Motor)
  serve_commands pins connection_socket =
      forever rounds (motor_round env fuel pins connection_socket) (motor_from argv uninitialized)
      >>= finish pins connection_socket

  -- `main` from "Start dir initialization" on.
  unfoldable pub start_up : Io (Flow Motor)
  start_up =
      init_directions env argv pin_args
      >>= and_then (λ u.
        init_values env argv (1 ∷ 2 ∷ []) no_pins
        >>= and_then (λ pins.
          init_pulse env argv pins
          >>= and_then (λ pins'.
            open_server env argv
            >>= and_then (λ connection_socket.
              start_worker env argv >>= and_then (λ u'. serve_commands pins' connection_socket)))))

  unfoldable pub main : Io (Flow Motor)
  main = if not (length argv == args_number) then pure (return exit_failure) else do
    unexport env argv
    exported ← export env argv
    if truthy exported then start_up else pure (return exit_failure)
