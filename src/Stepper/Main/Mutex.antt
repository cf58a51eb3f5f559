-- ===== src/Stepper/Main/Mutex.antt =====
-- The mutex over the whole run of stepper.
use real_time_systems.Base.{ℕ, ◌≡◌, refl, true, inl, List, [], ◌∷◌, Option, none, some, arith}
use real_time_systems.Base.Int.{ℤ}
use real_time_systems.Os.{
  Env, Trace, MotorPacket, Flow, next, return, After, forever, forever_inv, closed,
}
use real_time_systems.Stepper.Sequence.Mutex.{held, IsOrderly}
use real_time_systems.Stepper.Setup.{Pins, no_pins}
use real_time_systems.Stepper.Setup.Unlocked.{held-unexport}
use real_time_systems.Stepper.Events.{Motor, motor_round}
use real_time_systems.Stepper.Events.Steady.{Steady}
use real_time_systems.Stepper.Events.Rounds.{motor_round-Steady}
use real_time_systems.Stepper.Main.{motor_from, shut_down, finish, serve_commands, main}
use real_time_systems.Stepper.Main.Start.{main-reaches}

-- No property of the direction.
abbrev pub Anything : ℤ → Option (List ℕ) → Type 0
Anything direction pin = Unit

-- The state of the loop, as far as the mutex goes: of the pins, nothing is said.
abbrev pub Held : Motor → Trace → Type 0
Held = Steady Anything no_pins

module _ (env : Env) (fuel rounds : ℕ) (argv : List (List ℕ)) (uninitialized : MotorPacket) where
  shut_down-IsOrderly :
      (pins : Pins) (connection_socket : ℤ) (t : Trace)
      → IsOrderly t
      → After Held IsOrderly (shut_down env fuel rounds argv uninitialized pins connection_socket t)
  unfolding shut_down
  shut_down-IsOrderly pins connection_socket t h =
      let t1 : Trace =
        closed pins.enable_fd
        ∷ closed pins.direction_fd
        ∷ closed pins.pulse_fd
        ∷ closed connection_socket
        ∷ t in
      ground (arith, held-unexport env argv t1)

  serve_commands-Held :
      (pins : Pins) (connection_socket : ℤ) (t : Trace)
      → held t ≡ true
      → IsOrderly t
      → After Held IsOrderly
          (serve_commands env fuel rounds argv uninitialized pins connection_socket t)
  unfolding serve_commands
  serve_commands-Held pins connection_socket t mine ok =
      served
        (forever rounds (motor_round env fuel pins connection_socket)
          (motor_from argv uninitialized) t)
        (forever_inv Held IsOrderly (motor_round env fuel pins connection_socket)
          (motor_round-Steady env fuel pins connection_socket Anything (λ d r w t' k. tt)
            (λ d i r t' k e. tt))
          rounds (motor_from argv uninitialized) t (inl refl, mine, ok, tt))
    where
      served :
          (out : Option (Flow Motor) × Trace)
          → After Held IsOrderly out
          → After Held IsOrderly (elim out.0 [
            | none ↦ (none, out.1)
            | some flow ↦
                finish env fuel rounds argv uninitialized pins connection_socket flow out.1
          ])
      served (none, t') h = h
      served (some (next s), t') h = h
      served (some (return r), t') h = shut_down-IsOrderly pins connection_socket t' h

  -- Whatever the system, the clients and the user do, after any number of rounds: the main thread of
  -- stepper has locked the mutex only where it did not hold it, and unlocked it only where it did. While
  -- its event loop still runs, `working` is 0 or 1, and it holds the mutex just where that is 0.
  pub main-Held : After Held IsOrderly (main env fuel rounds argv uninitialized [])
  main-Held =
      main-reaches env fuel rounds argv uninitialized (After Held IsOrderly) (λ ret t h. h.1)
        (λ pins conn t (mine, ok, early, of_dir, first). serve_commands-Held pins conn t mine ok)
