-- ===== src/Curtain.antt =====
-- The controller of src/control_thread_inet.c and the motor thread of src/stepper.c together: what
-- the motor thread does with the packets that the controller sends. Here it is the model of two threads;
-- `Serving`, `Loop` and `Whole` are about the program as the main thread runs it.
pub mod Serving
pub mod Loop
pub mod Whole
mod Tests
use real_time_systems.Base.{
  ℕ, ◌+◌, ◌≤◌, ◌<◌, ◌≡◌, ◌≢◌, ◌⊎◌, inl, inr, refl, some, List, [], ◌∷◌, ◌++◌, arith, if◌then◌else◌,
}
use mathlib.Core.Path.{subst}
use real_time_systems.Base.Int.{ℤ, pos, neg, ◌≤ℤ◌, ◌<ℤ◌, eqb_ℤ}
use real_time_systems.Os.{Env, Trace, MotorPacket, motor_packets}
use real_time_systems.Control.Inet.Globals.{Undefined}
use real_time_systems.Control.Inet.Update.Sends.{Packets, IsCommand}
use real_time_systems.Control.Inet.Main.{main}
use real_time_systems.Control.Inet.Main.Streams.{IsCommands, main-IsCommands}
use real_time_systems.Stepper.Rotate.{high, low}
use real_time_systems.Stepper.Gpio.{set_direction}
use real_time_systems.Stepper.Gpio.Pins.{set_direction-levels}
use real_time_systems.Stepper.Threads.{System, IsReachable, called, idle}
use real_time_systems.Stepper.Threads.Commands.{Serves, Obeys, seq_rotate-Obeys}

-- Each packet of a stream is a command.
pub split-IsCommands :
    (later earlier : Packets) (fd : ℤ) (p : MotorPacket)
    → IsCommands (later ++ (fd, p) ∷ earlier)
    → IsCommand p.direction p.turns
split-IsCommands [] earlier fd p (c, e, h) = c
split-IsCommands (q ∷ later) earlier fd p (c, e, h) = split-IsCommands later earlier fd p h

-- The direction of a command is one that `set_direction` takes.
command-accepted :
    (env : Env) (direction turns dir_fd : ℤ) (t : Trace)
    → ((bytes : List ℕ) → pos 0 ≤ℤ env.write_reply t dir_fd bytes)
    → IsCommand direction turns
    → (set_direction env direction dir_fd t).0 ≡ some (pos 1)
command-accepted env direction turns dir_fd t writes (inl (down, e)) =
    ((set_direction-levels env direction dir_fd t).1 down).1 (writes low)
command-accepted env direction turns dir_fd t writes (inr (inl (up, e))) =
    ((set_direction-levels env direction dir_fd t).2 up).1 (writes high)
command-accepted env direction turns dir_fd t writes (inr (inr (down, e))) =
    ((set_direction-levels env direction dir_fd t).1 down).1 (writes low)

-- Its turns never ask for a rotation: they say only whether the worker is to run.
command-mode :
    (direction turns before after : ℤ)
    → IsCommand direction turns
    → Obeys turns before after
    → after ≡ (if eqb_ℤ turns (pos 0) then pos 0 else pos 1)
command-mode direction turns before after c h = ground arith

-- Of every packet that control_thread_inet has sent, whatever else happens: where the write to the
-- pin does not fail, `set_direction` takes its direction; and where a call of `seq_rotate` with its
-- turns began in a reachable state and has come back, the worker is to run if the turns are not 0,
-- that is for a packet that opens or closes the curtain, and to wait if they are 0.
main-controls :
    (env : Env) (undef : Undefined) (rounds fuel : ℕ) (argv : List (List ℕ))
    (later earlier : Packets) (fd : ℤ) (p : MotorPacket) (env' : Env) (dir_fd : ℤ) (t : Trace)
    (n : ℕ) (s s' : System)
    → motor_packets (main env undef fuel rounds argv []).1 ≡ later ++ (fd, p) ∷ earlier
    → ((bytes : List ℕ) → pos 0 ≤ℤ env'.write_reply t dir_fd bytes)
    → IsReachable s
    → s.main ≡ called p.turns
    → Serves n s s'
    → s'.main ≡ idle
    → ((set_direction env' p.direction dir_fd t).0 ≡ some (pos 1))
      × (s'.working ≡ (if eqb_ℤ p.turns (pos 0) then pos 0 else pos 1))
main-controls env undef rounds fuel argv later earlier fd p env' dir_fd t n s s' sent writes reach
      at serves back =
    let c =
      split-IsCommands later earlier fd p
        (subst IsCommands sent (main-IsCommands env undef rounds fuel argv)) in
    (
      command-accepted env' p.direction p.turns dir_fd t writes c,
      command-mode p.direction p.turns s.working s'.working c
          ((seq_rotate-Obeys n s s' p.turns reach at serves).1 back),
    )
