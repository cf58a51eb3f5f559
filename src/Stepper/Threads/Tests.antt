-- ===== src/Stepper/Threads/Tests.antt =====
-- The theorems on the two threads of the stepper at concrete states.
use real_time_systems.Base.{ℕ, [], ◌∷◌, ◌≤◌, none, some, ◌≡◌, ◌≢◌, ◌⊎◌, refl, arith}
use real_time_systems.Base.Int.{ℤ, pos, neg}
use real_time_systems.Stepper.Threads.{
  main_thread, worker_thread, setting_up, idle, called, releasing, acquiring, handing_back, testing,
  locking, unlocking, turning, ended, System, main_step, worker_step, worker_steps, by_main,
  IsReachable, at_start, later,
}
use real_time_systems.Os.{Env, Trace, next, looked}
use real_time_systems.Os.Examples.{calm}
use real_time_systems.Stepper.Sleep.{SleepsOn}
use real_time_systems.Stepper.Rotate.{rotate}
use real_time_systems.Stepper.Examples.{pins}
use real_time_systems.Stepper.Worker.{worker_rounds, worker_fn}
use real_time_systems.Stepper.Worker.Turning.{Turned, worker_fn-Turned}
use real_time_systems.Stepper.Threads.Worker.{Run, stays, main_runs, worker_runs, worker_fn-runs}
use real_time_systems.Stepper.Threads.Invariant.{IsFlag}
use real_time_systems.Stepper.Threads.Safety.{IsReachable-mutex}
use real_time_systems.Stepper.Threads.Modes.{TurnsSoon, IsStopped-waits, IsRunning-TurnsSoon}
use real_time_systems.Stepper.Threads.Commands.{Serves, begun, main_on, Obeys, seq_rotate-Obeys}

-- The main thread has taken the mutex and waits for a command.
abbrev ready : System
ready = record { working = pos 0; owner = some main_thread; main = idle; worker = testing }

ready-IsReachable : IsReachable ready
unfolding main_step
ready-IsReachable = later at_start (by_main (pos 0) refl)

-- The command -1 has come.
abbrev commanded : System
commanded = record ready { main = called (neg 1) }

commanded-IsReachable : IsReachable commanded
unfolding main_step
commanded-IsReachable = later ready-IsReachable (by_main (neg 1) refl)

-- It has been served.
abbrev running : System
running = record { working = pos 1; owner = none; main = idle; worker = testing }

commanded-Serves : Serves 3 commanded running
unfolding main_step
commanded-Serves =
    main_on (main_on (main_on begun (ground arith) refl) (ground arith) refl) (ground arith) refl

running-IsReachable : IsReachable running
unfolding main_step
running-IsReachable =
    later (later (later commanded-IsReachable (by_main (pos 0) refl)) (by_main (pos 0) refl))
      (by_main (pos 0) refl)

seq_rotate-Obeys_example :
    (3 ≤ 7) × (running.main ≡ idle → Obeys (neg 1) commanded.working running.working)
seq_rotate-Obeys_example =
    seq_rotate-Obeys 3 commanded running (neg 1) commanded-IsReachable refl commanded-Serves

IsReachable-mutex_example :
    IsFlag running.working
    × (running.worker ≢ ended)
    × ((running.main ≡ releasing) ⊎ (running.main ≡ handing_back)
        → running.owner ≡ some main_thread)
    × ((r p : ℤ)
        → (running.main ≡ setting_up) ⊎ (running.main ≡ acquiring r p)
        → running.owner ≢ some main_thread)
    × (running.worker ≡ unlocking → running.owner ≡ some worker_thread)
    × (running.worker ≡ locking → running.owner ≢ some worker_thread)
IsReachable-mutex_example = IsReachable-mutex running running-IsReachable

-- Two steps of the worker take it to its lock.
abbrev waiting : System
waiting = record ready { worker = locking }

two_steps : worker_steps 2 ready ≡ some waiting
unfolding worker_steps
two_steps = refl

abbrev steps : ℕ
steps = 2

IsStopped-waits_example : (steps ≤ 3) × (waiting.worker ≡ turning → steps ≡ 0)
IsStopped-waits_example = IsStopped-waits ready ready-IsReachable refl refl steps waiting two_steps

IsRunning-TurnsSoon_example : TurnsSoon running
IsRunning-TurnsSoon_example = IsRunning-TurnsSoon running running-IsReachable refl refl

-- The worker finds `working` to be 1 twice, turns the motor, and is called to stop in between.
abbrev turning_on : Env
turning_on = record calm { shared_reply = λ t. pos 1 }

turning_on-SleepsOn : SleepsOn turning_on
turning_on-SleepsOn t ts e = absurd (ground arith)

abbrev stopping : System
stopping = record running { main = called (pos 0) }

abbrev turned : Trace
turned =
    (rotate turning_on 3_000_001 worker_rounds (pos 6) (pos 5)
      (looked (pos 1) ∷ looked (pos 1) ∷ [])).1

running-Run : Run turning_on 3_000_001 pins running [] stopping turned
unfolding main_step worker_step
running-Run =
    worker_runs refl (refl, refl)
      (main_runs (pos 0) refl (worker_runs refl (refl, refl) (worker_runs refl refl stays)))

worker_fn-runs_example :
    (n : ℕ) × ((worker_fn turning_on 3_000_001 pins n []).0 ≡ some (next tt))
    × ((worker_fn turning_on 3_000_001 pins n []).1 ≡ turned)
worker_fn-runs_example =
    worker_fn-runs turning_on 3_000_001 pins turning_on-SleepsOn (omega arith) running stopping []
      turned refl running-Run tt

worker_fn-Turned_example : Turned pins (worker_fn turning_on 3_000_001 pins 2 [])
worker_fn-Turned_example =
    worker_fn-Turned turning_on turning_on-SleepsOn 3_000_001 (omega arith) pins 2
