-- ===== src/Stepper/Worker.antt =====
-- `workerFn` of src/stepper.c as the worker thread runs it, with its own calls. What it reads of
-- `working` is up to the main thread.
pub mod Turning
use real_time_systems.Base.{ℕ, if◌then◌else◌}
use real_time_systems.Base.Int.{ℤ, pos, ltb_ℤ, eqb_ℤ}
use real_time_systems.Os.{
  Env, Io, Flow, next, return, forever, pure, ◌>>=◌, ◌>>◌, look, mutex_lock, mutex_unlock,
}
use real_time_systems.Stepper.Rotate.{rotate}
use real_time_systems.Stepper.Setup.{Pins}

-- WORKER_ROUNDS
abbrev pub worker_rounds : ℤ
worker_rounds = pos 10

module _ (env : Env) (fuel : ℕ) (pins : Pins) where
  -- The body of the `while (1)`, with two reads of `working`. `return` is the end of the thread.
  unfoldable pub worker_round : Unit {0} → Io (Flow (Unit {0}))
  worker_round u = do
    working ← look env
    if ltb_ℤ working (pos 0) then pure (return (pos 0)) else do
      working' ← look env
      if eqb_ℤ working' (pos 0)
          then mutex_lock >> mutex_unlock >> pure (next tt)
          else rotate env fuel worker_rounds pins.pulse_fd pins.enable_fd >> pure (next tt)

  unfoldable pub worker_fn : ℕ → Io (Flow (Unit {0}))
  worker_fn rounds = forever rounds worker_round tt
