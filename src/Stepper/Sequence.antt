-- ===== src/Stepper/Sequence.antt =====
-- `seq_rotate` of src/stepper.c as the main thread runs it: what it does with the mutex and the pins.
-- Only the main thread writes `working`, so to it that is a variable of its own.
pub mod Mutex
pub mod Refines
pub mod Pulses
mod Tests
use real_time_systems.Base.{ℕ, if◌then◌else◌}
use real_time_systems.Base.Int.{ℤ, pos, ltb_ℤ, eqb_ℤ}
use real_time_systems.Os.{Env, Io, pure, ◌>>=◌, ◌>>◌, mutex_lock, mutex_unlock}
use real_time_systems.Stepper.Rotate.{rotate}

module _ (env : Env) where
  -- From `if (rotations > 0)` on, with the value of `working` then and the one before.
  unfoldable pub rotate_and_restore : ℕ → ℤ → ℤ → ℤ → ℤ → ℤ → Io ℤ
  rotate_and_restore fuel rotations pul_fd ena_fd working previous =
      if ltb_ℤ (pos 0) rotations
      then rotate env fuel rotations pul_fd ena_fd
        >> (if eqb_ℤ working previous then pure working else mutex_unlock >> pure previous)
      else pure working

  -- The result is `working` after the call.
  unfoldable pub seq_rotate : ℕ → ℤ → ℤ → ℤ → ℤ → Io ℤ
  seq_rotate fuel rotations pul_fd ena_fd working =
      let previous = working in
      if ltb_ℤ rotations (pos 0)
      then (if eqb_ℤ previous (pos 0) then mutex_unlock >> pure (pos 1) else pure working)
      else if eqb_ℤ previous (pos 1)
      then mutex_lock >> rotate_and_restore fuel rotations pul_fd ena_fd (pos 0) previous
      else rotate_and_restore fuel rotations pul_fd ena_fd working previous
