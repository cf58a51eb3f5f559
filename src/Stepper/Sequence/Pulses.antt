-- ===== src/Stepper/Sequence/Pulses.antt =====
-- The writes that a call of `seq_rotate` makes.
use real_time_systems.Base.{ℕ, ◌<◌, ◌≡◌, inl, inr, ◌∷◌, arith}
use real_time_systems.Base.Int.{ℤ, pos, pos_part, ◌<ℤ◌, ◌≤ℤ◌}
use real_time_systems.Os.{Env, Trace, locked}
use real_time_systems.Stepper.Sleep.{SleepsOn}
use real_time_systems.Stepper.Rotate.Train.{writes, rotation, rotate-train}
use real_time_systems.Stepper.Threads.Invariant.{IsFlag}
use real_time_systems.Stepper.Sequence.{rotate_and_restore, seq_rotate}

module _ (env : Env) (on : SleepsOn env) (fuel : ℕ) (enough : 3_000_000 < fuel)
    (pul_fd ena_fd : ℤ) where
  -- For 1 to 1000 rotations these are one rotation, whether the worker was to run or not.
  pub writes-seq_rotate :
      (rotations working : ℤ) (t : Trace)
      → IsFlag working
      → pos 0 <ℤ rotations
      → rotations ≤ℤ pos 1000
      → writes (seq_rotate env fuel rotations pul_fd ena_fd working t).1
        ≡ rotation pul_fd ena_fd (pos_part rotations) (writes t)
  unfolding seq_rotate rotate_and_restore
  writes-seq_rotate rotations working t (inl e) lo hi =
      let (ends, out) = (rotate-train env on fuel enough pul_fd ena_fd rotations t).0 lo hi in
      rw e (ground arith)
  writes-seq_rotate rotations working t (inr e) lo hi =
      let (ends, out) =
        (rotate-train env on fuel enough pul_fd ena_fd rotations (locked ∷ t)).0 lo hi in
      rw e (ground arith)
