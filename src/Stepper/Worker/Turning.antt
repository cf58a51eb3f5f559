-- ===== src/Stepper/Worker/Turning.antt =====
-- What the worker of stepper does to the pins and the mutex.
use real_time_systems.Base.{
  ℕ, zero, suc, ◌+◌, ◌<◌, ◌≡◌, refl, ◌∙◌, ap, Bool-cases, inl, inr, true, false, Option, none, some,
  [], ◌∷◌, arith,
}
use real_time_systems.Base.Int.{ℤ, pos, pos_part, ltb_ℤ, eqb_ℤ}
use real_time_systems.Os.{Env, Trace, Flow, next, Lasts, forever-Lasts, looked}
use real_time_systems.Stepper.Sleep.{SleepsOn}
use real_time_systems.Stepper.Rotate.{rotate}
use real_time_systems.Stepper.Rotate.Train.{Writes, writes, rotation, rotate-train}
use real_time_systems.Stepper.Sequence.Mutex.{held, is_proper, rotate-Same}
use real_time_systems.Stepper.Setup.{Pins}
use real_time_systems.Stepper.Worker.{worker_rounds, worker_round, worker_fn}

-- So many turns of the motor, of WORKER_ROUNDS pulses each.
abbrev pub turnings : Pins → ℕ → Writes
turnings pins zero = []
turnings pins (suc k) =
    rotation pins.pulse_fd pins.enable_fd (pos_part worker_rounds) (turnings pins k)

-- Between two rounds: the pins have had whole turns, and the mutex is free, as far as the worker goes.
abbrev pub IsTurning : Pins → Trace → Type 0
IsTurning pins t =
    ((k : ℕ) × (writes t ≡ turnings pins k)) × (held t ≡ false) × (is_proper t ≡ true)

-- A part of the thread has returned, with this.
abbrev pub Turned : Pins → Option (Flow (Unit {0})) × Trace → Type 0
Turned pins = Lasts (λ u. IsTurning pins) (IsTurning pins)

module _ (env : Env) (on : SleepsOn env) (fuel : ℕ) (enough : 3_000_000 < fuel) (pins : Pins) where
  -- A pin that `rotate` does not write to.
  abbrev other : ℤ
  other = pos (pos_part pins.pulse_fd + pos_part pins.enable_fd + 1)

  IsTurning-Turned :
      (t : Trace)
      → IsTurning pins t
      → let out = rotate env fuel worker_rounds pins.pulse_fd pins.enable_fd t in
        (out.0 ≡ some tt) × IsTurning pins out.1
  IsTurning-Turned t ((k, e), free, ok) =
      let (ends, out) =
        (rotate-train env on fuel enough pins.pulse_fd pins.enable_fd worker_rounds t).0
          (omega arith) (omega arith) in
      let same =
        rotate-Same env other fuel pins.pulse_fd pins.enable_fd (ground arith) (ground arith)
          worker_rounds t in
      (
        ends,
        (
          (suc k, out ∙ ap (rotation pins.pulse_fd pins.enable_fd (pos_part worker_rounds)) e),
          same.0 ∙ free,
          same.1 ∙ ok,
        ),
      )

  -- `>>` behind a call of `rotate`.
  after_rotate :
      (out : Option (Unit {0}) × Trace)
      → (out.0 ≡ some tt) × IsTurning pins out.1
      → Turned pins (elim out.0 [ none ↦ (none, out.1) | some u ↦ (some (next tt), out.1) ])
  after_rotate (none, t) (ends, h) = cc
  after_rotate (some u, t) (ends, h) = h

  worker_round-Turned :
      (u : Unit {0}) (t : Trace) → IsTurning pins t → Turned pins (worker_round env fuel pins u t)
  unfolding worker_round
  worker_round-Turned u t h =
      let w = env.shared_reply t in
      let t1 : Trace = looked w ∷ t in
      let w' = env.shared_reply t1 in
      let t2 : Trace = looked w' ∷ t1 in
      elim (Bool-cases (ltb_ℤ w (pos 0))) [
        | inl stop ↦ rw stop h
        | inr on ↦ rw on (elim (Bool-cases (eqb_ℤ w' (pos 0))) [
          | inl waits ↦ rw waits (h.0, refl, ground arith)
          | inr turns ↦ rw turns (
              after_rotate (rotate env fuel worker_rounds pins.pulse_fd pins.enable_fd t2)
                (IsTurning-Turned t2 h))
        ])
      ]

  -- Where interrupted sleeps go on sleeping, and given rounds for each nanosecond of one: whatever the
  -- worker of stepper reads of `working`, any number of its rounds comes to an end. All it has written
  -- then is whole turns of WORKER_ROUNDS pulses, one after the other; it has locked and unlocked the
  -- mutex in turn, and does not hold it.
  pub worker_fn-Turned : (rounds : ℕ) → Turned pins (worker_fn env fuel pins rounds [])
  unfolding worker_fn
  worker_fn-Turned rounds =
      forever-Lasts (λ u. IsTurning pins) (IsTurning pins) (worker_round env fuel pins)
        worker_round-Turned rounds tt [] ((0, refl), refl, refl)
