-- ===== src/Stepper/Sequence/Mutex.antt =====
-- The mutex over a call of `seq_rotate`.
use real_time_systems.Base.{
  ℕ, zero, suc, ◌≡◌, refl, Bool, true, false, ◌&&◌, not, inl, inr, Option, none, some, Option-cases,
  List, [], ◌∷◌, arith, if◌then◌else◌,
}
use real_time_systems.Base.Int.{ℤ, pos, pos_part, ◌≤ℤ◌, eqb_ℤ, ltb_ℤ}
use real_time_systems.Os.{Env, Trace, Timespec, locked, unlocked, wrote, slept}
use real_time_systems.Stepper.Sleep.{sleep_rest, msleep}
use real_time_systems.Stepper.Rotate.{pulse, pulses, rotate, interval, high, low}
use real_time_systems.Stepper.Threads.Invariant.{IsFlag}
use real_time_systems.Stepper.Threads.Commands.{Obeys}
use real_time_systems.Stepper.Sequence.{rotate_and_restore, seq_rotate}

-- Does the main thread hold the mutex?
abbrev pub held : Trace → Bool
held [] = false
held (locked ∷ t) = true
held (unlocked ∷ t) = false
held (_ ∷ t) = held t

-- Has it locked the mutex only where it did not hold it, and unlocked it only where it did?
abbrev pub is_proper : Trace → Bool
is_proper [] = true
is_proper (locked ∷ t) = not (held t) && is_proper t
is_proper (unlocked ∷ t) = held t && is_proper t
is_proper (_ ∷ t) = is_proper t

-- The main thread has kept to the mutex.
abbrev pub IsOrderly : Trace → Type 0
IsOrderly t = is_proper t ≡ true

-- The level that the last successful write set on a pin.
abbrev pub level : ℤ → Trace → Option (List ℕ)
level pin [] = none
level pin (wrote fd bytes ret ∷ t) =
    if eqb_ℤ fd pin && not (ltb_ℤ ret (pos 0)) then some bytes else level pin t
level pin (_ ∷ t) = level pin t

-- Neither the mutex nor a pin has changed.
abbrev pub Same : ℤ → Trace → Trace → Type 0
Same pin t t' = (held t' ≡ held t) × (is_proper t' ≡ is_proper t) × (level pin t' ≡ level pin t)

module _ (env : Env) (pin : ℤ) where
  sleep_rest-Same : (fuel : ℕ) (ts : Timespec) (t : Trace) → Same pin t (sleep_rest env fuel ts t).1
  unfolding sleep_rest
  sleep_rest-Same zero ts t = (refl, refl, refl)
  sleep_rest-Same (suc fuel) ts t =
      let reply = env.nanosleep_reply t ts in
      ground (arith, sleep_rest-Same fuel reply.2 (slept ts reply.0 ∷ t))

  msleep-Same : (fuel : ℕ) (t : Trace) → Same pin t (msleep env fuel interval t).1
  unfolding msleep
  msleep-Same fuel t = sleep_rest-Same fuel _ t

  module _ (fuel : ℕ) (pul_fd ena_fd : ℤ) (not_pul : eqb_ℤ pul_fd pin ≡ false)
      (not_ena : eqb_ℤ ena_fd pin ≡ false) where
    pulse-Same : (t : Trace) → Same pin t (pulse env fuel pul_fd t).1
    unfolding pulse
    pulse-Same t =
        let t1 : Trace = wrote pul_fd high (env.write_reply t pul_fd high) ∷ t in
        let t2 = (msleep env fuel interval t1).1 in
        let t3 : Trace = wrote pul_fd low (env.write_reply t2 pul_fd low) ∷ t2 in
        ground (arith, msleep-Same fuel t1, msleep-Same fuel t3)

    pulses-Same : (n : ℕ) (t : Trace) → Same pin t (pulses env fuel n pul_fd t).1
    unfolding pulses
    pulses-Same zero t = (refl, refl, refl)
    pulses-Same (suc n) t = ground (arith, pulse-Same t, pulses-Same n (pulse env fuel pul_fd t).1)

    pub rotate-Same :
        (rotations : ℤ) (t : Trace) → Same pin t (rotate env fuel rotations pul_fd ena_fd t).1
    unfolding rotate
    rotate-Same rotations t =
        let t1 : Trace = wrote ena_fd low (env.write_reply t ena_fd low) ∷ t in
        ground (arith, pulses-Same (pos_part rotations) t1)

    -- A call that returns has done to `working` what the command asks, and the main thread holds the
    -- mutex just where `working` is 0. In any case it has kept to the mutex, and to the other pin.
    abbrev pub Sequenced : ℤ → ℤ → Trace → Option ℤ × Trace → Type 0
    Sequenced rotations before t (none, t') = (is_proper t' ≡ true) × (level pin t' ≡ level pin t)
    Sequenced rotations before t (some after, t') =
        IsFlag after
        × Obeys rotations before after
        × (held t' ≡ eqb_ℤ after (pos 0))
        × (is_proper t' ≡ true)
        × (level pin t' ≡ level pin t)

    rotate_and_restore-Sequenced :
        (rotations previous : ℤ) (t : Trace)
        → pos 0 ≤ℤ rotations
        → IsFlag previous
        → held t ≡ true
        → is_proper t ≡ true
        → Sequenced rotations previous t
            (rotate_and_restore env fuel rotations pul_fd ena_fd (pos 0) previous t)
    unfolding rotate_and_restore
    rotate_and_restore-Sequenced rotations previous t nonneg flag mine ok =
        let (out, t1) = rotate env fuel rotations pul_fd ena_fd t in
        let same = rotate-Same rotations t in
        elim (Option-cases out) [ inl hangs ↦ ground arith | inr (u, r) ↦ ground arith ]

    pub seq_rotate-Sequenced :
        (rotations working : ℤ) (t : Trace)
        → IsFlag working
        → held t ≡ eqb_ℤ working (pos 0)
        → is_proper t ≡ true
        → Sequenced rotations working t (seq_rotate env fuel rotations pul_fd ena_fd working t)
    unfolding seq_rotate
    seq_rotate-Sequenced rotations working t (inl e) mine ok =
        rw e (ground (arith, rotate_and_restore-Sequenced rotations (pos 0) t))
    seq_rotate-Sequenced rotations working t (inr e) mine ok =
        rw e (ground (arith, rotate_and_restore-Sequenced rotations (pos 1) (locked ∷ t)))
