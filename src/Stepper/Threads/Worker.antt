-- ===== src/Stepper/Threads/Worker.antt =====
-- `workerFn` as a program of its own, against the model of the two threads.
use real_time_systems.Base.{ℕ, suc, ◌≡◌, ◌<◌, refl, sym, Option, some, ◌∷◌, arith, if◌then◌else◌}
use mathlib.Core.Path.{subst}
use real_time_systems.Base.Int.{ℤ, pos, ltb_ℤ, eqb_ℤ}
use real_time_systems.Os.{
  Env, Io, Trace, Flow, next, return, and_then, forever, pure, ◌>>=◌, ◌>>◌, look, mutex_lock,
  mutex_unlock, looked, locked, unlocked,
}
use real_time_systems.Stepper.Sleep.{SleepsOn}
use real_time_systems.Stepper.Rotate.{rotate}
use real_time_systems.Stepper.Rotate.Train.{rotate-train}
use real_time_systems.Stepper.Setup.{Pins}
use real_time_systems.Stepper.Worker.{worker_rounds, worker_round, worker_fn}
use real_time_systems.Stepper.Threads.{
  MainPc, WorkerPc, testing, testing_zero, locking, unlocking, turning, ended, System, main_step,
  worker_step,
}

module _ (env : Env) (fuel : ℕ) (pins : Pins) where
  -- The trace of the worker after its step from a place; a test reads what `working` is then.
  abbrev pub Emits : WorkerPc → System → Trace → Trace → Type 0
  Emits testing s t t' = (env.shared_reply t ≡ s.working) × (t' ≡ looked s.working ∷ t)
  Emits testing_zero s t t' = (env.shared_reply t ≡ s.working) × (t' ≡ looked s.working ∷ t)
  Emits locking s t t' = t' ≡ locked ∷ t
  Emits unlocking s t t' = t' ≡ unlocked ∷ t
  Emits turning s t t' = t' ≡ (rotate env fuel worker_rounds pins.pulse_fd pins.enable_fd t).1
  Emits ended s t t' = t' ≡ t

  -- Steps of both threads in any order, with the trace of the worker.
  pub data Run : System → Trace → System → Trace → Type 0 where
    stays : {s : System} {t : Trace} → Run s t s t
    main_runs :
        {s s1 s' : System} {t t' : Trace} (command : ℤ)
        → main_step command s.main s ≡ some s1
        → Run s1 t s' t'
        → Run s t s' t'
    worker_runs :
        {s s1 s' : System} {t t1 t' : Trace}
        → worker_step s.worker s ≡ some s1
        → Emits s.worker s t t1
        → Run s1 t1 s' t'
        → Run s t s' t'

  -- What is left of the thread at a place, with `n` rounds after the one that it is in.
  abbrev rest_from : WorkerPc → ℕ → Io (Flow (Unit {0}))
  rest_from testing n = forever n (worker_round env fuel pins) tt
  rest_from testing_zero n =
      (look env >>= λ working.
      if eqb_ℤ working (pos 0)
      then mutex_lock >> mutex_unlock >> pure (next tt)
      else rotate env fuel worker_rounds pins.pulse_fd pins.enable_fd >> pure (next tt))
      >>= and_then (forever n (worker_round env fuel pins))
  rest_from locking n =
      (mutex_lock >> mutex_unlock >> pure (next tt))
      >>= and_then (forever n (worker_round env fuel pins))
  rest_from unlocking n =
      (mutex_unlock >> pure (next tt)) >>= and_then (forever n (worker_round env fuel pins))
  rest_from turning n =
      (rotate env fuel worker_rounds pins.pulse_fd pins.enable_fd >> pure (next tt))
      >>= and_then (forever n (worker_round env fuel pins))
  rest_from ended n = pure (return (pos 0))

  -- Where the worker is at the head of its loop, or has ended.
  abbrev pub Finished : WorkerPc → Option (Flow (Unit {0})) → Type 0
  Finished testing out = out ≡ some (next tt)
  Finished ended out = out ≡ some (return (pos 0))
  Finished _ out = ⊥

  abbrev pub IsBetween : WorkerPc → Type 0
  IsBetween testing = Unit
  IsBetween ended = Unit
  IsBetween _ = ⊥

  main_step-worker :
      (command : ℤ) (k : MainPc) (s s' : System)
      → main_step command k s ≡ some s'
      → s'.worker ≡ s.worker
  unfolding main_step
  main_step-worker command k s s' e = ground arith

  module _ (on : SleepsOn env) (enough : 3_000_000 < fuel) where
    -- The next place, and what is left of the thread there.
    testing-rest :
        (n : ℕ) (w : ℤ) (t : Trace)
        → env.shared_reply t ≡ w
        → rest_from testing (suc n) t
          ≡ rest_from (if ltb_ℤ w (pos 0) then ended else testing_zero) n (looked w ∷ t)
    unfolding forever worker_round
    testing-rest n w t e = ground arith

    testing_zero-rest :
        (n : ℕ) (w : ℤ) (t : Trace)
        → env.shared_reply t ≡ w
        → rest_from testing_zero n t
          ≡ rest_from (if eqb_ℤ w (pos 0) then locking else turning) n (looked w ∷ t)
    testing_zero-rest n w t e = ground arith

    turning-rest :
        (n : ℕ) (t : Trace)
        → rest_from turning n t
          ≡ rest_from testing n (rotate env fuel worker_rounds pins.pulse_fd pins.enable_fd t).1
    turning-rest n t =
        let (ends, out) =
          (rotate-train env on fuel enough pins.pulse_fd pins.enable_fd worker_rounds t).0
            (omega arith) (omega arith) in
        ground (arith, ends)

    -- A round more is to be made from its head.
    abbrev rounds_from : WorkerPc → ℕ → ℕ
    rounds_from testing n = suc n
    rounds_from _ n = n

    worker_step-rest :
        (k : WorkerPc) (s s1 : System) (t t1 : Trace) (n : ℕ)
        → worker_step k s ≡ some s1
        → Emits k s t t1
        → rest_from k (rounds_from k n) t ≡ rest_from s1.worker n t1
    unfolding worker_step
    worker_step-rest testing s s1 t t1 n e (reads, emits) =
        let at : (if ltb_ℤ s.working (pos 0) then ended else testing_zero) ≡ s1.worker = cc in
        rw emits (
          subst (λ k. rest_from testing (suc n) t ≡ rest_from k n (looked s.working ∷ t)) at
            (testing-rest n s.working t reads))
    worker_step-rest testing_zero s s1 t t1 n e (reads, emits) =
        let at : (if eqb_ℤ s.working (pos 0) then locking else turning) ≡ s1.worker = cc in
        rw emits (
          subst (λ k. rest_from testing_zero n t ≡ rest_from k n (looked s.working ∷ t)) at
            (testing_zero-rest n s.working t reads))
    worker_step-rest locking s s1 t t1 n e emits =
        let at : unlocking ≡ s1.worker = ground arith in
        rw emits (subst (λ k. rest_from locking n t ≡ rest_from k n (locked ∷ t)) at refl)
    worker_step-rest unlocking s s1 t t1 n e emits =
        let at : testing ≡ s1.worker = cc in
        rw emits (subst (λ k. rest_from unlocking n t ≡ rest_from k n (unlocked ∷ t)) at refl)
    worker_step-rest turning s s1 t t1 n e emits =
        let at : testing ≡ s1.worker = cc in
        rw emits (
          subst
            (λ k.
              rest_from turning n t
              ≡ rest_from k n (rotate env fuel worker_rounds pins.pulse_fd pins.enable_fd t).1)
            at (turning-rest n t))
    worker_step-rest ended s s1 t t1 n e emits = cc

    -- So many rounds of the thread, from a place, lead to the end of the run.
    abbrev Arrives : WorkerPc → Trace → WorkerPc → Trace → Type 0
    Arrives k t k' t' = (n : ℕ) × Finished k' (rest_from k n t).0 × ((rest_from k n t).1 ≡ t')

    stays-Arrives : (k : WorkerPc) (t : Trace) → IsBetween k → Arrives k t k t
    unfolding forever
    stays-Arrives testing t between = (0, refl, refl)
    stays-Arrives ended t between = (0, refl, refl)
    stays-Arrives testing_zero t between = absurd between
    stays-Arrives locking t between = absurd between
    stays-Arrives unlocking t between = absurd between
    stays-Arrives turning t between = absurd between

    Run-Arrives :
        {s s' : System} {t t' : Trace}
        → Run s t s' t'
        → IsBetween s'.worker
        → Arrives s.worker t s'.worker t'
    Run-Arrives {s} {s'} {t} stays between = stays-Arrives s.worker t between
    Run-Arrives {s} {s'} {t} {t'} (main_runs {s1} command e run) between =
        subst (λ k. Arrives k t s'.worker t') (main_step-worker command s.main s s1 e)
          (Run-Arrives run between)
    Run-Arrives {s} {s'} {t} {t'} (worker_runs {s1} {t1} e emits run) between =
        let (n, finished, here) = Run-Arrives run between in
        let (finished', here') =
          subst (λ out. Finished s'.worker out.0 × (out.1 ≡ t'))
            (sym (worker_step-rest s.worker s s1 t t1 n e emits)) (finished, here) in
        (rounds_from s.worker n, finished', here')

    -- Where interrupted sleeps go on sleeping, and given rounds for each nanosecond of one: whatever
    -- steps of the two threads come in whatever order, from a state in which the worker is at the head of
    -- its loop to one in which it is there again or has ended, `workerFn`, run with what the variable
    -- `working` was at each of its reads, makes just the calls that the worker's steps stand for,
    -- and is then at the head of its loop or has ended too.
    pub worker_fn-runs :
        (s s' : System) (t t' : Trace)
        → s.worker ≡ testing
        → Run s t s' t'
        → IsBetween s'.worker
        → (n : ℕ) × Finished s'.worker (worker_fn env fuel pins n t).0
          × ((worker_fn env fuel pins n t).1 ≡ t')
    unfolding worker_fn
    worker_fn-runs s s' t t' at run between =
        subst (λ k. Arrives k t s'.worker t') at (Run-Arrives run between)
