-- ===== src/Stepper/Threads/Safety.antt =====
-- The mutex and the flag: who holds it, who waits for it, and whether both threads turn the motor.
use real_time_systems.Base.{Option, none, some, ◌≡◌, ◌≢◌, ◌⊎◌, inl, inr, refl, arith}
use mathlib.Core.Path.{subst}
use real_time_systems.Base.Int.{ℤ}
use real_time_systems.Stepper.Threads.{
  Thread, main_thread, worker_thread, MainPc, setting_up, idle, called, resuming, releasing,
  acquiring, halting, deciding, rotating, restoring, handing_back, WorkerPc, testing, testing_zero,
  locking, unlocking, turning, ended, System, main_step, worker_step, IsReachable,
}
use real_time_systems.Stepper.Threads.Invariant.{
  IsFlag, MainOk, WorkerOk, MainOk-IsFlag, IsReachable-IsConsistent,
}

WorkerOk-unending : (k : WorkerPc) (o : Option Thread) → WorkerOk k o → k ≢ ended
WorkerOk-unending k o h e = subst (λ k. WorkerOk k o) e h

unlocking-MainOk :
    (pc : MainPc) (w : ℤ) (o : Option Thread)
    → MainOk pc w o
    → (pc ≡ releasing) ⊎ (pc ≡ handing_back)
    → o ≡ some main_thread
unlocking-MainOk pc w o h (inl e) = (subst (λ pc. MainOk pc w o) e h).1
unlocking-MainOk pc w o h (inr e) = (subst (λ pc. MainOk pc w o) e h).1

locking-MainOk :
    (pc : MainPc) (w r p : ℤ) (o : Option Thread)
    → MainOk pc w o
    → (pc ≡ setting_up) ⊎ (pc ≡ acquiring r p)
    → o ≢ some main_thread
locking-MainOk pc w r p o h (inl e) = (subst (λ pc. MainOk pc w o) e h).1
locking-MainOk pc w r p o h (inr e) = (subst (λ pc. MainOk pc w o) e h).0.1

-- In every state that the two threads reach, `working` is 0 or 1, so the worker never leaves its
-- loop; a thread that unlocks the mutex holds it, and a thread that locks it does not.
pub IsReachable-mutex :
    (s : System)
    → IsReachable s
    → IsFlag s.working
      × (s.worker ≢ ended)
      × ((s.main ≡ releasing) ⊎ (s.main ≡ handing_back) → s.owner ≡ some main_thread)
      × ((r p : ℤ) → (s.main ≡ setting_up) ⊎ (s.main ≡ acquiring r p) → s.owner ≢ some main_thread)
      × (s.worker ≡ unlocking → s.owner ≡ some worker_thread)
      × (s.worker ≡ locking → s.owner ≢ some worker_thread)
IsReachable-mutex s r =
    let (hm, hk) = IsReachable-IsConsistent r in
    (
      MainOk-IsFlag s.main s.working s.owner hm,
      WorkerOk-unending s.worker s.owner hk,
      unlocking-MainOk s.main s.working s.owner hm,
      λ r' p. locking-MainOk s.main s.working r' p s.owner hm,
      λ e. subst (λ k. WorkerOk k s.owner) e hk,
      λ e. subst (λ k. WorkerOk k s.owner) e hk,
    )

-- Only a worker that is about to unlock holds the mutex.
holder-WorkerOk : (k : WorkerPc) → WorkerOk k (some worker_thread) → k ≡ unlocking
holder-WorkerOk testing h = absurd (ground arith)
holder-WorkerOk testing_zero h = absurd (ground arith)
holder-WorkerOk locking h = absurd (ground arith)
holder-WorkerOk unlocking h = refl
holder-WorkerOk turning h = absurd (ground arith)
holder-WorkerOk ended h = absurd h

-- The main thread can go on, at once or after the worker's next step.
abbrev pub GoesOn : ℤ → System → Type 0
GoesOn command s =
    (main_step command s.main s ≢ none)
    ⊎ ((s' : System) × (worker_step s.worker s ≡ some s') × (main_step command s'.main s' ≢ none))

-- It is at a lock, which succeeds as soon as the mutex is free.
abbrev IsLocking : MainPc → Type 0
IsLocking pc =
    (c w : ℤ) (k : WorkerPc)
    → main_step c pc (record { working = w; owner = none; main = pc; worker = k }) ≢ none

waiting-GoesOn :
    (c : ℤ) (pc : MainPc) (w : ℤ) (o : Option Thread) (k : WorkerPc)
    → IsLocking pc
    → o ≢ some main_thread
    → WorkerOk k o
    → GoesOn c (record { working = w; owner = o; main = pc; worker = k })
unfolding worker_step
waiting-GoesOn c pc w none k free ho hk = inl (free c w k)
waiting-GoesOn c pc w (some main_thread) k free ho hk = absurd (ho refl)
waiting-GoesOn c pc w (some worker_thread) k free ho hk = rw (holder-WorkerOk k hk) (
    inr (record { working = w; owner = none; main = pc; worker = testing }, refl, free c w testing))

consistent-GoesOn :
    (c : ℤ) (pc : MainPc) (w : ℤ) (o : Option Thread) (k : WorkerPc)
    → MainOk pc w o
    → WorkerOk k o
    → GoesOn c (record { working = w; owner = o; main = pc; worker = k })
unfolding main_step
consistent-GoesOn c setting_up w o k (hw, ho) hk =
    waiting-GoesOn c setting_up w o k (λ c w k. ground arith) ho hk
consistent-GoesOn c (acquiring r p) w o k ((hw, ho), hp) hk =
    waiting-GoesOn c (acquiring r p) w o k (λ c w k. ground arith) ho hk
consistent-GoesOn c idle w o k h hk = inl (ground arith)
consistent-GoesOn c (called r) w o k h hk = inl (ground arith)
consistent-GoesOn c resuming w o k h hk = inl (ground arith)
consistent-GoesOn c releasing w o k h hk = inl (ground arith)
consistent-GoesOn c (halting r p) w o k h hk = inl (ground arith)
consistent-GoesOn c (deciding r p) w o k h hk = inl (ground arith)
consistent-GoesOn c (rotating r p) w o k h hk = inl (ground arith)
consistent-GoesOn c (restoring p) w o k h hk = inl (ground arith)
consistent-GoesOn c handing_back w o k h hk = inl (ground arith)

-- The main thread waits in no state that the two threads reach, except for a worker that is about to
-- unlock: then the worker's next step can be made, and after it the main thread can go on.
pub IsReachable-GoesOn : (s : System) (command : ℤ) → IsReachable s → GoesOn command s
IsReachable-GoesOn s command r =
    let (hm, hk) = IsReachable-IsConsistent r in
    consistent-GoesOn command s.main s.working s.owner s.worker hm hk
