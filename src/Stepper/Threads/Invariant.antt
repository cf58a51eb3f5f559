-- ===== src/Stepper/Threads/Invariant.antt =====
-- What holds in every reachable state of the two threads.
use real_time_systems.Base.{Option, none, some, ◌≡◌, ◌≢◌, ◌⊎◌, inl, inr, refl, arith, if◌then◌else◌}
use mathlib.Core.Path.{subst}
use real_time_systems.Base.Int.{ℤ, pos, ltb_ℤ, eqb_ℤ, ◌<ℤ◌}
use real_time_systems.Stepper.Threads.{
  Thread, main_thread, worker_thread, MainPc, setting_up, idle, called, resuming, releasing,
  acquiring, halting, deciding, rotating, restoring, handing_back, WorkerPc, testing, testing_zero,
  locking, unlocking, turning, ended, System, main_step, worker_step, Step, by_main, by_worker,
  IsReachable, at_start, later,
}

-- The worker is to wait, and the main thread holds the mutex.
abbrev pub IsStopped : ℤ → Option Thread → Type 0
IsStopped working owner = (working ≡ pos 0) × (owner ≡ some main_thread)

-- The worker is to run, and the main thread does not hold the mutex.
abbrev pub IsRunning : ℤ → Option Thread → Type 0
IsRunning working owner = (working ≡ pos 1) × (owner ≢ some main_thread)

abbrev pub IsFlag : ℤ → Type 0
IsFlag n = (n ≡ pos 0) ⊎ (n ≡ pos 1)

-- What holds at each place of the main thread.
abbrev pub MainOk : MainPc → ℤ → Option Thread → Type 0
MainOk setting_up w o = (w ≡ pos 0) × (o ≢ some main_thread)
MainOk idle w o = IsStopped w o ⊎ IsRunning w o
MainOk (called r) w o = IsStopped w o ⊎ IsRunning w o
MainOk resuming w o = IsStopped w o
MainOk releasing w o = (w ≡ pos 1) × (o ≡ some main_thread)
MainOk (acquiring r p) w o = IsRunning w o × (p ≡ pos 1)
MainOk (halting r p) w o = (w ≡ pos 1) × (o ≡ some main_thread) × (p ≡ pos 1)
MainOk (deciding r p) w o = IsStopped w o × IsFlag p
MainOk (rotating r p) w o = IsStopped w o × IsFlag p × (pos 0 <ℤ r)
MainOk (restoring p) w o = IsStopped w o × IsFlag p
MainOk handing_back w o = (w ≡ pos 1) × (o ≡ some main_thread)

-- The worker holds the mutex just between its lock and its unlock, and does not end.
abbrev pub WorkerOk : WorkerPc → Option Thread → Type 0
WorkerOk testing o = o ≢ some worker_thread
WorkerOk testing_zero o = o ≢ some worker_thread
WorkerOk locking o = o ≢ some worker_thread
WorkerOk unlocking o = o ≡ some worker_thread
WorkerOk turning o = o ≢ some worker_thread
WorkerOk ended o = ⊥

abbrev pub IsConsistent : System → Type 0
IsConsistent s = MainOk s.main s.working s.owner × WorkerOk s.worker s.owner

-- After a step, if the thread does not wait.
abbrev Consistently : Option System → Type 0
Consistently none = Unit
Consistently (some s) = IsConsistent s

-- The worker keeps what it has where the main thread takes the free mutex.
taken-WorkerOk : (k : WorkerPc) → WorkerOk k none → WorkerOk k (some main_thread)
taken-WorkerOk testing h = ground arith
taken-WorkerOk testing_zero h = ground arith
taken-WorkerOk locking h = ground arith
taken-WorkerOk unlocking h = absurd (ground arith)
taken-WorkerOk turning h = ground arith
taken-WorkerOk ended h = h

given-WorkerOk : (k : WorkerPc) → WorkerOk k (some main_thread) → WorkerOk k none
given-WorkerOk testing h = ground arith
given-WorkerOk testing_zero h = ground arith
given-WorkerOk locking h = ground arith
given-WorkerOk unlocking h = absurd (ground arith)
given-WorkerOk turning h = ground arith
given-WorkerOk ended h = h

-- The place after `called`, by the tests of `seq_rotate`.
called-MainOk :
    (r w : ℤ) (o : Option Thread)
    → IsStopped w o ⊎ IsRunning w o
    → MainOk
        (if ltb_ℤ r (pos 0)
          then (if eqb_ℤ w (pos 0) then resuming else idle)
          else if eqb_ℤ w (pos 1)
          then acquiring r w
          else deciding r w)
        w
        o
called-MainOk r w o (inl (hw, ho)) = rw hw (ground arith)
called-MainOk r w o (inr (hw, ho)) = rw hw (ground arith)

deciding-MainOk :
    (r p w : ℤ) (o : Option Thread)
    → IsStopped w o
    → IsFlag p
    → MainOk (if ltb_ℤ (pos 0) r then rotating r p else idle) w o
deciding-MainOk r p w o h hp = ground arith

restoring-Consistently :
    (p w : ℤ) (o : Option Thread) (k : WorkerPc)
    → IsStopped w o
    → IsFlag p
    → WorkerOk k o
    → IsConsistent (
        if eqb_ℤ w p
        then record { working = w; owner = o; main = idle; worker = k }
        else record { working = p; owner = o; main = handing_back; worker = k })
restoring-Consistently p w o k (hw, ho) (inl hp) hk = rw (hw, hp) (inl (refl, ho), hk)
restoring-Consistently p w o k (hw, ho) (inr hp) hk = rw (hw, hp) ((refl, ho), hk)

main_step-Consistently :
    (command : ℤ) (pc : MainPc) (w : ℤ) (o : Option Thread) (k : WorkerPc)
    → MainOk pc w o
    → WorkerOk k o
    → Consistently (main_step command pc (record { working = w; owner = o; main = pc; worker = k }))
unfolding main_step
main_step-Consistently c setting_up w none k h hk = (ground arith, taken-WorkerOk k hk)
main_step-Consistently c setting_up w (some holder) k h hk = tt
main_step-Consistently c idle w o k h hk = (h, hk)
main_step-Consistently c (called r) w o k h hk = (called-MainOk r w o h, hk)
main_step-Consistently c resuming w o k (hw, ho) hk = ((refl, ho), hk)
main_step-Consistently c releasing w o k (hw, ho) hk =
    (inr (hw, ground arith), given-WorkerOk k (subst (WorkerOk k) ho hk))
main_step-Consistently c (acquiring r p) w none k ((hw, ho), hp) hk =
    ((hw, refl, hp), taken-WorkerOk k hk)
main_step-Consistently c (acquiring r p) w (some holder) k h hk = tt
main_step-Consistently c (halting r p) w o k (hw, ho, hp) hk = (((refl, ho), inr hp), hk)
main_step-Consistently c (deciding r p) w o k h hk = (deciding-MainOk r p w o h.0 h.1, hk)
main_step-Consistently c (rotating r p) w o k (h, hp, hr) hk = ((h, hp), hk)
main_step-Consistently c (restoring p) w o k h hk = restoring-Consistently p w o k h.0 h.1 hk
main_step-Consistently c handing_back w o k (hw, ho) hk =
    (inr (hw, ground arith), given-WorkerOk k (subst (WorkerOk k) ho hk))

-- `working` is 0 or 1 wherever the main thread is.
pub MainOk-IsFlag : (pc : MainPc) (w : ℤ) (o : Option Thread) → MainOk pc w o → IsFlag w
MainOk-IsFlag setting_up w o h = ground arith
MainOk-IsFlag idle w o h = ground arith
MainOk-IsFlag (called r) w o h = ground arith
MainOk-IsFlag resuming w o h = ground arith
MainOk-IsFlag releasing w o h = ground arith
MainOk-IsFlag (acquiring r p) w o h = ground arith
MainOk-IsFlag (halting r p) w o h = ground arith
MainOk-IsFlag (deciding r p) w o h = ground arith
MainOk-IsFlag (rotating r p) w o h = ground arith
MainOk-IsFlag (restoring p) w o h = ground arith
MainOk-IsFlag handing_back w o h = ground arith

-- To the main thread it is the same whether the worker holds the mutex or nobody does.
free-MainOk :
    (pc : MainPc) (w : ℤ) (o o' : Option Thread)
    → o ≢ some main_thread
    → o' ≢ some main_thread
    → MainOk pc w o
    → MainOk pc w o'
free-MainOk setting_up w o o' n n' h = ground arith
free-MainOk idle w o o' n n' h = ground arith
free-MainOk (called r) w o o' n n' h = ground arith
free-MainOk resuming w o o' n n' h = ground arith
free-MainOk releasing w o o' n n' h = ground arith
free-MainOk (acquiring r p) w o o' n n' h = ground arith
free-MainOk (halting r p) w o o' n n' h = ground arith
free-MainOk (deciding r p) w o o' n n' h = ground arith
free-MainOk (rotating r p) w o o' n n' h = ground arith
free-MainOk (restoring p) w o o' n n' h = ground arith
free-MainOk handing_back w o o' n n' h = ground arith

testing-WorkerOk :
    (w : ℤ) (o : Option Thread)
    → IsFlag w
    → o ≢ some worker_thread
    → WorkerOk (if ltb_ℤ w (pos 0) then ended else testing_zero) o
testing-WorkerOk w o h hk = ground arith

zero-WorkerOk :
    (w : ℤ) (o : Option Thread)
    → o ≢ some worker_thread
    → WorkerOk (if eqb_ℤ w (pos 0) then locking else turning) o
zero-WorkerOk w o hk = ground arith

worker_step-Consistently :
    (pc : MainPc) (w : ℤ) (o : Option Thread) (k : WorkerPc)
    → MainOk pc w o
    → WorkerOk k o
    → Consistently (worker_step k (record { working = w; owner = o; main = pc; worker = k }))
unfolding worker_step
worker_step-Consistently pc w o testing h hk = (h, testing-WorkerOk w o (MainOk-IsFlag pc w o h) hk)
worker_step-Consistently pc w o testing_zero h hk = (h, zero-WorkerOk w o hk)
worker_step-Consistently pc w none locking h hk =
    (free-MainOk pc w none (some worker_thread) (ground arith) (ground arith) h, refl)
worker_step-Consistently pc w (some holder) locking h hk = tt
worker_step-Consistently pc w o unlocking h hk =
    (free-MainOk pc w o none (ground arith) (ground arith) h, ground arith)
worker_step-Consistently pc w o turning h hk = (h, hk)
worker_step-Consistently pc w o ended h hk = tt

-- Every step keeps what holds.
Step-IsConsistent : {s s' : System} → Step s s' → IsConsistent s → IsConsistent s'
Step-IsConsistent {s} (by_main command e) h =
    subst Consistently e (main_step-Consistently command s.main s.working s.owner s.worker h.0 h.1)
Step-IsConsistent {s} (by_worker e) h =
    subst Consistently e (worker_step-Consistently s.main s.working s.owner s.worker h.0 h.1)

pub IsReachable-IsConsistent : {s : System} → IsReachable s → IsConsistent s
IsReachable-IsConsistent at_start = ((refl, ground arith), ground arith)
IsReachable-IsConsistent (later r step) = Step-IsConsistent step (IsReachable-IsConsistent r)
