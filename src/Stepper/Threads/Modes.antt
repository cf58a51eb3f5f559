-- ===== src/Stepper/Threads/Modes.antt =====
-- The worker while the main thread is in the event loop: it waits, or it turns the motor.
use real_time_systems.Base.{ℕ, zero, suc, ◌≤◌, Option, none, some, ◌≡◌, ◌≢◌, refl, sym, arith}
use mathlib.Core.Path.{subst}
use real_time_systems.Base.Int.{ℤ, pos}
use real_time_systems.Stepper.Threads.{
  Thread, main_thread, worker_thread, idle, WorkerPc, testing, testing_zero, locking, unlocking,
  turning, ended, System, worker_steps, IsReachable,
}
use real_time_systems.Stepper.Threads.Invariant.{MainOk, WorkerOk, IsReachable-IsConsistent}

-- The main thread in the event loop, the worker at a place.
abbrev at_loop : ℤ → Option Thread → WorkerPc → System
at_loop w o k = record { working = w; owner = o; main = idle; worker = k }

-- The worker is to wait.
abbrev stopped : WorkerPc → System
stopped = at_loop (pos 0) (some main_thread)

-- It is at its lock: it makes no step.
locking-waits :
    (n : ℕ) (s : System)
    → worker_steps n (stopped locking) ≡ some s
    → (n ≡ 0) × (s.worker ≢ turning)
unfolding worker_steps
locking-waits zero s e = ground arith
locking-waits (suc n) s e = absurd (ground arith)

testing_zero-waits :
    (n : ℕ) (s : System)
    → worker_steps n (stopped testing_zero) ≡ some s
    → (n ≤ 1) × (s.worker ≢ turning)
unfolding worker_steps
testing_zero-waits zero s e = ground arith
testing_zero-waits (suc n) s e = ground (arith, locking-waits n s e)

testing-waits :
    (n : ℕ) (s : System)
    → worker_steps n (stopped testing) ≡ some s
    → (n ≤ 2) × (s.worker ≢ turning)
unfolding worker_steps
testing-waits zero s e = ground arith
testing-waits (suc n) s e = ground (arith, testing_zero-waits n s e)

turning-waits :
    (n : ℕ) (s : System)
    → worker_steps n (stopped turning) ≡ some s
    → (n ≤ 3) × (s.worker ≡ turning → n ≡ 0)
unfolding worker_steps
turning-waits zero s e = (omega arith, λ h. refl)
turning-waits (suc n) s e = ground (arith, testing-waits n s e)

stopped-waits :
    (k : WorkerPc) (n : ℕ) (s : System)
    → WorkerOk k (some main_thread)
    → worker_steps n (stopped k) ≡ some s
    → (n ≤ 3) × (s.worker ≡ turning → n ≡ 0)
stopped-waits testing n s h e = ground (arith, testing-waits n s e)
stopped-waits testing_zero n s h e = ground (arith, testing_zero-waits n s e)
stopped-waits locking n s h e = ground (arith, locking-waits n s e)
stopped-waits unlocking n s h e = absurd (ground arith)
stopped-waits turning n s h e = turning-waits n s e
stopped-waits ended n s h e = absurd h

idle-stopped : (w : ℤ) (o : Option Thread) → MainOk idle w o → w ≡ pos 0 → o ≡ some main_thread
idle-stopped w o h e = ground arith

idle-running : (w : ℤ) (o : Option Thread) → MainOk idle w o → w ≡ pos 1 → o ≢ some main_thread
idle-running w o h e = ground arith

-- Where `working` is 0 and the main thread is in the event loop, the worker makes at most three steps
-- before it waits, and enters no further call of `rotate`.
pub IsStopped-waits :
    (s : System)
    → IsReachable s
    → s.main ≡ idle
    → s.working ≡ pos 0
    → (n : ℕ) (s' : System) → worker_steps n s ≡ some s'
    → (n ≤ 3) × (s'.worker ≡ turning → n ≡ 0)
IsStopped-waits s r at stop n s' e =
    let (hm, hk) = IsReachable-IsConsistent r in
    let mine =
      idle-stopped s.working s.owner (subst (λ pc. MainOk pc s.working s.owner) at hm) stop in
    let same : s ≡ stopped s.worker = rw (at, stop, mine) refl in
    stopped-waits s.worker n s' (subst (WorkerOk s.worker) mine hk)
      (subst (λ x. worker_steps n x ≡ some s') same e)

-- The worker gets to `rotate` within four steps.
abbrev pub TurnsSoon : System → Type 0
TurnsSoon s =
    (n : ℕ) × (s' : System) × (n ≤ 4) × (worker_steps n s ≡ some s') × (s'.worker ≡ turning)

running-TurnsSoon :
    (o : Option Thread) (k : WorkerPc)
    → o ≢ some main_thread
    → WorkerOk k o
    → TurnsSoon (at_loop (pos 1) o k)
unfolding worker_steps
running-TurnsSoon o testing ho h = (2, at_loop (pos 1) o turning, omega arith, refl, refl)
running-TurnsSoon o testing_zero ho h = (1, at_loop (pos 1) o turning, omega arith, refl, refl)
running-TurnsSoon none locking ho h = (4, at_loop (pos 1) none turning, omega arith, refl, refl)
running-TurnsSoon (some main_thread) locking ho h = absurd (ho refl)
running-TurnsSoon (some worker_thread) locking ho h = absurd (h refl)
running-TurnsSoon o unlocking ho h = (3, at_loop (pos 1) none turning, omega arith, refl, refl)
running-TurnsSoon o turning ho h = (0, at_loop (pos 1) o turning, omega arith, refl, refl)
running-TurnsSoon o ended ho h = absurd h

-- Where `working` is 1 and the main thread is in the event loop, the worker is in `rotate` after at
-- most four steps of its own, none of which has to wait.
pub IsRunning-TurnsSoon :
    (s : System) → IsReachable s → s.main ≡ idle → s.working ≡ pos 1 → TurnsSoon s
IsRunning-TurnsSoon s r at run =
    let (hm, hk) = IsReachable-IsConsistent r in
    let other =
      idle-running s.working s.owner (subst (λ pc. MainOk pc s.working s.owner) at hm) run in
    let same : s ≡ at_loop (pos 1) s.owner s.worker = rw (at, run) refl in
    subst TurnsSoon (sym same) (running-TurnsSoon s.owner s.worker other hk)
