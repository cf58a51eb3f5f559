-- ===== src/Stepper/Threads/Commands.antt =====
-- A whole call of `seq_rotate`, with the worker's steps between those of the main thread.
use real_time_systems.Base.{ℕ, zero, suc, ◌+◌, ◌≤◌, Option, none, some, ◌≡◌, ◌≢◌, refl, arith}
use mathlib.Core.Path.{subst}
use real_time_systems.Base.Int.{ℤ, pos, ◌<ℤ◌, ◌≤ℤ◌}
use real_time_systems.Stepper.Threads.{
  Thread, MainPc, setting_up, idle, called, resuming, releasing, acquiring, halting, deciding,
  rotating, restoring, handing_back, WorkerPc, testing, testing_zero, locking, unlocking, turning,
  ended, System, main_step, worker_step, by_main, by_worker, IsReachable, later,
}
use real_time_systems.Stepper.Threads.Invariant.{IsFlag, MainOk-IsFlag, IsReachable-IsConsistent}

-- The call has gone on for `n` steps of the main thread, and any number of the worker's.
pub data Serves : ℕ → System → System → Type 0 where
  begun : {s : System} → Serves zero s s
  main_on :
      {n : ℕ} {s s' s'' : System}
      → Serves n s s'
      → s'.main ≢ idle
      → main_step (pos 0) s'.main s' ≡ some s''
      → Serves (suc n) s s''
  worker_on :
      {n : ℕ} {s s' s'' : System}
      → Serves n s s'
      → worker_step s'.worker s' ≡ some s''
      → Serves n s s''

-- What a command does to `working`: a negative number starts the worker, 0 stops it, and a positive
-- number leaves it as it was.
abbrev pub Obeys : ℤ → ℤ → ℤ → Type 0
Obeys rotations before after =
    (rotations <ℤ pos 0 → after ≡ pos 1)
    × (rotations ≡ pos 0 → after ≡ pos 0)
    × (pos 0 <ℤ rotations → after ≡ before)

-- The steps of the main thread that are left.
abbrev left : MainPc → ℕ
left setting_up = 0
left idle = 0
left (called r) = 7
left resuming = 2
left releasing = 1
left (acquiring r p) = 6
left (halting r p) = 5
left (deciding r p) = 4
left (rotating r p) = 3
left (restoring p) = 2
left handing_back = 1

-- At each place of a call with `r` that began where `working` was `b`: what holds of `working`.
abbrev Progress : ℤ → ℤ → MainPc → ℤ → Type 0
Progress r b setting_up w = ⊥
Progress r b idle w = Obeys r b w
Progress r b (called r') w = (r' ≡ r) × (w ≡ b)
Progress r b resuming w = r <ℤ pos 0
Progress r b releasing w = (r <ℤ pos 0) × (w ≡ pos 1)
Progress r b (acquiring r' p) w = (r' ≡ r) × (pos 0 ≤ℤ r) × (p ≡ b)
Progress r b (halting r' p) w = (r' ≡ r) × (pos 0 ≤ℤ r) × (p ≡ b)
Progress r b (deciding r' p) w = (r' ≡ r) × (pos 0 ≤ℤ r) × (p ≡ b) × (w ≡ pos 0)
Progress r b (rotating r' p) w = (r' ≡ r) × (pos 0 <ℤ r) × (p ≡ b)
Progress r b (restoring p) w = (pos 0 <ℤ r) × (p ≡ b)
Progress r b handing_back w = (pos 0 <ℤ r) × (w ≡ b)

-- `n` steps into such a call.
abbrev Serving : ℤ → ℤ → ℕ → System → Type 0
Serving r b n s = Progress r b s.main s.working × (n + left s.main ≤ 7)

abbrev Servingly : ℤ → ℤ → ℕ → Option System → Type 0
Servingly r b n none = Unit
Servingly r b n (some s) = Serving r b n s

main_step-Servingly :
    (r b : ℤ) (n : ℕ) (pc : MainPc) (w : ℤ) (o : Option Thread) (k : WorkerPc)
    → IsFlag w
    → pc ≢ idle
    → Serving r b n (record { working = w; owner = o; main = pc; worker = k })
    → Servingly r b
        (suc n)
        (main_step (pos 0) pc (record { working = w; owner = o; main = pc; worker = k }))
unfolding main_step
main_step-Servingly r b n setting_up w o k f i h = absurd h.0
main_step-Servingly r b n idle w o k f i h = absurd (i refl)
main_step-Servingly r b n (called r') w o k f i h = ground arith
main_step-Servingly r b n resuming w o k f i h = ground arith
main_step-Servingly r b n releasing w o k f i h = ground arith
main_step-Servingly r b n (acquiring r' p) w none k f i h = ground arith
main_step-Servingly r b n (acquiring r' p) w (some holder) k f i h = tt
main_step-Servingly r b n (halting r' p) w o k f i h = ground arith
main_step-Servingly r b n (deciding r' p) w o k f i h = ground arith
main_step-Servingly r b n (rotating r' p) w o k f i h = ground arith
main_step-Servingly r b n (restoring p) w o k f i h = ground arith
main_step-Servingly r b n handing_back w o k f i h = ground arith

-- The worker changes neither `working` nor the place of the main thread.
pub worker_step-keeps :
    (k : WorkerPc) (s s' : System)
    → worker_step k s ≡ some s'
    → (s'.main ≡ s.main) × (s'.working ≡ s.working)
unfolding worker_step
worker_step-keeps testing s s' e = ground arith
worker_step-keeps testing_zero s s' e = ground arith
worker_step-keeps locking s s' e = ground arith
worker_step-keeps unlocking s s' e = ground arith
worker_step-keeps turning s s' e = ground arith
worker_step-keeps ended s s' e = absurd (ground arith)

-- A call passes through reachable states.
pub Serves-IsReachable : {n : ℕ} {s s' : System} → IsReachable s → Serves n s s' → IsReachable s'
Serves-IsReachable r begun = r
Serves-IsReachable r (main_on before away e) =
    later (Serves-IsReachable r before) (by_main (pos 0) e)
Serves-IsReachable r (worker_on before e) = later (Serves-IsReachable r before) (by_worker e)

Serves-Serving :
    {n : ℕ} {s s' : System} (r : ℤ)
    → IsReachable s
    → s.main ≡ called r
    → Serves n s s'
    → Serving r s.working n s'
Serves-Serving r reach at begun = ground arith
Serves-Serving {n = suc n} {s} r reach at (main_on {s' = s1} before away e) =
    let (hm, hk) = IsReachable-IsConsistent (Serves-IsReachable reach before) in
    subst (Servingly r s.working (suc n)) e (
      main_step-Servingly r s.working n s1.main s1.working s1.owner s1.worker
        (MainOk-IsFlag s1.main s1.working s1.owner hm) away (Serves-Serving r reach at before))
Serves-Serving {n} {s} {s'} r reach at (worker_on {s' = s1} before e) =
    let (hm, hw) = worker_step-keeps s1.worker s1 s' e in
    rw (hm, hw) (Serves-Serving r reach at before)

Obeys-Progress : (r b w : ℤ) (pc : MainPc) → pc ≡ idle → Progress r b pc w → Obeys r b w
Obeys-Progress r b w pc e h = subst (λ pc. Progress r b pc w) e h

-- A call of `seq_rotate` that begins in a reachable state, with steps of the worker between its own,
-- takes at most seven steps of the main thread. If it has come back to the event loop, a negative
-- number has set `working` to 1, 0 has set it to 0, and a positive number has left it as it was.
pub seq_rotate-Obeys :
    (n : ℕ) (s s' : System) (rotations : ℤ)
    → IsReachable s
    → s.main ≡ called rotations
    → Serves n s s'
    → (n ≤ 7) × (s'.main ≡ idle → Obeys rotations s.working s'.working)
seq_rotate-Obeys n s s' rotations reach at serves =
    let (h, few) = Serves-Serving rotations reach at serves in
    (omega arith, λ e. Obeys-Progress rotations s.working s'.working s'.main e h)
