-- ===== src/Stepper/Threads.antt =====
-- The two threads of src/stepper.c: `seq_rotate`, called by the main thread on each command, and
-- `workerFn`, with the variable `working` and the mutex that they share. One step of the model is one
-- access of a thread to what is shared, or a whole call of `rotate`.
pub mod Invariant
pub mod Safety
pub mod Modes
pub mod Commands
pub mod Returns
pub mod Overlap
pub mod Worker
mod Tests
use real_time_systems.Base.{Option, none, some, if◌then◌else◌, ◌≡◌, ℕ, zero, suc}
use real_time_systems.Base.Int.{ℤ, pos, ltb_ℤ, eqb_ℤ}

pub data Thread : Type 0 where
  main_thread : Thread
  worker_thread : Thread

-- Where the main thread is. `rotations` and `previous` are the variables of `seq_rotate`.
pub data MainPc : Type 0 where
  -- before `pthread_mutex_lock` in `main`, the worker being there already
  setting_up : MainPc
  -- in the event loop
  idle : MainPc
  -- at the first line of `seq_rotate`
  called : (rotations : ℤ) → MainPc
  -- `working = 1`, and the unlock after it
  resuming : MainPc
  releasing : MainPc
  -- the lock, and `working = 0` after it
  acquiring : (rotations previous : ℤ) → MainPc
  halting : (rotations previous : ℤ) → MainPc
  -- `if (rotations > 0)`, the call of `rotate`, the `if` after it, and the unlock
  deciding : (rotations previous : ℤ) → MainPc
  rotating : (rotations previous : ℤ) → MainPc
  restoring : (previous : ℤ) → MainPc
  handing_back : MainPc

-- Where the worker is: at the tests of `working`, the lock, the unlock, in `rotate`, after the loop.
pub data WorkerPc : Type 0 where
  testing : WorkerPc
  testing_zero : WorkerPc
  locking : WorkerPc
  unlocking : WorkerPc
  turning : WorkerPc
  ended : WorkerPc

pub record System : Type 0 where
  pub working : ℤ
  -- who holds `motor_mutex`
  pub owner : Option Thread
  pub main : MainPc
  pub worker : WorkerPc

-- Take the mutex, or wait (none): for the one who holds it too.
abbrev pub lock : Thread → System → Option System
lock thread s = elim s.owner [ none ↦ some (record s { owner = some thread }) | some holder ↦ none ]

abbrev pub unlock : System → System
unlock s = record s { owner = none }

-- The step of the main thread from a place. `command` is what the next command asks for.
unfoldable pub main_step : ℤ → MainPc → System → Option System
main_step command setting_up s = lock main_thread (record s { main = idle })
main_step command idle s = some (record s { main = called command })
main_step command (called rotations) s =
    let previous = s.working in
    some (record s {
      main =
          if ltb_ℤ rotations (pos 0)
          then (if eqb_ℤ previous (pos 0) then resuming else idle)
          else if eqb_ℤ previous (pos 1)
          then acquiring rotations previous
          else deciding rotations previous;
    })
main_step command resuming s = some (record s { working = pos 1; main = releasing })
main_step command releasing s = some (unlock (record s { main = idle }))
main_step command (acquiring rotations previous) s =
    lock main_thread (record s { main = halting rotations previous })
main_step command (halting rotations previous) s =
    some (record s { working = pos 0; main = deciding rotations previous })
main_step command (deciding rotations previous) s =
    some (record s { main = if ltb_ℤ (pos 0) rotations then rotating rotations previous else idle })
main_step command (rotating rotations previous) s = some (record s { main = restoring previous })
main_step command (restoring previous) s = some (
    if eqb_ℤ s.working previous
    then record s { main = idle }
    else record s { working = previous; main = handing_back })
main_step command handing_back s = some (unlock (record s { main = idle }))

-- The step of the worker from a place.
pub worker_step : WorkerPc → System → Option System
worker_step testing s =
    some (record s { worker = if ltb_ℤ s.working (pos 0) then ended else testing_zero })
worker_step testing_zero s =
    some (record s { worker = if eqb_ℤ s.working (pos 0) then locking else turning })
worker_step locking s = lock worker_thread (record s { worker = unlocking })
worker_step unlocking s = some (unlock (record s { worker = testing }))
worker_step turning s = some (record s { worker = testing })
worker_step ended s = none

-- The worker makes so many steps, or waits before that.
unfoldable pub worker_steps : ℕ → System → Option System
unfolding worker_step
worker_steps zero s = some s
worker_steps (suc n) s = elim (worker_step s.worker s) [ none ↦ none | some s' ↦ worker_steps n s' ]

-- When the worker has been created.
abbrev pub started : System
started = record { working = pos 0; owner = none; main = setting_up; worker = testing }

pub data Step : System → System → Type 0 where
  by_main : {s s' : System} (command : ℤ) → main_step command s.main s ≡ some s' → Step s s'
  by_worker : {s s' : System} → worker_step s.worker s ≡ some s' → Step s s'

pub data IsReachable : System → Type 0 where
  at_start : IsReachable started
  later : {s s' : System} → IsReachable s → Step s s' → IsReachable s'
