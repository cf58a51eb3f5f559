-- ===== src/Stepper/Threads/Overlap.antt =====
-- Both threads can be in `rotate` at once.
use real_time_systems.Base.{none, some, ◌≡◌, refl, arith}
use real_time_systems.Base.Int.{ℤ, pos, neg, ◌<ℤ◌}
use real_time_systems.Stepper.Threads.{
  main_thread, idle, called, acquiring, deciding, rotating, turning, main_step, worker_step,
  by_main, by_worker, IsReachable, at_start, later,
}

-- The worker has been started, and is in `rotate`.
started-IsReachable :
    IsReachable (record { working = pos 1; owner = none; main = idle; worker = turning })
unfolding main_step worker_step
started-IsReachable =
    later
      (later
        (later
          (later
            (later (later (later at_start (by_main (pos 0) refl)) (by_main (neg 1) refl))
              (by_main (pos 0) refl))
            (by_main (pos 0) refl))
          (by_main (pos 0) refl))
        (by_worker refl))
      (by_worker refl)

-- A positive number is to be waited for, and then to be served.
called-acquires :
    (r : ℤ)
    → pos 0 <ℤ r
    → main_step r
        (called r)
        (record { working = pos 1; owner = none; main = called r; worker = turning })
      ≡ some
          (record { working = pos 1; owner = none; main = acquiring r (pos 1); worker = turning })
unfolding main_step
called-acquires r positive = ground arith

deciding-rotates :
    (r : ℤ)
    → pos 0 <ℤ r
    → main_step r (deciding r (pos 1)) (record {
      working = pos 0;
      owner = some main_thread;
      main = deciding r (pos 1);
      worker = turning;
    })
      ≡ some (record {
        working = pos 0;
        owner = some main_thread;
        main = rotating r (pos 1);
        worker = turning;
      })
unfolding main_step
deciding-rotates r positive = ground arith

-- The mutex does not keep the threads from turning the motor at once: for each positive number of
-- rotations there is a reachable state in which the main thread is in `rotate` with it, holding the
-- mutex, and the worker is in `rotate` too.
rotating-overlaps :
    (rotations : ℤ)
    → pos 0 <ℤ rotations
    → IsReachable (record {
      working = pos 0;
      owner = some main_thread;
      main = rotating rotations (pos 1);
      worker = turning;
    })
unfolding main_step
rotating-overlaps r positive =
    later
      (later
        (later
          (later (later started-IsReachable (by_main r refl))
            (by_main r (called-acquires r positive)))
          (by_main r refl))
        (by_main r refl))
      (by_main r (deciding-rotates r positive))
