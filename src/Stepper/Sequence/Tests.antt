-- ===== src/Stepper/Sequence/Tests.antt =====
-- The theorems on `seq_rotate` at concrete inputs.
use real_time_systems.Base.{◌≡◌, ◌↔◌, refl, true, some, none, [], ◌∷◌, arith}
use real_time_systems.Base.Int.{pos, neg}
use real_time_systems.Os.{locked}
use real_time_systems.Os.Examples.{calm}
use real_time_systems.Stepper.Examples.{calm-SleepsOn}
use real_time_systems.Stepper.Threads.{
  System, IsReachable, at_start, later, by_main, main_step, main_thread, called, idle, testing,
}
use real_time_systems.Stepper.Threads.Commands.{Serves, begun, main_on}
use real_time_systems.Stepper.Sequence.{seq_rotate}
use real_time_systems.Stepper.Sequence.Mutex.{held, is_proper}
use real_time_systems.Stepper.Sequence.Refines.{seq_rotate-refines}

abbrev commanded : System
commanded = record {
  working = pos 0;
  owner = some main_thread;
  main = called (neg 1);
  worker = testing;
}

abbrev running : System
running = record { working = pos 1; owner = none; main = idle; worker = testing }

commanded-IsReachable : IsReachable commanded
unfolding main_step
commanded-IsReachable = later (later at_start (by_main (pos 0) refl)) (by_main (neg 1) refl)

commanded-Serves : Serves 3 commanded running
unfolding main_step
commanded-Serves =
    main_on (main_on (main_on begun (ground arith) refl) (ground arith) refl) (ground arith) refl

seq_rotate-refines_example :
    let out = seq_rotate calm 3_000_001 (neg 1) (pos 6) (pos 5) (pos 0) (locked ∷ []) in
    (out.0 ≡ some (pos 1))
    × ((held out.1 ≡ true) ↔ (running.owner ≡ some main_thread))
    × (is_proper out.1 ≡ true)
seq_rotate-refines_example =
    seq_rotate-refines calm calm-SleepsOn 3_000_001 (omega arith) (pos 6) (pos 5) 3 commanded
      running (neg 1) (locked ∷ []) commanded-IsReachable refl commanded-Serves refl refl refl
