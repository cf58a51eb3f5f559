-- ===== src/Stepper/Main/Start.antt =====
-- From the start of `main` of src/stepper.c to its event loop.
use real_time_systems.Base.{
  ℕ, ◌≡◌, ◌⊎◌, inl, inr, refl, true, Option, some, List, [], ◌∷◌, Bool-cases, arith, ◌==◌, length,
}
use real_time_systems.Base.Int.{ℤ, pos}
use real_time_systems.Os.{Env, Trace, MotorPacket, Flow, return, Lasts-with, and_then-reaches}
use real_time_systems.Stepper.Rotate.{low}
use real_time_systems.Stepper.Gpio.{pin_args, export, unexport}
use real_time_systems.Stepper.Sequence.Mutex.{held, IsOrderly, level}
use real_time_systems.Stepper.Setup.{
  Pins, no_pins, args_number, exit_failure, first_level, init_directions, init_values, init_pulse,
  open_server, start_worker,
}
use real_time_systems.Stepper.Setup.FirstLevel.{
  level-init_values, IsDirectionOf, init_values-IsDirectionOf,
}
use real_time_systems.Stepper.Setup.Unlocked.{
  waits, IsEarly, Early, LockedWith, init_directions-Early, init_values-Early, init_pulse-Early,
  open_server-Early, start_worker-Locked, export-IsEarly, held-unexport,
}
use real_time_systems.Stepper.Events.{Motor}
use real_time_systems.Stepper.Main.{serve_commands, start_up, main}

module _ (env : Env) (fuel rounds : ℕ) (argv : List (List ℕ)) (uninitialized : MotorPacket) where
  -- Where the event loop begins: the main thread has locked the mutex, and the pin of the direction, in
  -- `argv[DIR_NUM]`, is at its first level, or low if the pulses go to the same file.
  abbrev pub IsStarted : Pins → Trace → Type 0
  IsStarted pins t =
      (held t ≡ true)
      × IsOrderly t
      × (waits t ≡ 0)
      × IsDirectionOf env argv pins.direction_fd
      × ((level pins.direction_fd t ≡ some (first_level env argv))
          ⊎ (level pins.direction_fd t ≡ some low))

  unexport-returns : (t : Trace) → (unexport env argv t).0 ≡ some tt
  unfolding unexport
  unexport-returns t = ground arith

  export-returns :
      (t : Trace) → ((export env argv t).0 ≡ some (pos 0)) ⊎ ((export env argv t).0 ≡ some (pos 1))
  unfolding export
  export-returns t = ground arith

  -- The lines of `main` before "Start dir initialization".
  main-starts :
      ((t : Trace) × IsEarly t
        × (main env fuel rounds argv uninitialized [] ≡ (some (return exit_failure), t)))
      ⊎ ((t : Trace) × IsEarly t
          × (main env fuel rounds argv uninitialized []
              ≡ start_up env fuel rounds argv uninitialized t))
  unfolding main
  main-starts = elim (Bool-cases (length argv == args_number)) [
    | inr wrong ↦ inl ([], (refl, refl, refl), ground arith)
    | inl right ↦
        let t1 = (unexport env argv []).1 in
        let t2 = (export env argv t1).1 in
        let freed = held-unexport env argv [] in
        let free = export-IsEarly env argv t1 freed in
        let returned = unexport-returns [] in
        elim (export-returns t1) [
          | inl failed ↦ inl (t2, free, ground arith)
          | inr done ↦ inr (t2, free, ground arith)
        ]
  ]

  module _ (R : Option (Flow Motor) × Trace → Type 0)
      (fails : (ret : ℤ) (t : Trace) → IsEarly t → R (some (return ret), t))
      (serves : (pins : Pins) (connection_socket : ℤ) (t : Trace)
        → IsStarted pins t
        → R (serve_commands env fuel rounds argv uninitialized pins connection_socket t)) where
    start_up-reaches : (t : Trace) → IsEarly t → R (start_up env fuel rounds argv uninitialized t)
    unfolding start_up
    start_up-reaches t h =
        and_then-reaches Early IsEarly R (init_directions env argv pin_args) _ t
          (λ u t1 h1.
            and_then-reaches
              (λ pins t2.
                IsEarly t2
                × ((level pins.direction_fd t2 ≡ some (first_level env argv))
                    × IsDirectionOf env argv pins.direction_fd))
              IsEarly R (init_values env argv (1 ∷ 2 ∷ []) no_pins) _ t1
              (λ pins t2 (h2, (l2, of_dir)).
                and_then-reaches _ IsEarly R (init_pulse env argv pins) _ t2
                  (λ pins' t3 (h3, same, l3).
                    and_then-reaches _ IsEarly R (open_server env argv) _ t3
                      (λ conn t4 (h4, l4).
                        and_then-reaches (LockedWith pins.direction_fd t4) IsEarly R
                          (start_worker env argv) _ t4
                          (λ u' t5 (mine, ok, early, l5).
                            serves pins' conn t5
                              (mine, ok, early, rw same of_dir, rw same (ground arith)))
                          fails (start_worker-Locked env argv pins.direction_fd t4 h4))
                      fails (open_server-Early env argv pins.direction_fd t3 h3))
                  fails (init_pulse-Early env argv pins t2 h2))
              fails
              (Lasts-with Early
                (λ pins t2.
                  (level pins.direction_fd t2 ≡ some (first_level env argv))
                  × IsDirectionOf env argv pins.direction_fd)
                IsEarly (init_values env argv (1 ∷ 2 ∷ []) no_pins t1)
                (λ pins e. (
                  level-init_values env argv pins t1 e,
                  init_values-IsDirectionOf env argv pins t1 e,
                ))
                (init_values-Early env argv (1 ∷ 2 ∷ []) no_pins t1 h1)))
          fails (init_directions-Early env argv pin_args t h)

    -- The program ends before its event loop, or gets there.
    pub main-reaches : R (main env fuel rounds argv uninitialized [])
    main-reaches = elim main-starts [
      | inl (t, h, e) ↦ rw e (fails exit_failure t h)
      | inr (t, h, e) ↦ rw e (start_up-reaches t h)
    ]
