-- ===== src/Stepper/Main/Exit.antt =====
-- What `main` of stepper returns.
use real_time_systems.Base.{ℕ, ◌≡◌, ◌⊎◌, List, [], ◌∷◌, arith, get_or, ◌==◌, if◌then◌else◌}
use real_time_systems.Base.Int.{ℤ, pos}
use real_time_systems.Os.{
  Env, Trace, MotorPacket, opened, closed, wrote, Flow, next, return, Returning, bind-Returning,
  and_then-Returning, forever,
}
use real_time_systems.Stepper.Rotate.{high}
use real_time_systems.Stepper.Gpio.{pin_args, export, unexport}
use real_time_systems.Stepper.Setup.{
  Pins, no_pins, dir_num, first_level, value_path, direction_path, out_word, exit_failure,
  init_directions, init_values, init_pulse, open_server, start_worker,
}
use real_time_systems.Stepper.Events.{Motor, motor_round}
use real_time_systems.Stepper.Main.{motor_from, shut_down, finish, serve_commands, start_up, main}

-- 0, or EXIT_FAILURE.
abbrev pub IsStatus : ℤ → Type 0
IsStatus ret = (ret ≡ pos 0) ⊎ (ret ≡ exit_failure)

module _ (env : Env) (argv : List (List ℕ)) where
  init_directions-Returning : (pins : List ℕ) → Returning IsStatus (init_directions env argv pins)
  unfolding init_directions
  init_directions-Returning [] = λ t. tt
  init_directions-Returning (i ∷ rest) = λ t.
      let fd = env.open_reply t (direction_path (get_or argv i [])) in
      let t1 : Trace = opened (direction_path (get_or argv i [])) fd ∷ t in
      let t2 : Trace = closed fd ∷ wrote fd out_word (env.write_reply t1 fd out_word) ∷ t1 in
      ground (arith, init_directions-Returning rest t2)

  init_values-Returning :
      (indices : List ℕ) (pins : Pins) → Returning IsStatus (init_values env argv indices pins)
  unfolding init_values
  init_values-Returning [] pins = λ t. tt
  init_values-Returning (i ∷ rest) pins = λ t.
      let path = value_path (get_or argv i []) in
      let fd = env.open_reply t path in
      let t1 : Trace = opened path fd ∷ t in
      let bytes = if i == dir_num then first_level env argv else high in
      let t2 : Trace = wrote fd bytes (env.write_reply t1 fd bytes) ∷ t1 in
      ground (
        arith,
        init_values-Returning rest (record pins { direction_fd = fd }) t2,
        init_values-Returning rest (record pins { enable_fd = fd }) t2,
      )

  init_pulse-Returning : (pins : Pins) → Returning IsStatus (init_pulse env argv pins)
  unfolding init_pulse
  init_pulse-Returning pins t = ground arith

  open_server-Returning : Returning IsStatus (open_server env argv)
  unfolding open_server
  open_server-Returning t = ground arith

  start_worker-Returning : Returning IsStatus (start_worker env argv)
  unfolding start_worker
  start_worker-Returning t = ground arith

module _ (env : Env) (fuel rounds : ℕ) (argv : List (List ℕ)) (uninitialized : MotorPacket) where
  shut_down-Returning :
      (pins : Pins) (connection_socket : ℤ)
      → Returning IsStatus (shut_down env fuel rounds argv uninitialized pins connection_socket)
  unfolding shut_down
  shut_down-Returning pins connection_socket t = ground arith

  serve_commands-Returning :
      (pins : Pins) (connection_socket : ℤ)
      → Returning IsStatus
          (serve_commands env fuel rounds argv uninitialized pins connection_socket)
  unfolding serve_commands
  serve_commands-Returning pins connection_socket =
      bind-Returning IsStatus
        (forever rounds (motor_round env fuel pins connection_socket)
          (motor_from argv uninitialized))
        (finish env fuel rounds argv uninitialized pins connection_socket) finish-Returning
    where
      finish-Returning :
          (flow : Flow Motor)
          → Returning IsStatus
              (finish env fuel rounds argv uninitialized pins connection_socket flow)
      finish-Returning (next s) = λ t. tt
      finish-Returning (return ret) = shut_down-Returning pins connection_socket

  start_up-Returning : Returning IsStatus (start_up env fuel rounds argv uninitialized)
  unfolding start_up
  start_up-Returning =
      and_then-Returning IsStatus (init_directions env argv pin_args) _
        (init_directions-Returning env argv pin_args)
        (λ u.
          and_then-Returning IsStatus (init_values env argv (1 ∷ 2 ∷ []) no_pins) _
            (init_values-Returning env argv (1 ∷ 2 ∷ []) no_pins)
            (λ pins.
              and_then-Returning IsStatus (init_pulse env argv pins) _
                (init_pulse-Returning env argv pins)
                (λ pins'.
                  and_then-Returning IsStatus (open_server env argv) _
                    (open_server-Returning env argv)
                    (λ connection_socket.
                      and_then-Returning IsStatus (start_worker env argv) _
                        (start_worker-Returning env argv)
                        (λ u'. serve_commands-Returning pins' connection_socket)))))

  pub main-Returning : Returning IsStatus (main env fuel rounds argv uninitialized)
  unfolding main
  main-Returning t =
      let t1 = (unexport env argv t).1 in ground (arith, start_up-Returning (export env argv t1).1)
