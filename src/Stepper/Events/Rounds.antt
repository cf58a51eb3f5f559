-- ===== src/Stepper/Events/Rounds.antt =====
-- The event loop of src/stepper.c, branch by branch: each keeps what `Steady` says.
use real_time_systems.Base.{
  ℕ, ◌≡◌, refl, ◌∙◌, ◌||◌, Bool-cases, inl, inr, Option, List, [], ◌∷◌, arith, take, codes, str_eq,
  if◌then◌else◌,
}
use real_time_systems.Base.Int.{ℤ, pos, pos_part, eqb_ℤ, ltb_ℤ, truthy}
use real_time_systems.Os.{
  Env, Trace, EpollEvent, next, After, After-bind, and_then_inv, pure, did_read, read_motor, waited,
}
use real_time_systems.Stepper.Text.{islegal}
use real_time_systems.Stepper.Gpio.{set_direction}
use real_time_systems.Stepper.Sequence.{seq_rotate}
use real_time_systems.Stepper.Sequence.Mutex.{held, is_proper, IsOrderly}
use real_time_systems.Stepper.Setup.{Pins, stdin_fileno}
use real_time_systems.Stepper.Events.{
  Motor, bufsz, typed, accept_client, handle_typed, obey_packet, handle_packet, handle_motor_event,
  handle_motor_events, motor_round,
}
use real_time_systems.Stepper.Events.Steady.{
  KeptByRotations, KeptByTurns, Steady, rotation-Left, rotated-Steady, obey_packet-Steady,
}

module _ (env : Env) (fuel : ℕ) (pins : Pins) (connection_socket : ℤ)
    (K : ℤ → Option (List ℕ) → Type 0) (rotations_keep : KeptByRotations env fuel pins K)
    (turns_keep : KeptByTurns env pins K) where
  handle_typed-Steady :
      (s : Motor) (t : Trace)
      → Steady K pins s t
      → After (Steady K pins) IsOrderly (handle_typed env fuel pins connection_socket s t)
  unfolding handle_typed
  handle_typed-Steady s t h =
      let reply = env.read_reply t stdin_fileno bufsz in
      let t1 : Trace = did_read stdin_fileno bufsz reply.0 reply.1 ∷ t in
      let buf = typed s.buf reply.0 reply.1 in
      let rotated =
        rotated-Steady env fuel pins connection_socket K rotations_keep turns_keep
          (record s { buf = buf }) s.direction
          (seq_rotate env fuel (env.atoi buf) pins.pulse_fd pins.enable_fd s.working t1) refl
          (rotation-Left env fuel pins connection_socket K rotations_keep turns_keep s
            (env.atoi buf) t1 h) in
      elim (Bool-cases (ltb_ℤ reply.0 (pos 0))) [
        | inl failed ↦ rw failed h
        | inr got ↦
            rw got (elim (Bool-cases (str_eq buf (codes "q") || str_eq buf (codes "quit"))) [
              | inl quit ↦ rw quit (h.2)
              | inr on ↦ rw on (elim (Bool-cases (islegal buf)) [
                | inl legal ↦ rw legal rotated
                | inr other ↦ rw other h
              ])
            ])
      ]

  -- `set_direction` does nothing with the mutex.
  turn-held :
      (dir_in : ℤ) (t : Trace)
      → let t' = (set_direction env dir_in pins.direction_fd t).1 in
        (held t' ≡ held t) × (is_proper t' ≡ is_proper t)
  unfolding set_direction
  turn-held dir_in t = ground arith

  handle_packet-Steady :
      (fd : ℤ) (s : Motor) (t : Trace)
      → Steady K pins s t
      → After (Steady K pins) IsOrderly (handle_packet env fuel pins connection_socket fd s t)
  unfolding handle_packet
  handle_packet-Steady fd s t (flag, mine, ok, k) =
      let reply = env.read_motor_reply t fd s.in_packet in
      let t1 : Trace = read_motor fd reply.0 ∷ t in
      let s1 = record s { in_packet = reply.1 } in
      let dir_in = reply.1.direction in
      let t2 = (set_direction env dir_in pins.direction_fd t1).1 in
      let (still, proper) = turn-held dir_in t1 in
      elim (Bool-cases (ltb_ℤ reply.0 (pos 0))) [
        | inl failed ↦ rw failed (flag, mine, ok, k)
        | inr got ↦ rw got (elim (Bool-cases (eqb_ℤ dir_in s.direction)) [
          | inl same ↦ rw same (
              obey_packet-Steady env fuel pins connection_socket K rotations_keep turns_keep s1 t1
                (flag, mine, ok, k))
          | inr turn ↦ rw turn (
              After-bind (Steady K pins) IsOrderly (set_direction env dir_in pins.direction_fd)
                (λ ret.
                  if truthy ret
                  then obey_packet env fuel pins connection_socket
                      (record s1 { direction = dir_in })
                  else pure (next s1))
                t1 (λ hangs. proper ∙ ok)
                (λ ret r.
                  let k' = turns_keep s.direction dir_in ret t1 k r in
                  elim (Bool-cases (truthy ret)) [
                    | inl done ↦ rw done (
                        obey_packet-Steady env fuel pins connection_socket K rotations_keep
                          turns_keep (record s1 { direction = dir_in }) t2
                          (flag, still ∙ mine, proper ∙ ok, rw done at k'))
                    | inr refused ↦ rw refused (flag, still ∙ mine, proper ∙ ok, rw refused at k')
                  ]))
        ])
      ]

  handle_motor_event-Steady :
      (event : EpollEvent) (s : Motor) (t : Trace)
      → Steady K pins s t
      → After
          (Steady K pins)
          IsOrderly
          (handle_motor_event env fuel pins connection_socket event s t)
  unfolding handle_motor_event accept_client
  handle_motor_event-Steady event s t h =
      let line = handle_typed-Steady s t h in
      let packet = handle_packet-Steady event.fd s t h in ground arith

  handle_motor_events-Steady :
      (events : List EpollEvent) (s : Motor) (t : Trace)
      → Steady K pins s t
      → After
          (Steady K pins)
          IsOrderly
          (handle_motor_events env fuel pins connection_socket events s t)
  unfolding handle_motor_events
  handle_motor_events-Steady [] s t h = h
  handle_motor_events-Steady (event ∷ events) s t h =
      and_then_inv (Steady K pins) IsOrderly
        (handle_motor_event env fuel pins connection_socket event s)
        (handle_motor_events env fuel pins connection_socket events) t
        (handle_motor_events-Steady events) (handle_motor_event-Steady event s t h)

  -- A round of the loop keeps what holds.
  pub motor_round-Steady :
      (s : Motor) (t : Trace)
      → Steady K pins s t
      → After (Steady K pins) IsOrderly (motor_round env fuel pins connection_socket s t)
  unfolding motor_round
  motor_round-Steady s t h =
      let reply = env.epoll_wait_reply t in
      let t1 : Trace = waited reply.0 ∷ t in
      let handled = handle_motor_events-Steady (take (pos_part reply.0) reply.1) s t1 h in
      ground arith
