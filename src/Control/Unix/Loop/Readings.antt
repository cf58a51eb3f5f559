-- ===== src/Control/Unix/Loop/Readings.antt =====
-- The readings that control_thread_unix holds.
use real_time_systems.Base.{
  Bool-cases, ℕ, zero, suc, ◌≡◌, inl, inr, Option, none, some, Option-cases, List, [], ◌∷◌, arith,
  get_or,
}
use real_time_systems.Base.Int.{ℤ, pos, ◌≤ℤ◌, eqb_ℤ}
use real_time_systems.Os.{Env, Trace, After, accepted, scanned, unlinked, made_epoll, epoll_added}
use real_time_systems.Sockets.Unix
use real_time_systems.Control.Unix.{update, set_lamp}
use real_time_systems.Control.Unix.Input.{use_sensor}
use real_time_systems.Control.Unix.Loop.{
  Watch, watch_from, stdin_fileno, sock_backlog, decide, handle_setting, ask_sensor, handle_sensor,
  read_indoor, read_outdoor, watch_input, watch_hangup, main,
}
use real_time_systems.Control.Unix.Loop.Invariant.{loop_inv}

-- Each variable for a reading has a value that one may have, and those that are decided on are not
-- negative.
abbrev pub AreReadings : (ℤ → Type 0) → Watch → Trace → Type 0
AreReadings K s t =
    K s.indoor
    × K s.outdoor
    × K s.indoor_tmp
    × K s.outdoor_tmp
    × (pos 0 ≤ℤ s.indoor)
    × (pos 0 ≤ℤ s.outdoor)

abbrev pub Anyhow : Trace → Type 0
Anyhow t = Unit

module _ (env : Env) (fuel : ℕ) (K : ℤ → Type 0) (zero_reading : K (pos 0))
    (arrives : (t : Trace) (fd : ℤ)
      → (env.recv_reply t fd).0 ≡ pos env.sizeof_sensor_packet
      → K (env.recv_reply t fd).1.visible) where
  abbrev P : Watch → Trace → Type 0
  P = AreReadings K

  decide-P : (s : Watch) (t : Trace) → P s t → After P Anyhow (decide s t)
  unfolding decide update set_lamp
  decide-P s t h = ground arith

  -- What a call of `use_sensor` leaves in the variable.
  abbrev Used : Option (ℤ × ℤ) × Trace → Type 0
  Used (none, t) = ⊥
  Used (some (ret, tmp), t) = K tmp

  use_sensor-Used : (fd tmp : ℤ) (t : Trace) → K tmp → Used (use_sensor env fd tmp t)
  unfolding use_sensor Unix.recv_packet
  use_sensor-Used fd tmp t k =
      elim (Bool-cases (eqb_ℤ (env.recv_reply t fd).0 (pos env.sizeof_sensor_packet))) [
        | inl whole ↦ let got = arrives t fd (ground arith) in ground arith
        | inr cut ↦ ground arith
      ]

  read_indoor-P : (s : Watch) (t : Trace) → P s t → After P Anyhow (read_indoor env s t)
  unfolding read_indoor
  read_indoor-P s t h =
      let (result, t1) = use_sensor env s.indoor_fd s.indoor_tmp t in
      let used = use_sensor-Used s.indoor_fd s.indoor_tmp t h.2 in
      elim (Option-cases result) [
        | inl hangs ↦ ground arith
        | inr ((ret, tmp), r) ↦
            ground (arith, decide-P (record s { indoor_tmp = tmp; indoor = tmp }) t1)
      ]

  read_outdoor-P : (s : Watch) (t : Trace) → P s t → After P Anyhow (read_outdoor env s t)
  unfolding read_outdoor
  read_outdoor-P s t h =
      let (result, t1) = use_sensor env s.outdoor_fd s.outdoor_tmp t in
      let used = use_sensor-Used s.outdoor_fd s.outdoor_tmp t h.3 in
      elim (Option-cases result) [
        | inl hangs ↦ ground arith
        | inr ((ret, tmp), r) ↦
            ground (arith, decide-P (record s { outdoor_tmp = tmp; outdoor = tmp }) t1)
      ]

  -- The question to the user does not touch the readings.
  abbrev Asked : Watch → Option Watch × Trace → Type 0
  Asked s (none, t) = Unit
  Asked s (some s', t) =
      (s'.indoor ≡ s.indoor)
      × (s'.outdoor ≡ s.outdoor)
      × (s'.indoor_tmp ≡ s.indoor_tmp)
      × (s'.outdoor_tmp ≡ s.outdoor_tmp)

  ask_sensor-Asked :
      (n : ℕ) (data_fd : ℤ) (s : Watch) (t : Trace) → Asked s (ask_sensor env n data_fd s t)
  unfolding ask_sensor
  ask_sensor-Asked zero data_fd s t = tt
  ask_sensor-Asked (suc n) data_fd s t =
      let again = λ (k : ℕ).
        ask_sensor-Asked n data_fd (record s { sensor_type = k })
          (scanned (env.scanf_char_reply t).0 ∷ t) in
      ground (arith, again (env.scanf_char_reply t).1, again s.sensor_type)

  handle_sensor-P : (s : Watch) (t : Trace) → P s t → After P Anyhow (handle_sensor env fuel s t)
  unfolding handle_sensor
  handle_sensor-P s t h =
      let data_fd = env.accept_reply t s.conn_fd in
      let asked = ask_sensor-Asked fuel data_fd s (accepted s.conn_fd data_fd ∷ t) in ground arith

  watch_input-P :
      (fd : ℤ) (s : Watch) (t : Trace) → P s t → After P Anyhow (watch_input env fuel fd s t)
  unfolding watch_input handle_setting
  watch_input-P fd s t h =
      let sensor = handle_sensor-P s t h in
      let indoor = read_indoor-P s t h in let outdoor = read_outdoor-P s t h in ground arith

  watch_hangup-P :
      (fd : ℤ) (s : Watch) (t : Trace) → P s t → After P Anyhow (watch_hangup env fd s t)
  unfolding watch_hangup
  watch_hangup-P fd s t h = ground arith

  -- Where 0 may be a reading and all that arrives may be, the variables hold nothing else.
  pub main-AreReadings :
      (rounds uninitialized : ℕ) (argv : List (List ℕ))
      → After (AreReadings K) Anyhow (main env fuel rounds argv uninitialized [])
  unfolding main
  main-AreReadings rounds uninitialized argv =
      let path = get_or argv 1 [] in
      let (conn, t1) = Unix.init_socket env path sock_backlog (unlinked path ∷ []) in
      elim (Option-cases conn) [
        | inl hangs ↦ ground arith
        | inr (conn_fd, r) ↦
            let t2 : Trace = made_epoll (env.epoll_create_reply t1) ∷ t1 in
            let t3 : Trace = epoll_added stdin_fileno (env.epoll_add_reply t2 stdin_fileno) ∷ t2 in
            let t4 : Trace = epoll_added conn_fd (env.epoll_add_reply t3 conn_fd) ∷ t3 in
            let last =
              loop_inv env fuel P Anyhow (λ s t h. tt) decide-P watch_input-P watch_hangup-P
                (λ s t ret h. h) rounds (watch_from conn_fd uninitialized) t4
                (
                  zero_reading,
                  zero_reading,
                  zero_reading,
                  zero_reading,
                  omega arith,
                  omega arith,
                ) in
            ground arith
      ]
