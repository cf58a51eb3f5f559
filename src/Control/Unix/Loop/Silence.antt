-- ===== src/Control/Unix/Loop/Silence.antt =====
-- What control_thread_unix does over a whole run: it drives nothing, and its lamp is what it prints.
use real_time_systems.Base.{
  ℕ, zero, suc, Bool, true, false, ◌≡◌, inl, inr, refl, sym, Option, none, some, Option-cases, List,
  [], ◌∷◌, arith, get_or,
}
use real_time_systems.Base.Int.{ℤ, pos}
use real_time_systems.Os.{
  Env, Trace, Flow, next, return, After, connections, sensor_packets, motor_packets, IsSecluded,
  printed, light_turned_on, light_turned_off, scanned, accepted, unlinked, made_epoll, epoll_added,
}
use real_time_systems.Sockets.Unix
use real_time_systems.Control.Unix.{update, set_lamp}
use real_time_systems.Control.Unix.Input.{use_sensor}
use real_time_systems.Control.Unix.Loop.Invariant.{loop_inv}
use real_time_systems.Control.Unix.Loop.{
  Watch, watch_from, stdin_fileno, sock_backlog, decide, handle_setting, ask_sensor, handle_sensor,
  read_indoor, read_outdoor, watch_input, watch_hangup, main,
}

-- The lamp as the last line about it says: off at first.
abbrev pub said_on : Trace → Bool
said_on [] = false
said_on (printed light_turned_on ∷ t) = true
said_on (printed light_turned_off ∷ t) = false
said_on (_ ∷ t) = said_on t

-- The program has connected to nothing and sent nothing.
abbrev pub IsSilent : Trace → Type 0
IsSilent t = (connections t ≡ []) × (sensor_packets t ≡ []) × (motor_packets t ≡ [])

-- A part of it does not change that.
abbrev StaysSilent : Trace → Trace → Type 0
StaysSilent t t' = IsSecluded t t' × (motor_packets t' ≡ motor_packets t)

-- While the loop runs.
abbrev pub Watching : Watch → Trace → Type 0
Watching s t = (s.motor_fd ≡ pos 0) × (s.light_fd ≡ pos 0) × (s.light_on ≡ said_on t) × IsSilent t

decide-Watching : (s : Watch) (t : Trace) → Watching s t → After Watching IsSilent (decide s t)
unfolding decide update set_lamp
decide-Watching s t h = ground arith

-- The question to the user.
abbrev Asked : Watch → Trace → Option Watch × Trace → Type 0
Asked s t (none, t') = (said_on t' ≡ said_on t) × StaysSilent t t'
Asked s t (some s', t') =
    (s'.motor_fd ≡ s.motor_fd)
    × (s'.light_fd ≡ s.light_fd)
    × (s'.light_on ≡ s.light_on)
    × (said_on t' ≡ said_on t)
    × StaysSilent t t'

module _ (env : Env) (fuel : ℕ) where
  ask_sensor-Asked :
      (n : ℕ) (data_fd : ℤ) (s : Watch) (t : Trace) → Asked s t (ask_sensor env n data_fd s t)
  unfolding ask_sensor
  ask_sensor-Asked zero data_fd s t = (refl, ((refl, refl), refl))
  ask_sensor-Asked (suc n) data_fd s t =
      let again = λ (k : ℕ).
        ask_sensor-Asked n data_fd (record s { sensor_type = k })
          (scanned (env.scanf_char_reply t).0 ∷ t) in
      ground (arith, again (env.scanf_char_reply t).1, again s.sensor_type)

  handle_sensor-Watching :
      (s : Watch) (t : Trace) → Watching s t → After Watching IsSilent (handle_sensor env fuel s t)
  unfolding handle_sensor
  handle_sensor-Watching s t h =
      let data_fd = env.accept_reply t s.conn_fd in
      let asked = ask_sensor-Asked fuel data_fd s (accepted s.conn_fd data_fd ∷ t) in ground arith

  read_indoor-Watching :
      (s : Watch) (t : Trace) → Watching s t → After Watching IsSilent (read_indoor env s t)
  unfolding read_indoor use_sensor Unix.recv_packet
  read_indoor-Watching s t h =
      let (result, t1) = use_sensor env s.indoor_fd s.indoor_tmp t in
      elim (Option-cases result) [
        | inl hangs ↦ ground arith
        | inr ((ret, tmp), r) ↦
            ground (arith, decide-Watching (record s { indoor_tmp = tmp; indoor = tmp }) t1)
      ]

  read_outdoor-Watching :
      (s : Watch) (t : Trace) → Watching s t → After Watching IsSilent (read_outdoor env s t)
  unfolding read_outdoor use_sensor Unix.recv_packet
  read_outdoor-Watching s t h =
      let (result, t1) = use_sensor env s.outdoor_fd s.outdoor_tmp t in
      elim (Option-cases result) [
        | inl hangs ↦ ground arith
        | inr ((ret, tmp), r) ↦
            ground (arith, decide-Watching (record s { outdoor_tmp = tmp; outdoor = tmp }) t1)
      ]

  watch_input-Watching :
      (fd : ℤ) (s : Watch) (t : Trace)
      → Watching s t
      → After Watching IsSilent (watch_input env fuel fd s t)
  unfolding watch_input handle_setting
  watch_input-Watching fd s t h =
      let sensor = handle_sensor-Watching s t h in
      let indoor = read_indoor-Watching s t h in
      let outdoor = read_outdoor-Watching s t h in ground arith

  watch_hangup-Watching :
      (fd : ℤ) (s : Watch) (t : Trace)
      → Watching s t
      → After Watching IsSilent (watch_hangup env fd s t)
  unfolding watch_hangup
  watch_hangup-Watching fd s t h = ground arith

  init_socket-IsSilent :
      (sock : List ℕ) (backlog : ℤ) (t : Trace)
      → let t' = (Unix.init_socket env sock backlog t).1 in
        (said_on t' ≡ said_on t) × StaysSilent t t'
  unfolding Unix.init_socket
  init_socket-IsSilent sock backlog t = ground arith

  -- Whatever the devices, the network and the user do: after any number of rounds control_thread_unix
  -- has connected to nothing and sent nothing. While its loop still runs, `motor_fd` and `light_fd`
  -- are 0, and `light_on` is what the last line about the lamp said.
  pub main-Watching :
      (rounds uninitialized : ℕ) (argv : List (List ℕ))
      → After Watching IsSilent (main env fuel rounds argv uninitialized [])
  unfolding main
  main-Watching rounds uninitialized argv =
      let path = get_or argv 1 [] in
      let (conn, t1) = Unix.init_socket env path sock_backlog (unlinked path ∷ []) in
      let (still, quiet) = init_socket-IsSilent path sock_backlog (unlinked path ∷ []) in
      elim (Option-cases conn) [
        | inl hangs ↦ ground arith
        | inr (conn_fd, r) ↦
            let t2 : Trace = made_epoll (env.epoll_create_reply t1) ∷ t1 in
            let t3 : Trace = epoll_added stdin_fileno (env.epoll_add_reply t2 stdin_fileno) ∷ t2 in
            let t4 : Trace = epoll_added conn_fd (env.epoll_add_reply t3 conn_fd) ∷ t3 in
            let last =
              loop_inv env fuel Watching IsSilent (λ s t h. h.3) decide-Watching
                watch_input-Watching watch_hangup-Watching (λ s t ret h. h) rounds
                (watch_from conn_fd uninitialized) t4 (refl, refl, sym still, (ground arith)) in
            ground arith
      ]

  -- In any case it is silent.
  pub main-IsSilent :
      (rounds uninitialized : ℕ) (argv : List (List ℕ))
      → IsSilent (main env fuel rounds argv uninitialized []).1
  main-IsSilent rounds uninitialized argv =
      silent (main env fuel rounds argv uninitialized []) (main-Watching rounds uninitialized argv)
    where
      silent : (out : Option (Flow Watch) × Trace) → After Watching IsSilent out → IsSilent out.1
      silent (none, t) h = h
      silent (some (next s), t) h = h.3
      silent (some (return ret), t) h = h
