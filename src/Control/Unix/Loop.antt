-- ===== src/Control/Unix/Loop.antt =====
-- `main` of src/control_thread_unix.c, with the branches of its event loop.
pub mod Invariant
pub mod Silence
pub mod Readings
pub mod Exit
use real_time_systems.Base.{
  ℕ, zero, suc, Bool, true, false, ◌&&◌, not, List, [], ◌∷◌, ◌==◌, length, get_or, take, str_eq,
  if◌then◌else◌,
}
use real_time_systems.Base.Int.{ℤ, pos, pos_part, neg, ltb_ℤ, eqb_ℤ, truthy}
use real_time_systems.Errors.{
  success, err_num_argc, err_socket, err_epoll, err_epctl, err_epwait, err_ephup, code,
}
use real_time_systems.Os.{
  Env, Io, EpollEvent, Flow, next, return, and_then, forever, pure, out_of_fuel, ◌>>=◌, ◌>>◌,
  unlink, accept, scanf_setting, scanf_char, epoll_create, epoll_add, epoll_wait,
}
use real_time_systems.Sockets.Unix
use real_time_systems.Control.Unix.{update}
use real_time_systems.Control.Unix.Input.{use_sensor}

abbrev pub sock_backlog : ℤ
sock_backlog = pos 8

abbrev pub indoor_sym : ℕ
indoor_sym = b'i'

abbrev pub outdoor_sym : ℕ
outdoor_sym = b'o'

abbrev pub min_cmd : List ℕ
min_cmd = b'm' ∷ b'i' ∷ b'n' ∷ []

abbrev pub max_cmd : List ℕ
max_cmd = b'm' ∷ b'a' ∷ b'x' ∷ []

abbrev pub default_min : ℤ
default_min = pos 128

abbrev pub default_max : ℤ
default_max = pos 256

-- `enum argi`: the program's name and SOCK_PATH; EXPECTED_ARGC.
abbrev pub expected_argc : ℕ
expected_argc = 2

abbrev pub stdin_fileno : ℤ
stdin_fileno = pos 0

-- The variables of `main` that live across events, and the static `light_on`.
pub record Watch : Type 0 where
  pub conn_fd : ℤ
  pub indoor_fd : ℤ
  pub outdoor_fd : ℤ
  pub motor_fd : ℤ
  pub light_fd : ℤ
  pub indoor : ℤ
  pub outdoor : ℤ
  pub min : ℤ
  pub max : ℤ
  pub indoor_tmp : ℤ
  pub outdoor_tmp : ℤ
  pub val_tmp : ℤ
  pub sensor_type : ℕ
  pub light_on : Bool

-- The variables as `main` sets them before the loop. `sensor_type` is not set there.
abbrev pub watch_from : ℤ → ℕ → Watch
watch_from conn_fd uninitialized = record {
  conn_fd = conn_fd;
  indoor_fd = pos 0;
  outdoor_fd = pos 0;
  motor_fd = pos 0;
  light_fd = pos 0;
  indoor = pos 0;
  outdoor = pos 0;
  min = default_min;
  max = default_max;
  indoor_tmp = pos 0;
  outdoor_tmp = pos 0;
  val_tmp = pos 0;
  sensor_type = uninitialized;
  light_on = false;
}

-- The call of `update`.
unfoldable pub decide : Watch → Io (Flow Watch)
decide s = do
  light_on ← update s.motor_fd s.light_fd s.indoor s.outdoor s.min s.max s.light_on
  pure (next (record s { light_on = light_on }))

module _ (env : Env) where
  -- Input on stdin: a word and a number.
  unfoldable pub handle_setting : Watch → Io (Flow Watch)
  handle_setting s = do
    setting ← scanf_setting env
    if eqb_ℤ setting.0 (pos 2)
        then (if str_eq setting.1 min_cmd
            then pure (next (record s { val_tmp = setting.2; min = setting.2 }))
            else if str_eq setting.1 max_cmd
            then pure (next (record s { val_tmp = setting.2; max = setting.2 }))
            else pure (next (record s { val_tmp = setting.2 })))
        else pure (next s)

  -- The question "Indoor or outdoor sensor?", put until it is answered; a round for each unit of fuel.
  unfoldable pub ask_sensor : ℕ → ℤ → Watch → Io Watch
  ask_sensor zero data_fd s = out_of_fuel
  ask_sensor (suc fuel) data_fd s = scanf_char env >>= λ answer.
      let sensor_type = if eqb_ℤ answer.0 (pos 1) then answer.1 else s.sensor_type in
      elim (sensor_type == indoor_sym) [
        | true ↦ pure (record s { sensor_type = sensor_type; indoor_fd = data_fd })
        | false ↦ elim (sensor_type == outdoor_sym) [
          | true ↦ pure (record s { sensor_type = sensor_type; outdoor_fd = data_fd })
          | false ↦ ask_sensor fuel data_fd (record s { sensor_type = sensor_type })
        ]
      ]

  -- A sensor connects.
  unfoldable pub handle_sensor : ℕ → Watch → Io (Flow Watch)
  handle_sensor fuel s = do
    data_fd ← accept env s.conn_fd
    s' ← ask_sensor fuel data_fd s
    added ← epoll_add env data_fd
    if ltb_ℤ added (pos (code success))
        then pure (return (neg (code err_epctl)))
        else pure (next s')

  -- A packet of the indoor sensor, and one of the outdoor sensor.
  unfoldable pub read_indoor : Watch → Io (Flow Watch)
  read_indoor s = do
    result ← use_sensor env s.indoor_fd s.indoor_tmp
    let tmp = result.1
    if ltb_ℤ tmp (pos (code success))
        then pure (next (record s { indoor_tmp = tmp }))
        else decide (record s { indoor_tmp = tmp; indoor = tmp })

  unfoldable pub read_outdoor : Watch → Io (Flow Watch)
  read_outdoor s = do
    result ← use_sensor env s.outdoor_fd s.outdoor_tmp
    let tmp = result.1
    if ltb_ℤ tmp (pos (code success))
        then pure (next (record s { outdoor_tmp = tmp }))
        else decide (record s { outdoor_tmp = tmp; outdoor = tmp })

  -- `events[i].events & EPOLLIN`
  unfoldable pub watch_input : ℕ → ℤ → Watch → Io (Flow Watch)
  watch_input fuel fd s =
      if eqb_ℤ fd stdin_fileno
      then handle_setting s
      else if eqb_ℤ fd s.conn_fd
      then handle_sensor fuel s
      else if eqb_ℤ fd s.indoor_fd
      then read_indoor s
      else if eqb_ℤ fd s.outdoor_fd
      then read_outdoor s
      else pure (next s)

  -- `events[i].events & EPOLLRDHUP`. The descriptor stays open and stays with epoll.
  unfoldable pub watch_hangup : ℤ → Watch → Io (Flow Watch)
  watch_hangup fd s =
      if eqb_ℤ fd stdin_fileno
      then pure (return (neg (code err_ephup)))
      else if eqb_ℤ fd s.conn_fd
      then pure (return (neg (code err_ephup)))
      else if eqb_ℤ fd s.indoor_fd
      then pure (next (record s { indoor_fd = pos 0 }))
      else if eqb_ℤ fd s.outdoor_fd
      then pure (next (record s { outdoor_fd = pos 0 }))
      else pure (next s)

  unfoldable pub watch_event : ℕ → EpollEvent → Watch → Io (Flow Watch)
  watch_event fuel event s =
      (if event.epollin then watch_input fuel event.fd s else pure (next s))
      >>= and_then (λ s'. if event.epollrdhup then watch_hangup event.fd s' else pure (next s'))

  unfoldable pub watch_events : ℕ → List EpollEvent → Watch → Io (Flow Watch)
  watch_events fuel [] s = pure (next s)
  watch_events fuel (event ∷ events) s =
      watch_event fuel event s >>= and_then (watch_events fuel events)

  -- The body of the `for (;;)`. At a timeout, 0 events, `update` runs on the last readings.
  unfoldable pub watch_round : ℕ → Watch → Io (Flow Watch)
  watch_round fuel s = do
    waited ← epoll_wait env
    if ltb_ℤ waited.0 (pos 0)
        then pure (return (neg (code err_epwait)))
        else if eqb_ℤ waited.0 (pos 0)
        then (if truthy s.indoor_fd && truthy s.outdoor_fd then decide s else pure (next s))
        else watch_events fuel (take (pos_part waited.0) waited.1) s

  -- `main` for `rounds` rounds of the loop.
  unfoldable pub main : ℕ → ℕ → List (List ℕ) → ℕ → Io (Flow Watch)
  main fuel rounds argv uninitialized =
      if not (length argv == expected_argc) then pure (return (neg (code err_num_argc))) else do
        unlink (get_or argv 1 [])
        conn_fd ← Unix.init_socket env (get_or argv 1 []) sock_backlog
        if ltb_ℤ conn_fd (pos (code success)) then pure (return (neg (code err_socket))) else do
          epoll_fd ← epoll_create env
          if ltb_ℤ epoll_fd (pos (code success)) then pure (return (neg (code err_epoll))) else do
            reading ← epoll_add env stdin_fileno
            if ltb_ℤ reading (pos (code success)) then pure (return (neg (code err_epctl))) else do
              listening ← epoll_add env conn_fd
              if ltb_ℤ listening (pos (code success))
                  then pure (return (neg (code err_epctl)))
                  else forever rounds (watch_round fuel) (watch_from conn_fd uninitialized)
