-- ===== src/Control/Inet/Handlers.antt =====
-- The branches of the event loop of `main` in src/control_thread_inet.c.
pub mod Invariant
pub mod Stale
use real_time_systems.Base.{ℕ, zero, suc, true, false, List, if◌then◌else◌, str_eq, [], ◌∷◌, take}
use real_time_systems.Base.Int.{ℤ, pos, pos_part, neg, ltb_ℤ, eqb_ℤ, truthy, to_unsigned}
use real_time_systems.Errors.{success, err_epctl, err_ephup, err_epwait, code}
use real_time_systems.Os.{
  Env, Io, EpollEvent, Flow, next, return, and_then, pure, out_of_fuel, ◌>>=◌, scanf_word,
  scanf_int, scanf_words, accept, epoll_add, epoll_delete, epoll_wait,
}
use real_time_systems.Sockets.Inet
use real_time_systems.Control.Inet.Globals.{
  Undefined, Statics, min_cmd, max_cmd, motor_cmd, light_cmd,
}
use real_time_systems.Control.Inet.Update.{update}
use real_time_systems.Control.Inet.Input.{use_sensor}

-- The variables of `main` that live across events, and the statics. A descriptor that is 0 is none.
pub record Control : Type 0 where
  pub conn_fd : ℤ
  pub indoor_fd : ℤ
  pub outdoor_fd : ℤ
  pub motor_fd : ℤ
  pub light_fd : ℤ
  pub indoor : ℤ
  pub outdoor : ℤ
  pub min : ℤ
  pub max : ℤ
  pub indoor_tmp : ℤ
  pub outdoor_tmp : ℤ
  pub val_tmp : ℤ
  pub statics : Statics

abbrev pub stdin_fileno : ℤ
stdin_fileno = pos 0

module _ (env : Env) where
  -- `min` and `max`: a result other than 0 counts as a number read, that for the end of input too, which
  -- leaves `val_tmp` as it was.
  unfoldable pub set_min : Control → Io (Flow Control)
  set_min s = do
    value ← scanf_int env
    let val_tmp = if eqb_ℤ value.0 (pos 1) then value.1 else s.val_tmp
    if truthy value.0
        then pure (next (record s { val_tmp = val_tmp; min = val_tmp }))
        else pure (next s)

  unfoldable pub set_max : Control → Io (Flow Control)
  set_max s = do
    value ← scanf_int env
    let val_tmp = if eqb_ℤ value.0 (pos 1) then value.1 else s.val_tmp
    if truthy value.0
        then pure (next (record s { val_tmp = val_tmp; max = val_tmp }))
        else pure (next s)

  -- `motor` and `light`: a host and a port to connect to; the descriptor of the connection, or 0.
  unfoldable pub dial : List ℕ → List ℕ → Io ℤ
  dial host serv = do
    fd ← Inet.conn_socket env host (to_unsigned (env.atoi serv))
    if ltb_ℤ fd (pos (code success)) then pure (pos 0) else pure fd

  unfoldable pub set_motor : Control → Io (Flow Control)
  set_motor s = do
    words ← scanf_words env
    if eqb_ℤ words.0 (pos 2)
        then dial words.1 words.2 >>= (λ fd. pure (next (record s { motor_fd = fd })))
        else pure (next s)

  unfoldable pub set_light : Control → Io (Flow Control)
  set_light s = do
    words ← scanf_words env
    if eqb_ℤ words.0 (pos 2)
        then dial words.1 words.2 >>= (λ fd. pure (next (record s { light_fd = fd })))
        else pure (next s)

  -- Input on stdin.
  unfoldable pub handle_command : Control → Io (Flow Control)
  handle_command s = do
    command ← scanf_word env
    if ltb_ℤ (pos 0) command.0
        then if str_eq command.1 min_cmd
          then set_min s
          else if str_eq command.1 max_cmd
          then set_max s
          else if str_eq command.1 motor_cmd
          then set_motor s
          else if str_eq command.1 light_cmd
          then set_light s
          else pure (next s)
        else pure (next s)

  -- The question "Indoor or outdoor sensor?", put until it is answered; a round for each unit of fuel.
  unfoldable pub ask_side : Undefined → ℕ → ℤ → Control → Io Control
  ask_side undef zero data_fd s = out_of_fuel
  ask_side undef (suc fuel) data_fd s = scanf_word env >>= λ answer. elim (ltb_ℤ (pos 0) answer.0) [
    | false ↦ ask_side undef fuel data_fd s
    | true ↦ elim (str_eq answer.1 undef.indoor_sym) [
      | true ↦ pure (record s { indoor_fd = data_fd })
      | false ↦ elim (str_eq answer.1 undef.outdoor_sym) [
        | true ↦ pure (record s { outdoor_fd = data_fd })
        | false ↦ ask_side undef fuel data_fd s
      ]
    ]
  ]

  -- A sensor connects.
  unfoldable pub handle_connection : Undefined → ℕ → Control → Io (Flow Control)
  handle_connection undef fuel s = do
    data_fd ← accept env s.conn_fd
    s' ← ask_side undef fuel data_fd s
    added ← epoll_add env data_fd
    if ltb_ℤ added (pos (code success))
        then pure (return (neg (code err_epctl)))
        else pure (next s')

  unfoldable pub run_update : Control → Io (Flow Control)
  run_update s = do
    result ← update env s.motor_fd s.light_fd s.indoor s.outdoor s.min s.max s.statics
    pure (next (record s { statics = result.1 }))

  -- A packet of the indoor sensor. Whether it has arrived is judged by the value alone.
  unfoldable pub handle_indoor : Control → Io (Flow Control)
  handle_indoor s = do
    result ← use_sensor env s.indoor_fd s.indoor_tmp
    let tmp = result.1
    if ltb_ℤ tmp (pos (code success))
        then pure (next (record s { indoor_tmp = tmp }))
        else run_update (record s {
          indoor_tmp = tmp;
          indoor = tmp;
          statics = record (s.statics) { indoor_ready = true };
        })

  unfoldable pub handle_outdoor : Control → Io (Flow Control)
  handle_outdoor s = do
    result ← use_sensor env s.outdoor_fd s.outdoor_tmp
    let tmp = result.1
    if ltb_ℤ tmp (pos (code success))
        then pure (next (record s { outdoor_tmp = tmp }))
        else run_update (record s {
          outdoor_tmp = tmp;
          outdoor = tmp;
          statics = record (s.statics) { outdoor_ready = true };
        })

  -- `events[i].events & EPOLLIN`
  unfoldable pub handle_input : Undefined → ℕ → ℤ → Control → Io (Flow Control)
  handle_input undef fuel fd s =
      if eqb_ℤ fd stdin_fileno
      then handle_command s
      else if eqb_ℤ fd s.conn_fd
      then handle_connection undef fuel s
      else if eqb_ℤ fd s.indoor_fd
      then handle_indoor s
      else if eqb_ℤ fd s.outdoor_fd
      then handle_outdoor s
      else pure (next s)

  -- `events[i].events & EPOLLRDHUP`
  unfoldable pub handle_hangup : ℤ → Control → Io (Flow Control)
  handle_hangup fd s =
      if eqb_ℤ fd stdin_fileno
      then pure (return (neg (code err_ephup)))
      else if eqb_ℤ fd s.conn_fd
      then pure (return (neg (code err_ephup)))
      else if eqb_ℤ fd s.indoor_fd
      then (do
        removed ← epoll_delete env s.indoor_fd
        if ltb_ℤ removed (pos (code success))
            then pure (return (neg (code err_epctl)))
            else pure (next (record s { indoor_fd = pos 0 })))
      else if eqb_ℤ fd s.outdoor_fd
      then (do
        removed ← epoll_delete env s.outdoor_fd
        if ltb_ℤ removed (pos (code success))
            then pure (return (neg (code err_epctl)))
            else pure (next (record s { outdoor_fd = pos 0 })))
      else pure (next s)
