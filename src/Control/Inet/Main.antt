-- ===== src/Control/Inet/Main.antt =====
-- `main` of src/control_thread_inet.c, around the branches of its event loop.
pub mod Rounds
pub mod Invariant
pub mod Streams
pub mod Lamp
pub mod Pacing
pub mod Connections
pub mod Exit
use real_time_systems.Base.{ℕ, not, List, none, [], ◌∷◌, ◌==◌, if◌then◌else◌, length, get_or, take}
use real_time_systems.Base.Int.{ℤ, pos, pos_part, neg, ltb_ℤ, to_unsigned}
use real_time_systems.Errors.{
  success, err_num_argc, err_socket, err_epoll, err_epctl, err_epwait, code,
}
use real_time_systems.Os.{
  Env, Io, EpollEvent, Flow, next, return, and_then, forever, pure, ◌>>=◌, epoll_add, epoll_create,
  epoll_wait,
}
use real_time_systems.Sockets.Inet
use real_time_systems.Control.Inet.Globals.{Undefined, initial, default_min, default_max}
use real_time_systems.Control.Inet.Handlers.{Control, stdin_fileno, handle_input, handle_hangup}

-- The variables as `main` sets them before the loop.
abbrev pub start : ℤ → Control
start conn_fd = record {
  conn_fd = conn_fd;
  indoor_fd = pos 0;
  outdoor_fd = pos 0;
  motor_fd = pos 0;
  light_fd = pos 0;
  indoor = pos 0;
  outdoor = pos 0;
  min = default_min;
  max = default_max;
  indoor_tmp = pos 0;
  outdoor_tmp = pos 0;
  val_tmp = pos 0;
  statics = initial;
}

-- `enum argi`: the program's name and PORT_NUM; EXPECTED_ARGC.
abbrev pub expected_argc : ℕ
expected_argc = 2

module _ (env : Env) (undef : Undefined) (fuel : ℕ) where
  -- The body of the loop over the events, for one event.
  unfoldable pub handle_event : EpollEvent → Control → Io (Flow Control)
  handle_event event s =
      (if event.epollin then handle_input env undef fuel event.fd s else pure (next s))
      >>= and_then
          (λ s'. if event.epollrdhup then handle_hangup env event.fd s' else pure (next s'))

  unfoldable pub handle_events : List EpollEvent → Control → Io (Flow Control)
  handle_events [] s = pure (next s)
  handle_events (event ∷ events) s = handle_event event s >>= and_then (handle_events events)

  -- The body of the `for (;;)`. A timeout, 0 events, does nothing.
  unfoldable pub control_round : Control → Io (Flow Control)
  control_round s = do
    waited ← epoll_wait env
    if ltb_ℤ waited.0 (pos 0)
        then pure (return (neg (code err_epwait)))
        else handle_events (take (pos_part waited.0) waited.1) s

  -- `main` for `rounds` rounds of the loop.
  unfoldable pub main : ℕ → List (List ℕ) → Io (Flow Control)
  main rounds argv =
      if not (length argv == expected_argc) then pure (return (neg (code err_num_argc))) else do
        conn_fd ←
            Inet.init_socket env none (to_unsigned (env.atoi (get_or argv 1 []))) undef.sock_backlog
        if ltb_ℤ conn_fd (pos (code success)) then pure (return (neg (code err_socket))) else do
          epoll_fd ← epoll_create env
          if ltb_ℤ epoll_fd (pos (code success)) then pure (return (neg (code err_epoll))) else do
            listening ← epoll_add env conn_fd
            if ltb_ℤ listening (pos (code success))
                then pure (return (neg (code err_epctl)))
                else do
                  reading ← epoll_add env stdin_fileno
                  if ltb_ℤ reading (pos (code success))
                      then pure (return (neg (code err_epctl)))
                      else forever rounds control_round (start conn_fd)
