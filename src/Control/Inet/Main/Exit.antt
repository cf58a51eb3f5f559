-- ===== src/Control/Inet/Main/Exit.antt =====
-- What `main` of control_thread_inet returns.
use real_time_systems.Base.{
  ℕ, none, Option-cases, inl, inr, List, [], ◌∷◌, arith, get_or, take, if◌then◌else◌,
}
use real_time_systems.Base.Int.{ℤ, pos_part, to_unsigned}
use real_time_systems.Errors.{err_num_argc, err_socket, err_epoll, err_epctl, err_epwait, err_ephup}
use real_time_systems.Os.{
  Env, EpollEvent, IsNegated, Returning, and_then-Returning, forever-Returning, next, pure, Trace,
  waited, made_epoll, epoll_added,
}
use real_time_systems.Sockets.Inet
use real_time_systems.Control.Inet.Globals.{Undefined}
use real_time_systems.Control.Inet.Handlers.{
  Control, set_min, set_max, set_motor, set_light, handle_command, handle_connection, run_update,
  handle_indoor, handle_outdoor, handle_input, handle_hangup, stdin_fileno,
}
use real_time_systems.Control.Inet.Main.{handle_event, handle_events, start, control_round, main}

-- The codes that it returns, negated.
abbrev pub IsControlExit : ℤ → Type 0
IsControlExit =
    IsNegated (err_num_argc ∷ err_socket ∷ err_epoll ∷ err_epctl ∷ err_epwait ∷ err_ephup ∷ [])

module _ (env : Env) (undef : Undefined) (fuel : ℕ) where
  handle_command-Returning : (s : Control) → Returning IsControlExit (handle_command env s)
  unfolding handle_command set_min set_max set_motor set_light
  handle_command-Returning s t = ground arith

  handle_connection-Returning :
      (s : Control) → Returning IsControlExit (handle_connection env undef fuel s)
  unfolding handle_connection
  handle_connection-Returning s t = ground arith

  handle_indoor-Returning : (s : Control) → Returning IsControlExit (handle_indoor env s)
  unfolding handle_indoor run_update
  handle_indoor-Returning s t = ground arith

  handle_outdoor-Returning : (s : Control) → Returning IsControlExit (handle_outdoor env s)
  unfolding handle_outdoor run_update
  handle_outdoor-Returning s t = ground arith

  handle_event-Returning :
      (event : EpollEvent) (s : Control)
      → Returning IsControlExit (handle_event env undef fuel event s)
  unfolding handle_event handle_input handle_hangup
  handle_event-Returning event s =
      and_then-Returning IsControlExit
        (if event.epollin then handle_input env undef fuel event.fd s else pure (next s))
        (λ s'. if event.epollrdhup then handle_hangup env event.fd s' else pure (next s'))
        (λ t. ground (
          arith,
          handle_command-Returning s t,
          handle_connection-Returning s t,
          handle_indoor-Returning s t,
          handle_outdoor-Returning s t,
        ))
        (λ s' t. ground arith)

  handle_events-Returning :
      (events : List EpollEvent) (s : Control)
      → Returning IsControlExit (handle_events env undef fuel events s)
  unfolding handle_events
  handle_events-Returning [] s = λ t. tt
  handle_events-Returning (event ∷ events) s =
      and_then-Returning IsControlExit (handle_event env undef fuel event s)
        (handle_events env undef fuel events) (handle_event-Returning event s)
        (handle_events-Returning events)

  control_round-Returning : (s : Control) → Returning IsControlExit (control_round env undef fuel s)
  unfolding control_round
  control_round-Returning s t =
      let reply = env.epoll_wait_reply t in
      let handled =
        handle_events-Returning (take (pos_part reply.0) reply.1) s (waited reply.0 ∷ t) in
      ground arith

  pub main-Returning :
      (rounds : ℕ) (argv : List (List ℕ))
      → Returning IsControlExit (main env undef fuel rounds argv)
  unfolding main
  main-Returning rounds argv t =
      let port = to_unsigned (env.atoi (get_or argv 1 [])) in
      let (conn, t1) = Inet.init_socket env none port undef.sock_backlog t in
      let t2 : Trace = made_epoll (env.epoll_create_reply t1) ∷ t1 in
      elim (Option-cases conn) [
        | inl hangs ↦ ground arith
        | inr (conn_fd, r) ↦
            let t3 : Trace = epoll_added conn_fd (env.epoll_add_reply t2 conn_fd) ∷ t2 in
            let t4 : Trace = epoll_added stdin_fileno (env.epoll_add_reply t3 stdin_fileno) ∷ t3 in
            let looped =
              forever-Returning IsControlExit (control_round env undef fuel) control_round-Returning
                rounds (start conn_fd) t4 in
            ground arith
      ]
