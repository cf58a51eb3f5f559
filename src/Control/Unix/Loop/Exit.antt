-- ===== src/Control/Unix/Loop/Exit.antt =====
-- What `main` of control_thread_unix returns.
use real_time_systems.Base.{
  ℕ, Option-cases, inl, inr, List, [], ◌∷◌, arith, get_or, take, if◌then◌else◌,
}
use real_time_systems.Base.Int.{ℤ, pos_part}
use real_time_systems.Errors.{err_num_argc, err_socket, err_epoll, err_epctl, err_epwait, err_ephup}
use real_time_systems.Os.{
  Env, EpollEvent, Trace, IsNegated, Returning, and_then-Returning, forever-Returning, next, pure,
  waited, unlinked, made_epoll, epoll_added,
}
use real_time_systems.Sockets.Unix
use real_time_systems.Control.Unix.Loop.{
  Watch, watch_from, stdin_fileno, sock_backlog, decide, handle_setting, handle_sensor, read_indoor,
  read_outdoor, watch_input, watch_hangup, watch_event, watch_events, watch_round, main,
}

-- The codes that it returns, negated.
abbrev pub IsWatchExit : ℤ → Type 0
IsWatchExit =
    IsNegated (err_num_argc ∷ err_socket ∷ err_epoll ∷ err_epctl ∷ err_epwait ∷ err_ephup ∷ [])

module _ (env : Env) (fuel : ℕ) where
  handle_sensor-Returning : (s : Watch) → Returning IsWatchExit (handle_sensor env fuel s)
  unfolding handle_sensor
  handle_sensor-Returning s t = ground arith

  read_indoor-Returning : (s : Watch) → Returning IsWatchExit (read_indoor env s)
  unfolding read_indoor decide
  read_indoor-Returning s t = ground arith

  read_outdoor-Returning : (s : Watch) → Returning IsWatchExit (read_outdoor env s)
  unfolding read_outdoor decide
  read_outdoor-Returning s t = ground arith

  watch_event-Returning :
      (event : EpollEvent) (s : Watch) → Returning IsWatchExit (watch_event env fuel event s)
  unfolding watch_event watch_input watch_hangup handle_setting
  watch_event-Returning event s =
      and_then-Returning IsWatchExit
        (if event.epollin then watch_input env fuel event.fd s else pure (next s))
        (λ s'. if event.epollrdhup then watch_hangup env event.fd s' else pure (next s'))
        (λ t. ground (
          arith,
          handle_sensor-Returning s t,
          read_indoor-Returning s t,
          read_outdoor-Returning s t,
        ))
        (λ s' t. ground arith)

  watch_events-Returning :
      (events : List EpollEvent) (s : Watch)
      → Returning IsWatchExit (watch_events env fuel events s)
  unfolding watch_events
  watch_events-Returning [] s = λ t. tt
  watch_events-Returning (event ∷ events) s =
      and_then-Returning IsWatchExit (watch_event env fuel event s) (watch_events env fuel events)
        (watch_event-Returning event s) (watch_events-Returning events)

  watch_round-Returning : (s : Watch) → Returning IsWatchExit (watch_round env fuel s)
  unfolding watch_round decide
  watch_round-Returning s t =
      let reply = env.epoll_wait_reply t in
      let handled =
        watch_events-Returning (take (pos_part reply.0) reply.1) s (waited reply.0 ∷ t) in
      ground arith

  pub main-Returning :
      (rounds uninitialized : ℕ) (argv : List (List ℕ))
      → Returning IsWatchExit (main env fuel rounds argv uninitialized)
  unfolding main
  main-Returning rounds uninitialized argv t =
      let path = get_or argv 1 [] in
      let (conn, t1) = Unix.init_socket env path sock_backlog (unlinked path ∷ t) in
      let t2 : Trace = made_epoll (env.epoll_create_reply t1) ∷ t1 in
      let t3 : Trace = epoll_added stdin_fileno (env.epoll_add_reply t2 stdin_fileno) ∷ t2 in
      elim (Option-cases conn) [
        | inl hangs ↦ ground arith
        | inr (conn_fd, r) ↦
            let t4 : Trace = epoll_added conn_fd (env.epoll_add_reply t3 conn_fd) ∷ t3 in
            let looped =
              forever-Returning IsWatchExit (watch_round env fuel) watch_round-Returning rounds
                (watch_from conn_fd uninitialized) t4 in
            ground arith
      ]
