-- ===== src/Control/Unix/Loop/Invariant.antt =====
-- What the branches of the event loop of control_thread_unix keep, the loop keeps.
use real_time_systems.Base.{ℕ, List, [], ◌∷◌, arith, take, if◌then◌else◌}
use real_time_systems.Base.Int.{ℤ, pos_part}
use real_time_systems.Os.{
  Env, Trace, EpollEvent, next, After, and_then_inv, forever, forever_inv, pure, waited,
}
use real_time_systems.Control.Unix.Loop.{
  Watch, decide, watch_input, watch_hangup, watch_event, watch_events, watch_round,
}

module _ (env : Env) (fuel : ℕ) (P : Watch → Trace → Type 0) (Q : Trace → Type 0)
    (ends : (s : Watch) (t : Trace) → P s t → Q t)
    (decides : (s : Watch) (t : Trace) → P s t → After P Q (decide s t))
    (inputs : (fd : ℤ) (s : Watch) (t : Trace) → P s t → After P Q (watch_input env fuel fd s t))
    (hangups : (fd : ℤ) (s : Watch) (t : Trace) → P s t → After P Q (watch_hangup env fd s t))
    (waits : (s : Watch) (t : Trace) (ret : ℤ) → P s t → P s (waited ret ∷ t)) where
  watch_event_inv :
      (event : EpollEvent) (s : Watch) (t : Trace)
      → P s t
      → After P Q (watch_event env fuel event s t)
  unfolding watch_event
  watch_event_inv event s t h =
      and_then_inv P Q (if event.epollin then watch_input env fuel event.fd s else pure (next s))
        (λ s'. if event.epollrdhup then watch_hangup env event.fd s' else pure (next s')) t
        (λ s' t' h'. let hung = hangups event.fd s' t' h' in ground arith)
        (let read = inputs event.fd s t h in ground arith)

  watch_events_inv :
      (events : List EpollEvent) (s : Watch) (t : Trace)
      → P s t
      → After P Q (watch_events env fuel events s t)
  unfolding watch_events
  watch_events_inv [] s t h = h
  watch_events_inv (event ∷ events) s t h =
      and_then_inv P Q (watch_event env fuel event s) (watch_events env fuel events) t
        (watch_events_inv events) (watch_event_inv event s t h)

  watch_round_inv : (s : Watch) (t : Trace) → P s t → After P Q (watch_round env fuel s t)
  unfolding watch_round
  watch_round_inv s t h =
      let reply = env.epoll_wait_reply t in
      let t1 : Trace = waited reply.0 ∷ t in
      let still = waits s t reply.0 h in
      let over = ends s t1 still in
      let decided = decides s t1 still in
      let handled = watch_events_inv (take (pos_part reply.0) reply.1) s t1 still in ground arith

  pub loop_inv :
      (rounds : ℕ) (s : Watch) (t : Trace)
      → P s t
      → After P Q (forever rounds (watch_round env fuel) s t)
  loop_inv = forever_inv P Q (watch_round env fuel) watch_round_inv
