-- ===== src/Control/Inet/Main/Rounds.antt =====
-- What the branches of the event loop of control_thread_inet keep, the loop keeps.
use real_time_systems.Base.{
  ℕ, ◌≡◌, refl, inl, inr, Option-cases, List, none, [], ◌∷◌, arith, get_or, take, if◌then◌else◌,
}
use real_time_systems.Base.Int.{ℤ, pos_part, to_unsigned}
use real_time_systems.Os.{
  Env, Trace, EpollEvent, View, view, next, After, and_then_inv, forever_inv, pure, waited,
  made_epoll, epoll_added,
}
use real_time_systems.Sockets.Inet
use real_time_systems.Control.Inet.Globals.{Undefined}
use real_time_systems.Control.Inet.Inputs.{told}
use real_time_systems.Control.Inet.Handlers.{Control, handle_input, handle_hangup, stdin_fileno}
use real_time_systems.Control.Inet.Handlers.Invariant.{IsQuiet}
use real_time_systems.Control.Inet.Main.{start, handle_event, handle_events, control_round, main}

-- The view of nothing.
abbrev pub unseen : View
unseen = view []

init_socket-IsQuiet :
    (env : Env) (port : ℕ) (backlog : ℤ) (t : Trace)
    → let t' = (Inet.init_socket env none port backlog t).1 in
      IsQuiet t t' × (told env t' ≡ told env t)
unfolding Inet.init_socket
init_socket-IsQuiet env port backlog t = (ground arith, ground arith)

module _ (env : Env) (undef : Undefined) (fuel : ℕ) (P : Control → Trace → Type 0)
    (Q : Trace → Type 0) (ends : (s : Control) (t : Trace) → P s t → Q t)
    (inputs : (fd : ℤ) (s : Control) (t : Trace)
      → P s t
      → After P Q (handle_input env undef fuel fd s t))
    (hangups : (fd : ℤ) (s : Control) (t : Trace) → P s t → After P Q (handle_hangup env fd s t))
    (waits : (s : Control) (t : Trace) (ret : ℤ) → P s t → P s (waited ret ∷ t)) where
  handle_event_inv :
      (event : EpollEvent) (s : Control) (t : Trace)
      → P s t
      → After P Q (handle_event env undef fuel event s t)
  unfolding handle_event
  handle_event_inv event s t h =
      and_then_inv P Q
        (if event.epollin then handle_input env undef fuel event.fd s else pure (next s))
        (λ s'. if event.epollrdhup then handle_hangup env event.fd s' else pure (next s')) t
        (λ s' t' h'. let hung = hangups event.fd s' t' h' in ground arith)
        (let read = inputs event.fd s t h in ground arith)

  handle_events_inv :
      (events : List EpollEvent) (s : Control) (t : Trace)
      → P s t
      → After P Q (handle_events env undef fuel events s t)
  unfolding handle_events
  handle_events_inv [] s t h = h
  handle_events_inv (event ∷ events) s t h =
      and_then_inv P Q (handle_event env undef fuel event s) (handle_events env undef fuel events) t
        (handle_events_inv events) (handle_event_inv event s t h)

  control_round_inv :
      (s : Control) (t : Trace) → P s t → After P Q (control_round env undef fuel s t)
  unfolding control_round
  control_round_inv s t h =
      let reply = env.epoll_wait_reply t in
      let t1 : Trace = waited reply.0 ∷ t in
      let still = waits s t reply.0 h in
      let over = ends s t1 still in
      let handled = handle_events_inv (take (pos_part reply.0) reply.1) s t1 still in ground arith

  -- What holds before anything is seen of the program, and before it has been told anything, holds
  -- over the whole run.
  pub main_inv :
      ((t : Trace) → view t ≡ unseen → told env t ≡ [] → Q t)
      → ((conn_fd : ℤ) (t : Trace) → view t ≡ unseen → told env t ≡ [] → P (start conn_fd) t)
      → (rounds : ℕ) (argv : List (List ℕ)) → After P Q (main env undef fuel rounds argv [])
  unfolding main
  main_inv early starts rounds argv =
      let port = to_unsigned (env.atoi (get_or argv 1 [])) in
      let (conn, t1) = Inet.init_socket env none port undef.sock_backlog [] in
      let (quiet, untold) = init_socket-IsQuiet env port undef.sock_backlog [] in
      let over = early [] refl refl in
      let over1 = early t1 quiet untold in
      elim (Option-cases conn) [
        | inl hangs ↦ ground arith
        | inr (conn_fd, r) ↦
            let t2 : Trace = made_epoll (env.epoll_create_reply t1) ∷ t1 in
            let t3 : Trace = epoll_added conn_fd (env.epoll_add_reply t2 conn_fd) ∷ t2 in
            let t4 : Trace = epoll_added stdin_fileno (env.epoll_add_reply t3 stdin_fileno) ∷ t3 in
            let over2 = early t2 quiet untold in
            let over3 = early t3 quiet untold in
            let over4 = early t4 quiet untold in
            let looped =
              forever_inv P Q (control_round env undef fuel) control_round_inv rounds
                (start conn_fd) t4 (starts conn_fd t4 quiet untold) in
            ground arith
      ]
