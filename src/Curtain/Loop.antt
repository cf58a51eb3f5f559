-- ===== src/Curtain/Loop.antt =====
-- The packets of the controller in src/control_thread_inet.c, served by the whole event loop of
-- src/stepper.c.
use real_time_systems.Base.{
  ℕ, ◌≡◌, refl, Bool-cases, ◌⊎◌, inl, inr, Option, none, some, List, [], ◌∷◌, arith, take,
}
use real_time_systems.Base.Int.{ℤ, pos, pos_part, eqb_ℤ, ◌≤ℤ◌, ◌<ℤ◌, ltb_ℤ}
use real_time_systems.Os.{
  Env, Trace, MotorPacket, Flow, next, return, EpollEvent, waited, forever, Lasts, and_then-Lasts,
  forever-Lasts,
}
use real_time_systems.Control.Inet.Update.Sends.{IsCommand}
use real_time_systems.Stepper.Setup.{Pins, stdin_fileno}
use real_time_systems.Stepper.Events.Steady.{Steady}
use real_time_systems.Stepper.Events.Direction.{IsAligned}
use real_time_systems.Stepper.Events.{
  Motor, bufsz, accept_client, handle_typed, handle_packet, handle_motor_event, handle_motor_events,
  motor_round,
}
use real_time_systems.Curtain.Serving.{Served, handle_packet-Served}

-- What a `read` of a packet leaves in the variable: what was there, where it fails or finds the end of
-- the stream, and else a whole packet that was sent.
abbrev pub Carries : Env → (MotorPacket → Type 0) → Type 0
Carries env IsSent =
    (t : Trace) (fd : ℤ) (packet : MotorPacket)
    → let reply = env.read_motor_reply t fd packet in
      (reply.0 ≤ℤ pos 0 → reply.1 ≡ packet) × (pos 0 <ℤ reply.0 → IsSent reply.1)

-- The loop has not got a packet yet.
abbrev pub IsWaiting : Pins → Motor → Trace → Type 0
IsWaiting pins s t = (s.working ≡ pos 0) × (s.direction ≡ pos 0) × Steady IsAligned pins s t

-- It is where its last packet has left it, one that was sent.
abbrev pub IsServing : (MotorPacket → Type 0) → Pins → Motor → Trace → Type 0
IsServing IsSent pins s t = IsSent s.in_packet × Served pins s.in_packet (some (next s), t)

abbrev pub IsReady : (MotorPacket → Type 0) → Pins → Motor → Trace → Type 0
IsReady IsSent pins s t = IsWaiting pins s t ⊎ IsServing IsSent pins s t

module _ (env : Env) (fuel : ℕ) (pins : Pins) (connection_socket : ℤ)
    (IsSent : MotorPacket → Type 0)
    (commands : (p : MotorPacket) → IsSent p → IsCommand p.direction p.turns)
    (carries : Carries env IsSent)
    (unbroken : (t : Trace) (fd : ℤ) (packet : MotorPacket)
      → (env.read_motor_reply t fd packet).0 ≡ pos 0
      → IsSent packet)
    (untyped : (t : Trace) → (env.read_reply t stdin_fileno bufsz).0 <ℤ pos 0)
    (writes : (t : Trace) (bytes : List ℕ)
      → pos 0 ≤ℤ env.write_reply t pins.direction_fd bytes) where
  abbrev Ready : Motor → Trace → Type 0
  Ready = IsReady IsSent pins

  of_Served :
      (p : MotorPacket) (out : Option (Flow Motor) × Trace)
      → IsSent p
      → Served pins p out
      → Lasts Ready (λ _. ⊥) out
  of_Served p (none, t) sent h = h
  of_Served p (some (return ret), t) sent h = h
  of_Served p (some (next s), t) sent (e, w, steady, d) = rw e (inr (sent, (refl, w, steady, d)))

  Ready-Steady : (s : Motor) (t : Trace) → Ready s t → Steady IsAligned pins s t
  Ready-Steady s t (inl (w, d, steady)) = steady
  Ready-Steady s t (inr (sent, (e, w, steady, d))) = steady

  -- What a read that does not fail leaves was sent.
  read-sent :
      (fd : ℤ) (packet : MotorPacket) (t : Trace)
      → let reply = env.read_motor_reply t fd packet in pos 0 ≤ℤ reply.0 → IsSent reply.1
  read-sent fd packet t got =
      let reply = env.read_motor_reply t fd packet in
      elim (Bool-cases (eqb_ℤ reply.0 (pos 0))) [
        | inl ended ↦
            rw ((carries t fd packet).0 (ground arith)) (unbroken t fd packet (ground arith))
        | inr more ↦ (carries t fd packet).1 (ground arith)
      ]

  -- A read that fails changes nothing.
  unread-Ready :
      (fd : ℤ) (s : Motor) (t : Trace)
      → (env.read_motor_reply t fd s.in_packet).0 <ℤ pos 0
      → Ready s t
      → Lasts Ready (λ _. ⊥) (handle_packet env fuel pins connection_socket fd s t)
  unfolding handle_packet
  unread-Ready fd s t failed h =
      let kept = (carries t fd s.in_packet).0 (omega arith) in ground arith

  handle_packet-Ready :
      (fd : ℤ) (s : Motor) (t : Trace)
      → Ready s t
      → Lasts Ready (λ _. ⊥) (handle_packet env fuel pins connection_socket fd s t)
  handle_packet-Ready fd s t h =
      let reply = env.read_motor_reply t fd s.in_packet in
      elim (Bool-cases (ltb_ℤ reply.0 (pos 0))) [
        | inl failed ↦ unread-Ready fd s t (ground arith) h
        | inr got ↦
            let sent = read-sent fd s.in_packet t (ground arith) in
            of_Served reply.1 (handle_packet env fuel pins connection_socket fd s t) sent (
              handle_packet-Served env fuel pins connection_socket fd s t reply.0 reply.1
                (commands reply.1 sent) (Ready-Steady s t h) refl (ground arith) writes)
      ]

  handle_motor_event-Ready :
      (event : EpollEvent) (s : Motor) (t : Trace)
      → Ready s t
      → Lasts Ready (λ _. ⊥) (handle_motor_event env fuel pins connection_socket event s t)
  unfolding handle_motor_event accept_client handle_typed
  handle_motor_event-Ready event s t h =
      let packet = handle_packet-Ready event.fd s t h in let line = untyped t in ground arith

  handle_motor_events-Ready :
      (events : List EpollEvent) (s : Motor) (t : Trace)
      → Ready s t
      → Lasts Ready (λ _. ⊥) (handle_motor_events env fuel pins connection_socket events s t)
  unfolding handle_motor_events
  handle_motor_events-Ready [] s t h = h
  handle_motor_events-Ready (event ∷ events) s t h =
      and_then-Lasts Ready Ready (λ _. ⊥)
        (handle_motor_event env fuel pins connection_socket event s)
        (handle_motor_events env fuel pins connection_socket events) t
        (handle_motor_events-Ready events) (handle_motor_event-Ready event s t h)

  motor_round-Ready :
      (s : Motor) (t : Trace)
      → Ready s t
      → Lasts Ready (λ _. ⊥) (motor_round env fuel pins connection_socket s t)
  unfolding motor_round
  motor_round-Ready s t h =
      let reply = env.epoll_wait_reply t in
      let t1 : Trace = waited reply.0 ∷ t in
      let handled = handle_motor_events-Ready (take (pos_part reply.0) reply.1) s t1 h in
      ground arith

  -- The loop never ends and never hangs, and is always ready.
  pub loop-IsReady :
      (rounds : ℕ) (s : Motor) (t : Trace)
      → IsReady IsSent pins s t
      → Lasts
          (IsReady IsSent pins)
          (λ _. ⊥)
          (forever rounds (motor_round env fuel pins connection_socket) s t)
  loop-IsReady rounds s t h =
      forever-Lasts (IsReady IsSent pins) (λ _. ⊥) (motor_round env fuel pins connection_socket)
        motor_round-Ready rounds s t h
