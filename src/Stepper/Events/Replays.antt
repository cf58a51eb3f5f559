-- ===== src/Stepper/Events/Replays.antt =====
-- What stepper does when a client has gone.
use real_time_systems.Base.{ℕ, ◌<◌, ◌≡◌, ◌≢◌, true, Option-cases, inl, inr, ◌∷◌, arith}
use real_time_systems.Base.Int.{ℤ, pos, pos_part, ◌<ℤ◌, ◌≤ℤ◌}
use real_time_systems.Os.{Env, Trace, EpollEvent, clocked, read_motor}
use real_time_systems.Stepper.Sleep.{SleepsOn}
use real_time_systems.Stepper.Rotate.Train.{writes, rotation}
use real_time_systems.Stepper.Threads.Invariant.{IsFlag}
use real_time_systems.Stepper.Sequence.{seq_rotate}
use real_time_systems.Stepper.Sequence.Pulses.{writes-seq_rotate}
use real_time_systems.Stepper.Setup.{Pins, stdin_fileno}
use real_time_systems.Stepper.Events.{Motor, obey_packet, handle_packet, handle_motor_event}

module _ (env : Env) (on : SleepsOn env) (fuel : ℕ) (enough : 3_000_000 < fuel) (pins : Pins)
    (connection_socket : ℤ) where
  writes-obey_packet :
      (s : Motor) (t : Trace)
      → IsFlag s.working
      → pos 0 <ℤ s.in_packet.turns
      → s.in_packet.turns ≤ℤ pos 1000
      → writes (obey_packet env fuel pins connection_socket s t).1
        ≡ rotation pins.pulse_fd pins.enable_fd (pos_part s.in_packet.turns) (writes t)
  unfolding obey_packet
  writes-obey_packet s t flag lo hi =
      let t1 : Trace = clocked (env.clock_reply t).0 ∷ t in
      let (out, t2) =
        seq_rotate env fuel s.in_packet.turns pins.pulse_fd pins.enable_fd s.working t1 in
      let turned =
        writes-seq_rotate env on fuel enough pins.pulse_fd pins.enable_fd s.in_packet.turns
          s.working t1 flag lo hi in
      elim (Option-cases out) [ inl hangs ↦ ground arith | inr (w, r) ↦ ground arith ]

  -- Where a client has closed its connection, `read` returns 0 and leaves `in_packet` as it was. If epoll
  -- says that there is input, as it does at the end of a stream, and the last packet asked for 1 to
  -- 1000 rotations in the direction that is set, stepper makes these rotations once more, and writes
  -- nothing else, whether or not epoll says too that the client has hung up.
  pub handle_motor_event-replays :
      (event : EpollEvent) (s : Motor) (t : Trace)
      → event.epollin ≡ true
      → event.fd ≢ connection_socket
      → event.fd ≢ stdin_fileno
      → env.read_motor_reply t event.fd s.in_packet ≡ (pos 0, s.in_packet)
      → s.in_packet.direction ≡ s.direction
      → IsFlag s.working
      → pos 0 <ℤ s.in_packet.turns
      → s.in_packet.turns ≤ℤ pos 1000
      → writes (handle_motor_event env fuel pins connection_socket event s t).1
        ≡ rotation pins.pulse_fd pins.enable_fd (pos_part s.in_packet.turns) (writes t)
  unfolding handle_motor_event handle_packet
  handle_motor_event-replays event s t input client line gone same flag lo hi =
      let again = writes-obey_packet s (read_motor event.fd (pos 0) ∷ t) flag lo hi in ground arith
