-- ===== src/Stepper/Events.antt =====
-- The event loop of src/stepper.c: commands typed on stdin, and motor packets of clients.
pub mod Steady
pub mod Rounds
pub mod Direction
pub mod Replays
pub mod Latency
mod Tests
use real_time_systems.Base.{
  ℕ, ◌-◌, ◌==◌, ◌||◌, not, List, [], ◌∷◌, take, codes, str_eq, if◌then◌else◌,
}
use real_time_systems.Base.Int.{ℤ, pos, pos_part, ltb_ℤ, eqb_ℤ, truthy, ◌+ℤ◌, ◌-ℤ◌}
use real_time_systems.Os.{
  Env, Io, EpollEvent, Timespec, MotorPacket, Flow, next, return, and_then, pure, ◌>>=◌, ◌>>◌, read,
  read_packet, clock_gettime, accept, epoll_add, epoll_delete, epoll_wait, close,
}
use real_time_systems.Stepper.Text.{islegal}
use real_time_systems.Stepper.Gpio.{set_direction}
use real_time_systems.Stepper.Sequence.{seq_rotate}
use real_time_systems.Stepper.Setup.{Pins, stdin_fileno}

-- BUFSZ
abbrev pub bufsz : ℕ
bufsz = 128

-- The variables of `main` that live across events, and `working`. `buf` is the text in the buffer.
pub record Motor : Type 0 where
  pub working : ℤ
  pub direction : ℤ
  pub in_packet : MotorPacket
  pub buf : List ℕ

-- The text of a buffer: the bytes before the first 0.
pub text_of : List ℕ → List ℕ
text_of [] = []
text_of (c ∷ rest) = let text = text_of rest in if c == 0 then [] else c ∷ text

-- The text in `buf` when `read` has returned `ret` and the last byte read has been set to 0. Where
-- `ret` is 0, that byte would lie before the buffer, which keeps its text.
abbrev pub typed : List ℕ → ℤ → List ℕ → List ℕ
typed buf ret bytes = if eqb_ℤ ret (pos 0) then buf else text_of (take (pos_part ret - 1) bytes)

-- The lines that compute the latency of a packet, which is only printed.
unfoldable pub latency : Timespec → Timespec → Timespec
latency current_time timestamp =
    if ltb_ℤ current_time.tv_nsec timestamp.tv_nsec
    then record {
      tv_sec = current_time.tv_sec -ℤ pos 1;
      tv_nsec = (current_time.tv_nsec -ℤ timestamp.tv_nsec) +ℤ pos 1_000_000_000;
    }
    else record {
      tv_sec = current_time.tv_sec;
      tv_nsec = current_time.tv_nsec -ℤ timestamp.tv_nsec;
    }

module _ (env : Env) (fuel : ℕ) (pins : Pins) (connection_socket : ℤ) where
  -- A client connects. Whether epoll takes it is not looked at.
  unfoldable pub accept_client : Motor → Io (Flow Motor)
  accept_client s = do
    fd ← accept env connection_socket
    if ltb_ℤ fd (pos 0) then pure (next s) else (epoll_add env fd >> pure (next s))

  -- A line on stdin: to quit, or a number of rotations.
  unfoldable pub handle_typed : Motor → Io (Flow Motor)
  handle_typed s = do
    reply ← read env stdin_fileno bufsz
    if ltb_ℤ reply.0 (pos 0) then pure (next s) else do
      let buf = typed s.buf reply.0 reply.1
      if str_eq buf (codes "q") || str_eq buf (codes "quit")
          then pure (return (pos 0))
          else if islegal buf
          then seq_rotate env fuel (env.atoi buf) pins.pulse_fd pins.enable_fd s.working
            >>= (λ working. pure (next (record s { buf = buf; working = working })))
          else pure (next (record s { buf = buf }))

  -- The command in `in_packet`, once the direction is set.
  unfoldable pub obey_packet : Motor → Io (Flow Motor)
  obey_packet s = do
    clock ← clock_gettime env
    working ← seq_rotate env fuel s.in_packet.turns pins.pulse_fd pins.enable_fd s.working
    pure (next (record s { working = working }))

  -- Data from a client. A packet that ends the stream, or is cut short, is not told from a whole one.
  unfoldable pub handle_packet : ℤ → Motor → Io (Flow Motor)
  unfolding obey_packet
  handle_packet fd s = do
    reply ← read_packet env fd s.in_packet
    let s' = record s { in_packet = reply.1 }
    let dir_in = reply.1.direction
    if ltb_ℤ reply.0 (pos 0)
        then pure (next s')
        else if eqb_ℤ dir_in s.direction
        then obey_packet s'
        else do
          ret ← set_direction env dir_in pins.direction_fd
          if truthy ret then obey_packet (record s' { direction = dir_in }) else pure (next s')

  -- One event of the list.
  unfoldable pub handle_motor_event : EpollEvent → Motor → Io (Flow Motor)
  handle_motor_event event s =
      if event.epollin
      then (if eqb_ℤ event.fd connection_socket
          then accept_client s
          else if eqb_ℤ event.fd stdin_fileno
          then handle_typed s
          else handle_packet event.fd s)
      else if event.epollrdhup || event.epollhup
      then (do removed ← epoll_delete env event.fd; close event.fd; pure (next s))
      else pure (next s)

  unfoldable pub handle_motor_events : List EpollEvent → Motor → Io (Flow Motor)
  handle_motor_events [] s = pure (next s)
  handle_motor_events (event ∷ events) s =
      handle_motor_event event s >>= and_then (handle_motor_events events)

  -- The body of the `do … while`. `return` is the end of the loop, by a command to quit.
  unfoldable pub motor_round : Motor → Io (Flow Motor)
  motor_round s = do
    ready ← epoll_wait env
    if ltb_ℤ (pos 0) ready.0
        then handle_motor_events (take (pos_part ready.0) ready.1) s
        else pure (next s)
