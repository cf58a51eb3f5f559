-- ===== src/SensorThread.antt =====
-- src/sensor_thread_inet.c and src/sensor_thread_unix.c: read a sensor once a second, and send a
-- packet when the reading has changed. The two programs differ in how they get the descriptor to
-- send on; the rest is `first_packet`, `sensor_round` and `sensor_loop`.
pub mod Readings
pub mod Exit
pub mod Stream
pub mod Sampling
pub mod Connections
pub mod Examples
mod Tests
use real_time_systems.Base.{
  ℕ, Bool, ◌+◌, ◌%◌, ◌^◌, ◌||◌, not, List, none, get_or, length, [], if◌then◌else◌, ◌==◌,
}
use real_time_systems.Base.Int.{ℤ, pos, neg, ltb_ℤ, eqb_ℤ, to_unsigned}
use real_time_systems.Errors.{success, err_num_argc, err_time, code}
use real_time_systems.Os.{
  Env, Io, pure, ◌>>=◌, ◌>>◌, SensorPacket, Flow, next, return, and_then, forever, clock_gettime,
  send_sensor, accept, sleep,
}
use real_time_systems.SensorIo.{init_sensor, read_sensor}
use real_time_systems.Sockets.Inet
use real_time_systems.Sockets.Unix

-- `enum argi`: I2C_PATH and EXPECTED_ARGC, which are the same in both programs; PORT_NUM in
-- sensor_thread_inet and SOCK_PATH in sensor_thread_unix.
abbrev pub i2c_path : ℕ
i2c_path = 1

abbrev pub port_num : ℕ
port_num = 2

abbrev pub sock_path : ℕ
sock_path = 2

abbrev pub expected_argc : ℕ
expected_argc = 3

abbrev pub sock_backlog : ℤ
sock_backlog = pos 8

abbrev pub period : ℕ
period = 1

-- The variables of `main` that live across the rounds.
pub record Sender : Type 0 where
  pub seq : ℕ
  pub packet : SensorPacket
  pub last_packet : SensorPacket

-- The test that guards the sending of a packet.
abbrev pub has_changed : SensorPacket → SensorPacket → Bool
has_changed packet last_packet =
    not (eqb_ℤ packet.infrared last_packet.infrared) || not (eqb_ℤ packet.full last_packet.full)

module _ (env : Env) where
  -- From "First packet" up to the loop. A failing clock returns ERR_TIME, which is not negated.
  pub first_packet : ℕ → ℤ → ℤ → SensorPacket → Io (Flow Sender)
  first_packet fuel sensor_fd data_fd uninitialized = do
    reading ← read_sensor env fuel sensor_fd uninitialized
    if ltb_ℤ reading.0 (pos (code success)) then pure (return reading.0) else do
      clock ← clock_gettime env
      if ltb_ℤ clock.0 (pos (code success)) then pure (return (pos (code err_time))) else do
        let packet = record (reading.1) { sequence = 0; timestamp = clock.1 }
        sent ← send_sensor env data_fd packet
        if ltb_ℤ sent (pos (code success))
            then pure (return sent)
            else pure (next (record { seq = 0; packet = packet; last_packet = packet }))

  -- The reading has changed: number it, stamp it, send it.
  pub send_change : ℤ → Sender → SensorPacket → Io (Flow Sender)
  send_change data_fd s read_packet = do
    clock ← clock_gettime env
    if ltb_ℤ clock.0 (pos (code success)) then pure (return (pos (code err_time))) else do
      let seq = (s.seq + 1) % 2 ^ 32
      let packet = record read_packet { sequence = seq; timestamp = clock.1 }
      sent ← send_sensor env data_fd packet
      if ltb_ℤ sent (pos (code success))
          then pure (return sent)
          else pure (next (record { seq = seq; packet = packet; last_packet = packet }))

  -- The body of the `for (;;)`.
  pub sensor_round : ℕ → ℤ → ℤ → Sender → Io (Flow Sender)
  sensor_round fuel sensor_fd data_fd s = do
    sleep period
    reading ← read_sensor env fuel sensor_fd s.packet
    if ltb_ℤ reading.0 (pos (code success))
        then pure (return reading.0)
        else if has_changed reading.1 s.last_packet
        then send_change data_fd s reading.1
        else pure (next (record s { packet = reading.1 }))

  pub sensor_loop : ℕ → ℕ → ℤ → ℤ → SensorPacket → Io (Flow Sender)
  sensor_loop rounds fuel sensor_fd data_fd uninitialized =
      first_packet fuel sensor_fd data_fd uninitialized
      >>= and_then (forever rounds (sensor_round fuel sensor_fd data_fd))

  -- `main` of sensor_thread_inet.c from "Connect to socket" on.
  pub connect_inet : ℕ → ℕ → List (List ℕ) → SensorPacket → ℤ → Io (Flow Sender)
  connect_inet rounds fuel argv uninitialized sensor_fd = do
    conn_fd ←
        Inet.init_socket env none (to_unsigned (env.atoi (get_or argv port_num []))) sock_backlog
    if ltb_ℤ conn_fd (pos (code success)) then pure (return conn_fd) else do
      data_fd ← accept env conn_fd
      sensor_loop rounds fuel sensor_fd data_fd uninitialized

  -- The same of sensor_thread_unix.c, which sleeps once before the first packet.
  pub connect_unix : ℕ → ℕ → List (List ℕ) → SensorPacket → ℤ → Io (Flow Sender)
  connect_unix rounds fuel argv uninitialized sensor_fd = do
    sock_fd ← Unix.conn_socket env (get_or argv sock_path [])
    if ltb_ℤ sock_fd (pos (code success))
        then pure (return sock_fd)
        else do sleep period; sensor_loop rounds fuel sensor_fd sock_fd uninitialized

  -- The two `main`s, for `rounds` rounds of their loop, with `uninitialized` in `packet` at the start.
  pub main_inet : ℕ → ℕ → List (List ℕ) → SensorPacket → Io (Flow Sender)
  main_inet rounds fuel argv uninitialized =
      if not (length argv == expected_argc) then pure (return (neg (code err_num_argc))) else do
        sensor_fd ← init_sensor env fuel (get_or argv i2c_path [])
        if ltb_ℤ sensor_fd (pos (code success))
            then pure (return sensor_fd)
            else connect_inet rounds fuel argv uninitialized sensor_fd

  pub main_unix : ℕ → ℕ → List (List ℕ) → SensorPacket → Io (Flow Sender)
  main_unix rounds fuel argv uninitialized =
      if not (length argv == expected_argc) then pure (return (neg (code err_num_argc))) else do
        sensor_fd ← init_sensor env fuel (get_or argv i2c_path [])
        if ltb_ℤ sensor_fd (pos (code success))
            then pure (return sensor_fd)
            else connect_unix rounds fuel argv uninitialized sensor_fd
