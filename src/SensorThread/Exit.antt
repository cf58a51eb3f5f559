-- ===== src/SensorThread/Exit.antt =====
-- What `main` of sensor_thread_inet and that of sensor_thread_unix return.
use real_time_systems.Base.{
  ℕ, ◌+◌, ◌%◌, ◌^◌, ◌≡◌, ◌⊎◌, refl, none, some, Option-cases, inl, inr, List, [], ◌∷◌, arith,
  get_or,
}
use real_time_systems.Base.Int.{ℤ, pos, ◌<ℤ◌, to_unsigned}
use real_time_systems.Errors.{
  Errcode, err_num_argc, err_open, err_ioctl, err_write_control, err_write_timing, err_write_read,
  err_read_data, err_time, err_socket, err_bind, err_listen, err_connect, err_hostname, code,
}
use real_time_systems.Os.{
  Env, Trace, SensorPacket, IsNegated, Returning, and_then-Returning, forever, forever-Returning,
  paused, accepted, clocked,
}
use real_time_systems.SensorIo.{init_sensor, read_sensor}
use real_time_systems.Sockets.Inet
use real_time_systems.Sockets.Unix
use real_time_systems.SensorThread.{
  i2c_path, port_num, sock_path, Sender, sock_backlog, first_packet, send_change, sensor_round,
  sensor_loop, connect_inet, connect_unix, main_inet, main_unix,
}

-- What a call of `send` has returned where it failed.
abbrev pub IsSendFailure : Env → ℤ → Type 0
IsSendFailure env ret =
    (ret <ℤ pos 0)
    × (before : Trace) × (fd : ℤ) × (packet : SensorPacket) × (env.send_sensor_reply before fd
          packet
        ≡ ret)

-- The codes of the sensor, and those of either kind of socket.
abbrev pub of_sensor : List Errcode
of_sensor =
    err_num_argc ∷ err_open ∷ err_ioctl ∷ err_write_control ∷ err_write_timing ∷ err_write_read
    ∷ err_read_data ∷ []

abbrev pub of_inet : List Errcode
of_inet = err_socket ∷ err_bind ∷ err_listen ∷ err_hostname ∷ []

abbrev pub of_unix : List Errcode
of_unix = err_socket ∷ err_connect ∷ []

-- One of these codes, negated; or ERR_TIME as it is; or the failure of `send` as it is.
abbrev pub IsSensorExit : Env → List Errcode → ℤ → Type 0
IsSensorExit env of_socket ret =
    IsNegated of_sensor ret
    ⊎ IsNegated of_socket ret
    ⊎ (ret ≡ pos (code err_time))
    ⊎ IsSendFailure env ret

-- What stands for a descriptor, where it is negative.
init_sensor-exits :
    (env : Env) (fuel : ℕ) (bus : List ℕ) (t : Trace) (fd : ℤ)
    → (init_sensor env fuel bus t).0 ≡ some fd
    → fd <ℤ pos 0
    → IsNegated of_sensor fd
unfolding init_sensor
init_sensor-exits env fuel bus t fd r bad = ground arith

init_socket-exits :
    (env : Env) (port : ℕ) (backlog : ℤ) (t : Trace) (fd : ℤ)
    → (Inet.init_socket env none port backlog t).0 ≡ some fd
    → fd <ℤ pos 0
    → IsNegated of_inet fd
unfolding Inet.init_socket
init_socket-exits env port backlog t fd r bad = ground arith

conn_socket-exits :
    (env : Env) (sock : List ℕ) (t : Trace) (fd : ℤ)
    → (Unix.conn_socket env sock t).0 ≡ some fd
    → fd <ℤ pos 0
    → IsNegated of_unix fd
unfolding Unix.conn_socket
conn_socket-exits env sock t fd r bad = ground arith

module _ (env : Env) (of_socket : List Errcode) where
  abbrev E : ℤ → Type 0
  E = IsSensorExit env of_socket

  -- A packet that is not taken.
  send-fails :
      (before : Trace) (fd : ℤ) (packet : SensorPacket)
      → env.send_sensor_reply before fd packet <ℤ pos 0
      → E (env.send_sensor_reply before fd packet)
  send-fails before fd packet bad = inr (inr (inr (bad, before, fd, packet, refl)))

  read_sensor-exits :
      (fuel : ℕ) (fd : ℤ) (p q : SensorPacket) (t : Trace) (ret : ℤ)
      → (read_sensor env fuel fd p t).0 ≡ some (ret, q)
      → ret <ℤ pos 0
      → E ret
  unfolding read_sensor
  read_sensor-exits fuel fd p q t ret r bad = inl (ground arith)

  module _ (fuel : ℕ) (sensor_fd data_fd : ℤ) where
    first_packet-Returning :
        (p : SensorPacket) → Returning E (first_packet env fuel sensor_fd data_fd p)
    unfolding first_packet
    first_packet-Returning p t =
        let (reading, t1) = read_sensor env fuel sensor_fd p t in
        elim (Option-cases reading) [
          | inl hangs ↦ ground arith
          | inr ((ret, q), r) ↦
              let clock = env.clock_reply t1 in
              let failed = read_sensor-exits fuel sensor_fd p q t ret r in
              let unsent =
                send-fails (clocked clock.0 ∷ t1) data_fd
                  (record q { sequence = 0; timestamp = clock.1 }) in
              ground arith
        ]

    send_change-Returning :
        (s : Sender) (q : SensorPacket) → Returning E (send_change env data_fd s q)
    unfolding send_change
    send_change-Returning s q t =
        let clock = env.clock_reply t in
        let unsent =
          send-fails (clocked clock.0 ∷ t) data_fd
            (record q { sequence = (s.seq + 1) % 2 ^ 32; timestamp = clock.1 }) in
        ground arith

    sensor_round-Returning : (s : Sender) → Returning E (sensor_round env fuel sensor_fd data_fd s)
    unfolding sensor_round
    sensor_round-Returning s t =
        let t1 : Trace = paused 1 ∷ t in
        let (reading, t2) = read_sensor env fuel sensor_fd s.packet t1 in
        elim (Option-cases reading) [
          | inl hangs ↦ ground arith
          | inr ((ret, q), r) ↦
              let failed = read_sensor-exits fuel sensor_fd s.packet q t1 ret r in
              let changed = send_change-Returning s q t2 in ground arith
        ]

    sensor_loop-Returning :
        (rounds : ℕ) (p : SensorPacket)
        → Returning E (sensor_loop env rounds fuel sensor_fd data_fd p)
    unfolding sensor_loop
    sensor_loop-Returning rounds p =
        and_then-Returning E (first_packet env fuel sensor_fd data_fd p)
          (forever rounds (sensor_round env fuel sensor_fd data_fd)) (first_packet-Returning p)
          (forever-Returning E (sensor_round env fuel sensor_fd data_fd) sensor_round-Returning
            rounds)

module _ (env : Env) (rounds fuel : ℕ) (argv : List (List ℕ)) (p : SensorPacket) where
  connect_inet-Returning :
      (sensor_fd : ℤ)
      → Returning (IsSensorExit env of_inet) (connect_inet env rounds fuel argv p sensor_fd)
  unfolding connect_inet
  connect_inet-Returning sensor_fd t =
      let port = to_unsigned (env.atoi (get_or argv port_num [])) in
      let (conn, t1) = Inet.init_socket env none port sock_backlog t in
      elim (Option-cases conn) [
        | inl hangs ↦ ground arith
        | inr (conn_fd, r) ↦
            let data_fd = env.accept_reply t1 conn_fd in
            let failed = init_socket-exits env port sock_backlog t conn_fd r in
            let looped =
              sensor_loop-Returning env of_inet fuel sensor_fd data_fd rounds p
                (accepted conn_fd data_fd ∷ t1) in
            ground arith
      ]

  connect_unix-Returning :
      (sensor_fd : ℤ)
      → Returning (IsSensorExit env of_unix) (connect_unix env rounds fuel argv p sensor_fd)
  unfolding connect_unix
  connect_unix-Returning sensor_fd t =
      let (sock, t1) = Unix.conn_socket env (get_or argv sock_path []) t in
      elim (Option-cases sock) [
        | inl hangs ↦ ground arith
        | inr (sock_fd, r) ↦
            let failed = conn_socket-exits env (get_or argv sock_path []) t sock_fd r in
            let looped =
              sensor_loop-Returning env of_unix fuel sensor_fd sock_fd rounds p (paused 1 ∷ t1) in
            ground arith
      ]

  pub main_inet-Returning : Returning (IsSensorExit env of_inet) (main_inet env rounds fuel argv p)
  unfolding main_inet
  main_inet-Returning t =
      let (sensor, t1) = init_sensor env fuel (get_or argv i2c_path []) t in
      elim (Option-cases sensor) [
        | inl hangs ↦ ground arith
        | inr (fd, r) ↦
            let failed = init_sensor-exits env fuel (get_or argv i2c_path []) t fd r in
            let connected = connect_inet-Returning fd t1 in ground arith
      ]

  pub main_unix-Returning : Returning (IsSensorExit env of_unix) (main_unix env rounds fuel argv p)
  unfolding main_unix
  main_unix-Returning t =
      let (sensor, t1) = init_sensor env fuel (get_or argv i2c_path []) t in
      elim (Option-cases sensor) [
        | inl hangs ↦ ground arith
        | inr (fd, r) ↦
            let failed = init_sensor-exits env fuel (get_or argv i2c_path []) t fd r in
            let connected = connect_unix-Returning fd t1 in ground arith
      ]
