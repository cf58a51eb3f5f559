-- ===== src/SensorThread/Sampling/Runs.antt =====
-- What a sensor thread sends over a whole run, by what the device has delivered.
use real_time_systems.Base.{
  ℕ, ◌<◌, ◌≤◌, length, ◌≡◌, ◌≢◌, Bool, inl, inr, refl, none, Option-cases, List, [], ◌∷◌, arith,
  get_or,
}
use real_time_systems.Base.Int.{ℤ, to_unsigned}
use real_time_systems.Os.{
  Env, Trace, SensorPacket, Lasts, and_then-Lasts, forever, forever-Lasts, delivered,
  sensor_packets, paused, accepted, opened, controlled,
}
use real_time_systems.Sockets.Inet
use real_time_systems.Sockets.Unix
use real_time_systems.BlockingIo.{blocking_write}
use real_time_systems.BlockingIo.Write.{WriteContract, delivered-blocking_write}
use real_time_systems.BlockingIo.Read.{ReadContract, IsEndless}
use real_time_systems.SensorIo.{init_sensor, read_sensor, control_reg, timing_reg}
use real_time_systems.SensorIo.Protocol.{read_sensor_lem, init_sensor_lem}
use real_time_systems.SensorThread.{
  i2c_path, port_num, sock_path, sock_backlog, Sender, first_packet, sensor_round, sensor_loop,
  connect_inet, connect_unix, main_inet, main_unix,
}
use real_time_systems.SensorThread.Readings.{read_sensor-IsSecluded, init_sensor-IsSecluded}
use real_time_systems.SensorThread.Sampling.{
  Sample, bytes, reading, WasSampled, was_sampled, begins, ends, reading-reformat, Sampling,
  WasSampling, sensor_round-Sampling,
}

-- Nothing has been delivered, and nothing has been sent.
abbrev IsFresh : ℤ → Trace → Type 0
IsFresh fd t = (delivered fd t ≡ []) × (sensor_packets t ≡ [])

unsent : (signed : Bool) (ds : List ℕ) → length ds ≤ 4 → WasSampled signed ds []
unsent signed ds few = was_sampled [] ds refl few refl

delivered-init_sensor :
    (env : Env) (fuel : ℕ) (bus : List ℕ) (fd : ℤ) (t : Trace)
    → delivered fd (init_sensor env fuel bus t).1 ≡ delivered fd t
unfolding init_sensor
delivered-init_sensor env fuel bus d t =
    let fd = env.open_reply t bus in
    let t1 : Trace = opened bus fd ∷ t in
    let t2 : Trace = controlled fd (env.ioctl_reply t1 fd) ∷ t1 in
    let t3 = (blocking_write env fuel fd control_reg 2 t2).1 in
    ground (
      arith,
      delivered-blocking_write env fuel fd d control_reg 2 t2,
      delivered-blocking_write env fuel fd d timing_reg 2 t3,
    )

-- To open a socket comes to an end, and leaves all as it was.
init_socket-IsFresh :
    (env : Env) (port : ℕ) (backlog fd : ℤ) (t : Trace)
    → IsFresh fd t
    → let out = Inet.init_socket env none port backlog t in (out.0 ≢ none) × IsFresh fd out.1
unfolding Inet.init_socket
init_socket-IsFresh env port backlog fd t h = (λ e. ground arith, ground arith)

conn_socket-IsFresh :
    (env : Env) (sock : List ℕ) (fd : ℤ) (t : Trace)
    → IsFresh fd t
    → let out = Unix.conn_socket env sock t in (out.0 ≢ none) × IsFresh fd out.1
unfolding Unix.conn_socket
conn_socket-IsFresh env sock fd t h = (λ e. ground arith, ground arith)

module _ {env : Env} (writes : WriteContract env) (reads : ReadContract env)
    (endless : IsEndless env) (fuel : ℕ) (enough : 4 < fuel) where
  abbrev P : ℤ → Sender → Trace → Type 0
  P = Sampling env.char_signed

  abbrev Q : ℤ → Trace → Type 0
  Q = WasSampling env.char_signed

  first_packet-P :
      (fd data_fd : ℤ) (p0 : SensorPacket) (t : Trace)
      → IsFresh fd t
      → Lasts (P fd) (Q fd) (first_packet env fuel fd data_fd p0 t)
  unfolding first_packet
  first_packet-P fd data_fd p0 t (none_yet, unsent_yet) =
      let signed = env.char_signed in
      let t2 = (read_sensor env fuel fd p0 t).1 in
      let quiet = (read_sensor-IsSecluded env fuel fd p0 t).0 in
      elim (read_sensor_lem writes reads endless fuel enough fd p0 t) [
        | inl (b0, b1, b2, b3, e, d) ↦
            let q : Sample = record { b0 = b0; b1 = b1; b2 = b2; b3 = b3 } in
            let same = reading-reformat signed q p0 in
            let start = begins signed q in
            let late = unsent signed (bytes q) (omega arith) in
            let over =
              ends signed (bytes q) (reading signed q ∷ []) (reading signed q) [] (omega arith)
                start in
            ground arith
        | inr (inl (e, d, failed)) ↦ let over = unsent signed [] (omega arith) in ground arith
        | inr (inr (cut, e, failed, short, d)) ↦
            let over = unsent signed cut (omega arith) in ground arith
      ]

  sensor_loop-P :
      (rounds : ℕ) (fd data_fd : ℤ) (p0 : SensorPacket) (t : Trace)
      → IsFresh fd t
      → Lasts (P fd) (Q fd) (sensor_loop env rounds fuel fd data_fd p0 t)
  unfolding sensor_loop
  sensor_loop-P rounds fd data_fd p0 t h =
      and_then-Lasts (P fd) (P fd) (Q fd) (first_packet env fuel fd data_fd p0)
        (forever rounds (sensor_round env fuel fd data_fd)) t
        (forever-Lasts (P fd) (Q fd) (sensor_round env fuel fd data_fd)
          (sensor_round-Sampling writes reads endless fuel enough fd data_fd) rounds)
        (first_packet-P fd data_fd p0 t h)

  module _ (rounds : ℕ) (argv : List (List ℕ)) (p0 : SensorPacket) where
    connect_inet-P :
        (fd : ℤ) (t : Trace)
        → IsFresh fd t
        → Lasts (P fd) (Q fd) (connect_inet env rounds fuel argv p0 fd t)
    unfolding connect_inet
    connect_inet-P fd t h =
        let port = to_unsigned (env.atoi (get_or argv port_num [])) in
        let (sock, t1) = Inet.init_socket env none port sock_backlog t in
        let fresh = init_socket-IsFresh env port sock_backlog fd t h in
        let silent = unsent env.char_signed [] (omega arith) in
        elim (Option-cases sock) [
          | inl hangs ↦ absurd (fresh.0 hangs)
          | inr (conn_fd, r) ↦
              let data_fd = env.accept_reply t1 conn_fd in
              let on = sensor_loop-P rounds fd data_fd p0 (accepted conn_fd data_fd ∷ t1) fresh.1 in
              ground arith
        ]

    connect_unix-P :
        (fd : ℤ) (t : Trace)
        → IsFresh fd t
        → Lasts (P fd) (Q fd) (connect_unix env rounds fuel argv p0 fd t)
    unfolding connect_unix
    connect_unix-P fd t h =
        let (sock, t1) = Unix.conn_socket env (get_or argv sock_path []) t in
        let fresh = conn_socket-IsFresh env (get_or argv sock_path []) fd t h in
        let silent = unsent env.char_signed [] (omega arith) in
        elim (Option-cases sock) [
          | inl hangs ↦ absurd (fresh.0 hangs)
          | inr (sock_fd, r) ↦
              let on = sensor_loop-P rounds fd sock_fd p0 (paused 1 ∷ t1) fresh.1 in ground arith
        ]

    abbrev sensor : ℤ
    sensor = env.open_reply [] (get_or argv i2c_path [])

    -- Where `write` and `read` keep to what they document, the device always answers, and there are
    -- more than four rounds of fuel, sensor_thread_inet and sensor_thread_unix never hang, for any
    -- number of rounds. While the loop runs, what the device has delivered on the descriptor that
    -- `open` gave is a sequence of four-byte samples, at least one, and the readings of the packets
    -- sent (full and infrared) are the readings of these samples in order, without those that repeat
    -- the one before. The last packet is that of the last sample. When the program has returned, the
    -- same holds of samples that may be followed by up to four left-over bytes.
    pub main-Sampling :
        Lasts
          (Sampling env.char_signed sensor)
          (WasSampling env.char_signed sensor)
          (main_inet env rounds fuel argv p0 [])
        × Lasts
            (Sampling env.char_signed sensor)
            (WasSampling env.char_signed sensor)
            (main_unix env rounds fuel argv p0 [])
    unfolding main_inet main_unix
    main-Sampling =
        let bus = get_or argv i2c_path [] in
        let t1 = (init_sensor env fuel bus []).1 in
        let quiet = init_sensor-IsSecluded env fuel bus [] in
        let none_yet = delivered-init_sensor env fuel bus sensor [] in
        let silent = unsent env.char_signed [] (omega arith) in
        elim (init_sensor_lem writes fuel (omega arith) bus []) [
          | inl (ok, r, taken) ↦
              let fresh : IsFresh sensor t1 = (none_yet, quiet.0) in
              let on_inet = connect_inet-P sensor t1 fresh in
              let on_unix = connect_unix-P sensor t1 fresh in (ground arith, ground arith)
          | inr (inl (bad, r)) ↦ (ground arith, ground arith)
          | inr (inr (inl (ok, r, failed))) ↦ (ground arith, ground arith)
          | inr (inr (inr (inl (ok, r, selected, failed)))) ↦ (ground arith, ground arith)
          | inr (inr (inr (inr (ok, r, selected, failed)))) ↦ (ground arith, ground arith)
        ]
