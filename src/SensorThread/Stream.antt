-- ===== src/SensorThread/Stream.antt =====
-- The packets that a sensor thread sends, over the whole run.
use real_time_systems.Base.{
  ℕ, ◌+◌, ◌%◌, ◌^◌, ◌≡◌, ◌≢◌, ◌⊎◌, inl, inr, true, get_or, Option-cases, Option, none, some, List,
  [], ◌∷◌, arith,
}
use real_time_systems.Base.Int.{ℤ, pos, ◌≤ℤ◌, to_unsigned}
use real_time_systems.Os.{
  Env, Trace, SensorPacket, Flow, next, return, After, and_then_inv, accepted, forever, forever_inv,
  sensor_packets, paused,
}
use real_time_systems.SensorIo.{init_sensor, read_sensor}
use real_time_systems.SensorThread.{
  i2c_path, port_num, sock_path, Sender, has_changed, first_packet, connect_inet, connect_unix,
  sock_backlog, send_change, sensor_round, sensor_loop, main_inet, main_unix,
}
use real_time_systems.Sockets.Inet
use real_time_systems.Sockets.Unix
use real_time_systems.SensorThread.Readings.{
  IsBalanced, read_sensor-Reading, read_sensor-IsSecluded, init_sensor-IsSecluded,
  init_socket-IsSecluded, conn_socket-connections,
}

-- The packets sent, the latest first: the first has number 0, each later one the next number modulo
-- 2 ^ 32, and another reading than the one before it; all are balanced.
abbrev pub IsStream : List SensorPacket → Type 0
IsStream [] = Unit
IsStream (p ∷ []) = IsBalanced p × (p.sequence ≡ 0)
IsStream (p ∷ q ∷ r) =
    IsBalanced p
    × (p.sequence ≡ (q.sequence + 1) % 2 ^ 32)
    × ((p.infrared ≢ q.infrared) ⊎ (p.full ≢ q.full))
    × IsStream (q ∷ r)

abbrev tail : List SensorPacket → List SensorPacket
tail [] = []
tail (p ∷ ps) = ps

-- While the loop runs, the last packet of the stream is `last_packet`, with the number `seq`.
abbrev pub Streaming : Sender → Trace → Type 0
Streaming s t =
    (sensor_packets t ≡ s.last_packet ∷ tail (sensor_packets t))
    × (s.last_packet.sequence ≡ s.seq)
    × IsStream (sensor_packets t)

abbrev pub Streamed : Trace → Type 0
Streamed t = IsStream (sensor_packets t)

After-Streamed :
    (out : Option (Flow Sender) × Trace)
    → After Streaming Streamed out
    → IsStream (sensor_packets out.1)
After-Streamed (none, t) h = h
After-Streamed (some (next s), t) h = h.2
After-Streamed (some (return r), t) h = h

module _ (env : Env) (fuel : ℕ) (sensor_fd data_fd : ℤ) where
  first_packet-Streaming :
      (p : SensorPacket) (t : Trace)
      → sensor_packets t ≡ []
      → After Streaming Streamed (first_packet env fuel sensor_fd data_fd p t)
  unfolding first_packet
  first_packet-Streaming p t e =
      let quiet = read_sensor-IsSecluded env fuel sensor_fd p t in
      elim (read_sensor-Reading env fuel sensor_fd p t) [
        | inl hangs ↦ ground arith
        | inr (inl (n, q, r)) ↦ ground arith
        | inr (inr (n, q, r, b)) ↦ ground arith
      ]

  send_change-Streaming :
      (s : Sender) (q : SensorPacket) (t : Trace)
      → Streaming s t
      → IsBalanced q
      → has_changed q s.last_packet ≡ true
      → After Streaming Streamed (send_change env data_fd s q t)
  unfolding send_change
  send_change-Streaming s q t (e, n, st) b ch = ground arith

  sensor_round-Streaming :
      (s : Sender) (t : Trace)
      → Streaming s t
      → After Streaming Streamed (sensor_round env fuel sensor_fd data_fd s t)
  unfolding sensor_round
  sensor_round-Streaming s t (e, n, st) =
      let t1 = paused 1 ∷ t in
      let quiet = read_sensor-IsSecluded env fuel sensor_fd s.packet t1 in
      elim (read_sensor-Reading env fuel sensor_fd s.packet t1) [
        | inl hangs ↦ ground arith
        | inr (inl (n', q, r)) ↦ ground arith
        | inr (inr (n', q, r, b)) ↦
            ground (arith, send_change-Streaming s q (read_sensor env fuel sensor_fd s.packet t1).1)
      ]

  sensor_loop-Streamed :
      (rounds : ℕ) (p : SensorPacket) (t : Trace)
      → sensor_packets t ≡ []
      → IsStream (sensor_packets (sensor_loop env rounds fuel sensor_fd data_fd p t).1)
  unfolding sensor_loop
  sensor_loop-Streamed rounds p t e =
      After-Streamed (sensor_loop env rounds fuel sensor_fd data_fd p t) (
        and_then_inv Streaming Streamed (first_packet env fuel sensor_fd data_fd p)
          (forever rounds (sensor_round env fuel sensor_fd data_fd)) t
          (forever_inv Streaming Streamed (sensor_round env fuel sensor_fd data_fd)
            sensor_round-Streaming rounds)
          (first_packet-Streaming p t e))

-- Nothing has been sent.
abbrev Unsent : Trace → Type 0
Unsent t = sensor_packets t ≡ []

module _ (env : Env) (rounds fuel : ℕ) (argv : List (List ℕ)) (p : SensorPacket) where
  connect_inet-Streamed :
      (fd : ℤ) (t : Trace) → Unsent t → Streamed (connect_inet env rounds fuel argv p fd t).1
  unfolding connect_inet
  connect_inet-Streamed fd t e =
      let port = to_unsigned (env.atoi (get_or argv port_num [])) in
      let (conn, t1) = Inet.init_socket env none port sock_backlog t in
      let quiet = init_socket-IsSecluded env none port sock_backlog t in
      elim (Option-cases conn) [
        | inl hangs ↦ ground arith
        | inr (conn_fd, r) ↦
            let data_fd = env.accept_reply t1 conn_fd in
            ground (
              arith,
              sensor_loop-Streamed env fuel fd data_fd rounds p (accepted conn_fd data_fd ∷ t1),
            )
      ]

  connect_unix-Streamed :
      (fd : ℤ) (t : Trace) → Unsent t → Streamed (connect_unix env rounds fuel argv p fd t).1
  unfolding connect_unix
  connect_unix-Streamed fd t e =
      let (sock, t1) = Unix.conn_socket env (get_or argv sock_path []) t in
      let quiet = (conn_socket-connections env (get_or argv sock_path []) t).0 in
      elim (Option-cases sock) [
        | inl hangs ↦ ground arith
        | inr (sock_fd, r) ↦
            ground (arith, sensor_loop-Streamed env fuel fd sock_fd rounds p (paused 1 ∷ t1))
      ]

  main-Streamed :
      Streamed (main_inet env rounds fuel argv p []).1
      × Streamed (main_unix env rounds fuel argv p []).1
  unfolding main_inet main_unix
  main-Streamed =
      let (sensor, t1) = init_sensor env fuel (get_or argv i2c_path []) [] in
      let quiet = init_sensor-IsSecluded env fuel (get_or argv i2c_path []) [] in
      elim (Option-cases sensor) [
        | inl hangs ↦ (ground arith, ground arith)
        | inr (fd, r) ↦ (
          ground (arith, connect_inet-Streamed fd t1),
          ground (arith, connect_unix-Streamed fd t1),
        )
      ]

-- Whatever the devices and the network do, after any number of rounds the packets that
-- sensor_thread_inet has sent, and those that sensor_thread_unix has sent, are a stream: numbered from
-- 0 by ones modulo 2 ^ 32, each with another reading than the one before, visible light being full
-- less infrared.
pub main-IsStream :
    (env : Env) (rounds fuel : ℕ) (argv : List (List ℕ)) (p : SensorPacket)
    → IsStream (sensor_packets (main_inet env rounds fuel argv p []).1)
      × IsStream (sensor_packets (main_unix env rounds fuel argv p []).1)
main-IsStream env rounds fuel argv p = main-Streamed env rounds fuel argv p

-- A round whose reading succeeds, with packet `q` and trace `t1`. If neither intensity differs from
-- the last packet sent, it sends nothing and keeps that packet. If one differs and the clock works, it
-- sends exactly one packet, `q` with the next number and the time.
sensor_round-sends_changes :
    (env : Env) (fuel : ℕ) (sensor_fd data_fd : ℤ) (s : Sender) (q : SensorPacket) (t t1 : Trace)
    → read_sensor env fuel sensor_fd s.packet (paused 1 ∷ t) ≡ (some (pos 0, q), t1)
    → let out = sensor_round env fuel sensor_fd data_fd s t in
      let clock = env.clock_reply t1 in
      ((q.infrared ≡ s.last_packet.infrared) × (q.full ≡ s.last_packet.full)
        → (out.0 ≡ some (next (record s { packet = q })))
          × (sensor_packets out.1 ≡ sensor_packets t))
      × ((q.infrared ≢ s.last_packet.infrared) ⊎ (q.full ≢ s.last_packet.full)
          → pos 0 ≤ℤ clock.0
          → sensor_packets out.1
            ≡ record q { sequence = (s.seq + 1) % 2 ^ 32; timestamp = clock.1 } ∷ sensor_packets t)
unfolding sensor_round send_change
sensor_round-sends_changes env fuel sensor_fd data_fd s q t t1 e =
    let quiet = read_sensor-IsSecluded env fuel sensor_fd s.packet (paused 1 ∷ t) in
    (λ same. (ground arith, ground arith), λ differs ok. ground arith)
