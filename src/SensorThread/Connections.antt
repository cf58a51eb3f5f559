-- ===== src/SensorThread/Connections.antt =====
-- What the two sensor programs connect to.
use real_time_systems.Base.{
  ℕ, ◌≡◌, ◌⊎◌, inl, inr, refl, Option, none, some, Option-cases, List, [], ◌∷◌, arith, get_or, take,
}
use real_time_systems.Base.Int.{ℤ, to_unsigned}
use real_time_systems.Os.{
  Env, Trace, SensorPacket, Address, Flow, next, return, After, and_then_inv, forever, forever_inv,
  connections, unix, paused, accepted,
}
use real_time_systems.SensorIo.{init_sensor}
use real_time_systems.Sockets.Inet
use real_time_systems.Sockets.Unix
use real_time_systems.Sockets.Unix.{sun_path_max}
use real_time_systems.SensorThread.{
  i2c_path, port_num, sock_path, Sender, sock_backlog, first_packet, send_change, sensor_round,
  sensor_loop, connect_inet, connect_unix, main_inet, main_unix,
}
use real_time_systems.SensorThread.Readings.{
  read_sensor-IsSecluded, init_sensor-IsSecluded, init_socket-IsSecluded, conn_socket-connections,
}

module _ (env : Env) (fuel : ℕ) (sensor_fd data_fd : ℤ) (cs : List Address) where
  -- The addresses connected to are still `cs`.
  abbrev Still : Sender → Trace → Type 0
  Still s t = connections t ≡ cs

  abbrev Stayed : Trace → Type 0
  Stayed t = connections t ≡ cs

  first_packet-Still :
      (p : SensorPacket) (t : Trace)
      → Stayed t
      → After Still Stayed (first_packet env fuel sensor_fd data_fd p t)
  unfolding first_packet
  first_packet-Still p t h = ground (arith, read_sensor-IsSecluded env fuel sensor_fd p t)

  sensor_round-Still :
      (s : Sender) (t : Trace)
      → Still s t
      → After Still Stayed (sensor_round env fuel sensor_fd data_fd s t)
  unfolding sensor_round send_change
  sensor_round-Still s t h =
      ground (arith, read_sensor-IsSecluded env fuel sensor_fd s.packet (paused 1 ∷ t))

  sensor_loop-Stayed :
      (rounds : ℕ) (p : SensorPacket) (t : Trace)
      → Stayed t
      → Stayed (sensor_loop env rounds fuel sensor_fd data_fd p t).1
  unfolding sensor_loop
  sensor_loop-Stayed rounds p t h =
      After-Stayed (sensor_loop env rounds fuel sensor_fd data_fd p t) (
        and_then_inv Still Stayed (first_packet env fuel sensor_fd data_fd p)
          (forever rounds (sensor_round env fuel sensor_fd data_fd)) t
          (forever_inv Still Stayed (sensor_round env fuel sensor_fd data_fd) sensor_round-Still
            rounds)
          (first_packet-Still p t h))
    where
      After-Stayed : (out : Option (Flow Sender) × Trace) → After Still Stayed out → Stayed out.1
      After-Stayed (none, t') h' = h'
      After-Stayed (some (next s), t') h' = h'
      After-Stayed (some (return r), t') h' = h'

module _ (env : Env) (rounds fuel : ℕ) (argv : List (List ℕ)) (p : SensorPacket) where
  connections-connect_inet :
      (fd : ℤ) (t : Trace)
      → connections (connect_inet env rounds fuel argv p fd t).1 ≡ connections t
  unfolding connect_inet
  connections-connect_inet fd t =
      let port = to_unsigned (env.atoi (get_or argv port_num [])) in
      let (conn, t1) = Inet.init_socket env none port sock_backlog t in
      let quiet = init_socket-IsSecluded env none port sock_backlog t in
      elim (Option-cases conn) [
        | inl hangs ↦ ground arith
        | inr (conn_fd, r) ↦
            let data_fd = env.accept_reply t1 conn_fd in
            ground (
              arith,
              sensor_loop-Stayed env fuel fd data_fd (connections t) rounds p
                  (accepted conn_fd data_fd ∷ t1),
            )
      ]

  connections-connect_unix :
      (fd : ℤ) (t : Trace)
      → let cs = connections (connect_unix env rounds fuel argv p fd t).1 in
        (cs ≡ connections t)
        ⊎ (cs ≡ unix (take sun_path_max (get_or argv sock_path [])) ∷ connections t)
  unfolding connect_unix
  connections-connect_unix fd t =
      let (sock, t1) = Unix.conn_socket env (get_or argv sock_path []) t in
      let quiet = (conn_socket-connections env (get_or argv sock_path []) t).1 in
      elim (Option-cases sock) [
        | inl hangs ↦ ground arith
        | inr (sock_fd, r) ↦ ground (
          arith,
          sensor_loop-Stayed env fuel fd sock_fd (connections t1) rounds p (paused 1 ∷ t1) refl,
        )
      ]

  -- Whatever the devices and the network do, in any number of rounds sensor_thread_inet connects to
  -- nothing; sensor_thread_unix connects once at most, to the path in `argv[2]`, as far as an address
  -- has room for it.
  pub connections-main :
      let cs = connections (main_unix env rounds fuel argv p []).1 in
      (connections (main_inet env rounds fuel argv p []).1 ≡ [])
      × ((cs ≡ []) ⊎ (cs ≡ unix (take sun_path_max (get_or argv sock_path [])) ∷ []))
  unfolding main_inet main_unix
  connections-main =
      let (sensor, t1) = init_sensor env fuel (get_or argv i2c_path []) [] in
      let quiet = init_sensor-IsSecluded env fuel (get_or argv i2c_path []) [] in
      elim (Option-cases sensor) [
        | inl hangs ↦ (ground arith, ground arith)
        | inr (fd, r) ↦ (
          ground (arith, connections-connect_inet fd t1),
          ground (arith, connections-connect_unix fd t1),
        )
      ]
