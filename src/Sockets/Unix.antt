-- ===== src/Sockets/Unix.antt =====
-- src/socket_unix.c: the same over a path in the file system, and the two packet calls.
use real_time_systems.Base.{ℕ, List, take, if◌then◌else◌}
use real_time_systems.Base.Int.{ℤ, pos, neg, ltb_ℤ}
use real_time_systems.Errors.{success, err_socket, err_bind, err_listen, err_connect, code}
use real_time_systems.Os.{
  Env, Io, pure, ◌>>=◌, SensorPacket, unix, socket, bind, listen, connect, send_sensor, recv,
}

-- sizeof(name.sun_path) - 1 on Linux.
abbrev pub sun_path_max : ℕ
sun_path_max = 107

module _ (env : Env) where
  unfoldable pub init_socket : List ℕ → ℤ → Io ℤ
  init_socket sock backlog = do
    fd ← socket env
    if ltb_ℤ fd (pos (code success)) then pure (neg (code err_socket)) else do
      bound ← bind env fd (unix (take sun_path_max sock))
      if ltb_ℤ bound (pos (code success)) then pure (neg (code err_bind)) else do
        listening ← listen env fd backlog
        if ltb_ℤ listening (pos (code success)) then pure (neg (code err_listen)) else pure fd

  unfoldable pub conn_socket : List ℕ → Io ℤ
  conn_socket sock = do
    fd ← socket env
    if ltb_ℤ fd (pos (code success)) then pure (neg (code err_socket)) else do
      joined ← connect env fd (unix (take sun_path_max sock))
      if ltb_ℤ joined (pos (code success)) then pure (neg (code err_connect)) else pure fd

  -- The number of bytes sent, or a negative value.
  unfoldable pub send_packet : ℤ → SensorPacket → Io ℤ
  send_packet fd packet = send_sensor env fd packet

  -- With MSG_WAITALL: the whole packet, unless the peer closes or the call fails.
  unfoldable pub recv_packet : ℤ → Io (ℤ × SensorPacket)
  recv_packet fd = recv env fd
