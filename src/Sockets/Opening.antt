-- ===== src/Sockets/Opening.antt =====
-- What it takes for a socket to open, and what a failed attempt leaves behind.
use real_time_systems.Base.{
  ℕ, ◌%◌, ◌^◌, ◌≡◌, ◌≢◌, ◌⊎◌, Option, none, some, List, [], ◌∷◌, take, arith,
}
use real_time_systems.Base.Int.{ℤ, pos, ◌≤ℤ◌, ◌<ℤ◌}
use real_time_systems.Os.{
  Env, Trace, closed, made_socket, resolved, bound, listened, got_hostname, connected, inet, unix,
}
use real_time_systems.Sockets.Inet
use real_time_systems.Sockets.Unix
use real_time_systems.Sockets.Unix.{sun_path_max}

-- The descriptors closed so far.
abbrev pub closed_fds : Trace → List ℤ
closed_fds [] = []
closed_fds (closed fd ∷ t) = fd ∷ closed_fds t
closed_fds (_ ∷ t) = closed_fds t

-- If `init_socket` with no host returns a value that is not negative, it is the new socket, bound to
-- every address at the port's low 16 bits, and listening; nothing else was called.
init_socket-listens :
    (env : Env) (port : ℕ) (backlog v : ℤ) (t : Trace)
    → (Inet.init_socket env none port backlog t).0 ≡ some v
    → pos 0 ≤ℤ v
    → let t1 = made_socket v ∷ t in
      let name = inet 0 (port % 2 ^ 16) in
      let bind_ret = env.bind_reply t1 v name in
      let t2 = bound v name bind_ret ∷ t1 in
      let listen_ret = env.listen_reply t2 v backlog in
      let t3 = listened v backlog listen_ret ∷ t2 in
      let hostname_ret = env.gethostname_reply t3 in
      (v ≡ env.socket_reply t)
      × (pos 0 ≤ℤ bind_ret)
      × (pos 0 ≤ℤ listen_ret)
      × (pos 0 ≤ℤ hostname_ret)
      × ((Inet.init_socket env none port backlog t).1 ≡ got_hostname hostname_ret ∷ t3)
unfolding Inet.init_socket
init_socket-listens env port backlog v t e h = ground arith

-- `conn_socket` over inet takes the success of `inet_aton` for a failure: for a host that `inet_aton`
-- accepts, it returns a negative value, and calls nothing after `inet_aton`.
conn_socket-valid_host :
    (env : Env) (host : List ℕ) (port : ℕ) (t : Trace)
    → (env.inet_aton_reply host).0 ≢ pos 0
    → ((v : ℤ) → (Inet.conn_socket env host port t).0 ≡ some v → v <ℤ pos 0)
      × (((Inet.conn_socket env host port t).1 ≡ made_socket (env.socket_reply t) ∷ t)
          ⊎ ((Inet.conn_socket env host port t).1
              ≡ resolved host (env.inet_aton_reply host).0 ∷ made_socket (env.socket_reply t) ∷ t))
unfolding Inet.conn_socket
conn_socket-valid_host env host port t h = (λ v e. ground arith, ground arith)

-- Where a host that is not accepted leaves the address at 0, a value of `conn_socket` over inet that
-- is not negative is a socket connected to address 0, whatever the host was.
conn_socket-address :
    (env : Env) (host : List ℕ) (port : ℕ) (v : ℤ) (t : Trace)
    → ((env.inet_aton_reply host).0 ≡ pos 0 → (env.inet_aton_reply host).1 ≡ 0)
    → (Inet.conn_socket env host port t).0 ≡ some v
    → pos 0 ≤ℤ v
    → let t2 = resolved host (pos 0) ∷ made_socket v ∷ t in
      (Inet.conn_socket env host port t).1
      ≡ connected v (inet 0 (port % 2 ^ 16)) (env.connect_reply t2 v (inet 0 (port % 2 ^ 16))) ∷ t2
unfolding Inet.conn_socket
conn_socket-address env host port v t untouched e h = ground arith

-- No branch of the four ways to open a socket closes a descriptor, so an attempt that fails after
-- `socket` succeeded keeps the socket open.
sockets-never_close :
    (env : Env) (host : Option (List ℕ)) (name : List ℕ) (port : ℕ) (backlog : ℤ) (t : Trace)
    → (closed_fds (Inet.init_socket env host port backlog t).1 ≡ closed_fds t)
      × (closed_fds (Inet.conn_socket env name port t).1 ≡ closed_fds t)
      × (closed_fds (Unix.init_socket env name backlog t).1 ≡ closed_fds t)
      × (closed_fds (Unix.conn_socket env name t).1 ≡ closed_fds t)
unfolding Inet.init_socket Inet.conn_socket Unix.init_socket Unix.conn_socket
sockets-never_close env host name port backlog t =
    (ground arith, ground arith, ground arith, ground arith)

-- If `conn_socket` over unix returns a value that is not negative, it is the new socket, connected to
-- the first 107 bytes of the path.
conn_socket-path :
    (env : Env) (sock : List ℕ) (v : ℤ) (t : Trace)
    → (Unix.conn_socket env sock t).0 ≡ some v
    → pos 0 ≤ℤ v
    → let t1 = made_socket v ∷ t in
      let ret = env.connect_reply t1 v (unix (take sun_path_max sock)) in
      (v ≡ env.socket_reply t)
      × (pos 0 ≤ℤ ret)
      × ((Unix.conn_socket env sock t).1 ≡ connected v (unix (take sun_path_max sock)) ret ∷ t1)
unfolding Unix.conn_socket
conn_socket-path env sock v t e h = ground arith
