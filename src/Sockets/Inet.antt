-- ===== src/Sockets/Inet.antt =====
-- src/socket_inet.c: listen on a port, and connect to a host and port.
use real_time_systems.Base.{ℕ, ◌%◌, ◌^◌, List, Option, none, some, if◌then◌else◌}
use real_time_systems.Base.Int.{ℤ, pos, neg, ltb_ℤ, truthy}
use real_time_systems.Errors.{
  success, err_socket, err_bind, err_listen, err_connect, err_hostname, code,
}
use real_time_systems.Os.{
  Env, Io, pure, ◌>>=◌, inet, socket, inet_aton, bind, listen, gethostname, connect,
}

-- `htons(port)`: the port as 16 bits. (The order of its bytes plays no part.)
abbrev pub htons : ℕ → ℕ
htons port = port % 2 ^ 16

-- INADDR_ANY
abbrev pub inaddr_any : ℕ
inaddr_any = 0

module _ (env : Env) where
  -- `init_socket` from the call of `bind` on.
  pub serve : ℤ → ℕ → ℕ → ℤ → Io ℤ
  serve fd addr port backlog = do
    bound ← bind env fd (inet addr (htons port))
    if ltb_ℤ bound (pos (code success)) then pure (neg (code err_bind)) else do
      listening ← listen env fd backlog
      if ltb_ℤ listening (pos (code success)) then pure (neg (code err_listen)) else do
        named ← gethostname env
        if ltb_ℤ named (pos 0) then pure (neg (code err_hostname)) else pure fd

  -- `host` is `none` for a null pointer.
  unfoldable pub init_socket : Option (List ℕ) → ℕ → ℤ → Io ℤ
  unfolding serve
  init_socket host port backlog = do
    fd ← socket env
    if ltb_ℤ fd (pos (code success)) then pure (neg (code err_socket)) else elim host [
      | none ↦ serve fd inaddr_any port backlog
      | some name ↦ do
        resolved ← inet_aton env name
        if truthy resolved.0
            then pure (neg (code err_hostname))
            else serve fd resolved.1 port backlog
    ]

  unfoldable pub conn_socket : List ℕ → ℕ → Io ℤ
  conn_socket host port = do
    fd ← socket env
    if ltb_ℤ fd (pos (code success)) then pure (neg (code err_socket)) else do
      resolved ← inet_aton env host
      if truthy resolved.0 then pure (neg (code err_hostname)) else do
        joined ← connect env fd (inet resolved.1 (htons port))
        if ltb_ℤ joined (pos (code success)) then pure (neg (code err_connect)) else pure fd
