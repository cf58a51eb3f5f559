-- ===== src/Stepper/Setup.antt =====
-- What `main` of src/stepper.c does before its event loop: the pins, the server's socket, the worker.
-- A step that fails ends the program by `exit`.
pub mod Unlocked
pub mod FirstLevel
use real_time_systems.Base.{ℕ, ◌==◌, List, [], ◌∷◌, ◌++◌, get_or, codes, str_eq, if◌then◌else◌}
use real_time_systems.Base.Int.{ℤ, pos, neg, ltb_ℤ, eqb_ℤ, truthy, to_unsigned}
use real_time_systems.Os.{
  Env, Io, Flow, next, return, and_then, pure, ◌>>=◌, ◌>>◌, inet, open_file, write, close, socket,
  gethostname, bind, listen, epoll_create, epoll_add, pthread_create, pthread_detach, mutex_lock,
}
use real_time_systems.Sockets.Inet.{htons, inaddr_any}
use real_time_systems.Stepper.Rotate.{high, low}
use real_time_systems.Stepper.Gpio.{pin_args}

-- OUT
abbrev pub out_word : List ℕ
out_word = codes "out"

-- DIR_FMT and VALUE_FMT, printed with the name of a pin.
abbrev pub direction_path : List ℕ → List ℕ
direction_path name = codes "/sys/class/gpio/gpio" ++ name ++ codes "/direction"

abbrev pub value_path : List ℕ → List ℕ
value_path name = codes "/sys/class/gpio/gpio" ++ name ++ codes "/value"

-- DIR_NUM, PUL_NUM, DIRECTION, PORT_NUMBER and ARGS_NUMBER of `enum ARGS`.
abbrev pub dir_num : ℕ
dir_num = 2

abbrev pub pul_num : ℕ
pul_num = 3

abbrev pub direction_arg : ℕ
direction_arg = 4

abbrev pub port_number : ℕ
port_number = 5

abbrev pub args_number : ℕ
args_number = 6

-- SOCKET_BACKLOG_SIZE
abbrev pub socket_backlog_size : ℤ
socket_backlog_size = pos 255

abbrev pub exit_failure : ℤ
exit_failure = pos 1

abbrev pub stdin_fileno : ℤ
stdin_fileno = pos 0

-- The static descriptors.
pub record Pins : Type 0 where
  pub enable_fd : ℤ
  pub pulse_fd : ℤ
  pub direction_fd : ℤ

abbrev pub no_pins : Pins
no_pins = record { enable_fd = neg 1; pulse_fd = neg 1; direction_fd = neg 1 }

module _ (env : Env) (argv : List (List ℕ)) where
  -- "initialize direction": the loop over the pins that are left.
  unfoldable pub init_directions : List ℕ → Io (Flow (Unit {0}))
  init_directions [] = pure (next tt)
  init_directions (i ∷ rest) = do
    fd ← open_file env (direction_path (get_or argv i []))
    if eqb_ℤ fd (neg 1) then pure (return exit_failure) else do
      ret ← write env fd out_word
      if ltb_ℤ ret (pos 0) then pure (return exit_failure) else (close fd >> init_directions rest)

  -- The level that DIRECTION asks for.
  abbrev pub first_level : List ℕ
  first_level = if str_eq (get_or argv direction_arg []) (codes "+") then high else low

  -- "initialize value": the loop over the indices that are left.
  unfoldable pub init_values : List ℕ → Pins → Io (Flow Pins)
  init_values [] pins = pure (next pins)
  init_values (i ∷ rest) pins = do
    fd ← open_file env (value_path (get_or argv i []))
    if eqb_ℤ fd (neg 1) then pure (return exit_failure) else do
      ret ← write env fd (if i == dir_num then first_level else high)
      if ltb_ℤ ret (pos 0)
          then pure (return exit_failure)
          else if i == dir_num
          then init_values rest (record pins { direction_fd = fd })
          else init_values rest (record pins { enable_fd = fd })

  -- "start pulse initialization"
  unfoldable pub init_pulse : Pins → Io (Flow Pins)
  init_pulse pins = do
    fd ← open_file env (value_path (get_or argv pul_num []))
    if ltb_ℤ fd (pos 0) then pure (return exit_failure) else do
      ret ← write env fd low
      if ltb_ℤ ret (pos 0)
          then pure (return exit_failure)
          else pure (next (record pins { pulse_fd = fd }))

  -- From `socket` to the second `epoll_ctl`; the result is `connection_socket`.
  unfoldable pub open_server : Io (Flow ℤ)
  open_server = do
    let port = to_unsigned (env.atoi (get_or argv port_number []))
    connection_socket ← socket env
    if ltb_ℤ connection_socket (pos 0) then pure (return exit_failure) else do
      named ← gethostname env
      if ltb_ℤ named (pos 0) then pure (return exit_failure) else do
        bound ← bind env connection_socket (inet inaddr_any (htons port))
        if ltb_ℤ bound (pos 0) then pure (return exit_failure) else do
          listening ← listen env connection_socket socket_backlog_size
          if ltb_ℤ listening (pos 0) then pure (return exit_failure) else do
            epoll_fd ← epoll_create env
            if ltb_ℤ epoll_fd (pos 0) then pure (return exit_failure) else do
              serving ← epoll_add env connection_socket
              if ltb_ℤ serving (pos 0) then pure (return exit_failure) else do
                reading ← epoll_add env stdin_fileno
                if ltb_ℤ reading (pos 0)
                    then pure (return exit_failure)
                    else pure (next connection_socket)

  -- From `pthread_create` to the lock.
  unfoldable pub start_worker : Io (Flow (Unit {0}))
  start_worker = do
    created ← pthread_create env
    if truthy created then pure (return exit_failure) else do
      let_go ← pthread_detach env
      if truthy let_go then pure (return exit_failure) else (mutex_lock >> pure (next tt))
