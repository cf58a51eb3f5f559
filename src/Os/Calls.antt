-- ===== src/Os/Calls.antt =====
-- Programs over a trace, and the system calls as such programs.
use real_time_systems.Base.{ℕ, Bool, List, ◌∷◌, Option, none, some}
use real_time_systems.Base.Int.{ℤ}
use real_time_systems.Os.Types.{Timespec, SensorPacket, MotorPacket, Address, EpollEvent, Message}
use real_time_systems.Os.Traces.{
  Event, wrote, did_read, opened, closed, controlled, clocked, looked, slept, paused, made_socket,
  resolved, bound, listened, got_hostname, connected, accepted, unlinked, sent_sensor, sent_motor,
  received, made_epoll, epoll_added, epoll_deleted, waited, scanned, printed, read_motor,
  made_thread, detached, locked, unlocked, Trace, Env,
}

-- `none` is a loop that has used up its fuel: the program still runs. Its trace is kept.
abbrev pub Io : Type 0 → Type 0
Io A = Trace → Option A × Trace

abbrev pub pure : {A : Type 0} → A → Io A
pure a t = (some a, t)

abbrev pub out_of_fuel : {A : Type 0} → Io A
out_of_fuel t = (none, t)

infixl 5 ◌>>=◌ ◌>>◌
abbrev pub ◌>>=◌ : {A B : Type 0} → Io A → (A → Io B) → Io B
◌>>=◌ m f t = let (r, t') = m t in elim r [ none ↦ (none, t') | some a ↦ f a t' ]

abbrev pub ◌>>◌ : {A B : Type 0} → Io A → Io B → Io B
m >> k = m >>= λ _. k

-- A call that returns `ret` and is recorded as `e`.
abbrev pub emit : Event → Io (Unit {0})
emit e t = (some tt, e ∷ t)

module _ (env : Env) where
  abbrev pub write : ℤ → List ℕ → Io ℤ
  write fd bytes t = let ret = env.write_reply t fd bytes in (some ret, wrote fd bytes ret ∷ t)

  abbrev pub read : ℤ → ℕ → Io (ℤ × List ℕ)
  read fd len t =
      let (ret, bytes) = env.read_reply t fd len in
      (some (ret, bytes), did_read fd len ret bytes ∷ t)

  abbrev pub open_file : List ℕ → Io ℤ
  open_file path t = let ret = env.open_reply t path in (some ret, opened path ret ∷ t)

  abbrev pub ioctl : ℤ → Io ℤ
  ioctl fd t = let ret = env.ioctl_reply t fd in (some ret, controlled fd ret ∷ t)

  abbrev pub clock_gettime : Io (ℤ × Timespec)
  clock_gettime t = (some (env.clock_reply t), clocked (env.clock_reply t).0 ∷ t)

  abbrev pub nanosleep : Timespec → Io (ℤ × Bool × Timespec)
  nanosleep ts t = (some (env.nanosleep_reply t ts), slept ts (env.nanosleep_reply t ts).0 ∷ t)

  abbrev pub socket : Io ℤ
  socket t = let ret = env.socket_reply t in (some ret, made_socket ret ∷ t)

  abbrev pub inet_aton : List ℕ → Io (ℤ × ℕ)
  inet_aton host t =
      (some (env.inet_aton_reply host), resolved host (env.inet_aton_reply host).0 ∷ t)

  abbrev pub bind : ℤ → Address → Io ℤ
  bind fd name t = let ret = env.bind_reply t fd name in (some ret, bound fd name ret ∷ t)

  abbrev pub listen : ℤ → ℤ → Io ℤ
  listen fd backlog t =
      let ret = env.listen_reply t fd backlog in (some ret, listened fd backlog ret ∷ t)

  abbrev pub gethostname : Io ℤ
  gethostname t = let ret = env.gethostname_reply t in (some ret, got_hostname ret ∷ t)

  abbrev pub connect : ℤ → Address → Io ℤ
  connect fd name t = let ret = env.connect_reply t fd name in (some ret, connected fd name ret ∷ t)

  abbrev pub accept : ℤ → Io ℤ
  accept fd t = let ret = env.accept_reply t fd in (some ret, accepted fd ret ∷ t)

  abbrev pub send_sensor : ℤ → SensorPacket → Io ℤ
  send_sensor fd packet t =
      let ret = env.send_sensor_reply t fd packet in (some ret, sent_sensor fd packet ret ∷ t)

  abbrev pub send_motor : ℤ → MotorPacket → Io ℤ
  send_motor fd packet t =
      let ret = env.send_motor_reply t fd packet in (some ret, sent_motor fd packet ret ∷ t)

  abbrev pub recv : ℤ → Io (ℤ × SensorPacket)
  recv fd t = (some (env.recv_reply t fd), received fd (env.recv_reply t fd).0 ∷ t)

  abbrev pub epoll_create : Io ℤ
  epoll_create t = let ret = env.epoll_create_reply t in (some ret, made_epoll ret ∷ t)

  abbrev pub epoll_add : ℤ → Io ℤ
  epoll_add fd t = let ret = env.epoll_add_reply t fd in (some ret, epoll_added fd ret ∷ t)

  abbrev pub epoll_delete : ℤ → Io ℤ
  epoll_delete fd t = let ret = env.epoll_delete_reply t fd in (some ret, epoll_deleted fd ret ∷ t)

  abbrev pub epoll_wait : Io (ℤ × List EpollEvent)
  epoll_wait t = (some (env.epoll_wait_reply t), waited (env.epoll_wait_reply t).0 ∷ t)

  abbrev pub scanf_word : Io (ℤ × List ℕ)
  scanf_word t = (some (env.scanf_word_reply t), scanned (env.scanf_word_reply t).0 ∷ t)

  abbrev pub scanf_int : Io (ℤ × ℤ)
  scanf_int t = (some (env.scanf_int_reply t), scanned (env.scanf_int_reply t).0 ∷ t)

  abbrev pub scanf_words : Io (ℤ × List ℕ × List ℕ)
  scanf_words t = (some (env.scanf_words_reply t), scanned (env.scanf_words_reply t).0 ∷ t)

  abbrev pub scanf_setting : Io (ℤ × List ℕ × ℤ)
  scanf_setting t = (some (env.scanf_setting_reply t), scanned (env.scanf_setting_reply t).0 ∷ t)

  abbrev pub scanf_char : Io (ℤ × ℕ)
  scanf_char t = (some (env.scanf_char_reply t), scanned (env.scanf_char_reply t).0 ∷ t)

  -- `read(fd, &packet, sizeof(motor_packet_t))`
  abbrev pub read_packet : ℤ → MotorPacket → Io (ℤ × MotorPacket)
  read_packet fd packet t = (
    some (env.read_motor_reply t fd packet),
    read_motor fd (env.read_motor_reply t fd packet).0 ∷ t,
  )

  abbrev pub pthread_create : Io ℤ
  pthread_create t = let ret = env.thread_create_reply t in (some ret, made_thread ret ∷ t)

  abbrev pub pthread_detach : Io ℤ
  pthread_detach t = let ret = env.thread_detach_reply t in (some ret, detached ret ∷ t)

  -- A read of a `volatile` variable that another thread writes.
  abbrev pub look : Io ℤ
  look t = let value = env.shared_reply t in (some value, looked value ∷ t)

-- The mutex of the motor. The call to lock it is recorded when it returns.
abbrev pub mutex_lock : Io (Unit {0})
mutex_lock = emit locked

abbrev pub mutex_unlock : Io (Unit {0})
mutex_unlock = emit unlocked

abbrev pub close : ℤ → Io (Unit {0})
close fd = emit (closed fd)

-- `sleep(seconds)`
abbrev pub sleep : ℕ → Io (Unit {0})
sleep seconds = emit (paused seconds)

abbrev pub print : Message → Io (Unit {0})
print m = emit (printed m)

abbrev pub unlink : List ℕ → Io (Unit {0})
unlink path = emit (unlinked path)
