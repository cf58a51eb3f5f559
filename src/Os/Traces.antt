-- ===== src/Os/Traces.antt =====
-- A trace: the system calls made so far, the latest first, with what they returned.
use real_time_systems.Base.{ℕ, suc, ◌≡◌, ◌++◌, Bool, List, [], ◌∷◌, take, if◌then◌else◌}
use real_time_systems.Base.Int.{ℤ, pos, pos_part, eqb_ℤ, ltb_ℤ}
use real_time_systems.Os.Types.{Timespec, SensorPacket, MotorPacket, Address, EpollEvent, Message}

pub data Event : Type 0 where
  wrote : (fd : ℤ) (bytes : List ℕ) (ret : ℤ) → Event
  did_read : (fd : ℤ) (len : ℕ) (ret : ℤ) (bytes : List ℕ) → Event
  opened : (path : List ℕ) (ret : ℤ) → Event
  closed : (fd : ℤ) → Event
  controlled : (fd : ℤ) (ret : ℤ) → Event
  clocked : (ret : ℤ) → Event
  slept : (ts : Timespec) (ret : ℤ) → Event
  paused : (seconds : ℕ) → Event
  made_socket : (ret : ℤ) → Event
  resolved : (host : List ℕ) (ret : ℤ) → Event
  bound : (fd : ℤ) (name : Address) (ret : ℤ) → Event
  listened : (fd backlog ret : ℤ) → Event
  got_hostname : (ret : ℤ) → Event
  connected : (fd : ℤ) (name : Address) (ret : ℤ) → Event
  accepted : (fd ret : ℤ) → Event
  unlinked : (path : List ℕ) → Event
  sent_sensor : (fd : ℤ) (packet : SensorPacket) (ret : ℤ) → Event
  sent_motor : (fd : ℤ) (packet : MotorPacket) (ret : ℤ) → Event
  received : (fd ret : ℤ) → Event
  made_epoll : (ret : ℤ) → Event
  epoll_added : (fd ret : ℤ) → Event
  epoll_deleted : (fd ret : ℤ) → Event
  waited : (ret : ℤ) → Event
  scanned : (ret : ℤ) → Event
  read_motor : (fd ret : ℤ) → Event
  made_thread : (ret : ℤ) → Event
  detached : (ret : ℤ) → Event
  looked : (value : ℤ) → Event
  locked : Event
  unlocked : Event
  printed : Message → Event

abbrev pub Trace : Type 0
Trace = List Event

-- What the operating system, the C library, the devices and the compiler answer, as a function of
-- what has happened so far. A reply that is an integer is the call's return value.
pub record Env : Type 0 where
  pub write_reply : Trace → ℤ → List ℕ → ℤ
  pub read_reply : Trace → ℤ → ℕ → ℤ × List ℕ
  pub open_reply : Trace → List ℕ → ℤ
  pub ioctl_reply : Trace → ℤ → ℤ
  pub clock_reply : Trace → ℤ × Timespec
  -- the return value, whether `errno` is EINTR, and the time that remains
  pub nanosleep_reply : Trace → Timespec → ℤ × Bool × Timespec
  pub socket_reply : Trace → ℤ
  -- the return value of `inet_aton`, and the address that it stores
  pub inet_aton_reply : List ℕ → ℤ × ℕ
  pub bind_reply : Trace → ℤ → Address → ℤ
  pub listen_reply : Trace → ℤ → ℤ → ℤ
  pub gethostname_reply : Trace → ℤ
  pub connect_reply : Trace → ℤ → Address → ℤ
  pub accept_reply : Trace → ℤ → ℤ
  pub send_sensor_reply : Trace → ℤ → SensorPacket → ℤ
  pub send_motor_reply : Trace → ℤ → MotorPacket → ℤ
  pub recv_reply : Trace → ℤ → ℤ × SensorPacket
  pub epoll_create_reply : Trace → ℤ
  pub epoll_add_reply : Trace → ℤ → ℤ
  pub epoll_delete_reply : Trace → ℤ → ℤ
  pub epoll_wait_reply : Trace → ℤ × List EpollEvent
  -- `scanf` of one word, of one number and of two words: the return value and what is stored
  pub scanf_word_reply : Trace → ℤ × List ℕ
  pub scanf_int_reply : Trace → ℤ × ℤ
  pub scanf_words_reply : Trace → ℤ × List ℕ × List ℕ
  -- `scanf` of a word and a number, and of a single character, with what is stored
  pub scanf_setting_reply : Trace → ℤ × List ℕ × ℤ
  pub scanf_char_reply : Trace → ℤ × ℕ
  -- `read` of a motor packet into a variable: the return value, and what the variable holds then
  pub read_motor_reply : Trace → ℤ → MotorPacket → ℤ × MotorPacket
  pub thread_create_reply : Trace → ℤ
  pub thread_detach_reply : Trace → ℤ
  -- what another thread has left in a variable that this one reads
  pub shared_reply : Trace → ℤ
  pub atoi : List ℕ → ℤ
  -- whether plain `char` is signed, and sizeof(sensor_packet_t)
  pub char_signed : Bool
  pub sizeof_sensor_packet : ℕ

-- The bytes that the system took on a descriptor, in order: the first `ret` of each write.
abbrev pub taken : ℤ → Trace → List ℕ
taken fd [] = []
taken fd (wrote d bytes ret ∷ t) =
    if eqb_ℤ d fd then taken fd t ++ take (pos_part ret) bytes else taken fd t
taken fd (_ ∷ t) = taken fd t

-- The bytes that the system delivered on a descriptor, in order.
abbrev pub delivered : ℤ → Trace → List ℕ
delivered fd [] = []
delivered fd (did_read d _ _ bytes ∷ t) =
    if eqb_ℤ d fd then delivered fd t ++ bytes else delivered fd t
delivered fd (_ ∷ t) = delivered fd t

-- The sensor packets given to `send`, the latest first.
abbrev pub sensor_packets : Trace → List SensorPacket
sensor_packets [] = []
sensor_packets (sent_sensor _ p _ ∷ t) = p ∷ sensor_packets t
sensor_packets (_ ∷ t) = sensor_packets t

-- The motor packets given to `send`, the latest first, with their descriptors.
abbrev pub motor_packets : Trace → List (ℤ × MotorPacket)
motor_packets [] = []
motor_packets (sent_motor fd p _ ∷ t) = (fd, p) ∷ motor_packets t
motor_packets (_ ∷ t) = motor_packets t

-- The addresses that the program has tried to connect to, the latest first.
abbrev pub connections : Trace → List Address
connections [] = []
connections (connected _ name _ ∷ t) = name ∷ connections t
connections (_ ∷ t) = connections t

-- A part of a sensor program sends nothing and connects to nothing.
abbrev pub IsSecluded : Trace → Trace → Type 0
IsSecluded t t' = (sensor_packets t' ≡ sensor_packets t) × (connections t' ≡ connections t)

-- The lines printed, the latest first.
abbrev pub messages : Trace → List Message
messages [] = []
messages (printed m ∷ t) = m ∷ messages t
messages (_ ∷ t) = messages t

-- The calls of `recv` that have come back, and the motor packets that `send` has taken.
abbrev pub receipts : Trace → ℕ
receipts [] = 0
receipts (received _ _ ∷ t) = suc (receipts t)
receipts (_ ∷ t) = receipts t

abbrev pub deliveries : Trace → ℕ
deliveries [] = 0
deliveries (sent_motor _ _ ret ∷ t) = if ltb_ℤ ret (pos 0) then deliveries t else suc (deliveries t)
deliveries (_ ∷ t) = deliveries t

-- What others see of a controller.
pub record View : Type 0 where
  pub packets : List (ℤ × MotorPacket)
  pub lines : List Message
  pub targets : List Address
  pub taken_in : ℕ
  pub given_out : ℕ

abbrev pub view : Trace → View
view t = record {
  packets = motor_packets t;
  lines = messages t;
  targets = connections t;
  taken_in = receipts t;
  given_out = deliveries t;
}
