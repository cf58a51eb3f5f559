-- ===== src/SensorThread/Readings.antt =====
-- What the loop needs to know of `read_sensor` and the opening of sockets, whatever the device does.
use real_time_systems.Base.{
  ℕ, ◌≡◌, refl, ◌⊎◌, inl, inr, Bool, Option, none, some, List, [], ◌∷◌, arith, take,
}
use real_time_systems.Base.Int.{ℤ, pos, negsuc, ◌+ℤ◌, ◌-ℤ◌, int_laws}
use real_time_systems.Os.{
  Env, Trace, SensorPacket, opened, controlled, sensor_packets, connections, IsSecluded, unix,
}
use real_time_systems.BlockingIo.{blocking_write}
use real_time_systems.BlockingIo.Quiet.{blocking_write-IsSecluded, blocking_read-IsSecluded}
use real_time_systems.SensorIo.{
  reformat, init_sensor, read_sensor, read_reg, control_reg, timing_reg,
}
use real_time_systems.Sockets.Inet
use real_time_systems.Sockets.Unix
use real_time_systems.Sockets.Unix.{sun_path_max}

-- Visible light is what is left of the full intensity without the infrared.
abbrev pub IsBalanced : SensorPacket → Type 0
IsBalanced p = p.visible +ℤ p.infrared ≡ p.full

sub_add : (a b : ℤ) → (a -ℤ b) +ℤ b ≡ a
sub_add a b = omega int_laws

reformat-IsBalanced :
    (signed : Bool) (bytes : List ℕ) (p : SensorPacket) → IsBalanced (reformat signed bytes p)
unfolding reformat
reformat-IsBalanced signed bytes p =
    sub_add (reformat signed bytes p).full (reformat signed bytes p).infrared

-- The ways that a reading ends: not at all, with an error, or with a balanced packet.
abbrev pub Reading : Option (ℤ × SensorPacket) → Type 0
Reading r =
    (r ≡ none)
    ⊎ ((n : ℕ) × (q : SensorPacket) × (r ≡ some (negsuc n, q)))
    ⊎ ((n : ℕ) × (q : SensorPacket) × (r ≡ some (pos n, q)) × IsBalanced q)

Reading-cases :
    (r : Option (ℤ × SensorPacket))
    → ((n : ℕ) (q : SensorPacket) → r ≡ some (pos n, q) → IsBalanced q)
    → Reading r
Reading-cases none h = inl refl
Reading-cases (some (negsuc n, q)) h = inr (inl (n, q, refl))
Reading-cases (some (pos n, q)) h = inr (inr (n, q, refl, h n q refl))

IsBalanced-Reading :
    (env : Env) (fuel : ℕ) (fd : ℤ) (p q : SensorPacket) (n : ℕ) (t : Trace)
    → (read_sensor env fuel fd p t).0 ≡ some (pos n, q)
    → IsBalanced q
unfolding read_sensor
IsBalanced-Reading env fuel fd p q n t e = grind (arith, reformat-IsBalanced)

pub read_sensor-Reading :
    (env : Env) (fuel : ℕ) (fd : ℤ) (p : SensorPacket) (t : Trace)
    → Reading (read_sensor env fuel fd p t).0
read_sensor-Reading env fuel fd p t =
    Reading-cases _ (λ n q e. IsBalanced-Reading env fuel fd p q n t e)

pub read_sensor-IsSecluded :
    (env : Env) (fuel : ℕ) (fd : ℤ) (p : SensorPacket) (t : Trace)
    → IsSecluded t (read_sensor env fuel fd p t).1
unfolding read_sensor
read_sensor-IsSecluded env fuel fd p t = ground (
  arith,
  blocking_write-IsSecluded env fuel fd read_reg 1 t,
  blocking_read-IsSecluded env fuel fd (0 ∷ 0 ∷ 0 ∷ 0 ∷ []) 4
      (blocking_write env fuel fd read_reg 1 t).1,
)

pub init_sensor-IsSecluded :
    (env : Env) (fuel : ℕ) (bus : List ℕ) (t : Trace) → IsSecluded t (init_sensor env fuel bus t).1
unfolding init_sensor
init_sensor-IsSecluded env fuel bus t =
    let fd = env.open_reply t bus in
    let t1 = opened bus fd ∷ t in
    let t2 = controlled fd (env.ioctl_reply t1 fd) ∷ t1 in
    let t3 = (blocking_write env fuel fd control_reg 2 t2).1 in
    ground (
      arith,
      blocking_write-IsSecluded env fuel fd control_reg 2 t2,
      blocking_write-IsSecluded env fuel fd timing_reg 2 t3,
    )

pub init_socket-IsSecluded :
    (env : Env) (host : Option (List ℕ)) (port : ℕ) (backlog : ℤ) (t : Trace)
    → IsSecluded t (Inet.init_socket env host port backlog t).1
unfolding Inet.init_socket
init_socket-IsSecluded env host port backlog t = ground arith

-- The socket of sensor_thread_unix is connected once at most.
pub conn_socket-connections :
    (env : Env) (sock : List ℕ) (t : Trace)
    → let t' = (Unix.conn_socket env sock t).1 in
      (sensor_packets t' ≡ sensor_packets t)
      × ((connections t' ≡ connections t)
          ⊎ (connections t' ≡ unix (take sun_path_max sock) ∷ connections t))
unfolding Unix.conn_socket
conn_socket-connections env sock t = ground arith
