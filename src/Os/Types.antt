-- ===== src/Os/Types.antt =====
-- The data that crosses the boundary: src/sensor_packet.h, src/motor_packet.h, `struct timespec`,
-- socket addresses, the events of epoll, and the messages that stand for the lamp.
use real_time_systems.Base.{ℕ, Bool, List}
use real_time_systems.Base.Int.{ℤ}

pub record Timespec : Type 0 where
  pub tv_sec : ℤ
  pub tv_nsec : ℤ

-- `sensor_packet_t`
pub record SensorPacket : Type 0 where
  pub timestamp : Timespec
  pub sequence : ℕ
  pub full : ℤ
  pub infrared : ℤ
  pub visible : ℤ

-- `motor_packet_t`
pub record MotorPacket : Type 0 where
  pub timestamp : Timespec
  pub sequence : ℕ
  pub direction : ℤ
  pub turns : ℤ

-- `struct sockaddr_in` (the address as a number, the port as 16 bits) and `struct sockaddr_un`.
pub data Address : Type 0 where
  inet : (addr port : ℕ) → Address
  unix : (path : List ℕ) → Address

-- `struct epoll_event`, with the bits of its mask that the programs test.
pub record EpollEvent : Type 0 where
  pub epollin : Bool
  pub epollrdhup : Bool
  pub epollhup : Bool
  pub fd : ℤ

-- What `update` prints. It drives no lamp but by these lines.
pub data Message : Type 0 where
  raising_curtain lowering_curtain stopping_curtain no_motor : Message
  too_dim too_bright light_turned_on light_turned_off no_light : Message
