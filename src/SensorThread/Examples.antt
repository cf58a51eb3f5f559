-- ===== src/SensorThread/Examples.antt =====
-- Runs of sensor_thread_unix and sensor_thread_inet in a dim room.
use real_time_systems.Base.{◌≡◌, refl, List, [], ◌∷◌, ℕ}
use real_time_systems.Base.Int.{pos}
use real_time_systems.Os.{Env, SensorPacket, sensor_packets, forever}
use real_time_systems.Os.Examples.{calm, blank_packet}
use real_time_systems.BlockingIo.{blocking_write, blocking_read}
use real_time_systems.SensorIo.{init_sensor, read_sensor, reformat}
use real_time_systems.Sockets.Inet
use real_time_systems.Sockets.Unix
use real_time_systems.SensorThread.{
  first_packet, sensor_loop, connect_unix, main_unix, connect_inet, main_inet,
}

-- The program's name, the bus, and the port or the path.
abbrev pub argv : List (List ℕ)
argv = (b's' ∷ []) ∷ (b'i' ∷ []) ∷ (b'9' ∷ []) ∷ []

-- A sensor that answers full 0x0210 and infrared 0x0190.
abbrev pub dim_room : Env
dim_room = record calm { read_reply = λ t fd n. (pos 4, 0x10 ∷ 0x02 ∷ 0x90 ∷ 0x01 ∷ []) }

abbrev pub dim_packet : SensorPacket
dim_packet = record blank_packet { full = pos 528; infrared = pos 400; visible = pos 128 }

-- Before the loop, one packet.
pub dim_run : sensor_packets (main_unix dim_room 0 9 argv blank_packet []).1 ≡ dim_packet ∷ []
unfolding main_unix connect_unix sensor_loop first_packet forever init_sensor read_sensor
    blocking_write blocking_read reformat Unix.conn_socket
dim_run = refl

-- The same of the other program, whose socket is another.
dim_inet_run : sensor_packets (main_inet dim_room 0 9 argv blank_packet []).1 ≡ dim_packet ∷ []
unfolding main_inet connect_inet sensor_loop first_packet forever init_sensor read_sensor
    blocking_write blocking_read reformat Inet.init_socket
dim_inet_run = refl
