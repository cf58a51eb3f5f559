-- ===== src/Control/Inet/Examples.antt =====
-- A run of control_thread_inet.
use real_time_systems.Base.{
  ℕ, suc, Bool, if◌then◌else◌, ◌==◌, ◌≡◌, refl, true, false, arith, List, [], ◌∷◌,
}
use real_time_systems.Base.Int.{ℤ, pos}
use real_time_systems.Os.{
  Env, Trace, EpollEvent, waited, accepted, forever, MotorPacket, motor_packets,
}
use real_time_systems.Os.Examples.{calm, noon}
use real_time_systems.SensorThread.Examples.{dim_packet}
use real_time_systems.Sockets.Inet
use real_time_systems.Control.Inet.Globals.{Undefined}
use real_time_systems.Control.Inet.Update.{update, send_command}
use real_time_systems.Control.Inet.Update.Policy.{IsSound}
use real_time_systems.Control.Inet.Input.{use_sensor}
use real_time_systems.Control.Inet.Handlers.{
  run_update, handle_indoor, handle_outdoor, handle_input, handle_connection, ask_side,
}
use real_time_systems.Control.Inet.Main.{main, control_round, handle_events, handle_event}

abbrev pub stop_packet : MotorPacket
stop_packet = record { timestamp = noon; sequence = 4; direction = pos 0; turns = pos 0 }

abbrev pub undef : Undefined
undef = record { indoor_sym = b'i' ∷ []; outdoor_sym = b'o' ∷ []; sock_backlog = pos 8 }

-- The program's name and the port.
abbrev pub argv : List (List ℕ)
argv = (b'c' ∷ []) ∷ (b'9' ∷ []) ∷ []

-- The rounds begun, and whether a sensor has connected.
abbrev pub begun : Trace → ℕ
begun [] = 0
begun (waited _ ∷ t) = suc (begun t)
begun (_ ∷ t) = begun t

abbrev pub has_sensor : Trace → Bool
has_sensor [] = false
has_sensor (accepted _ _ ∷ t) = true
has_sensor (_ ∷ t) = has_sensor t

abbrev pub input_on : ℤ → EpollEvent
input_on fd = record { epollin = true; epollrdhup = false; epollhup = false; fd = fd }

-- In two rounds a sensor connects, indoor first, in the third both report a dim room.
abbrev pub busy : Env
busy = record calm {
  accept_reply = λ t fd. if has_sensor t then pos 9 else pos 8;
  scanf_word_reply = λ t. (pos 1, if begun t == 1 then b'i' ∷ [] else b'o' ∷ []);
  recv_reply = λ t fd. (pos 32, dim_packet);
  epoll_wait_reply = λ t.
      if begun t == 2
      then (pos 2, input_on (pos 8) ∷ input_on (pos 9) ∷ [])
      else (pos 1, input_on (pos 7) ∷ []);
}

-- The readings are in the comfortable zone: one packet, to stop.
pub busy_run :
    motor_packets (main busy undef 9 3 argv []).1
    ≡ (pos 0, record stop_packet { sequence = 0 }) ∷ []
unfolding main control_round handle_events handle_event forever Inet.init_socket handle_input
    handle_connection ask_side handle_indoor handle_outdoor run_update use_sensor update
    send_command
busy_run = refl

-- Its clock works, and all its packets are taken.
pub busy-IsSound : IsSound busy
busy-IsSound = record { clock = λ t. omega arith; sends = λ t fd p. omega arith }
