-- ===== src/Curtain/Tests.antt =====
-- A packet of the controller, served by the motor thread.
use real_time_systems.Base.{ℕ, List, codes, ◌≡◌, refl, true, false, some, [], ◌∷◌, arith}
use real_time_systems.Base.Int.{pos, neg}
use real_time_systems.Os.{Env, MotorPacket, EpollEvent, next, forever}
use real_time_systems.Os.Examples.{calm}
use real_time_systems.Control.Inet.Examples.{stop_packet}
use real_time_systems.Stepper.Gpio.{set_direction, export, unexport}
use real_time_systems.Stepper.Threads.{
  main_thread, idle, called, testing, System, main_step, IsReachable, at_start, later, by_main,
}
use real_time_systems.Stepper.Threads.Commands.{Serves, begun, main_on}
use real_time_systems.Stepper.Events.{
  motor_round, handle_motor_events, handle_motor_event, handle_packet, obey_packet,
}
use real_time_systems.Stepper.Main
use real_time_systems.Stepper.Main.{motor_from, start_up, serve_commands}
use real_time_systems.Stepper.Setup.{
  init_directions, init_values, init_pulse, open_server, start_worker,
}
use real_time_systems.Stepper.Sequence.{seq_rotate, rotate_and_restore}
use real_time_systems.Control.Inet.Main.{main}

-- The motor thread waits for a command, and gets one to stop.
abbrev ready : System
ready = record { working = pos 0; owner = some main_thread; main = idle; worker = testing }

abbrev commanded : System
commanded = record ready { main = called (pos 0) }

commanded-IsReachable : IsReachable commanded
unfolding main_step
commanded-IsReachable = later (later at_start (by_main (pos 0) refl)) (by_main (pos 0) refl)

commanded-Serves : Serves 2 commanded ready
unfolding main_step
commanded-Serves = main_on (main_on begun (ground arith) refl) (ground arith) refl

abbrev first : MotorPacket
first = record stop_packet { sequence = 0 }

abbrev delivering : Env
delivering = record calm { read_motor_reply = λ t fd packet. (pos 32, first) }

abbrev command : EpollEvent
command = record { epollin = true; epollrdhup = false; epollhup = false; fd = pos 8 }

-- The packet comes again and again.
abbrev remote : Env
remote = record delivering {
  read_reply = λ t fd len. (neg 1, []);
  epoll_wait_reply = λ t. (pos 1, command ∷ []);
}

-- The program's name, the three pins, the direction and the port.
abbrev stepper_argv : List (List ℕ)
stepper_argv =
    codes "stepper" ∷ codes "17" ∷ codes "27" ∷ codes "22" ∷ codes "-" ∷ codes "9000" ∷ []

-- stepper serves that packet, one to stop, in the first of its two rounds and in the second.
remote_run :
    (Main.main remote 9 2 stepper_argv (record first { turns = neg 1 }) []).0
    ≡ some (next (record (motor_from stepper_argv first) { in_packet = first }))
unfolding Main.main start_up serve_commands init_directions init_values init_pulse open_server
    start_worker export unexport motor_round handle_motor_events handle_motor_event handle_packet
    obey_packet set_direction seq_rotate rotate_and_restore forever
remote_run = refl
