-- ===== src/Sensing/Tests.antt =====
-- A packet of sensor_thread_unix at control_thread_unix.
use real_time_systems.Base.{
  ℕ, List, some, true, false, length, codes, ◌==◌, ◌≡◌, refl, inl, [], ◌∷◌, if◌then◌else◌, arith,
}
use real_time_systems.Base.Int.{pos, ltb_ℤ, ◌-ℤ◌}
use real_time_systems.Os.{Env, Trace, next, pure, received, clocked, After, forever}
use real_time_systems.Os.Examples.{calm, blank_packet}
use real_time_systems.SensorThread.Examples.{argv, dim_room, dim_packet, dim_run}
use real_time_systems.Control.Unix.Loop.{
  Watch, watch_from, decide, read_indoor, read_outdoor, watch_round, watch_events, watch_event,
  watch_input, watch_hangup, handle_sensor, ask_sensor,
}
use real_time_systems.Control.Unix.Input.{use_sensor}
use real_time_systems.Control.Unix.{update, set_lamp}
use real_time_systems.Sockets
use real_time_systems.Sensing.{main_unix-decide}
use real_time_systems.Sensing.Readings.{Run, IsReading}
use real_time_systems.Sensing.Whole.{mains-AreReadings}
use real_time_systems.Control.Unix
use real_time_systems.Control.Unix.Loop.Readings.{AreReadings, Anyhow}

abbrev delivering : Env
delivering = record calm { recv_reply = λ t fd. (pos 32, dim_packet) }

abbrev listening : Watch
listening = record (watch_from (pos 7) 0) { indoor_fd = pos 8; outdoor_fd = pos 9 }

abbrev from_indoor : Trace
from_indoor = clocked (pos 0) ∷ received (pos 8) (pos 32) ∷ []

abbrev from_outdoor : Trace
from_outdoor = clocked (pos 0) ∷ received (pos 9) (pos 32) ∷ []

main_unix-decide_example :
    let light = pos 528 -ℤ pos 400 in
    (read_indoor delivering listening []
      ≡ (if ltb_ℤ light (pos 0)
            then pure (next (record listening { indoor_tmp = light }))
            else decide (record listening { indoor_tmp = light; indoor = light }))
          from_indoor)
    × (read_outdoor delivering listening []
        ≡ (if ltb_ℤ light (pos 0)
              then pure (next (record listening { outdoor_tmp = light }))
              else decide (record listening { outdoor_tmp = light; outdoor = light }))
            from_outdoor)
main_unix-decide_example =
    main_unix-decide dim_room 0 9 argv blank_packet [] [] dim_packet delivering listening []
      from_indoor [] from_outdoor dim_run (refl, omega arith, refl) (refl, omega arith, refl)

-- A sensor connects in the first round, and the user says that it is in; then its packets come.
abbrev sensing : Env
sensing = record delivering {
  accept_reply = λ t fd. pos 8;
  scanf_char_reply = λ t. (pos 1, b'i');
  epoll_wait_reply = λ t. (
    pos 1,
    record {
      epollin = true;
      epollrdhup = false;
      epollhup = false;
      fd = if length t == 7 then pos 7 else pos 8;
    }
        ∷ [],
  );
}

abbrev unix_argv : List (List ℕ)
unix_argv = codes "control" ∷ codes "socket" ∷ []

-- A run of the sensor in the dim room.
abbrev dim : Run
dim = record { env = dim_room; rounds = 0; fuel = 9; argv = argv; uninitialized = blank_packet }

mains-AreReadings_example :
    After (AreReadings (IsReading dim dim)) Anyhow (Unix.Loop.main sensing 9 3 unix_argv 0 [])
mains-AreReadings_example =
    mains-AreReadings dim dim sensing 9 3 0 unix_argv (λ t fd whole. inl ([], [], dim_run))

-- The controller has the reading of the packet: 528 less 400.
sensing_run :
    (Unix.Loop.main sensing 9 2 unix_argv 0 []).0
    ≡ some (
        next (record (watch_from (pos 7) b'i') {
          indoor_fd = pos 8;
          indoor = pos 128;
          indoor_tmp = pos 128;
        }))
unfolding Unix.Loop.main watch_round watch_events watch_event watch_input watch_hangup handle_sensor
    ask_sensor read_indoor decide use_sensor Sockets.Unix.recv_packet forever
    Sockets.Unix.init_socket update set_lamp
sensing_run = refl
