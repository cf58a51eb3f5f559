-- ===== src/SensorThread/Tests.antt =====
-- The theorems on the sensor threads at concrete inputs, and a run.
use real_time_systems.Base.{ℕ, ◌+◌, ◌==◌, if◌then◌else◌, false, [], ◌∷◌, arith, ◌≡◌, refl}
use real_time_systems.Base.Int.{pos}
use real_time_systems.Os.{Env, Trace, sensor_packets, Lasts, paused, forever}
use real_time_systems.Os.Examples.{calm, blank_packet}
use real_time_systems.BlockingIo.Write.{WriteContract}
use real_time_systems.BlockingIo.Read.{ReadContract, IsEndless}
use real_time_systems.BlockingIo.Contracts.{calm-WriteContract}
use real_time_systems.BlockingIo.{blocking_write, blocking_read}
use real_time_systems.SensorIo.{init_sensor, read_sensor, reformat}
use real_time_systems.Sockets.Inet
use real_time_systems.SensorThread.{
  first_packet, send_change, sensor_round, sensor_loop, connect_inet, main_inet, main_unix,
}
use real_time_systems.SensorThread.Examples.{argv}
use real_time_systems.SensorThread.Sampling.{Sampling, WasSampling, sent_readings}
use real_time_systems.SensorThread.Sampling.Runs.{main-Sampling}
use real_time_systems.SensorThread.Stream.{IsStream, main-IsStream}

-- The seconds slept.
abbrev seconds : Trace → ℕ
seconds [] = 0
seconds (paused n ∷ t) = n + seconds t
seconds (_ ∷ t) = seconds t

-- The light rises by 1 each second.
abbrev dusk : Env
dusk = record calm { read_reply = λ t fd n. (pos 4, seconds t ∷ 0 ∷ 0 ∷ 0 ∷ []) }

main-IsStream_example :
    IsStream (sensor_packets (main_inet dusk 3 9 argv blank_packet []).1)
    × IsStream (sensor_packets (main_unix dusk 3 9 argv blank_packet []).1)
main-IsStream_example = main-IsStream dusk 3 9 argv blank_packet

-- The same one byte at a time.
abbrev drip : Env
drip = record calm {
  read_reply = λ t fd n. if n == 0 then (pos 0, []) else (pos 1, seconds t ∷ []);
}

drip-WriteContract : WriteContract drip
drip-WriteContract = record {
  at_most = calm-WriteContract.at_most;
  progress = calm-WriteContract.progress;
}

drip-ReadContract : ReadContract drip
drip-ReadContract = record {
  at_most = λ t fd n. ground arith;
  counted = λ t fd n k e. ground arith;
  none_on_error = λ t fd n k e. ground arith;
}

drip-IsEndless : IsEndless drip
drip-IsEndless t fd n h e = ground arith

main-Sampling_example :
    Lasts
      (Sampling false (pos 7))
      (WasSampling false (pos 7))
      (main_inet drip 3 9 argv blank_packet [])
    × Lasts
        (Sampling false (pos 7))
        (WasSampling false (pos 7))
        (main_unix drip 3 9 argv blank_packet [])
main-Sampling_example =
    main-Sampling drip-WriteContract drip-ReadContract drip-IsEndless 9 (omega arith) 3 argv
      blank_packet

-- Four samples, each of another second.
drip_run :
    sent_readings (main_inet drip 3 9 argv blank_packet []).1
    ≡ (pos 771, pos 771) ∷ (pos 514, pos 514) ∷ (pos 257, pos 257) ∷ (pos 0, pos 0) ∷ []
unfolding main_inet connect_inet sensor_loop first_packet sensor_round send_change forever
    init_sensor read_sensor blocking_write blocking_read reformat Inet.init_socket
drip_run = refl
