-- ===== src/Control/Inet/Tests.antt =====
-- The theorems on control_thread_inet at concrete inputs.
use real_time_systems.Base.{◌*◌, ◌≤◌, refl, true, false, [], ◌∷◌, arith}
use real_time_systems.Base.Int.{pos, neg}
use real_time_systems.Os.{After, deliveries, receipts, motor_packets}
use real_time_systems.Os.Examples.{calm}
use real_time_systems.Control.Inet.Globals.{Statics}
use real_time_systems.Control.Inet.Update.{update}
use real_time_systems.Control.Inet.Update.Policy.{IsSound, Done, update-Policy}
use real_time_systems.Control.Inet.Update.Failures.{Outcome, update-Outcome}
use real_time_systems.Control.Inet.Main.{main}
use real_time_systems.Control.Inet.Main.Streams.{IsCommands, main-IsCommands}
use real_time_systems.Control.Inet.Main.Pacing.{deliveries-main}
use real_time_systems.Control.Inet.Main.Lamp.{Lighting, WasLighting, main-Lighting}
use real_time_systems.Control.Inet.Machine.Readings.{IsExplained, WasExplained}
use real_time_systems.Control.Inet.Machine.Refines.{main-IsExplained}
use real_time_systems.Control.Inet.Examples.{undef, argv, busy, busy-IsSound}

calm-IsSound : IsSound calm
calm-IsSound = record { clock = λ t. omega arith; sends = λ t fd p. omega arith }

abbrev ready : Statics
ready = record { light_on = false; indoor_ready = true; outdoor_ready = true; seq = 4 }

-- Dim inside, bright enough outside: the lamp goes on and the curtain opens.
update-Policy_example :
    Done
      (update calm (pos 5) (pos 6) (pos 20) (pos 200) (pos 128) (pos 256) ready [])
      (record { light_on = true; indoor_ready = false; outdoor_ready = false; seq = 5 })
      (record { fd = pos 5; sequence = 4; direction = pos 0; turns = neg 1 } ∷ [])
update-Policy_example =
    update-Policy calm-IsSound (pos 5) (pos 6) (pos 20) (pos 200) (pos 128) (pos 256) ready [] refl
      refl

update-Outcome_example :
    Outcome ready [] (update calm (pos 5) (pos 6) (pos 20) (pos 200) (pos 128) (pos 256) ready [])
update-Outcome_example =
    update-Outcome calm (pos 5) (pos 6) ready (pos 20) (pos 200) (pos 128) (pos 256) []

main-IsCommands_example : IsCommands (motor_packets (main busy undef 9 3 argv []).1)
main-IsCommands_example = main-IsCommands busy undef 3 9 argv

main-Lighting_example : After Lighting WasLighting (main busy undef 9 3 argv [])
main-Lighting_example = main-Lighting busy undef 3 9 argv

deliveries-main_example : let t = (main busy undef 9 3 argv []).1 in 2 * deliveries t ≤ receipts t
deliveries-main_example = deliveries-main busy undef 3 9 argv

main-IsExplained_example :
    After (IsExplained busy undef) (WasExplained busy undef) (main busy undef 9 3 argv [])
main-IsExplained_example = main-IsExplained busy-IsSound undef 3 9 argv
