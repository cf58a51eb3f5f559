-- ===== src/Stepper/Examples.antt =====
-- What the examples on stepper share.
use real_time_systems.Base.{arith}
use real_time_systems.Base.Int.{pos}
use real_time_systems.Os.Examples.{calm}
use real_time_systems.Stepper.Sleep.{SleepsOn}
use real_time_systems.Stepper.Setup.{Pins}

pub calm-SleepsOn : SleepsOn calm
calm-SleepsOn t ts e = absurd (ground arith)

abbrev pub pins : Pins
pins = record { enable_fd = pos 5; pulse_fd = pos 6; direction_fd = pos 7 }
