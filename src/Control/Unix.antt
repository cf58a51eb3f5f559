-- ===== src/Control/Unix.antt =====
-- src/control_thread_unix.c and src/control_thread_unix.h: an older controller, which only says what
-- it would do. Here is `update`; `Input` has `use_sensor` and `Loop` has `main`.
pub mod Lamp
pub mod Input
pub mod Loop
mod Tests
use real_time_systems.Base.{Bool, true, false, if◌then◌else◌}
use real_time_systems.Base.Int.{ℤ, ltb_ℤ, truthy}
use real_time_systems.Os.{
  Io, pure, ◌>>◌, print, raising_curtain, lowering_curtain, no_motor, too_dim, too_bright,
  light_turned_on, light_turned_off, no_light,
}

-- The lines that switch the lamp.
unfoldable pub set_lamp : ℤ → Bool → Io Bool
set_lamp light_fd on =
    print (if on then light_turned_on else light_turned_off)
    >> (if truthy light_fd then pure on else (print no_light >> pure on))

-- `light_on` is the only static variable. The first `return` stands before the test for the motor and
-- the lines on the lamp.
unfoldable pub update : ℤ → ℤ → ℤ → ℤ → ℤ → ℤ → Bool → Io Bool
update motor_fd light_fd indoor outdoor min max light_on =
    if ltb_ℤ indoor min
    then (if ltb_ℤ min outdoor
        then print raising_curtain >> pure light_on
        else if light_on
        then print too_dim >> pure light_on
        else set_lamp light_fd true)
    else if ltb_ℤ max indoor
    then (if light_on
        then set_lamp light_fd false
        else if ltb_ℤ max outdoor
        then print too_bright >> pure light_on
        else (print lowering_curtain
            >> (if truthy motor_fd then pure light_on else (print no_motor >> pure light_on))))
    else pure light_on
