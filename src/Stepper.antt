-- ===== src/Stepper.antt =====
-- src/stepper.c and src/stepper.h: the motor thread. `Sleep` has `msleep`, `Rotate` the pulses,
-- `Text` the check of a typed number, `Gpio` the pins, `Threads` the two threads, `Sequence` a command
-- as the main thread runs it, `Worker` the worker as it runs, `Setup` what precedes the event loop,
-- `Events` the loop, `Main` the rest.
pub mod Sleep
pub mod Rotate
pub mod Text
pub mod Gpio
pub mod Threads
pub mod Worker
pub mod Sequence
pub mod Setup
pub mod Events
pub mod Main
pub mod Examples
mod Tests
