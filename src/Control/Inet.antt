-- ===== src/Control/Inet.antt =====
-- src/control_thread_inet.c and src/control_thread_inet.h. `Globals` has the constants and statics,
-- `Update` the decision, `Input` the reading of packets, `Handlers` the branches of the event loop,
-- `Main` the rest of `main`, `Machine` an abstract view of it all.
pub mod Globals
pub mod Inputs
pub mod Update
pub mod Input
pub mod Handlers
pub mod Main
pub mod Machine
pub mod Examples
mod Tests
