-- ===== src/Os.antt =====
-- The boundary between the programs and the operating system, the C library and the devices.
-- `Types` has the data that crosses it, `Trace` the record of what crossed it, `Calls` the calls,
-- `Loops` the endless loop, `Exits` the values that a `main` returns.
--
-- A program is a function of the trace of its system calls so far. What a call returns is a function
-- of that trace, given by a parameter `Env`; every theorem is about every `Env`, so the operating
-- system may answer in any way, and differently each time.
mod Types
mod Traces
mod Calls
mod Loops
mod Exits
pub mod Examples
pub use Types.*
pub use Traces.*
pub use Calls.*
unfoldable pub use Loops.*
pub use Exits.*
