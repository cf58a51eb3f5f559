-- ===== src/Control.antt =====
-- The control threads, which read the sensors and drive the curtain and the lamp.
pub mod Inet
pub mod Unix
