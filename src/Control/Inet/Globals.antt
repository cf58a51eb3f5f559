-- ===== src/Control/Inet/Globals.antt =====
-- The constants of src/control_thread_inet.h and the static variables of src/control_thread_inet.c.
use real_time_systems.Base.{ℕ, Bool, false, List, [], ◌∷◌}
use real_time_systems.Base.Int.{ℤ, pos, neg}

abbrev pub default_min : ℤ
default_min = pos 128

abbrev pub default_max : ℤ
default_max = pos 256

abbrev pub motor_cw : ℤ
motor_cw = pos 0

abbrev pub motor_ccw : ℤ
motor_ccw = pos 1

abbrev pub motor_turn : ℤ
motor_turn = neg 1

abbrev pub motor_stop : ℤ
motor_stop = pos 0

abbrev pub min_cmd : List ℕ
min_cmd = b'm' ∷ b'i' ∷ b'n' ∷ []

abbrev pub max_cmd : List ℕ
max_cmd = b'm' ∷ b'a' ∷ b'x' ∷ []

abbrev pub motor_cmd : List ℕ
motor_cmd = b'm' ∷ b'o' ∷ b't' ∷ b'o' ∷ b'r' ∷ []

abbrev pub light_cmd : List ℕ
light_cmd = b'l' ∷ b'i' ∷ b'g' ∷ b'h' ∷ b't' ∷ []

-- INDOOR_SYM, OUTDOOR_SYM and SOCK_BACKLOG, which the program uses and no header that it includes
-- defines. (MAX_EVENTS, the fourth of them, bounds only what `epoll_wait` returns.)
pub record Undefined : Type 0 where
  pub indoor_sym : List ℕ
  pub outdoor_sym : List ℕ
  pub sock_backlog : ℤ

-- The static variables; the flags are 0 or 1.
pub record Statics : Type 0 where
  pub light_on : Bool
  pub indoor_ready : Bool
  pub outdoor_ready : Bool
  pub seq : ℕ

abbrev pub initial : Statics
initial = record { light_on = false; indoor_ready = false; outdoor_ready = false; seq = 0 }
