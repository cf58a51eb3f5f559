-- ===== src/Control/Unix/Lamp.antt =====
-- What `update` of src/control_thread_unix.c does, against the policy of control_thread_inet.
use real_time_systems.Base.{
  Bool, ◌≡◌, ◌&&◌, Option, none, some, List, [], ◌∷◌, arith, if◌then◌else◌,
}
use real_time_systems.Base.Int.{ℤ, ltb_ℤ}
use real_time_systems.Os.{Trace, printed, motor_packets, raising_curtain, lowering_curtain}
use real_time_systems.Control.Inet.Update.Policy.{Command, raise, lower, stop, zone, wanted, lamp}
use real_time_systems.Control.Unix.{set_lamp, update}

-- The commands that have been printed, the latest first.
abbrev pub said : Trace → List Command
said [] = []
said (printed raising_curtain ∷ t) = raise ∷ said t
said (printed lowering_curtain ∷ t) = lower ∷ said t
said (_ ∷ t) = said t

-- One more command; to stop is not said.
abbrev pub say : Option Command → List Command → List Command
say (some raise) l = raise ∷ l
say (some lower) l = lower ∷ l
say (some stop) l = l
say none l = l

-- `update` of control_thread_unix says the command that the policy of control_thread_inet wants, but
-- for a stop, and sends nothing to the motor. The lamp becomes what that policy says, except where it
-- is dim inside and brighter than the minimum outside: there it stays as it was.
pub update-follows :
    (motor_fd light_fd indoor outdoor min max : ℤ) (light_on : Bool) (t : Trace)
    → let out = update motor_fd light_fd indoor outdoor min max light_on t in
      let z = zone min max indoor in
      (out.0 ≡ some (if ltb_ℤ indoor min && ltb_ℤ min outdoor then light_on else lamp z light_on))
      × (said out.1 ≡ say (wanted z min max outdoor light_on) (said t))
      × (motor_packets out.1 ≡ motor_packets t)
unfolding update set_lamp
update-follows motor_fd light_fd indoor outdoor min max light_on t = ground arith
