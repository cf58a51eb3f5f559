-- ===== src/Control/Inet/Update.antt =====
-- `update` of src/control_thread_inet.c: what the program does about a pair of readings.
pub mod Spending
pub mod Policy
pub mod Failures
pub mod Sends
use real_time_systems.Base.{ℕ, ◌+◌, ◌%◌, ◌^◌, Bool, true, false, ◌&&◌, not, if◌then◌else◌}
use real_time_systems.Base.Int.{ℤ, pos, neg, ltb_ℤ, truthy}
use real_time_systems.Errors.{success, err_time, err_send, code}
use real_time_systems.Os.{
  Env, Io, MotorPacket, pure, ◌>>=◌, ◌>>◌, clock_gettime, send_motor, print, raising_curtain,
  lowering_curtain, stopping_curtain, no_motor, too_dim, light_turned_on, light_turned_off,
  no_light,
}
use real_time_systems.Control.Inet.Globals.{Statics, motor_cw, motor_ccw, motor_turn, motor_stop}

module _ (env : Env) where
  -- The lines that stamp, number and send a motor packet, up to the `return` on a failure: 0 goes on.
  unfoldable pub send_command : ℤ → ℤ → ℤ → Statics → Io (ℤ × Statics)
  send_command motor_fd direction turns g = do
    clock ← clock_gettime env
    if ltb_ℤ clock.0 (pos 0) then pure (neg (code err_time), g) else do
      let packet : MotorPacket = record {
        timestamp = clock.1;
        sequence = g.seq;
        direction = direction;
        turns = turns;
      }
      let g' = record g { seq = (g.seq + 1) % 2 ^ 32 }
      sent ← send_motor env motor_fd packet
      if ltb_ℤ sent (pos 0) then pure (neg (code err_send), g') else pure (pos (code success), g')

  -- The lines that switch the lamp.
  unfoldable pub switch_light : ℤ → Bool → Statics → Io (ℤ × Statics)
  switch_light light_fd on g = do
    print (if on then light_turned_on else light_turned_off)
    if truthy light_fd
        then pure (pos (code success), record g { light_on = on })
        else (print no_light >> pure (pos (code success), record g { light_on = on }))

  -- `indoor < min`
  unfoldable pub brighten : ℤ → ℤ → ℤ → ℤ → Statics → Io (ℤ × Statics)
  brighten motor_fd light_fd outdoor min g = do
    raised ←
        if not (ltb_ℤ min outdoor)
        then pure (pos (code success), g)
        else if truthy motor_fd
        then print raising_curtain >> send_command motor_fd motor_cw motor_turn g
        else print no_motor >> pure (pos (code success), g)
    if truthy raised.0
        then pure raised
        else if raised.1.light_on
        then print too_dim >> pure (pos (code success), raised.1)
        else switch_light light_fd true raised.1

  -- `indoor > max`
  unfoldable pub darken : ℤ → ℤ → ℤ → ℤ → Statics → Io (ℤ × Statics)
  darken motor_fd light_fd outdoor max g =
      if g.light_on
      then switch_light light_fd false g
      else if ltb_ℤ max outdoor
      then pure (pos (code success), g)
      else if truthy motor_fd
      then print lowering_curtain >> send_command motor_fd motor_ccw motor_turn g
      else print no_motor >> pure (pos (code success), g)

  unfoldable pub update : ℤ → ℤ → ℤ → ℤ → ℤ → ℤ → Statics → Io (ℤ × Statics)
  update motor_fd light_fd indoor outdoor min max g =
      if not (g.indoor_ready && g.outdoor_ready) then pure (pos (code success), g) else do
        acted ←
            if ltb_ℤ indoor min
            then brighten motor_fd light_fd outdoor min g
            else if ltb_ℤ max indoor
            then darken motor_fd light_fd outdoor max g
            else (print stopping_curtain >> send_command motor_fd motor_cw motor_stop g)
        if truthy acted.0
            then pure acted
            else pure (
              pos (code success),
              record (acted.1) { indoor_ready = false; outdoor_ready = false },
            )
