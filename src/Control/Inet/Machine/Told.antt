-- ===== src/Control/Inet/Machine/Told.antt =====
-- `update` of src/control_thread_inet.c asks nobody: it is told nothing.
use real_time_systems.Base.{◌≡◌, inl, inr, Bool, true, false, Option-cases, ◌∷◌, arith}
use real_time_systems.Base.Int.{ℤ, pos, neg}
use real_time_systems.Os.{
  Env, Trace, printed, raising_curtain, lowering_curtain, stopping_curtain, no_motor,
}
use real_time_systems.Control.Inet.Globals.{Statics}
use real_time_systems.Control.Inet.Inputs.{told}
use real_time_systems.Control.Inet.Update.{update, brighten, darken, switch_light, send_command}

module _ (env : Env) (motor_fd light_fd : ℤ) where
  send_command-told :
      (direction turns : ℤ) (g : Statics) (t : Trace)
      → told env (send_command env motor_fd direction turns g t).1 ≡ told env t
  unfolding send_command
  send_command-told direction turns g t = ground arith

  switch_light-told :
      (on : Bool) (g : Statics) (t : Trace)
      → told env (switch_light env light_fd on g t).1 ≡ told env t
  unfolding switch_light
  switch_light-told on g t = ground arith

  brighten-told :
      (outdoor min : ℤ) (g : Statics) (t : Trace)
      → told env (brighten env motor_fd light_fd outdoor min g t).1 ≡ told env t
  unfolding brighten
  brighten-told outdoor min g t =
      let t1 : Trace = printed raising_curtain ∷ t in
      let (sent, t2) = send_command env motor_fd (pos 0) (neg 1) g t1 in
      let quiet = send_command-told (pos 0) (neg 1) g t1 in
      let dark = switch_light-told true g t in
      let unmoved = switch_light-told true g (printed no_motor ∷ t) in
      elim (Option-cases sent) [
        | inl hangs ↦ ground arith
        | inr ((ret, g'), r) ↦ let lit = switch_light-told true g' t2 in ground arith
      ]

  darken-told :
      (outdoor max : ℤ) (g : Statics) (t : Trace)
      → told env (darken env motor_fd light_fd outdoor max g t).1 ≡ told env t
  unfolding darken
  darken-told outdoor max g t = ground (
    arith,
    switch_light-told false g t,
    send_command-told (pos 1) (neg 1) g (printed lowering_curtain ∷ t),
  )

  pub update-told :
      (indoor outdoor min max : ℤ) (g : Statics) (t : Trace)
      → told env (update env motor_fd light_fd indoor outdoor min max g t).1 ≡ told env t
  unfolding update
  update-told indoor outdoor min max g t = ground (
    arith,
    brighten-told outdoor min g t,
    darken-told outdoor max g t,
    send_command-told (pos 0) (pos 0) g (printed stopping_curtain ∷ t),
  )
