-- ===== src/Control/Inet/Update/Spending.antt =====
-- What a call of `update` in src/control_thread_inet.c spends: new readings and motor packets.
use real_time_systems.Base.{
  suc, ◌≡◌, ◌≤◌, ◌⊎◌, inl, inr, Bool, true, false, Option, none, some, Option-cases, ◌∷◌, arith,
  if◌then◌else◌,
}
use real_time_systems.Base.Int.{ℤ, pos, neg, truthy}
use real_time_systems.Os.{
  Env, Trace, connections, receipts, deliveries, printed, raising_curtain, lowering_curtain,
  stopping_curtain, no_motor,
}
use real_time_systems.Control.Inet.Globals.{Statics}
use real_time_systems.Control.Inet.Update.{send_command, switch_light, brighten, darken, update}

module _ (env : Env) (motor_fd light_fd : ℤ) where
  -- A part of `update` hands out one motor packet at most, and none if it fails.
  abbrev Spent : Statics → Trace → Option (ℤ × Statics) × Trace → Type 0
  Spent g t (none, t') = ⊥
  Spent g t (some (ret, g'), t') =
      (connections t' ≡ connections t)
      × (receipts t' ≡ receipts t)
      × (g'.indoor_ready ≡ g.indoor_ready)
      × (g'.outdoor_ready ≡ g.outdoor_ready)
      × (if truthy ret then deliveries t' ≡ deliveries t else deliveries t' ≤ suc (deliveries t))

  send_command-Spent :
      (direction turns : ℤ) (g : Statics) (t : Trace)
      → Spent g t (send_command env motor_fd direction turns g t)
  unfolding send_command
  send_command-Spent direction turns g t = ground arith

  switch_light-Spent :
      (on : Bool) (g g' : Statics) (t t' : Trace)
      → Spent g t (some (pos 0, g'), t')
      → Spent g t (switch_light env light_fd on g' t')
  unfolding switch_light
  switch_light-Spent on g g' t t' h = ground arith

  brighten-Spent :
      (outdoor min : ℤ) (g : Statics) (t : Trace)
      → Spent g t (brighten env motor_fd light_fd outdoor min g t)
  unfolding brighten
  brighten-Spent outdoor min g t =
      let (sent, t1) = send_command env motor_fd (pos 0) (neg 1) g (printed raising_curtain ∷ t) in
      let spent = send_command-Spent (pos 0) (neg 1) g (printed raising_curtain ∷ t) in
      elim (Option-cases sent) [
        | inl hangs ↦ ground (
          arith,
          switch_light-Spent true g g t t,
          switch_light-Spent true g g t (printed no_motor ∷ t),
        )
        | inr ((ret, g'), r) ↦ ground (
          arith,
          switch_light-Spent true g g t t,
          switch_light-Spent true g g' t t1,
          switch_light-Spent true g g t (printed no_motor ∷ t),
        )
      ]

  darken-Spent :
      (outdoor max : ℤ) (g : Statics) (t : Trace)
      → Spent g t (darken env motor_fd light_fd outdoor max g t)
  unfolding darken
  darken-Spent outdoor max g t =
      let spent = send_command-Spent (pos 1) (neg 1) g (printed lowering_curtain ∷ t) in
      ground (arith, switch_light-Spent false g g t t)

  -- It connects to nothing and receives nothing. Either it hands out no motor packet and keeps the
  -- readings as they are, or it hands out one at most and takes both readings, which were new.
  abbrev pub Spends : Statics → Trace → Option (ℤ × Statics) × Trace → Type 0
  Spends g t (none, t') = ⊥
  Spends g t (some (ret, g'), t') =
      (connections t' ≡ connections t)
      × (receipts t' ≡ receipts t)
      × (((deliveries t' ≡ deliveries t)
            × (g'.indoor_ready ≡ g.indoor_ready)
            × (g'.outdoor_ready ≡ g.outdoor_ready))
          ⊎ ((deliveries t' ≤ suc (deliveries t))
              × (g.indoor_ready ≡ true)
              × (g.outdoor_ready ≡ true)
              × (g'.indoor_ready ≡ false)
              × (g'.outdoor_ready ≡ false)))

  pub update-Spends :
      (indoor outdoor min max : ℤ) (g : Statics) (t : Trace)
      → Spends g t (update env motor_fd light_fd indoor outdoor min max g t)
  unfolding update
  update-Spends indoor outdoor min max g t =
      let stopped = send_command-Spent (pos 0) (pos 0) g (printed stopping_curtain ∷ t) in
      ground (arith, brighten-Spent outdoor min g t, darken-Spent outdoor max g t)
