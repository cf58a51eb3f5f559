-- ===== src/Control/Inet/Update/Sends.antt =====
-- A property of the motor packets sent, of the next number and of the motor's descriptor, which each
-- packet keeps, is kept by `update`.
use real_time_systems.Base.{
  ℕ, ◌+◌, ◌%◌, ◌^◌, ◌≡◌, ◌⊎◌, inl, inr, refl, Bool, true, false, Option, none, some, Option-cases,
  List, ◌∷◌, arith,
}
use real_time_systems.Base.Int.{ℤ, pos, neg}
use real_time_systems.Os.{
  Env, Trace, MotorPacket, motor_packets, printed, raising_curtain, lowering_curtain,
  stopping_curtain, no_motor,
}
use real_time_systems.Control.Inet.Globals.{Statics}
use real_time_systems.Control.Inet.Update.{update, brighten, darken, switch_light, send_command}

abbrev pub Packets : Type 0
Packets = List (ℤ × MotorPacket)

-- `direction` and `turns` of a packet: open, close or stop.
abbrev pub IsCommand : ℤ → ℤ → Type 0
IsCommand direction turns =
    ((direction ≡ pos 0) × (turns ≡ neg 1))
    ⊎ ((direction ≡ pos 1) × (turns ≡ neg 1))
    ⊎ ((direction ≡ pos 0) × (turns ≡ pos 0))

-- Sending a packet keeps the property `I` of descriptor, next number and packets.
abbrev pub KeptBySends : (ℤ → ℕ → Packets → Type 0) → Type 0
KeptBySends I =
    (fd : ℤ) (p : MotorPacket) (ps : Packets)
    → IsCommand p.direction p.turns
    → I fd p.sequence ps
    → I fd ((p.sequence + 1) % 2 ^ 32) ((fd, p) ∷ ps)

module _ (env : Env) (I : ℤ → ℕ → Packets → Type 0) (keep : KeptBySends I)
    (motor_fd light_fd : ℤ) where
  -- `I` after a part of `update` has returned.
  abbrev pub Keeps : Option (ℤ × Statics) × Trace → Type 0
  Keeps (none, t) = ⊥
  Keeps (some (ret, g), t) = I motor_fd g.seq (motor_packets t)

  send_command-Keeps :
      (direction turns : ℤ) (g : Statics) (t : Trace)
      → IsCommand direction turns
      → I motor_fd g.seq (motor_packets t)
      → Keeps (send_command env motor_fd direction turns g t)
  unfolding send_command
  send_command-Keeps direction turns g t c h =
      let p : MotorPacket = record {
        timestamp = (env.clock_reply t).1;
        sequence = g.seq;
        direction = direction;
        turns = turns;
      } in
      let sent = keep motor_fd p (motor_packets t) c h in ground arith

  switch_light-Keeps :
      (on : Bool) (g : Statics) (t : Trace)
      → I motor_fd g.seq (motor_packets t)
      → Keeps (switch_light env light_fd on g t)
  unfolding switch_light
  switch_light-Keeps on g t h = ground arith

  brighten-Keeps :
      (outdoor min : ℤ) (g : Statics) (t : Trace)
      → I motor_fd g.seq (motor_packets t)
      → Keeps (brighten env motor_fd light_fd outdoor min g t)
  unfolding brighten
  brighten-Keeps outdoor min g t h =
      let (sent, t1) = send_command env motor_fd (pos 0) (neg 1) g (printed raising_curtain ∷ t) in
      let kept =
        send_command-Keeps (pos 0) (neg 1) g (printed raising_curtain ∷ t) (inl (refl, refl)) h in
      elim (Option-cases sent) [
        | inl hangs ↦
            ground
              (arith, switch_light-Keeps true g t, switch_light-Keeps true g (printed no_motor ∷ t))
        | inr ((ret, g'), r) ↦ ground (
          arith,
          switch_light-Keeps true g t,
          switch_light-Keeps true g' t1,
          switch_light-Keeps true g (printed no_motor ∷ t),
        )
      ]

  darken-Keeps :
      (outdoor max : ℤ) (g : Statics) (t : Trace)
      → I motor_fd g.seq (motor_packets t)
      → Keeps (darken env motor_fd light_fd outdoor max g t)
  unfolding darken
  darken-Keeps outdoor max g t h =
      let kept =
        send_command-Keeps (pos 1) (neg 1) g (printed lowering_curtain ∷ t) (inr (inl (refl, refl)))
          h in
      ground (arith, switch_light-Keeps false g t)

  pub update-Keeps :
      (indoor outdoor min max : ℤ) (g : Statics) (t : Trace)
      → I motor_fd g.seq (motor_packets t)
      → Keeps (update env motor_fd light_fd indoor outdoor min max g t)
  unfolding update
  update-Keeps indoor outdoor min max g t h =
      let stopped =
        send_command-Keeps (pos 0) (pos 0) g (printed stopping_curtain ∷ t) (inr (inr (refl, refl)))
          h in
      ground (arith, brighten-Keeps outdoor min g t, darken-Keeps outdoor max g t)
