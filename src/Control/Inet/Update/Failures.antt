-- ===== src/Control/Inet/Update/Failures.antt =====
-- `update` when it has nothing to do yet, when a call fails, and without a motor.
use real_time_systems.Base.{
  ℕ, suc, if◌then◌else◌, [], ◌+◌, ◌%◌, ◌^◌, ◌≡◌, ◌⊎◌, inl, inr, Bool, true, false, Option, none,
  some, Option-cases, ◌∷◌, arith,
}
use real_time_systems.Base.Int.{ℤ, ltb_ℤ, pos, neg, ◌≤ℤ◌, ◌<ℤ◌}
use real_time_systems.Errors.{success, err_time, err_send, code}
use real_time_systems.Os.{
  Env, Trace, MotorPacket, motor_packets, printed, clocked, sent_motor, stopping_curtain,
  raising_curtain, lowering_curtain, no_motor,
}
use real_time_systems.Control.Inet.Globals.{Statics}
use real_time_systems.Control.Inet.Update.{update, brighten, darken, switch_light, send_command}

-- The calls that failed, of the clock and of `send` to a motor.
abbrev pub faults : Trace → ℕ
faults [] = 0
faults (clocked ret ∷ t) = if ltb_ℤ ret (pos 0) then suc (faults t) else faults t
faults (sent_motor _ _ ret ∷ t) = if ltb_ℤ ret (pos 0) then suc (faults t) else faults t
faults (_ ∷ t) = faults t

-- What the last call of all was.
pub data LastCall : Type 0 where
  clock_call send_call other_call : LastCall

abbrev pub last_call : Trace → LastCall
last_call (clocked _ ∷ t) = clock_call
last_call (sent_motor _ _ _ ∷ t) = send_call
last_call _ = other_call

-- `update` and its parts return, and fail in two ways: by the clock, when nothing has changed; or by
-- `send`, when the number has been used, and nothing else has changed. That call is then the only one
-- that failed, and the last of all. Else no call failed, and they return 0.
abbrev pub Outcome : Statics → Trace → Option (ℤ × Statics) × Trace → Type 0
Outcome g t (none, t') = ⊥
Outcome g t (some (ret, g'), t') =
    ((ret ≡ pos (code success)) × (faults t' ≡ faults t))
    ⊎ ((ret ≡ neg (code err_time))
        × (g' ≡ g)
        × (faults t' ≡ suc (faults t))
        × (last_call t' ≡ clock_call))
    ⊎ ((ret ≡ neg (code err_send))
        × (g' ≡ record g { seq = (g.seq + 1) % 2 ^ 32 })
        × (faults t' ≡ suc (faults t))
        × (last_call t' ≡ send_call))

module _ (env : Env) (motor_fd light_fd : ℤ) (g : Statics) where
  send_command-Outcome :
      (direction turns : ℤ) (t : Trace)
      → Outcome g t (send_command env motor_fd direction turns g t)
  unfolding send_command
  send_command-Outcome direction turns t = ground arith

  switch_light-ok :
      (on : Bool) (g' : Statics) (t : Trace)
      → let out = switch_light env light_fd on g' t in
        (out.0 ≡ some (pos 0, record g' { light_on = on })) × (faults out.1 ≡ faults t)
  unfolding switch_light
  switch_light-ok on g' t = (ground arith, ground arith)

  brighten-Outcome :
      (outdoor min : ℤ) (t : Trace) → Outcome g t (brighten env motor_fd light_fd outdoor min g t)
  unfolding brighten
  brighten-Outcome outdoor min t =
      let t1 : Trace = printed raising_curtain ∷ t in
      let (sent, t2) = send_command env motor_fd (pos 0) (neg 1) g t1 in
      let h = send_command-Outcome (pos 0) (neg 1) t1 in
      let dark = switch_light-ok true g t in
      let unmoved = switch_light-ok true g (printed no_motor ∷ t) in
      elim (Option-cases sent) [
        | inl hangs ↦ ground arith
        | inr ((ret, g'), r) ↦ let lit = switch_light-ok true g' t2 in ground arith
      ]

  darken-Outcome :
      (outdoor max : ℤ) (t : Trace) → Outcome g t (darken env motor_fd light_fd outdoor max g t)
  unfolding darken
  darken-Outcome outdoor max t = ground (
    arith,
    switch_light-ok false g t,
    send_command-Outcome (pos 1) (neg 1) (printed lowering_curtain ∷ t),
  )

  -- Whatever the clock and the network do, `update` returns. It returns 0 just where no call of the clock
  -- or of `send` in it failed. Where one did, it was the only one and the last call of all, and neither
  -- the lamp nor the marks of the readings change: if it was the clock, `update` returns -ERR_TIME and
  -- nothing changes; if it was `send`, it returns -ERR_SEND and the number is used.
  pub update-Outcome :
      (indoor outdoor min max : ℤ) (t : Trace)
      → Outcome g t (update env motor_fd light_fd indoor outdoor min max g t)
  unfolding update
  update-Outcome indoor outdoor min max t = ground (
    arith,
    brighten-Outcome outdoor min t,
    darken-Outcome outdoor max t,
    send_command-Outcome (pos 0) (pos 0) (printed stopping_curtain ∷ t),
  )

-- In the comfortable zone with no motor connected (`motor_fd` is 0) and a clock that works, `update`
-- sends the stop packet to descriptor 0; where that fails, it returns -ERR_SEND with both readings
-- still marked as new.
update-stops_stdin :
    (env : Env) (light_fd indoor outdoor min max : ℤ) (g : Statics) (t : Trace)
    → (g.indoor_ready ≡ true) × (g.outdoor_ready ≡ true)
    → (min ≤ℤ indoor) × (indoor ≤ℤ max)
    → ((t' : Trace) → pos 0 ≤ℤ (env.clock_reply t').0)
    → let out = update env (pos 0) light_fd indoor outdoor min max g t in
      let t1 = printed stopping_curtain ∷ t in
      let clock = env.clock_reply t1 in
      let p : MotorPacket = record {
        timestamp = clock.1;
        sequence = g.seq;
        direction = pos 0;
        turns = pos 0;
      } in
      (motor_packets out.1 ≡ (pos 0, p) ∷ motor_packets t)
      × (env.send_motor_reply (clocked clock.0 ∷ t1) (pos 0) p <ℤ pos 0
          → out.0 ≡ some (neg (code err_send), record g { seq = (g.seq + 1) % 2 ^ 32 }))
unfolding update send_command
update-stops_stdin env light_fd indoor outdoor min max g t (hi, ho) (lo, up) clock =
    let works = clock (printed stopping_curtain ∷ t) in (ground arith, λ fails. ground arith)
