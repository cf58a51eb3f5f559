-- ===== src/Control/Inet/Update/Policy.antt =====
-- The policy that `update` carries out, stated apart from packets, clocks and sockets.
use real_time_systems.Base.{
  ℕ, ◌+◌, ◌%◌, ◌^◌, ◌≡◌, Bool, true, false, Option, none, some, List, [], ◌∷◌, arith, if◌then◌else◌,
}
use real_time_systems.Base.Int.{ℤ, pos, neg, ◌≤ℤ◌, ltb_ℤ, truthy}
use real_time_systems.Os.{
  Env, Trace, MotorPacket, motor_packets, printed, raising_curtain, lowering_curtain,
  stopping_curtain, no_motor,
}
use real_time_systems.Control.Inet.Globals.{Statics}
use real_time_systems.Control.Inet.Update.{update, brighten, darken, switch_light, send_command}

pub data Command : Type 0 where
  raise lower stop : Command

pub data Zone : Type 0 where
  dim comfortable bright : Zone

abbrev pub zone : ℤ → ℤ → ℤ → Zone
zone min max indoor =
    if ltb_ℤ indoor min then dim else if ltb_ℤ max indoor then bright else comfortable

-- What the curtain should do: open it if that lets in enough light, close it if the lamp is off
-- already and no light outside is in excess, stop it in the comfortable zone.
abbrev pub wanted : Zone → ℤ → ℤ → ℤ → Bool → Option Command
wanted dim min max outdoor light_on = if ltb_ℤ min outdoor then some raise else none
wanted comfortable min max outdoor light_on = some stop
wanted bright min max outdoor light_on =
    if light_on then none else if ltb_ℤ max outdoor then none else some lower

-- The lamp after the decision: on where it is dim, off where it is bright, else as it was.
abbrev pub lamp : Zone → Bool → Bool
lamp dim light_on = true
lamp comfortable light_on = light_on
lamp bright light_on = false

-- A stop is sent with no motor connected too, to descriptor 0.
abbrev pub addressed : Option Command → ℤ → Option Command
addressed (some stop) motor_fd = some stop
addressed (some c) motor_fd = if truthy motor_fd then some c else none
addressed none motor_fd = none

-- A motor packet as the policy sees it: all but the time.
pub record Sending : Type 0 where
  pub fd : ℤ
  pub sequence : ℕ
  pub direction : ℤ
  pub turns : ℤ

abbrev pub sendings : List (ℤ × MotorPacket) → List Sending
sendings [] = []
sendings ((fd, p) ∷ ps) =
    record { fd = fd; sequence = p.sequence; direction = p.direction; turns = p.turns }
    ∷ sendings ps

-- The packet of a command.
abbrev pub sending : Command → ℤ → ℕ → Sending
sending raise fd seq = record { fd = fd; sequence = seq; direction = pos 0; turns = neg 1 }
sending lower fd seq = record { fd = fd; sequence = seq; direction = pos 1; turns = neg 1 }
sending stop fd seq = record { fd = fd; sequence = seq; direction = pos 0; turns = pos 0 }

-- What was sent, and the number that comes next, after at most one command.
abbrev pub send_one : Option Command → ℤ → ℕ → List Sending → List Sending
send_one none fd seq sent = sent
send_one (some c) fd seq sent = sending c fd seq ∷ sent

abbrev pub next_seq : Option Command → ℕ → ℕ
next_seq none seq = seq
next_seq (some c) seq = (seq + 1) % 2 ^ 32

-- The clock works, and no `send` to the motor fails.
pub record IsSound (env : Env) : Type 0 where
  pub clock : (t : Trace) → pos 0 ≤ℤ (env.clock_reply t).0
  pub sends : (t : Trace) (fd : ℤ) (p : MotorPacket) → pos 0 ≤ℤ env.send_motor_reply t fd p

-- The call returned 0 with the statics `g`, and the motor packets sent so far are `sent`.
abbrev pub Done : Option (ℤ × Statics) × Trace → Statics → List Sending → Type 0
Done r g sent = (r.0 ≡ some (pos 0, g)) × (sendings (motor_packets r.1) ≡ sent)

module _ {env : Env} (sound : IsSound env) (motor_fd light_fd : ℤ) where
  open sound use {clock, sends}

  send_command-Done :
      (c : Command) (g : Statics) (t : Trace)
      → Done
          (send_command env motor_fd
            (sending c motor_fd 0).direction
            (sending c motor_fd 0).turns
            g
            t)
          (record g { seq = (g.seq + 1) % 2 ^ 32 })
          (sending c motor_fd g.seq ∷ sendings (motor_packets t))
  unfolding send_command
  send_command-Done raise g t = grind (arith, clock, sends)
  send_command-Done lower g t = grind (arith, clock, sends)
  send_command-Done stop g t = grind (arith, clock, sends)

  switch_light-Done :
      (on : Bool) (g : Statics) (t : Trace)
      → Done
          (switch_light env light_fd on g t)
          (record g { light_on = on })
          (sendings (motor_packets t))
  unfolding switch_light
  switch_light-Done on g t = ground arith

  module _ (outdoor min max : ℤ) (g : Statics) (t : Trace) where
    brighten-Done :
        let c = addressed (wanted dim min max outdoor g.light_on) motor_fd in
        Done
          (brighten env motor_fd light_fd outdoor min g t)
          (record g { light_on = true; seq = next_seq c g.seq })
          (send_one c motor_fd g.seq (sendings (motor_packets t)))
    unfolding brighten
    brighten-Done =
        let t1 = printed raising_curtain ∷ t in
        let g1 = record g { seq = (g.seq + 1) % 2 ^ 32 } in
        let t2 = (send_command env motor_fd (pos 0) (neg 1) g t1).1 in
        ground (
          arith,
          send_command-Done raise g t1,
          switch_light-Done true g1 t2,
          switch_light-Done true g t,
          switch_light-Done true g (printed no_motor ∷ t),
        )

    darken-Done :
        let c = addressed (wanted bright min max outdoor g.light_on) motor_fd in
        Done
          (darken env motor_fd light_fd outdoor max g t)
          (record g { light_on = false; seq = next_seq c g.seq })
          (send_one c motor_fd g.seq (sendings (motor_packets t)))
    unfolding darken
    darken-Done = ground (
      arith,
      send_command-Done lower g (printed lowering_curtain ∷ t),
      switch_light-Done false g t,
    )

  -- With both readings there, a clock that works and a motor that takes packets, `update` returns 0
  -- and carries the policy out: the lamp is switched as the zone says, the command that the policy
  -- wants and that can be addressed is the one packet sent, with the next number, and both readings
  -- are used up.
  pub update-Policy :
      (indoor outdoor min max : ℤ) (g : Statics) (t : Trace)
      → g.indoor_ready ≡ true
      → g.outdoor_ready ≡ true
      → let z = zone min max indoor in
        let c = addressed (wanted z min max outdoor g.light_on) motor_fd in
        Done
          (update env motor_fd light_fd indoor outdoor min max g t)
          (record {
            light_on = lamp z g.light_on;
            indoor_ready = false;
            outdoor_ready = false;
            seq = next_seq c g.seq;
          })
          (send_one c motor_fd g.seq (sendings (motor_packets t)))
  unfolding update
  update-Policy indoor outdoor min max g t hi ho = ground (
    arith,
    brighten-Done outdoor min max g t,
    darken-Done outdoor min max g t,
    send_command-Done stop g (printed stopping_curtain ∷ t),
  )
