-- ===== src/Curtain/Serving.antt =====
-- A command as src/control_thread_inet.c sends it, taken by the event loop of src/stepper.c.
use real_time_systems.Base.{
  ℕ, ◌≡◌, refl, Bool-cases, inl, inr, Option, none, some, List, ◌∷◌, arith, if◌then◌else◌,
}
use real_time_systems.Base.Int.{ℤ, pos, ◌≤ℤ◌, eqb_ℤ, eqb_ℤ_refl, eqb_ℤ_iff}
use real_time_systems.Os.{Env, Trace, MotorPacket, Flow, next, return, read_motor, wrote}
use real_time_systems.Control.Inet.Update.Sends.{IsCommand}
use real_time_systems.Stepper.Rotate.{high, low}
use real_time_systems.Stepper.Gpio.{set_direction}
use real_time_systems.Stepper.Sequence.{rotate_and_restore, seq_rotate}
use real_time_systems.Stepper.Sequence.Mutex.{level}
use real_time_systems.Stepper.Setup.{Pins}
use real_time_systems.Stepper.Events.{Motor, obey_packet, handle_packet}
use real_time_systems.Stepper.Events.Steady.{Steady}
use real_time_systems.Stepper.Events.Direction.{IsAligned}

-- What the loop goes on with when it has served a packet.
abbrev pub Served : Pins → MotorPacket → Option (Flow Motor) × Trace → Type 0
Served pins p (none, t) = ⊥
Served pins p (some (return ret), t) = ⊥
Served pins p (some (next s), t) =
    (s.in_packet ≡ p)
    × (s.working ≡ (if eqb_ℤ p.turns (pos 0) then pos 0 else pos 1))
    × Steady IsAligned pins s t
    × (s.direction ≡ p.direction)

module _ (env : Env) (fuel : ℕ) (pins : Pins) (connection_socket : ℤ) where
  -- A command without rotations.
  obey-Served :
      (s : Motor) (t : Trace)
      → IsCommand s.in_packet.direction s.in_packet.turns
      → Steady IsAligned pins s t
      → s.direction ≡ s.in_packet.direction
      → Served pins s.in_packet (obey_packet env fuel pins connection_socket s t)
  unfolding obey_packet seq_rotate rotate_and_restore
  obey-Served s t (inl (down, e)) (flag, mine, ok, k) d = rw e (ground arith)
  obey-Served s t (inr (inl (up, e))) (flag, mine, ok, k) d = rw e (ground arith)
  obey-Served s t (inr (inr (down, e))) (flag, mine, ok, k) d = rw e (ground arith)

  -- The write to the pin of the direction, and what follows it.
  pub handle_packet-Served :
      (fd : ℤ) (s : Motor) (t : Trace) (ret : ℤ) (p : MotorPacket)
      → IsCommand p.direction p.turns
      → Steady IsAligned pins s t
      → env.read_motor_reply t fd s.in_packet ≡ (ret, p)
      → pos 0 ≤ℤ ret
      → ((t' : Trace) (bytes : List ℕ) → pos 0 ≤ℤ env.write_reply t' pins.direction_fd bytes)
      → Served pins p (handle_packet env fuel pins connection_socket fd s t)
  unfolding handle_packet set_direction
  handle_packet-Served fd s t ret p c (flag, mine, ok, k) e got writes =
      let t1 : Trace = read_motor fd ret ∷ t in
      let s1 = record s { in_packet = p } in
      let bytes = if eqb_ℤ p.direction (pos 1) then high else low in
      let t2 : Trace =
        wrote pins.direction_fd bytes (env.write_reply t1 pins.direction_fd bytes) ∷ t1 in
      let turned = record s1 { direction = p.direction } in
      let set = writes t1 bytes in
      rw e (elim (Bool-cases (eqb_ℤ p.direction s.direction)) [
        | inl same ↦
            ground
              (arith, obey-Served s1 t1 c (flag, mine, ok, k), eqb_ℤ_iff p.direction s.direction)
        | inr turn ↦
            let aligned : IsAligned p.direction (level pins.direction_fd t2) =
              ground (arith, eqb_ℤ_refl pins.direction_fd) in
            ground (arith, obey-Served turned t2 c (flag, mine, ok, aligned) refl)
      ])
