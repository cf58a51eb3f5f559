-- ===== src/Control/Inet/Machine/Readings.antt =====
-- The machine's state in that of control_thread_inet, and what a packet of a sensor does to it.
use real_time_systems.Base.{
  ◌≡◌, inl, inr, refl, true, false, Bool-cases, ◌&&◌, Option, none, some, arith, if◌then◌else◌, ◌∷◌,
}
use real_time_systems.Base.Int.{ℤ, pos, eqb_ℤ, ltb_ℤ}
use real_time_systems.Os.{Env, Trace, Flow, next, return, motor_packets, After, pure, received}
use real_time_systems.Control.Inet.Globals.{Undefined, Statics}
use real_time_systems.Control.Inet.Inputs.{told, heard}
use real_time_systems.Control.Inet.Update.{update}
use real_time_systems.Control.Inet.Machine.Told.{update-told}
use real_time_systems.Control.Inet.Update.Policy.{
  IsSound, sendings, zone, wanted, lamp, addressed, send_one, next_seq, update-Policy,
}
use real_time_systems.Control.Inet.Input.{use_sensor}
use real_time_systems.Control.Inet.Handlers.{Control, run_update, handle_indoor, handle_outdoor}
use real_time_systems.Control.Inet.Machine.{
  Machine, decide, used, acts, Reaches, by_indoor, by_outdoor, HasSent, has_sent,
}

-- The machine's state in the program's: its variables, and what it has sent.
abbrev pub machine : Control → Trace → Machine
machine s t = record {
  motor = s.motor_fd;
  indoor = record {
    fd = s.indoor_fd;
    tmp = s.indoor_tmp;
    light = s.indoor;
    fresh = s.statics.indoor_ready;
  };
  outdoor = record {
    fd = s.outdoor_fd;
    tmp = s.outdoor_tmp;
    light = s.outdoor;
    fresh = s.statics.outdoor_ready;
  };
  min = s.min;
  max = s.max;
  number = s.val_tmp;
  lit = s.statics.light_on;
  seq = s.statics.seq;
  sent = sendings (motor_packets t);
}

-- Where the machine has come to, and what has been sent in the end.
abbrev pub IsExplained : Env → Undefined → Control → Trace → Type 0
IsExplained env undef s t = Reaches env.sizeof_sensor_packet undef (told env t) (machine s t)

abbrev pub WasExplained : Env → Undefined → Trace → Type 0
WasExplained env undef t =
    HasSent env.sizeof_sensor_packet undef (told env t) (sendings (motor_packets t))

pub ended-WasExplained :
    (env : Env) (undef : Undefined) (s : Control) (t : Trace)
    → IsExplained env undef s t
    → WasExplained env undef t
ended-WasExplained env undef s t r = has_sent r refl

-- What the machine does is the policy of `update`.
by_policy : Machine → Machine
by_policy m =
    let z = zone m.min m.max m.indoor.light in
    let c = addressed (wanted z m.min m.max m.outdoor.light m.lit) m.motor in
    record m {
      lit = lamp z m.lit;
      indoor = record (m.indoor) { fresh = false };
      outdoor = record (m.outdoor) { fresh = false };
      seq = next_seq c m.seq;
      sent = send_one c m.motor m.seq m.sent;
    }

used-acts : (m : Machine) → by_policy m ≡ used (acts m)
unfolding by_policy
used-acts m = ground arith

module _ {env : Env} (sound : IsSound env) (undef : Undefined) where
  abbrev pub P : Control → Trace → Type 0
  P = IsExplained env undef

  abbrev pub Q : Trace → Type 0
  Q = WasExplained env undef

  update-idle :
      (motor_fd light_fd indoor outdoor min max : ℤ) (g : Statics) (t : Trace)
      → (g.indoor_ready && g.outdoor_ready) ≡ false
      → update env motor_fd light_fd indoor outdoor min max g t ≡ (some (pos 0, g), t)
  unfolding update
  update-idle motor_fd light_fd indoor outdoor min max g t stale = ground arith

  -- The call of `update` is a decision of the machine, which is told nothing by it.
  abbrev Decided : Control → Trace → Option (Flow Control) × Trace → Type 0
  Decided s t (none, t') = ⊥
  Decided s t (some (return ret), t') = ⊥
  Decided s t (some (next s'), t') =
      (machine s' t' ≡ decide (machine s t)) × (told env t' ≡ told env t)

  run_update-Decided : (s : Control) (t : Trace) → Decided s t (run_update env s t)
  unfolding run_update
  run_update-Decided s t =
      let g = s.statics in
      let quiet = update-told env s.motor_fd s.light_fd s.indoor s.outdoor s.min s.max g t in
      elim (Bool-cases (g.indoor_ready && g.outdoor_ready)) [
        | inr stale ↦
            let idle = update-idle s.motor_fd s.light_fd s.indoor s.outdoor s.min s.max g t stale in
            ground arith
        | inl fresh ↦
            let policy = used-acts (machine s t) in
            let done =
              update-Policy sound s.motor_fd s.light_fd s.indoor s.outdoor s.min s.max g t
                (ground arith) (ground arith) in
            ground arith
      ]

  run_update-P :
      (s : Control) (t : Trace)
      → Reaches env.sizeof_sensor_packet undef (told env t) (decide (machine s t))
      → After P Q (run_update env s t)
  run_update-P s t r = go (run_update env s t) (run_update-Decided s t)
    where
      go : (out : Option (Flow Control) × Trace) → Decided s t out → After P Q out
      go (none, t') h = absurd h
      go (some (return ret), t') h = absurd h
      go (some (next s'), t') (e, quiet) = rw (e, quiet) r

  -- What a call of `use_sensor` leaves in the variable, which held `old`.
  abbrev Used : ℤ → ℤ → Trace → Option (ℤ × ℤ) × Trace → Type 0
  Used fd old t (none, t') = ⊥
  Used fd old t (some (ret, tmp), t') =
      let reply = env.recv_reply t fd in
      (tmp ≡ (if eqb_ℤ reply.0 (pos env.sizeof_sensor_packet) then reply.1.visible else old))
      × (motor_packets t' ≡ motor_packets t)
      × (told env t' ≡ heard fd reply.0 reply.1.visible ∷ told env t)

  use_sensor-Used : (fd old : ℤ) (t : Trace) → Used fd old t (use_sensor env fd old t)
  unfolding use_sensor
  use_sensor-Used fd old t =
      let works = sound.clock (received fd (env.recv_reply t fd).0 ∷ t) in ground arith

  pub handle_indoor-P : (s : Control) (t : Trace) → P s t → After P Q (handle_indoor env s t)
  unfolding handle_indoor
  handle_indoor-P s t r =
      go (use_sensor env s.indoor_fd s.indoor_tmp t) (use_sensor-Used s.indoor_fd s.indoor_tmp t)
    where
      go :
          (out : Option (ℤ × ℤ) × Trace)
          → Used s.indoor_fd s.indoor_tmp t out
          → After P Q (elim out.0 [
            | none ↦ (none, out.1)
            | some result ↦
                (if ltb_ℤ result.1 (pos 0)
                    then pure (next (record s { indoor_tmp = result.1 }))
                    else run_update env (record s {
                      indoor_tmp = result.1;
                      indoor = result.1;
                      statics = record (s.statics) { indoor_ready = true };
                    }))
                  out.1
          ])
      go (none, t') h = absurd h
      go (some (ret, tmp), t') (e, sent, news) =
          let reply = env.recv_reply t s.indoor_fd in
          elim (Bool-cases (ltb_ℤ tmp (pos 0))) [
            | inl negative ↦
                rw (negative, news)
                  (by_indoor s.indoor_fd reply.0 reply.1.visible refl
                    (rw (← e, negative, sent) refl) r)
            | inr light ↦ rw light (
                run_update-P
                  (record s {
                    indoor_tmp = tmp;
                    indoor = tmp;
                    statics = record (s.statics) { indoor_ready = true };
                  })
                  t'
                  (rw news (
                    by_indoor s.indoor_fd reply.0 reply.1.visible refl (rw (← e, light, sent) refl)
                      r)))
          ]

  pub handle_outdoor-P : (s : Control) (t : Trace) → P s t → After P Q (handle_outdoor env s t)
  unfolding handle_outdoor
  handle_outdoor-P s t r =
      go (use_sensor env s.outdoor_fd s.outdoor_tmp t)
        (use_sensor-Used s.outdoor_fd s.outdoor_tmp t)
    where
      go :
          (out : Option (ℤ × ℤ) × Trace)
          → Used s.outdoor_fd s.outdoor_tmp t out
          → After P Q (elim out.0 [
            | none ↦ (none, out.1)
            | some result ↦
                (if ltb_ℤ result.1 (pos 0)
                    then pure (next (record s { outdoor_tmp = result.1 }))
                    else run_update env (record s {
                      outdoor_tmp = result.1;
                      outdoor = result.1;
                      statics = record (s.statics) { outdoor_ready = true };
                    }))
                  out.1
          ])
      go (none, t') h = absurd h
      go (some (ret, tmp), t') (e, sent, news) =
          let reply = env.recv_reply t s.outdoor_fd in
          elim (Bool-cases (ltb_ℤ tmp (pos 0))) [
            | inl negative ↦
                rw (negative, news)
                  (by_outdoor s.outdoor_fd reply.0 reply.1.visible refl
                    (rw (← e, negative, sent) refl) r)
            | inr light ↦ rw light (
                run_update-P
                  (record s {
                    outdoor_tmp = tmp;
                    outdoor = tmp;
                    statics = record (s.statics) { outdoor_ready = true };
                  })
                  t'
                  (rw news (
                    by_outdoor s.outdoor_fd reply.0 reply.1.visible refl
                      (rw (← e, light, sent) refl) r)))
          ]
