-- ===== src/Control/Inet/Main/Lamp.antt =====
-- The lamp of control_thread_inet over the whole run: what it prints of it, and `light_on`.
use real_time_systems.Base.{
  ℕ, ◌≡◌, inl, inr, refl, Bool, true, false, Option-cases, List, [], ◌∷◌, arith, if◌then◌else◌,
}
use real_time_systems.Base.Int.{ℤ, pos, neg}
use real_time_systems.Os.{
  Env, Trace, Message, messages, view, After, printed, raising_curtain, lowering_curtain,
  stopping_curtain, no_motor, light_turned_on, light_turned_off,
}
use real_time_systems.Control.Inet.Globals.{Undefined, Statics}
use real_time_systems.Control.Inet.Update.{send_command, switch_light, brighten, darken, update}
use real_time_systems.Control.Inet.Handlers.{Control, dial}
use real_time_systems.Control.Inet.Handlers.Invariant.{Property, Keeps, KeptByDials, dial-seen}
use real_time_systems.Control.Inet.Main.{main}
use real_time_systems.Control.Inet.Main.Invariant.{main-Running}

-- The lamp as the last line about it says: off at first.
abbrev pub is_lit : List Message → Bool
is_lit [] = false
is_lit (light_turned_on ∷ ms) = true
is_lit (light_turned_off ∷ ms) = false
is_lit (_ ∷ ms) = is_lit ms

-- The lamp is turned on only where it is off, and off only where it is on.
abbrev pub IsAlternating : List Message → Type 0
IsAlternating [] = Unit
IsAlternating (light_turned_on ∷ ms) = (is_lit ms ≡ false) × IsAlternating ms
IsAlternating (light_turned_off ∷ ms) = (is_lit ms ≡ true) × IsAlternating ms
IsAlternating (_ ∷ ms) = IsAlternating ms

abbrev pub Lit : Property
Lit fd g v = (g.light_on ≡ is_lit v.lines) × IsAlternating v.lines

-- While the loop runs, and in any case.
abbrev pub Lighting : Control → Trace → Type 0
Lighting s t = (s.statics.light_on ≡ is_lit (messages t)) × IsAlternating (messages t)

abbrev pub WasLighting : Trace → Type 0
WasLighting t = IsAlternating (messages t)

dial-Lit : (env : Env) → KeptByDials env Lit
dial-Lit env fd g host serv t h =
    let quiet = (dial-seen env host serv t).1 in
    let h' : Lit fd g (view (dial env host serv t).1) = rw quiet h in (h', λ fd' e. h')

module _ (env : Env) (motor_fd light_fd : ℤ) where
  send_command-Lit :
      (direction turns : ℤ) (g : Statics) (t : Trace)
      → Lit motor_fd g (view t)
      → Keeps Lit motor_fd (send_command env motor_fd direction turns g t)
  unfolding send_command
  send_command-Lit direction turns g t h = ground arith

  switch_light-Lit :
      (on : Bool) (g : Statics) (t : Trace)
      → (if g.light_on then on ≡ false else on ≡ true)
      → Lit motor_fd g (view t)
      → Keeps Lit motor_fd (switch_light env light_fd on g t)
  unfolding switch_light
  switch_light-Lit on g t turns h = ground arith

  brighten-Lit :
      (outdoor min : ℤ) (g : Statics) (t : Trace)
      → Lit motor_fd g (view t)
      → Keeps Lit motor_fd (brighten env motor_fd light_fd outdoor min g t)
  unfolding brighten
  brighten-Lit outdoor min g t h =
      let (sent, t1) = send_command env motor_fd (pos 0) (neg 1) g (printed raising_curtain ∷ t) in
      let kept = send_command-Lit (pos 0) (neg 1) g (printed raising_curtain ∷ t) h in
      elim (Option-cases sent) [
        | inl hangs ↦
            ground
              (arith, switch_light-Lit true g t, switch_light-Lit true g (printed no_motor ∷ t))
        | inr ((ret, g'), r) ↦ ground (
          arith,
          switch_light-Lit true g t,
          switch_light-Lit true g' t1,
          switch_light-Lit true g (printed no_motor ∷ t),
        )
      ]

  darken-Lit :
      (outdoor max : ℤ) (g : Statics) (t : Trace)
      → Lit motor_fd g (view t)
      → Keeps Lit motor_fd (darken env motor_fd light_fd outdoor max g t)
  unfolding darken
  darken-Lit outdoor max g t h =
      let kept = send_command-Lit (pos 1) (neg 1) g (printed lowering_curtain ∷ t) h in
      ground (arith, switch_light-Lit false g t)

  update-Lit :
      (indoor outdoor min max : ℤ) (g : Statics) (t : Trace)
      → Lit motor_fd g (view t)
      → Keeps Lit motor_fd (update env motor_fd light_fd indoor outdoor min max g t)
  unfolding update
  update-Lit indoor outdoor min max g t h =
      let stopped = send_command-Lit (pos 0) (pos 0) g (printed stopping_curtain ∷ t) h in
      ground (arith, brighten-Lit outdoor min g t, darken-Lit outdoor max g t)

-- Whatever the devices, the network and the user do: after any number of rounds the lines that
-- control_thread_inet has printed turn the lamp on only where it was off, as it is at first, and off
-- only where it was on; and while its loop still runs, `light_on` is what the last of them said.
pub main-Lighting :
    (env : Env) (undef : Undefined) (rounds fuel : ℕ) (argv : List (List ℕ))
    → After Lighting WasLighting (main env undef fuel rounds argv [])
main-Lighting env undef rounds fuel argv =
    main-Running env Lit (λ v. IsAlternating v.lines)
      (λ motor_fd light_fd indoor outdoor min max g t h.
        update-Lit env motor_fd light_fd indoor outdoor min max g t h)
      (λ fd g v h. (h, h, h)) (dial-Lit env) (λ fd g v h. h.1) undef fuel rounds argv (refl, tt)
