-- ===== src/Control/Inet/Handlers/Invariant.antt =====
-- A property of the motor's descriptor, the static variables, the motor packets and the lines printed
-- that `update`, a new reading and a connection to a motor keep is kept by every branch of the loop.
use real_time_systems.Base.{
  ℕ, zero, suc, ◌≡◌, inl, inr, refl, true, Option, none, some, Option-cases, List, ◌∷◌, arith,
}
use real_time_systems.Base.Int.{ℤ}
use real_time_systems.Os.{
  Env, Trace, View, view, motor_packets, messages, receipts, deliveries, After, scanned, accepted,
}
use real_time_systems.Sockets.Inet
use real_time_systems.Control.Inet.Globals.{Undefined, Statics}
use real_time_systems.Control.Inet.Update.{update}
use real_time_systems.Control.Inet.Input.{use_sensor}
use real_time_systems.Control.Inet.Handlers.{
  Control, dial, set_min, set_max, set_motor, set_light, handle_command, ask_side,
  handle_connection, run_update, handle_indoor, handle_outdoor, handle_input, handle_hangup,
}

-- A part of the program that nobody notices.
abbrev pub IsQuiet : Trace → Trace → Type 0
IsQuiet t t' = view t' ≡ view t

-- To connect to a motor or a lamp neither sends a packet, prints, nor receives.
pub dial-seen :
    (env : Env) (host serv : List ℕ) (t : Trace)
    → let t' = (dial env host serv t).1 in
      (motor_packets t' ≡ motor_packets t)
      × (messages t' ≡ messages t)
      × (receipts t' ≡ receipts t)
      × (deliveries t' ≡ deliveries t)
unfolding dial Inet.conn_socket
dial-seen env host serv t = (ground arith, ground arith, ground arith, ground arith)

-- The question to the user changes neither the motor nor the statics, and is quiet.
abbrev Asked : Control → Trace → Option Control × Trace → Type 0
Asked s t (none, t') = IsQuiet t t'
Asked s t (some s', t') = (s'.motor_fd ≡ s.motor_fd) × (s'.statics ≡ s.statics) × IsQuiet t t'

ask_side-Asked :
    (env : Env) (undef : Undefined) (fuel : ℕ) (data_fd : ℤ) (s : Control) (t : Trace)
    → Asked s t (ask_side env undef fuel data_fd s t)
unfolding ask_side
ask_side-Asked env undef zero data_fd s t = refl
ask_side-Asked env undef (suc fuel) data_fd s t =
    let again = ask_side-Asked env undef fuel data_fd s (scanned (env.scanf_word_reply t).0 ∷ t) in
    ground arith

-- What a property is about: the motor's descriptor, the static variables, and what others see.
abbrev pub Property : Type 1
Property = ℤ → Statics → View → Type 0

-- The property after a part of `update` has returned.
abbrev pub Keeps : Property → ℤ → Option (ℤ × Statics) × Trace → Type 0
Keeps I motor_fd (none, t) = ⊥
Keeps I motor_fd (some (ret, g), t) = I motor_fd g (view t)

-- A call of `update` keeps it.
abbrev pub KeptByUpdates : Env → Property → Type 0
KeptByUpdates env I =
    (motor_fd light_fd indoor outdoor min max : ℤ) (g : Statics) (t : Trace)
    → I motor_fd g (view t)
    → Keeps I motor_fd (update env motor_fd light_fd indoor outdoor min max g t)

-- A call of `recv` keeps it, whether or not one of the two readings is marked as new.
abbrev pub KeptByReadings : Property → Type 0
KeptByReadings I =
    (motor_fd : ℤ) (g : Statics) (v : View)
    → I motor_fd g v
    → let v' = record v { taken_in = suc v.taken_in } in
      I motor_fd g v'
      × I motor_fd (record g { indoor_ready = true }) v'
      × I motor_fd (record g { outdoor_ready = true }) v'

-- A call of `dial` keeps it, whether or not its descriptor becomes that of the motor.
abbrev pub KeptByDials : Env → Property → Type 0
KeptByDials env I =
    (fd : ℤ) (g : Statics) (host serv : List ℕ) (t : Trace)
    → I fd g (view t)
    → I fd g (view (dial env host serv t).1)
      × ((fd' : ℤ) → (dial env host serv t).0 ≡ some fd' → I fd' g (view (dial env host serv t).1))

module _ (env : Env) (I : Property) (J : View → Type 0) (updated : KeptByUpdates env I)
    (ready : KeptByReadings I) (dialed : KeptByDials env I)
    (weaken : (fd : ℤ) (g : Statics) (v : View) → I fd g v → J v) where
  -- `I` while the loop runs, `J` when it has ended.
  abbrev pub Running : Control → Trace → Type 0
  Running s t = I s.motor_fd s.statics (view t)

  abbrev pub Ended : Trace → Type 0
  Ended t = J (view t)

  run_update-Running :
      (s : Control) (t : Trace) → Running s t → After Running Ended (run_update env s t)
  unfolding run_update
  run_update-Running s t h =
      let kept = updated s.motor_fd s.light_fd s.indoor s.outdoor s.min s.max s.statics t h in
      ground arith

  set_motor-Running :
      (s : Control) (t : Trace) → Running s t → After Running Ended (set_motor env s t)
  unfolding set_motor
  set_motor-Running s t h =
      let words = env.scanf_words_reply t in
      let t1 : Trace = scanned words.0 ∷ t in
      let (fd, t2) = dial env words.1 words.2 t1 in
      let (kept, turned) = dialed s.motor_fd s.statics words.1 words.2 t1 h in
      let over = weaken s.motor_fd s.statics (view t2) kept in
      elim (Option-cases fd) [
        | inl hangs ↦ ground arith
        | inr (fd', r) ↦ let moved = turned fd' r in ground arith
      ]

  set_light-Running :
      (s : Control) (t : Trace) → Running s t → After Running Ended (set_light env s t)
  unfolding set_light
  set_light-Running s t h =
      let words = env.scanf_words_reply t in
      let t1 : Trace = scanned words.0 ∷ t in
      let t2 = (dial env words.1 words.2 t1).1 in
      let kept = (dialed s.motor_fd s.statics words.1 words.2 t1 h).0 in
      let over = weaken s.motor_fd s.statics (view t2) kept in ground arith

  handle_command-Running :
      (s : Control) (t : Trace) → Running s t → After Running Ended (handle_command env s t)
  unfolding handle_command set_min set_max
  handle_command-Running s t h =
      let t1 : Trace = scanned (env.scanf_word_reply t).0 ∷ t in
      let motor = set_motor-Running s t1 h in let light = set_light-Running s t1 h in ground arith

  handle_connection-Running :
      (undef : Undefined) (fuel : ℕ) (s : Control) (t : Trace)
      → Running s t
      → After Running Ended (handle_connection env undef fuel s t)
  unfolding handle_connection
  handle_connection-Running undef fuel s t h =
      let data_fd = env.accept_reply t s.conn_fd in
      let asked = ask_side-Asked env undef fuel data_fd s (accepted s.conn_fd data_fd ∷ t) in
      let over = weaken s.motor_fd s.statics (view t) h in ground arith

  handle_indoor-Running :
      (s : Control) (t : Trace) → Running s t → After Running Ended (handle_indoor env s t)
  unfolding handle_indoor use_sensor
  handle_indoor-Running s t h =
      let (result, t1) = use_sensor env s.indoor_fd s.indoor_tmp t in
      let marked = record (s.statics) { indoor_ready = true } in
      let (same, new, other) = ready s.motor_fd s.statics (view t) h in
      elim (Option-cases result) [
        | inl hangs ↦ ground arith
        | inr ((ret, tmp), r) ↦ ground (
          arith,
          run_update-Running (record s { indoor_tmp = tmp; indoor = tmp; statics = marked }) t1,
        )
      ]

  handle_outdoor-Running :
      (s : Control) (t : Trace) → Running s t → After Running Ended (handle_outdoor env s t)
  unfolding handle_outdoor use_sensor
  handle_outdoor-Running s t h =
      let (result, t1) = use_sensor env s.outdoor_fd s.outdoor_tmp t in
      let marked = record (s.statics) { outdoor_ready = true } in
      let (same, other, new) = ready s.motor_fd s.statics (view t) h in
      elim (Option-cases result) [
        | inl hangs ↦ ground arith
        | inr ((ret, tmp), r) ↦ ground (
          arith,
          run_update-Running (record s { outdoor_tmp = tmp; outdoor = tmp; statics = marked }) t1,
        )
      ]

  pub handle_input-Running :
      (undef : Undefined) (fuel : ℕ) (fd : ℤ) (s : Control) (t : Trace)
      → Running s t
      → After Running Ended (handle_input env undef fuel fd s t)
  unfolding handle_input
  handle_input-Running undef fuel fd s t h =
      let command = handle_command-Running s t h in
      let connection = handle_connection-Running undef fuel s t h in
      let indoor = handle_indoor-Running s t h in
      let outdoor = handle_outdoor-Running s t h in ground arith

  pub handle_hangup-Running :
      (fd : ℤ) (s : Control) (t : Trace)
      → Running s t
      → After Running Ended (handle_hangup env fd s t)
  unfolding handle_hangup
  handle_hangup-Running fd s t h = let over = weaken s.motor_fd s.statics (view t) h in ground arith
