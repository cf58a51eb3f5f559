-- ===== src/Control/Inet/Machine/Refines.antt =====
-- A run of control_thread_inet, as a run of the machine.
use real_time_systems.Base.{
  ℕ, zero, suc, ◌≡◌, inl, inr, refl, ap, Option, none, some, Option-cases, List, [], ◌∷◌, arith,
}
use real_time_systems.Base.Int.{ℤ, pos}
use real_time_systems.Os.{Env, Trace, View, view, motor_packets, After, scanned, accepted}
use real_time_systems.Sockets.Inet
use real_time_systems.Control.Inet.Globals.{Undefined, min_cmd, max_cmd, motor_cmd}
use real_time_systems.Control.Inet.Inputs.{told}
use real_time_systems.Control.Inet.Update.Policy.{IsSound}
use real_time_systems.Control.Inet.Handlers.{
  Control, dial, set_min, set_max, set_motor, set_light, handle_command, ask_side,
  handle_connection, handle_input, handle_hangup,
}
use real_time_systems.Control.Inet.Handlers.Invariant.{dial-seen}
use real_time_systems.Control.Inet.Main.{main, start}
use real_time_systems.Control.Inet.Main.Rounds.{unseen, main_inv}
use real_time_systems.Control.Inet.Machine.{
  Reaches, rests, by_min, by_max, by_motor, seats_indoor, seats_outdoor, passes, leaves_indoor,
  leaves_outdoor, has_sent, scan, Says,
}
use real_time_systems.Control.Inet.Machine.Readings.{
  machine, IsExplained, WasExplained, ended-WasExplained, handle_indoor-P, handle_outdoor-P,
}

-- To connect to a motor or a lamp asks nobody.
dial-told :
    (env : Env) (host serv : List ℕ) (t : Trace) → told env (dial env host serv t).1 ≡ told env t
unfolding dial Inet.conn_socket
dial-told env host serv t = ground arith

module _ {env : Env} (sound : IsSound env) (undef : Undefined) where
  abbrev P : Control → Trace → Type 0
  P = IsExplained env undef

  abbrev Q : Trace → Type 0
  Q = WasExplained env undef

  P-Q : (s : Control) (t : Trace) → P s t → Q t
  P-Q = ended-WasExplained env undef

  -- What is typed is passed over, where it does not matter to the machine.
  passes-P : (s : Control) (t : Trace) (ret : ℤ) → P s t → P s (scanned ret ∷ t)
  passes-P s t ret r = passes (env.scanf_word_reply t) (env.scanf_int_reply t) r

  -- After the word: a number, or where to connect to.
  module _ (s : Control) (t : Trace) (ret : ℤ) (r : P s t) where
    abbrev t1 : Trace
    t1 = scanned ret ∷ t

    set_min-P : Says (env.scanf_word_reply t) min_cmd → After P Q (set_min env s t1)
    unfolding set_min
    set_min-P says =
        let n = env.scanf_int_reply t1 in
        let same = passes-P s t1 n.0 (passes-P s t ret r) in
        let low : Reaches env.sizeof_sensor_packet undef (told env (scanned n.0 ∷ t1))
            (record (machine s t) { number = scan n (machine s t); min = scan n (machine s t) }) =
          by_min (env.scanf_word_reply t) (env.scanf_word_reply t1) (env.scanf_int_reply t) n says
            refl r in
        ground arith

    set_max-P : Says (env.scanf_word_reply t) max_cmd → After P Q (set_max env s t1)
    unfolding set_max
    set_max-P says =
        let n = env.scanf_int_reply t1 in
        let same = passes-P s t1 n.0 (passes-P s t ret r) in
        let high : Reaches env.sizeof_sensor_packet undef (told env (scanned n.0 ∷ t1))
            (record (machine s t) { number = scan n (machine s t); max = scan n (machine s t) }) =
          by_max (env.scanf_word_reply t) (env.scanf_word_reply t1) (env.scanf_int_reply t) n says
            refl r in
        ground arith

    set_motor-P : Says (env.scanf_word_reply t) motor_cmd → After P Q (set_motor env s t1)
    unfolding set_motor
    set_motor-P says =
        let words = env.scanf_words_reply t1 in
        let t2 : Trace = scanned words.0 ∷ t1 in
        let (fd, t3) = dial env words.1 words.2 t2 in
        let quiet = (dial-seen env words.1 words.2 t2).0 in
        let untold = dial-told env words.1 words.2 t2 in
        let same = passes-P s t1 words.0 (passes-P s t ret r) in
        let over = P-Q s t2 same in
        elim (Option-cases fd) [
          | inl hangs ↦ ground arith
          | inr (fd', e) ↦
              let turned : Reaches env.sizeof_sensor_packet undef (told env t2)
                  (record (machine s t) { motor = fd' }) =
                by_motor (env.scanf_word_reply t) (env.scanf_word_reply t1) (env.scanf_int_reply t)
                  (env.scanf_int_reply t1) fd' says refl r in
              ground arith
        ]

    set_light-P : After P Q (set_light env s t1)
    unfolding set_light
    set_light-P =
        let words = env.scanf_words_reply t1 in
        let t2 : Trace = scanned words.0 ∷ t1 in
        let quiet = (dial-seen env words.1 words.2 t2).0 in
        let untold = dial-told env words.1 words.2 t2 in
        let same = passes-P s t1 words.0 (passes-P s t ret r) in
        let over = P-Q s t2 same in ground arith

  handle_command-P : (s : Control) (t : Trace) → P s t → After P Q (handle_command env s t)
  unfolding handle_command
  handle_command-P s t r =
      let w = env.scanf_word_reply t in
      let same = passes-P s t w.0 r in
      let low = set_min-P s t w.0 r in
      let high = set_max-P s t w.0 r in
      let motor = set_motor-P s t w.0 r in let light = set_light-P s t w.0 r in ground arith

  -- The question to the user seats the sensor, and what is typed till then is passed over.
  abbrev Asked : Option Control × Trace → Type 0
  Asked (none, t') = Q t'
  Asked (some s', t') = P s' t'

  ask_side-Asked :
      (fuel : ℕ) (data_fd : ℤ) (s : Control) (t : Trace)
      → P s t
      → Asked (ask_side env undef fuel data_fd s t)
  unfolding ask_side
  ask_side-Asked zero data_fd s t r = P-Q s t r
  ask_side-Asked (suc fuel) data_fd s t r =
      let w = env.scanf_word_reply t in
      let t1 : Trace = scanned w.0 ∷ t in
      let again = ask_side-Asked fuel data_fd s t1 (passes-P s t w.0 r) in
      let n = env.scanf_int_reply t in
      let inside : Says w undef.indoor_sym → P (record s { indoor_fd = data_fd }) t1 =
        λ says. seats_indoor w n data_fd says refl r in
      let outside : Says w undef.outdoor_sym → P (record s { outdoor_fd = data_fd }) t1 =
        λ says. seats_outdoor w n data_fd says refl r in
      ground arith

  handle_connection-P :
      (fuel : ℕ) (s : Control) (t : Trace)
      → P s t
      → After P Q (handle_connection env undef fuel s t)
  unfolding handle_connection
  handle_connection-P fuel s t r =
      let data_fd = env.accept_reply t s.conn_fd in
      let t1 : Trace = accepted s.conn_fd data_fd ∷ t in
      let (side, t2) = ask_side env undef fuel data_fd s t1 in
      let asked = ask_side-Asked fuel data_fd s t1 r in
      elim (Option-cases side) [
        | inl hangs ↦ ground arith
        | inr (s', e) ↦
            let seated : P s' t2 = ground arith in let over = P-Q s' t2 seated in ground arith
      ]

  handle_input-P :
      (fuel : ℕ) (fd : ℤ) (s : Control) (t : Trace)
      → P s t
      → After P Q (handle_input env undef fuel fd s t)
  unfolding handle_input
  handle_input-P fuel fd s t h =
      let command = handle_command-P s t h in
      let connection = handle_connection-P fuel s t h in
      let indoor = handle_indoor-P sound undef s t h in
      let outdoor = handle_outdoor-P sound undef s t h in ground arith

  handle_hangup-P :
      (fd : ℤ) (s : Control) (t : Trace) → P s t → After P Q (handle_hangup env fd s t)
  unfolding handle_hangup
  handle_hangup-P fd s t h =
      let over = P-Q s t h in
      let inside : P (record s { indoor_fd = pos 0 }) t = leaves_indoor refl h in
      let outside : P (record s { outdoor_fd = pos 0 }) t = leaves_outdoor refl h in ground arith

  -- Where the clock works and motors take what is sent: after any number of rounds, all that
  -- control_thread_inet has been told by `recv` and `scanf`, in that order, takes the abstract machine
  -- from rest to just the motor packets that the program has sent, their times aside. Every packet of a
  -- sensor counts, for the side that its connection is of, and one that is not whole for the last
  -- value of the side; a side may lose its connection; every typed word sets a threshold to the
  -- number typed next, or gives the motor or a side another connection, by what the word is, or is
  -- passed over. While the loop of the program still runs, the values of the sides, thresholds, marks
  -- of new values, connections of the sides and the motor, `light_on` and `seq` are the machine's.
  pub main-IsExplained :
      (rounds fuel : ℕ) (argv : List (List ℕ))
      → After (IsExplained env undef) (WasExplained env undef) (main env undef fuel rounds argv [])
  main-IsExplained rounds fuel argv =
      main_inv env undef fuel P Q P-Q (handle_input-P fuel) handle_hangup-P (λ s t ret h. h) early
        starts rounds argv
    where
      early : (t : Trace) → view t ≡ unseen → told env t ≡ [] → Q t
      early t quiet untold =
          let e : motor_packets t ≡ [] = ap (λ (v : View). v.packets) quiet in
          rw (untold, e) (has_sent rests refl)

      starts : (conn_fd : ℤ) (t : Trace) → view t ≡ unseen → told env t ≡ [] → P (start conn_fd) t
      starts conn_fd t quiet untold =
          let e : motor_packets t ≡ [] = ap (λ (v : View). v.packets) quiet in rw (untold, e) rests
