-- ===== src/Stepper/Sequence/Refines.antt =====
-- `seq_rotate` as one call of the main thread, against the model of the two threads.
use real_time_systems.Base.{
  ℕ, zero, suc, ◌+◌, ◌<◌, ◌≡◌, ◌≢◌, ◌↔◌, refl, sym, ◌∙◌, true, false, Option, none, some, ◌∷◌, ap,
  arith,
}
use mathlib.Core.Path.{subst}
use real_time_systems.Base.Int.{ℤ, pos, pos_part, eqb_ℤ}
use real_time_systems.Os.{Env, Trace, wrote, locked}
use real_time_systems.Stepper.Sleep.{SleepsOn, msleep}
use real_time_systems.Stepper.Rotate.{pulse, pulses, rotate, interval, high, low}
use real_time_systems.Stepper.Rotate.Train.{msleep_returns}
use real_time_systems.Stepper.Threads.{System, IsReachable, main_thread, called, idle, Thread}
use real_time_systems.Stepper.Threads.Invariant.{MainOk, MainOk-IsFlag, IsReachable-IsConsistent}
use real_time_systems.Stepper.Threads.Commands.{Serves, Serves-IsReachable, Obeys, seq_rotate-Obeys}
use real_time_systems.Stepper.Sequence.{rotate_and_restore, seq_rotate}
use real_time_systems.Stepper.Sequence.Mutex.{held, is_proper, Sequenced, seq_rotate-Sequenced}

-- What a command does to `working` is determined by the command.
Obeys-unique : (r before a b : ℤ) → Obeys r before a → Obeys r before b → a ≡ b
Obeys-unique r before a b ha hb = ground arith

-- Who holds the mutex in the event loop.
idle-owner :
    (w : ℤ) (o : Option Thread)
    → MainOk idle w o
    → (eqb_ℤ w (pos 0) ≡ true) ↔ (o ≡ some main_thread)
idle-owner w o h = ground arith

module _ (env : Env) (on : SleepsOn env) (fuel : ℕ) (enough : 3_000_000 < fuel)
    (pul_fd ena_fd : ℤ) where
  pulse_returns : (t : Trace) → (pulse env fuel pul_fd t).0 ≡ some tt
  unfolding pulse
  pulse_returns t =
      let t1 : Trace = wrote pul_fd high (env.write_reply t pul_fd high) ∷ t in
      let t2 = (msleep env fuel interval t1).1 in
      let t3 : Trace = wrote pul_fd low (env.write_reply t2 pul_fd low) ∷ t2 in
      let first = msleep_returns env on fuel enough t1 in
      let second = msleep_returns env on fuel enough t3 in ground (arith, first.1, second.1)

  pulses_return : (n : ℕ) (t : Trace) → (pulses env fuel n pul_fd t).0 ≡ some tt
  unfolding pulses
  pulses_return zero t = refl
  pulses_return (suc n) t =
      ground (arith, pulse_returns t, pulses_return n (pulse env fuel pul_fd t).1)

  rotate_returns :
      (rotations : ℤ) (t : Trace) → (rotate env fuel rotations pul_fd ena_fd t).0 ≡ some tt
  unfolding rotate
  rotate_returns rotations t = ground (
    arith,
    pulses_return (pos_part rotations) (wrote ena_fd low (env.write_reply t ena_fd low) ∷ t),
  )

  -- A call of `seq_rotate` hangs nowhere.
  seq_rotate_returns :
      (rotations working : ℤ) (t : Trace)
      → (seq_rotate env fuel rotations pul_fd ena_fd working t).0 ≢ none
  unfolding seq_rotate rotate_and_restore
  seq_rotate_returns rotations working t =
      ground (arith, rotate_returns rotations t, rotate_returns rotations (locked ∷ t))

  Sequenced-some :
      (pin r before : ℤ) (t : Trace) (not_pul : eqb_ℤ pul_fd pin ≡ false)
      (not_ena : eqb_ℤ ena_fd pin ≡ false) (out : Option ℤ × Trace)
      → out.0 ≢ none
      → Sequenced env pin fuel pul_fd ena_fd not_pul not_ena r before t out
      → (after : ℤ) × (out.0 ≡ some after)
        × Obeys r before after
        × (held out.1 ≡ eqb_ℤ after (pos 0))
        × (is_proper out.1 ≡ true)
  Sequenced-some pin r before t not_pul not_ena (none, t') returns h = absurd (returns refl)
  Sequenced-some pin r before t not_pul not_ena (some after, t') returns h =
      (after, refl, h.1, h.2, h.3)

  -- Where interrupted sleeps go on sleeping, and given rounds for each nanosecond of one: if the two
  -- threads serve a command that came in a reachable state, whatever steps of the worker come between,
  -- then `seq_rotate`, called with the same `working` and the mutex held just where that is 0,
  -- returns the value that they end with. It keeps to the mutex, and holds it after that just where the
  -- main thread of the two does.
  pub seq_rotate-refines :
      (n : ℕ) (s s' : System) (rotations : ℤ) (t : Trace)
      → IsReachable s
      → s.main ≡ called rotations
      → Serves n s s'
      → s'.main ≡ idle
      → held t ≡ eqb_ℤ s.working (pos 0)
      → is_proper t ≡ true
      → let out = seq_rotate env fuel rotations pul_fd ena_fd s.working t in
        (out.0 ≡ some s'.working)
        × ((held out.1 ≡ true) ↔ (s'.owner ≡ some main_thread))
        × (is_proper out.1 ≡ true)
  seq_rotate-refines n s s' rotations t reach at serves back mine ok =
      let pin = pos (pos_part pul_fd + pos_part ena_fd + 1) in
      let (hm, hk) = IsReachable-IsConsistent reach in
      let (hm', hk') = IsReachable-IsConsistent (Serves-IsReachable reach serves) in
      let (after, r, obeys, has, keeps) =
        Sequenced-some pin rotations s.working t (ground arith) (ground arith)
          (seq_rotate env fuel rotations pul_fd ena_fd s.working t)
          (seq_rotate_returns rotations s.working t)
          (seq_rotate-Sequenced env pin fuel pul_fd ena_fd (ground arith) (ground arith) rotations
            s.working t (MainOk-IsFlag s.main s.working s.owner hm) mine ok) in
      let same =
        Obeys-unique rotations s.working after s'.working obeys
          ((seq_rotate-Obeys n s s' rotations reach at serves).1 back) in
      let own =
        idle-owner s'.working s'.owner (subst (λ pc. MainOk pc s'.working s'.owner) back hm') in
      let has' = has ∙ ap (λ w. eqb_ℤ w (pos 0)) same in
      (r ∙ ap (λ w. some w) same, (λ h. own.0 (sym has' ∙ h), λ h. has' ∙ own.1 h), keeps)
