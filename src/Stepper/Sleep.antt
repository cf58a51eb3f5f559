-- ===== src/Stepper/Sleep.antt =====
-- `msleep` of src/stepper.c.
use real_time_systems.Base.{
  ℕ, zero, suc, ◌+◌, ◌*◌, ◌/◌, ◌%◌, ◌<◌, ◌≡◌, true, false, ◌&&◌, Option, some, Bool-cases, inl, inr,
  sym, ◌∷◌, arith,
}
use mathlib.Core.Path.{subst}
use real_time_systems.Base.Int.{ℤ, pos, negsuc, pos_part, neg, truthy}
use real_time_systems.Os.{Env, Io, Trace, Timespec, pure, out_of_fuel, ◌>>=◌, nanosleep, slept}

module _ (env : Env) where
  -- The `do … while`: sleep again for what remains, as long as a signal interrupts. A round for each
  -- unit of fuel.
  unfoldable pub sleep_rest : ℕ → Timespec → Io ℤ
  sleep_rest zero ts = out_of_fuel
  sleep_rest (suc fuel) ts = nanosleep env ts >>= λ reply. elim (truthy reply.0 && reply.1) [
    | true ↦ sleep_rest fuel reply.2
    | false ↦ pure reply.0
  ]

  unfoldable pub msleep : ℕ → ℤ → Io ℤ
  unfolding sleep_rest
  msleep fuel (negsuc n) = pure (neg 1)
  msleep fuel (pos tms) =
      sleep_rest fuel (record { tv_sec = pos (tms / 1000); tv_nsec = pos (tms % 1000 * 1_000_000) })

-- The nanoseconds of a time.
abbrev pub nanoseconds : Timespec → ℕ
nanoseconds ts = pos_part ts.tv_sec * 1_000_000_000 + pos_part ts.tv_nsec

-- An interrupted `nanosleep` leaves less to sleep than it was asked for.
abbrev pub SleepsOn : Env → Type 0
SleepsOn env =
    (t : Trace) (ts : Timespec)
    → (env.nanosleep_reply t ts).1 ≡ true
    → nanoseconds (env.nanosleep_reply t ts).2 < nanoseconds ts

-- A call that was not interrupted is the last one.
abbrev pub Slept : Env → Option ℤ × Trace → Type 0
Slept env out =
    (t : Trace) × (ts : Timespec) × (out.0 ≡ some (env.nanosleep_reply t ts).0)
    × (out.1 ≡ slept ts (env.nanosleep_reply t ts).0 ∷ t)
    × ((truthy (env.nanosleep_reply t ts).0 && (env.nanosleep_reply t ts).1) ≡ false)

sleep_rest-again :
    (env : Env) (fuel : ℕ) (ts : Timespec) (t : Trace)
    → (truthy (env.nanosleep_reply t ts).0 && (env.nanosleep_reply t ts).1) ≡ true
    → sleep_rest env (suc fuel) ts t
      ≡ sleep_rest env fuel (env.nanosleep_reply t ts).2 (slept ts (env.nanosleep_reply t ts).0 ∷ t)
unfolding sleep_rest
sleep_rest-again env fuel ts t h = rw (h, ◌>>=◌)

module _ (env : Env) (on : SleepsOn env) where
  sleep_rest-Slept :
      (fuel : ℕ) (ts : Timespec) (t : Trace)
      → nanoseconds ts < fuel
      → Slept env (sleep_rest env fuel ts t)
  unfolding sleep_rest
  sleep_rest-Slept zero ts t h = absurd (omega arith)
  sleep_rest-Slept (suc fuel) ts t h =
      let reply = env.nanosleep_reply t ts in
      elim (Bool-cases (truthy reply.0 && reply.1)) [
        | inr last ↦ (t, ts, ground arith, ground arith, last)
        | inl again ↦
            let less = on t ts in
            subst (Slept env) (sym (sleep_rest-again env fuel ts t again))
              (sleep_rest-Slept fuel reply.2 (slept ts reply.0 ∷ t) (ground arith))
      ]

  -- Where each interruption leaves less to sleep, `msleep` of any time that is not negative ends,
  -- given a round for each nanosecond and one more, by a call of `nanosleep` that no signal
  -- interrupted, and returns what that call returned.
  pub msleep-Slept :
      (fuel tms : ℕ) (t : Trace) → tms * 1_000_000 < fuel → Slept env (msleep env fuel (pos tms) t)
  unfolding msleep
  msleep-Slept fuel tms t h = sleep_rest-Slept fuel _ t (omega arith)
