-- ===== src/Stepper/Rotate.antt =====
-- `rotate` of src/stepper.c: pulses on the pin of the motor, between enabling and disabling it.
pub mod Train
pub mod Overlap
use real_time_systems.Base.{
  ℕ, zero, suc, ◌+◌, ◌*◌, ◌≤◌, ◌<◌, ◌≡◌, ◌≢◌, refl, ap, ◌∙◌, Bool, true, false, ◌||◌, not, Option,
  none, some, Option-cases, inl, inr, List, [], ◌∷◌, ◌++◌, arith, if◌then◌else◌,
}
use real_time_systems.Base.Int.{ℤ, pos, negsuc, pos_part, ◌≤ℤ◌, ◌<ℤ◌, ltb_ℤ, eqb_ℤ, eqb_ℤ_refl}
use real_time_systems.Os.{Env, Io, Trace, wrote, slept, pure, ◌>>=◌, ◌>>◌, write}
use real_time_systems.Stepper.Sleep.{sleep_rest, msleep, SleepsOn, Slept, msleep-Slept}

abbrev pub high : List ℕ
high = b'1' ∷ []

abbrev pub low : List ℕ
low = b'0' ∷ []

-- INTERVAL, in milliseconds.
abbrev pub interval : ℤ
interval = pos 3

module _ (env : Env) where
  -- The body of the loop. What `write` and `msleep` return is not looked at.
  unfoldable pub pulse : ℕ → ℤ → Io (Unit {0})
  pulse fuel pul_fd = do
    raised ← write env pul_fd high
    waited ← msleep env fuel interval
    lowered ← write env pul_fd low
    waited' ← msleep env fuel interval
    pure tt

  -- The `for` loop, for so many rounds.
  unfoldable pub pulses : ℕ → ℕ → ℤ → Io (Unit {0})
  pulses fuel zero pul_fd = pure tt
  pulses fuel (suc n) pul_fd = pulse fuel pul_fd >> pulses fuel n pul_fd

  unfoldable pub rotate : ℕ → ℤ → ℤ → ℤ → Io (Unit {0})
  rotate fuel rotations pul_fd ena_fd =
      if ltb_ℤ (pos 1000) rotations || not (ltb_ℤ (pos 0) rotations) then pure tt else do
        enabled ← write env ena_fd low
        pulses fuel (pos_part rotations) pul_fd
        disabled ← write env ena_fd high
        pure tt
