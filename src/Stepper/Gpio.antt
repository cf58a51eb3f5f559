-- ===== src/Stepper/Gpio.antt =====
-- The pins of src/stepper.c: `set_direction`, `export`, `unexport`.
pub mod Pins
use real_time_systems.Base.{
  ℕ, zero, suc, Bool, true, false, ◌&&◌, not, List, [], ◌∷◌, ◌++◌, get_or, take, codes,
  if◌then◌else◌,
}
use real_time_systems.Base.Int.{ℤ, pos, neg, ltb_ℤ, eqb_ℤ}
use real_time_systems.Os.{Env, Io, pure, ◌>>=◌, ◌>>◌, open_file, write, close}
use real_time_systems.Stepper.Rotate.{high, low}

abbrev pub export_path : List ℕ
export_path = codes "/sys/class/gpio/export"

abbrev pub unexport_path : List ℕ
unexport_path = codes "/sys/class/gpio/unexport"

-- ENABLE_NUM to PUL_NUM of `enum ARGS`.
abbrev pub pin_args : List ℕ
pin_args = 1 ∷ 2 ∷ 3 ∷ []

-- The two bytes at `argv[i]`, the terminating 0 among them. (Of an empty text, that 0 alone: what
-- stands behind it is not the program's.)
abbrev pub pin_bytes : List (List ℕ) → ℕ → List ℕ
pin_bytes argv i = take 2 (get_or argv i [] ++ 0 ∷ [])

module _ (env : Env) where
  -- 1 for success, 0 for failure.
  unfoldable pub set_direction : ℤ → ℤ → Io ℤ
  set_direction direction dir_fd =
      if not (eqb_ℤ direction (pos 0)) && not (eqb_ℤ direction (pos 1)) then pure (pos 0) else do
        ret ← write env dir_fd (if eqb_ℤ direction (pos 1) then high else low)
        if ltb_ℤ ret (pos 0) then pure (pos 0) else pure (pos 1)

  -- The loop of `export`, with the `close` and the `return` after it.
  pub export_pins : ℤ → List (List ℕ) → List ℕ → Io ℤ
  export_pins fd argv [] = close fd >> pure (pos 1)
  export_pins fd argv (i ∷ rest) = do
    ret ← write env fd (pin_bytes argv i)
    if not (ltb_ℤ (pos 0) ret) then pure (pos 0) else export_pins fd argv rest

  unfoldable pub export : List (List ℕ) → Io ℤ
  unfolding export_pins
  export argv = do
    fd ← open_file env export_path
    if eqb_ℤ fd (neg 1) then pure (pos 0) else export_pins fd argv pin_args

  -- The loop of `unexport`, with the `close` after it.
  pub unexport_pins : ℤ → List (List ℕ) → List ℕ → Io (Unit {0})
  unexport_pins fd argv [] = close fd
  unexport_pins fd argv (i ∷ rest) = do
    ret ← write env fd (pin_bytes argv i)
    unexport_pins fd argv rest

  -- A failure to open is reported, and the loop writes to -1.
  unfoldable pub unexport : List (List ℕ) → Io (Unit {0})
  unfolding unexport_pins
  unexport argv = do fd ← open_file env unexport_path; unexport_pins fd argv pin_args
