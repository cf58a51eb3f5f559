-- ===== src/Stepper/Setup/FirstLevel.antt =====
-- The direction that stepper starts with.
use real_time_systems.Base.{
  ℕ, ◌≡◌, List, [], ◌∷◌, some, arith, get_or, codes, str_eq, if◌then◌else◌,
}
use real_time_systems.Base.Int.{ℤ, eqb_ℤ_refl}
use real_time_systems.Os.{Env, Trace, next, opened, wrote}
use real_time_systems.Stepper.Rotate.{high, low}
use real_time_systems.Stepper.Sequence.Mutex.{level}
use real_time_systems.Stepper.Setup.{Pins, no_pins, value_path, dir_num, direction_arg, init_values}

-- Where the values of the pins could be set, the pin of the direction is high if DIRECTION is "+" and
-- low if it is anything else.
pub level-init_values :
    (env : Env) (argv : List (List ℕ)) (pins : Pins) (t : Trace)
    → (init_values env argv (1 ∷ 2 ∷ []) no_pins t).0 ≡ some (next pins)
    → level pins.direction_fd (init_values env argv (1 ∷ 2 ∷ []) no_pins t).1
      ≡ some (if str_eq (get_or argv direction_arg []) (codes "+") then high else low)
unfolding init_values
level-init_values env argv pins t e = ground (arith, eqb_ℤ_refl pins.direction_fd)

-- What `open` has given at some time for the file with the value of the pin in `argv[DIR_NUM]`.
abbrev pub IsDirectionOf : Env → List (List ℕ) → ℤ → Type 0
IsDirectionOf env argv fd =
    (before : Trace) × (fd ≡ env.open_reply before (value_path (get_or argv dir_num [])))

-- The descriptor for the direction is that.
pub init_values-IsDirectionOf :
    (env : Env) (argv : List (List ℕ)) (pins : Pins) (t : Trace)
    → (init_values env argv (1 ∷ 2 ∷ []) no_pins t).0 ≡ some (next pins)
    → IsDirectionOf env argv pins.direction_fd
unfolding init_values
init_values-IsDirectionOf env argv pins t e =
    let first = value_path (get_or argv 1 []) in
    let fd = env.open_reply t first in
    let t1 : Trace = opened first fd ∷ t in
    let t2 : Trace = wrote fd high (env.write_reply t1 fd high) ∷ t1 in (t2, ground arith)
