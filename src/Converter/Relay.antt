-- ===== src/Converter/Relay.antt =====
-- What the board of arduino_converter/ passes on to the motor's driver.
use real_time_systems.Base.{
  ℕ, zero, suc, ◌≡◌, refl, ◌&&◌, ◌==◌, Bool, true, false, List, [], ◌∷◌, length, replicate, arith,
  if◌then◌else◌,
}
use real_time_systems.Base.Int.{ℤ, pos}
use real_time_systems.Converter.{
  Pin, digital, analog, input, output, mode_set, read_level, wrote_level, Log, Levels, setup, loop,
  run,
}

abbrev same_pin : Pin → Pin → Bool
same_pin (digital m) (digital n) = m == n
same_pin (digital m) (analog n) = false
same_pin (analog m) (digital n) = false
same_pin (analog m) (analog n) = m == n

-- The levels written to a pin, and those read from it, the latest first.
abbrev pub written : Pin → Log → List ℤ
written pin [] = []
written pin (wrote_level p level ∷ log) =
    let rest = written pin log in if same_pin p pin then level ∷ rest else rest
written pin (_ ∷ log) = written pin log

abbrev pub readings : Pin → Log → List ℤ
readings pin [] = []
readings pin (read_level p level ∷ log) =
    let rest = readings pin log in if same_pin p pin then level ∷ rest else rest
readings pin (_ ∷ log) = readings pin log

-- Is a pin set up as an output?
abbrev drives : Pin → Log → Bool
drives pin [] = false
drives pin (mode_set p output ∷ log) =
    let rest = drives pin log in if same_pin p pin then true else rest
drives pin (mode_set p input ∷ log) =
    let rest = drives pin log in if same_pin p pin then false else rest
drives pin (_ ∷ log) = drives pin log

-- Levels are written only to pins that are outputs by then.
abbrev pub only_outputs : Log → Bool
only_outputs [] = true
only_outputs (wrote_level pin level ∷ log) = drives pin log && only_outputs log
only_outputs (_ ∷ log) = only_outputs log

module _ (digital_read : Log → Pin → ℤ) where
  abbrev HasRelayed : ℕ → Levels × Log → Type 0
  HasRelayed n (levels, log) =
      (levels.to5 ≡ pos 1)
      × (levels.to6 ≡ pos 1)
      × (drives (digital 5) log ≡ true)
      × (drives (digital 6) log ≡ true)
      × (drives (digital 7) log ≡ true)
      × (written (digital 7) log ≡ readings (analog 1) log)
      × (length (readings (analog 1) log) ≡ n)
      × (written (digital 5) log ≡ replicate n (pos 1))
      × (written (digital 6) log ≡ replicate n (pos 1))
      × (only_outputs log ≡ true)

  loop-HasRelayed :
      (n : ℕ) (state : Levels × Log)
      → HasRelayed n state
      → HasRelayed (suc n) (loop digital_read state)
  unfolding loop
  loop-HasRelayed n (levels, log) (e5, e6, o5, o6, o7, w7, count, w5, w6, ok) = ground arith

  run-HasRelayed : (n : ℕ) → HasRelayed n (run digital_read n)
  unfolding run setup
  run-HasRelayed zero = (refl, refl, refl, refl, refl, refl, refl, refl, refl, refl)
  run-HasRelayed (suc n) = loop-HasRelayed n (run digital_read n) (run-HasRelayed n)

  -- Whatever its pins read, after `setup` and any number of calls of `loop` the sketch has written to
  -- pin 7 the levels that it has read from A1, in that order, one for each call; to pins 5 and 6 it has
  -- written nothing but 1, once for each call, so neither what enables the motor nor its direction is
  -- passed on; and it has written only to pins set up as outputs.
  pub run-relays :
      (n : ℕ)
      → let log = (run digital_read n).1 in
        (written (digital 7) log ≡ readings (analog 1) log)
        × (length (readings (analog 1) log) ≡ n)
        × (written (digital 5) log ≡ replicate n (pos 1))
        × (written (digital 6) log ≡ replicate n (pos 1))
        × (only_outputs log ≡ true)
  run-relays n =
      let (e5, e6, o5, o6, o7, w7, count, w5, w6, ok) = run-HasRelayed n in (w7, count, w5, w6, ok)
