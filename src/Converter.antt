-- ===== src/Converter.antt =====
-- arduino_converter/arduino_converter.ino: the sketch of the board between the pins of stepper and the
-- driver of the motor. The core of the board, which is not in the repository,
-- calls `setup` once and `loop` for ever after.
pub mod Relay
mod Tests
use real_time_systems.Base.{ℕ, zero, suc, List, [], ◌∷◌, codes}
use real_time_systems.Base.Int.{ℤ, pos}

-- A pin, by its number, and the analog pins by theirs: A1, A3 and A5.
pub data Pin : Type 0 where
  digital : (number : ℕ) → Pin
  analog : (number : ℕ) → Pin

pub data Mode : Type 0 where
  input output : Mode

-- What the sketch has asked of the board, the latest first, with what `digitalRead` has returned.
pub data Act : Type 0 where
  -- `analogReference(DEFAULT)`
  analog_reference_set : Act
  serial_begun : (baud : ℕ) → Act
  mode_set : (pin : Pin) (mode : Mode) → Act
  read_level : (pin : Pin) (level : ℤ) → Act
  wrote_level : (pin : Pin) (level : ℤ) → Act
  printed_text : (text : List ℕ) → Act
  printed_dec : (value : ℤ) → Act
  printed_line_dec : (value : ℤ) → Act

abbrev pub Log : Type 0
Log = List Act

-- The globals.
pub record Levels : Type 0 where
  pub to5 : ℤ
  pub to6 : ℤ
  pub to7 : ℤ

abbrev pub first_levels : Levels
first_levels = record { to5 = pos 1; to6 = pos 1; to7 = pos 0 }

unfoldable pub setup : Log → Log
setup log =
    mode_set (digital 7) output
    ∷ mode_set (digital 6) output
    ∷ mode_set (digital 5) output
    ∷ mode_set (analog 5) input
    ∷ mode_set (analog 3) input
    ∷ mode_set (analog 1) input
    ∷ serial_begun 9600
    ∷ analog_reference_set
    ∷ log

module _ (digital_read : Log → Pin → ℤ) where
  -- The lines that read A5 and A3 are comments in the source.
  unfoldable pub loop : Levels × Log → Levels × Log
  loop (levels, log) =
      let to7 = digital_read log (analog 1) in
      (
        record levels { to7 = to7 },
        wrote_level (digital 7) to7
            ∷ wrote_level (digital 6) levels.to6
            ∷ wrote_level (digital 5) levels.to5
            ∷ printed_line_dec to7
            ∷ printed_text (codes " pul:")
            ∷ printed_dec levels.to6
            ∷ printed_text (codes " dir:")
            ∷ printed_dec levels.to5
            ∷ printed_text (codes "ena:")
            ∷ read_level (analog 1) to7
            ∷ log,
      )

  -- `setup`, and then so many calls of `loop`.
  unfoldable pub run : ℕ → Levels × Log
  run zero = (first_levels, setup [])
  run (suc n) = loop (run n)
