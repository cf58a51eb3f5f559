-- ===== src/Stepper/Tests.antt =====
-- The theorems on the motor thread at concrete inputs, and runs.
use real_time_systems.Base.{
  ℕ, ◌≤◌, ◌≡◌, ◌≢◌, ◌⊎◌, ◌↔◌, refl, ltb, true, false, some, List, [], ◌∷◌, arith, length, codes,
  if◌then◌else◌,
}
use real_time_systems.Base.Int.{pos, neg, ◌≤ℤ◌, ◌<ℤ◌}
use real_time_systems.Os.{Env, Trace, wrote, opened, closed}
use real_time_systems.Os.Examples.{calm}
use real_time_systems.Sockets.Opening.{closed_fds}
use real_time_systems.Stepper.Examples.{calm-SleepsOn}
use real_time_systems.Stepper.Sleep.{msleep, SleepsOn, Slept, nanoseconds, msleep-Slept}
use real_time_systems.Stepper.Rotate.{rotate}
use real_time_systems.Stepper.Rotate.Overlap.{Overlapping, turns-rotate}
use real_time_systems.Stepper.Rotate.Train.{Wrote, writes, rotation, rotate-train}
use real_time_systems.Stepper.Text.{islegal}
use real_time_systems.Stepper.Text.Numbers.{IsNumber, islegal_iff}
use real_time_systems.Stepper.Gpio.{export, export_path}
use real_time_systems.Stepper.Gpio.Pins.{export-pins}

-- A signal interrupts each sleep of more than a millisecond, with a millisecond left.
abbrev signals : Env
signals = record calm {
  nanosleep_reply = λ t ts.
      if ltb 1_000_000 (nanoseconds ts)
      then (neg 1, true, record { tv_sec = pos 0; tv_nsec = pos 1_000_000 })
      else (pos 0, false, ts);
}

signals-SleepsOn : SleepsOn signals
signals-SleepsOn t ts e = ground arith

msleep-Slept_example : Slept signals (msleep signals 3_000_001 (pos 3) [])
msleep-Slept_example = msleep-Slept signals signals-SleepsOn 3_000_001 3 [] (omega arith)

interrupted : (msleep signals 2 (pos 3) []).0 ≡ some (pos 0)
unfolding msleep
interrupted = refl

rotate-train_example :
    (pos 0 <ℤ pos 2
      → pos 2 ≤ℤ pos 1000
      → Wrote
          (rotate calm 3_000_001 (pos 2) (pos 5) (pos 6) [])
          (rotation (pos 5) (pos 6) 2 (writes [])))
    × ((pos 2 ≤ℤ pos 0) ⊎ (pos 1000 <ℤ pos 2)
        → rotate calm 3_000_001 (pos 2) (pos 5) (pos 6) [] ≡ (some tt, []))
rotate-train_example =
    rotate-train calm calm-SleepsOn 3_000_001 (omega arith) (pos 5) (pos 6) (pos 2) []

islegal_iff_example :
    (islegal (codes "-40") ≡ true) ↔ ((length (codes "-40") ≤ 10) × IsNumber (codes "-40"))
islegal_iff_example = islegal_iff (codes "-40")

-- The pins of the enable, the direction and the pulse.
abbrev pins : List (List ℕ)
pins = codes "stepper" ∷ codes "17" ∷ codes "27" ∷ codes "22" ∷ []

abbrev exported : Trace
exported =
    wrote (pos 7) (codes "22") (pos 2)
    ∷ wrote (pos 7) (codes "27") (pos 2)
    ∷ wrote (pos 7) (codes "17") (pos 2)
    ∷ opened export_path (pos 7)
    ∷ []

export-pins_example :
    ((export calm pins [] ≡ (some (pos 1), closed (pos 7) ∷ exported))
      × (pos 7 ≢ neg 1)
      × (pos 0 <ℤ pos 2)
      × (pos 0 <ℤ pos 2)
      × (pos 0 <ℤ pos 2))
    ⊎ (((export calm pins []).0 ≡ some (pos 0)) × (closed_fds (export calm pins []).1 ≡ []))
export-pins_example = export-pins calm pins []

turns-rotate_example :
    Overlapping
      (pos 5)
      (pos 6)
      10
      3
      (writes (rotate calm 3_000_001 (pos 10) (pos 5) (pos 6) []).1)
      (writes (rotate calm 3_000_001 (pos 3) (pos 5) (pos 6) []).1)
turns-rotate_example =
    turns-rotate calm calm 3_000_001 3_000_001 (pos 5) (pos 6) (pos 10) (pos 3) calm-SleepsOn
      calm-SleepsOn (omega arith) (omega arith) (ground arith) (omega arith) (omega arith)
      (omega arith) (omega arith)
