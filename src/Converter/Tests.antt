-- ===== src/Converter/Tests.antt =====
-- The sketch of the board at a concrete input.
use real_time_systems.Base.{◌≡◌, refl, if◌then◌else◌, ◌==◌, length, replicate, [], ◌∷◌, true}
use real_time_systems.Base.Int.{ℤ, pos}
use real_time_systems.Converter.{Log, Pin, digital, analog, run, setup, loop}
use real_time_systems.Converter.Relay.{written, readings, only_outputs, run-relays}

-- The level of every pin is high for the first call of `loop`, and low after it.
abbrev falling : Log → Pin → ℤ
falling log pin = if length log == 8 then pos 1 else pos 0

written-falling : written (digital 7) (run falling 2).1 ≡ pos 0 ∷ pos 1 ∷ []
unfolding run setup loop
written-falling = refl

run-relays_example :
    let log = (run falling 2).1 in
    (written (digital 7) log ≡ readings (analog 1) log)
    × (length (readings (analog 1) log) ≡ 2)
    × (written (digital 5) log ≡ replicate 2 (pos 1))
    × (written (digital 6) log ≡ replicate 2 (pos 1))
    × (only_outputs log ≡ true)
run-relays_example = run-relays falling 2
