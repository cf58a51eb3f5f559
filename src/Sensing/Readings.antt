-- ===== src/Sensing/Readings.antt =====
-- What a controller can take for a reading, where its packets come from two runs of
-- src/sensor_thread_unix.c.
use real_time_systems.Base.{ℕ, ◌≡◌, ◌⊎◌, inl, inr, List, [], ◌∷◌, ◌++◌}
use mathlib.Core.Path.{subst}
use real_time_systems.Base.Int.{ℤ, pos, ◌-ℤ◌}
use real_time_systems.Os.{Env, SensorPacket, sensor_packets}
use real_time_systems.SensorThread.{main_unix}
use real_time_systems.SensorThread.Stream.{IsStream, main-IsStream}
use real_time_systems.Sensing.{split-IsStream, balanced}

-- A run of the program: what it runs on, for how many rounds, and its arguments.
pub record Run : Type 0 where
  pub env : Env
  pub rounds : ℕ
  pub fuel : ℕ
  pub argv : List (List ℕ)
  pub uninitialized : SensorPacket

abbrev pub sent_by : Run → List SensorPacket
sent_by r = sensor_packets (main_unix r.env r.rounds r.fuel r.argv r.uninitialized []).1

-- The run has sent the packet.
abbrev pub HasSent : Run → SensorPacket → Type 0
HasSent r p =
    (later : List SensorPacket) × (earlier : List SensorPacket) × (sent_by r ≡ later ++ p ∷ earlier)

-- One of the two runs has.
abbrev pub IsSensed : Run → Run → SensorPacket → Type 0
IsSensed a b p = HasSent a p ⊎ HasSent b p

-- 0, or the full intensity less the infrared one in such a packet.
abbrev pub IsReading : Run → Run → ℤ → Type 0
IsReading a b light =
    (light ≡ pos 0) ⊎ ((p : SensorPacket) × IsSensed a b p × (light ≡ p.full -ℤ p.infrared))

visible-HasSent : (r : Run) (p : SensorPacket) → HasSent r p → p.visible ≡ p.full -ℤ p.infrared
visible-HasSent r p (later, earlier, sent) = balanced p (
    split-IsStream later earlier p
      (subst IsStream sent (main-IsStream r.env r.rounds r.fuel r.argv r.uninitialized).1))

-- What a sensor computes as visible is a reading.
pub visible-IsReading : (a b : Run) (p : SensorPacket) → IsSensed a b p → IsReading a b p.visible
visible-IsReading a b p (inl by_a) = inr (p, inl by_a, visible-HasSent a p by_a)
visible-IsReading a b p (inr by_b) = inr (p, inr by_b, visible-HasSent b p by_b)
