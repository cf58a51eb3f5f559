-- ===== src/Sensing/Whole.antt =====
-- The whole of src/control_thread_unix.c, with two sensors that run src/sensor_thread_unix.c.
use real_time_systems.Base.{ℕ, ◌≡◌, inl, refl, List, []}
use real_time_systems.Base.Int.{ℤ, pos}
use real_time_systems.Os.{Env, Trace, After}
use real_time_systems.Control.Unix
use real_time_systems.Control.Unix.Loop.Readings.{AreReadings, Anyhow, main-AreReadings}
use real_time_systems.Sensing.Readings.{Run, IsSensed, IsReading, visible-IsReading}

-- For any two runs of sensor_thread_unix, where every whole packet that control_thread_unix receives was
-- sent by one of these: after any number of rounds, while its loop still runs, each of its two readings
-- is 0, as at the start, or the full intensity less the infrared one of a packet that one of the two
-- runs has sent; so are its two temporary variables; and the two readings, which it decides on, are not
-- negative.
pub mains-AreReadings :
    (a b : Run) (env : Env) (fuel rounds uninitialized : ℕ) (argv : List (List ℕ))
    → ((t : Trace) (fd : ℤ)
        → (env.recv_reply t fd).0 ≡ pos env.sizeof_sensor_packet
        → IsSensed a b (env.recv_reply t fd).1)
    → After
        (AreReadings (IsReading a b))
        Anyhow
        (Unix.Loop.main env fuel rounds argv uninitialized [])
mains-AreReadings a b env fuel rounds uninitialized argv arrives =
    main-AreReadings env fuel (IsReading a b) (inl refl)
      (λ t fd whole. visible-IsReading a b (env.recv_reply t fd).1 (arrives t fd whole)) rounds
      uninitialized argv
