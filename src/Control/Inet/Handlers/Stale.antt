-- ===== src/Control/Inet/Handlers/Stale.antt =====
-- What `main` of control_thread_inet does with a packet that did not arrive.
use real_time_systems.Base.{◌≡◌, ◌≢◌, true, ◌∷◌, arith}
use real_time_systems.Base.Int.{pos, ◌≤ℤ◌}
use real_time_systems.Os.{Env, Trace, received}
use real_time_systems.Control.Inet.Input.{use_sensor}
use real_time_systems.Control.Inet.Handlers.{Control, run_update, handle_indoor}

-- If a packet of the indoor sensor does not arrive whole, and the last value read was not negative,
-- `main` takes that old value for a new reading: it marks the indoor reading as new and runs `update`
-- on it.
handle_indoor-stale :
    (env : Env) (s : Control) (t : Trace)
    → (env.recv_reply t s.indoor_fd).0 ≢ pos env.sizeof_sensor_packet
    → pos 0 ≤ℤ s.indoor_tmp
    → handle_indoor env s t
      ≡ run_update env
          (record s { indoor = s.indoor_tmp; statics = record (s.statics) { indoor_ready = true } })
          (received s.indoor_fd (env.recv_reply t s.indoor_fd).0 ∷ t)
unfolding handle_indoor use_sensor
handle_indoor-stale env s t h h0 = ground arith
