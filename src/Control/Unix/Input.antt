-- ===== src/Control/Unix/Input.antt =====
-- `use_sensor` of src/control_thread_unix.c.
use real_time_systems.Base.{not, if◌then◌else◌}
use real_time_systems.Base.Int.{ℤ, pos, neg, ltb_ℤ, eqb_ℤ}
use real_time_systems.Errors.{success, err_recv, err_time, code}
use real_time_systems.Os.{Env, Io, pure, ◌>>=◌, clock_gettime}
use real_time_systems.Sockets.Unix.{recv_packet}

-- `visible` is what `*data` holds before the call; the second result is what it holds after it. The
-- time that the packet took is only printed.
unfoldable pub use_sensor : Env → ℤ → ℤ → Io (ℤ × ℤ)
use_sensor env fd visible = do
  packet ← recv_packet env fd
  if not (eqb_ℤ packet.0 (pos env.sizeof_sensor_packet))
      then pure (neg (code err_recv), visible)
      else do
        clock ← clock_gettime env
        if ltb_ℤ clock.0 (pos 0)
            then pure (neg (code err_time), visible)
            else pure (pos (code success), packet.1.visible)
