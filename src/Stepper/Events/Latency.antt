-- ===== src/Stepper/Events/Latency.antt =====
-- The latency of a packet as stepper computes it.
use real_time_systems.Base.{◌≡◌, arith}
use real_time_systems.Base.Int.{pos, ◌-ℤ◌, -ℤ_parts, eq_of_parts}
use real_time_systems.Os.{Timespec}
use real_time_systems.Control.Inet.Input.{diff_timestamp}
use real_time_systems.Stepper.Events.{latency}

-- stepper computes the latency as control_thread_inet does, but for the seconds of the packet's time,
-- which it does not subtract: its latency is too long by them.
latency-diff_timestamp :
    (current_time timestamp : Timespec)
    → ((latency current_time timestamp).tv_nsec ≡ (diff_timestamp current_time timestamp).tv_nsec)
      × ((latency current_time timestamp).tv_sec -ℤ timestamp.tv_sec
          ≡ (diff_timestamp current_time timestamp).tv_sec)
unfolding latency diff_timestamp
latency-diff_timestamp c p =
    let nsec = c.tv_nsec -ℤ p.tv_nsec in
    ground (
      arith,
      -ℤ_parts c.tv_sec p.tv_sec,
      -ℤ_parts c.tv_nsec p.tv_nsec,
      -ℤ_parts c.tv_sec (pos 1),
      -ℤ_parts (c.tv_sec -ℤ p.tv_sec) (pos 1),
      -ℤ_parts (c.tv_sec -ℤ pos 1) p.tv_sec,
      eq_of_parts ((c.tv_sec -ℤ pos 1) -ℤ p.tv_sec) ((c.tv_sec -ℤ p.tv_sec) -ℤ pos 1),
    )
