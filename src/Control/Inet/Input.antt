-- ===== src/Control/Inet/Input.antt =====
-- `use_sensor` of src/control_thread_inet.c, and the time that a packet took.
use real_time_systems.Base.{◌+◌, ◌*◌, ◌≡◌, ◌≢◌, not, some, ◌∷◌, arith, if◌then◌else◌}
use real_time_systems.Base.Int.{
  ℤ, pos, neg, pos_part, neg_part, ◌+ℤ◌, ◌-ℤ◌, ◌≤ℤ◌, ◌<ℤ◌, ltb_ℤ, eqb_ℤ, +ℤ_parts, -ℤ_parts,
}
use real_time_systems.Errors.{success, err_recv, err_time, code}
use real_time_systems.Os.{Env, Io, Trace, Timespec, pure, ◌>>=◌, recv, clock_gettime, received}

-- The lines that compute `diff_timestamp`: the packet's time taken from the time of receipt, with a
-- borrow of a second.
unfoldable pub diff_timestamp : Timespec → Timespec → Timespec
diff_timestamp recv_timestamp timestamp =
    let tv_sec = recv_timestamp.tv_sec -ℤ timestamp.tv_sec in
    let tv_nsec = recv_timestamp.tv_nsec -ℤ timestamp.tv_nsec in
    if ltb_ℤ tv_nsec (pos 0)
    then record { tv_sec = tv_sec -ℤ pos 1; tv_nsec = tv_nsec +ℤ pos 1_000_000_000 }
    else record { tv_sec = tv_sec; tv_nsec = tv_nsec }

-- `visible` is what `*data` holds before the call; the second result is what it holds after it. The
-- time that the packet took is computed and not used.
unfoldable pub use_sensor : Env → ℤ → ℤ → Io (ℤ × ℤ)
use_sensor env fd visible = do
  packet ← recv env fd
  if not (eqb_ℤ packet.0 (pos env.sizeof_sensor_packet))
      then pure (neg (code err_recv), visible)
      else do
        clock ← clock_gettime env
        if ltb_ℤ clock.0 (pos 0)
            then pure (neg (code err_time), visible)
            else pure (pos (code success), packet.1.visible)

-- A time with its nanoseconds below a second.
abbrev pub IsNormal : Timespec → Type 0
IsNormal ts = (pos 0 ≤ℤ ts.tv_nsec) × (ts.tv_nsec <ℤ pos 1_000_000_000)

-- `a` is `b` later than `c`, to the nanosecond. (Both sides of the equation are sums of what counts
-- for the left and what counts against the right.)
abbrev pub IsLater : Timespec → Timespec → Timespec → Type 0
IsLater a b c =
    1_000_000_000 * (pos_part a.tv_sec + neg_part b.tv_sec + neg_part c.tv_sec)
      + (pos_part a.tv_nsec + neg_part b.tv_nsec + neg_part c.tv_nsec)
    ≡ 1_000_000_000 * (neg_part a.tv_sec + pos_part b.tv_sec + pos_part c.tv_sec)
      + (neg_part a.tv_nsec + pos_part b.tv_nsec + pos_part c.tv_nsec)

-- Of two normal times `diff_timestamp` gives the normal time between them.
diff_timestamp-IsNormal :
    (received_at sent_at : Timespec)
    → IsNormal received_at
    → IsNormal sent_at
    → IsNormal (diff_timestamp received_at sent_at)
      × IsLater received_at (diff_timestamp received_at sent_at) sent_at
unfolding diff_timestamp
diff_timestamp-IsNormal r s hr hs =
    let sec = r.tv_sec -ℤ s.tv_sec in
    let nsec = r.tv_nsec -ℤ s.tv_nsec in
    ground (
      arith,
      -ℤ_parts r.tv_sec s.tv_sec,
      -ℤ_parts r.tv_nsec s.tv_nsec,
      -ℤ_parts sec (pos 1),
      +ℤ_parts nsec (pos 1_000_000_000),
    )

-- A packet that does not arrive whole leaves the old value, and the failure shows only in the result
-- of the call, which `main` ignores.
pub use_sensor-keeps_old :
    (env : Env) (fd visible : ℤ) (t : Trace)
    → (env.recv_reply t fd).0 ≢ pos env.sizeof_sensor_packet
    → use_sensor env fd visible t
      ≡ (some (neg (code err_recv), visible), received fd (env.recv_reply t fd).0 ∷ t)
unfolding use_sensor
use_sensor-keeps_old env fd visible t h = ground arith
