-- ===== src/BlockingIo/Quiet.antt =====
-- Reading and writing a device sends no sensor packet and connects to nothing.
use real_time_systems.Base.{ℕ, zero, suc, ◌+◌, ◌-◌, ◌%◌, refl, List, ◌∷◌, take, drop, arith}
use real_time_systems.Base.Int.{ℤ, pos_part}
use real_time_systems.Os.{Env, Trace, wrote, did_read, IsSecluded}
use real_time_systems.BlockingIo.{
  size_mod, store, blocking_write_from, blocking_write, blocking_read_from, blocking_read,
}

blocking_write_from-IsSecluded :
    (env : Env) (fuel : ℕ) (fd : ℤ) (buf : List ℕ) (len from : ℕ) (t : Trace)
    → IsSecluded t (blocking_write_from env fuel fd buf len from t).1
unfolding blocking_write_from
blocking_write_from-IsSecluded env zero fd buf len from t = (refl, refl)
blocking_write_from-IsSecluded env (suc fuel) fd buf len from t =
    let bytes = take (len - from) (drop from buf) in
    let ret = env.write_reply t fd bytes in
    ground (
      arith,
      blocking_write_from-IsSecluded env fuel fd buf len ((from + pos_part ret) % size_mod)
          (wrote fd bytes ret ∷ t),
    )

pub blocking_write-IsSecluded :
    (env : Env) (fuel : ℕ) (fd : ℤ) (buf : List ℕ) (len : ℕ) (t : Trace)
    → IsSecluded t (blocking_write env fuel fd buf len t).1
unfolding blocking_write
blocking_write-IsSecluded env fuel fd buf len t =
    blocking_write_from-IsSecluded env fuel fd buf len 0 t

blocking_read_from-IsSecluded :
    (env : Env) (fuel : ℕ) (fd : ℤ) (buf : List ℕ) (len from : ℕ) (t : Trace)
    → IsSecluded t (blocking_read_from env fuel fd buf len from t).1
unfolding blocking_read_from
blocking_read_from-IsSecluded env zero fd buf len from t = (refl, refl)
blocking_read_from-IsSecluded env (suc fuel) fd buf len from t =
    let reply = env.read_reply t fd (len - from) in
    ground (
      arith,
      blocking_read_from-IsSecluded env fuel fd (store buf from reply.1) len
          ((from + pos_part reply.0) % size_mod) (did_read fd (len - from) reply.0 reply.1 ∷ t),
    )

pub blocking_read-IsSecluded :
    (env : Env) (fuel : ℕ) (fd : ℤ) (buf : List ℕ) (len : ℕ) (t : Trace)
    → IsSecluded t (blocking_read env fuel fd buf len t).1
unfolding blocking_read
blocking_read-IsSecluded env fuel fd buf len t =
    blocking_read_from-IsSecluded env fuel fd buf len 0 t
