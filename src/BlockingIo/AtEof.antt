-- ===== src/BlockingIo/AtEof.antt =====
-- `blocking_read` where the stream has ended.
use real_time_systems.Base.{ℕ, zero, suc, ◌+◌, ◌-◌, ◌<◌, ◌≡◌, refl, List, none, arith, ◌%◌}
use real_time_systems.Base.Int.{ℤ, pos}
use real_time_systems.Os.{Env, Trace}
use real_time_systems.BlockingIo.{size_mod, blocking_read_from, blocking_read}
use real_time_systems.BlockingIo.Rounds.{round_more}

blocking_read_from-at_eof :
    (env : Env) (fuel : ℕ) (fd : ℤ) (buf : List ℕ) (len from : ℕ) (t : Trace)
    → ((t' : Trace) (n : ℕ) → (env.read_reply t' fd n).0 ≡ pos 0)
    → from < len
    → len < size_mod
    → (blocking_read_from env fuel fd buf len from t).0 ≡ none
unfolding blocking_read_from
blocking_read_from-at_eof env zero fd buf len from t eof lt small = refl
blocking_read_from-at_eof env (suc fuel) fd buf len from t eof lt small =
    rw (round_more env fd len fuel buf from 0 t lt (eof t (len - from)), same)
      (blocking_read_from-at_eof env fuel fd _ len from _ eof lt small)
  where
    same : (from + 0) % size_mod ≡ from
    same = omega arith

-- At the end of a file, where `read` returns 0, `blocking_read` asked for a byte or more never
-- returns, whatever number of rounds it is given.
pub blocking_read-at_eof :
    (env : Env) (fuel : ℕ) (fd : ℤ) (buf : List ℕ) (len : ℕ) (t : Trace)
    → ((t' : Trace) (n : ℕ) → (env.read_reply t' fd n).0 ≡ pos 0)
    → 0 < len
    → len < size_mod
    → (blocking_read env fuel fd buf len t).0 ≡ none
unfolding blocking_read
blocking_read-at_eof env fuel fd buf len t eof lt small =
    blocking_read_from-at_eof env fuel fd buf len 0 t eof lt small
