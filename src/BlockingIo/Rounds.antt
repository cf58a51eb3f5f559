-- ===== src/BlockingIo/Rounds.antt =====
-- The rounds of the loop of `blocking_read`, one at a time.
use real_time_systems.Base.{
  ℕ, suc, ◌+◌, ◌-◌, ◌≤◌, ◌<◌, ◌≡◌, ap, List, [], ◌∷◌, ◌++◌, some, length, drop, arith, add-suc_left,
  ◌%◌,
}
use native.Mathlib.Nat.{zero-add}
use real_time_systems.Base.Int.{ℤ, pos, negsuc}
use real_time_systems.Os.{Env, Trace, did_read}
use real_time_systems.BlockingIo.{size_mod, store, blocking_read_from}

-- What is stored right behind the bytes received so far.
store_lem :
    (got rest bytes : List ℕ)
    → store (got ++ rest) (length got) bytes ≡ (got ++ bytes) ++ drop (length bytes) rest
unfolding store
store_lem [] rest bytes = rw zero-add
store_lem (x ∷ got) rest bytes = rw add-suc_left (ap (λ l. x ∷ l) (store_lem got rest bytes))

-- The same at an index that is their number.
pub store_at :
    (got rest bytes : List ℕ) (from : ℕ)
    → length got ≡ from
    → store (got ++ rest) from bytes ≡ (got ++ bytes) ++ drop (length bytes) rest
store_at got rest bytes from at = rw (← at) (store_lem got rest bytes)

-- One round of `blocking_read`, by the reply of its call.
module _ (env : Env) (fd : ℤ) (len : ℕ) where
  pub round_done :
      (fuel : ℕ) (buf : List ℕ) (from : ℕ) (t : Trace)
      → len ≤ from
      → blocking_read_from env (suc fuel) fd buf len from t ≡ (some (pos len, buf), t)
  unfolding blocking_read_from
  round_done fuel buf from t h = ground arith

  pub round_fail :
      (fuel : ℕ) (buf : List ℕ) (from n : ℕ) (t : Trace)
      → from < len
      → (env.read_reply t fd (len - from)).0 ≡ negsuc n
      → blocking_read_from env (suc fuel) fd buf len from t ≡ (
        some (negsuc n, store buf from (env.read_reply t fd (len - from)).1),
        did_read fd (len - from) (negsuc n) (env.read_reply t fd (len - from)).1 ∷ t,
      )
  unfolding blocking_read_from
  round_fail fuel buf from n t h e = ground arith

  pub round_more :
      (fuel : ℕ) (buf : List ℕ) (from k : ℕ) (t : Trace)
      → from < len
      → (env.read_reply t fd (len - from)).0 ≡ pos k
      → blocking_read_from env (suc fuel) fd buf len from t
        ≡ blocking_read_from env fuel fd
            (store buf from (env.read_reply t fd (len - from)).1)
            len
            ((from + k) % size_mod)
            (did_read fd (len - from) (pos k) (env.read_reply t fd (len - from)).1 ∷ t)
  unfolding blocking_read_from
  round_more fuel buf from k t h e = ground arith
