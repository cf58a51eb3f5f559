-- ===== src/BlockingIo/Write.antt =====
-- `blocking_write` hands over the whole buffer, or stops at the first call that fails.
use real_time_systems.Base.{
  ℕ, zero, suc, ◌+◌, ◌-◌, ◌≤◌, ◌<◌, ◌≡◌, ◌≢◌, refl, ◌⊎◌, inl, inr, List, ◌∷◌, ◌++◌, some, length,
  take, drop, arith, take_all, length-drop, take-append-drop, take-append-take-drop, drop-drop,
  drop_all, append-nil, append_assoc, Option, ◌%◌,
}
use native.Mathlib.Decide.{dec_lt}
use native.Mathlib.Nat.{mod-eq_of_lt}
use real_time_systems.Base.Int.{ℤ, pos, pos_part, negsuc, ◌≤ℤ◌, ◌<ℤ◌, eqb_ℤ_refl}
use real_time_systems.Os.{Env, Trace, taken, delivered, wrote}
use real_time_systems.BlockingIo.{size_mod, blocking_write_from, blocking_write}

-- `write` on a blocking descriptor: it takes at most the bytes that it is given, and of a buffer
-- that is not empty at least one, unless it fails.
pub record WriteContract (env : Env) : Type 0 where
  pub at_most :
      (t : Trace) (fd : ℤ) (bytes : List ℕ) → env.write_reply t fd bytes ≤ℤ pos (length bytes)
  pub progress :
      (t : Trace) (fd : ℤ) (bytes : List ℕ) → 0 < length bytes → env.write_reply t fd bytes ≢ pos 0

-- The last call of the trace is a `write` of these bytes, and it failed with the value `v`.
abbrev pub FailedWrite : Env → ℤ → List ℕ → ℤ → Trace → Type 0
FailedWrite env fd bytes v t =
    (v <ℤ pos 0)
    × (before : Trace) × (t ≡ wrote fd bytes v ∷ before)
    × (env.write_reply before fd bytes ≡ v)

-- The whole rest of the buffer was taken and the length is returned; or a proper prefix of the rest
-- was taken, the last call was to write all that then remained, it failed, and its value is returned.
abbrev pub WriteResult : Env → ℤ → List ℕ → ℕ → Trace → Option ℤ × Trace → Type 0
WriteResult env fd buf from t out =
    ((out.0 ≡ some (pos (length buf))) × (taken fd out.1 ≡ taken fd t ++ drop from buf))
    ⊎ ((n : ℕ) × (v : ℤ) × (out.0 ≡ some v)
        × FailedWrite env fd (drop n (drop from buf)) v out.1
        × (from + n < length buf)
        × (taken fd out.1 ≡ taken fd t ++ take n (drop from buf)))

module _ {env : Env} (contract : WriteContract env) (fd : ℤ) (buf : List ℕ) where
  open contract use {at_most, progress}

  -- One round that took `k` bytes, before a rest that satisfies the claim.
  taken_more :
      (from k : ℕ) (t : Trace) (ret : ℤ) (out : Option ℤ × Trace)
      → ret ≡ pos k
      → from + k ≤ length buf
      → WriteResult env fd buf (from + k) (wrote fd (drop from buf) ret ∷ t) out
      → WriteResult env fd buf from t out
  taken_more from k t ret out e room (inl (r, q)) =
      inl (r, rw (q, eqb_ℤ_refl fd, e, append_assoc, ← drop-drop from k buf, take-append-drop) refl)
  taken_more from k t ret out e room (inr (n, v, r, failed, short, q)) = inr (
    k + n,
    v,
    r,
    rw (← drop-drop k n, drop-drop from k buf) failed,
    omega arith,
    rw (q, eqb_ℤ_refl fd, e, append_assoc, ← drop-drop from k buf, take-append-take-drop) refl,
  )

  -- The three ways that a round goes.
  round_done :
      (fuel from : ℕ) (t : Trace)
      → length buf ≤ from
      → blocking_write_from env (suc fuel) fd buf (length buf) from t ≡ (some (pos (length buf)), t)
  unfolding blocking_write_from
  round_done fuel from t h = ground arith

  round_fail :
      (fuel from n : ℕ) (t : Trace)
      → from < length buf
      → env.write_reply t fd (take (length buf - from) (drop from buf)) ≡ negsuc n
      → blocking_write_from env (suc fuel) fd buf (length buf) from t
        ≡ (some (negsuc n), wrote fd (take (length buf - from) (drop from buf)) (negsuc n) ∷ t)
  unfolding blocking_write_from
  round_fail fuel from n t h e = ground arith

  round_more :
      (fuel from k : ℕ) (t : Trace)
      → from < length buf
      → env.write_reply t fd (take (length buf - from) (drop from buf)) ≡ pos k
      → blocking_write_from env (suc fuel) fd buf (length buf) from t
        ≡ blocking_write_from env fuel fd buf
            (length buf)
            ((from + k) % size_mod)
            (wrote fd (take (length buf - from) (drop from buf)) (pos k) ∷ t)
  unfolding blocking_write_from
  round_more fuel from k t h e = ground arith

  -- What a round leaves: by the reply of its call, and the claim for the rounds after it.
  round :
      (fuel from : ℕ) (t : Trace) (ret : ℤ)
      → length buf < size_mod
      → from < length buf
      → env.write_reply t fd (drop from buf) ≡ ret
      → ((k : ℕ)
          → ret ≡ pos k
          → 0 < k
          → from + k ≤ length buf
          → WriteResult env fd buf (from + k) (wrote fd (drop from buf) ret ∷ t) (
              blocking_write_from env fuel fd buf
                (length buf)
                (from + k)
                (wrote fd (drop from buf) ret ∷ t)))
      → WriteResult env fd buf from t
          (blocking_write_from env (suc fuel) fd buf (length buf) from t)
  round fuel from t (negsuc n) small lt e rest = rw (round_fail fuel from n t lt (rw whole e)) (
      inr (
        0,
        negsuc n,
        refl,
        (omega arith, t, rw whole refl, e),
        omega arith,
        rw (eqb_ℤ_refl fd, append-nil) refl,
      ))
    where
      whole : take (length buf - from) (drop from buf) ≡ drop from buf
      whole = take_all _ _ (omega (arith, length-drop {0} from buf))
  round fuel from t (pos k) small lt e rest =
      rw (round_more fuel from k t lt (rw whole e), whole, mod-eq_of_lt fits)
        (taken_more from k t (pos k)
          (blocking_write_from env fuel fd buf (length buf) (from + k)
            (wrote fd (drop from buf) (pos k) ∷ t))
          refl room (rest k refl positive room))
    where
      whole : take (length buf - from) (drop from buf) ≡ drop from buf
      whole = take_all _ _ (omega (arith, length-drop {0} from buf))

      positive : 0 < k
      positive = ground (arith, progress t fd (drop from buf), length-drop {0} from buf)

      room : from + k ≤ length buf
      room = ground (arith, at_most t fd (drop from buf), length-drop {0} from buf)

      fits : from + k < size_mod
      fits = omega (arith, room)

  pub blocking_write_from_lem :
      (fuel from : ℕ) (t : Trace)
      → length buf < size_mod
      → from ≤ length buf
      → length buf - from < fuel
      → WriteResult env fd buf from t (blocking_write_from env fuel fd buf (length buf) from t)
  blocking_write_from_lem zero from t small le enough = absurd (omega arith)
  blocking_write_from_lem (suc fuel) from t small le enough = elim (dec_lt from (length buf)) [
    | yes more ↦
        round fuel from t (env.write_reply t fd (drop from buf)) small more refl
          (λ k e p room. blocking_write_from_lem fuel (from + k) _ small room (omega arith))
    | no done ↦
        rw (round_done fuel from t (omega arith))
          (inl (refl, rw (drop_all from buf (omega arith), append-nil) refl))
  ]

  -- Where `write` keeps to what it documents, given a buffer shorter than 2 ^ 64 bytes and as many
  -- rounds as it has bytes and one more, `blocking_write` returns. Either it returns the length and the
  -- system took exactly the buffer; or the system took a proper prefix, the last call was a `write` of
  -- all the rest, that call failed, and `blocking_write` returns its negative value.
  pub blocking_write_lem :
      (fuel : ℕ) (t : Trace)
      → length buf < size_mod
      → length buf < fuel
      → WriteResult env fd buf 0 t (blocking_write env fuel fd buf (length buf) t)
  unfolding blocking_write
  blocking_write_lem fuel t small enough =
      blocking_write_from_lem fuel 0 t small (omega arith) (omega arith)

-- Writing delivers nothing.
delivered-blocking_write_from :
    (env : Env) (fuel : ℕ) (fd d : ℤ) (buf : List ℕ) (len from : ℕ) (t : Trace)
    → delivered d (blocking_write_from env fuel fd buf len from t).1 ≡ delivered d t
unfolding blocking_write_from
delivered-blocking_write_from env zero fd d buf len from t = refl
delivered-blocking_write_from env (suc fuel) fd d buf len from t =
    let bytes = take (len - from) (drop from buf) in
    let ret = env.write_reply t fd bytes in
    ground (
      arith,
      delivered-blocking_write_from env fuel fd d buf len ((from + pos_part ret) % size_mod)
          (wrote fd bytes ret ∷ t),
    )

pub delivered-blocking_write :
    (env : Env) (fuel : ℕ) (fd d : ℤ) (buf : List ℕ) (len : ℕ) (t : Trace)
    → delivered d (blocking_write env fuel fd buf len t).1 ≡ delivered d t
unfolding blocking_write
delivered-blocking_write env fuel fd d buf len t =
    delivered-blocking_write_from env fuel fd d buf len 0 t
