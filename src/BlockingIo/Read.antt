-- ===== src/BlockingIo/Read.antt =====
-- `blocking_read` fills the whole buffer, or stops at the first call that fails; it does not end
-- where the stream does.
use real_time_systems.Base.{
  ℕ, zero, suc, ◌+◌, ◌-◌, ◌≤◌, ◌<◌, ◌≡◌, ◌≢◌, refl, ap, ◌⊎◌, inl, inr, List, [], ◌∷◌, ◌++◌, some,
  length, drop, arith, length-drop, length-append, append-nil, append_assoc, nil_of_length, Option,
}
use mathlib.Core.Path.{subst}
use native.Mathlib.Decide.{dec_lt}
use native.Mathlib.Nat.{mod-eq_of_lt}
use real_time_systems.Base.Int.{ℤ, pos, negsuc, ◌≤ℤ◌, ◌<ℤ◌, eqb_ℤ_refl}
use real_time_systems.Os.{Env, Trace, delivered, did_read}
use real_time_systems.BlockingIo.{size_mod, blocking_read_from, blocking_read}
use real_time_systems.BlockingIo.Rounds.{store_at, round_done, round_fail, round_more}

-- `read`: at most the bytes that are asked for, as many as the value returned, and none on failure.
pub record ReadContract (env : Env) : Type 0 where
  pub at_most : (t : Trace) (fd : ℤ) (n : ℕ) → (env.read_reply t fd n).0 ≤ℤ pos n
  pub counted :
      (t : Trace) (fd : ℤ) (n k : ℕ)
      → (env.read_reply t fd n).0 ≡ pos k
      → length (env.read_reply t fd n).1 ≡ k
  pub none_on_error :
      (t : Trace) (fd : ℤ) (n k : ℕ)
      → (env.read_reply t fd n).0 ≡ negsuc k
      → (env.read_reply t fd n).1 ≡ []

-- The stream does not end: a call that asks for a byte returns one, or fails.
abbrev pub IsEndless : Env → Type 0
IsEndless env = (t : Trace) (fd : ℤ) (n : ℕ) → 0 < n → (env.read_reply t fd n).0 ≢ pos 0

-- The last call of the trace is a `read` of `n` bytes, and it failed with the value `v`.
abbrev pub FailedRead : Env → ℤ → ℕ → ℤ → Trace → Type 0
FailedRead env fd n v t =
    (v <ℤ pos 0)
    × (before : Trace) × (t ≡ did_read fd n v [] ∷ before)
    × ((env.read_reply before fd n).0 ≡ v)

-- With `got` delivered so far, the buffer starts with them. In the end the buffer is exactly what
-- was delivered since `t`, as many bytes as it is long, and that length is returned; or the buffer was
-- filled only in part, the last call asked for all that then was missing, it failed, and its value is
-- returned.
abbrev pub ReadResult : Env → ℤ → ℕ → List ℕ → Trace → Option (ℤ × List ℕ) × Trace → Type 0
ReadResult env fd len got t out =
    ((bytes : List ℕ) × (out.0 ≡ some (pos len, got ++ bytes))
      × (length got + length bytes ≡ len)
      × (delivered fd out.1 ≡ delivered fd t ++ bytes))
    ⊎ ((bytes rest : List ℕ) × (v : ℤ) × (out.0 ≡ some (v, (got ++ bytes) ++ rest))
        × FailedRead env fd (len - (length got + length bytes)) v out.1
        × (length got + length bytes < len)
        × (delivered fd out.1 ≡ delivered fd t ++ bytes))

-- Rounds that received `more`, before rounds that satisfy the claim for what is then received.
received_more :
    (env : Env) (fd : ℤ) (len : ℕ) (got more : List ℕ) (t t' : Trace)
    (out : Option (ℤ × List ℕ) × Trace)
    → delivered fd t' ≡ delivered fd t ++ more
    → ReadResult env fd len (got ++ more) t' out
    → ReadResult env fd len got t out
received_more env fd len got more t t' out e (inl (bytes, r, full, d)) = inl (
  more ++ bytes,
  rw (r, append_assoc) refl,
  omega (arith, length-append {0} got more, length-append {0} more bytes),
  rw (d, e, append_assoc) refl,
)
received_more env fd len got more t t' out e (inr (bytes, rest, v, r, failed, short, d)) = inr (
  more ++ bytes,
  rest,
  v,
  rw (r, append_assoc got more bytes) refl,
  subst (λ n. FailedRead env fd (len - n) v out.1)
      (omega (arith, length-append {0} got more, length-append {0} more bytes)) failed,
  omega (arith, length-append {0} got more, length-append {0} more bytes),
  rw (d, e, append_assoc) refl,
)

module _ {env : Env} (contract : ReadContract env) (endless : IsEndless env) (fd : ℤ)
    (len : ℕ) where
  open contract use {at_most, counted, none_on_error}

  -- What a round leaves: by the reply of its call, and the claim for the rounds after it.
  round :
      (fuel from : ℕ) (got rest : List ℕ) (t : Trace) (ret : ℤ)
      → len < size_mod
      → from < len
      → length got ≡ from
      → length got + length rest ≡ len
      → (env.read_reply t fd (len - from)).0 ≡ ret
      → ((k : ℕ) (t' : Trace) (rest' : List ℕ)
          → 0 < k
          → from + k ≤ len
          → length (got ++ (env.read_reply t fd (len - from)).1) ≡ from + k
          → length (got ++ (env.read_reply t fd (len - from)).1) + length rest' ≡ len
          → ReadResult env fd len (got ++ (env.read_reply t fd (len - from)).1) t' (
              blocking_read_from env fuel fd
                ((got ++ (env.read_reply t fd (len - from)).1) ++ rest')
                len
                (from + k)
                t'))
      → ReadResult env fd len got t (blocking_read_from env (suc fuel) fd (got ++ rest) len from t)
  round fuel from got rest t (negsuc n) small lt at sum e later =
      rw
        (
          round_fail env fd len fuel (got ++ rest) from n t lt e,
          none_on_error t fd (len - from) n e,
          store_at got rest [] from at,
        )
        (inr (
          [],
          rest,
          negsuc n,
          refl,
          (omega arith, t, ap (λ k. did_read fd k (negsuc n) [] ∷ t) (omega arith), ground arith),
          omega arith,
          rw (eqb_ℤ_refl fd) refl,
        ))
  round fuel from got rest t (pos k) small lt at sum e later =
      rw
        (
          round_more env fd len fuel (got ++ rest) from k t lt e,
          store_at got rest bytes from at,
          mod-eq_of_lt fits,
        )
        (received_more env fd len got bytes t (did_read fd (len - from) (pos k) bytes ∷ t)
          (blocking_read_from env fuel fd ((got ++ bytes) ++ drop (length bytes) rest) len
            (from + k) (did_read fd (len - from) (pos k) bytes ∷ t))
          (rw (eqb_ℤ_refl fd) refl)
          (later k (did_read fd (len - from) (pos k) bytes ∷ t) (drop (length bytes) rest) positive
            room (omega (arith, length-append {0} got bytes, size))
            (omega (
              arith,
              length-append {0} got bytes,
              length-drop {0} (length bytes) rest,
              size,
              room,
            ))))
    where
      bytes : List ℕ
      bytes = (env.read_reply t fd (len - from)).1

      size : length bytes ≡ k
      size = counted t fd (len - from) k e

      positive : 0 < k
      positive = ground (arith, endless t fd (len - from))

      room : from + k ≤ len
      room = ground (arith, at_most t fd (len - from))

      fits : from + k < size_mod
      fits = omega (arith, room)

  pub blocking_read_from_lem :
      (fuel from : ℕ) (got rest : List ℕ) (t : Trace)
      → len < size_mod
      → from ≤ len
      → len - from < fuel
      → length got ≡ from
      → length got + length rest ≡ len
      → ReadResult env fd len got t (blocking_read_from env fuel fd (got ++ rest) len from t)
  blocking_read_from_lem zero from got rest t small le enough at sum = absurd (omega arith)
  blocking_read_from_lem (suc fuel) from got rest t small le enough at sum =
      elim (dec_lt from len) [
        | yes more ↦
            round fuel from got rest t (env.read_reply t fd (len - from)).0 small more at sum refl
              (λ k t' rest' p room at' sum'.
                blocking_read_from_lem fuel (from + k) _ rest' t' small room (omega arith) at' sum')
        | no done ↦
            rw (round_done env fd len fuel (got ++ rest) from t (omega arith))
              (inl (rest, refl, sum, rw (nil_of_length rest (omega arith), append-nil) refl))
      ]

  -- Where `read` keeps to what it documents, given a buffer of `len` bytes, `len` below 2 ^ 64, and
  -- `len` rounds and one more, and a stream that does not end, `blocking_read` returns. Either it
  -- returns `len` and the buffer is exactly what was delivered; or fewer bytes were delivered, with
  -- which the buffer starts, the last call was a `read` of as many as were missing, that call failed,
  -- and `blocking_read` returns its negative value.
  pub blocking_read_lem :
      (fuel : ℕ) (buf : List ℕ) (t : Trace)
      → len < size_mod
      → len < fuel
      → length buf ≡ len
      → ReadResult env fd len [] t (blocking_read env fuel fd buf len t)
  unfolding blocking_read
  blocking_read_lem fuel buf t small enough size =
      blocking_read_from_lem fuel 0 [] buf t small (omega arith) (omega arith) refl (omega arith)
