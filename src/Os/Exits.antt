-- ===== src/Os/Exits.antt =====
-- The values that a `main` returns.
use real_time_systems.Base.{ℕ, zero, suc, ◌≡◌, ◌⊎◌, List, [], ◌∷◌, Option, none, some}
use real_time_systems.Base.Int.{ℤ, neg}
use real_time_systems.Errors.{Errcode, code}
use real_time_systems.Os.Traces.{Trace}
use real_time_systems.Os.Calls.{Io, ◌>>=◌}
use real_time_systems.Os.Loops.{Flow, next, return, and_then, forever}

-- One of these codes, negated.
abbrev pub IsNegated : List Errcode → ℤ → Type 0
IsNegated [] ret = ⊥
IsNegated (e ∷ es) ret = (ret ≡ neg (code e)) ⊎ IsNegated es ret

-- If `main` has returned, `E` holds of the value.
abbrev pub Returns : {S : Type 0} → (ℤ → Type 0) → Option (Flow S) × Trace → Type 0
Returns E (some (return r), t) = E r
Returns E _ = Unit

-- A part of `main` that does so wherever it starts.
abbrev pub Returning : {S : Type 0} → (ℤ → Type 0) → Io (Flow S) → Type 0
Returning E m = (t : Trace) → Returns E (m t)

module _ (E : ℤ → Type 0) where
  pub bind-Returning :
      {A S : Type 0} (m : Io A) (k : A → Io (Flow S))
      → ((a : A) → Returning E (k a))
      → Returning E (m >>= k)
  bind-Returning {A} {S} m k on t = go (m t)
    where
      go :
          (out : Option A × Trace)
          → Returns {S = S} E (elim out.0 [ none ↦ (none, out.1) | some a ↦ k a out.1 ])
      go (none, t') = tt
      go (some a, t') = on a t'

  pub and_then-Returning :
      {S T : Type 0} (m : Io (Flow S)) (k : S → Io (Flow T))
      → Returning E m
      → ((s : S) → Returning E (k s))
      → Returning E (m >>= and_then k)
  and_then-Returning {S} {T} m k first on t = go (m t) (first t)
    where
      go :
          (out : Option (Flow S) × Trace)
          → Returns E out
          → Returns {S = T} E
              (elim out.0 [ none ↦ (none, out.1) | some flow ↦ and_then k flow out.1 ])
      go (none, t') h = tt
      go (some (next s), t') h = on s t'
      go (some (return r), t') h = h

  pub forever-Returning :
      {S : Type 0} (body : S → Io (Flow S))
      → ((s : S) → Returning E (body s))
      → (n : ℕ) (s : S) → Returning E (forever n body s)
  unfolding forever
  forever-Returning body each zero s = λ t. tt
  forever-Returning body each (suc n) s =
      and_then-Returning (body s) (forever n body) (each s) (forever-Returning body each n)
