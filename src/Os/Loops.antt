-- ===== src/Os/Loops.antt =====
-- The endless loop `for (;;)` of a `main`, which only a `return` leaves.
use real_time_systems.Base.{ℕ, zero, suc, Option, none, some, ◌≡◌, refl}
use real_time_systems.Base.Int.{ℤ}
use real_time_systems.Os.Traces.{Trace}
use real_time_systems.Os.Calls.{Io, pure, ◌>>=◌}

-- What a round does next: go on with new values of the variables, or return from `main`.
pub data Flow (S : Type 0) : Type 0 where
  next : S → Flow S
  return : ℤ → Flow S

-- Go on with `k`, unless `main` has returned.
abbrev pub and_then : {S T : Type 0} → (S → Io (Flow T)) → Flow S → Io (Flow T)
and_then k (next s) = k s
and_then k (return r) = pure (return r)

-- The first rounds of the loop, as many as the number says. `next s` is a loop that still runs.
unfoldable pub forever : {S : Type 0} → ℕ → (S → Io (Flow S)) → S → Io (Flow S)
forever zero body s = pure (next s)
forever (suc n) body s = body s >>= and_then (forever n body)

-- `P` of the variables and the trace while the loop runs, `Q` of the trace when it has ended, or
-- hangs in a round.
abbrev pub After :
    {S : Type 0} → (S → Trace → Type 0) → (Trace → Type 0) → Option (Flow S) × Trace → Type 0
After P Q (none, t) = Q t
After P Q (some (next s), t) = P s t
After P Q (some (return r), t) = Q t

-- What a part of `main` leaves, and what goes on from there makes of it.
pub and_then-After :
    {S T : Type 0} (P : S → Trace → Type 0) (P' : T → Trace → Type 0) (Q : Trace → Type 0)
    (m : Io (Flow S)) (k : S → Io (Flow T)) (t : Trace)
    → ((s : S) (t' : Trace) → P s t' → After P' Q (k s t'))
    → After P Q (m t)
    → After P' Q ((m >>= and_then k) t)
and_then-After {S} P P' Q m k t keep h = go (m t) h
  where
    go :
        (out : Option (Flow S) × Trace)
        → After P Q out
        → After P' Q (elim out.0 [ none ↦ (none, out.1) | some flow ↦ and_then k flow out.1 ])
    go (none, t') h' = h'
    go (some (next s), t') h' = keep s t' h'
    go (some (return r), t') h' = h'

module _ {S : Type 0} (P : S → Trace → Type 0) (Q : Trace → Type 0) where
  -- What a part keeps, and what goes on from there keeps.
  pub and_then_inv :
      (m : Io (Flow S)) (k : S → Io (Flow S)) (t : Trace)
      → ((s : S) (t' : Trace) → P s t' → After P Q (k s t'))
      → After P Q (m t)
      → After P Q ((m >>= and_then k) t)
  and_then_inv m k t keep h = and_then-After P P Q m k t keep h

  -- The same for a part that gives a value and cannot return.
  pub After-bind :
      {A : Type 0} (m : Io A) (k : A → Io (Flow S)) (t : Trace)
      → ((m t).0 ≡ none → Q (m t).1)
      → ((a : A) → (m t).0 ≡ some a → After P Q (k a (m t).1))
      → After P Q ((m >>= k) t)
  After-bind {A} m k t hangs on = go (m t) hangs on
    where
      go :
          (out : Option A × Trace)
          → (out.0 ≡ none → Q out.1)
          → ((a : A) → out.0 ≡ some a → After P Q (k a out.1))
          → After P Q (elim out.0 [ none ↦ (none, out.1) | some a ↦ k a out.1 ])
      go (none, t') hangs' on' = hangs' refl
      go (some a, t') hangs' on' = on' a refl

module _ {S : Type 0} (P : S → Trace → Type 0) (Q : Trace → Type 0) (body : S → Io (Flow S))
    (keep : (s : S) (t : Trace) → P s t → After P Q (body s t)) where
  -- What every round keeps, the loop keeps.
  pub forever_inv : (n : ℕ) (s : S) (t : Trace) → P s t → After P Q (forever n body s t)
  unfolding forever
  forever_inv zero s t h = h
  forever_inv (suc n) s t h =
      and_then_inv P Q (body s) (forever n body) t (forever_inv n) (keep s t h)

-- The same of a program that never hangs.
abbrev pub Lasts :
    {S : Type 0} → (S → Trace → Type 0) → (Trace → Type 0) → Option (Flow S) × Trace → Type 0
Lasts P Q (none, t) = ⊥
Lasts P Q (some (next s), t) = P s t
Lasts P Q (some (return r), t) = Q t

-- Such a part, and whatever is to be shown of it with what goes on from there.
pub and_then-reaches :
    {S T : Type 0} (P : S → Trace → Type 0) (Q : Trace → Type 0)
    (R : Option (Flow T) × Trace → Type 0) (m : Io (Flow S)) (k : S → Io (Flow T)) (t : Trace)
    → ((s : S) (t' : Trace) → P s t' → R (k s t'))
    → ((r : ℤ) (t' : Trace) → Q t' → R (some (return r), t'))
    → Lasts P Q (m t)
    → R ((m >>= and_then k) t)
and_then-reaches {S} P Q R m k t on ends h = go (m t) h
  where
    go :
        (out : Option (Flow S) × Trace)
        → Lasts P Q out
        → R (elim out.0 [ none ↦ (none, out.1) | some flow ↦ and_then k flow out.1 ])
    go (none, t') h' = absurd h'
    go (some (next s), t') h' = on s t' h'
    go (some (return r), t') h' = ends r t' h'

pub and_then-Lasts :
    {S T : Type 0} (P : S → Trace → Type 0) (P' : T → Trace → Type 0) (Q : Trace → Type 0)
    (m : Io (Flow S)) (k : S → Io (Flow T)) (t : Trace)
    → ((s : S) (t' : Trace) → P s t' → Lasts P' Q (k s t'))
    → Lasts P Q (m t)
    → Lasts P' Q ((m >>= and_then k) t)
and_then-Lasts P P' Q m k t keep h = and_then-reaches P Q (Lasts P' Q) m k t keep (λ r t' h'. h') h

-- What is known of the variables besides.
pub Lasts-with :
    {S : Type 0} (P R : S → Trace → Type 0) (Q : Trace → Type 0) (out : Option (Flow S) × Trace)
    → ((s : S) → out.0 ≡ some (next s) → R s out.1)
    → Lasts P Q out
    → Lasts (λ s t. P s t × R s t) Q out
Lasts-with P R Q (none, t) extra h = h
Lasts-with P R Q (some (next s), t) extra h = (h, extra s refl)
Lasts-with P R Q (some (return r), t) extra h = h

module _ {S : Type 0} (P : S → Trace → Type 0) (Q : Trace → Type 0) (body : S → Io (Flow S))
    (keep : (s : S) (t : Trace) → P s t → Lasts P Q (body s t)) where
  -- Where no round hangs, no number of rounds does.
  pub forever-Lasts : (n : ℕ) (s : S) (t : Trace) → P s t → Lasts P Q (forever n body s t)
  unfolding forever
  forever-Lasts zero s t h = h
  forever-Lasts (suc n) s t h =
      and_then-Lasts P P Q (body s) (forever n body) t (forever-Lasts n) (keep s t h)
