-- ===== src/Stepper/Rotate/Overlap.antt =====
-- Two calls of `rotate` at once, one of each thread: what the motor makes of their writes.
use real_time_systems.Base.{
  ℕ, zero, suc, ◌+◌, ◌≤◌, ◌<◌, ◌≡◌, ◌≢◌, refl, ap, ◌∙◌, Bool, false, ◌&&◌, not, List, [], ◌∷◌,
  arith, if◌then◌else◌, str_eq, ◌++◌,
}
use real_time_systems.Base.Int.{ℤ, pos, pos_part, ◌≤ℤ◌, ◌<ℤ◌, eqb_ℤ, eqb_ℤ_refl, eqb_ℤ_iff}
use real_time_systems.Os.{Env}
use real_time_systems.Stepper.Sleep.{SleepsOn}
use real_time_systems.Stepper.Rotate.{high, low, rotate}
use real_time_systems.Stepper.Rotate.Train.{Writes, writes, train, rotation, rotate-train}

-- The third list has the elements of the first two, each in their order.
pub data Merge {A : Type 0} : List A → List A → List A → Type 0 where
  both_end : Merge [] [] []
  from_first : {x : A} {xs ys zs : List A} → Merge xs ys zs → Merge (x ∷ xs) ys (x ∷ zs)
  from_second : {y : A} {xs ys zs : List A} → Merge xs ys zs → Merge xs (y ∷ ys) (y ∷ zs)

module _ (pul_fd ena_fd : ℤ) where
  -- Is the motor enabled, its pin being low? Is the pin of the pulses high? At first neither is.
  abbrev pub is_enabled : Writes → Bool
  is_enabled [] = false
  is_enabled ((fd, bytes) ∷ ws) = if eqb_ℤ fd ena_fd then str_eq bytes low else is_enabled ws

  abbrev pub is_high : Writes → Bool
  is_high [] = false
  is_high ((fd, bytes) ∷ ws) = if eqb_ℤ fd pul_fd then str_eq bytes high else is_high ws

  -- The steps that the motor has made: one whenever its pulse pin went high while it was enabled.
  abbrev pub turns : Writes → ℕ
  turns [] = 0
  turns ((fd, bytes) ∷ ws) =
      if eqb_ℤ fd pul_fd && str_eq bytes high && not (is_high ws) && is_enabled ws
      then suc (turns ws)
      else turns ws

  -- How often that pin was set high.
  abbrev raises : Writes → ℕ
  raises [] = 0
  raises ((fd, bytes) ∷ ws) =
      if eqb_ℤ fd pul_fd && str_eq bytes high then suc (raises ws) else raises ws

  turns-raises : (ws : Writes) → turns ws ≤ raises ws
  turns-raises [] = ground arith
  turns-raises ((fd, bytes) ∷ ws) = ground (arith, turns-raises ws)

  raises-Merge : {xs ys zs : Writes} → Merge xs ys zs → raises zs ≡ raises xs + raises ys
  raises-Merge both_end = refl
  raises-Merge (from_first m) = ground (arith, raises-Merge m)
  raises-Merge (from_second m) = ground (arith, raises-Merge m)

  module _ (apart : pul_fd ≢ ena_fd) where
    apart_pul : eqb_ℤ pul_fd ena_fd ≡ false
    apart_pul = ground (arith, eqb_ℤ_iff pul_fd ena_fd)

    apart_ena : eqb_ℤ ena_fd pul_fd ≡ false
    apart_ena = ground (arith, eqb_ℤ_iff ena_fd pul_fd)

    raises-train : (n : ℕ) (ws : Writes) → raises (train pul_fd n ws) ≡ n + raises ws
    raises-train zero ws = omega arith
    raises-train (suc n) ws = ground (arith, raises-train n ws, eqb_ℤ_refl pul_fd)

    -- A train leaves the pins as they were, and is as many steps if the motor is enabled.
    train-levels :
        (n : ℕ) (ws : Writes)
        → is_high ws ≡ false
        → (is_high (train pul_fd n ws) ≡ false) × (is_enabled (train pul_fd n ws) ≡ is_enabled ws)
    train-levels zero ws h = (h, refl)
    train-levels (suc n) ws h = ground (arith, train-levels n ws h, eqb_ℤ_refl pul_fd, apart_pul)

    turns-train :
        (n : ℕ) (ws : Writes)
        → is_high ws ≡ false
        → turns (train pul_fd n ws) ≡ (if is_enabled ws then n + turns ws else turns ws)
    turns-train zero ws h = ground arith
    turns-train (suc n) ws h =
        ground (arith, turns-train n ws h, train-levels n ws h, eqb_ℤ_refl pul_fd, apart_pul)

    turns-rotation :
        (n : ℕ) (ws : Writes)
        → is_high ws ≡ false
        → (turns (rotation pul_fd ena_fd n ws) ≡ n + turns ws)
          × (is_high (rotation pul_fd ena_fd n ws) ≡ false)
          × (is_enabled (rotation pul_fd ena_fd n ws) ≡ false)
    turns-rotation n ws h = ground (
      arith,
      turns-train n ((ena_fd, low) ∷ ws),
      train-levels n ((ena_fd, low) ∷ ws),
      eqb_ℤ_refl ena_fd,
      apart_ena,
    )

  train-first :
      (n : ℕ) {xs ys zs : Writes}
      → Merge xs ys zs
      → Merge (train pul_fd n xs) ys (train pul_fd n zs)
  train-first zero m = m
  train-first (suc n) m = from_first (from_first (train-first n m))

  train-second :
      (n : ℕ) {xs ys zs : Writes}
      → Merge xs ys zs
      → Merge xs (train pul_fd n ys) (train pul_fd n zs)
  train-second zero m = m
  train-second (suc n) m = from_second (from_second (train-second n m))

  -- One thread enables the motor; then the other makes its whole rotation; then the first goes on.
  abbrev interrupted : ℕ → ℕ → Writes
  interrupted n m = (ena_fd, high) ∷ train pul_fd n (rotation pul_fd ena_fd m ((ena_fd, low) ∷ []))

  interrupted-Merge :
      (n m : ℕ)
      → Merge (rotation pul_fd ena_fd n []) (rotation pul_fd ena_fd m []) (interrupted n m)
  interrupted-Merge n m =
      from_first (train-first n (from_second (train-second m (from_second (from_first both_end)))))

  turns-interrupted : (n m : ℕ) → pul_fd ≢ ena_fd → turns (interrupted n m) ≡ m
  turns-interrupted n m apart =
      let ws = rotation pul_fd ena_fd m ((ena_fd, low) ∷ []) in
      let first : is_high ((ena_fd, low) ∷ []) ≡ false = ground (arith, apart_ena apart) in
      let (made, down, off) = turns-rotation apart m ((ena_fd, low) ∷ []) first in
      ground (arith, turns-train apart n ws, apart_ena apart)

-- What becomes of the writes `xs` and `ys` of two rotations of `n` and `m` pulses.
abbrev pub Overlapping : ℤ → ℤ → ℕ → ℕ → Writes → Writes → Type 0
Overlapping pul_fd ena_fd n m xs ys =
    ((zs : Writes) → Merge xs ys zs → turns pul_fd ena_fd zs ≤ n + m)
    × (turns pul_fd ena_fd (ys ++ xs) ≡ n + m)
    × ((zs : Writes) × Merge xs ys zs × (turns pul_fd ena_fd zs ≡ m))

rotation_append :
    (pul_fd ena_fd : ℤ) (n : ℕ) (ws : Writes)
    → rotation pul_fd ena_fd n [] ++ ws ≡ rotation pul_fd ena_fd n ws
rotation_append pul_fd ena_fd n ws = ap (λ l. (ena_fd, high) ∷ l) (train_append n)
  where
    train_append :
        (k : ℕ) → train pul_fd k ((ena_fd, low) ∷ []) ++ ws ≡ train pul_fd k ((ena_fd, low) ∷ ws)
    train_append zero = refl
    train_append (suc k) = ap (λ l. (pul_fd, low) ∷ (pul_fd, high) ∷ l) (train_append k)

rotation-Overlapping :
    (pul_fd ena_fd : ℤ) (n m : ℕ)
    → pul_fd ≢ ena_fd
    → Overlapping pul_fd ena_fd n m (rotation pul_fd ena_fd n []) (rotation pul_fd ena_fd m [])
rotation-Overlapping pul_fd ena_fd n m apart =
    let (made, down, off) = turns-rotation pul_fd ena_fd apart n [] refl in
    let (made', down', off') =
      turns-rotation pul_fd ena_fd apart m (rotation pul_fd ena_fd n []) down in
    let same = apart_ena pul_fd ena_fd apart in
    (
      λ zs merged. ground (
        arith,
        turns-raises pul_fd ena_fd zs,
        raises-Merge pul_fd ena_fd merged,
        raises-train pul_fd ena_fd apart n ((ena_fd, low) ∷ []),
        raises-train pul_fd ena_fd apart m ((ena_fd, low) ∷ []),
      ),
      ap (turns pul_fd ena_fd) (rotation_append pul_fd ena_fd m (rotation pul_fd ena_fd n []))
          ∙ omega arith,
      (
        interrupted pul_fd ena_fd n m,
        interrupted-Merge pul_fd ena_fd n m,
        turns-interrupted pul_fd ena_fd n m apart,
      ),
    )

-- Two threads call `rotate` for 1 to 1000 pulses each, and each of their writes takes effect; sleeps
-- come to their end as for `rotate-train`. In whatever order the writes of the two come, the motor makes
-- no more steps than the two ask for together; the second call after the first, it makes just these.
-- But the writes can also come in an order in which it makes only the steps of the second.
pub turns-rotate :
    (env env' : Env) (fuel fuel' : ℕ) (pul_fd ena_fd rotations rotations' : ℤ)
    → SleepsOn env
    → SleepsOn env'
    → 3_000_000 < fuel
    → 3_000_000 < fuel'
    → pul_fd ≢ ena_fd
    → pos 0 <ℤ rotations
    → rotations ≤ℤ pos 1000
    → pos 0 <ℤ rotations'
    → rotations' ≤ℤ pos 1000
    → Overlapping pul_fd ena_fd
        (pos_part rotations)
        (pos_part rotations')
        (writes (rotate env fuel rotations pul_fd ena_fd []).1)
        (writes (rotate env' fuel' rotations' pul_fd ena_fd []).1)
turns-rotate env env' fuel fuel' pul_fd ena_fd rotations rotations' on on' enough enough' apart lo
      hi lo' hi' =
    let (ends, out) = (rotate-train env on fuel enough pul_fd ena_fd rotations []).0 lo hi in
    let (ends', out') =
      (rotate-train env' on' fuel' enough' pul_fd ena_fd rotations' []).0 lo' hi' in
    rw out (
      rw out' (rotation-Overlapping pul_fd ena_fd (pos_part rotations) (pos_part rotations') apart))
