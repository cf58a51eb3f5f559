-- ===== src/Stepper/Text/Numbers.antt =====
-- What `islegal` accepts, by a grammar, and how large the numbers are that it accepts.
use real_time_systems.Base.{
  ℕ, ◌+◌, ◌*◌, ◌^◌, ◌≤◌, ◌<◌, ◌≡◌, ◌⊎◌, inr, ◌↔◌, refl, ap, true, List, [], ◌∷◌, arith, length, ◌-◌,
}
use native.Mathlib.Nat.{pow-suc, mul-le-mul_right, pow-le-pow_right}
use real_time_systems.Stepper.Text.{legal_from, islegal}

-- Decimal digits.
abbrev pub IsDigits : List ℕ → Type 0
IsDigits [] = Unit
IsDigits (c ∷ rest) = (b'0' ≤ c) × (c ≤ b'9') × IsDigits rest

-- Digits, or a minus and at least one digit.
abbrev pub IsNumber : List ℕ → Type 0
IsNumber [] = Unit
IsNumber (c ∷ rest) = ((c ≡ b'-') × (0 < length rest) × IsDigits rest) ⊎ IsDigits (c ∷ rest)

legal_from-IsDigits :
    (len i : ℕ) (rest : List ℕ) → 0 < i → (legal_from len i rest ≡ true) ↔ IsDigits rest
unfolding legal_from
legal_from-IsDigits len i [] h = (λ e. tt, λ d. refl)
legal_from-IsDigits len i (c ∷ rest) h =
    let ih = legal_from-IsDigits len (i + 1) rest (omega arith) in
    (λ e. ground arith, λ d. ground arith)

-- `islegal` accepts exactly the numbers of at most ten characters, the empty text among them.
pub islegal_iff : (text : List ℕ) → (islegal text ≡ true) ↔ ((length text ≤ 10) × IsNumber text)
unfolding islegal
islegal_iff [] = (λ e. (omega arith, tt), λ h. refl)
islegal_iff (c ∷ rest) =
    let ih = legal_from-IsDigits (length (c ∷ rest)) 1 rest (omega arith) in
    (λ e. ground arith, λ h. ground arith)

-- The number that digits stand for, after `acc`.
abbrev pub value_from : ℕ → List ℕ → ℕ
value_from acc [] = acc
value_from acc (c ∷ rest) = value_from (acc * 10 + (c - b'0')) rest

abbrev pub magnitude : List ℕ → ℕ
magnitude [] = 0
magnitude (c ∷ rest) = value_from (c - b'0') rest

value_from-le : (acc : ℕ) (rest : List ℕ) → acc * 10 ^ length rest ≤ value_from acc rest
value_from-le acc [] = omega arith
value_from-le acc (c ∷ rest) =
    let ih = value_from-le (acc * 10 + (c - b'0')) rest in
    rw (pow-suc 10 (length rest)) (omega arith)

value_from-lt :
    (acc : ℕ) (rest : List ℕ) → IsDigits rest → value_from acc rest < (acc + 1) * 10 ^ length rest
value_from-lt acc [] h = omega arith
value_from-lt acc (c ∷ rest) (lo, hi, h) =
    let ih = value_from-lt (acc * 10 + (c - b'0')) rest h in
    let digit : c - b'0' ≤ 9 = omega arith in
    let scaled = mul-le-mul_right (10 ^ length rest) digit in
    rw (pow-suc 10 (length rest)) (omega arith)

-- A text of at most nine digits fits an `int`: its number is below 2 ^ 31. But there are texts of ten
-- digits that `islegal` accepts and that do not fit: all that begin with 3 or more.
islegal-overflow :
    (c : ℕ) (rest : List ℕ)
    → IsDigits (c ∷ rest)
    → (length rest ≤ 8 → magnitude (c ∷ rest) < 2 ^ 31)
      × (length rest ≡ 9 → b'3' ≤ c → (islegal (c ∷ rest) ≡ true) × (2 ^ 31 ≤ magnitude (c ∷ rest)))
islegal-overflow c rest (lo, hi, h) = (
  λ short.
      let digit : c - b'0' + 1 ≤ 10 = omega arith in
      let power : 10 ^ length rest ≤ 10 ^ 8 = pow-le-pow_right (omega arith) short in
      let scaled = mul-le-mul_right (10 ^ length rest) digit in
      omega (arith, value_from-lt (c - b'0') rest h),
  λ nine large.
      let digit : 3 ≤ c - b'0' = omega arith in
      let power : 10 ^ length rest ≡ 10 ^ 9 = ap (λ k. 10 ^ k) nine in
      let scaled = mul-le-mul_right (10 ^ length rest) digit in
      (
        (islegal_iff (c ∷ rest)).1 (omega arith, inr (lo, hi, h)),
        omega (arith, value_from-le (c - b'0') rest),
      ),
)
