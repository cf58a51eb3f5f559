-- ===== src/Stepper/Text.antt =====
-- `islegal` of src/stepper.c: is a typed text a number?
pub mod Numbers
use real_time_systems.Base.{
  ℕ, ◌+◌, Bool, true, false, ◌&&◌, ◌||◌, List, [], ◌∷◌, length, ltb, leb, ◌==◌, if◌then◌else◌,
}

-- The loop from index `i` on, over the characters that are left, of a text of `len` characters.
pub legal_from : ℕ → ℕ → List ℕ → Bool
legal_from len i [] = true
legal_from len i (c ∷ rest) =
    let others = legal_from len (i + 1) rest in
    if (i == 0) && (c == b'-')
    then (if leb len 1 then false else others)
    else if ltb c b'0' || ltb b'9' c
    then false
    else others

unfoldable pub islegal : List ℕ → Bool
unfolding legal_from
islegal target = if ltb 10 (length target) then false else legal_from (length target) 0 target
