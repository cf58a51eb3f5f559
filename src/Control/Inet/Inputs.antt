-- ===== src/Control/Inet/Inputs.antt =====
-- What src/control_thread_inet.c has been told, by the calls in its trace.
use real_time_systems.Base.{ℕ, List, [], ◌∷◌}
use real_time_systems.Base.Int.{ℤ}
use real_time_systems.Os.{Env, Trace, received, scanned}

-- An answer to `recv`: the descriptor, the value returned, and `visible` in the packet. An answer to
-- `scanf`: the word that is stored if a word was asked for, the number if that was, each with the
-- value returned.
pub data Input : Type 0 where
  heard : (fd ret visible : ℤ) → Input
  typed : (word : ℤ × List ℕ) (number : ℤ × ℤ) → Input

-- The latest first.
abbrev pub told : Env → Trace → List Input
told env [] = []
told env (received fd _ ∷ t) =
    heard fd (env.recv_reply t fd).0 (env.recv_reply t fd).1.visible ∷ told env t
told env (scanned _ ∷ t) = typed (env.scanf_word_reply t) (env.scanf_int_reply t) ∷ told env t
told env (_ ∷ t) = told env t
