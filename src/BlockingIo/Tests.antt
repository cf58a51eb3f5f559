-- ===== src/BlockingIo/Tests.antt =====
-- The theorems on src/blocking_io.c at concrete inputs, and runs.
use real_time_systems.Base.{◌≡◌, refl, some, none, [], ◌∷◌, arith}
use real_time_systems.Base.Int.{pos}
use real_time_systems.Os.{Env, wrote}
use real_time_systems.Os.Examples.{calm}
use real_time_systems.BlockingIo.Contracts.{calm-WriteContract, calm-ReadContract, calm-IsEndless}
use real_time_systems.BlockingIo.{blocking_write, blocking_read}
use real_time_systems.BlockingIo.Write.{WriteResult, blocking_write_lem}
use real_time_systems.BlockingIo.Read.{ReadResult, blocking_read_lem}
use real_time_systems.BlockingIo.AtEof.{blocking_read-at_eof}

blocking_write_lem_example :
    WriteResult calm
      (pos 3)
      (10 ∷ 20 ∷ 30 ∷ [])
      0
      []
      (blocking_write calm 4 (pos 3) (10 ∷ 20 ∷ 30 ∷ []) 3 [])
blocking_write_lem_example =
    blocking_write_lem calm-WriteContract (pos 3) (10 ∷ 20 ∷ 30 ∷ []) 4 [] (omega arith)
      (omega arith)

blocking_read_lem_example :
    ReadResult calm (pos 3) 2 [] [] (blocking_read calm 3 (pos 3) (1 ∷ 2 ∷ []) 2 [])
blocking_read_lem_example =
    blocking_read_lem calm-ReadContract calm-IsEndless (pos 3) 2 3 (1 ∷ 2 ∷ []) [] (omega arith)
      (omega arith) refl

abbrev at_end : Env
at_end = record calm { read_reply = λ t fd n. (pos 0, []) }

blocking_read-at_eof_example : (blocking_read at_end 5 (pos 3) (1 ∷ 2 ∷ []) 2 []).0 ≡ none
blocking_read-at_eof_example =
    blocking_read-at_eof at_end 5 (pos 3) (1 ∷ 2 ∷ []) 2 [] (λ t n. refl) (omega arith)
      (omega arith)

-- A write of two bytes at a time takes two calls for three bytes.
abbrev short_writes : Env
short_writes = record calm { write_reply = λ t fd bytes. pos 2 }

two_calls : blocking_write short_writes 4 (pos 3) (10 ∷ 20 ∷ 30 ∷ 40 ∷ []) 4 [] ≡ (
  some (pos 4),
  wrote (pos 3) (30 ∷ 40 ∷ []) (pos 2) ∷ wrote (pos 3) (10 ∷ 20 ∷ 30 ∷ 40 ∷ []) (pos 2) ∷ [],
)
unfolding blocking_write
two_calls = refl
