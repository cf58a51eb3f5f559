-- ===== src/BlockingIo.antt =====
-- src/blocking_io.c: write or read a whole buffer, with as many system calls as that takes.
pub mod Write
pub mod Rounds
pub mod Read
pub mod AtEof
pub mod Quiet
pub mod Contracts
mod Tests
use real_time_systems.Base.{
  ℕ, zero, suc, ◌+◌, ◌-◌, ◌%◌, ◌^◌, true, false, List, ◌++◌, length, take, drop, ltb,
}
use real_time_systems.Base.Int.{ℤ, pos, pos_part, ltb_ℤ}
use real_time_systems.Os.{Env, Io, pure, out_of_fuel, ◌>>=◌, write, read}

-- A `size_t` of 64 bits.
abbrev pub size_mod : ℕ
size_mod = 2 ^ 64

-- What `read` stores at `buf + pos`: the bytes there are replaced, those around them stay.
pub store : List ℕ → ℕ → List ℕ → List ℕ
store buf pos' bytes = take pos' buf ++ (bytes ++ drop (pos' + length bytes) buf)

module _ (env : Env) where
  -- The `while` of `blocking_write`, entered with `pos`; a round for each unit of fuel.
  pub blocking_write_from : ℕ → ℤ → List ℕ → ℕ → ℕ → Io ℤ
  blocking_write_from zero fd buf len pos' = out_of_fuel
  blocking_write_from (suc fuel) fd buf len pos' = elim (ltb pos' len) [
    | false ↦ pure (pos len)
    | true ↦ write env fd (take (len - pos') (drop pos' buf)) >>= λ ret. elim (ltb_ℤ ret (pos 0)) [
      | true ↦ pure ret
      | false ↦ blocking_write_from fuel fd buf len ((pos' + pos_part ret) % size_mod)
    ]
  ]

  unfoldable pub blocking_write : ℕ → ℤ → List ℕ → ℕ → Io ℤ
  unfolding blocking_write_from
  blocking_write fuel fd buf len = blocking_write_from fuel fd buf len 0

  -- The `while` of `blocking_read`. The buffer comes back with the result.
  pub blocking_read_from : ℕ → ℤ → List ℕ → ℕ → ℕ → Io (ℤ × List ℕ)
  blocking_read_from zero fd buf len pos' = out_of_fuel
  blocking_read_from (suc fuel) fd buf len pos' = elim (ltb pos' len) [
    | false ↦ pure (pos len, buf)
    | true ↦ read env fd (len - pos') >>= λ reply. elim (ltb_ℤ reply.0 (pos 0)) [
      | true ↦ pure (reply.0, store buf pos' reply.1)
      | false ↦
          blocking_read_from fuel fd (store buf pos' reply.1) len
            ((pos' + pos_part reply.0) % size_mod)
    ]
  ]

  unfoldable pub blocking_read : ℕ → ℤ → List ℕ → ℕ → Io (ℤ × List ℕ)
  unfolding blocking_read_from store
  blocking_read fuel fd buf len = blocking_read_from fuel fd buf len 0
