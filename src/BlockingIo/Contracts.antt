-- ===== src/BlockingIo/Contracts.antt =====
-- The contracts of `write` and `read` can be met: the calm environment meets them.
use real_time_systems.Base.{ℕ, arith, length-replicate}
use real_time_systems.Os.Examples.{calm}
use real_time_systems.BlockingIo.Write.{WriteContract}
use real_time_systems.BlockingIo.Read.{ReadContract, IsEndless}

pub calm-WriteContract : WriteContract calm
calm-WriteContract = record {
  at_most = λ t fd bytes. omega arith;
  progress = λ t fd bytes h e. ground arith;
}

pub calm-ReadContract : ReadContract calm
calm-ReadContract = record {
  at_most = λ t fd n. omega arith;
  counted = λ t fd n k e. ground (arith, length-replicate {A = ℕ} n 0);
  none_on_error = λ t fd n k e. cc;
}

pub calm-IsEndless : IsEndless calm
calm-IsEndless t fd n h e = ground arith
