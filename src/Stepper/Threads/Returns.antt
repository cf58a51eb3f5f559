-- ===== src/Stepper/Threads/Returns.antt =====
-- A call of `seq_rotate` comes back to the event loop.
use real_time_systems.Base.{ℕ, ◌≡◌}
use real_time_systems.Stepper.Threads.{idle, System}
use real_time_systems.Stepper.Threads.Commands.{Serves}

-- The call that is in state `s` can be finished.
abbrev pub Finishes : System → Type 0
Finishes s = (n : ℕ) × (s' : System) × Serves n s s' × (s'.main ≡ idle)
