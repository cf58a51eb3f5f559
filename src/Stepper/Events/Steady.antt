-- ===== src/Stepper/Events/Steady.antt =====
-- What every round of the event loop of src/stepper.c keeps: of the mutex and `working`, and a property
-- of `direction` and the level of its pin.
use real_time_systems.Base.{
  ℕ, ◌+◌, ◌≡◌, refl, true, Option, none, some, List, ◌∷◌, arith, if◌then◌else◌,
}
use real_time_systems.Base.Int.{ℤ, pos, pos_part, eqb_ℤ, truthy}
use real_time_systems.Os.{Env, Trace, next, After, clocked}
use real_time_systems.Stepper.Gpio.{set_direction}
use real_time_systems.Stepper.Threads.Invariant.{IsFlag}
use real_time_systems.Stepper.Sequence.{seq_rotate}
use real_time_systems.Stepper.Sequence.Mutex.{
  held, is_proper, IsOrderly, level, Sequenced, seq_rotate-Sequenced,
}
use real_time_systems.Stepper.Setup.{Pins}
use real_time_systems.Stepper.Events.{Motor, obey_packet}

-- A call of `seq_rotate` keeps a property of the level of a pin.
abbrev pub KeptByRotations : Env → ℕ → Pins → (ℤ → Option (List ℕ) → Type 0) → Type 0
KeptByRotations env fuel pins K =
    (d rotations working : ℤ) (t : Trace)
    → K d (level pins.direction_fd t)
    → K d (
        level pins.direction_fd
          (seq_rotate env fuel rotations pins.pulse_fd pins.enable_fd working t).1)

-- A call of `set_direction` keeps it for the new direction where it succeeds, else for the old one.
abbrev pub KeptByTurns : Env → Pins → (ℤ → Option (List ℕ) → Type 0) → Type 0
KeptByTurns env pins K =
    (d dir_in ret : ℤ) (t : Trace)
    → K d (level pins.direction_fd t)
    → (set_direction env dir_in pins.direction_fd t).0 ≡ some ret
    → K (if truthy ret then dir_in else d)
        (level pins.direction_fd (set_direction env dir_in pins.direction_fd t).1)

-- While the loop runs: `working` is 0 or 1, the main thread holds the mutex just where it is 0, has
-- kept to the mutex, and `K` holds.
abbrev pub Steady : (ℤ → Option (List ℕ) → Type 0) → Pins → Motor → Trace → Type 0
Steady K pins s t =
    IsFlag s.working
    × (held t ≡ eqb_ℤ s.working (pos 0))
    × (is_proper t ≡ true)
    × K s.direction (level pins.direction_fd t)

module _ (env : Env) (fuel : ℕ) (pins : Pins) (connection_socket : ℤ)
    (K : ℤ → Option (List ℕ) → Type 0) (rotations_keep : KeptByRotations env fuel pins K)
    (turns_keep : KeptByTurns env pins K) where
  -- A pin that `rotate` does not write to.
  abbrev other : ℤ
  other = pos (pos_part pins.pulse_fd + pos_part pins.enable_fd + 1)

  -- What a call of `seq_rotate` leaves.
  abbrev pub Left : ℤ → Option ℤ × Trace → Type 0
  Left d (none, t) = IsOrderly t
  Left d (some working, t) =
      IsFlag working
      × (held t ≡ eqb_ℤ working (pos 0))
      × (is_proper t ≡ true)
      × K d (level pins.direction_fd t)

  pub rotation-Left :
      (s : Motor) (rotations : ℤ) (t : Trace)
      → Steady K pins s t
      → Left s.direction (seq_rotate env fuel rotations pins.pulse_fd pins.enable_fd s.working t)
  rotation-Left s rotations t (flag, mine, ok, k) =
      of_Sequenced (seq_rotate env fuel rotations pins.pulse_fd pins.enable_fd s.working t)
        (seq_rotate-Sequenced env other fuel pins.pulse_fd pins.enable_fd (ground arith)
          (ground arith) rotations s.working t flag mine ok)
        (rotations_keep s.direction rotations s.working t k)
    where
      of_Sequenced :
          (out : Option ℤ × Trace)
          → Sequenced env other fuel pins.pulse_fd pins.enable_fd
              (ground arith)
              (ground arith)
              rotations
              s.working
              t
              out
          → K s.direction (level pins.direction_fd out.1)
          → Left s.direction out
      of_Sequenced (none, t') h k' = h.0
      of_Sequenced (some w, t') h k' = (h.0, h.2, h.3, k')

  -- `>>=` behind a call of `seq_rotate`.
  pub rotated-Steady :
      (s : Motor) (d : ℤ) (out : Option ℤ × Trace)
      → s.direction ≡ d
      → Left d out
      → After (Steady K pins) IsOrderly (elim out.0 [
        | none ↦ (none, out.1)
        | some working ↦ (some (next (record s { working = working })), out.1)
      ])
  rotated-Steady s d (none, t) e h = h
  rotated-Steady s d (some working, t) e (flag, mine, ok, k) = (flag, mine, ok, rw e k)

  pub obey_packet-Steady :
      (s : Motor) (t : Trace)
      → Steady K pins s t
      → After (Steady K pins) IsOrderly (obey_packet env fuel pins connection_socket s t)
  unfolding obey_packet
  obey_packet-Steady s t h =
      let t1 : Trace = clocked (env.clock_reply t).0 ∷ t in
      rotated-Steady s s.direction
        (seq_rotate env fuel s.in_packet.turns pins.pulse_fd pins.enable_fd s.working t1) refl
        (rotation-Left s s.in_packet.turns t1 h)
