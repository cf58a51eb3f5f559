-- ===== src/Stepper/Setup/Unlocked.antt =====
-- The mutex during the set-up of stepper, which precedes its event loop.
use real_time_systems.Base.{
  ℕ, suc, ◌==◌, ◌≡◌, ◌⊎◌, true, false, some, List, [], ◌∷◌, arith, get_or, if◌then◌else◌,
}
use real_time_systems.Base.Int.{ℤ}
use real_time_systems.Os.{Env, Trace, Lasts, opened, wrote, closed, waited}
use real_time_systems.Stepper.Rotate.{high, low}
use real_time_systems.Stepper.Sequence.Mutex.{held, is_proper, IsOrderly, level}
use real_time_systems.Stepper.Gpio.{export, unexport}
use real_time_systems.Stepper.Setup.{
  Pins, direction_path, value_path, out_word, dir_num, first_level, init_directions, init_values,
  init_pulse, open_server, start_worker,
}

-- The calls of `epoll_wait` that have come back.
abbrev pub waits : Trace → ℕ
waits [] = 0
waits (waited _ ∷ t) = suc (waits t)
waits (_ ∷ t) = waits t

-- The mutex is free, and the event loop has not begun.
abbrev pub IsEarly : Trace → Type 0
IsEarly t = (held t ≡ false) × IsOrderly t × (waits t ≡ 0)

abbrev pub Early : {A : Type 0} → A → Trace → Type 0
Early a t = IsEarly t

-- The mutex is locked, the event loop has not begun, and a pin is as it was.
abbrev pub LockedWith : ℤ → Trace → {A : Type 0} → A → Trace → Type 0
LockedWith pin before a t =
    (held t ≡ true) × IsOrderly t × (waits t ≡ 0) × (level pin t ≡ level pin before)

module _ (env : Env) (argv : List (List ℕ)) where
  pub init_directions-Early :
      (is : List ℕ) (t : Trace) → IsEarly t → Lasts Early IsEarly (init_directions env argv is t)
  unfolding init_directions
  init_directions-Early [] t h = h
  init_directions-Early (i ∷ is) t h =
      let path = direction_path (get_or argv i []) in
      let fd = env.open_reply t path in
      let t1 : Trace = opened path fd ∷ t in
      let t2 : Trace = wrote fd out_word (env.write_reply t1 fd out_word) ∷ t1 in
      ground (arith, init_directions-Early is (closed fd ∷ t2))

  pub init_values-Early :
      (is : List ℕ) (pins : Pins) (t : Trace)
      → IsEarly t
      → Lasts Early IsEarly (init_values env argv is pins t)
  unfolding init_values
  init_values-Early [] pins t h = h
  init_values-Early (i ∷ is) pins t h =
      let path = value_path (get_or argv i []) in
      let fd = env.open_reply t path in
      let t1 : Trace = opened path fd ∷ t in
      let first = if i == dir_num then first_level env argv else high in
      let t2 : Trace = wrote fd first (env.write_reply t1 fd first) ∷ t1 in
      ground (
        arith,
        init_values-Early is (record pins { direction_fd = fd }) t2,
        init_values-Early is (record pins { enable_fd = fd }) t2,
      )

  -- Where the pin of the pulses is that of the direction, its level is low from then on.
  pub init_pulse-Early :
      (pins : Pins) (t : Trace)
      → IsEarly t
      → Lasts
          (λ pins' t'.
            IsEarly t'
            × (pins'.direction_fd ≡ pins.direction_fd)
            × ((level pins.direction_fd t' ≡ level pins.direction_fd t)
                ⊎ (level pins.direction_fd t' ≡ some low)))
          IsEarly
          (init_pulse env argv pins t)
  unfolding init_pulse
  init_pulse-Early pins t h = ground arith

  pub open_server-Early :
      (pin : ℤ) (t : Trace)
      → IsEarly t
      → Lasts (λ fd t'. IsEarly t' × (level pin t' ≡ level pin t)) IsEarly (open_server env argv t)
  unfolding open_server
  open_server-Early pin t h = ground arith

  pub start_worker-Locked :
      (pin : ℤ) (t : Trace) → IsEarly t → Lasts (LockedWith pin t) IsEarly (start_worker env argv t)
  unfolding start_worker
  start_worker-Locked pin t h = ground arith

  pub export-IsEarly : (t : Trace) → IsEarly t → IsEarly (export env argv t).1
  unfolding export
  export-IsEarly t h = ground arith

  -- `unexport` does nothing with the mutex, and does not wait.
  pub held-unexport :
      (t : Trace)
      → let t' = (unexport env argv t).1 in
        (held t' ≡ held t) × (is_proper t' ≡ is_proper t) × (waits t' ≡ waits t)
  unfolding unexport
  held-unexport t = ground arith
