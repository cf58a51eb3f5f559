-- ===== src/Stepper/Gpio/Pins.antt =====
-- What the calls on the pins do, on every branch.
use real_time_systems.Base.{ℕ, ◌≡◌, ◌≢◌, ◌⊎◌, some, List, ◌∷◌, arith}
use real_time_systems.Base.Int.{ℤ, pos, neg, ◌≤ℤ◌, ◌<ℤ◌}
use real_time_systems.Os.{Env, Trace, wrote, opened, closed}
use real_time_systems.Sockets.Opening.{closed_fds}
use real_time_systems.Stepper.Rotate.{high, low}
use real_time_systems.Stepper.Gpio.{set_direction, export, export_path, pin_bytes}

-- `set_direction` refuses what is neither 0 nor 1 without a call. Else it writes one level, low for 0
-- and high for 1, and returns 1 unless that write fails.
pub set_direction-levels :
    (env : Env) (direction dir_fd : ℤ) (t : Trace)
    → (direction ≢ pos 0
        → direction ≢ pos 1
        → set_direction env direction dir_fd t ≡ (some (pos 0), t))
      × (direction ≡ pos 0
          → let ret = env.write_reply t dir_fd low in
            ((set_direction env direction dir_fd t).1 ≡ wrote dir_fd low ret ∷ t)
            × (pos 0 ≤ℤ ret → (set_direction env direction dir_fd t).0 ≡ some (pos 1))
            × (ret <ℤ pos 0 → (set_direction env direction dir_fd t).0 ≡ some (pos 0)))
      × (direction ≡ pos 1
          → let ret = env.write_reply t dir_fd high in
            ((set_direction env direction dir_fd t).1 ≡ wrote dir_fd high ret ∷ t)
            × (pos 0 ≤ℤ ret → (set_direction env direction dir_fd t).0 ≡ some (pos 1))
            × (ret <ℤ pos 0 → (set_direction env direction dir_fd t).0 ≡ some (pos 0)))
unfolding set_direction
set_direction-levels env direction dir_fd t = (
  λ n0 n1. ground arith,
  λ e. (ground arith, λ h. ground arith, λ h. ground arith),
  λ e. (ground arith, λ h. ground arith, λ h. ground arith),
)

-- `export` returns 1 or 0. If it returns 1, the file of the exports was opened, the first two bytes of
-- each of the three pins were written to it in order, and it was closed; if it returns 0, nothing was
-- closed, the opened file included.
pub export-pins :
    (env : Env) (argv : List (List ℕ)) (t : Trace)
    → let fd = env.open_reply t export_path in
      let t1 = opened export_path fd ∷ t in
      let r1 = env.write_reply t1 fd (pin_bytes argv 1) in
      let t2 = wrote fd (pin_bytes argv 1) r1 ∷ t1 in
      let r2 = env.write_reply t2 fd (pin_bytes argv 2) in
      let t3 = wrote fd (pin_bytes argv 2) r2 ∷ t2 in
      let r3 = env.write_reply t3 fd (pin_bytes argv 3) in
      let t4 = wrote fd (pin_bytes argv 3) r3 ∷ t3 in
      ((export env argv t ≡ (some (pos 1), closed fd ∷ t4))
        × (fd ≢ neg 1)
        × (pos 0 <ℤ r1)
        × (pos 0 <ℤ r2)
        × (pos 0 <ℤ r3))
      ⊎ (((export env argv t).0 ≡ some (pos 0)) × (closed_fds (export env argv t).1 ≡ closed_fds t))
unfolding export
export-pins env argv t = ground arith
