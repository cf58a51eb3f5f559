-- ===== src/Stepper/Rotate/Train.antt =====
-- The pulse train that `rotate` puts on the pins.
use real_time_systems.Base.{
  ◌∙◌, ℕ, zero, suc, ◌<◌, ◌≡◌, refl, ap, ◌⊎◌, Option, some, List, [], ◌∷◌, arith,
}
use real_time_systems.Base.Int.{ℤ, pos, pos_part, ◌≤ℤ◌, ◌<ℤ◌}
use real_time_systems.Os.{Env, Trace, Timespec, wrote, slept}
use real_time_systems.Stepper.Sleep.{sleep_rest, msleep, SleepsOn, msleep-Slept}
use real_time_systems.Stepper.Rotate.{high, low, interval, pulse, pulses, rotate}

-- What was given to `write`, with the descriptors, the latest first.
abbrev pub Writes : Type 0
Writes = List (ℤ × List ℕ)

abbrev pub writes : Trace → Writes
writes [] = []
writes (wrote fd bytes _ ∷ t) = (fd, bytes) ∷ writes t
writes (_ ∷ t) = writes t

-- `n` pulses on a pin, and a rotation of `n` pulses, after other writes.
abbrev pub train : ℤ → ℕ → Writes → Writes
train pul_fd zero ws = ws
train pul_fd (suc n) ws = (pul_fd, low) ∷ (pul_fd, high) ∷ train pul_fd n ws

abbrev pub rotation : ℤ → ℤ → ℕ → Writes → Writes
rotation pul_fd ena_fd n ws = (ena_fd, high) ∷ train pul_fd n ((ena_fd, low) ∷ ws)

writes-sleep_rest :
    (env : Env) (fuel : ℕ) (ts : Timespec) (t : Trace)
    → writes (sleep_rest env fuel ts t).1 ≡ writes t
unfolding sleep_rest
writes-sleep_rest env zero ts t = refl
writes-sleep_rest env (suc fuel) ts t =
    let reply = env.nanosleep_reply t ts in
    ground (arith, writes-sleep_rest env fuel reply.2 (slept ts reply.0 ∷ t))

writes-msleep :
    (env : Env) (fuel tms : ℕ) (t : Trace) → writes (msleep env fuel (pos tms) t).1 ≡ writes t
unfolding msleep
writes-msleep env fuel tms t = writes-sleep_rest env fuel _ t

train_snoc :
    (pul_fd : ℤ) (n : ℕ) (ws : Writes)
    → train pul_fd n ((pul_fd, low) ∷ (pul_fd, high) ∷ ws) ≡ train pul_fd (suc n) ws
train_snoc pul_fd zero ws = refl
train_snoc pul_fd (suc n) ws = ap (λ l. (pul_fd, low) ∷ (pul_fd, high) ∷ l) (train_snoc pul_fd n ws)

-- A part of `rotate` has returned, with these writes until then.
abbrev pub Wrote : Option (Unit {0}) × Trace → Writes → Type 0
Wrote out ws = (out.0 ≡ some tt) × (writes out.1 ≡ ws)

module _ (env : Env) (on : SleepsOn env) (fuel : ℕ) (enough : 3_000_000 < fuel) where
  -- Each sleep of the train returns.
  pub msleep_returns : (t : Trace) → (r : ℤ) × ((msleep env fuel interval t).0 ≡ some r)
  msleep_returns t =
      let (t', ts, r, last, quiet) = msleep-Slept env on fuel 3 t enough in
      ((env.nanosleep_reply t' ts).0, r)

  module _ (pul_fd ena_fd : ℤ) where
    pulse-Wrote :
        (t : Trace) → Wrote (pulse env fuel pul_fd t) ((pul_fd, low) ∷ (pul_fd, high) ∷ writes t)
    unfolding pulse
    pulse-Wrote t =
        let t1 : Trace = wrote pul_fd high (env.write_reply t pul_fd high) ∷ t in
        let t2 = (msleep env fuel interval t1).1 in
        let t3 : Trace = wrote pul_fd low (env.write_reply t2 pul_fd low) ∷ t2 in
        let first = msleep_returns t1 in
        let second = msleep_returns t3 in
        ground (arith, first.1, second.1, writes-msleep env fuel 3 t1, writes-msleep env fuel 3 t3)

    pulses-Wrote :
        (n : ℕ) (t : Trace) → Wrote (pulses env fuel n pul_fd t) (train pul_fd n (writes t))
    unfolding pulses
    pulses-Wrote zero t = (refl, refl)
    pulses-Wrote (suc n) t =
        let t1 = (pulse env fuel pul_fd t).1 in
        let (ends, more) = pulses-Wrote n t1 in
        let (ends1, first) = pulse-Wrote t in
        let all = more ∙ ap (train pul_fd n) first ∙ train_snoc pul_fd n (writes t) in
        (ground arith, ground arith)

    -- Where interrupted sleeps go on sleeping, and given rounds for each nanosecond of one, `rotate`
    -- of 1 to 1000 pulses returns. Until then its writes are, in this order: the pin that enables the
    -- motor low, the pin of the pulses high and low in turn, as often as asked, and the first pin
    -- high. Of any other number `rotate` makes no call at all.
    pub rotate-train :
        (rotations : ℤ) (t : Trace)
        → (pos 0 <ℤ rotations
            → rotations ≤ℤ pos 1000
            → Wrote
                (rotate env fuel rotations pul_fd ena_fd t)
                (rotation pul_fd ena_fd (pos_part rotations) (writes t)))
          × ((rotations ≤ℤ pos 0) ⊎ (pos 1000 <ℤ rotations)
              → rotate env fuel rotations pul_fd ena_fd t ≡ (some tt, t))
    unfolding rotate
    rotate-train rotations t =
        let t1 : Trace = wrote ena_fd low (env.write_reply t ena_fd low) ∷ t in
        (λ lo hi. ground (arith, pulses-Wrote (pos_part rotations) t1), λ outside. ground arith)
