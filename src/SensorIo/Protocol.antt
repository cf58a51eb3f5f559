-- ===== src/SensorIo/Protocol.antt =====
-- `init_sensor` and `read_sensor` against the device: what they put on the bus, what they return.
use real_time_systems.Base.{
  ℕ, ◌<◌, ◌≡◌, ◌⊎◌, inl, inr, refl, Option, some, List, [], ◌∷◌, ◌++◌, length, arith, append_assoc,
  append-nil, take, drop, ◌-◌,
}
use native.Mathlib.Decide.{dec_lt}
use real_time_systems.Base.Int.{pos_part, neg_part, ℤ, pos, neg, ◌≤ℤ◌, ◌<ℤ◌}
use real_time_systems.Errors.{
  success, err_open, err_ioctl, err_write_control, err_write_timing, err_write_read, err_read_data,
  code,
}
use real_time_systems.Os.{Env, Trace, controlled, opened, SensorPacket, taken, delivered}
use real_time_systems.BlockingIo.{blocking_write, blocking_read}
use real_time_systems.BlockingIo.Write.{
  WriteContract, FailedWrite, WriteResult, blocking_write_lem, delivered-blocking_write,
}
use real_time_systems.BlockingIo.Read.{
  ReadContract, IsEndless, FailedRead, ReadResult, blocking_read_lem,
}
use real_time_systems.SensorIo.{
  control_reg, timing_reg, read_reg, reformat, init_sensor, read_sensor,
}

-- How `read_sensor` ends: the packet rebuilt from the four bytes that the device delivered, or the
-- code of the call that failed last, and the packet as it was.
abbrev pub ReadOutcome : Env → ℤ → SensorPacket → Trace → Option (ℤ × SensorPacket) × Trace → Type 0
ReadOutcome env fd p t out =
    ((b0 b1 b2 b3 : ℕ) × (out.0
        ≡ some (pos (code success), reformat env.char_signed (b0 ∷ b1 ∷ b2 ∷ b3 ∷ []) p))
      × (delivered fd out.1 ≡ delivered fd t ++ (b0 ∷ b1 ∷ b2 ∷ b3 ∷ [])))
    ⊎ (out.0 ≡ some (neg (code err_write_read), p))
      × (delivered fd out.1 ≡ delivered fd t)
      × ((v : ℤ) × FailedWrite env fd read_reg v out.1)
    ⊎ (bytes : List ℕ) × (out.0 ≡ some (neg (code err_read_data), p))
      × ((v : ℤ) × FailedRead env fd (4 - length bytes) v out.1)
      × (length bytes < 4)
      × (delivered fd out.1 ≡ delivered fd t ++ bytes)

-- A list of four bytes.
four : (bytes : List ℕ) → length bytes ≡ 4 → (b0 b1 b2 b3 : ℕ) × (bytes ≡ b0 ∷ b1 ∷ b2 ∷ b3 ∷ [])
four [] h = absurd (omega arith)
four (a ∷ []) h = absurd (omega arith)
four (a ∷ b ∷ []) h = absurd (omega arith)
four (a ∷ b ∷ c ∷ []) h = absurd (omega arith)
four (a ∷ b ∷ c ∷ d ∷ []) h = (a, b, c, d, refl)
four (a ∷ b ∷ c ∷ d ∷ e ∷ r) h = absurd (omega arith)

module _ {env : Env} (writes : WriteContract env) (reads : ReadContract env)
    (endless : IsEndless env) (fuel : ℕ) (enough : 4 < fuel) (fd : ℤ) (p : SensorPacket)
    (t : Trace) where
  abbrev asked : Option ℤ × Trace
  asked = blocking_write env fuel fd read_reg 1 t

  abbrev answered : Option (ℤ × List ℕ) × Trace
  answered = blocking_read env fuel fd (0 ∷ 0 ∷ 0 ∷ 0 ∷ []) 4 asked.1

  answer-ReadOutcome :
      asked.0 ≡ some (pos 1)
      → ReadResult env fd 4 [] asked.1 answered
      → ReadOutcome env fd p t (read_sensor env fuel fd p t)
  unfolding read_sensor
  answer-ReadOutcome e (inl (bytes, r, size, d)) =
      let (b0, b1, b2, b3, same) = four bytes (omega arith) in
      inl (
        b0,
        b1,
        b2,
        b3,
        ground arith,
        ground (arith, delivered-blocking_write env fuel fd fd read_reg 1 t),
      )
  answer-ReadOutcome e (inr (bytes, rest, v, r, failed, short, d)) = inr (
      inr (
        bytes,
        ground arith,
        (v, ground arith),
        omega arith,
        ground (arith, delivered-blocking_write env fuel fd fd read_reg 1 t),
      ))

  -- Where `write` and `read` keep to what they document, the device always answers, and each of the
  -- two calls is given more than four rounds, `read_sensor` returns. Either it returns 0 and the packet
  -- rebuilt from exactly the four bytes that the device then delivered, or it returns a negated code and
  -- the packet as it was: -ERR_WRITE_READ, where the last call was the question to the device, and
  -- failed, and nothing was delivered; or -ERR_READ_DATA, where less than four bytes were delivered, and
  -- the last call was to read the rest, and failed.
  pub read_sensor_lem : ReadOutcome env fd p t (read_sensor env fuel fd p t)
  unfolding read_sensor
  read_sensor_lem =
      elim (blocking_write_lem writes fd read_reg fuel t (omega arith) (omega arith)) [
        | inl (r, q) ↦ answer-ReadOutcome r (
            blocking_read_lem reads endless fd 4 fuel (0 ∷ 0 ∷ 0 ∷ 0 ∷ []) asked.1 (omega arith)
              enough refl)
        | inr (n, v, r, failed, short, q) ↦ inr (
            inl (
              ground arith,
              ground (arith, delivered-blocking_write env fuel fd fd read_reg 1 t),
              (v, ground arith),
            ))
      ]

-- After the bytes of `before`, a proper prefix of `command` was taken, and
-- the last call of all, to write the rest of it, failed.
abbrev pub Refused : Env → ℤ → List ℕ → List ℕ → Trace → Trace → Type 0
Refused env fd before command t t' =
    (n : ℕ) × (v : ℤ) × (n < length command)
    × FailedWrite env fd (drop n command) v t'
    × (taken fd t' ≡ (taken fd t ++ before) ++ take n command)

-- How `init_sensor` ends: with the descriptor that `open` gave, after the device took the four bytes
-- that switch it on and set its timing; or with the code of the step that failed.
abbrev pub InitOutcome : Env → List ℕ → Trace → Option ℤ × Trace → Type 0
InitOutcome env bus t out =
    let fd = env.open_reply t bus in
    let selected = env.ioctl_reply (opened bus fd ∷ t) fd in
    ((pos 0 ≤ℤ fd)
      × (out.0 ≡ some fd)
      × (taken fd out.1 ≡ taken fd t ++ (0x80 ∷ 0x03 ∷ 0x81 ∷ 0x02 ∷ [])))
    ⊎ (fd <ℤ pos 0) × (out.0 ≡ some (neg (code err_open)))
    ⊎ (pos 0 ≤ℤ fd) × (out.0 ≡ some (neg (code err_ioctl))) × (selected <ℤ pos 0)
    ⊎ (pos 0 ≤ℤ fd)
      × (out.0 ≡ some (neg (code err_write_control)))
      × (pos 0 ≤ℤ selected)
      × Refused env fd [] control_reg t out.1
    ⊎ (pos 0 ≤ℤ fd)
      × (out.0 ≡ some (neg (code err_write_timing)))
      × (pos 0 ≤ℤ selected)
      × Refused env fd control_reg timing_reg t out.1

module _ {env : Env} (writes : WriteContract env) (fuel : ℕ) (enough : 2 < fuel) (bus : List ℕ)
    (t : Trace) where
  abbrev sensor : ℤ
  sensor = env.open_reply t bus

  -- The trace when the device has been selected.
  abbrev selected : Trace
  selected =
      controlled sensor (env.ioctl_reply (opened bus sensor ∷ t) sensor) ∷ opened bus sensor ∷ t

  abbrev powered : Option ℤ × Trace
  powered = blocking_write env fuel sensor control_reg 2 selected

  abbrev timed : Option ℤ × Trace
  timed = blocking_write env fuel sensor timing_reg 2 powered.1

  init_ok :
      pos 0 ≤ℤ sensor
      → pos 0 ≤ℤ env.ioctl_reply (opened bus sensor ∷ t) sensor
      → powered.0 ≡ some (pos 2)
      → timed.0 ≡ some (pos 2)
      → init_sensor env fuel bus t ≡ (some sensor, timed.1)
  unfolding init_sensor
  init_ok h hc e r = ground arith

  timed-InitOutcome :
      pos 0 ≤ℤ sensor
      → pos 0 ≤ℤ env.ioctl_reply (opened bus sensor ∷ t) sensor
      → powered.0 ≡ some (pos 2)
      → taken sensor powered.1 ≡ taken sensor t ++ control_reg
      → WriteResult env sensor timing_reg 0 powered.1 timed
      → InitOutcome env bus t (init_sensor env fuel bus t)
  unfolding init_sensor
  timed-InitOutcome h hc e q (inl (r, d)) =
      rw (init_ok h hc e r) (inl (h, refl, rw (d, q, append_assoc) refl))
  timed-InitOutcome h hc e q (inr (n, v, r, failed, short, d)) =
      inr (inr (inr (inr (h, ground arith, hc, (n, v, omega arith, ground arith, ground arith)))))

  powered-InitOutcome :
      pos 0 ≤ℤ sensor
      → pos 0 ≤ℤ env.ioctl_reply (opened bus sensor ∷ t) sensor
      → WriteResult env sensor control_reg 0 selected powered
      → InitOutcome env bus t (init_sensor env fuel bus t)
  unfolding init_sensor
  powered-InitOutcome h hc (inl (r, d)) =
      timed-InitOutcome h hc r d
        (blocking_write_lem writes sensor timing_reg fuel powered.1 (omega arith) (omega arith))
  powered-InitOutcome h hc (inr (n, v, r, failed, short, d)) = inr (
      inr (
        inr (
          inl (
            h,
            ground arith,
            hc,
            (n, v, omega arith, ground arith, ground (arith, append-nil (taken sensor t))),
          ))))

  -- Where `write` keeps to what it documents, and given more than two rounds for each write of two
  -- bytes, `init_sensor` returns. Either it returns the descriptor that `open` gave, and the device was
  -- sent exactly the two commands that switch it on and set its timing, or it returns the code of the
  -- step that failed, negated: that of `open` or of `ioctl` where these failed, or that of a command of
  -- which the device took a part, or nothing, until a write of the rest failed.
  pub init_sensor_lem : InitOutcome env bus t (init_sensor env fuel bus t)
  unfolding init_sensor
  init_sensor_lem = elim (dec_lt (pos_part sensor) (neg_part sensor)) [
    | yes bad ↦ inr (inl (ground arith, ground arith))
    | no h ↦ elim (dec_lt (pos_part reply) (neg_part reply)) [
      | yes bad ↦ inr (inr (inl (ground arith, ground arith, omega arith)))
      | no hc ↦
          powered-InitOutcome (omega arith) (omega arith)
            (blocking_write_lem writes sensor control_reg fuel selected (omega arith) (omega arith))
    ]
  ]
    where
      reply : ℤ
      reply = env.ioctl_reply (opened bus sensor ∷ t) sensor
