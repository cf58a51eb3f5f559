-- ===== src/SensorIo.antt =====
-- src/sensor_io.c and src/sensor_io.h: the TSL2561 ambient light sensor on the I2C bus.
pub mod Decode
pub mod Registers
pub mod Protocol
mod Tests
use real_time_systems.Base.{
  ℕ, ◌+◌, ◌-◌, ◌*◌, Bool, true, false, ◌&&◌, not, List, [], ◌∷◌, get_or, leb, if◌then◌else◌,
}
use real_time_systems.Base.Int.{ℤ, pos, negsuc, neg, ◌+ℤ◌, ◌-ℤ◌, ltb_ℤ, eqb_ℤ}
use real_time_systems.Errors.{
  Errcode, success, err_open, err_ioctl, err_write_control, err_write_timing, err_write_read,
  err_read_data, code,
}
use real_time_systems.Os.{Env, Io, pure, ◌>>=◌, SensorPacket, open_file, ioctl}
use real_time_systems.BlockingIo.{blocking_write, blocking_read}

-- The command bytes, as the device sees them: `CONTROL_REGC`, `TIMING_REGC` and `READ_REGC` bytes.
abbrev pub control_reg : List ℕ
control_reg = 0x80 ∷ 0x03 ∷ []

abbrev pub timing_reg : List ℕ
timing_reg = 0x81 ∷ 0x02 ∷ []

abbrev pub read_reg : List ℕ
read_reg = 0x8c ∷ []

-- `DATA_REGC` and `enum datai`
abbrev pub data_regc : ℕ
data_regc = 4

abbrev pub full_lsb : ℕ
full_lsb = 0

abbrev pub full_msb : ℕ
full_msb = 1

abbrev pub infrared_lsb : ℕ
infrared_lsb = 2

abbrev pub infrared_msb : ℕ
infrared_msb = 3

-- An element of a `char` array as an `int`: a byte, or with signed `char` that byte less 256 from
-- 128 on.
pub char_value : Bool → ℕ → ℤ
char_value signed byte = if signed && leb 128 byte then negsuc (255 - byte) else pos byte

-- `x << 8`, which gcc defines as `x * 256` for a negative `x` too.
pub shift_left_8 : ℤ → ℤ
shift_left_8 (pos n) = pos (n * 256)
shift_left_8 (negsuc n) = negsuc (n * 256 + 255)

-- `(data_reg[msb] << 8) + data_reg[lsb]`
unfoldable pub intensity : Bool → List ℕ → ℕ → ℕ → ℤ
unfolding char_value shift_left_8 ◌+ℤ◌
intensity signed data_reg msb lsb =
    shift_left_8 (char_value signed (get_or data_reg msb 0))
    +ℤ char_value signed (get_or data_reg lsb 0)

-- The last three assignments of `read_sensor`.
unfoldable pub reformat : Bool → List ℕ → SensorPacket → SensorPacket
unfolding intensity ◌-ℤ◌
reformat signed data_reg packet =
    let full = intensity signed data_reg full_msb full_lsb in
    let infrared = intensity signed data_reg infrared_msb infrared_lsb in
    record packet { full = full; infrared = infrared; visible = full -ℤ infrared }

module _ (env : Env) where
  unfoldable pub init_sensor : ℕ → List ℕ → Io ℤ
  init_sensor fuel bus = do
    fd ← open_file env bus
    if ltb_ℤ fd (pos (code success)) then pure (neg (code err_open)) else do
      selected ← ioctl env fd
      if ltb_ℤ selected (pos (code success)) then pure (neg (code err_ioctl)) else do
        powered ← blocking_write env fuel fd control_reg 2
        if not (eqb_ℤ powered (pos 2)) then pure (neg (code err_write_control)) else do
          timed ← blocking_write env fuel fd timing_reg 2
          if not (eqb_ℤ timed (pos 2)) then pure (neg (code err_write_timing)) else pure fd

  -- The packet is written only at the end, where all went well.
  unfoldable pub read_sensor : ℕ → ℤ → SensorPacket → Io (ℤ × SensorPacket)
  read_sensor fuel fd packet = do
    asked ← blocking_write env fuel fd read_reg 1
    if not (eqb_ℤ asked (pos 1)) then pure (neg (code err_write_read), packet) else do
      answer ← blocking_read env fuel fd (0 ∷ 0 ∷ 0 ∷ 0 ∷ []) data_regc
      if not (eqb_ℤ answer.0 (pos data_regc))
          then pure (neg (code err_read_data), packet)
          else pure (pos (code success), reformat env.char_signed answer.1 packet)
