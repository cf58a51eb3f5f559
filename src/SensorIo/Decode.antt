-- ===== src/SensorIo/Decode.antt =====
-- What `read_sensor` makes of the four bytes of the data registers.
use real_time_systems.Base.{ℕ, ◌+◌, ◌*◌, ◌/◌, refl, ◌<◌, ◌≡◌, true, false, [], ◌∷◌, arith}
use real_time_systems.Base.Int.{pos, ◌+ℤ◌, int_laws}
use real_time_systems.Os.{SensorPacket}
use real_time_systems.SensorIo.{intensity, reformat}

-- The registers hold two words of 16 bits, low byte first. With unsigned `char` the packet gets
-- these words, and visible light is their difference; the metadata stays.
reformat_unsigned :
    (b0 b1 b2 b3 : ℕ) (p : SensorPacket)
    → let q = reformat false (b0 ∷ b1 ∷ b2 ∷ b3 ∷ []) p in
      (q.full ≡ pos (256 * b1 + b0))
      × (q.infrared ≡ pos (256 * b3 + b2))
      × (q.visible +ℤ q.infrared ≡ q.full)
      × (q.timestamp ≡ p.timestamp)
      × (q.sequence ≡ p.sequence)
unfolding reformat
reformat_unsigned b0 b1 b2 b3 p = (omega int_laws, omega int_laws, omega int_laws, refl, refl)

-- With signed `char` a word whose low byte is 128 or more comes out 256 too small, and one whose
-- high byte is 128 or more comes out 65536 too small; the two errors add up.
intensity_signed :
    (lsb msb : ℕ)
    → lsb < 256
    → msb < 256
    → intensity true (lsb ∷ msb ∷ []) 1 0 +ℤ pos ((lsb / 128) * 256 + (msb / 128) * 65536)
      ≡ pos (256 * msb + lsb)
unfolding intensity ◌+ℤ◌
intensity_signed lsb msb hl hm = ground arith
