-- ===== src/SensorIo/Registers.antt =====
-- The data registers of the sensor, and what `read_sensor` makes of them.
use real_time_systems.Base.{
  ℕ, ◌+◌, ◌*◌, ◌/◌, ◌%◌, ◌<◌, ◌≡◌, refl, Bool, true, false, List, [], ◌∷◌, ◌++◌, arith,
}
use real_time_systems.Base.Int.{ℤ, pos, ◌+ℤ◌, ◌-ℤ◌, int_laws}
use real_time_systems.Os.{SensorPacket}
use real_time_systems.SensorIo.{intensity, reformat, full_msb, full_lsb, infrared_msb, infrared_lsb}

-- How the sensor stores a word of 16 bits: low byte first.
abbrev pub registers : ℕ → List ℕ
registers word = (word % 256) ∷ (word / 256) ∷ []

-- What a word loses on its way: nothing with unsigned `char`; with signed `char` 256 if its low byte is
-- 128 or more, and 65536 if its high byte is.
abbrev pub lost : Bool → ℕ → ℕ
lost false word = 0
lost true word = (word % 256 / 128) * 256 + (word / 256 / 128) * 65536

intensity-second :
    (signed : Bool) (first word : ℕ)
    → word < 65536
    → intensity signed (registers first ++ registers word) 3 2 +ℤ pos (lost signed word) ≡ pos word
unfolding intensity ◌+ℤ◌
intensity-second false first word h = ground arith
intensity-second true first word h = ground arith

intensity-first :
    (signed : Bool) (word second : ℕ)
    → word < 65536
    → intensity signed (registers word ++ registers second) 1 0 +ℤ pos (lost signed word) ≡ pos word
unfolding intensity ◌+ℤ◌
intensity-first false word second h = ground arith
intensity-first true word second h = ground arith

sub_add : (a b : ℤ) → (a -ℤ b) +ℤ b ≡ a
sub_add a b = omega int_laws

-- The intensities that the sensor stores in its four registers come back in the packet: exactly with
-- unsigned `char`, so that `reformat` undoes the storing, and with signed `char` less what `lost` says.
-- Visible light is the full intensity less the infrared, and the metadata stays.
pub reformat-registers :
    (signed : Bool) (full infrared : ℕ) (p : SensorPacket)
    → full < 65536
    → infrared < 65536
    → let q = reformat signed (registers full ++ registers infrared) p in
      (q.full +ℤ pos (lost signed full) ≡ pos full)
      × (q.infrared +ℤ pos (lost signed infrared) ≡ pos infrared)
      × (q.visible +ℤ q.infrared ≡ q.full)
      × (q.timestamp ≡ p.timestamp)
      × (q.sequence ≡ p.sequence)
unfolding reformat
reformat-registers signed full infrared p hf hi = (
  intensity-first signed full infrared hf,
  intensity-second signed full infrared hi,
  sub_add (intensity signed (registers full ++ registers infrared) full_msb full_lsb)
      (intensity signed (registers full ++ registers infrared) infrared_msb infrared_lsb),
  refl,
  refl,
)
