-- ===== src/SensorThread/Sampling.antt =====
-- What a sensor thread sends, by what the device has delivered: a round of the loop.
pub mod Runs
use real_time_systems.Base.{
  ℕ, ◌<◌, ◌≤◌, length, ◌≡◌, ◌≢◌, ◌⊎◌, inl, inr, refl, ap, Bool, true, false, Bool-cases, ◌&&◌,
  Option, none, some, Option-cases, List, [], ◌∷◌, ◌++◌, map, arith, get_or, append-nil,
  if◌then◌else◌,
}
use real_time_systems.Base.Int.{ℤ, pos, eqb_ℤ, eqb_ℤ_iff}
use real_time_systems.Os.{
  Env, Trace, SensorPacket, Flow, next, return, Lasts, delivered, sensor_packets, paused, clocked,
  sent_sensor,
}
use real_time_systems.BlockingIo.Write.{WriteContract}
use real_time_systems.BlockingIo.Read.{ReadContract, IsEndless}
use real_time_systems.SensorIo.{
  intensity, reformat, full_msb, full_lsb, infrared_msb, infrared_lsb, read_sensor,
}
use real_time_systems.SensorIo.Protocol.{ReadOutcome, read_sensor_lem}
use real_time_systems.SensorThread.{
  Sender, has_changed, first_packet, send_change, sensor_round, sensor_loop,
}
use real_time_systems.SensorThread.Readings.{read_sensor-IsSecluded}

-- The full and the infrared intensity.
abbrev pub Reading : Type 0
Reading = ℤ × ℤ

-- The four bytes of an answer of the device.
pub record Sample : Type 0 where
  pub b0 : ℕ
  pub b1 : ℕ
  pub b2 : ℕ
  pub b3 : ℕ

abbrev pub bytes : Sample → List ℕ
bytes q = q.b0 ∷ q.b1 ∷ q.b2 ∷ q.b3 ∷ []

abbrev pub reading : Bool → Sample → Reading
reading signed q = (
  intensity signed (bytes q) full_msb full_lsb,
  intensity signed (bytes q) infrared_msb infrared_lsb,
)

-- The bytes of samples that are listed the latest first.
abbrev pub stream : List Sample → List ℕ
stream [] = []
stream (q ∷ qs) = stream qs ++ bytes q

-- Readings without those that repeat the one before them; the latest first here too.
abbrev pub changes : List Reading → List Reading
changes [] = []
changes (r ∷ []) = r ∷ []
changes (r ∷ r' ∷ rs) =
    let before = changes (r' ∷ rs) in
    if eqb_ℤ r.0 r'.0 && eqb_ℤ r.1 r'.1 then before else r ∷ before

abbrev pub reading_of : SensorPacket → Reading
reading_of p = (p.full, p.infrared)

-- The readings sent.
abbrev pub sent_readings : Trace → List Reading
sent_readings t = map reading_of (sensor_packets t)

-- Samples, with the bytes delivered and the readings sent by then, and the last of these.
pub data Sampled (signed : Bool) : List ℕ → List Reading → Reading → Type 0 where
  sampled :
      {ds : List ℕ} {rs : List Reading} {r : Reading} (q : Sample) (qs : List Sample)
      → ds ≡ stream (q ∷ qs)
      → rs ≡ changes (map (reading signed) (q ∷ qs))
      → r ≡ reading signed q
      → Sampled signed ds rs r

-- The same in the end, where up to four bytes may be left over: part of a sample, or one that was
-- not sent.
pub data WasSampled (signed : Bool) : List ℕ → List Reading → Type 0 where
  was_sampled :
      {ds : List ℕ} {rs : List Reading} (qs : List Sample) (rest : List ℕ)
      → ds ≡ stream qs ++ rest
      → length rest ≤ 4
      → rs ≡ changes (map (reading signed) qs)
      → WasSampled signed ds rs

module _ (signed : Bool) (q : Sample) where
  -- One more sample, with a reading that repeats the last, or with a new one.
  repeats :
      (ds : List ℕ) (rs : List Reading) (r : Reading)
      → Sampled signed ds rs r
      → (eqb_ℤ (reading signed q).0 r.0 && eqb_ℤ (reading signed q).1 r.1) ≡ true
      → Sampled signed (ds ++ bytes q) rs r
  repeats ds rs r (sampled q' qs d e l) same =
      sampled q (q' ∷ qs) (rw d refl) (ground arith)
        (ground (arith, eqb_ℤ_iff (reading signed q).0 r.0, eqb_ℤ_iff (reading signed q).1 r.1))

  differs :
      (ds : List ℕ) (rs : List Reading) (r : Reading)
      → Sampled signed ds rs r
      → (eqb_ℤ (reading signed q).0 r.0 && eqb_ℤ (reading signed q).1 r.1) ≡ false
      → Sampled signed (ds ++ bytes q) (reading signed q ∷ rs) (reading signed q)
  differs ds rs r (sampled q' qs d e l) other = sampled q (q' ∷ qs) (rw d refl) (ground arith) refl

  pub begins : Sampled signed (bytes q) (reading signed q ∷ []) (reading signed q)
  begins = sampled q [] refl refl refl

pub ends :
    (signed : Bool) (ds : List ℕ) (rs : List Reading) (r : Reading) (rest : List ℕ)
    → length rest ≤ 4
    → Sampled signed ds rs r
    → WasSampled signed (ds ++ rest) rs
ends signed ds rs r rest few (sampled q qs d e l) = was_sampled (q ∷ qs) rest (rw d refl) few e

pub reading-reformat :
    (signed : Bool) (q : Sample) (p : SensorPacket)
    → reading_of (reformat signed (bytes q) p) ≡ reading signed q
unfolding reformat
reading-reformat signed q p = refl

-- While the loop runs, and when it has ended.
abbrev pub Sampling : Bool → ℤ → Sender → Trace → Type 0
Sampling signed fd s t =
    Sampled signed (delivered fd t) (sent_readings t) (reading_of s.last_packet)

abbrev pub WasSampling : Bool → ℤ → Trace → Type 0
WasSampling signed fd t = WasSampled signed (delivered fd t) (sent_readings t)

module _ {env : Env} (writes : WriteContract env) (reads : ReadContract env)
    (endless : IsEndless env) (fuel : ℕ) (enough : 4 < fuel) (fd data_fd : ℤ) where
  send_change-Sampling :
      (s : Sender) (q : Sample) (p : SensorPacket) (ds : List ℕ) (t : Trace)
      → Sampled env.char_signed ds (sent_readings t) (reading_of s.last_packet)
      → delivered fd t ≡ ds ++ bytes q
      → reading_of p ≡ reading env.char_signed q
      → has_changed p s.last_packet ≡ true
      → Lasts
          (Sampling env.char_signed fd)
          (WasSampling env.char_signed fd)
          (send_change env data_fd s p t)
  unfolding send_change
  send_change-Sampling s q p ds t h d e new =
      let r = reading_of s.last_packet in
      let late = ends env.char_signed ds (sent_readings t) r (bytes q) (omega arith) h in
      let more = differs env.char_signed q ds (sent_readings t) r h (ground arith) in
      let all =
        ends env.char_signed (ds ++ bytes q) (reading env.char_signed q ∷ sent_readings t)
          (reading env.char_signed q) [] (omega arith) more in
      ground (arith, append-nil (ds ++ bytes q))

  pub sensor_round-Sampling :
      (s : Sender) (t : Trace)
      → Sampling env.char_signed fd s t
      → Lasts
          (Sampling env.char_signed fd)
          (WasSampling env.char_signed fd)
          (sensor_round env fuel fd data_fd s t)
  unfolding sensor_round
  sensor_round-Sampling s t h =
      let t1 : Trace = paused 1 ∷ t in
      let t2 = (read_sensor env fuel fd s.packet t1).1 in
      let quiet = (read_sensor-IsSecluded env fuel fd s.packet t1).0 in
      let r = reading_of s.last_packet in
      elim (read_sensor_lem writes reads endless fuel enough fd s.packet t1) [
        | inl (b0, b1, b2, b3, e, d) ↦
            let q : Sample = record { b0 = b0; b1 = b1; b2 = b2; b3 = b3 } in
            let p = reformat env.char_signed (bytes q) s.packet in
            let same = reading-reformat env.char_signed q s.packet in
            elim (Bool-cases (has_changed p s.last_packet)) [
              | inl new ↦
                  let sent =
                    send_change-Sampling s q p (delivered fd t) t2 (rw quiet h) d same new in
                  ground arith
              | inr old ↦
                  let kept =
                    repeats env.char_signed q (delivered fd t) (sent_readings t) r h
                      (ground arith) in
                  ground arith
            ]
        | inr (inl (e, d, failed)) ↦
            let over =
              ends env.char_signed (delivered fd t) (sent_readings t) r [] (omega arith) h in
            ground (arith, append-nil (delivered fd t))
        | inr (inr (cut, e, failed, short, d)) ↦
            let over =
              ends env.char_signed (delivered fd t) (sent_readings t) r cut (omega arith) h in
            ground arith
      ]
