-- ===== src/SensorIo/Tests.antt =====
-- The theorems on src/sensor_io.c at concrete inputs, and runs.
use real_time_systems.Base.{◌≡◌, refl, some, true, [], ◌∷◌, ◌++◌, arith}
use real_time_systems.Base.Int.{pos, ◌+ℤ◌}
use real_time_systems.Os.{Env}
use real_time_systems.Os.Examples.{calm, blank_packet}
use real_time_systems.BlockingIo.Contracts.{calm-WriteContract, calm-ReadContract, calm-IsEndless}
use real_time_systems.BlockingIo.{blocking_write, blocking_read}
use real_time_systems.SensorIo.{reformat, init_sensor, read_sensor}
use real_time_systems.SensorIo.Registers.{registers, lost, reformat-registers}
use real_time_systems.SensorIo.Protocol.{ReadOutcome, read_sensor_lem, InitOutcome, init_sensor_lem}

reformat-registers_example :
    let q = reformat true (registers 0x0290 ++ registers 0x0190) blank_packet in
    (q.full +ℤ pos (lost true 0x0290) ≡ pos 0x0290)
    × (q.infrared +ℤ pos (lost true 0x0190) ≡ pos 0x0190)
    × (q.visible +ℤ q.infrared ≡ q.full)
    × (q.timestamp ≡ blank_packet.timestamp)
    × (q.sequence ≡ blank_packet.sequence)
reformat-registers_example =
    reformat-registers true 0x0290 0x0190 blank_packet (omega arith) (omega arith)

read_sensor_lem_example :
    ReadOutcome calm (pos 7) blank_packet [] (read_sensor calm 5 (pos 7) blank_packet [])
read_sensor_lem_example =
    read_sensor_lem calm-WriteContract calm-ReadContract calm-IsEndless 5 (omega arith) (pos 7)
      blank_packet []

init_sensor_lem_example : InitOutcome calm (47 ∷ []) [] (init_sensor calm 5 (47 ∷ []) [])
init_sensor_lem_example = init_sensor_lem calm-WriteContract 5 (omega arith) (47 ∷ []) []

-- A dim room: the sensor answers 0x0210 and 0x0190.
abbrev dim_room : Env
dim_room = record calm { read_reply = λ t fd n. (pos 4, 0x10 ∷ 0x02 ∷ 0x90 ∷ 0x01 ∷ []) }

dim_reading :
    (read_sensor dim_room 5 (pos 7) blank_packet []).0
    ≡ some (pos 0, record blank_packet { full = pos 528; infrared = pos 400; visible = pos 128 })
unfolding read_sensor blocking_write blocking_read reformat
dim_reading = refl
