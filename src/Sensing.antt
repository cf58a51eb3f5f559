-- ===== src/Sensing.antt =====
-- The sensor of src/sensor_thread_unix.c and the controller of src/control_thread_unix.c together:
-- what the controller makes of a packet of the sensor, and in `Whole` over a run.
pub mod Readings
pub mod Whole
mod Tests
use real_time_systems.Base.{
  ℕ, ◌+◌, ◌*◌, ◌≤◌, ◌<◌, ◌≡◌, ap, refl, sym, none, some, if◌then◌else◌, List, [], ◌∷◌, ◌++◌, arith,
}
use mathlib.Core.Path.{subst}
use real_time_systems.Base.Int.{
  ℤ, pos, pos_part, neg_part, ◌≤ℤ◌, ltb_ℤ, eqb_ℤ_refl, ◌+ℤ◌, ◌-ℤ◌, int_laws,
}
use real_time_systems.Os.{Env, Trace, SensorPacket, next, pure, sensor_packets, received, clocked}
use real_time_systems.Sockets.Unix
use real_time_systems.SensorThread.{main_unix}
use real_time_systems.SensorThread.Readings.{IsBalanced}
use real_time_systems.SensorThread.Stream.{IsStream, main-IsStream}
use real_time_systems.Control.Unix.Input.{use_sensor}
use real_time_systems.Control.Unix.Loop.{Watch, decide, read_indoor, read_outdoor}

-- Each packet of a stream is balanced.
pub split-IsStream :
    (later earlier : List SensorPacket) (p : SensorPacket)
    → IsStream (later ++ p ∷ earlier)
    → IsBalanced p
split-IsStream [] [] p h = h.0
split-IsStream [] (q ∷ earlier) p h = h.0
split-IsStream (x ∷ []) earlier p (b, n, d, h) = split-IsStream [] earlier p h
split-IsStream (x ∷ y ∷ later) earlier p (b, n, d, h) = split-IsStream (y ∷ later) earlier p h

pub balanced : (p : SensorPacket) → IsBalanced p → p.visible ≡ p.full -ℤ p.infrared
balanced p h = omega (int_laws, ap pos_part h, ap neg_part h)

-- A whole packet on a descriptor, at a time when the clock works; `t'` is the trace then.
abbrev pub Arrives : Env → ℤ → SensorPacket → Trace → Trace → Type 0
Arrives env fd p t t' =
    let size = pos env.sizeof_sensor_packet in
    let ret = (env.clock_reply (received fd size ∷ t)).0 in
    (env.recv_reply t fd ≡ (size, p)) × (pos 0 ≤ℤ ret) × (t' ≡ clocked ret ∷ received fd size ∷ t)

-- A reading that is not negative is decided on; another only changes the variables.
read_indoor-decide :
    (env : Env) (s : Watch) (p : SensorPacket) (t t' : Trace)
    → Arrives env s.indoor_fd p t t'
    → read_indoor env s t
      ≡ (if ltb_ℤ p.visible (pos 0)
            then pure (next (record s { indoor_tmp = p.visible }))
            else decide (record s { indoor_tmp = p.visible; indoor = p.visible }))
          t'
unfolding read_indoor use_sensor Unix.recv_packet
read_indoor-decide env s p t t' (e, works, now) =
    ground (arith, eqb_ℤ_refl (pos env.sizeof_sensor_packet))

read_outdoor-decide :
    (env : Env) (s : Watch) (p : SensorPacket) (t t' : Trace)
    → Arrives env s.outdoor_fd p t t'
    → read_outdoor env s t
      ≡ (if ltb_ℤ p.visible (pos 0)
            then pure (next (record s { outdoor_tmp = p.visible }))
            else decide (record s { outdoor_tmp = p.visible; outdoor = p.visible }))
          t'
unfolding read_outdoor use_sensor Unix.recv_packet
read_outdoor-decide env s p t t' (e, works, now) =
    ground (arith, eqb_ℤ_refl (pos env.sizeof_sensor_packet))

-- Of every packet that sensor_thread_unix has sent, where it arrives whole at control_thread_unix as
-- one of the indoor and as one of the outdoor sensor, and the clock works: the controller decides with
-- its full intensity less its infrared as the light on that side, and all else as it was; but where
-- that is negative, it is kept in a temporary variable only, and nothing is decided.
pub main_unix-decide :
    (env : Env) (rounds fuel : ℕ) (argv : List (List ℕ)) (p0 : SensorPacket)
    (later earlier : List SensorPacket) (p : SensorPacket) (env' : Env) (s : Watch)
    (t t' t1 t1' : Trace)
    → sensor_packets (main_unix env rounds fuel argv p0 []).1 ≡ later ++ p ∷ earlier
    → Arrives env' s.indoor_fd p t t'
    → Arrives env' s.outdoor_fd p t1 t1'
    → let light = p.full -ℤ p.infrared in
      (read_indoor env' s t
        ≡ (if ltb_ℤ light (pos 0)
              then pure (next (record s { indoor_tmp = light }))
              else decide (record s { indoor_tmp = light; indoor = light }))
            t')
      × (read_outdoor env' s t1
          ≡ (if ltb_ℤ light (pos 0)
                then pure (next (record s { outdoor_tmp = light }))
                else decide (record s { outdoor_tmp = light; outdoor = light }))
              t1')
main_unix-decide env rounds fuel argv p0 later earlier p env' s t t' t1 t1' sent indoor outdoor =
    let b =
      split-IsStream later earlier p
        (subst IsStream sent (main-IsStream env rounds fuel argv p0).1) in
    rw (sym (balanced p b))
      (read_indoor-decide env' s p t t' indoor, read_outdoor-decide env' s p t1 t1' outdoor)
