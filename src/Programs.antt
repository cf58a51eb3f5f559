-- ===== src/Programs.antt =====
-- The programs of src/ side by side: what their `main`s return, and what they connect to.
mod Tests
use real_time_systems.Base.{◌≡◌, ◌≢◌, ◌∷◌, take, get_or, ℕ, ◌⊎◌, ◌<◌, ◌+◌, List, []}
use real_time_systems.Os.{Env, SensorPacket, MotorPacket, Returns, connections, unix}
use real_time_systems.Base.Int.{pos}
use real_time_systems.Sockets.Unix.{sun_path_max}
use real_time_systems.SensorThread
use real_time_systems.SensorThread.{sock_path, main_inet, main_unix}
use real_time_systems.SensorThread.Exit.{IsSensorExit, of_inet, of_unix}
use real_time_systems.Control.Inet
use real_time_systems.Control.Inet.Globals.{Undefined}
use real_time_systems.Control.Inet.Main.Connections.{AreInvalid}
use real_time_systems.Control.Inet.Main.Exit.{IsControlExit}
use real_time_systems.Control.Unix
use real_time_systems.Control.Unix.Loop.Exit.{IsWatchExit}
use real_time_systems.Stepper
use real_time_systems.Stepper.Main.Exit.{IsStatus}

-- Whatever the devices, the network and the user do, in any number of rounds, where one of the programs
-- returns: the two controllers return -ERR_NUM_ARGC, -ERR_SOCKET, -ERR_EPOLL, -ERR_EPCTL, -ERR_EPWAIT or
-- -ERR_EPHUP; the two sensor programs return a negated code, of the number of arguments, of a step of
-- the sensor, or of a step of the socket of the kind that the program opens, or ERR_TIME as it is, or a negative value that `send` returned;
-- stepper returns 0 or EXIT_FAILURE.
pub main-Returns :
    (env : Env) (undef : Undefined) (rounds fuel uninitialized : ℕ) (argv : List (List ℕ))
    (p : SensorPacket) (q : MotorPacket)
    → Returns (IsSensorExit env of_inet) (main_inet env rounds fuel argv p [])
      × Returns (IsSensorExit env of_unix) (main_unix env rounds fuel argv p [])
      × Returns IsControlExit (Inet.Main.main env undef fuel rounds argv [])
      × Returns IsWatchExit (Unix.Loop.main env fuel rounds argv uninitialized [])
      × Returns IsStatus (Stepper.Main.main env fuel rounds argv q [])
main-Returns env undef rounds fuel uninitialized argv p q = (
  SensorThread.Exit.main_inet-Returning env rounds fuel argv p [],
  SensorThread.Exit.main_unix-Returning env rounds fuel argv p [],
  Inet.Main.Exit.main-Returning env undef fuel rounds argv [],
  Unix.Loop.Exit.main-Returning env fuel rounds uninitialized argv [],
  Stepper.Main.Exit.main-Returning env fuel rounds argv q [],
)

-- Whatever the devices, the network and the user do, in any number of rounds: sensor_thread_inet connects
-- to nothing; control_thread_inet, for a motor or a lamp, tries to connect only to addresses that
-- `inet_aton` has stored for a host while it returned 0, so that the host is not valid;
-- sensor_thread_unix connects once at most, to the path in `argv[2]`, as far as an address has room for
-- it; control_thread_unix connects to nothing.
pub connections-mains :
    (env : Env) (undef : Undefined) (rounds fuel uninitialized : ℕ) (argv : List (List ℕ))
    (p : SensorPacket)
    → let cs = connections (main_unix env rounds fuel argv p []).1 in
      (connections (main_inet env rounds fuel argv p []).1 ≡ [])
      × AreInvalid env (connections (Inet.Main.main env undef fuel rounds argv []).1)
      × ((cs ≡ []) ⊎ (cs ≡ unix (take sun_path_max (get_or argv sock_path [])) ∷ []))
      × (connections (Unix.Loop.main env fuel rounds argv uninitialized []).1 ≡ [])
connections-mains env undef rounds fuel uninitialized argv p =
    let sensors = SensorThread.Connections.connections-main env rounds fuel argv p in
    (
      sensors.0,
      Inet.Main.Connections.connections-main env undef rounds fuel argv,
      sensors.1,
      (Unix.Loop.Silence.main-IsSilent env fuel rounds uninitialized argv).0,
    )
