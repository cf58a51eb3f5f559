-- ===== src/Programs/Tests.antt =====
-- The programs on a run in which a descriptor is refused to each.
use real_time_systems.Base.{◌≡◌, ◌⊎◌, [], ◌∷◌, take, get_or, []}
use real_time_systems.Base.Int.{pos, neg}
use real_time_systems.Os.{Env, Returns, connections, unix}
use real_time_systems.Os.Examples.{calm, blank_packet}
use real_time_systems.Sockets.Unix.{sun_path_max}
use real_time_systems.SensorThread.{sock_path, main_inet, main_unix}
use real_time_systems.SensorThread.Exit.{IsSensorExit, of_inet, of_unix}
use real_time_systems.Control.Inet
use real_time_systems.Control.Inet.Main.Connections.{AreInvalid}
use real_time_systems.Control.Inet.Examples.{undef, argv, stop_packet}
use real_time_systems.Control.Inet.Main.Exit.{IsControlExit}
use real_time_systems.Control.Unix
use real_time_systems.Control.Unix.Loop.Exit.{IsWatchExit}
use real_time_systems.Stepper
use real_time_systems.Stepper.Main.Exit.{IsStatus}
use real_time_systems.Programs.{main-Returns, connections-mains}

-- No socket, and no file, can be had.
abbrev refusing : Env
refusing = record calm { socket_reply = λ t. neg 1; open_reply = λ t path. neg 1 }

main-Returns_example :
    Returns (IsSensorExit refusing of_inet) (main_inet refusing 2 9 argv blank_packet [])
    × Returns (IsSensorExit refusing of_unix) (main_unix refusing 2 9 argv blank_packet [])
    × Returns IsControlExit (Inet.Main.main refusing undef 9 2 argv [])
    × Returns IsWatchExit (Unix.Loop.main refusing 9 2 argv 0 [])
    × Returns IsStatus (Stepper.Main.main refusing 9 2 argv stop_packet [])
main-Returns_example = main-Returns refusing undef 2 9 0 argv blank_packet stop_packet

-- Every host is taken for one that is not valid.
abbrev resolving : Env
resolving = record calm { inet_aton_reply = λ host. (pos 0, 0) }

connections-mains_example :
    let cs = connections (main_unix resolving 2 9 argv blank_packet []).1 in
    (connections (main_inet resolving 2 9 argv blank_packet []).1 ≡ [])
    × AreInvalid resolving (connections (Inet.Main.main resolving undef 9 2 argv []).1)
    × ((cs ≡ []) ⊎ (cs ≡ unix (take sun_path_max (get_or argv sock_path [])) ∷ []))
    × (connections (Unix.Loop.main resolving 9 2 argv 0 []).1 ≡ [])
connections-mains_example = connections-mains resolving undef 2 9 0 argv blank_packet
