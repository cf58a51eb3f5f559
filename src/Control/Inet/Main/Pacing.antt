-- ===== src/Control/Inet/Main/Pacing.antt =====
-- How often control_thread_inet sends a motor packet.
use real_time_systems.Base.{ℕ, ◌+◌, ◌*◌, ◌≤◌, Option, none, some, List, [], arith, if◌then◌else◌}
use real_time_systems.Base.Int.{ℤ}
use real_time_systems.Os.{Env, Trace, view, receipts, deliveries}
use real_time_systems.Control.Inet.Globals.{Undefined, Statics}
use real_time_systems.Control.Inet.Update.{update}
use real_time_systems.Control.Inet.Update.Spending.{Spends, update-Spends}
use real_time_systems.Control.Inet.Handlers.{dial}
use real_time_systems.Control.Inet.Handlers.Invariant.{
  Property, Keeps, KeptByUpdates, KeptByDials, dial-seen,
}
use real_time_systems.Control.Inet.Main.{main}
use real_time_systems.Control.Inet.Main.Invariant.{main-Ended}

-- Two packets of sensors for each motor packet that was taken, and one for each new reading.
abbrev Paced : Property
Paced fd g v =
    2 * v.given_out + (if g.indoor_ready then 1 else 0) + (if g.outdoor_ready then 1 else 0)
    ≤ v.taken_in

update-Paced : (env : Env) → KeptByUpdates env Paced
update-Paced env motor_fd light_fd indoor outdoor min max g t h =
    of_Spends (update env motor_fd light_fd indoor outdoor min max g t)
      (update-Spends env motor_fd light_fd indoor outdoor min max g t)
  where
    of_Spends :
        (out : Option (ℤ × Statics) × Trace)
        → Spends env motor_fd light_fd g t out
        → Keeps Paced motor_fd out
    of_Spends (none, t') spent = spent
    of_Spends (some (ret, g'), t') spent = ground arith

dial-Paced : (env : Env) → KeptByDials env Paced
dial-Paced env fd g host serv t h =
    let seen = dial-seen env host serv t in
    let h' : Paced fd g (view (dial env host serv t).1) = ground arith in (h', λ fd' e. h')

-- Whatever the devices, the network and the user do: after any number of rounds control_thread_inet
-- has handed at most one motor packet to the network for each two times that it has called `recv`
-- for a packet of a sensor.
pub deliveries-main :
    (env : Env) (undef : Undefined) (rounds fuel : ℕ) (argv : List (List ℕ))
    → let t = (main env undef fuel rounds argv []).1 in 2 * deliveries t ≤ receipts t
deliveries-main env undef rounds fuel argv =
    main-Ended env Paced (λ v. 2 * v.given_out ≤ v.taken_in) (update-Paced env)
      (λ fd g v h. (ground arith, ground arith, ground arith)) (dial-Paced env)
      (λ fd g v h. ground arith) undef fuel rounds argv (ground arith)
