-- ===== src/Control/Inet/Main/Connections.antt =====
-- What control_thread_inet connects to.
use real_time_systems.Base.{ℕ, ◌≡◌, refl, Option, none, some, List, [], ◌∷◌, arith}
use real_time_systems.Base.Int.{ℤ, pos, to_unsigned}
use real_time_systems.Os.{Env, Trace, Address, inet, connections}
use real_time_systems.Sockets.Inet
use real_time_systems.Sockets.Inet.{htons}
use real_time_systems.Control.Inet.Globals.{Undefined, Statics}
use real_time_systems.Control.Inet.Update.{update}
use real_time_systems.Control.Inet.Update.Spending.{Spends, update-Spends}
use real_time_systems.Control.Inet.Handlers.{dial}
use real_time_systems.Control.Inet.Handlers.Invariant.{Property, Keeps, KeptByUpdates, KeptByDials}
use real_time_systems.Control.Inet.Main.{main}
use real_time_systems.Control.Inet.Main.Invariant.{main-Ended}

-- Each of the addresses is an internet address that `inet_aton` has stored for a host while it returned
-- 0, which means that the host is not valid.
abbrev pub AreInvalid : Env → List Address → Type 0
AreInvalid env [] = Unit
AreInvalid env (name ∷ names) =
    ((host : List ℕ) × (port : ℕ) × ((env.inet_aton_reply host).0 ≡ pos 0)
      × (name ≡ inet (env.inet_aton_reply host).1 port))
    × AreInvalid env names

module _ (env : Env) where
  abbrev I : Property
  I fd g v = AreInvalid env v.targets

  update-I : KeptByUpdates env I
  update-I motor_fd light_fd indoor outdoor min max g t h =
      of_Spends (update env motor_fd light_fd indoor outdoor min max g t)
        (update-Spends env motor_fd light_fd indoor outdoor min max g t)
    where
      of_Spends :
          (out : Option (ℤ × Statics) × Trace)
          → Spends env motor_fd light_fd g t out
          → Keeps I motor_fd out
      of_Spends (none, t') spent = spent
      of_Spends (some (ret, g'), t') spent = rw spent.0 h

  dial-I : KeptByDials env I
  unfolding dial Inet.conn_socket
  dial-I fd g host serv t h =
      let port = htons (to_unsigned (env.atoi serv)) in
      let name = inet (env.inet_aton_reply host).1 port in
      let more : (env.inet_aton_reply host).0 ≡ pos 0 → AreInvalid env (name ∷ connections t) =
        λ e. ((host, port, e, refl), h) in
      let h' : AreInvalid env (connections (dial env host serv t).1) = ground arith in
      (h', λ fd' e. h')

  -- It connects to hosts that are not valid at most.
  pub connections-main :
      (undef : Undefined) (rounds fuel : ℕ) (argv : List (List ℕ))
      → AreInvalid env (connections (main env undef fuel rounds argv []).1)
  connections-main undef rounds fuel argv =
      main-Ended env I (λ v. AreInvalid env v.targets) update-I (λ fd g v h. (h, h, h)) dial-I
        (λ fd g v h. h) undef fuel rounds argv tt
