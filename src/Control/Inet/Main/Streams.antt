-- ===== src/Control/Inet/Main/Streams.antt =====
-- The motor packets that control_thread_inet sends, over the whole run.
use real_time_systems.Base.{
  ℕ, ◌+◌, ◌%◌, ◌^◌, ◌≡◌, ◌≢◌, ◌⊎◌, Bool-cases, inl, inr, refl, Option, none, some, List, [], ◌∷◌,
  arith,
}
use real_time_systems.Base.Int.{ℤ, pos, eqb_ℤ, eqb_ℤ_iff}
use real_time_systems.Os.{Env, Trace, motor_packets}
use real_time_systems.Sockets.Inet
use real_time_systems.Control.Inet.Globals.{Undefined, Statics}
use real_time_systems.Control.Inet.Update.Sends.{Packets, IsCommand, KeptBySends, update-Keeps}
use real_time_systems.Control.Inet.Update.Sends
use real_time_systems.Control.Inet.Update.{update}
use real_time_systems.Control.Inet.Handlers.{dial, stdin_fileno}
use real_time_systems.Control.Inet.Handlers.Invariant.{Property, Keeps, KeptByDials, dial-seen}
use real_time_systems.Control.Inet.Main.{main}
use real_time_systems.Control.Inet.Main.Invariant.{main-Ended}

-- A property of the motor's descriptor, the next number and the packets, which each packet and each
-- connection keeps, holds over the whole run.
module _ (env : Env) (I : ℤ → ℕ → Packets → Type 0) (J : Packets → Type 0) (keep : KeptBySends I)
    (dialed : (fd fd' : ℤ) (seq : ℕ) (ps : Packets) (host serv : List ℕ) (t : Trace)
      → (dial env host serv t).0 ≡ some fd'
      → I fd seq ps
      → I fd' seq ps)
    (weaken : (fd : ℤ) (seq : ℕ) (ps : Packets) → I fd seq ps → J ps) (undef : Undefined)
    (fuel : ℕ) where
  abbrev Numbered : Property
  Numbered fd g v = I fd g.seq v.packets

  sends-Keeps :
      (motor_fd light_fd : ℤ) (out : Option (ℤ × Statics) × Trace)
      → Sends.Keeps env I keep motor_fd light_fd out
      → Keeps Numbered motor_fd out
  sends-Keeps motor_fd light_fd (none, t) h = h
  sends-Keeps motor_fd light_fd (some (ret, g), t) h = h

  dial-Numbered : KeptByDials env Numbered
  dial-Numbered fd g host serv t h =
      let same = (dial-seen env host serv t).0 in
      let h' : I fd g.seq (motor_packets (dial env host serv t).1) = rw same h in
      (h', λ fd' e. dialed fd fd' g.seq (motor_packets (dial env host serv t).1) host serv t e h')

  main-sends :
      (rounds : ℕ) (argv : List (List ℕ))
      → I (pos 0) 0 []
      → J (motor_packets (main env undef fuel rounds argv []).1)
  main-sends =
      main-Ended env Numbered (λ v. J v.packets)
        (λ motor_fd light_fd indoor outdoor min max g t h.
          sends-Keeps motor_fd light_fd (update env motor_fd light_fd indoor outdoor min max g t)
            (update-Keeps env I keep motor_fd light_fd indoor outdoor min max g t h))
        (λ fd g v h. (h, h, h)) dial-Numbered (λ fd g v h. weaken fd g.seq v.packets h) undef fuel

-- The number after those of the packets sent.
abbrev following : Packets → ℕ
following [] = 0
following ((fd, p) ∷ ps) = (p.sequence + 1) % 2 ^ 32

-- Every packet is one of the three commands, and the numbers go up by ones from 0, modulo 2 ^ 32.
abbrev pub IsCommands : Packets → Type 0
IsCommands [] = Unit
IsCommands ((fd, p) ∷ ps) =
    IsCommand p.direction p.turns × (p.sequence ≡ following ps) × IsCommands ps

-- Whatever the devices, the network and the user do, after any number of rounds the motor packets
-- that control_thread_inet has sent are commands to open, close or stop the curtain, and their numbers
-- go up by ones from 0, modulo 2 ^ 32.
pub main-IsCommands :
    (env : Env) (undef : Undefined) (rounds fuel : ℕ) (argv : List (List ℕ))
    → IsCommands (motor_packets (main env undef fuel rounds argv []).1)
main-IsCommands env undef rounds fuel argv =
    main-sends env (λ fd seq ps. (seq ≡ following ps) × IsCommands ps) IsCommands
      (λ fd p ps c (e, h). (refl, (c, e, h))) (λ fd fd' seq ps host serv t e h. h)
      (λ fd seq ps h. h.1) undef fuel rounds argv (refl, tt)

-- Descriptor 0, or what a call of `dial` gave for a host that `inet_aton` rejects.
abbrev pub IsUnreached : Env → ℤ → Type 0
IsUnreached env fd =
    (fd ≡ stdin_fileno)
    ⊎ ((host serv : List ℕ) × (t : Trace) × ((env.inet_aton_reply host).0 ≡ pos 0)
        × ((dial env host serv t).0 ≡ some fd))

-- Every packet went to such a descriptor.
abbrev pub AllUnreached : Env → Packets → Type 0
AllUnreached env [] = Unit
AllUnreached env ((fd, p) ∷ ps) = IsUnreached env fd × AllUnreached env ps

dial-valid_host :
    (env : Env) (host serv : List ℕ) (fd : ℤ) (t : Trace)
    → (env.inet_aton_reply host).0 ≢ pos 0
    → (dial env host serv t).0 ≡ some fd
    → fd ≡ pos 0
unfolding dial Inet.conn_socket
dial-valid_host env host serv fd t h e = ground arith

dial-IsUnreached :
    (env : Env) (host serv : List ℕ) (fd : ℤ) (t : Trace)
    → (dial env host serv t).0 ≡ some fd
    → IsUnreached env fd
dial-IsUnreached env host serv fd t e =
    let ret = (env.inet_aton_reply host).0 in
    elim (Bool-cases (eqb_ℤ ret (pos 0))) [
      | inl rejected ↦ inr (host, serv, t, (eqb_ℤ_iff ret (pos 0)).0 rejected, e)
      | inr other ↦ inl (dial-valid_host env host serv fd t (ground arith) e)
    ]

-- Whatever the devices, the network and the user do, no motor at a valid address is ever reached:
-- every motor packet of control_thread_inet went to descriptor 0, or to a descriptor that a call of
-- `dial` gave for a host that `inet_aton` rejects, by its result 0.
main-AllUnreached :
    (env : Env) (undef : Undefined) (rounds fuel : ℕ) (argv : List (List ℕ))
    → AllUnreached env (motor_packets (main env undef fuel rounds argv []).1)
main-AllUnreached env undef rounds fuel argv =
    main-sends env (λ fd seq ps. IsUnreached env fd × AllUnreached env ps) (AllUnreached env)
      (λ fd p ps c (e, h). (e, (e, h)))
      (λ fd fd' seq ps host serv t e h. (dial-IsUnreached env host serv fd' t e, h.1))
      (λ fd seq ps h. h.1) undef fuel rounds argv (inl refl, tt)
