-- ===== src/Control/Inet/Main/Invariant.antt =====
-- What the branches of the event loop of control_thread_inet keep holds over the whole run.
use real_time_systems.Base.{ℕ, sym, Option, none, some, List, []}
use mathlib.Core.Path.{subst}
use real_time_systems.Base.Int.{ℤ, pos}
use real_time_systems.Os.{Env, Trace, View, view, Flow, next, return, After}
use real_time_systems.Control.Inet.Globals.{Undefined, Statics, initial}
use real_time_systems.Control.Inet.Handlers.{Control}
use real_time_systems.Control.Inet.Handlers.Invariant.{
  Property, KeptByUpdates, KeptByReadings, KeptByDials, Running, Ended, handle_input-Running,
  handle_hangup-Running,
}
use real_time_systems.Control.Inet.Main.{main}
use real_time_systems.Control.Inet.Main.Rounds.{unseen, main_inv}

module _ (env : Env) (I : Property) (J : View → Type 0) (updated : KeptByUpdates env I)
    (ready : KeptByReadings I) (dialed : KeptByDials env I)
    (weaken : (fd : ℤ) (g : Statics) (v : View) → I fd g v → J v) (undef : Undefined)
    (fuel : ℕ) where
  abbrev P : Control → Trace → Type 0
  P = Running env I J updated ready dialed weaken

  abbrev Q : Trace → Type 0
  Q = Ended env I J updated ready dialed weaken

  ended : (out : Option (Flow Control) × Trace) → After P Q out → Q out.1
  ended (none, t) h = h
  ended (some (next s), t) h = weaken s.motor_fd s.statics (view t) h
  ended (some (return r), t) h = h

  -- What holds at the start, holds while the loop runs.
  pub main-Running :
      (rounds : ℕ) (argv : List (List ℕ))
      → I (pos 0) initial unseen
      → After P Q (main env undef fuel rounds argv [])
  main-Running rounds argv h =
      main_inv env undef fuel P Q (λ s t h'. weaken s.motor_fd s.statics (view t) h')
        (handle_input-Running env I J updated ready dialed weaken undef fuel)
        (handle_hangup-Running env I J updated ready dialed weaken) (λ s t ret h'. h')
        (λ t quiet untold. subst J (sym quiet) (weaken (pos 0) initial unseen h))
        (λ conn_fd t quiet untold. subst (I (pos 0) initial) (sym quiet) h) rounds argv

  -- What is left of it holds at the end of the rounds.
  pub main-Ended :
      (rounds : ℕ) (argv : List (List ℕ))
      → I (pos 0) initial unseen
      → Q (main env undef fuel rounds argv []).1
  main-Ended rounds argv h = ended (main env undef fuel rounds argv []) (main-Running rounds argv h)
