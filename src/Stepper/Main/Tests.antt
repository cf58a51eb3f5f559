-- ===== src/Stepper/Main/Tests.antt =====
-- The theorems on stepper as a whole at concrete inputs.
use real_time_systems.Base.{ℕ, ◌≡◌, ◌↔◌, refl, true, false, suc, List, [], ◌∷◌, codes, str_eq}
use real_time_systems.Base.Int.{pos, neg}
use real_time_systems.Os.{Env, Trace, MotorPacket, After, opened}
use real_time_systems.Os.Examples.{calm, noon}
use real_time_systems.Stepper.Sequence.Mutex.{IsOrderly, level}
use real_time_systems.Stepper.Setup.{Pins, no_pins, init_values}
use real_time_systems.Stepper.Events.Direction.{IsAligned}
use real_time_systems.Stepper.Main.{motor_from, main}
use real_time_systems.Stepper.Main.Mutex.{Held, main-Held}
use real_time_systems.Stepper.Main.FirstLevel.{motor_from-IsAligned}

-- The program's name, the three pins, the direction and the port.
abbrev argv : List (List ℕ)
argv = codes "stepper" ∷ codes "17" ∷ codes "27" ∷ codes "22" ∷ codes "+" ∷ codes "9000" ∷ []

abbrev packet : MotorPacket
packet = record { timestamp = noon; sequence = 0; direction = pos 1; turns = neg 1 }

-- A client's packet in each round.
abbrev served : Env
served = record calm {
  epoll_wait_reply = λ t.
      (pos 1, record { epollin = true; epollrdhup = false; epollhup = false; fd = pos 8 } ∷ []);
  read_motor_reply = λ t fd old. (pos 32, packet);
}

main-Held_example : After Held IsOrderly (main served 9 3 argv packet [])
main-Held_example = main-Held served 9 3 argv packet

-- Each file gets a descriptor of its own.
abbrev files : Trace → ℕ
files [] = 3
files (opened _ _ ∷ t) = suc (files t)
files (_ ∷ t) = files t

abbrev numbered : Env
numbered = record calm { open_reply = λ t path. pos (files t) }

abbrev pins : Pins
pins = record no_pins { enable_fd = pos 3; direction_fd = pos 4 }

motor_from-IsAligned_example :
    IsAligned
      (motor_from argv packet).direction
      (level (pos 4) (init_values numbered argv (1 ∷ 2 ∷ []) no_pins []).1)
    ↔ (str_eq (codes "+") (codes "+") ≡ false)
unfolding init_values
motor_from-IsAligned_example = motor_from-IsAligned numbered argv packet pins [] refl
