-- ===== src/Stepper/Events/Tests.antt =====
-- The theorems on the event loop of stepper at concrete inputs, and runs.
use real_time_systems.Base.{◌≡◌, refl, inl, true, false, [], ◌∷◌, arith}
use real_time_systems.Base.Int.{pos, neg}
use real_time_systems.Os.{Env, Trace, EpollEvent, MotorPacket, After, forever, wrote, locked}
use real_time_systems.Os.Examples.{calm, noon}
use real_time_systems.Stepper.Examples.{calm-SleepsOn, pins}
use real_time_systems.Stepper.Rotate.{low}
use real_time_systems.Stepper.Rotate.Train.{writes, rotation}
use real_time_systems.Stepper.Sequence.Mutex.{IsOrderly}
use real_time_systems.Stepper.Events.{Motor, handle_motor_event, motor_round}
use real_time_systems.Stepper.Events.Steady.{Steady}
use real_time_systems.Stepper.Events.Direction.{IsAligned, loop-IsAligned}
use real_time_systems.Stepper.Events.Replays.{handle_motor_event-replays}

abbrev lower_packet : MotorPacket
lower_packet = record { timestamp = noon; sequence = 0; direction = pos 1; turns = neg 1 }

-- The input of a client, which has hung up.
abbrev gone : EpollEvent
gone = record { epollin = true; epollrdhup = true; epollhup = false; fd = pos 8 }

-- A client that sends one packet after the other.
abbrev busy : Env
busy = record calm {
  epoll_wait_reply = λ t. (pos 1, gone ∷ []);
  read_motor_reply = λ t fd packet. (pos 32, lower_packet);
}

abbrev waiting : Motor
waiting = record { working = pos 0; direction = pos 0; in_packet = lower_packet; buf = [] }

abbrev set_up : Trace
set_up = locked ∷ wrote (pos 7) low (pos 1) ∷ []

loop-IsAligned_example :
    After
      (Steady IsAligned pins)
      IsOrderly
      (forever 2 (motor_round busy 9 pins (pos 3)) waiting set_up)
loop-IsAligned_example =
    loop-IsAligned busy 9 pins (ground arith) (ground arith) (pos 3) 2 waiting set_up
      (inl refl, refl, refl, (inl refl, refl))

-- The last packet asked for two rotations in direction 0.
abbrev turned : Motor
turned = record waiting { in_packet = record lower_packet { direction = pos 0; turns = pos 2 } }

handle_motor_event-replays_example :
    writes (handle_motor_event calm 3_000_001 pins (pos 3) gone turned set_up).1
    ≡ rotation (pos 6) (pos 5) 2 (writes set_up)
handle_motor_event-replays_example =
    handle_motor_event-replays calm calm-SleepsOn 3_000_001 (omega arith) pins (pos 3) gone turned
      set_up refl (ground arith) (ground arith) refl refl (inl refl) (omega arith) (omega arith)
