-- ===== src/Control/Unix/Tests.antt =====
-- `update` of src/control_thread_unix.c at a concrete input.
use real_time_systems.Base.{ℕ, suc, true, false, ◌==◌, ltb, ◌≡◌, some, List, [], ◌∷◌, if◌then◌else◌}
use real_time_systems.Base.Int.{ℤ, pos}
use real_time_systems.Os.{Env, Trace, EpollEvent, After, motor_packets, waited}
use real_time_systems.Os.Examples.{calm, blank_packet}
use real_time_systems.Control.Inet.Update.Policy.{raise}
use real_time_systems.Control.Unix.{update}
use real_time_systems.Control.Unix.Lamp.{said, update-follows}
use real_time_systems.Control.Unix.Loop.{indoor_sym, outdoor_sym, main}
use real_time_systems.Control.Unix.Loop.Silence.{Watching, IsSilent, main-Watching}

-- Dim inside, brighter outside: the curtain, and the lamp stays off.
update-follows_example :
    let out = update (pos 5) (pos 6) (pos 20) (pos 200) (pos 128) (pos 256) false [] in
    (out.0 ≡ some false) × (said out.1 ≡ raise ∷ []) × (motor_packets out.1 ≡ [])
update-follows_example =
    update-follows (pos 5) (pos 6) (pos 20) (pos 200) (pos 128) (pos 256) false []

-- A sensor connects in each of the first two rounds, the indoor one first; then both report 200 lux, and
-- then nothing happens for a while.
abbrev rounds_begun : Trace → ℕ
rounds_begun [] = 0
rounds_begun (waited _ ∷ t) = suc (rounds_begun t)
rounds_begun (_ ∷ t) = rounds_begun t

abbrev input_on : ℤ → EpollEvent
input_on fd = record { epollin = true; epollrdhup = false; epollhup = false; fd = fd }

abbrev watched : Env
watched = record calm {
  accept_reply = λ t fd. if rounds_begun t == 1 then pos 8 else pos 9;
  scanf_char_reply = λ t. (pos 1, if rounds_begun t == 1 then indoor_sym else outdoor_sym);
  recv_reply = λ t fd. (pos 32, record blank_packet { visible = pos 300 });
  epoll_wait_reply = λ t.
      if ltb (rounds_begun t) 2
      then (pos 1, input_on (pos 7) ∷ [])
      else if rounds_begun t == 2
      then (pos 2, input_on (pos 8) ∷ input_on (pos 9) ∷ [])
      else (pos 0, []);
}

abbrev argv : List (List ℕ)
argv = (b'c' ∷ []) ∷ (b's' ∷ []) ∷ []

main-Watching_example : After Watching IsSilent (main watched 9 4 argv 0 [])
main-Watching_example = main-Watching watched 9 4 0 argv
