-- ===== src/Os/Examples.antt =====
-- Environments for tests: one in which every call succeeds, and small helpers.
use real_time_systems.Base.{false, [], length, replicate}
use real_time_systems.Base.Int.{pos}
use real_time_systems.Os.Types.{Timespec, SensorPacket}
use real_time_systems.Os.Traces.{Env}

abbrev pub noon : Timespec
noon = record { tv_sec = pos 5; tv_nsec = pos 100 }

abbrev pub blank_packet : SensorPacket
blank_packet = record {
  timestamp = noon;
  sequence = 0;
  full = pos 0;
  infrared = pos 0;
  visible = pos 0;
}

-- Every write takes all its bytes, every read delivers zeros, every call returns success, a new
-- descriptor is 7, and no text parses.
abbrev pub calm : Env
calm = record {
  write_reply = λ t fd bytes. pos (length bytes);
  read_reply = λ t fd n. (pos n, replicate n 0);
  open_reply = λ t path. pos 7;
  ioctl_reply = λ t fd. pos 0;
  clock_reply = λ t. (pos 0, noon);
  nanosleep_reply = λ t ts. (pos 0, false, ts);
  socket_reply = λ t. pos 7;
  inet_aton_reply = λ host. (pos 0, 0);
  bind_reply = λ t fd name. pos 0;
  listen_reply = λ t fd backlog. pos 0;
  gethostname_reply = λ t. pos 0;
  connect_reply = λ t fd name. pos 0;
  accept_reply = λ t fd. pos 8;
  send_sensor_reply = λ t fd packet. pos 32;
  send_motor_reply = λ t fd packet. pos 32;
  recv_reply = λ t fd. (pos 32, blank_packet);
  epoll_create_reply = λ t. pos 9;
  epoll_add_reply = λ t fd. pos 0;
  epoll_delete_reply = λ t fd. pos 0;
  epoll_wait_reply = λ t. (pos 0, []);
  scanf_word_reply = λ t. (pos 0, []);
  scanf_int_reply = λ t. (pos 0, pos 0);
  scanf_words_reply = λ t. (pos 0, [], []);
  scanf_setting_reply = λ t. (pos 0, [], pos 0);
  scanf_char_reply = λ t. (pos 0, 0);
  read_motor_reply = λ t fd packet. (pos 0, packet);
  thread_create_reply = λ t. pos 0;
  thread_detach_reply = λ t. pos 0;
  shared_reply = λ t. pos 0;
  atoi = λ text. pos 0;
  char_signed = false;
  sizeof_sensor_packet = 32;
}
