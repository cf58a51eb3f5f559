-- ===== src/Errors.antt =====
-- src/error.h: the error codes, which the programs return negated.
use real_time_systems.Base.{ℕ}

pub data Errcode : Type 0 where
  success err_num_argc err_open err_ioctl err_write_control err_write_timing : Errcode
  err_write_read err_read_data err_time : Errcode
  err_socket err_bind err_listen err_connect err_send err_recv err_hostname : Errcode
  err_epoll err_epctl err_epwait err_ephup : Errcode

-- The numbers that `enum errcode` gives its members.
abbrev pub code : Errcode → ℕ
code success = 0
code err_num_argc = 1
code err_open = 10
code err_ioctl = 11
code err_write_control = 12
code err_write_timing = 13
code err_write_read = 14
code err_read_data = 15
code err_time = 16
code err_socket = 20
code err_bind = 21
code err_listen = 22
code err_connect = 23
code err_send = 24
code err_recv = 25
code err_hostname = 26
code err_epoll = 30
code err_epctl = 31
code err_epwait = 32
code err_ephup = 33
