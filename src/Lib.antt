-- ===== src/Lib.antt =====
-- Real-time photo-sensitive curtain: light sensors report to a controller, which opens and closes a
-- curtain by a stepper motor. The programs stand in src/ of the repository.
--
-- The programs. sensor_thread_inet and sensor_thread_unix read one sensor each over I2C and send a
-- packet when the reading has changed. control_thread_inet takes the packets of an indoor and an
-- outdoor sensor and commands from the terminal, and decides what the curtain and the lamp should do;
-- it sends motor packets. stepper takes motor packets and turns them into pulses on a pin.
--
-- The model. A system call is a step: it gets its reply from an environment `Env`, a function of all
-- calls made so far, and puts itself on the trace, the latest first. So a program is a function from
-- traces to a result and a longer trace (`Io` of Os/Calls.antt), and a theorem for every `Env`
-- covers all that devices, network, user and scheduling can make the calls return. A C `int` that
-- never leaves its range is an integer; the counters of packets wrap at 2 ^ 32, a `size_t` at 2 ^ 64.
-- What `perror` and most of `printf` print is left out; the lines that `update` prints are kept.
--
-- The files, and the sources that they model:
-- Base: tests, lists and integers over the native numbers.
-- Os: calls, traces and environments, with the packets of src/sensor_packet.h and
--   src/motor_packet.h, and the endless loop of a `main`. A `View` is what others see of a trace.
-- Errors: src/error.h.
-- BlockingIo: `blocking_write` and `blocking_read` of src/blocking_io.c. `size_mod` is the size of
--   a `size_t`; the rounds of the loops are in `blocking_write_from` and `blocking_read_from`.
-- SensorIo: `init_sensor` and `read_sensor` of src/sensor_io.c; `reformat` has the lines that
--   decode the bytes, for a plain `char` that is signed or not.
-- Sockets: `init_socket` and `conn_socket` of src/socket_inet.c (Sockets/Inet) and of
--   src/socket_unix.c (Sockets/Unix), which has `send_packet` and `recv_packet` too.
-- SensorThread: `main` of src/sensor_thread_inet.c and of src/sensor_thread_unix.c.
--   SensorThread/Sampling has what such a program is to the device and to who listens: the answers of
--   the device as samples of four bytes, and the readings sent.
-- Control/Inet: src/control_thread_inet.c. Its static variables are in `Statics`, the variables of
--   `main` in `Control`. `update` is in Control/Inet/Update, `use_sensor` in Control/Inet/Input, the
--   branches of the event loop in Control/Inet/Handlers, the loop in Control/Inet/Main. A property of
--   the view that updates, readings and connections keep is carried through the loop once, in
--   Control/Inet/Handlers/Invariant and Control/Inet/Main/Invariant. Control/Inet/Inputs has
--   what `recv` and `scanf` have told the program, and Control/Inet/Machine an abstract machine, which
--   takes that and acts on it, with the policy written out.
-- Control/Unix: src/control_thread_unix.c, an older controller that only prints what the curtain
--   should do. `update` is in Control/Unix, `use_sensor` in Control/Unix/Input, `main` and the branches
--   of its event loop in Control/Unix/Loop, its variables in `Watch`; what the branches keep is carried
--   through the loop once, in Control/Unix/Loop/Invariant.
-- Stepper: src/stepper.c. `msleep`, `rotate`, `islegal`, `set_direction`, `export` and `unexport` are in
--   Stepper/Sleep, Rotate, Text and Gpio. Stepper/Threads has `seq_rotate` and `workerFn` as two threads
--   that share `working` and a mutex: a step is an access of one thread to these, or a whole call of
--   `rotate`, and the steps of the two come in any order. Stepper/Rotate/Overlap has what the
--   motor makes of two calls of `rotate` at once. Stepper/Sequence has `seq_rotate` again, as the
--   main thread runs it, with its system calls, and Stepper/Worker has `workerFn` as the worker runs
--   it, to which each read of `working` is a reply; Stepper/Threads/Worker and Stepper/Sequence/Refines
--   lead back to the two threads. Stepper/Setup has what `main` does before its loop,
--   Stepper/Events the loop, with its variables in `Motor`, Stepper/Main the whole of `main`:
--   what holds at the start of the loop is in Stepper/Main/Start.
-- Converter: the sketch of arduino_converter/arduino_converter.ino, with what it asks of the board and
--   what it prints. What `digitalRead` returns is a parameter.
-- Sensing: the sensor and the controller over unix together, at one packet, and over a whole run of
--   the controller in Sensing/Whole; Sensing/Readings has what a reading can be.
-- Curtain: the controller and the motor thread together, by the model of the two threads, in
--   Curtain/Serving by one packet in the loop of stepper, in Curtain/Loop by the loop, and in
--   Curtain/Whole by the whole of stepper.
-- Programs: the five programs side by side: what they return, and what they connect to.
--
-- Fuel. A loop that waits for the system has a round for each unit of fuel. `blocking_write` and
-- `blocking_read` need a round for each byte and one more, since a call that does not fail moves at
-- least one byte; `msleep` a round for each nanosecond and one more, since an interrupted sleep
-- leaves less. The loop of a `main` has no end: it is cut off after any number of rounds, and what is
-- stated holds for every number.
--
-- Hypotheses on what is not in the repository: `WriteContract` and `ReadContract` (the counts that
-- `write` and `read` return), `IsEndless` (the device always answers), `SleepsOn` (what an
-- interrupted `nanosleep` leaves), `IsSound` (the clock works and packets are taken), `Carries` (a
-- connection carries whole packets that were sent, and a `read` that gets none leaves the variable).
--
-- Mutex. In a program that runs on its own, a lock or an unlock is an event of the trace, and a lock
-- comes back; whether it can is a question to Stepper/Threads.
--
-- Not modelled: messages to the user, but for the lines of the two `update`; `sprintf` is taken not to
-- fail, and where the end of the input makes stepper write before its buffer, the buffer is taken to
-- stay. The programs of test/, which print, and the Python scripts of
-- light/, which are not C.
pub mod Base
pub mod Errors
pub mod Os
pub mod BlockingIo
pub mod SensorIo
pub mod Sockets
pub mod SensorThread
pub mod Control
pub mod Stepper
pub mod Sensing
pub mod Converter
pub mod Curtain
pub mod Programs
