-- ===== src/Lib.antt =====
-- The sensor alarm server and its clients, modelled from the C sources, and the gateway
-- for browsers from its JavaScript.
--
-- The program. A server on a Raspberry Pi (server/) drives an LED, a buzzer, a light sensor and a
-- seven-segment display through four libraries (lib/), and talks to clients in messages of four
-- bytes (include/protocol.h, common/protocol_io.c). Each client has a thread that answers its
-- commands and queries; these set flags in `g_state` and put commands for the LED and the buzzer
-- thread into mailboxes. A melody and a countdown have threads of their own, which are started,
-- cancelled and joined; the sensor thread raises an alarm after three dark readings. Alarms and
-- countdowns are broadcast to all clients. The terminal client (client/main.c) has menus that send
-- commands, and a thread that prints what comes in. A gateway (web/) does the same for browsers.
--
-- The files.
--   Protocol, Protocol/Codec     include/protocol.h: the constants, `Message`, its four bytes
--   ProtocolIo/Recv, Send        common/protocol_io.c: both loops
--   ProtocolIo/Contract          what these rely on in `recv` and `send`, as hypotheses
--   Wiring                       the pins of server/main.c
--   Devices/Board                the static variables of lib/*.c and a trace of the hardware calls
--   Devices/Led, Buzzer, Sensor, Segment      lib/led.c, buzzer.c, cds.c, segment.c
--   Devices/Readback             what a pin was last told, read off the trace
--   Server/State                 server/server.h and the variables of main.c and handler.c
--   Server/Dispatch              dispatch_led, dispatch_buzzer, led_thread_fn, buzzer_thread_fn
--   Server/Clients               the client table and broadcast_msg of main.c
--   Server/Melody, Countdown, Watch     the melody, countdown and sensor threads of handler.c
--   Server/Commands              the handlers of handler.c, `handle_command` and `handle_query`
--   Server/Accept                initialize_hardware and the accept loop of main.c
--   Server/Session               handle_client of handler.c over ProtocolIo
--   Server/Text                  log_event, load_library and the start of `main`: their texts
--   Server/LedOrders             the critical sections of two commands for the LED
--   Server/MelodyLock            who holds g_melody_control_lock when a countdown is cancelled
--   Server/Locks/Programs        what the functions of handler.c, main.c and cds.c lock and join
--   Server/Locks/Run             the steps of all threads on these locks, and cancellation
--   Server/Locks/Order, Invariant, Progress, Finish, Lost     their order, and what follows from it
--   Server/Cancel/Pieces, Note   segment_thread_fn and a note of the melody between their cancellation
--                                points
--   Server/Cancel/Rounds, Agree, Known, Covered, Quiet     proofs about these
--   Server/System                any interleaving of the above as a list of actions
--   Server/Traffic               any number of threads that send on one socket
--   Server/Registry              what the client table promises: a multiset of four descriptors
--   Server/Boot/Log, Daemon      log_event of main.c with its files, daemonize of server/daemon.c
--   Server/Boot/Listener         setup_server of main.c
--   Server/Boot/Libraries        load_library, load_symbol and load_libraries of main.c
--   Server/Boot/Faults           which calls of a history have failed, for the theorems about these
--   Server/Boot/Main             `main` of server/main.c up to its loop, and start_worker
--   Client/Console, Menus, Display      read_choice, the menus and the lines of client/main.c
--   Client/Screens               the texts of the menus and of print_help
--   Client/Receiver              recv_thread_fn of client/main.c over ProtocolIo
--   Client/Startup               termination_handler, and `main` around its loop
--   Gateway/Frames, Bridge, Page web/protocol.js, and the connections and the page of web/server.js
--   Process, Process/Files       the system calls of these, and what descriptors stand for
--   Process/Ends                 what is known of an action that returns or exits
--   Process/Simulated            a kernel to run them on
-- Functions keep the names of the sources. A module whose name ends in Laws, and Keeps, Validity,
-- Serving, SessionEnds, Returns and Reply, hold proofs about the module that their comments name;
-- Tests modules hold runs on concrete inputs.
--
-- State. `World` is the whole state of the server. An operation is a function on it, and what the
-- operating system and the hardware answer is a parameter (`Env`, `Setup`, `Connection`, `Transfers`).
-- A step of a thread runs from one blocking call to the next: a reading of the sensor, a note of the
-- melody, a second of the countdown, a command in a mailbox, a request, a connection. Within a step
-- no other thread runs; the steps come in any order. A thread that is cancelled is cancelled where
-- it waits. `handle_client` runs for one connection: between two requests the other threads change
-- the state and broadcast messages on copies of the same descriptor, each of which goes out whole and
-- between two messages (`others`, `broadcasts`). The calls of the hardware and the messages sent are lists with the newest first.
--
-- What a process does before its loop is another kind of operation: an `Action` takes the history of
-- the system calls so far and returns a value, or exits. The kernel and the dynamic linker are a
-- parameter (`Kernel`), a function of the history; what a descriptor stands for, which threads run
-- and how signals are handled is read off the history. That a new descriptor gets a number not in
-- use is a hypothesis (`IsFresh`). Behind `fork` the history is that of the process which its answer
-- names.
--
-- Bounds and fuel. A byte of a message is a number; where one is read from memory it is below 256
-- (`IsMessage`), and a conversion to `uint8_t` is written as a remainder. The loops of
-- common/protocol_io.c take as fuel a bound on the calls of `recv` or `send`: a message has four
-- bytes, each call that is not interrupted moves at least one, and the connection bounds the
-- interruptions to come, so more than their sum is enough. `handle_client` takes as fuel more than
-- the number of requests, and recv_thread_fn more than the number of messages that come in. The
-- client's menus take a bound on the rounds of each loop; each round reads a byte
-- or finds the end of the input, so one more than the bytes of the input is enough: with more they
-- end as they do with that, or they never end (Client/FuelLaws).
--
-- Locks. In Server/Locks a thread is what it holds and what is left of its round; a mutex is locked
-- while some thread holds it, and a join waits until the thread has ended its round. A round begins
-- at any time, which covers every start of a thread. `pthread_cond_wait` releases the mutex and takes
-- it again, so that a wait of the LED or buzzer thread lies between two rounds.
--
-- Not modelled. What the error texts say of errno and dlerror, and the time in the log, are not
-- computed. A write to the log or to the terminal is a call whose answer is not looked at, as in the
-- source. Interleavings within a step are not in the model of whole steps, but in models of their own:
-- the critical sections of two commands for the LED (Server/LedOrders), what several threads send on
-- one socket (Server/Traffic), the locks (Server/Locks), and the countdown that is
-- cancelled within a round (Server/Cancel), where the calls of `log_event` behind its `open` and a
-- `send` for the rest of a message are no points of their own. Of web/, the page itself is
-- left out, and which browsers a broadcast reaches.
pub mod Prelude
pub mod Protocol
pub mod ProtocolIo
pub mod Process
pub mod Wiring
pub mod Devices
pub mod Server
pub mod Gateway
pub mod Client
