-- ===== src/Lib.antt =====
-- The reliable file transfer of final/: two daemons carry a byte stream over a network that garbles,
-- drops, delays and doubles datagrams, for an application on each side that knows only the calls
-- SOCKET to CLOSE.
--
-- The parts and their files:
--   Timer       final/timer.c, final/TimerRequest.h: a process that keeps the timers of the sender in
--               a delta list. InsertRequest, CancelRequest, UpdateTimerList, SendCallbacks and a round
--               of main are insert_request, cancel_request, update_timer_list, send_callbacks, round.
--   Crc, Wire   final/crc32.c, final/Header.h: the checksum, the frames, and the bytes of a frame that
--               the checksum is taken of. Bytes holds numbers in memory and bcopy.
--   Tcpd        final/tcpd.c, final/Global.h, final/TimerRequest.c: the daemon. Kernel: its state,
--               exits and system calls; Receive: recv_data; Acks: recv_ack, recv_timer; Back:
--               handle_ack_back, handle_recv_back; Transmit: handle_send_all_back; Front: tcpd_SOCKET
--               to tcpd_SEND; Loop: process_tcpd_message, re_register_fd and a round of main. The
--               other modules of Tcpd hold the theorems.
--   Wrappers    final/tcpudp.c: the calls of the applications, each a few datagrams to the daemon and
--               one answer.
--   Ftp         final/ftpc.c, final/ftps.c: the client and the server that use these calls. Client and
--               Server hold what they do (ftpc, ftps, serve_client), the other modules the theorems.
--   Proj1       proj1/, the earlier version of the system, with children for its parts. Daemon: tcpd.c,
--               with Daemon/Arms for the arms of the loop of main (client_arm, ack_arm, packet_arm) and
--               a round (daemon_round); Window: my_window; Crc16: crc16; TimerList: timer.c; Calls:
--               SEND of wrap_func.c; Files: ftpc.c and ftps.c.
--   Count       lab1/count.c, a program of its own: gen_next, kmp_match and the loop of main.
-- Base holds what all share: numbers, lists, integers, and Outcome (a result, an exit, or a read that
-- waits).
--
-- How they interact: an application's call sends datagrams to its daemon's socket `sock`; the daemon
-- answers at once, or later from handle_ack_back and handle_recv_back. The daemon sends frames and
-- acknowledgements to the troll, and start and cancel requests to the timer process, which sends an
-- expired timer back. A list of log entries stands for all that the daemon sends.
--
-- In proj1 the client's SEND gives a datagram to the daemon and waits for its word; the daemon keeps the
-- packet in its window, and takes it out with the acknowledgement that the daemon of the server sends
-- for it. A list of what a round sends is its second result. Daemon/Full is about runs of rounds,
-- Daemon/Exchange about two daemons over a network that delivers everything.
--
-- Numbers: a 32-bit or 64-bit number keeps its wrap-around (u32, u64). A double of the timer process
-- is an integer number of microseconds, added exactly; the doubles of the daemon's estimator, the
-- clock, rand, malloc's bytes and the success of each call are the parameter Machine of the daemon,
-- those of the applications' calls the parameter System; in proj1 the doubles of the daemon are the
-- parameter Doubles, and what a round finds is the record Arrivals. A glib hash table is the list of its entries
-- in the order of iteration. Addresses of the timer's requesters are opaque numbers.
--
-- Fuel: the loop of handle_recv_back runs on fill_fuel: one for each byte of a buffered package and
-- one for each package, and fill_stops shows that this is enough. The loops of ftpc and ftps run on one
-- more than the answers that the daemon has given, of which each round takes one; where there are none
-- left the run waits, and file_transfer shows that a transfer ends. In proj1 the loop over the window
-- runs on ten, one for each place, and the client's loop on the length of the file, of which a round
-- takes at least a byte. The search of lab1 runs on twice the length of the text and one: a round goes
-- on by a byte in the text or falls back in the pattern; and its main on the length of the file and one.
--
-- Waiting: what `select` leaves to be read is the parameter `wait` of a round of the daemon. Selects
-- says of it that it reports the applications' socket only where re_register_fd has put it into the
-- set.
--
-- Not modelled: the start of the daemons (global_init, socket_init, address_init, pipe_init) and of the
-- timer processes, the time that the timer process of final/ has select wait, the assertion of UpdateTimerList on its last time, messages to the log and the
-- status prints, checksum.c (the build does not call it), driver.c, the troll; in proj1 the functions
-- that nothing calls, the test programs and the recvd_ copies of sources; the earlier
-- versions under lab2 and lab3; lab4, lab5 and proj2 hold scripts for a network simulator. Where the
-- code reads or writes outside an array (in final/ a Len above 1000, a descriptor outside the set, a
-- word too long for strcpy) the model says so (overrun, none, crashes) and goes no further.
pub mod Base
pub mod Bytes
pub mod Crc
pub mod Wire
pub mod Timer
pub mod Tcpd
pub mod Wrappers
pub mod Ftp
pub mod Proj1
pub mod Count
