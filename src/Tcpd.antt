-- ===== src/Tcpd.antt =====
-- The daemon final/tcpd.c: its sockets of final/Global.h and its global variables. The operations
-- stand in the modules below: `Kernel` (system calls), `Packages` (the lists of packages),
-- `Receive`, `Acks`, `Back`, `Front` and `Loop`.
pub mod Kernel
pub mod Packages
pub mod Receive
pub mod Acks
pub mod Back
pub mod Transmit
pub mod Front
pub mod Loop
pub mod Order
pub mod Delivery
pub mod Stream
pub mod Window
pub mod Count
pub mod Bounds
pub mod Taken
pub mod Table
pub mod Sender
pub mod Select
pub mod Frames
pub mod Fill
pub mod Sessions
pub mod Answers
pub mod Garbled
pub mod Keeps
pub mod Quiet
pub mod Backed
pub mod Pending
pub mod Dispatch
pub mod Acking
pub mod Rounds
pub mod Sound
pub mod Serving
pub mod Receiving
pub mod Samples
mod Tests
mod SenderTests
mod FrameTests
use cse5462_network_programm.Base.{ℕ, ◌+◌, Bool, List, Option}
use cse5462_network_programm.Base.Int.{ℤ}
use cse5462_network_programm.Wire.{SockAddr, TrollMessage, TrollAck}
use cse5462_network_programm.Timer.{TimeVal}

-- `struct binded_sock`; the address is not set before the first ACCEPT.
pub record BindedSock : Type 0 where
  pub socket_fd : ℕ
  pub accepting : Bool
  pub accepting_addr : Option SockAddr

-- `struct acked_sock`; the address is not set before the first RECV.
pub record AckedSock : Type 0 where
  pub socket_fd : ℕ
  pub session : ℕ
  pub base : ℕ
  pub receiving_length : ℕ
  pub receiving_addr : Option SockAddr
  pub packages : List TrollMessage
  pub recv_buffer : List ℕ
  pub recv_buffer_size : ℕ

-- `struct connected_sock`
pub record ConnectedSock : Type 0 where
  pub socket_fd : ℕ
  pub session : ℕ
  pub base : ℕ
  pub min_seq : ℕ
  pub server_addr : SockAddr
  pub packages : List TrollMessage
  pub pending_packages : List TrollMessage

-- A datagram that the daemon sends: bytes to an application, a frame or an acknowledgement to the
-- troll through the socket `fd`, a request to the timer process with its seconds in `F`.
pub data Sent (F : Type 0) : Type 0 where
  to_front : List ℕ → Option SockAddr → Sent F
  frame : ℕ → TrollMessage → Sent F
  ack : ℕ → TrollAck → Sent F
  start_timer : ℕ → ℕ → F → Sent F
  cancel_timer : ℕ → ℕ → Sent F

-- A datagram that an application sent to the daemon, with the address that it came from.
pub record Datagram : Type 0 where
  pub bytes : List ℕ
  pub from_addr : SockAddr

-- The estimator's variables, `ElapsedSeconds` to `EstimatedRTO`.
pub record Estimator (F : Type 0) : Type 0 where
  pub elapsed : F
  pub rtt : F
  pub rtt_prev : F
  pub dev : F
  pub dev_prev : F
  pub rto : F

-- The global variables of tcpd.c. `inbox` is what waits on the socket `sock`, where an error of
-- `recvfrom` is a `none`; `calls` counts the system calls, and `log` holds what has been sent.
-- A hash table is the list of its entries in the order in which glib goes through them: an entry
-- of `acked_sockets` stands under its session, one of `connected_sockets` under its `socket_fd`.
pub record Tcpd (F : Type 0) : Type 0 where
  pub calls : ℕ
  pub inbox : List (Option Datagram)
  pub log : List (Sent F)
  pub buf : List ℕ
  pub sock : ℕ
  pub sock_timer_driver : ℕ
  pub max_socket : ℕ
  pub sock_fd : List ℕ
  pub in_buffer_packages : ℤ
  pub binded_sockets : List BindedSock
  pub acked_sockets : List AckedSock
  pub waiting_ack_sockets : List AckedSock
  pub connected_sockets : List ConnectedSock
  pub send_time : TimeVal
  pub ack_time : TimeVal
  pub estimator : Estimator F

-- The machine that the daemon runs on: which `sendto`, `socket` and `bind` succeed, what
-- `gettimeofday`, `rand` and `socket` return and what `malloc` leaves in a block, each by the
-- number of the call; and the arithmetic of `double`.
pub record Machine (F : Type 0) : Type 0 where
  pub succeeds : ℕ → Bool
  pub clock : ℕ → TimeVal
  pub rand : ℕ → ℕ
  pub fresh_fd : ℕ → ℕ
  pub fresh_bytes : ℕ → List ℕ
  pub of_int : ℤ → F
  -- the literal with this numerator over this power of ten
  pub decimal : ℕ → ℕ → F
  pub plus : F → F → F
  pub minus : F → F → F
  pub times : F → F → F
  pub less : F → F → Bool
  pub at_most : F → F → Bool
  -- `(double)abs((int)x)`
  pub abs_int : F → F
