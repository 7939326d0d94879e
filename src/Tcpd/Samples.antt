-- ===== src/Tcpd/Samples.antt =====
-- A machine, a state of the daemon of final/tcpd.c and a frame, for the tests.
use Prim.Native.Nat.{◌/◌}
use cse5462_network_programm.Base.{ℕ, ◌+◌, ◌-◌, ◌*◌, ◌^◌, true, [], ◌∷◌, ltb, leb, replicate}
use cse5462_network_programm.Base.Int.{pos, pos_part}
use cse5462_network_programm.Timer.{TimeVal}
use cse5462_network_programm.Wire.{SockAddr, TrollMessage}
use cse5462_network_programm.Tcpd.{ConnectedSock, Tcpd, Machine}

-- A machine on which every call succeeds; a `double` is a number of millionths.
abbrev pub machine : Machine ℕ
machine = record {
  succeeds = λ _. true;
  clock = λ n. record { tv_sec = 5; tv_usec = n };
  rand = λ n. 7;
  fresh_fd = λ n. n + 3;
  fresh_bytes = λ n. replicate 1040 0;
  of_int = λ i. pos_part i * 1000000;
  decimal = λ n k. n * 1000000 / 10 ^ k;
  plus = λ a b. a + b;
  minus = λ a b. a - b;
  times = λ a b. a * b / 1000000;
  less = ltb;
  at_most = leb;
  abs_int = λ a. a / 1000000 * 1000000;
}

abbrev pub local : SockAddr
local = record { sin_family = 0x200; sin_port = 80; sin_addr = 1 }

abbrev pub zero_time : TimeVal
zero_time = record { tv_sec = 0; tv_usec = 0 }

abbrev pub idle : Tcpd ℕ
idle = record {
  calls = 0;
  inbox = [];
  log = [];
  buf = replicate 1000 0;
  sock = 3;
  sock_timer_driver = 4;
  max_socket = 0;
  sock_fd = [];
  in_buffer_packages = pos 0;
  binded_sockets = [];
  acked_sockets = [];
  waiting_ack_sockets = [];
  connected_sockets = [];
  send_time = zero_time;
  ack_time = zero_time;
  estimator = record { elapsed = 0; rtt = 0; rtt_prev = 10000; dev = 0; dev_prev = 10000; rto = 0 };
}

abbrev pub frame_of : ℕ → TrollMessage
frame_of q = record {
  header = local;
  check_sum = 0;
  session = 7;
  seq_num = q;
  padding = [];
  len = 1;
  body = q ∷ 0 ∷ [];
}

-- A socket whose first two packages are sent and whose next two are not.
abbrev pub half_sent : ConnectedSock
half_sent = record {
  socket_fd = 9;
  session = 7;
  base = 4;
  min_seq = 0;
  server_addr = local;
  packages = frame_of 0 ∷ frame_of 1 ∷ [];
  pending_packages = frame_of 2 ∷ frame_of 64 ∷ [];
}

abbrev pub sending : Tcpd ℕ
sending = record idle { connected_sockets = half_sent ∷ []; in_buffer_packages = pos 4 }
