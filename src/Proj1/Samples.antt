-- ===== src/Proj1/Samples.antt =====
-- Doubles, packets, windows and states of the daemon of proj1/tcpd.c, for the tests.
use cse5462_network_programm.Base.{
  ℕ, ◌+◌, ◌-◌, ◌*◌, ◌/◌, ◌≡◌, refl, inr, true, false, [], replicate, arith,
}
use cse5462_network_programm.Timer.{TimeVal}
use cse5462_network_programm.Proj1.{TrollHeader}
use cse5462_network_programm.Proj1.Window.{Window, window_full, window_init}
use cse5462_network_programm.Proj1.Window.Queue.{IsWindow}
use cse5462_network_programm.Proj1.Daemon.{Doubles, Daemon}
use cse5462_network_programm.Proj1.Daemon.Arms.{daemon_start}
use cse5462_network_programm.Proj1.Daemon.Full.{IsSound, daemon_start-IsSound}

-- A double is a number of millionths, not negative.
abbrev pub doubles : Doubles ℕ
doubles = record {
  add = λ a b. a + b;
  sub = λ a b. a - b;
  mul = λ a b. a * b / 1000000;
  div = λ a b. a * 1000000 / b;
  fabs = λ a. a;
  difference = λ a b. (a - b) * 1000000;
  whole = λ a. a / 1000000;
}

abbrev pub head : TrollHeader
head = record {
  send_to = record { sin_family = 0; sin_port = 0; sin_addr = 0 };
  tcp_header = record {
    ports = replicate 4 0;
    seq = 0;
    ack_seq = 0;
    offset = 0;
    low_flags = 0;
    ack = 0;
    high_flags = 0;
    window = replicate 2 0;
    check = 0;
    urgent = replicate 2 0;
  };
  body = [];
}

abbrev pub at_second : ℕ → TimeVal
at_second n = record { tv_sec = n; tv_usec = 0 }

abbrev pub full_window : Window
full_window = record {
  last_ack = 3;
  last_send = 3;
  num_empty = 0;
  troll_headers = replicate 10 head;
  ack_bitmap = replicate 10 0;
}

pub full_window-IsWindow : IsWindow full_window
full_window-IsWindow = record {
  headers_there = refl;
  bitmap_there = refl;
  last_ack_in = omega arith;
  num_empty_in = omega arith;
  last_send_at = refl;
}

abbrev pub two_sent : Window
two_sent = record {
  last_ack = 9;
  last_send = 1;
  num_empty = 8;
  troll_headers = replicate 10 head;
  ack_bitmap = replicate 10 0;
}

pub two_sent-IsWindow : IsWindow two_sent
two_sent-IsWindow = record {
  headers_there = refl;
  bitmap_there = refl;
  last_ack_in = omega arith;
  num_empty_in = omega arith;
  last_send_at = refl;
}

abbrev pub fresh : Daemon ℕ
fresh = daemon_start doubles (replicate 10 head) (replicate 10 0)

pub fresh-IsSound : IsSound fresh
fresh-IsSound = daemon_start-IsSound doubles (replicate 10 head) (replicate 10 0) refl refl

abbrev pub stuck : Daemon ℕ
stuck = record {
  rto = 100;
  window_client = full_window;
  record_buf = replicate 30 (record { start_time = at_second 0; seq = 0 });
  record_index = 7;
  seq = 5;
  tmp_save_buf = [];
  srtt = 0;
  dev_rtt = 0;
}

pub stuck-IsSound : IsSound stuck
stuck-IsSound = record {
  is_window = full_window-IsWindow;
  waits = inr refl;
  records_there = refl;
  record_index_in = omega arith;
}

pub fresh_empty : fresh.window_client.num_empty ≡ 10
unfolding daemon_start window_init
fresh_empty = refl

pub stuck_full : window_full stuck.window_client ≡ true
unfolding window_full
stuck_full = refl

pub two_sent_free : window_full two_sent ≡ false
unfolding window_full
two_sent_free = refl
