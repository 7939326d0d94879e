-- ===== src/Tcpd/FrameTests.antt =====
-- The theorems on frames, requests and descriptors of final/tcpd.c at concrete states.
use cse5462_network_programm.Base.{
  ℕ, Bool, Option, ◌≡◌, ◌↔◌, refl, ◌⊎◌, inr, true, false, ◌||◌, ◌&&◌, [], ◌∷◌, ◌==◌, ==_iff, leb,
  arith, none, some, take, replicate, if◌then◌else◌,
}
use cse5462_network_programm.Bytes.{le_bytes}
use cse5462_network_programm.Base.Int.{pos, ◌≤ℤ◌}
use cse5462_network_programm.Base.Outcome.{Outcome, done, exits, blocks, overrun}
use cse5462_network_programm.Wire.{
  TrollMessage, TrollAck, message_intact, ack_intact, max_buffer_packages, message_bytes,
  message_sum,
}
use cse5462_network_programm.Tcpd.{Tcpd, AckedSock, BindedSock, ConnectedSock}
use cse5462_network_programm.Tcpd.Receive.{receive_package, recv_data, garbled}
use cse5462_network_programm.Tcpd.Rounds.{Rounds}
use cse5462_network_programm.Tcpd.Acks.{recv_ack, recv_timer, find_session}
use cse5462_network_programm.Tcpd.Back.{fill, fill_fuel}
use cse5462_network_programm.Tcpd.Order.{
  IsOrdered, holds, receive_package-IsOrdered, receive_package_again,
}
use cse5462_network_programm.Tcpd.Fill.{Stopped, fill_stops}
use cse5462_network_programm.Tcpd.Loop.{listens, fds_fit, re_register_fd, Arrivals, main_round}
use cse5462_network_programm.Tcpd.Select.{Watches, watched, re_register_fd_lem}
use cse5462_network_programm.Tcpd.Garbled.{recv_data_changed}
use cse5462_network_programm.Tcpd.Answers.{Acknowledged, recv_data_lem}
use cse5462_network_programm.Tcpd.Taken.{
  AckDropped, AckTaken, recv_ack_lem, Rescheduled, recv_timer_lem,
}
use cse5462_network_programm.Tcpd.Samples.{machine, local, idle, frame_of, half_sent, sending}

abbrev listening : BindedSock
listening = record { socket_fd = 5; accepting = false; accepting_addr = none }

-- A request for two bytes, and a frame of three.
abbrev asking : AckedSock
asking = record {
  socket_fd = 5;
  session = 7;
  base = 0;
  receiving_length = 2;
  receiving_addr = some local;
  packages = frame_of 1 ∷ frame_of 3 ∷ [];
  recv_buffer = replicate 8 0;
  recv_buffer_size = 0;
}

abbrev three_bytes : TrollMessage
three_bytes = record {
  header = local;
  check_sum = 0;
  session = 7;
  seq_num = 0;
  padding = [];
  len = 3;
  body = 10 ∷ 11 ∷ 12 ∷ [];
}

recv_data_lem_example :
    ((message_intact (frame_of 0) ≡ false)
      × (recv_data machine listening (some (frame_of 0, local)) idle ≡ done (garbled, idle)))
    ⊎ ((message_intact (frame_of 0) ≡ true)
        × Acknowledged listening
            (frame_of 0)
            idle
            (recv_data machine listening (some (frame_of 0, local)) idle))
recv_data_lem_example = recv_data_lem machine (λ _. refl) listening (frame_of 0) local idle

receive_package-IsOrdered_example :
    IsOrdered (receive_package (frame_of 2) asking)
    × ((q : ℕ)
        → holds q (receive_package (frame_of 2) asking).packages
          ≡ ((leb 0 2 && (2 == q)) || holds q (frame_of 1 ∷ frame_of 3 ∷ [])))
receive_package-IsOrdered_example = receive_package-IsOrdered (frame_of 2) asking (omega arith)

receive_package_again_example : receive_package (frame_of 3) asking ≡ asking
unfolding holds
receive_package_again_example = receive_package_again (frame_of 3) asking (omega arith) (inr refl)

fill_stops_example : Stopped (fill (fill_fuel (frame_of 1 ∷ frame_of 3 ∷ [])) asking)
fill_stops_example = fill_stops asking

re_register_fd_lem_example :
    (((fds_fit (watched sending) ≡ false) × (re_register_fd sending ≡ exits overrun))
      ⊎ ((fds_fit (watched sending) ≡ true) × Watches sending (re_register_fd sending)))
    × ((listens sending ≡ false) ↔ (pos max_buffer_packages ≤ℤ pos 4))
re_register_fd_lem_example = re_register_fd_lem sending

abbrev some_ack : TrollAck
some_ack = record { header = local; check_sum = 0; session = 7; seq_num = 1 }

recv_ack_lem_example :
    ((ack_intact some_ack ≡ false)
      × AckDropped sending (recv_ack machine half_sent (some some_ack) sending))
    ⊎ ((ack_intact some_ack ≡ true)
        × AckTaken some_ack half_sent sending (recv_ack machine half_sent (some some_ack) sending))
recv_ack_lem_example = recv_ack_lem machine (λ _. refl) half_sent some_ack sending

recv_timer_lem_example :
    ((find_session 7 (half_sent ∷ []) ≡ none) × (recv_timer (some (7, 1)) sending ≡ exits 5))
    ⊎ ((c : ConnectedSock) × Rescheduled 7 1 c sending (recv_timer (some (7, 1)) sending))
recv_timer_lem_example = recv_timer_lem 7 1 sending

-- A frame with a byte of its contents changed.
abbrev sent : TrollMessage
sent = record (frame_of 0) { check_sum = message_sum (frame_of 0) }

abbrev damaged : TrollMessage
damaged = record sent { body = 0 ∷ 9 ∷ [] }

recv_data_changed_example :
    recv_data machine listening (some (damaged, local)) idle ≡ done (garbled, idle)
unfolding message_bytes message_intact message_sum le_bytes
recv_data_changed_example =
    recv_data_changed machine listening local idle sent damaged (take 17 (message_bytes sent)) 0 9
      [] ((==_iff (message_sum sent) (message_sum sent)).1 refl) refl refl refl
      (
        omega arith,
        (
          omega arith,
          (
            omega arith,
            (
              omega arith,
              (
                omega arith,
                (
                  omega arith,
                  (
                    omega arith,
                    (
                      omega arith,
                      (
                        omega arith,
                        (
                          omega arith,
                          (
                            omega arith,
                            (
                              omega arith,
                              (
                                omega arith,
                                (omega arith, (omega arith, (omega arith, (omega arith, tt)))),
                              ),
                            ),
                          ),
                        ),
                      ),
                    ),
                  ),
                ),
              ),
            ),
          ),
        ),
      )
      tt (omega arith) (omega arith) (λ e. absurd (omega arith))

-- The frame that the request waits for arrives.
abbrev receiving : Tcpd ℕ
receiving = record idle { binded_sockets = listening ∷ []; acked_sockets = asking ∷ [] }

abbrev on_data : Tcpd ℕ → Option Arrivals
on_data t = some (record {
  front = false;
  data_at = λ fd. if fd == 5 then some (some (sent, local)) else none;
  ack_at = λ fd. none;
  timer = none;
})

abbrev state_after : Outcome (Unit {0} × Tcpd ℕ) → Tcpd ℕ
state_after (done p) = p.1
state_after (exits n) = idle
state_after blocks = idle

abbrev received : Tcpd ℕ
received = state_after (main_round machine on_data receiving)
