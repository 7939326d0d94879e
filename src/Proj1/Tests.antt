-- ===== src/Proj1/Tests.antt =====
-- The theorems on proj1 at concrete inputs.
use cse5462_network_programm.Base.{
  ℕ, zero, suc, ◌+◌, ◌-◌, ◌*◌, ◌/◌, ◌%◌, ◌≡◌, refl, true, false, List, [], ◌∷◌, ◌++◌, none, some,
  replicate, arith, map,
}
use cse5462_network_programm.Proj1.{TrollHeader, header_bytes}
use cse5462_network_programm.Crc.Reference.{AreBytes}
use cse5462_network_programm.Bytes.{le_bytes}
use cse5462_network_programm.Proj1.Crc16.{crc16, check_crc}
use cse5462_network_programm.Proj1.Crc16.Register.{register_loop, crc16-register_loop}
use cse5462_network_programm.Proj1.Crc16.Errors.{check_crc_detects}
use cse5462_network_programm.Proj1.Window.{save_packet, ack_window}
use cse5462_network_programm.Proj1.Window.Queue.{
  IsWindow, contents, mark_first, drop_acked, save_packet_lem, ack_window_lem,
}
use cse5462_network_programm.Proj1.TimerList.{TimeNode}
use cse5462_network_programm.Proj1.Daemon.{
  Daemon, Outgoing, to_server_ftp, to_client_tcpd, Arrivals, server_remote, with_check, sum_of,
  get_rtt, record_seq, interval,
}
use cse5462_network_programm.Proj1.Daemon.Arms.{daemon_run}
use cse5462_network_programm.Proj1.Daemon.Full.{
  IsSound, NoPacket, daemon_run-IsSound, daemon_run_full,
}
use cse5462_network_programm.Proj1.Daemon.Exchange.{Turn, transfer, transfer_lem}
use cse5462_network_programm.Proj1.Daemon.Times.{NoneHas, recorded, get_rtt-record_seq}
use cse5462_network_programm.Proj1.Daemon.Garbled.{server_remote_garbled}
use cse5462_network_programm.Proj1.Samples.{
  doubles, head, at_second, full_window, two_sent, two_sent-IsWindow, fresh, fresh-IsSound, stuck,
  stuck-IsSound, fresh_empty, stuck_full, two_sent_free,
}

-- An acknowledgement and a packet come, and then a datagram of the client.
abbrev rounds : List Arrivals
rounds =
    record {
      client_local = none;
      client_remote = some head;
      server_remote_packet = some head;
      now = at_second 4;
      stack = head;
      sent = true;
    }
    ∷ record {
      client_local = some (replicate 3 1);
      client_remote = none;
      server_remote_packet = none;
      now = at_second 5;
      stack = head;
      sent = true;
    }
    ∷ []

daemon_run_full_example :
    (s' : Daemon ℕ) × (out : List Outgoing) × (daemon_run doubles rounds stuck ≡ some (s', out))
    × (s'.window_client ≡ full_window)
    × NoPacket out
daemon_run_full_example = daemon_run_full doubles rounds stuck stuck-IsSound stuck_full

daemon_run-IsSound_example :
    (s' : Daemon ℕ) × (out : List Outgoing) × (daemon_run doubles rounds stuck ≡ some (s', out))
    × IsSound s'
daemon_run-IsSound_example =
    daemon_run-IsSound doubles rounds stuck stuck-IsSound (tt, (omega arith, tt))

abbrev turns : List Turn
turns =
    record {
      datagram = 7 ∷ 8 ∷ [];
      sent_at = at_second 1;
      acked_at = at_second 2;
      stack = head;
      server_stack = head;
    }
    ∷ record {
      datagram = replicate 800 1;
      sent_at = at_second 3;
      acked_at = at_second 4;
      stack = head;
      server_stack = head;
    }
    ∷ []

transfer_lem_example :
    (s' : Daemon ℕ) × (transfer doubles turns fresh fresh
      ≡ some (s', fresh, map (λ turn. turn.datagram) turns))
    × IsSound s'
    × (s'.window_client.num_empty ≡ 10)
transfer_lem_example =
    transfer_lem doubles turns fresh fresh fresh-IsSound fresh_empty
      (omega arith, (omega arith, tt))

ack_window_lem_example :
    IsWindow (ack_window head 0 two_sent)
    × (contents head (ack_window head 0 two_sent)
        ≡ drop_acked (mark_first 0 (contents head two_sent)))
ack_window_lem_example = ack_window_lem head 0 two_sent two_sent-IsWindow two_sent_free

save_packet_lem_example :
    IsWindow (save_packet head two_sent)
    × (contents head (save_packet head two_sent) ≡ contents head two_sent ++ (head, 0) ∷ [])
save_packet_lem_example = save_packet_lem head head two_sent two_sent-IsWindow two_sent_free

crc16-register_loop_example :
    let r = register_loop 0xffff (72 ∷ 105 ∷ []) in
    crc16 (72 ∷ 105 ∷ []) ≡ (255 - r % 256) * 256 + (255 - r / 256)
crc16-register_loop_example = crc16-register_loop 72 (105 ∷ []) (omega arith, (omega arith, tt))

check_crc_detects_example : check_crc (crc16 (1 ∷ 2 ∷ 3 ∷ [])) (crc16 (1 ∷ 5 ∷ 3 ∷ [])) ≡ false
check_crc_detects_example =
    check_crc_detects (1 ∷ []) 2 5 (3 ∷ []) (omega arith, tt) (omega arith, tt) (omega arith)
      (omega arith) (λ e. omega arith)

abbrev timers : List TimeNode
timers =
    record { id = 1; expire_time = at_second 5 } ∷ record { id = 2; expire_time = at_second 9 } ∷ []

none_stuck : (n : ℕ) → NoneHas 5 (replicate n (record { start_time = at_second 0; seq = 0 }))
none_stuck zero = tt
none_stuck (suc n) = (λ e. omega arith, none_stuck n)

get_rtt-record_seq_example :
    get_rtt doubles
      (at_second 9)
      5
      (recorded ((at_second 7, 6) ∷ (at_second 8, 7) ∷ []) (record_seq (at_second 7) 5 stuck))
    ≡ interval doubles (at_second 7) (at_second 9)
get_rtt-record_seq_example =
    get_rtt-record_seq doubles (at_second 9) (at_second 7) 5
      ((at_second 7, 6) ∷ (at_second 8, 7) ∷ []) stuck stuck-IsSound (none_stuck 22) (omega arith)
      (omega arith, (omega arith, tt))

abbrev packet : TrollHeader
packet = record head { body = 1 ∷ 2 ∷ 3 ∷ [] }

zeros-AreBytes : (n : ℕ) → AreBytes (replicate n 0)
zeros-AreBytes zero = tt
zeros-AreBytes (suc n) = (omega arith, zeros-AreBytes n)

head-AreBytes : AreBytes (header_bytes (record packet.tcp_header { check = 0 }))
unfolding header_bytes le_bytes
head-AreBytes = zeros-AreBytes 20

server_remote_garbled_example :
    let garbled = record (with_check packet) { body = 1 ∷ 5 ∷ 3 ∷ [] } in
    (check_crc garbled.tcp_header.check (sum_of garbled) ≡ false)
    × ((ack : TrollHeader) × (server_remote true head garbled
          ≡ to_server_ftp (1 ∷ 5 ∷ 3 ∷ []) ∷ to_client_tcpd ack ∷ [])
        × (server_remote true head (with_check packet)
            ≡ to_server_ftp (1 ∷ 2 ∷ 3 ∷ []) ∷ to_client_tcpd ack ∷ []))
server_remote_garbled_example =
    server_remote_garbled head packet (1 ∷ []) 2 5 (3 ∷ []) refl head-AreBytes (omega arith, tt)
      (omega arith, tt) (omega arith) (omega arith) (λ e. omega arith)
