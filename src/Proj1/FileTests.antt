-- ===== src/Proj1/FileTests.antt =====
-- The theorems on SEND and on the applications of proj1 at concrete inputs.
use cse5462_network_programm.Base.{
  ℕ, ◌≡◌, ◌⊎◌, refl, sym, ap, true, false, List, [], ◌∷◌, ◌++◌, none, some, replicate, arith, map,
}
use cse5462_network_programm.Base.Int.{pos}
use cse5462_network_programm.Bytes.{le_bytes, copy_at}
use cse5462_network_programm.Ftp.{Files}
use cse5462_network_programm.Tcpd.Loop.{ascii}
use cse5462_network_programm.Proj1.Window.{window_full}
use cse5462_network_programm.Proj1.Daemon.{Daemon, Outgoing, Arrivals}
use cse5462_network_programm.Proj1.Daemon.Arms.{daemon_round, daemon_run}
use cse5462_network_programm.Proj1.Daemon.Exchange.{Turn, transfer}
use cse5462_network_programm.Proj1.Calls.{send_call}
use cse5462_network_programm.Proj1.Calls.Answered.{words, send_call_answered}
use cse5462_network_programm.Proj1.Files.{
  ended, client_main, client_run, client_sends, ini_file_info, read_loop, saved, process_request,
}
use cse5462_network_programm.Proj1.Files.Saved.{datagrams_of, client_transfer_saved}
use cse5462_network_programm.Proj1.Samples.{
  doubles, head, at_second, fresh, fresh-IsSound, fresh_empty, stuck, stuck-IsSound,
}

abbrev from_client : Arrivals
from_client = record {
  client_local = some (replicate 3 1);
  client_remote = none;
  server_remote_packet = none;
  now = at_second 5;
  stack = head;
  sent = true;
}

abbrev from_network : Arrivals
from_network = record from_client { client_local = none; client_remote = some head }

send_call_answered_example :
    (s' : Daemon ℕ) × (out : List Outgoing) × (s'' : Daemon ℕ) × (out' : List Outgoing)
    × (daemon_round doubles from_client stuck ≡ some (s', out))
    × (daemon_run doubles (from_network ∷ []) s' ≡ some (s'', out'))
    × (((window_full stuck.window_client ≡ false)
          × (send_call (replicate 3 1) false (pos 0) (words out)
              ≡ some (record {
                result = 3;
                blocking = false;
                datagrams = replicate 3 1 ∷ [];
                unread = [];
              })))
        ⊎ ((window_full stuck.window_client ≡ true)
            × (send_call (replicate 3 1) false (pos 0) (words out ++ words out') ≡ none)))
send_call_answered_example =
    send_call_answered doubles from_client (from_network ∷ []) (replicate 3 1) (pos 0) stuck
      stuck-IsSound refl (refl, tt) (omega arith) (omega arith)

-- One file, on a host that is found.
abbrev files : Files
files = record {
  stat_size = λ name. some 3;
  contents = λ name. some (7 ∷ 0 ∷ 9 ∷ []);
  host = λ name. some 1;
  can_write = λ name. true;
}

abbrev turn_of : List ℕ → Turn
turn_of d = record {
  datagram = d;
  sent_at = at_second 1;
  acked_at = at_second 2;
  stack = head;
  server_stack = head;
}

abbrev turns : List Turn
turns = turn_of (3 ∷ 0 ∷ 0 ∷ 0 ∷ []) ∷ turn_of (97 ∷ replicate 24 0) ∷ turn_of (7 ∷ 0 ∷ 9 ∷ []) ∷ []

sent_by_client :
    client_main files true ((104 ∷ []) ∷ (57 ∷ []) ∷ (97 ∷ []) ∷ [])
    ≡ ended 0 (map (λ turn. turn.datagram) turns)
unfolding client_main client_run client_sends ini_file_info read_loop le_bytes copy_at
sent_by_client = refl

client_transfer_saved_example :
    (s' : Daemon ℕ) × (l : List (List ℕ)) × (client_main files true
        ((104 ∷ []) ∷ (57 ∷ []) ∷ (97 ∷ []) ∷ [])
      ≡ ended 0 l)
    × (transfer doubles turns fresh fresh ≡ some (s', fresh, l))
    × (process_request (replicate 1000 0) true l
        ≡ saved (ascii "recvd_" ++ 97 ∷ []) (7 ∷ 0 ∷ 9 ∷ []) [])
    × (s'.window_client.num_empty ≡ 10)
client_transfer_saved_example =
    client_transfer_saved doubles files (104 ∷ []) (57 ∷ []) (97 ∷ []) (7 ∷ 0 ∷ 9 ∷ []) 1
      (replicate 1000 0) turns fresh fresh refl refl (omega arith) (omega arith) (omega arith)
      (omega arith, tt) (omega arith) fresh-IsSound fresh_empty
      (sym (ap datagrams_of sent_by_client))
