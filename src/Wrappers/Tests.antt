-- ===== src/Wrappers/Tests.antt =====
-- The calls of final/tcpudp.c on small inputs, and their theorems there.
use cse5462_network_programm.Base.{◌+◌, refl, true, [], ◌∷◌, some, arith, replicate}
use cse5462_network_programm.Base.Int.{pos}
use cse5462_network_programm.Tcpd.Front.{find_connected}
use cse5462_network_programm.Tcpd.Samples.{machine, local, half_sent, sending}
use cse5462_network_programm.Wrappers.{Caller, System}
use cse5462_network_programm.Wrappers.Requests.{SendServed, send_round_trip}

abbrev system : System
system = record {
  succeeds = λ _. true;
  fresh_fd = λ n. n + 3;
  localhost = some 1;
  atoi = λ _. 8001;
  htons = λ n. n;
}

abbrev caller : Caller
caller = record {
  calls = 0;
  sock = pos 3;
  tcpd_addr = local;
  buf = replicate 1000 0;
  sent = [];
  inbox = [];
}

send_round_trip_example : SendServed machine system half_sent (10 ∷ 11 ∷ []) local sending caller
unfolding find_connected
send_round_trip_example =
    send_round_trip machine system (λ _. refl) (λ _. refl) half_sent (10 ∷ 11 ∷ []) local sending
      caller (omega arith) (omega arith) refl
