-- ===== src/Ftp/Tests.antt =====
-- The client and the server of final/ on a file of three bytes.
use cse5462_network_programm.Base.{ℕ, ◌+◌, refl, true, List, [], ◌∷◌, some, arith}
use cse5462_network_programm.Base.Int.{pos}
use cse5462_network_programm.Tcpd.Samples.{local}
use cse5462_network_programm.Wrappers.{Caller, System}
use cse5462_network_programm.Ftp.{Files}
use cse5462_network_programm.Ftp.Transfer.{FileTransferred, Prepared, file_transfer}

abbrev host_system : System
host_system = record {
  succeeds = λ _. true;
  fresh_fd = λ n. n + 3;
  localhost = some 1;
  atoi = λ _. 8001;
  htons = λ n. n;
}

abbrev start : Caller
start = record { calls = 0; sock = pos 3; tcpd_addr = local; buf = []; sent = []; inbox = [] }

abbrev three : List ℕ
three = 10 ∷ 0 ∷ 12 ∷ []

abbrev files : Files
files = record {
  stat_size = λ _. some 3;
  contents = λ _. some three;
  host = λ _. some 7;
  can_write = λ _. true;
}

prepared : Prepared host_system files (115 ∷ []) (97 ∷ 46 ∷ 98 ∷ []) three 7
prepared = record { local_address = 1; here = refl; size = refl; found = refl; host = refl }

file_transfer_example :
    FileTransferred host_system host_system files files
      (115 ∷ [])
      (56 ∷ [])
      (97 ∷ 46 ∷ 98 ∷ [])
      three
      7
      5
      4
      99
      start
      start
file_transfer_example =
    file_transfer host_system host_system files files (115 ∷ []) (56 ∷ []) (97 ∷ 46 ∷ 98 ∷ []) three
      7 5 4 99 start start (λ _. refl) (λ _. refl) prepared refl (omega arith) (omega arith)
      (omega arith) (omega arith) (omega arith) (omega arith) (omega arith)
