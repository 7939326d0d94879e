-- ===== src/Ftp/Server.antt =====
-- final/ftps.c: the server takes a client, and writes the file that it sends.
use cse5462_network_programm.Base.{
  ℕ, zero, suc, ◌-◌, ◌%◌, ◌^◌, Bool, true, false, List, [], ◌∷◌, ◌++◌, ◌==◌, leb, ltb, take, length,
  replicate, set, if◌then◌else◌,
}
use cse5462_network_programm.Base.Int.{pos, negsuc}
use cse5462_network_programm.Base.Outcome.{exits, blocks, overrun}
use cse5462_network_programm.Wire.{buf_len}
use cse5462_network_programm.Tcpd.Loop.{ascii}
use cse5462_network_programm.Wrappers.{
  W, System, pure, ◌>>=◌, init_tcp_udp, call_socket, call_bind, call_listen, call_accept, call_recv,
  call_close,
}
use cse5462_network_programm.Ftp.{Files, null_file, size_of_bytes, narrow, int_bits, c_string}

-- A file that the server has written.
pub record Received : Type 0 where
  pub name : List ℕ
  pub written : List ℕ

-- The loop of lines 107 to 130, on fuel: the bytes written to the file, if it is open. `fwrite`
-- through a null pointer ends the process.
unfoldable pub receive_file : System → Bool → ℕ → ℕ → ℕ → List ℕ → List ℕ → W (List ℕ)
receive_file system opened zero sock left buf written = λ s. blocks
receive_file system opened (suc fuel) sock left buf written = elim (left == 0) [
  | true ↦ pure written
  | false ↦ call_recv system sock buf (if ltb left buf_len then left else buf_len) >>= λ r.
      elim (narrow r.0) [
        | negsuc n ↦ pure written
        | pos n ↦
            let r_val = if ltb left n then left else n in
            elim opened [
              | false ↦ (λ s. exits null_file)
              | true ↦
                  receive_file system opened fuel sock (left - r_val) r.1
                    (written ++ take r_val r.1)
            ]
      ]
]

-- Lines 102 to 135: the file is opened, written and closed; a round takes an answer of the daemon,
-- so that there are no more than those. `fclose` of a null pointer ends the process too.
unfoldable pub receive_contents : System → Files → ℕ → ℕ → List ℕ → List ℕ → W Received
receive_contents system files sock size name buf =
    (λ s. receive_file system (files.can_write name) (suc (length s.inbox)) sock size buf [] s)
    >>= λ written. call_close system sock >>= λ c. elim (files.can_write name) [
      | false ↦ (λ s. exits null_file)
      | true ↦ pure (record { name = name; written = written })
    ]

-- Lines 92 to 99: the name, ended by a zero behind what has come.
unfoldable pub receive_name : System → ℕ → List ℕ → W (List ℕ × List ℕ)
receive_name system sock buf = call_recv system sock buf 20 >>= λ r. elim (narrow r.0) [
  | negsuc n ↦ (λ s. exits 1)
  | pos n ↦ let buf_in = set r.1 n 0 in pure (c_string buf_in, buf_in)
]

-- Lines 80 to 89: the size.
unfoldable pub receive_size : System → ℕ → W (ℕ × List ℕ)
receive_size system sock = call_recv system sock (replicate buf_len 0) 4 >>= λ r.
    elim (narrow r.0) [ negsuc n ↦ (λ s. exits 1) | pos n ↦ pure (size_of_bytes r.1, r.1) ]

-- Lines 80 to 135, of the socket that ACCEPT has returned.
unfoldable pub serve_accepted : System → Files → ℕ → W Received
serve_accepted system files sock = receive_size system sock >>= λ size.
    receive_name system sock size.1 >>= λ name.
    receive_contents system files sock size.0 name.0 name.1

-- One round of the loop of `main`: one client.
unfoldable pub serve_client : System → Files → ℕ → W Received
serve_client system files listener = call_accept system listener >>= λ client. elim client [
  | negsuc zero ↦ (λ s. exits 1)
  | negsuc (suc n) ↦ serve_accepted system files (int_bits (negsuc (suc n)))
  | pos n ↦ serve_accepted system files n
]

-- Lines 39 to 59: the socket that the server listens on.
unfoldable pub ftps_start : System → List ℕ → W ℕ
ftps_start system port = init_tcp_udp system (ascii "8001") >>= λ u. call_socket system >>= λ fd.
    elim fd [
      | negsuc n ↦ (λ s. exits 1)
      | pos sock ↦
          call_bind system sock (record {
            sin_family = 2;
            sin_port = system.htons (system.atoi port % 2 ^ 16);
            sin_addr = 0;
          })
          >>= λ ret. elim ret [
            | negsuc n ↦ (λ s. exits 1)
            | pos n ↦ call_listen system sock 5 >>= λ l. pure sock
          ]
    ]

-- `main` of ftps.c up to its loop, with the words behind the program's name; `strcpy` of a port of 8
-- bytes goes behind its array.
unfoldable pub ftps : System → List (List ℕ) → W ℕ
ftps system [] = ftps_start system (ascii "8000")
ftps system (port ∷ []) =
    if leb 8 (length port) then (λ s. exits overrun) else ftps_start system port
ftps system (port ∷ word ∷ words) = λ s. exits 1
