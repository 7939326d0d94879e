-- ===== src/Ftp/Client.antt =====
-- final/ftpc.c: the client sends the size, the name and the bytes of one file.
use cse5462_network_programm.Base.{
  ℕ, zero, suc, ◌-◌, ◌%◌, ◌^◌, Bool, true, false, List, [], ◌∷◌, Option, none, some, ◌==◌, ◌||◌,
  leb, ltb, take, drop, length, replicate, if◌then◌else◌,
}
use cse5462_network_programm.Base.Int.{pos, negsuc}
use cse5462_network_programm.Base.Outcome.{exits, blocks, overrun}
use cse5462_network_programm.Bytes.{copy_at}
use cse5462_network_programm.Wire.{buf_len}
use cse5462_network_programm.Tcpd.Loop.{ascii}
use cse5462_network_programm.Wrappers.{
  W, System, pure, ◌>>=◌, init_tcp_udp, call_socket, call_connect, call_send, call_close,
}
use cse5462_network_programm.Ftp.{Files, null_file, size_bytes, narrow}

-- The bytes of the name that are sent: `strcpy` into a buffer of zeros, of which 20 go.
unfoldable pub name_bytes : List ℕ → List ℕ
name_bytes name = take 20 (copy_at 0 name (replicate buf_len 0))

-- The loop of lines 105 to 124, on fuel: each round reads at most `buf_len` bytes and sends them.
unfoldable pub send_file : System → ℕ → ℕ → List ℕ → ℕ → W (Unit {0})
send_file system zero sock file left = λ s. blocks
send_file system (suc fuel) sock file left = elim (left == 0) [
  | true ↦ pure tt
  | false ↦
      let chunk = take buf_len file in
      let r_val = if ltb left (length chunk) then left else length chunk in
      call_send system sock (take r_val chunk) >>= λ w_val. elim (narrow w_val) [
        | negsuc n ↦ (λ s. exits 1)
        | pos n ↦ send_file system fuel sock (drop buf_len file) (left - r_val)
      ]
]

-- Lines 104 to 128; a round takes an answer of the daemon, so that there are no more than those. A
-- file that cannot be opened is a null pointer, which `fread` or `fclose` goes through.
unfoldable pub send_contents : System → ℕ → Option (List ℕ) → ℕ → W ℕ
send_contents system sock none size = λ s. exits null_file
send_contents system sock (some file) size =
    (λ s. send_file system (suc (length s.inbox)) sock file size s) >>= λ u.
    call_close system sock >>= λ c. pure 0

-- Lines 82 to 100: the size and the name.
unfoldable pub send_head : System → ℕ → ℕ → List ℕ → W (Unit {0})
send_head system sock size name = call_send system sock (size_bytes size) >>= λ w_val.
    elim (narrow w_val) [
      | negsuc n ↦ (λ s. exits 1)
      | pos n ↦ call_send system sock (name_bytes name) >>= λ v. elim (narrow v) [
        | negsuc k ↦ (λ s. exits 1)
        | pos k ↦ pure tt
      ]
    ]

-- `file_size`, an `unsigned long` that begins as -1.
unfoldable pub file_size : Files → List ℕ → ℕ
file_size files name = elim (files.stat_size name) [ none ↦ 2 ^ 64 - 1 | some n ↦ n ]

-- Lines 63 to 80: the host is found and the socket connected to it.
unfoldable pub connect_host : System → Files → ℕ → List ℕ → List ℕ → W (Unit {0})
connect_host system files sock server port = elim (files.host server) [
  | none ↦ (λ s. exits 2)
  | some address ↦
      call_connect system sock (record {
        sin_family = 2;
        sin_port = system.htons (system.atoi port % 2 ^ 16);
        sin_addr = address;
      })
      >>= λ ret. elim ret [ negsuc n ↦ (λ s. exits 1) | pos n ↦ pure tt ]
]

-- Lines 45 to 128, for the three arguments of the command line.
unfoldable pub ftpc_run : System → Files → List ℕ → List ℕ → List ℕ → W ℕ
ftpc_run system files server port name = init_tcp_udp system (ascii "8101") >>= λ u.
    call_socket system >>= λ fd. elim fd [
      | negsuc n ↦ (λ s. exits 1)
      | pos sock ↦ connect_host system files sock server port >>= λ c.
          send_head system sock (file_size files name) name >>= λ h.
          send_contents system sock (files.contents name) (file_size files name)
    ]

-- Lines 36 to 38: `strcpy` of a word into an array of `size` bytes, its zero too, goes behind it.
unfoldable pub strcpy_overruns : ℕ → List ℕ → Bool
strcpy_overruns size word = leb size (length word)

-- `main` of ftpc.c, with the words of the command line behind the program's name.
unfoldable pub ftpc : System → Files → List (List ℕ) → W ℕ
ftpc system files (server ∷ port ∷ name ∷ []) =
    if strcpy_overruns 260 server || (strcpy_overruns 8 port || strcpy_overruns 260 name)
    then (λ s. exits overrun)
    else ftpc_run system files server port name
ftpc system files _ = λ s. exits 1
