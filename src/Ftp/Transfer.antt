-- ===== src/Ftp/Transfer.antt =====
-- A file transfer by final/ftpc.c and final/ftps.c: what the client sends is what the server asks for,
-- and the server writes the client's file.
use cse5462_network_programm.Base.{
  ℕ, ◌^◌, ◌≤◌, ◌<◌, ◌≡◌, refl, true, List, [], ◌∷◌, ◌++◌, some, length,
}
use cse5462_network_programm.Bytes.{le_bytes}
use cse5462_network_programm.Wrappers.{Caller, System, tcpd_msg}
use cse5462_network_programm.Wrappers.Requests.{send_requests}
use cse5462_network_programm.Wrappers.Runs.{Ran}
use cse5462_network_programm.Ftp.{Files, size_bytes}
use cse5462_network_programm.Ftp.Client.{name_bytes, ftpc}
use cse5462_network_programm.Ftp.Server.{serve_client}
use cse5462_network_programm.Ftp.Chunks.{chunks, concat, concat-chunks}
use cse5462_network_programm.Ftp.Names.{NoZero}
use cse5462_network_programm.Ftp.Sending.{requests_of, send_answers}
use cse5462_network_programm.Ftp.Receiving.{recv_answers, piece_requests}
use cse5462_network_programm.Ftp.ClientRun.{payloads, server_addr, connect_requests, ftpc-Ran}
use cse5462_network_programm.Ftp.ServerRun.{accept_requests, serve_client-Ran}

-- A client and a server of which each is answered by its daemon: each of the client's SENDs by the
-- number of its bytes, and each of the server's RECVs by what the client has sent with one SEND.
pub record FileTransferred (system system' : System) (files files' : Files)
    (server port name file : List ℕ) (address sock listener session : ℕ) (w w' : Caller)
    : Type 0 where
  pub payloads : List (List ℕ)
  pub pieces : List (List ℕ)
  pub head : payloads ≡ size_bytes (length file) ∷ name_bytes name ∷ pieces
  pub whole : concat pieces ≡ file
  pub client :
      let w1 = record w {
        inbox = some (le_bytes 4 sock) ∷ some (le_bytes 4 0) ∷ send_answers payloads [];
      } in
      Ran w1
        (ftpc system files (server ∷ port ∷ name ∷ []) w1)
        0
        ((tcpd_msg "SOCKET" ∷ connect_requests sock (server_addr system address port))
          ++ requests_of (send_requests sock) payloads)
        []
  pub served :
      let w1 = record w' { inbox = some (le_bytes 4 session) ∷ recv_answers payloads [] } in
      Ran w1
        (serve_client system' files' listener w1)
        (record { name = name; written = file })
        (accept_requests listener ++ requests_of (piece_requests session) payloads)
        []

-- What the client knows of the file, its server and its own host.
pub record Prepared (system : System) (files : Files) (server name file : List ℕ) (address : ℕ)
    : Type 0 where
  pub local_address : ℕ
  pub here : system.localhost ≡ some local_address
  pub size : files.stat_size name ≡ some (length file)
  pub found : files.contents name ≡ some file
  pub host : files.host server ≡ some address

-- A transfer of a file of less than 2^32 bytes under a name of at most 20 bytes: the client ends with
-- code 0 and has sent the size, the name and the pieces of the file with one SEND each; the server
-- asks with each RECV for just the length of the client's next piece, and, given these pieces, writes
-- exactly the client's file under the client's name. It is supposed that the local hosts and the
-- server are found, that the files can be opened, that every datagram can be sent, that the
-- descriptor and the session are less than 2^31, that the name has no zero byte, that the server's
-- name has less than 260 bytes and the port less than 8, which `strcpy` has room for, and that each
-- daemon answers with success: SOCKET with the descriptor, CONNECT with 0, each SEND with the number
-- of its bytes, ACCEPT with the session, and each RECV with the bytes of one SEND.
pub file_transfer :
    (system system' : System) (files files' : Files) (server port name file : List ℕ)
    (address sock listener session : ℕ) (w w' : Caller)
    → ((n : ℕ) → system.succeeds n ≡ true)
    → ((n : ℕ) → system'.succeeds n ≡ true)
    → Prepared system files server name file address
    → files'.can_write name ≡ true
    → NoZero name
    → length server < 260
    → length port < 8
    → length name ≤ 20
    → length file < 2 ^ 32
    → sock < 2 ^ 31
    → session < 2 ^ 31
    → FileTransferred system system' files files' server port name file address sock listener
        session w w'
file_transfer system system' files files' server port name file address sock listener session w w'
      works works' ready opens z server_fits port_fits short small fd known =
    record {
      payloads = payloads name file;
      pieces = chunks file;
      head = refl;
      whole = concat-chunks file;
      client =
          ftpc-Ran system works files server port name file ready.local_address address sock _
            ready.here ready.size ready.found ready.host server_fits port_fits short fd refl;
      served =
          serve_client-Ran system' works' files' listener session name file _ opens z short small
            known refl;
    }
