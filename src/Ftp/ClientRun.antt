-- ===== src/Ftp/ClientRun.antt =====
-- A run of final/ftpc.c: what the client sends for a file.
use cse5462_network_programm.Base.{
  ℕ, suc, ◌%◌, ◌^◌, ◌≤◌, ◌<◌, ◌≡◌, refl, sym, ap, subst, true, false, leb, List, [], ◌∷◌, ◌++◌,
  Option, some, arith, length, append-nil,
}
use cse5462_network_programm.Base.Int.{pos, negsuc}
use cse5462_network_programm.Base.Outcome.{Outcome, exits}
use cse5462_network_programm.Bytes.{le_bytes}
use cse5462_network_programm.Wire.{SockAddr}
use cse5462_network_programm.Tcpd.Loop.{ascii}
use cse5462_network_programm.Wrappers.{
  Caller, System, W, ◌>>=◌, tcpd_msg, addr_bytes, init_tcp_udp, call_socket, call_connect,
  call_send, call_close,
}
use cse5462_network_programm.Wrappers.Requests.{send_requests}
use cse5462_network_programm.Wrappers.Runs.{
  Ran, pure-Ran, >>=-Ran, call_send-Ran, call_socket-Ran, call_connect-Ran,
}
use cse5462_network_programm.Ftp.{Files, size_bytes}
use cse5462_network_programm.Ftp.Client.{
  name_bytes, send_file, send_contents, send_head, file_size, connect_host, ftpc_run, ftpc,
  strcpy_overruns,
}
use cse5462_network_programm.Ftp.Chunks.{chunks}
use cse5462_network_programm.Ftp.Names.{length-size_bytes, length-name_bytes}
use cse5462_network_programm.Ftp.Sending.{
  requests_of, send_answers, narrow_small, length-send_answers, send_file-Ran,
}

-- What goes through the connection for a file: its size, its name and its pieces.
abbrev pub payloads : List ℕ → List ℕ → List (List ℕ)
payloads name file = size_bytes (length file) ∷ name_bytes name ∷ chunks file

-- The address that the client connects to.
abbrev pub server_addr : System → ℕ → List ℕ → SockAddr
server_addr system address port = record {
  sin_family = 2;
  sin_port = system.htons (system.atoi port % 2 ^ 16);
  sin_addr = address;
}

-- What CONNECT sends.
abbrev pub connect_requests : ℕ → SockAddr → List (List ℕ)
connect_requests sock addr = tcpd_msg "CONNECT" ∷ le_bytes 4 sock ∷ addr_bytes addr ∷ []

module _ (system : System) (works : (n : ℕ) → system.succeeds n ≡ true) where
  init-Ran :
      (port : List ℕ) (address : ℕ) (rest : List (Option (List ℕ))) (w : Caller)
      → system.localhost ≡ some address
      → w.inbox ≡ rest
      → Ran w (init_tcp_udp system port w) tt [] rest
  unfolding init_tcp_udp
  init-Ran port address rest w h e = record {
    after = record w {
      calls = suc w.calls;
      sock = pos (system.fresh_fd w.calls);
      tcpd_addr = record {
        sin_family = 2;
        sin_port = system.htons (system.atoi port % 2 ^ 16);
        sin_addr = address;
      };
    };
    ran = rw (works w.calls, h) refl;
    sent = sym (append-nil w.sent);
    inbox = e;
  }

  send_head-Ran :
      (sock size : ℕ) (name : List ℕ) (rest : List (Option (List ℕ))) (w : Caller)
      → length name ≤ 20
      → w.inbox ≡ send_answers (size_bytes size ∷ name_bytes name ∷ []) rest
      → Ran w
          (send_head system sock size name w)
          tt
          (requests_of (send_requests sock) (size_bytes size ∷ name_bytes name ∷ []))
          rest
  unfolding send_head send_answers requests_of
  send_head-Ran sock size name rest w h e =
      let four : length (size_bytes size) < 2 ^ 31 = omega (arith, length-size_bytes size) in
      let twenty : length (name_bytes name) < 2 ^ 31 = omega (arith, length-name_bytes name h) in
      >>=-Ran (call_send system sock (size_bytes size)) _ w (pos (length (size_bytes size))) tt
        (send_requests sock (size_bytes size)) (send_requests sock (name_bytes name) ++ [])
        (some (le_bytes 4 (length (name_bytes name))) ∷ rest) rest
        (call_send-Ran system works sock _ _ _ w (omega (arith, four)) e)
        (λ v read. rw (narrow_small (length (size_bytes size)) four) (
          >>=-Ran (call_send system sock (name_bytes name)) _ v (pos (length (name_bytes name))) tt
            (send_requests sock (name_bytes name)) [] rest rest
            (call_send-Ran system works sock _ _ rest v (omega (arith, twenty)) read)
            (λ u empty. rw (narrow_small (length (name_bytes name)) twenty) (pure-Ran u tt empty))))

  send_contents-Ran :
      (sock : ℕ) (file : List ℕ) (w : Caller)
      → w.inbox ≡ send_answers (chunks file) []
      → Ran w
          (send_contents system sock (some file) (length file) w)
          0
          (requests_of (send_requests sock) (chunks file))
          []
  unfolding send_contents call_close
  send_contents-Ran sock file w e =
      let enough : length (chunks file) < suc (length w.inbox) =
        omega (arith, ap (length {0}) e, length-send_answers (chunks file) []) in
      rw (← append-nil (requests_of (send_requests sock) (chunks file))) (
        >>=-Ran (λ s. send_file system (suc (length s.inbox)) sock file (length file) s) _ w tt 0
          (requests_of (send_requests sock) (chunks file)) [] [] []
          (send_file-Ran system works (suc (length w.inbox)) (length file) sock file [] w
            (omega arith) enough e)
          (λ v read. pure-Ran v 0 read))

  connect_host-Ran :
      (files : Files) (sock address : ℕ) (server port : List ℕ) (rest : List (Option (List ℕ)))
      (w : Caller)
      → files.host server ≡ some address
      → w.inbox ≡ some (le_bytes 4 0) ∷ rest
      → Ran w
          (connect_host system files sock server port w)
          tt
          (connect_requests sock (server_addr system address port))
          rest
  unfolding connect_host
  connect_host-Ran files sock address server port rest w h e =
      rw (h, connect_host, ← append-nil (connect_requests sock (server_addr system address port)))
        (>>=-Ran (call_connect system sock (server_addr system address port)) _ w (pos 0) tt
          (connect_requests sock (server_addr system address port)) [] rest rest
          (call_connect-Ran system works sock 0 (server_addr system address port) rest w
            (omega arith) e)
          (λ v read. pure-Ran v tt read))

  ftpc_run-Ran :
      (files : Files) (server port name file : List ℕ) (local_address address sock : ℕ) (w : Caller)
      → system.localhost ≡ some local_address
      → files.stat_size name ≡ some (length file)
      → files.contents name ≡ some file
      → files.host server ≡ some address
      → length name ≤ 20
      → sock < 2 ^ 31
      → w.inbox
        ≡ some (le_bytes 4 sock) ∷ some (le_bytes 4 0) ∷ send_answers (payloads name file) []
      → Ran w
          (ftpc_run system files server port name w)
          0
          ((tcpd_msg "SOCKET" ∷ connect_requests sock (server_addr system address port))
            ++ requests_of (send_requests sock) (payloads name file))
          []
  unfolding ftpc_run file_size send_answers requests_of
  ftpc_run-Ran files server port name file local_address address sock w here size found host short
        fd e =
      subst (λ n. Sends (run n (files.contents name) w)) (sym known)
        (subst (λ c. Sends (run (length file) c w)) (sym found)
          (>>=-Ran (init_tcp_udp system (ascii "8101")) _ w tt 0 [] _ _ []
            (init-Ran (ascii "8101") local_address _ w here e)
            (λ w1 e1.
              >>=-Ran (call_socket system) _ w1 (pos sock) 0 (tcpd_msg "SOCKET" ∷ []) _ _ []
                (call_socket-Ran system works sock _ w1 fd e1)
                (λ w2 e2.
                  >>=-Ran (connect_host system files sock server port) _ w2 tt 0
                    (connect_requests sock (server_addr system address port)) _ _ []
                    (connect_host-Ran files sock address server port _ w2 host e2)
                    (λ w3 e3.
                      >>=-Ran (send_head system sock (length file) name) _ w3 tt 0
                        (requests_of (send_requests sock)
                          (size_bytes (length file) ∷ name_bytes name ∷ []))
                        (requests_of (send_requests sock) (chunks file))
                        (send_answers (chunks file) []) []
                        (send_head-Ran sock (length file) name (send_answers (chunks file) []) w3
                          short e3)
                        (λ w4 e4. send_contents-Ran sock file w4 e4))))))
    where
      known : file_size files name ≡ length file
      known = rw (size, file_size) refl

      Sends : Outcome (ℕ × Caller) → Type 0
      Sends r =
          Ran w r 0
            ((tcpd_msg "SOCKET" ∷ connect_requests sock (server_addr system address port))
              ++ requests_of (send_requests sock) (payloads name file))
            []

      run : ℕ → Option (List ℕ) → W ℕ
      run n c = init_tcp_udp system (ascii "8101") >>= λ u. call_socket system >>= λ x. elim x [
        | negsuc k ↦ (λ s. exits 1)
        | pos k ↦ connect_host system files k server port >>= λ v.
            send_head system k n name >>= λ h. send_contents system k c n
      ]

  ftpc_fits :
      (files : Files) (server port name : List ℕ)
      → length server < 260
      → length port < 8
      → length name < 260
      → ftpc system files (server ∷ port ∷ name ∷ []) ≡ ftpc_run system files server port name
  unfolding ftpc strcpy_overruns
  ftpc_fits files server port name a b c =
      let server_fits : leb 260 (length server) ≡ false = ground arith in
      let port_fits : leb 8 (length port) ≡ false = ground arith in
      let name_fits : leb 260 (length name) ≡ false = ground arith in
      rw (server_fits, port_fits, name_fits) refl

  -- A client whose daemon answers each call, and what it sends for the file.
  pub ftpc-Ran :
      (files : Files) (server port name file : List ℕ) (local_address address sock : ℕ) (w : Caller)
      → system.localhost ≡ some local_address
      → files.stat_size name ≡ some (length file)
      → files.contents name ≡ some file
      → files.host server ≡ some address
      → length server < 260
      → length port < 8
      → length name ≤ 20
      → sock < 2 ^ 31
      → w.inbox
        ≡ some (le_bytes 4 sock) ∷ some (le_bytes 4 0) ∷ send_answers (payloads name file) []
      → Ran w
          (ftpc system files (server ∷ port ∷ name ∷ []) w)
          0
          ((tcpd_msg "SOCKET" ∷ connect_requests sock (server_addr system address port))
            ++ requests_of (send_requests sock) (payloads name file))
          []
  ftpc-Ran files server port name file local_address address sock w here size found host a b short
        fd e =
      subst
        (λ f.
          Ran w (f w) 0
            ((tcpd_msg "SOCKET" ∷ connect_requests sock (server_addr system address port))
              ++ requests_of (send_requests sock) (payloads name file))
            [])
        (sym (ftpc_fits files server port name a b (omega (arith, short))))
        (ftpc_run-Ran files server port name file local_address address sock w here size found host
          short fd e)
