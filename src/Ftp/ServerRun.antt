-- ===== src/Ftp/ServerRun.antt =====
-- A run of final/ftps.c: what the server asks for, and what it writes.
use cse5462_network_programm.Base.{
  ℕ, suc, ◌^◌, ◌≤◌, ◌<◌, ◌≡◌, ap, subst, ◌∙◌, true, List, [], ◌∷◌, ◌++◌, Option, some, arith,
  length, replicate, set, length-replicate, append-nil,
}
use cse5462_network_programm.Base.Int.{pos}
use cse5462_network_programm.Bytes.{le_bytes, copy_at, length-copy_at}
use cse5462_network_programm.Wire.{buf_len}
use cse5462_network_programm.Wrappers.{Caller, System, tcpd_msg, call_accept, call_recv, call_close}
use cse5462_network_programm.Wrappers.Runs.{
  Ran, pure-Ran, equal-Ran, >>=-Ran, call_recv-Ran, call_accept-Ran,
}
use cse5462_network_programm.Ftp.{Files, size_bytes}
use cse5462_network_programm.Ftp.Client.{name_bytes}
use cse5462_network_programm.Ftp.Server.{
  receive_file, receive_contents, receive_name, receive_size, serve_accepted, serve_client,
}
use cse5462_network_programm.Ftp.Chunks.{chunks, concat, concat-chunks}
use cse5462_network_programm.Ftp.Names.{
  size_of_bytes-size_bytes, length-size_bytes, NoZero, length-name_bytes, c_string-name_bytes,
}
use cse5462_network_programm.Ftp.Sending.{requests_of, narrow_small}
use cse5462_network_programm.Ftp.Receiving.{
  recv_answers, length-recv_answers, piece_requests, receive_file-Ran,
}
use cse5462_network_programm.Ftp.ClientRun.{payloads}

-- What ACCEPT sends.
abbrev pub accept_requests : ℕ → List (List ℕ)
accept_requests listener = tcpd_msg "ACCEPT" ∷ le_bytes 4 listener ∷ []

module _ (system : System) (works : (n : ℕ) → system.succeeds n ≡ true) where
  -- A RECV for just the length of the bytes that come.
  recv_exact :
      (sock len : ℕ) (buffer bytes : List ℕ) (rest : List (Option (List ℕ))) (w : Caller)
      → length bytes ≡ len
      → w.inbox ≡ some bytes ∷ rest
      → Ran w
          (call_recv system sock buffer len w)
          (pos len, copy_at 0 bytes buffer)
          (piece_requests sock bytes)
          rest
  recv_exact sock len buffer bytes rest w l e =
      subst
        (λ k.
          Ran w (call_recv system sock buffer k w) (pos k, copy_at 0 bytes buffer)
            (piece_requests sock bytes) rest)
        l (call_recv-Ran system works sock buffer bytes rest w e)

  receive_size-Ran :
      (sock size : ℕ) (rest : List (Option (List ℕ))) (w : Caller)
      → size < 2 ^ 32
      → w.inbox ≡ some (size_bytes size) ∷ rest
      → Ran w
          (receive_size system sock w)
          (size, copy_at 0 (size_bytes size) (replicate buf_len 0))
          (piece_requests sock (size_bytes size) ++ [])
          rest
  unfolding receive_size
  receive_size-Ran sock size rest w h e =
      >>=-Ran (call_recv system sock (replicate buf_len 0) 4) _ w
        (pos 4, copy_at 0 (size_bytes size) (replicate buf_len 0)) _
        (piece_requests sock (size_bytes size)) [] rest rest
        (recv_exact sock 4 (replicate buf_len 0) (size_bytes size) rest w (length-size_bytes size)
          e)
        (λ v read. rw (narrow_small 4 (omega arith)) (
          equal-Ran v _ _
            (ap (λ n. (n, copy_at 0 (size_bytes size) (replicate buf_len 0)))
              (size_of_bytes-size_bytes size (replicate buf_len 0) h))
            read))

  receive_name-Ran :
      (sock : ℕ) (name buf : List ℕ) (rest : List (Option (List ℕ))) (w : Caller)
      → NoZero name
      → length name ≤ 20
      → 20 < length buf
      → w.inbox ≡ some (name_bytes name) ∷ rest
      → Ran w
          (receive_name system sock buf w)
          (name, set (copy_at 0 (name_bytes name) buf) 20 0)
          (piece_requests sock (name_bytes name) ++ [])
          rest
  unfolding receive_name
  receive_name-Ran sock name buf rest w z h g e =
      let buf_in = set (copy_at 0 (name_bytes name) buf) 20 0 in
      >>=-Ran (call_recv system sock buf 20) _ w (pos 20, copy_at 0 (name_bytes name) buf) _
        (piece_requests sock (name_bytes name)) [] rest rest
        (recv_exact sock 20 buf (name_bytes name) rest w (length-name_bytes name h) e)
        (λ v read.
          rw (narrow_small 20 (omega arith))
            (equal-Ran v _ _ (ap (λ l. (l, buf_in)) (c_string-name_bytes name buf z h g)) read))

  receive_contents-Ran :
      (files : Files) (sock : ℕ) (name file buf : List ℕ) (w : Caller)
      → files.can_write name ≡ true
      → w.inbox ≡ recv_answers (chunks file) []
      → Ran w
          (receive_contents system files sock (length file) name buf w)
          (record { name = name; written = file })
          (requests_of (piece_requests sock) (chunks file) ++ [])
          []
  unfolding receive_contents call_close
  receive_contents-Ran files sock name file buf w opens e =
      let enough : length (chunks file) < suc (length w.inbox) =
        omega (arith, ap (length {0}) e, length-recv_answers (chunks file) []) in
      rw opens (
        >>=-Ran (λ s. receive_file system true (suc (length s.inbox)) sock (length file) buf [] s) _
          w (concat (chunks file)) _ (requests_of (piece_requests sock) (chunks file)) [] [] []
          (receive_file-Ran system works (suc (length w.inbox)) (length file) sock file buf [] [] w
            (omega arith) enough e)
          (λ v read.
            rw (concat-chunks file) (pure-Ran v (record { name = name; written = file }) read)))

  -- A server whose daemon accepts a client and brings the pieces of a file.
  pub serve_client-Ran :
      (files : Files) (listener session : ℕ) (name file : List ℕ) (w : Caller)
      → files.can_write name ≡ true
      → NoZero name
      → length name ≤ 20
      → length file < 2 ^ 32
      → session < 2 ^ 31
      → w.inbox ≡ some (le_bytes 4 session) ∷ recv_answers (payloads name file) []
      → Ran w
          (serve_client system files listener w)
          (record { name = name; written = file })
          (accept_requests listener ++ requests_of (piece_requests session) (payloads name file))
          []
  unfolding serve_client serve_accepted recv_answers requests_of
  serve_client-Ran files listener session name file w opens z short small known e =
      let zeros = replicate buf_len 0 in
      let buf = copy_at 0 (size_bytes (length file)) zeros in
      let room : length buf ≡ buf_len =
        length-copy_at 0 (size_bytes (length file)) zeros
          (omega (arith, length-size_bytes (length file), length-replicate {A = ℕ} buf_len 0))
        ∙ length-replicate {A = ℕ} buf_len 0 in
      >>=-Ran (call_accept system listener) _ w (pos session) _ (accept_requests listener) _ _ []
        (call_accept-Ran system works listener session _ w known e)
        (λ w1 e1.
          >>=-Ran (receive_size system session) _ w1 (length file, buf) _
            (piece_requests session (size_bytes (length file)) ++ [])
            (piece_requests session (name_bytes name)
              ++ requests_of (piece_requests session) (chunks file))
            _ [] (receive_size-Ran session (length file) _ w1 small e1)
            (λ w2 e2. rw (← append-nil (requests_of (piece_requests session) (chunks file))) (
              >>=-Ran (receive_name system session buf) _ w2
                (name, set (copy_at 0 (name_bytes name) buf) 20 0) _
                (piece_requests session (name_bytes name) ++ [])
                (requests_of (piece_requests session) (chunks file) ++ []) _ []
                (receive_name-Ran session name buf _ w2 z short (omega (arith, room)) e2)
                (λ w3 e3. receive_contents-Ran files session name file _ w3 opens e3))))
