-- ===== src/Wrappers/Requests.antt =====
-- A call of final/tcpudp.c and the daemon's process_tcpd_message fit together: SEND.
use cse5462_network_programm.Base.{
  ℕ, suc, ◌+◌, ◌^◌, ◌≤◌, ◌<◌, ◌≡◌, refl, ap, ◌∙◌, true, false, List, [], ◌∷◌, ◌++◌, map, Option,
  some, take, length, ltb, ◌==◌, if◌then◌else◌, arith, append_assoc, replicate,
}
use cse5462_network_programm.Base.Int.{pos, ◌+ℤ◌}
use cse5462_network_programm.Base.Outcome.{done}
use cse5462_network_programm.Bytes.{
  le_bytes, of_bytes, copy_at, u32, take-copy_at, length-le_bytes, of_bytes-le_bytes_four,
  of_bytes-le_bytes_eight,
}
use cse5462_network_programm.Tcpd.Acks.{set_connected}
use cse5462_network_programm.Tcpd.Delivery.{Carries}
use cse5462_network_programm.Tcpd.Frames.{make_message_lem}
use cse5462_network_programm.Wire.{TrollMessage, message_intact, SockAddr, buf_len}
use cse5462_network_programm.Tcpd.{Tcpd, Machine, Datagram, ConnectedSock, to_front}
use cse5462_network_programm.Tcpd.Kernel.{recv_buf, recv_front, malloc, send_or_exit, sendto}
use cse5462_network_programm.Tcpd.Front.{
  tcpd_send, send_to, reply, find_connected, queue_message, make_message,
}
use cse5462_network_programm.Tcpd.Loop.{process_tcpd_message, dispatch, recv_msg, str_is}
use cse5462_network_programm.Wrappers.{
  Caller, System, call_send, send_tcpd, recv_number, recv_into, tcpd_msg,
}

pub take_all : (bytes : List ℕ) → take (length bytes) bytes ≡ bytes
take_all [] = refl
take_all (b ∷ bytes) = ap (◌∷◌ b) (take_all bytes)

pub copied_back : (bytes array : List ℕ) → take (length bytes) (copy_at 0 bytes array) ≡ bytes
copied_back bytes array =
    let z : length bytes ≡ 0 + length bytes = omega arith in
    ap (λ k. take k (copy_at 0 bytes array)) z ∙ take-copy_at 0 bytes array (omega arith)

-- The daemon with these datagrams of one application before it.
abbrev pub with_inbox :
    {F : Type 0} → List (List ℕ) → SockAddr → List (Option Datagram) → Tcpd F → Tcpd F
with_inbox requests front rest s = record s {
  inbox = map (λ b. some (record { bytes = b; from_addr = front })) requests ++ rest;
}

recv_buf_lem :
    {F : Type 0} (bytes : List ℕ) (front : SockAddr) (rest : List (Option Datagram)) (s : Tcpd F)
    → recv_buf (length bytes) (with_inbox (bytes ∷ []) front rest s)
      ≡ done ((bytes, front), record s { inbox = rest; buf = copy_at 0 bytes s.buf })
unfolding recv_buf
recv_buf_lem bytes front rest s = rw (take_all bytes, copied_back bytes s.buf) refl

recv_front_lem :
    {F : Type 0} (k : ℕ) (bytes : List ℕ) (front : SockAddr) (rest : List (Option Datagram))
    (s : Tcpd F)
    → length bytes ≡ k
    → recv_front k (with_inbox (bytes ∷ []) front rest s)
      ≡ done (
        (bytes, front),
        record s { inbox = rest; buf = copy_at 0 bytes (copy_at 0 (replicate k 0) s.buf) },
      )
unfolding recv_front
recv_front_lem k bytes front rest s e = rw (← e) (
    recv_buf_lem bytes front rest (record s { buf = copy_at 0 (replicate (length bytes) 0) s.buf }))

-- What SEND sends to the daemon.
abbrev pub send_requests : ℕ → List ℕ → List (List ℕ)
send_requests sockfd bytes =
    tcpd_msg "SEND" ∷ le_bytes 4 sockfd ∷ le_bytes 8 (length bytes) ∷ bytes ∷ []

module _ {F : Type 0} (env : Machine F) (succeeds : (n : ℕ) → env.succeeds n ≡ true) where
  tcpd_send_lem :
      (c : ConnectedSock) (bytes : List ℕ) (front : SockAddr) (rest : List (Option Datagram))
      (s : Tcpd F)
      → c.socket_fd < 2 ^ 32
      → length bytes ≤ buf_len
      → find_connected c.socket_fd s.connected_sockets ≡ some c
      → (fresh : List ℕ) × (s' : Tcpd F) × (tcpd_send env front (
            with_inbox
              (le_bytes 4 c.socket_fd ∷ le_bytes 8 (length bytes) ∷ bytes ∷ [])
              front
              rest
              s)
          ≡ done (tt, s'))
        × (s'.inbox ≡ rest)
        × (s'.log ≡ s.log ++ to_front (le_bytes 4 (u32 (length bytes))) (some front) ∷ [])
        × (s'.connected_sockets ≡ (queue_message c bytes (length bytes) fresh s).connected_sockets)
        × (s'.in_buffer_packages ≡ s.in_buffer_packages +ℤ pos 1)
        × (s'.acked_sockets ≡ s.acked_sockets)
        × (s'.waiting_ack_sockets ≡ s.waiting_ack_sockets)
        × (s'.binded_sockets ≡ s.binded_sockets)
  unfolding tcpd_send send_to reply send_or_exit sendto malloc queue_message
  tcpd_send_lem c bytes front rest s fd_small fits found =
      let r2 : List (Option Datagram) =
        some (record { bytes = le_bytes 8 (length bytes); from_addr = front })
        ∷ some (record { bytes = bytes; from_addr = front })
        ∷ rest in
      let r3 : List (Option Datagram) = some (record { bytes = bytes; from_addr = front }) ∷ rest in
      let b1 : List ℕ = copy_at 0 (le_bytes 4 c.socket_fd) (copy_at 0 (replicate 4 0) s.buf) in
      let b2 : List ℕ = copy_at 0 (le_bytes 8 (length bytes)) (copy_at 0 (replicate 8 0) b1) in
      let b3 : List ℕ = copy_at 0 bytes b2 in
      let fd : of_bytes (le_bytes 4 c.socket_fd) ≡ c.socket_fd =
        of_bytes-le_bytes_four c.socket_fd fd_small in
      let len : of_bytes (le_bytes 8 (length bytes)) ≡ length bytes =
        of_bytes-le_bytes_eight (length bytes) (omega (arith, fits)) in
      let t : Tcpd F =
        queue_message c bytes (length bytes) (env.fresh_bytes s.calls)
          (record s { calls = suc s.calls; inbox = rest; buf = b3 }) in
      let short : ltb buf_len (length bytes) ≡ false = ground arith in
      (
        env.fresh_bytes s.calls,
        record t {
          calls = suc t.calls;
          log = s.log ++ to_front (le_bytes 4 (u32 (length bytes))) (some front) ∷ [];
        },
        rw
            (
              recv_front_lem 4 (le_bytes 4 c.socket_fd) front r2 s (length-le_bytes 4 c.socket_fd),
              recv_front_lem 8 (le_bytes 8 (length bytes)) front r3
                  (record s { inbox = r2; buf = b1 }) (length-le_bytes 8 (length bytes)),
              len,
              short,
              recv_buf_lem bytes front rest (record s { inbox = rest; buf = b2 }),
              fd,
              found,
              succeeds (suc s.calls),
            )
            refl,
        refl,
        refl,
        refl,
        refl,
        refl,
        refl,
        refl,
      )

  process_send_lem :
      (c : ConnectedSock) (bytes : List ℕ) (front : SockAddr) (rest : List (Option Datagram))
      (s : Tcpd F)
      → process_tcpd_message env (with_inbox (send_requests c.socket_fd bytes) front rest s)
        ≡ tcpd_send env front (
            with_inbox
              (le_bytes 4 c.socket_fd ∷ le_bytes 8 (length bytes) ∷ bytes ∷ [])
              front
              rest
              (record s { calls = suc s.calls }))
  unfolding process_tcpd_message recv_msg malloc dispatch str_is copy_at
  process_send_lem c bytes front rest s = refl

-- The four bytes of the answer, read as eight behind four zeros.
padded_number :
    (n : ℕ) (array : List ℕ)
    → n < 2 ^ 32
    → of_bytes (take 8 (copy_at 0 (take 8 (le_bytes 4 n)) (copy_at 0 (replicate 8 0) array))) ≡ n
unfolding of_bytes le_bytes copy_at
padded_number n array h = omega (arith, h)

module _ (system : System) (works : (n : ℕ) → system.succeeds n ≡ true) where
  pub call_send_lem :
      (sockfd n : ℕ) (bytes : List ℕ) (rest : List (Option (List ℕ))) (w : Caller)
      → n < 2 ^ 32
      → (w' : Caller) × (call_send system sockfd bytes
            (record w { inbox = some (le_bytes 4 n) ∷ rest })
          ≡ done (pos n, w'))
        × (w'.sent ≡ w.sent ++ send_requests sockfd bytes)
        × (w'.inbox ≡ rest)
  unfolding call_send send_tcpd recv_number recv_into
  call_send_lem sockfd n bytes rest w h = (
    record w {
      calls = suc (suc (suc (suc w.calls)));
      sent =
          (((w.sent ++ tcpd_msg "SEND" ∷ []) ++ le_bytes 4 sockfd ∷ [])
            ++ le_bytes 8 (length bytes) ∷ [])
          ++ bytes ∷ [];
      inbox = rest;
      buf = copy_at 0 (take 8 (le_bytes 4 n)) (copy_at 0 (replicate 8 0) w.buf);
    },
    (let small : ltb n (2 ^ 63) ≡ true = ground arith in
        rw
          (
            works w.calls,
            works (suc w.calls),
            works (suc (suc w.calls)),
            works (suc (suc (suc w.calls))),
            padded_number n w.buf h,
            small,
          )
          refl),
    simp append_assoc,
    refl,
  )

find_connected-set_connected :
    (fd : ℕ) (d c : ConnectedSock) (l : List ConnectedSock)
    → find_connected d.socket_fd l ≡ some c
    → find_connected fd (set_connected d l)
      ≡ (if d.socket_fd == fd then some d else find_connected fd l)
unfolding find_connected set_connected
find_connected-set_connected fd d c [] h = cc
find_connected-set_connected fd d c (x ∷ l) h =
    ground (arith, find_connected-set_connected fd d c l)

-- A SEND that has been served: `sent` are the datagrams of the call, `queued` is the frame that the
-- daemon has made, and `answer` what it sends back.
pub record SendServed {F : Type 0} (env : Machine F) (system : System) (c : ConnectedSock)
    (bytes : List ℕ) (front : SockAddr) (s : Tcpd F) (w : Caller) : Type 0 where
  pub caller : Caller
  pub state : Tcpd F
  pub queued : TrollMessage
  pub answer : List ℕ
  pub requests : List (List ℕ)
  pub returns :
      call_send system c.socket_fd bytes (record w { inbox = some answer ∷ [] })
      ≡ done (pos (length bytes), caller)
  pub sent : caller.sent ≡ w.sent ++ requests
  pub ran : process_tcpd_message env (with_inbox requests front [] s) ≡ done (tt, state)
  pub read : state.inbox ≡ []
  pub answered : state.log ≡ s.log ++ to_front answer (some front) ∷ []
  pub intact : message_intact queued ≡ true
  pub numbered : (queued.session ≡ c.session) × (queued.seq_num ≡ c.base)
  pub carried : Carries (λ _. bytes) queued
  pub pending :
      (fd : ℕ)
      → find_connected fd state.connected_sockets ≡ (
          if c.socket_fd == fd
          then some (record c {
            base = u32 (c.base + 1);
            pending_packages = c.pending_packages ++ queued ∷ [];
          })
          else find_connected fd s.connected_sockets)
  pub counted : state.in_buffer_packages ≡ s.in_buffer_packages +ℤ pos 1
  pub others :
      (state.acked_sockets ≡ s.acked_sockets)
      × (state.waiting_ack_sockets ≡ s.waiting_ack_sockets)
      × (state.binded_sockets ≡ s.binded_sockets)

-- SEND of at most 1000 bytes on a connected socket: the datagrams that the call sends make the
-- daemon queue one frame with a right checksum, the socket's session and next number and just these
-- bytes behind that socket's pending packages, count it, touch no other connected socket and no
-- accepted, waiting or binded one, and answer once; with this answer the call returns the number of
-- bytes, if every datagram can be sent.
pub send_round_trip :
    {F : Type 0} (env : Machine F) (system : System)
    → ((n : ℕ) → env.succeeds n ≡ true)
    → ((n : ℕ) → system.succeeds n ≡ true)
    → (c : ConnectedSock) (bytes : List ℕ) (front : SockAddr) (s : Tcpd F) (w : Caller)
    → c.socket_fd < 2 ^ 32
    → length bytes ≤ buf_len
    → find_connected c.socket_fd s.connected_sockets ≡ some c
    → SendServed env system c bytes front s w
send_round_trip {F} env system succeeds works c bytes front s w fd_small fits found =
    let n : u32 (length bytes) ≡ length bytes = omega (arith, fits) in
    let (w', returns, sent, empty) =
      call_send_lem system works c.socket_fd (length bytes) bytes [] w (omega (arith, fits)) in
    let (fresh, s', ran, inbox, log, connected, count, acked, waiting, binded) =
      tcpd_send_lem env succeeds c bytes front [] (record s { calls = suc s.calls }) fd_small fits
        found in
    let t : Tcpd F =
      queue_message c bytes (length bytes) fresh (record s { calls = suc s.calls }) in
    let queue : t.connected_sockets
        ≡ set_connected
            (record c {
              base = u32 (c.base + 1);
              pending_packages =
                  c.pending_packages ++ make_message c bytes (length bytes) fresh ∷ [];
            })
            s.connected_sockets =
      unfold queue_message in refl in
    let (intact, session, seq_num, carries) = make_message_lem c bytes fresh (λ _. bytes) refl in
    record {
      caller = w';
      state = s';
      queued = make_message c bytes (length bytes) fresh;
      answer = le_bytes 4 (length bytes);
      requests = send_requests c.socket_fd bytes;
      returns = returns;
      sent = sent;
      ran = process_send_lem env succeeds c bytes front [] s ∙ ran;
      read = inbox;
      answered = log ∙ ap (λ k. s.log ++ to_front (le_bytes 4 k) (some front) ∷ []) n;
      intact = intact;
      numbered = (session, seq_num);
      carried = carries;
      pending = λ fd.
          ap (find_connected fd) (connected ∙ queue)
          ∙ find_connected-set_connected fd _ c s.connected_sockets found;
      counted = count;
      others = (acked, waiting, binded);
    }
