-- ===== src/Tcpd/Answers.antt =====
-- recv_data of final/tcpd.c on all its branches: what a frame changes, and what answers it.
use cse5462_network_programm.Base.{
  ℕ, suc, ◌≡◌, ◌⊎◌, inl, inr, refl, ap, true, false, List, [], ◌∷◌, ◌++◌, ◌==◌, some, arith,
  if◌then◌else◌, Bool-cases,
}
use cse5462_network_programm.Base.Outcome.{Outcome, done}
use cse5462_network_programm.Wire.{SockAddr, TrollMessage, TrollAck, message_intact, ack_intact}
use cse5462_network_programm.Tcpd.{Tcpd, Machine, ack, BindedSock}
use cse5462_network_programm.Tcpd.Kernel.{send_or_exit, malloc, sendto}
use cse5462_network_programm.Tcpd.Receive.{
  receive_package, new_acked, make_ack, recv_data, deliver_package, Code, handled, garbled,
}
use cse5462_network_programm.Tcpd.Frames.{make_ack-intact}
use cse5462_network_programm.Tcpd.Sessions.{
  socket_of, or_new, deliver_package_lem, deliver_package-kept,
}

-- The package has gone to the socket of its session, or to a new one, on a block of these bytes; the
-- sockets of all other sessions are as before.
abbrev pub Delivered : {F : Type 0} → BindedSock → TrollMessage → List ℕ → Tcpd F → Tcpd F → Type 0
Delivered b m fresh s s' =
    (q : ℕ)
    → socket_of q s' ≡ (
        if q == m.session
        then some (receive_package m (or_new (socket_of m.session s) (new_acked b m fresh)))
        else socket_of q s)

-- What recv_data does with an intact frame: `answer` is the acknowledgement that it sends.
pub record Acknowledged {F : Type 0} (b : BindedSock) (m : TrollMessage) (s : Tcpd F)
    (r : Outcome (Code × Tcpd F)) : Type 0 where
  pub state : Tcpd F
  pub fresh : List ℕ
  pub answer : TrollAck
  pub ran : r ≡ done (handled, state)
  pub delivered : Delivered b m fresh s state
  pub connected : state.connected_sockets ≡ s.connected_sockets
  pub logged : state.log ≡ s.log ++ ack b.socket_fd answer ∷ []
  pub session : answer.session ≡ m.session
  pub seq_num : answer.seq_num ≡ m.seq_num
  pub intact : ack_intact answer ≡ true

module _ {F : Type 0} (env : Machine F) (succeeds : (n : ℕ) → env.succeeds n ≡ true) where
  recv_data_intact :
      (b : BindedSock) (m : TrollMessage) (remote : SockAddr) (s : Tcpd F)
      → message_intact m ≡ true
      → Acknowledged b m s (recv_data env b (some (m, remote)) s)
  unfolding recv_data malloc send_or_exit sendto
  recv_data_intact b m remote s e =
      let fresh = env.fresh_bytes s.calls in
      let s0 : Tcpd F = record s { calls = suc s.calls } in
      let s1 : Tcpd F = deliver_package b m fresh s0 in
      let (to_session, others) = deliver_package_lem b m fresh s0 in
      let kept = deliver_package-kept b m fresh s0 in
      record {
        state = record s1 {
          calls = suc s1.calls;
          log = s1.log ++ ack b.socket_fd (make_ack m remote) ∷ [];
        };
        fresh = fresh;
        answer = make_ack m remote;
        ran = rw (e, succeeds s1.calls) refl;
        delivered = λ q. elim (Bool-cases (q == m.session)) [
          | inl here ↦
              let same : q ≡ m.session = ground arith in
              rw (here, same) (unfold socket_of in to_session)
          | inr away ↦ rw away (unfold socket_of in others q (ground arith))
        ];
        connected = kept.1;
        logged = ap (λ l. l ++ ack b.socket_fd (make_ack m remote) ∷ []) kept.0;
        session = unfold make_ack in refl;
        seq_num = unfold make_ack in refl;
        intact = make_ack-intact m remote;
      }

  -- recv_data drops a frame whose checksum is wrong and changes nothing. Of any other frame it gives
  -- the package to the socket of its session, which is made if there is none, leaves the sockets of
  -- every other session and the connected sockets as they are, and answers with one acknowledgement
  -- of just this session and number, whose checksum recv_ack accepts, if every datagram can be sent.
  pub recv_data_lem :
      (b : BindedSock) (m : TrollMessage) (remote : SockAddr) (s : Tcpd F)
      → ((message_intact m ≡ false) × (recv_data env b (some (m, remote)) s ≡ done (garbled, s)))
        ⊎ ((message_intact m ≡ true) × Acknowledged b m s (recv_data env b (some (m, remote)) s))
  recv_data_lem b m remote s = elim (Bool-cases (message_intact m)) [
    | inl e ↦ inr (e, recv_data_intact b m remote s e)
    | inr e ↦ inl (e, (unfold recv_data in rw e refl))
  ]
