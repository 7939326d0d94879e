-- ===== src/Tcpd/Serving.antt =====
-- tcpd_RECV, recv_data, handle_ack_back and handle_recv_back of final/tcpd.c keep the sockets that
-- receive in order and their buffers within what was asked for.
use cse5462_network_programm.Base.{
  Bool, ◌≡◌, refl, Bool-cases, Option-cases, inl, inr, true, false, List, [], ◌∷◌, Option, none,
  some, ltb, ◌==◌, arith,
}
use cse5462_network_programm.Base.Outcome.{Holds, >>=-Holds, done}
use cse5462_network_programm.Bytes.{of_bytes, le_bytes}
use cse5462_network_programm.Wire.{SockAddr, TrollMessage, message_intact, buf_len}
use cse5462_network_programm.Tcpd.{Tcpd, Machine, BindedSock, AckedSock, to_front}
use cse5462_network_programm.Tcpd.Kernel.{send_or_exit}
use cse5462_network_programm.Tcpd.Receive.{recv_data, modify_session}
use cse5462_network_programm.Tcpd.Back.{
  accept_one, accept_all, handle_ack_back, serve, serve_all, answer_recv, handle_recv_back,
  take_waiting, insert_session, fill, fill_fuel, fill_overruns,
}
use cse5462_network_programm.Tcpd.Front.{
  tcpd_recv, find_acked, request_recv, minus_two, minus_three,
}
use cse5462_network_programm.Tcpd.Keeps.{
  Keeps, >>=-Keeps, if-Keeps, IsSteady, IsReceiver-IsSteady, send_or_exit-Keeps, malloc-Keeps,
  recv_front-Keeps,
}
use cse5462_network_programm.Tcpd.Quiet.{reply-Keeps}
use cse5462_network_programm.Tcpd.Sound.{
  IsSound, AllSound, AreSound, AreSound-IsReceiver, fill-IsSound, TakenSound,
  take_waiting-TakenSound, insert_session-AllSound, request_recv-AreSound, deliver_package-AreSound,
}

pub steady : {F : Type 0} → IsSteady {F = F} AreSound
steady = IsReceiver-IsSteady {P = AreSound} AreSound-IsReceiver

module _ {F : Type 0} (env : Machine F) where
  pub tcpd_recv-AreSound : (front : SockAddr) → Keeps AreSound (tcpd_recv env front)
  unfolding tcpd_recv
  tcpd_recv-AreSound front =
      >>=-Keeps {P = AreSound} _ _ (recv_front-Keeps {P = AreSound} steady 4) (λ fd.
        >>=-Keeps {P = AreSound} _ _ (recv_front-Keeps {P = AreSound} steady 8) (λ len.
          if-Keeps {P = AreSound} (of_bytes len.0 == 0) _ _
            (reply-Keeps env {P = AreSound} steady 0 len.1)
            (λ s i. elim (Option-cases (find_acked (of_bytes fd.0) s.acked_sockets)) [
              | inl e ↦ rw e (reply-Keeps env {P = AreSound} steady minus_two len.1 s i)
              | inr (a, e) ↦ rw e (elim (Bool-cases (a.receiving_length == 0)) [
                | inr f ↦ rw f (reply-Keeps env {P = AreSound} steady minus_three len.1 s i)
                | inl f ↦
                    rw f
                      (elim (Option-cases (
                        modify_session (of_bytes fd.0) (request_recv (of_bytes len.0) len.1)
                          s.acked_sockets)) [
                            | inl g ↦ rw g i
                            | inr (l, g) ↦ rw g (
                                request_recv-AreSound (of_bytes fd.0) (of_bytes len.0) len.1 s a l e
                                  f g i)
                          ])
              ])
            ])))

  pub recv_data-AreSound :
      (b : BindedSock) (r : Option (TrollMessage × SockAddr)) → Keeps AreSound (recv_data env b r)
  unfolding recv_data
  recv_data-AreSound b none = λ s i. tt
  recv_data-AreSound b (some (m, remote)) =
      if-Keeps {P = AreSound} (message_intact m) _ _
        (>>=-Keeps {P = AreSound} _ _ (malloc-Keeps env {P = AreSound} steady) (λ fresh s i.
          >>=-Keeps {P = AreSound} _ _ (send_or_exit-Keeps env {P = AreSound} steady 5 _)
            (λ u t j. j) _ (deliver_package-AreSound b m fresh s i)))
        (λ s i. i)

  accept_one-AreSound : (b : BindedSock) → Keeps AreSound (accept_one env b)
  unfolding accept_one
  accept_one-AreSound b s i =
      go b.accepting (take_waiting b.socket_fd s.waiting_ack_sockets) refl refl
        (take_waiting-TakenSound b.socket_fd s.waiting_ack_sockets i.waiting)
    where
      go :
          (accepting : Bool) (o : Option (AckedSock × List AckedSock))
          → b.accepting ≡ accepting
          → take_waiting b.socket_fd s.waiting_ack_sockets ≡ o
          → TakenSound o
          → Holds (λ p. AreSound p.1) (accept_one env b s)
      go false o e f h = simp (e, accept_one) i
      go true none e f h = simp (e, f, accept_one) i
      go true (some r) e f h =
          let kept =
            >>=-Keeps {P = AreSound}
              (send_or_exit env 4 (to_front (le_bytes 4 r.0.session) b.accepting_addr))
              (λ u t. done (
                record b { accepting = false },
                record t {
                  acked_sockets = insert_session r.0 t.acked_sockets;
                  waiting_ack_sockets = r.1;
                },
              ))
              (send_or_exit-Keeps env {P = AreSound} steady 4 _)
              (λ u t j. record {
                acked = insert_session-AllSound r.0 t.acked_sockets h.0 j.acked;
                waiting = h.1;
              })
              s i in
          simp (e, f, accept_one) kept

  accept_all-AreSound : (l : List BindedSock) → Keeps AreSound (accept_all env l)
  unfolding accept_all
  accept_all-AreSound [] = λ s i. i
  accept_all-AreSound (b ∷ l) =
      >>=-Keeps {P = AreSound} _ _ (accept_one-AreSound b)
        (λ b'. >>=-Keeps {P = AreSound} _ _ (accept_all-AreSound l) (λ l' s i. i))

  pub handle_ack_back-AreSound : Keeps AreSound (handle_ack_back env)
  unfolding handle_ack_back
  handle_ack_back-AreSound s i = go s.waiting_ack_sockets refl
    where
      go :
          (l : List AckedSock)
          → s.waiting_ack_sockets ≡ l
          → Holds (λ p. AreSound p.1) (handle_ack_back env s)
      go [] e = rw (e, handle_ack_back) i
      go (a ∷ l) e =
          rw (e, handle_ack_back)
            (>>=-Keeps {P = AreSound} _ _ (accept_all-AreSound s.binded_sockets)
              (λ l' t j. AreSound-IsReceiver t _ refl refl j) s i)

  answer_recv-IsSound :
      (a : AckedSock) (s : Tcpd F)
      → IsSound a
      → AreSound s
      → Holds (λ p. IsSound p.0 × AreSound p.1) (answer_recv env a s)
  unfolding answer_recv
  answer_recv-IsSound a s h i = elim (Bool-cases (a.recv_buffer_size == a.receiving_length)) [
    | inr e ↦ rw (e, answer_recv) (h, i)
    | inl e ↦
        rw (e, answer_recv)
          (>>=-Holds (λ p. AreSound p.1) _ (send_or_exit env 4 _ s) _
            (send_or_exit-Keeps env {P = AreSound} steady 4 _ s i)
            (λ p j. (record { ordered = h.ordered; fits = omega arith }, j)))
  ]

  serve-IsSound :
      (a : AckedSock) (s : Tcpd F)
      → IsSound a
      → AreSound s
      → Holds (λ p. IsSound p.0 × AreSound p.1) (serve env a s)
  unfolding serve
  serve-IsSound a s h i = elim (Bool-cases (ltb 0 a.receiving_length)) [
    | inr e ↦ rw (e, serve) (h, i)
    | inl e ↦ elim (Bool-cases (ltb buf_len a.receiving_length)) [
      | inl f ↦ rw (e, f, serve) tt
      | inr f ↦ elim (Bool-cases (fill_overruns (fill_fuel a.packages) a)) [
        | inl g ↦ rw (e, f, g, serve) tt
        | inr g ↦
            rw (e, f, g, serve)
              (answer_recv-IsSound (fill (fill_fuel a.packages) a) s
                (fill-IsSound (fill_fuel a.packages) a h) i)
      ]
    ]
  ]

  serve_all-AllSound :
      (l : List AckedSock) (s : Tcpd F)
      → AllSound l
      → AreSound s
      → Holds (λ p. AllSound p.0 × AreSound p.1) (serve_all env l s)
  unfolding serve_all
  serve_all-AllSound [] s h i = (tt, i)
  serve_all-AllSound (a ∷ l) s h i =
      >>=-Holds (λ p. IsSound p.0 × AreSound p.1) _ (serve env a s) _ (serve-IsSound a s h.0 i)
        (λ p j.
          >>=-Holds (λ q. AllSound q.0 × AreSound q.1) _ (serve_all env l p.1) _
            (serve_all-AllSound l p.1 h.1 j.1) (λ q k. ((j.0, k.0), k.1)))

  pub handle_recv_back-AreSound : Keeps AreSound (handle_recv_back env)
  unfolding handle_recv_back
  handle_recv_back-AreSound s i =
      >>=-Holds (λ p. AllSound p.0 × AreSound p.1) _ (serve_all env s.acked_sockets s) _
        (serve_all-AllSound s.acked_sockets s i.acked i)
        (λ p j. record { acked = j.0; waiting = j.1.waiting })
