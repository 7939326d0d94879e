-- ===== src/Tcpd/Quiet.antt =====
-- The operations of final/tcpd.c that change neither the connected sockets nor the count of their
-- packages: tcpd_SOCKET, tcpd_BIND, tcpd_ACCEPT, tcpd_RECV, recv_data, handle_ack_back and
-- handle_recv_back.
use cse5462_network_programm.Base.{
  ℕ, Bool, ◌≡◌, refl, Bool-cases, Option-cases, inl, inr, true, false, List, [], ◌∷◌, Option, none,
  some, ltb, ◌==◌,
}
use cse5462_network_programm.Base.Outcome.{Holds, done}
use cse5462_network_programm.Bytes.{of_bytes, le_bytes}
use cse5462_network_programm.Wire.{SockAddr, TrollMessage, message_intact, buf_len}
use cse5462_network_programm.Tcpd.{Tcpd, Machine, BindedSock, AckedSock, to_front}
use cse5462_network_programm.Tcpd.Kernel.{send_or_exit}
use cse5462_network_programm.Tcpd.Receive.{
  recv_data, deliver_package, receive_package, modify_session,
}
use cse5462_network_programm.Tcpd.Back.{
  fill, fill_fuel, fill_overruns, insert_session, accept_one, accept_all, handle_ack_back, serve,
  serve_all, answer_recv, handle_recv_back, take_waiting,
}
use cse5462_network_programm.Tcpd.Front.{
  reply, tcpd_socket, tcpd_bind, tcpd_accept, tcpd_recv, start_accepting, AcceptResult, not_found,
  busy, added, find_acked, request_recv, minus_two, minus_three, minus_one,
}
use cse5462_network_programm.Tcpd.Keeps.{
  Keeps, >>=-Keeps, if-Keeps, IsSender, IsSteady, IsSender-IsSteady, send_or_exit-Keeps,
  malloc-Keeps, socket_or_exit-Keeps, bind_or_exit-Keeps, recv_front-Keeps,
}

module _ {F : Type 0} (env : Machine F) {P : Tcpd F → Type 0} (steady : IsSteady P) where
  pub reply-Keeps : (n : ℕ) (front : SockAddr) → Keeps P (reply env n front)
  unfolding reply
  reply-Keeps n front = send_or_exit-Keeps env {P = P} steady 4 _

  pub tcpd_socket-Keeps : (front : SockAddr) → Keeps P (tcpd_socket env front)
  unfolding tcpd_socket
  tcpd_socket-Keeps front =
      >>=-Keeps {P = P} _ _ (socket_or_exit-Keeps env {P = P} steady 2) (λ fd. reply-Keeps fd front)

  pub tcpd_bind-Keeps : (front : SockAddr) → Keeps P (tcpd_bind env front)
  unfolding tcpd_bind
  tcpd_bind-Keeps front = >>=-Keeps {P = P} _ _ (recv_front-Keeps {P = P} steady 4) (λ fd.
      >>=-Keeps {P = P} _ _ (recv_front-Keeps {P = P} steady 16) (λ addr.
        >>=-Keeps {P = P} _ _ (bind_or_exit-Keeps env {P = P} steady 2)
          (λ u s i. reply-Keeps 0 addr.1 _ (steady s _ refl refl refl refl i))))

  accept_answer-Keeps :
      (r : AcceptResult) (front : SockAddr)
      → Keeps P (elim r [
        | not_found ↦ reply env minus_one front
        | busy ↦ reply env minus_one front
        | added ↦ (λ s. done (tt, s))
      ])
  accept_answer-Keeps not_found front = reply-Keeps minus_one front
  accept_answer-Keeps busy front = reply-Keeps minus_one front
  accept_answer-Keeps added front = λ s i. i

  pub tcpd_accept-Keeps : (front : SockAddr) → Keeps P (tcpd_accept env front)
  unfolding tcpd_accept
  tcpd_accept-Keeps front = >>=-Keeps {P = P} _ _ (recv_front-Keeps {P = P} steady 4) (λ fd s i.
      accept_answer-Keeps (start_accepting (of_bytes fd.0) fd.1 not_found s.binded_sockets).0 fd.1 _
        (steady s _ refl refl refl refl i))

module _ {F : Type 0} (env : Machine F) {P : Tcpd F → Type 0} (steady : IsSender P) where
  calm : IsSteady P
  calm = IsSender-IsSteady {P = P} steady

  pub tcpd_recv-Keeps : (front : SockAddr) → Keeps P (tcpd_recv env front)
  unfolding tcpd_recv
  tcpd_recv-Keeps front = >>=-Keeps {P = P} _ _ (recv_front-Keeps {P = P} calm 4) (λ fd.
      >>=-Keeps {P = P} _ _ (recv_front-Keeps {P = P} calm 8) (λ len.
        if-Keeps {P = P} (of_bytes len.0 == 0) _ _ (reply-Keeps env {P = P} calm 0 len.1) (λ s i.
          elim (Option-cases (find_acked (of_bytes fd.0) s.acked_sockets)) [
            | inl e ↦ rw e (reply-Keeps env {P = P} calm minus_two len.1 s i)
            | inr (a, e) ↦ rw e (elim (Bool-cases (a.receiving_length == 0)) [
              | inr f ↦ rw f (reply-Keeps env {P = P} calm minus_three len.1 s i)
              | inl f ↦
                  rw f
                    (elim (Option-cases (
                      modify_session (of_bytes fd.0) (request_recv (of_bytes len.0) len.1)
                        s.acked_sockets)) [
                          | inl g ↦ rw g i
                          | inr (l, g) ↦ rw g (steady s _ refl refl i)
                        ])
            ])
          ])))

  deliver_package-kept_count :
      (b : BindedSock) (m : TrollMessage) (fresh : List ℕ) (s : Tcpd F)
      → P s
      → P (deliver_package b m fresh s)
  unfolding deliver_package
  deliver_package-kept_count b m fresh s i =
      elim (Option-cases (modify_session m.session (receive_package m) s.acked_sockets)) [
        | inr (l, e) ↦ rw (e, deliver_package) (steady s _ refl refl i)
        | inl e ↦
            elim (Option-cases
              (modify_session m.session (receive_package m) s.waiting_ack_sockets)) [
                | inr (l, f) ↦ rw (e, f, deliver_package) (steady s _ refl refl i)
                | inl f ↦ rw (e, f, deliver_package) (steady s _ refl refl i)
              ]
      ]

  pub recv_data-Keeps :
      (b : BindedSock) (r : Option (TrollMessage × SockAddr)) → Keeps P (recv_data env b r)
  unfolding recv_data
  recv_data-Keeps b none = λ s i. tt
  recv_data-Keeps b (some (m, remote)) =
      if-Keeps {P = P} (message_intact m) _ _
        (>>=-Keeps {P = P} _ _ (malloc-Keeps env {P = P} calm) (λ fresh s i.
          >>=-Keeps {P = P} _ _ (send_or_exit-Keeps env {P = P} calm 5 _) (λ u t j. j) _
            (deliver_package-kept_count b m fresh s i)))
        (λ s i. i)

  accept_one-Keeps : (b : BindedSock) → Keeps P (accept_one env b)
  unfolding accept_one
  accept_one-Keeps b s i = go b.accepting (take_waiting b.socket_fd s.waiting_ack_sockets) refl refl
    where
      go :
          (accepting : Bool) (o : Option (AckedSock × List AckedSock))
          → b.accepting ≡ accepting
          → take_waiting b.socket_fd s.waiting_ack_sockets ≡ o
          → Holds (λ p. P p.1) (accept_one env b s)
      go false o e f = simp (e, accept_one) i
      go true none e f = simp (e, f, accept_one) i
      go true (some r) e f =
          let kept =
            >>=-Keeps {P = P}
              (send_or_exit env 4 (to_front (le_bytes 4 r.0.session) b.accepting_addr))
              (λ u t. done (
                record b { accepting = false },
                record t {
                  acked_sockets = insert_session r.0 t.acked_sockets;
                  waiting_ack_sockets = r.1;
                },
              ))
              (send_or_exit-Keeps env {P = P} calm 4 _) (λ u t j. steady t _ refl refl j) s i in
          simp (e, f, accept_one) kept

  accept_all-Keeps : (l : List BindedSock) → Keeps P (accept_all env l)
  unfolding accept_all
  accept_all-Keeps [] = λ s i. i
  accept_all-Keeps (b ∷ l) =
      >>=-Keeps {P = P} _ _ (accept_one-Keeps b)
        (λ b'. >>=-Keeps {P = P} _ _ (accept_all-Keeps l) (λ l' s i. i))

  pub handle_ack_back-Keeps : Keeps P (handle_ack_back env)
  unfolding handle_ack_back
  handle_ack_back-Keeps s i = go s.waiting_ack_sockets refl
    where
      go :
          (l : List AckedSock)
          → s.waiting_ack_sockets ≡ l
          → Holds (λ p. P p.1) (handle_ack_back env s)
      go [] e = rw (e, handle_ack_back) i
      go (a ∷ l) e =
          rw (e, handle_ack_back)
            (>>=-Keeps {P = P} _ _ (accept_all-Keeps s.binded_sockets)
              (λ l' t j. steady t _ refl refl j) s i)

  answer_recv-Keeps : (a : AckedSock) → Keeps P (answer_recv env a)
  unfolding answer_recv
  answer_recv-Keeps a =
      if-Keeps {P = P} (a.recv_buffer_size == a.receiving_length) _ _
        (>>=-Keeps {P = P} _ _ (send_or_exit-Keeps env {P = P} calm 4 _) (λ u s i. i)) (λ s i. i)

  serve-Keeps : (a : AckedSock) → Keeps P (serve env a)
  unfolding serve
  serve-Keeps a =
      if-Keeps {P = P} (ltb 0 a.receiving_length) _ _
        (if-Keeps {P = P} (ltb buf_len a.receiving_length) _ _ (λ s i. tt)
          (if-Keeps {P = P} (fill_overruns (fill_fuel a.packages) a) _ _ (λ s i. tt)
            (answer_recv-Keeps (fill (fill_fuel a.packages) a))))
        (λ s i. i)

  serve_all-Keeps : (l : List AckedSock) → Keeps P (serve_all env l)
  unfolding serve_all
  serve_all-Keeps [] = λ s i. i
  serve_all-Keeps (a ∷ l) =
      >>=-Keeps {P = P} _ _ (serve-Keeps a)
        (λ a'. >>=-Keeps {P = P} _ _ (serve_all-Keeps l) (λ l' s i. i))

  pub handle_recv_back-Keeps : Keeps P (handle_recv_back env)
  unfolding handle_recv_back
  handle_recv_back-Keeps s i =
      >>=-Keeps {P = P} _ _ (serve_all-Keeps s.acked_sockets) (λ l t j. steady t _ refl refl j) s i
