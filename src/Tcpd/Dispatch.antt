-- ===== src/Tcpd/Dispatch.antt =====
-- process_tcpd_message of final/tcpd.c: one request lets the count of buffered packages grow by one.
use cse5462_network_programm.Base.{
  ℕ, suc, ◌≡◌, refl, ap, ◌∙◌, true, false, Bool, List, [], ◌∷◌, arith, Option-cases, inl, inr,
  Option, none, some, ltb, if◌then◌else◌,
}
use cse5462_network_programm.Base.Outcome.{Outcome, Holds, >>=-Holds, done, exits, blocks}
use cse5462_network_programm.Bytes.{of_bytes}
use cse5462_network_programm.Wire.{SockAddr, buf_len}
use cse5462_network_programm.Tcpd.{ConnectedSock, Tcpd, Machine, Datagram}
use cse5462_network_programm.Tcpd.Kernel.{M, malloc, recv_buf, recv_front}
use cse5462_network_programm.Tcpd.Front.{
  find_connected, tcpd_connect, tcpd_send, send_to, addr_of_bytes,
}
use cse5462_network_programm.Tcpd.Loop.{dispatch, recv_msg, process_tcpd_message, str_is, ascii}
use cse5462_network_programm.Tcpd.Keeps.{
  Keeps, >>=-Keeps, IsSteady, IsSender-IsSteady, rand-Keeps, recv_front-Keeps, recv_buf-Keeps,
}
use cse5462_network_programm.Tcpd.Quiet.{
  reply-Keeps, tcpd_socket-Keeps, tcpd_bind-Keeps, tcpd_accept-Keeps, tcpd_recv-Keeps,
}
use cse5462_network_programm.Tcpd.Backed.{
  IsBounded, IsBounded-IsSender, queue_message-IsBounded, connect-IsBounded,
}

found_fd :
    (fd : ℕ) (c : ConnectedSock) (l : List ConnectedSock)
    → find_connected fd l ≡ some c
    → c.socket_fd ≡ fd
unfolding find_connected
found_fd fd c [] h = cc
found_fd fd c (x ∷ l) h = ground (arith, found_fd fd c l)

find_connected_fd :
    (fd : ℕ) (c : ConnectedSock) (l : List ConnectedSock)
    → find_connected fd l ≡ some c
    → find_connected c.socket_fd l ≡ some c
find_connected_fd fd c l h = ap (λ q. find_connected q l) (found_fd fd c l h) ∙ h

-- An operation that lets the bound grow by one at most.
abbrev pub Grows : {F A : Type 0} → ℕ → M F A → Type 0
Grows bound m = (s : Tcpd _) → IsBounded bound s → Holds (λ p. IsBounded (suc bound) p.1) (m s)

IsBounded-suc : {F : Type 0} (bound : ℕ) (s : Tcpd F) → IsBounded bound s → IsBounded (suc bound) s
IsBounded-suc bound s i = record {
  keyed = i.keyed;
  count = i.count;
  is_count = i.is_count;
  backed = i.backed;
  below = omega (arith, i.below);
}

Keeps-Grows : {F A : Type 0} (bound : ℕ) (m : M F A) → Keeps (IsBounded bound) m → Grows bound m
Keeps-Grows {F} {A} bound m h s i = go (m s) (h s i)
  where
    go :
        (o : Outcome (A × Tcpd F))
        → Holds (λ p. IsBounded bound p.1) o
        → Holds (λ p. IsBounded (suc bound) p.1) o
    go (done p) j = IsBounded-suc bound p.1 j
    go (exits n) j = tt
    go blocks j = tt

if-Grows :
    {F A : Type 0} (bound : ℕ) (b : Bool) (m k : M F A)
    → Grows bound m
    → Grows bound k
    → Grows bound (if b then m else k)
if-Grows bound true m k h h' = h
if-Grows bound false m k h h' = h'

module _ {F : Type 0} (env : Machine F) (bound : ℕ) where
  steady : (n : ℕ) → IsSteady {F = F} (IsBounded n)
  steady n = IsSender-IsSteady {P = IsBounded n} (IsBounded-IsSender n)

  tcpd_connect-IsBounded : (front : SockAddr) → Keeps (IsBounded bound) (tcpd_connect env front)
  unfolding tcpd_connect
  tcpd_connect-IsBounded front =
      >>=-Keeps {P = IsBounded bound} _ _ (recv_front-Keeps {P = IsBounded bound} (steady bound) 4)
        (λ fd.
          >>=-Keeps {P = IsBounded bound} _ _
            (recv_front-Keeps {P = IsBounded bound} (steady bound) 16)
            (λ addr.
              >>=-Keeps {P = IsBounded bound} _ _
                (rand-Keeps env {P = IsBounded bound} (steady bound))
                (λ session s i.
                  reply-Keeps env {P = IsBounded bound} (steady bound) 0 addr.1 _
                    (connect-IsBounded bound (of_bytes fd.0) session (addr_of_bytes addr.0) s i))))

  send_to-Grows :
      (fd : ℕ) (bytes : List ℕ) (len : ℕ) (front : SockAddr) (s : Tcpd F)
      → IsBounded bound s
      → Holds
          (λ p. IsBounded (suc bound) p.1)
          (send_to env (find_connected fd s.connected_sockets) bytes len front s)
  unfolding send_to malloc
  send_to-Grows fd bytes len front s i =
      elim (Option-cases (find_connected fd s.connected_sockets)) [
        | inl e ↦ rw e tt
        | inr (c, e) ↦ rw e (
            reply-Keeps env {P = IsBounded (suc bound)} (steady (suc bound)) _ front _ (
              queue_message-IsBounded bound c bytes len (env.fresh_bytes s.calls) _
                (find_connected_fd fd c s.connected_sockets e)
                (IsBounded-IsSender bound s _ refl refl i)))
      ]

  tcpd_send-Grows : (front : SockAddr) → Grows bound (tcpd_send env front)
  unfolding tcpd_send
  tcpd_send-Grows front s i =
      >>=-Holds (λ p. IsBounded bound p.1) _ (recv_front 4 s) _
        (recv_front-Keeps {P = IsBounded bound} (steady bound) 4 s i)
        (λ fd j.
          >>=-Holds (λ p. IsBounded bound p.1) _ (recv_front 8 fd.1) _
            (recv_front-Keeps {P = IsBounded bound} (steady bound) 8 fd.1 j)
            (λ len k.
              if-Grows bound (ltb buf_len (of_bytes len.0.0)) _ _ (λ t h. tt)
                (λ t h.
                  >>=-Holds (λ p. IsBounded bound p.1) _ (recv_buf (of_bytes len.0.0) t) _
                    (recv_buf-Keeps {P = IsBounded bound} (steady bound) _ t h)
                    (λ d h'. send_to-Grows (of_bytes fd.0.0) d.0.0 (of_bytes len.0.0) d.0.1 d.1 h'))
                len.1 k))

  dispatch-Grows : (msg : List ℕ) (front : SockAddr) → Grows bound (dispatch env msg front)
  unfolding dispatch
  dispatch-Grows msg front =
      if-Grows bound (str_is msg (ascii "SOCKET")) _ _
        (Keeps-Grows bound _ (tcpd_socket-Keeps env {P = IsBounded bound} (steady bound) front))
        (if-Grows bound (str_is msg (ascii "BIND")) _ _
          (Keeps-Grows bound _ (tcpd_bind-Keeps env {P = IsBounded bound} (steady bound) front))
          (if-Grows bound (str_is msg (ascii "ACCEPT")) _ _
            (Keeps-Grows bound _ (tcpd_accept-Keeps env {P = IsBounded bound} (steady bound) front))
            (if-Grows bound (str_is msg (ascii "RECV")) _ _
              (Keeps-Grows bound _
                (tcpd_recv-Keeps env {P = IsBounded bound} (IsBounded-IsSender bound) front))
              (if-Grows bound (str_is msg (ascii "CONNECT")) _ _
                (Keeps-Grows bound _ (tcpd_connect-IsBounded front))
                (if-Grows bound (str_is msg (ascii "SEND")) _ _ (tcpd_send-Grows front)
                  (λ s i. IsBounded-suc bound s i))))))

  recv_msg-IsBounded : Keeps (IsBounded bound) (recv_msg env)
  unfolding recv_msg malloc
  recv_msg-IsBounded s i = go s.inbox refl
    where
      go :
          (l : List (Option Datagram))
          → s.inbox ≡ l
          → Holds (λ p. IsBounded bound p.1) (recv_msg env s)
      go [] e = rw (e, recv_msg) tt
      go (none ∷ l) e = rw (e, recv_msg) tt
      go (some d ∷ l) e = rw (e, recv_msg) (IsBounded-IsSender bound s _ refl refl i)

  pub process_tcpd_message-Grows : Grows bound (process_tcpd_message env)
  unfolding process_tcpd_message
  process_tcpd_message-Grows s i =
      >>=-Holds (λ p. IsBounded bound p.1) _ (recv_msg env s) _ (recv_msg-IsBounded s i)
        (λ p j. dispatch-Grows p.0.0 p.0.1 p.1 j)
