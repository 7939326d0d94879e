-- ===== src/Tcpd/Pending.antt =====
-- handle_send_all_back of final/tcpd.c keeps the count of buffered packages right, also where a
-- datagram cannot be sent.
use cse5462_network_programm.Base.{
  ℕ, ◌+◌, ◌≡◌, refl, ◌∙◌, List, [], ◌∷◌, ◌++◌, arith, Bool-cases, inl, inr, none, length,
  length-append,
}
use cse5462_network_programm.Base.Outcome.{Holds, >>=-Holds}
use cse5462_network_programm.Wire.{TrollMessage}
use cse5462_network_programm.Tcpd.{ConnectedSock, Tcpd, Machine}
use cse5462_network_programm.Tcpd.Front.{find_connected}
use cse5462_network_programm.Tcpd.Transmit.{
  send_package, send_pending, send_socket, send_sockets, handle_send_all_back, in_window,
  min_seq_of, no_min_seq,
}
use cse5462_network_programm.Tcpd.Window.{all_packages}
use cse5462_network_programm.Tcpd.Table.{total, Keyed}
use cse5462_network_programm.Tcpd.Keeps.{
  Keeps, >>=-Keeps, IsSteady, sendto-Keeps, send_or_exit-Keeps, gettimeofday-Keeps,
}
use cse5462_network_programm.Tcpd.Backed.{IsBounded}

-- The sockets that stand for others with as many packages in their lists.
pub record Resent (l l' : List ConnectedSock) : Type 0 where
  same_total : total l' ≡ total l
  same_keys : (fd : ℕ) → find_connected fd l ≡ none → find_connected fd l' ≡ none
  still_keyed : Keyed l → Keyed l'

Resent-cons :
    (c c' : ConnectedSock) (l l' : List ConnectedSock)
    → c'.socket_fd ≡ c.socket_fd
    → length (all_packages c') ≡ length (all_packages c)
    → Resent l l'
    → Resent (c ∷ l) (c' ∷ l')
unfolding total find_connected Keyed
Resent-cons c c' l l' fd e r = record {
  same_total = omega (arith, e, r.same_total);
  same_keys = λ q h. ground (arith, fd, h, r.same_keys q);
  still_keyed = λ k. (rw fd (r.same_keys c.socket_fd k.0), r.still_keyed k.1);
}

module _ {F : Type 0} (env : Machine F) {P : Tcpd F → Type 0} (steady : IsSteady P) where
  send_package-Keeps : (fd : ℕ) (m : TrollMessage) → Keeps P (send_package env fd m)
  unfolding send_package
  send_package-Keeps fd m = >>=-Keeps {P = P} _ _ (send_or_exit-Keeps env {P = P} steady 5 _) (λ u.
      >>=-Keeps {P = P} _ _ (gettimeofday-Keeps env {P = P} steady) (λ now s i.
        >>=-Keeps {P = P} _ _ (sendto-Keeps env {P = P} steady _) (λ b t j. j) _
          (steady s _ refl refl refl refl i)))

  send_pending-length :
      (fd min_seq : ℕ) (l : List TrollMessage) (s : Tcpd F)
      → P s
      → Holds
          (λ p. (length p.0.0 + length p.0.1 ≡ length l) × P p.1)
          (send_pending env fd min_seq l s)
  unfolding send_pending
  send_pending-length fd min_seq [] s i = (refl, i)
  send_pending-length fd min_seq (m ∷ l) s i = elim (Bool-cases (in_window min_seq m)) [
    | inl e ↦ rw e (
        >>=-Holds (λ p. P p.1) _ (send_package env fd m s) _ (send_package-Keeps fd m s i)
          (λ p j.
            >>=-Holds (λ q. (length q.0.0 + length q.0.1 ≡ length l) × P q.1) _
              (send_pending env fd min_seq l p.1) _ (send_pending-length fd min_seq l p.1 j)
              (λ q k. (omega (arith, k.0), k.1))))
    | inr e ↦ rw e (
        >>=-Holds (λ q. (length q.0.0 + length q.0.1 ≡ length l) × P q.1) _
          (send_pending env fd min_seq l s) _ (send_pending-length fd min_seq l s i)
          (λ q k. (omega (arith, k.0), k.1)))
  ]

  send_socket-length :
      (c : ConnectedSock) (s : Tcpd F)
      → P s
      → Holds
          (λ p.
            (p.0.socket_fd ≡ c.socket_fd)
            × (length (all_packages p.0) ≡ length (all_packages c))
            × P p.1)
          (send_socket env c s)
  unfolding send_socket
  send_socket-length c s i =
      >>=-Holds (λ q. (length q.0.0 + length q.0.1 ≡ length c.pending_packages) × P q.1) _
        (send_pending env c.socket_fd (min_seq_of no_min_seq c.packages) c.pending_packages s) _
        (send_pending-length c.socket_fd _ c.pending_packages s i)
        (λ q k. (
          refl,
          omega (
            arith,
            k.0,
            length-append (c.packages ++ q.0.0) q.0.1,
            length-append c.packages q.0.0,
            length-append c.packages c.pending_packages,
          ),
          k.1,
        ))

  pub send_sockets-Resent :
      (l : List ConnectedSock) (s : Tcpd F)
      → P s
      → Holds (λ p. Resent l p.0 × P p.1) (send_sockets env l s)
  unfolding send_sockets
  send_sockets-Resent [] s i =
      (record { same_total = refl; same_keys = λ fd h. h; still_keyed = λ k. k }, i)
  send_sockets-Resent (c ∷ l) s i =
      >>=-Holds _ _ (send_socket env c s) _ (send_socket-length c s i) (λ p j.
        >>=-Holds (λ q. Resent l q.0 × P q.1) _ (send_sockets env l p.1) _
          (send_sockets-Resent l p.1 j.2) (λ q k. (Resent-cons c p.0 l q.0 j.0 j.1 k.0, k.1)))

-- The packages move between the lists of their socket only.
pub handle_send_all_back-IsBounded :
    {F : Type 0} (env : Machine F) (bound : ℕ) → Keeps (IsBounded bound) (handle_send_all_back env)
unfolding handle_send_all_back
handle_send_all_back-IsBounded env bound s i =
    >>=-Holds
      (λ p. Resent s.connected_sockets p.0 × (p.1.in_buffer_packages ≡ s.in_buffer_packages)) _
      (send_sockets env s.connected_sockets s) _
      (send_sockets-Resent env {P = λ t. t.in_buffer_packages ≡ s.in_buffer_packages}
        (λ t u e f g k h. f ∙ h) s.connected_sockets s refl)
      (λ p k. record {
        keyed = k.0.still_keyed i.keyed;
        count = i.count;
        is_count = k.1 ∙ i.is_count;
        backed = omega (arith, i.backed, k.0.same_total);
        below = i.below;
      })
