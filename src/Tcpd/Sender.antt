-- ===== src/Tcpd/Sender.antt =====
-- The bookkeeping of the sending side of final/tcpd.c: `in_buffer_packages`, on which the daemon
-- decides whether to listen to the applications, against the packages in the sockets' lists.
use mathlib.Core.List.{Perm}
use cse5462_network_programm.Base.{
  ℕ, ◌+◌, ◌≡◌, refl, sym, ap, ◌∙◌, inl, inr, true, List, [], ◌∷◌, ◌++◌, arith, Option, none, some,
  length-append,
}
use cse5462_network_programm.Base.Int.{pos}
use cse5462_network_programm.Base.Outcome.{done, Holds, done-Holds}
use cse5462_network_programm.Bytes.{u32}
use cse5462_network_programm.Wire.{TrollMessage, TrollAck, SockAddr}
use cse5462_network_programm.Tcpd.{ConnectedSock, Tcpd, Machine}
use cse5462_network_programm.Tcpd.Acks.{expire, ack_package, find_session, recv_timer}
use cse5462_network_programm.Tcpd.Front.{
  find_connected, insert_connected, queue_message, make_message, new_connected,
}
use cse5462_network_programm.Tcpd.Transmit.{handle_send_all_back, send_sockets}
use cse5462_network_programm.Tcpd.Window.{all_packages, send_socket_lem}
use cse5462_network_programm.Tcpd.Count.{acknowledge_lem, expire-perm}
use cse5462_network_programm.Tcpd.Table.{
  total, Keyed, Perm-length, total-set_connected, set_connected-Keyed, find_session-find_connected,
  insert_connected-fresh, total-append, append-Keyed, expire_fd, count_up, count_down,
}

-- The table is well formed, and the count is right.
pub record IsCounted {F : Type 0} (s : Tcpd F) : Type 0 where
  pub keyed : Keyed s.connected_sockets
  pub counted : s.in_buffer_packages ≡ pos (total s.connected_sockets)

-- What the loop of handle_send_all_back leaves alone: the keys and the number of packages.
record Transmitted {F : Type 0} (l l' : List ConnectedSock) (s s' : Tcpd F) : Type 0 where
  same_total : total l' ≡ total l
  same_keys : (fd : ℕ) → find_connected fd l ≡ none → find_connected fd l' ≡ none
  still_keyed : Keyed l → Keyed l'
  same_count : s'.in_buffer_packages ≡ s.in_buffer_packages

Transmitted-cons :
    {F : Type 0} (c c' : ConnectedSock) {l l' : List ConnectedSock} {s t u : Tcpd F}
    → c'.socket_fd ≡ c.socket_fd
    → Perm (all_packages c') (all_packages c)
    → t.in_buffer_packages ≡ s.in_buffer_packages
    → Transmitted l l' t u
    → Transmitted (c ∷ l) (c' ∷ l') s u
unfolding total find_connected Keyed
Transmitted-cons c c' fd perm e r = record {
  same_total = omega (arith, Perm-length perm, r.same_total);
  same_keys = λ q h. ground (arith, fd, h, r.same_keys q);
  still_keyed = λ k. (rw fd (r.same_keys c.socket_fd k.0), r.still_keyed k.1);
  same_count = r.same_count ∙ e;
}

module _ {F : Type 0} (env : Machine F) (succeeds : (n : ℕ) → env.succeeds n ≡ true) where
  send_sockets_lem :
      (l : List ConnectedSock) (s : Tcpd F)
      → (l' : List ConnectedSock) × (s' : Tcpd F) × (send_sockets env l s ≡ done (l', s'))
        × Transmitted l l' s s'
  unfolding send_sockets
  send_sockets_lem [] s = (
    [],
    s,
    refl,
    record { same_total = refl; same_keys = λ fd h. h; still_keyed = λ k. k; same_count = refl },
  )
  send_sockets_lem (c ∷ l) s =
      let (c', s1, ran, t, ps, qs, perm, fd, session, base) = send_socket_lem env succeeds c s in
      let (l', s2, rest, r) = send_sockets_lem l s1 in
      (c' ∷ l', s2, rw (ran, rest) refl, Transmitted-cons c c' fd perm t.others.1 r)

-- The ways in which the sending side changes the table and the count: a message of an application
-- is queued, a new descriptor is connected, an acknowledgement is taken, a timer runs out, and
-- pending packages are sent.
pub data SenderStep {F : Type 0} (env : Machine F) : Tcpd F → Tcpd F → Type 0 where
  queues :
      {s : Tcpd F} (c : ConnectedSock) (bytes : List ℕ) (len : ℕ) (fresh : List ℕ)
      → find_connected c.socket_fd s.connected_sockets ≡ some c
      → SenderStep env s (queue_message c bytes len fresh s)
  connects :
      {s : Tcpd F} (fd session : ℕ) (addr : SockAddr)
      → find_connected fd s.connected_sockets ≡ none
      → SenderStep env s (record s {
        connected_sockets = insert_connected (new_connected fd session addr) s.connected_sockets;
      })
  acknowledges :
      {s : Tcpd F} (a : TrollAck) (c : ConnectedSock)
      → find_connected c.socket_fd s.connected_sockets ≡ some c
      → SenderStep env s (ack_package a c s)
  times_out :
      {s s' : Tcpd F} (session seq_num : ℕ)
      → recv_timer (some (session, seq_num)) s ≡ done (tt, s')
      → SenderStep env s s'
  transmits : {s s' : Tcpd F} → handle_send_all_back env s ≡ done (tt, s') → SenderStep env s s'

pub data Reachable {F : Type 0} (env : Machine F) (s : Tcpd F) : Tcpd F → Type 0 where
  here : Reachable env s s
  then_step : {t u : Tcpd F} → Reachable env s t → SenderStep env t u → Reachable env s u

module _ {F : Type 0} (env : Machine F) (succeeds : (n : ℕ) → env.succeeds n ≡ true) where
  queue_message-IsCounted :
      (c : ConnectedSock) (bytes : List ℕ) (len : ℕ) (fresh : List ℕ) (s : Tcpd F)
      → find_connected c.socket_fd s.connected_sockets ≡ some c
      → IsCounted s
      → IsCounted (queue_message c bytes len fresh s)
  unfolding queue_message
  queue_message-IsCounted c bytes len fresh s h i = record {
    keyed = set_connected-Keyed _ s.connected_sockets i.keyed;
    counted = count_up i.counted (
        omega (
          arith,
          total-set_connected c queued s.connected_sockets h refl,
          length-append c.packages (c.pending_packages ++ m ∷ []),
          length-append c.packages c.pending_packages,
          length-append c.pending_packages (m ∷ []),
        ));
  }
    where
      m : TrollMessage
      m = make_message c bytes len fresh

      queued : ConnectedSock
      queued = record c { base = u32 (c.base + 1); pending_packages = c.pending_packages ++ m ∷ [] }

  ack_package-IsCounted :
      (a : TrollAck) (c : ConnectedSock) (s : Tcpd F)
      → find_connected c.socket_fd s.connected_sockets ≡ some c
      → IsCounted s
      → IsCounted (ack_package a c s)
  unfolding ack_package
  ack_package-IsCounted a c s h i = elim (acknowledge_lem a.session a.seq_num c) [
    | inl (none_named, e) ↦ rw e (record {
      keyed = set_connected-Keyed c s.connected_sockets i.keyed;
      counted =
          i.counted ∙ ap pos (omega (arith, total-set_connected c c s.connected_sockets h refl));
    })
    | inr (m, rest, e, named, parts) ↦ rw e (record {
      keyed = set_connected-Keyed _ s.connected_sockets i.keyed;
      counted = count_down i.counted (
          omega (
            arith,
            total-set_connected c (record c { packages = rest }) s.connected_sockets h refl,
            Perm-length parts,
            length-append c.packages c.pending_packages,
            length-append rest c.pending_packages,
          ));
    })
  ]

  recv_timer-IsCounted :
      (session seq_num : ℕ) (s : Tcpd F)
      → IsCounted s
      → Holds (λ (p : Unit {0} × Tcpd F). IsCounted p.1) (recv_timer (some (session, seq_num)) s)
  unfolding recv_timer
  recv_timer-IsCounted session seq_num s i = go (find_session session s.connected_sockets) refl
    where
      go :
          (o : Option ConnectedSock)
          → find_session session s.connected_sockets ≡ o
          → Holds
              (λ (p : Unit {0} × Tcpd F). IsCounted p.1)
              (recv_timer (some (session, seq_num)) s)
      go none e = rw (e, recv_timer) tt
      go (some c) e =
          rw (e, recv_timer)
            (record {
              keyed = set_connected-Keyed _ s.connected_sockets i.keyed;
              counted =
                  i.counted
                  ∙ ap pos (
                      omega (
                        arith,
                        total-set_connected c (expire session seq_num c) s.connected_sockets
                            (find_session-find_connected session c s.connected_sockets i.keyed e)
                            (expire_fd session seq_num c),
                        Perm-length (expire-perm session seq_num c),
                      ));
            })

  transmit-IsCounted :
      (s : Tcpd F)
      → IsCounted s
      → Holds (λ (p : Unit {0} × Tcpd F). IsCounted p.1) (handle_send_all_back env s)
  unfolding handle_send_all_back
  transmit-IsCounted s i =
      let (l', s', ran, t) = send_sockets_lem env succeeds s.connected_sockets s in
      rw ran (record {
        keyed = t.still_keyed i.keyed;
        counted = t.same_count ∙ i.counted ∙ ap pos (sym t.same_total);
      })

  connect-IsCounted :
      (fd session : ℕ) (addr : SockAddr) (s : Tcpd F)
      → find_connected fd s.connected_sockets ≡ none
      → IsCounted s
      → IsCounted (record s {
        connected_sockets = insert_connected (new_connected fd session addr) s.connected_sockets;
      })
  unfolding new_connected
  connect-IsCounted fd session addr s h i =
      rw (insert_connected-fresh (new_connected fd session addr) s.connected_sockets h) (record {
        keyed = append-Keyed _ s.connected_sockets h i.keyed;
        counted =
            i.counted
            ∙ ap pos (
                sym (
                  total-append s.connected_sockets (new_connected fd session addr ∷ [])
                  ∙ (unfold total in omega arith)));
      })

  step-IsCounted : {s t : Tcpd F} → SenderStep env s t → IsCounted s → IsCounted t
  step-IsCounted (SenderStep.queues {s = s} c bytes len fresh h) i =
      queue_message-IsCounted c bytes len fresh s h i
  step-IsCounted (SenderStep.connects {s = s} fd session addr h) i =
      connect-IsCounted fd session addr s h i
  step-IsCounted (SenderStep.acknowledges {s = s} a c h) i = ack_package-IsCounted a c s h i
  step-IsCounted (SenderStep.times_out {s = s} session seq_num e) i =
      done-Holds (λ (p : Unit {0} × Tcpd F). IsCounted p.1) _
        (recv_timer-IsCounted session seq_num s i) e
  step-IsCounted (SenderStep.transmits {s = s} e) i =
      done-Holds (λ (p : Unit {0} × Tcpd F). IsCounted p.1) _ (transmit-IsCounted s i) e

  -- However the sending side goes on from a state in which the count of buffered packages is right
  -- and no two sockets have the same descriptor, these stay so: after any number of messages
  -- queued, new descriptors connected, acknowledgements taken, timers run out and pending packages
  -- sent, `in_buffer_packages` is the number of packages in all lists. It is supposed that every
  -- datagram can be sent, and that a CONNECT names a descriptor that is not connected.
  pub Reachable-IsCounted : (s t : Tcpd F) → Reachable env s t → IsCounted s → IsCounted t
  Reachable-IsCounted s t Reachable.here i = i
  Reachable-IsCounted s t (Reachable.then_step {t = u} r e) i =
      step-IsCounted e (Reachable-IsCounted s u r i)
