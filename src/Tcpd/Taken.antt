-- ===== src/Tcpd/Taken.antt =====
-- recv_ack and recv_timer of final/tcpd.c on all their branches.
use mathlib.Core.List.{Perm}
use cse5462_network_programm.Base.{
  ℕ, suc, ap, Option-cases, ◌≡◌, ◌⊎◌, inl, inr, refl, true, false, List, [], ◌∷◌, ◌++◌, Option,
  none, some, Bool-cases,
}
use cse5462_network_programm.Base.Int.{pos, ◌-ℤ◌}
use cse5462_network_programm.Base.Outcome.{Outcome, done, exits}
use cse5462_network_programm.Wire.{TrollMessage, TrollAck, ack_intact}
use cse5462_network_programm.Tcpd.{Tcpd, ConnectedSock, Machine, cancel_timer}
use cse5462_network_programm.Tcpd.Kernel.{gettimeofday, sendto}
use cse5462_network_programm.Tcpd.Packages.{same_package, remove_package}
use cse5462_network_programm.Tcpd.Receive.{Code, handled, garbled}
use cse5462_network_programm.Tcpd.Acks.{
  recv_ack, elapsed_between, ack_package, set_connected, expire, find_session, recv_timer,
}
use cse5462_network_programm.Tcpd.Window.{
  select_packages, all_packages, Removal, remove_package-Removal,
}
use cse5462_network_programm.Tcpd.Count.{acknowledge_lem, expire-perm}

-- `after` is `before` without one package that the acknowledgement names, and the count is one less;
-- or none is named among the packages sent, and both are as they were.
abbrev pub Forgotten : {F : Type 0} → TrollAck → ConnectedSock → Tcpd F → Tcpd F → Type 0
Forgotten a c s s' =
    ((select_packages (same_package a.session a.seq_num) c.packages ≡ [])
      × (s'.connected_sockets ≡ set_connected c s.connected_sockets)
      × (s'.in_buffer_packages ≡ s.in_buffer_packages))
    ⊎ ((m : TrollMessage) × (rest : List TrollMessage) × (same_package a.session a.seq_num m ≡ true)
        × Perm (m ∷ rest) c.packages
        × (s'.connected_sockets ≡ set_connected (record c { packages = rest }) s.connected_sockets)
        × (s'.in_buffer_packages ≡ s.in_buffer_packages -ℤ pos 1))

ack_package-Forgotten :
    {F : Type 0} (a : TrollAck) (c : ConnectedSock) (s : Tcpd F)
    → Forgotten a c s (ack_package a c s)
unfolding ack_package
ack_package-Forgotten a c s = elim (acknowledge_lem a.session a.seq_num c) [
  | inl (none_named, e) ↦ inl (none_named, rw e refl, rw e refl)
  | inr (m, rest, e, named, parts) ↦ inr (m, rest, named, parts, rw e refl, rw e refl)
]

-- What recv_ack leaves alone.
abbrev pub OtherSockets : {F : Type 0} → Tcpd F → Tcpd F → Type 0
OtherSockets s s' =
    (s'.acked_sockets ≡ s.acked_sockets)
    × (s'.waiting_ack_sockets ≡ s.waiting_ack_sockets)
    × (s'.binded_sockets ≡ s.binded_sockets)

ack_package-OtherSockets :
    {F : Type 0} (a : TrollAck) (c : ConnectedSock) (s : Tcpd F)
    → OtherSockets s (ack_package a c s) × ((ack_package a c s).log ≡ s.log)
unfolding ack_package
ack_package-OtherSockets a c s = ((refl, refl, refl), refl)

-- What recv_ack does with an intact acknowledgement.
pub record AckTaken {F : Type 0} (a : TrollAck) (c : ConnectedSock) (s : Tcpd F)
    (r : Outcome (Code × Tcpd F)) : Type 0 where
  pub state : Tcpd F
  pub ran : r ≡ done (handled, state)
  pub forgotten : Forgotten a c s state
  pub logged : state.log ≡ s.log ++ cancel_timer a.session a.seq_num ∷ []
  pub others : OtherSockets s state

-- What it does with one whose checksum is wrong.
pub record AckDropped {F : Type 0} (s : Tcpd F) (r : Outcome (Code × Tcpd F)) : Type 0 where
  pub state : Tcpd F
  pub ran : r ≡ done (garbled, state)
  pub connected : state.connected_sockets ≡ s.connected_sockets
  pub counted : state.in_buffer_packages ≡ s.in_buffer_packages
  pub logged : state.log ≡ s.log
  pub others : OtherSockets s state

module _ {F : Type 0} (env : Machine F) (succeeds : (n : ℕ) → env.succeeds n ≡ true) where
  -- recv_ack changes no socket, sends nothing and takes no package for an acknowledgement whose
  -- checksum is wrong. For any other it takes exactly one package of that session and number out of
  -- those sent through the socket and counts one less, or leaves them and the count as they are where
  -- there is none; in both cases it cancels the timer of that session and number and touches no
  -- binded or accepted socket, if every datagram can be sent.
  pub recv_ack_lem :
      (c : ConnectedSock) (a : TrollAck) (s : Tcpd F)
      → ((ack_intact a ≡ false) × AckDropped s (recv_ack env c (some a) s))
        ⊎ ((ack_intact a ≡ true) × AckTaken a c s (recv_ack env c (some a) s))
  unfolding recv_ack gettimeofday sendto
  recv_ack_lem c a s = elim (Bool-cases (ack_intact a)) [
    | inr e ↦ inl (
      e,
      record {
        state = timed;
        ran = rw e refl;
        connected = refl;
        counted = refl;
        logged = refl;
        others = (refl, refl, refl);
      },
    )
    | inl e ↦ inr (
      e,
      record {
        state = record taken {
          calls = suc taken.calls;
          log = taken.log ++ cancel_timer a.session a.seq_num ∷ [];
        };
        ran = rw (e, succeeds taken.calls) refl;
        forgotten = ack_package-Forgotten a c timed;
        logged =
            ap (λ l. l ++ cancel_timer a.session a.seq_num ∷ [])
              (ack_package-OtherSockets a c timed).1;
        others = (ack_package-OtherSockets a c timed).0;
      },
    )
  ]
    where
      timed : Tcpd F
      timed = record s {
        calls = suc s.calls;
        ack_time = env.clock s.calls;
        estimator = record s.estimator {
          elapsed = elapsed_between env s.send_time (env.clock s.calls);
        };
      }

      taken : Tcpd F
      taken = ack_package a c timed

-- What an expired timer does to the packages sent: `after` is the socket then.
abbrev pub Moved : ℕ → ℕ → ConnectedSock → ConnectedSock → Type 0
Moved session seq_num c after =
    ((select_packages (same_package session seq_num) c.packages ≡ []) × (after ≡ c))
    ⊎ ((m : TrollMessage) × (rest : List TrollMessage) × (same_package session seq_num m ≡ true)
        × Perm (m ∷ rest) c.packages
        × (after ≡ record c { packages = rest; pending_packages = c.pending_packages ++ m ∷ [] }))

expire-Moved :
    (session seq_num : ℕ) (c : ConnectedSock) → Moved session seq_num c (expire session seq_num c)
unfolding expire
expire-Moved session seq_num c =
    go (remove_package session seq_num c.packages) refl
      (remove_package-Removal session seq_num c.packages)
  where
    go :
        (o : Option (TrollMessage × List TrollMessage))
        → remove_package session seq_num c.packages ≡ o
        → Removal session seq_num c.packages o
        → Moved session seq_num c (expire session seq_num c)
    go none e h = inl (h, rw (e, expire) refl)
    go (some r) e h = inr (r.0, r.1, h.named, h.parts, rw (e, expire) refl)

-- What recv_timer does for a session that is known.
pub record Rescheduled {F : Type 0} (session seq_num : ℕ) (c : ConnectedSock) (s : Tcpd F)
    (r : Outcome (Unit {0} × Tcpd F)) : Type 0 where
  pub found : find_session session s.connected_sockets ≡ some c
  pub after : ConnectedSock
  pub ran : r ≡ done (tt, record s { connected_sockets = set_connected after s.connected_sockets })
  pub kept : Perm (all_packages after) (all_packages c)
  pub moved : Moved session seq_num c after

-- recv_timer exits with 5 where no socket has the session of the timer. Otherwise it moves exactly
-- one package of that session and number from those sent to the end of the pending ones, and changes
-- nothing else of the socket, or leaves the socket as it is where there is none; it loses and doubles
-- no package, and of the rest of the state only the list that holds the socket is written.
pub recv_timer_lem :
    {F : Type 0} (session seq_num : ℕ) (s : Tcpd F)
    → ((find_session session s.connected_sockets ≡ none)
        × (recv_timer (some (session, seq_num)) s ≡ exits 5))
      ⊎ ((c : ConnectedSock) × Rescheduled session seq_num c s
            (recv_timer (some (session, seq_num)) s))
unfolding recv_timer
recv_timer_lem session seq_num s = elim (Option-cases (find_session session s.connected_sockets)) [
  | inl e ↦ inl (e, rw (e, recv_timer) refl)
  | inr (c, e) ↦ inr (
    c,
    record {
      found = e;
      after = expire session seq_num c;
      ran = rw (e, recv_timer) refl;
      kept = expire-perm session seq_num c;
      moved = expire-Moved session seq_num c;
    },
  )
]
