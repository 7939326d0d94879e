-- ===== src/Tcpd/Acking.antt =====
-- recv_ack, recv_timer and the loop of final/tcpd.c over the connected sockets keep the count of
-- buffered packages right.
use cse5462_network_programm.Base.{
  ℕ, ◌≡◌, refl, ◌∙◌, false, List, [], ◌∷◌, ◌==◌, arith, Bool-cases, Option-cases, inl, inr, Option,
  none, some,
}
use cse5462_network_programm.Base.Outcome.{Holds, >>=-Holds}
use cse5462_network_programm.Wire.{TrollAck, ack_intact}
use cse5462_network_programm.Tcpd.{ConnectedSock, Tcpd, Machine}
use cse5462_network_programm.Tcpd.Kernel.{gettimeofday}
use cse5462_network_programm.Tcpd.Acks.{
  recv_ack, recv_timer, ack_package, acknowledge, set_connected, find_session,
}
use cse5462_network_programm.Tcpd.Front.{find_connected}
use cse5462_network_programm.Tcpd.Loop.{get_acks}
use cse5462_network_programm.Tcpd.Table.{Keyed}
use cse5462_network_programm.Tcpd.Keeps.{
  Keeps, >>=-Keeps, IsSender, IsSender-IsSteady, sendto-Keeps,
}
use cse5462_network_programm.Tcpd.Backed.{
  IsBounded, IsBounded-IsSender, ack_package-IsBounded, expire-IsBounded,
}

-- The table gives the same sockets, but for one descriptor.
abbrev Others : ℕ → List ConnectedSock → List ConnectedSock → Type 0
Others fd l l' = (q : ℕ) → (fd == q) ≡ false → find_connected q l' ≡ find_connected q l

acknowledge-socket_fd :
    (session seq_num : ℕ) (c : ConnectedSock)
    → (acknowledge session seq_num c).1.socket_fd ≡ c.socket_fd
unfolding acknowledge
acknowledge-socket_fd session seq_num c = ground arith

set_connected-Others :
    (d : ConnectedSock) (l : List ConnectedSock) → Others d.socket_fd l (set_connected d l)
unfolding set_connected find_connected
set_connected-Others d [] q e = refl
set_connected-Others d (x ∷ l) q e = ground (arith, set_connected-Others d l q)

-- Each of these sockets stands in the table as it is.
Current : List ConnectedSock → List ConnectedSock → Type 0
Current [] t = Unit {0}
Current (c ∷ l) t = (find_connected c.socket_fd t ≡ some c) × Current l t

Current-cons :
    (c : ConnectedSock) (l t : List ConnectedSock)
    → find_connected c.socket_fd l ≡ none
    → Current l t
    → Current l (c ∷ t)
unfolding Current find_connected
Current-cons c [] t h k = tt
Current-cons c (d ∷ l) t h k = ground (arith, Current-cons c l t)

Keyed-Current : (l : List ConnectedSock) → Keyed l → Current l l
unfolding Current Keyed find_connected
Keyed-Current [] k = tt
Keyed-Current (c ∷ l) k = (ground arith, Current-cons c l l k.0 (Keyed-Current l k.1))

Others-Current :
    (fd : ℕ) (l t t' : List ConnectedSock)
    → Others fd t t'
    → find_connected fd l ≡ none
    → Current l t
    → Current l t'
unfolding Current find_connected
Others-Current fd [] t t' o h k = tt
Others-Current fd (c ∷ l) t t' o h k = elim (Bool-cases (c.socket_fd == fd)) [
  | inl e ↦ ground (arith, e)
  | inr e ↦
      let rest : find_connected fd l ≡ none = ground (arith, e) in
      (o c.socket_fd (ground arith) ∙ k.0, Others-Current fd l t t' o rest k.1)
]

module _ {F : Type 0} (env : Machine F) (bound : ℕ) where
  -- The bound, and that the other sockets of this table are as they were.
  abbrev Acked : ConnectedSock → List ConnectedSock → Tcpd F → Type 0
  Acked c l t = IsBounded bound t × Others c.socket_fd l t.connected_sockets

  Acked-IsSender : (c : ConnectedSock) (l : List ConnectedSock) → IsSender (Acked c l)
  Acked-IsSender c l s t e f i = (IsBounded-IsSender bound s t e f i.0, λ q ne. rw e (i.1 q ne))

  ack_package-Acked :
      (a : TrollAck) (c : ConnectedSock) (s : Tcpd F)
      → find_connected c.socket_fd s.connected_sockets ≡ some c
      → IsBounded bound s
      → Acked c s.connected_sockets (ack_package a c s)
  unfolding ack_package
  ack_package-Acked a c s h i = (
    ack_package-IsBounded bound a c s h i,
    λ q ne.
        set_connected-Others (acknowledge a.session a.seq_num c).1 s.connected_sockets q
          (rw (acknowledge-socket_fd a.session a.seq_num c) ne),
  )

  recv_ack-Acked :
      (c : ConnectedSock) (r : Option TrollAck) (s : Tcpd F)
      → find_connected c.socket_fd s.connected_sockets ≡ some c
      → IsBounded bound s
      → Holds (λ p. Acked c s.connected_sockets p.1) (recv_ack env c r s)
  unfolding recv_ack gettimeofday
  recv_ack-Acked c none s h i = tt
  recv_ack-Acked c (some a) s h i = elim (Bool-cases (ack_intact a)) [
    | inr e ↦ rw e (IsBounded-IsSender bound s _ refl refl i, λ q ne. refl)
    | inl e ↦ rw e (
        >>=-Keeps {P = Acked c s.connected_sockets} _ _
          (sendto-Keeps env {P = Acked c s.connected_sockets}
            (IsSender-IsSteady {P = Acked c s.connected_sockets}
              (Acked-IsSender c s.connected_sockets))
            _)
          (λ b t j. j) _ (ack_package-Acked a c _ h (IsBounded-IsSender bound s _ refl refl i)))
  ]

  get_acks-Current :
      (ack_at : ℕ → Option (Option TrollAck)) (l : List ConnectedSock) (s : Tcpd F)
      → Keyed l
      → Current l s.connected_sockets
      → IsBounded bound s
      → Holds (λ p. IsBounded bound p.1) (get_acks env ack_at l s)
  unfolding get_acks Keyed Current
  get_acks-Current ack_at [] s k h i = i
  get_acks-Current ack_at (c ∷ l) s k h i = elim (Option-cases (ack_at c.socket_fd)) [
    | inl e ↦ rw (e, get_acks) (get_acks-Current ack_at l s k.1 h.1 i)
    | inr (r, e) ↦
        rw (e, get_acks)
          (>>=-Holds (λ p. Acked c s.connected_sockets p.1) _ (recv_ack env c r s) _
            (recv_ack-Acked c r s h.0 i)
            (λ p j.
              get_acks-Current ack_at l p.1 k.1
                (Others-Current c.socket_fd l s.connected_sockets p.1.connected_sockets j.1 k.0 h.1)
                j.0))
  ]

  -- The loop of the main program, over the table as it stands.
  pub get_acks-IsBounded :
      (ack_at : ℕ → Option (Option TrollAck)) (s : Tcpd F)
      → IsBounded bound s
      → Holds (λ p. IsBounded bound p.1) (get_acks env ack_at s.connected_sockets s)
  get_acks-IsBounded ack_at s i =
      get_acks-Current ack_at s.connected_sockets s i.keyed (Keyed-Current _ i.keyed) i

pub recv_timer-IsBounded :
    {F : Type 0} (bound : ℕ) (r : Option (ℕ × ℕ)) → Keeps (IsBounded {F = F} bound) (recv_timer r)
unfolding recv_timer
recv_timer-IsBounded bound none = λ s i. tt
recv_timer-IsBounded bound (some (session, seq_num)) = λ s i.
    elim (Option-cases (find_session session s.connected_sockets)) [
      | inl e ↦ rw (e, recv_timer) tt
      | inr (c, e) ↦ rw (e, recv_timer) (expire-IsBounded bound session seq_num c s e i)
    ]
