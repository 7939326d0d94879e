-- ===== src/Tcpd/Sessions.antt =====
-- A frame in final/tcpd.c and the sockets of the sessions: where a package goes.
use cse5462_network_programm.Base.{
  ℕ, ◌≡◌, refl, ap, ap₂, sym, ◌∙◌, Bool, true, false, List, [], ◌∷◌, ◌++◌, ◌==◌, arith, Option,
  none, some, ◌≢◌, if◌then◌else◌,
}
use cse5462_network_programm.Wire.{TrollMessage}
use cse5462_network_programm.Tcpd.{Tcpd, AckedSock, BindedSock}
use cse5462_network_programm.Tcpd.Receive.{
  receive_package, new_acked, modify_session, deliver_package,
}
use cse5462_network_programm.Tcpd.Front.{find_acked}

abbrev pub or_else {ℓ} : {A : Type ℓ} → Option A → Option A → Option A
or_else (some a) o = some a
or_else none o = o

abbrev pub or_new {ℓ} : {A : Type ℓ} → Option A → A → A
or_new (some a) b = a
or_new none b = b

-- The socket that keeps the packages of a session: an accepted one, or else one that waits to be.
unfoldable pub socket_of : {F : Type 0} → ℕ → Tcpd F → Option AckedSock
socket_of session s =
    or_else (find_acked session s.acked_sockets) (find_acked session s.waiting_ack_sockets)

-- What `modify_session` does to what is found under each session.
abbrev Modified : ℕ → (AckedSock → AckedSock) → List AckedSock → Option (List AckedSock) → Type 0
Modified session f l none = find_acked session l ≡ none
Modified session f l (some l') =
    (a : AckedSock) × (find_acked session l ≡ some a)
    × (find_acked session l' ≡ some (f a))
    × ((q : ℕ) → q ≢ session → find_acked q l' ≡ find_acked q l)

modify_session-Modified :
    (session : ℕ) (f : AckedSock → AckedSock) (l : List AckedSock)
    → ((a : AckedSock) → (f a).session ≡ a.session)
    → Modified session f l (modify_session session f l)
unfolding modify_session find_acked
modify_session-Modified session f [] same = refl
modify_session-Modified session f (a ∷ l) same =
    go (a.session == session) refl (modify_session session f l)
      (modify_session-Modified session f l same)
  where
    go :
        (b : Bool)
        → (a.session == session) ≡ b
        → (o : Option (List AckedSock)) → Modified session f l o
        → Modified session f
            (a ∷ l)
            (if b then some (f a ∷ l) else elim o [ none ↦ none | some l' ↦ some (a ∷ l') ])
    go true e o h = (a, rw e refl, rw (same a, e) refl, λ q ne. rw (same a) (ground arith))
    go false e none h = rw e h
    go false e (some l') h =
        let (x, found, found', others) = h in
        (x, rw e found, rw e found', λ q ne. ground (arith, others q ne))

receive_package-session :
    (m : TrollMessage) (a : AckedSock) → (receive_package m a).session ≡ a.session
unfolding receive_package
receive_package-session m a = ground arith

find_acked-append_new :
    (q : ℕ) (a : AckedSock) (l : List AckedSock)
    → find_acked q l ≡ none
    → a.session ≡ q
    → find_acked q (l ++ a ∷ []) ≡ some a
unfolding find_acked
find_acked-append_new q a [] h e = ground arith
find_acked-append_new q a (b ∷ l) h e = ground (arith, find_acked-append_new q a l)

find_acked-append_other :
    (q : ℕ) (a : AckedSock) (l : List AckedSock)
    → a.session ≢ q
    → find_acked q (l ++ a ∷ []) ≡ find_acked q l
unfolding find_acked
find_acked-append_other q a [] ne = ground arith
find_acked-append_other q a (b ∷ l) ne = ground (arith, find_acked-append_other q a l ne)

-- A frame goes to the socket of its session and to no other: that socket, or a new one that waits
-- to be accepted, has received the package, and the sockets of all other sessions are as before.
pub deliver_package_lem :
    {F : Type 0} (b : BindedSock) (m : TrollMessage) (fresh : List ℕ) (s : Tcpd F)
    → (socket_of m.session (deliver_package b m fresh s)
        ≡ some (receive_package m (or_new (socket_of m.session s) (new_acked b m fresh))))
      × ((q : ℕ) → q ≢ m.session → socket_of q (deliver_package b m fresh s) ≡ socket_of q s)
unfolding deliver_package socket_of
deliver_package_lem {F} b m fresh s =
    go (modify_session m.session (receive_package m) s.acked_sockets)
      (modify_session-Modified m.session (receive_package m) s.acked_sockets
        (receive_package-session m))
      (modify_session m.session (receive_package m) s.waiting_ack_sockets)
      (modify_session-Modified m.session (receive_package m) s.waiting_ack_sockets
        (receive_package-session m))
  where
    after : Option (List AckedSock) → Option (List AckedSock) → Tcpd F
    after o p = elim o [
      | some l ↦ record s { acked_sockets = l }
      | none ↦ elim p [
        | some l ↦ record s { waiting_ack_sockets = l }
        | none ↦ record s {
          waiting_ack_sockets =
              s.waiting_ack_sockets ++ receive_package m (new_acked b m fresh) ∷ [];
        }
      ]
    ]

    go :
        (o : Option (List AckedSock))
        → Modified m.session (receive_package m) s.acked_sockets o
        → (p : Option (List AckedSock))
        → Modified m.session (receive_package m) s.waiting_ack_sockets p
        → (socket_of m.session (after o p)
            ≡ some (receive_package m (or_new (socket_of m.session s) (new_acked b m fresh))))
          × ((q : ℕ) → q ≢ m.session → socket_of q (after o p) ≡ socket_of q s)
    go (some l) (a, e, e', others) p h = (rw (e, e') refl, λ q ne. rw (others q ne) refl)
    go none h (some l) (a, e, e', others) = (rw (h, e, e') refl, λ q ne. rw (others q ne) refl)
    go none h none k = (
      ap₂ or_else h (find_acked-append_new m.session made s.waiting_ack_sockets k made_session)
          ∙ sym (
              ap (λ o. some (receive_package m (or_new o (new_acked b m fresh))))
                (ap₂ or_else h k)),
      λ q ne.
          ap (or_else (find_acked q s.acked_sockets))
            (find_acked-append_other q made s.waiting_ack_sockets (λ e. ne (sym e ∙ made_session))),
    )
      where
        made : AckedSock
        made = receive_package m (new_acked b m fresh)

        made_session : made.session ≡ m.session
        made_session = receive_package-session m (new_acked b m fresh) ∙ (unfold new_acked in refl)

pub deliver_package-kept :
    {F : Type 0} (b : BindedSock) (m : TrollMessage) (fresh : List ℕ) (s : Tcpd F)
    → ((deliver_package b m fresh s).log ≡ s.log)
      × ((deliver_package b m fresh s).connected_sockets ≡ s.connected_sockets)
unfolding deliver_package
deliver_package-kept b m fresh s = (ground arith, ground arith)
