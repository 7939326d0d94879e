-- ===== src/Tcpd/Sound.antt =====
-- The sockets of final/tcpd.c that receive: their packages stay in order, and what is copied for a
-- request never passes the length that was asked for.
use cse5462_network_programm.Base.{
  ℕ, zero, suc, ◌+◌, ◌≤◌, ◌≡◌, refl, sym, ap, subst, ◌∙◌, true, false, Bool, List, [], ◌∷◌, ◌++◌,
  ◌==◌, arith, Bool-cases, Option-cases, inl, inr, Option, none, some, ltb, leb, if◌then◌else◌,
}
use cse5462_network_programm.Bytes.{u32, u64}
use cse5462_network_programm.Wire.{SockAddr, TrollMessage}
use cse5462_network_programm.Tcpd.{AckedSock, BindedSock, Tcpd}
use cse5462_network_programm.Tcpd.Receive.{
  receive_package, new_acked, modify_session, deliver_package,
}
use cse5462_network_programm.Tcpd.Keeps.{IsReceiver}
use cse5462_network_programm.Tcpd.Back.{consume, cut, fill, take_waiting, insert_session}
use cse5462_network_programm.Tcpd.Front.{request_recv, find_acked}
use cse5462_network_programm.Tcpd.Order.{
  Ascending, Ascending-mono, IsOrdered, receive_package-IsOrdered,
}
use cse5462_network_programm.Tcpd.Delivery.{fill_full, fill_empty, fill_missing, fill-consume}
use cse5462_network_programm.Tcpd.Fill.{fill-cut}

-- In order from the base on, and no more copied than asked for.
pub record IsSound (a : AckedSock) : Type 0 where
  pub ordered : IsOrdered a
  pub fits : a.recv_buffer_size ≤ a.receiving_length

abbrev pub AllSound : List AckedSock → Type 0
AllSound [] = Unit {0}
AllSound (a ∷ l) = IsSound a × AllSound l

receive_package-IsSound :
    (m : TrollMessage) (a : AckedSock) → IsSound a → IsSound (receive_package m a)
receive_package-IsSound m a h = record {
  ordered = (receive_package-IsOrdered m a h.ordered).0;
  fits =
      unfold receive_package in
      elim (Bool-cases (ltb m.seq_num a.base)) [ inl e ↦ rw e h.fits | inr e ↦ rw e h.fits ];
}

new_acked-IsSound :
    (b : BindedSock) (m : TrollMessage) (fresh : List ℕ) → IsSound (new_acked b m fresh)
unfolding new_acked
new_acked-IsSound b m fresh = record { ordered = tt; fits = omega arith }

advance :
    (m : TrollMessage) (rest : List TrollMessage) (base : ℕ)
    → Ascending base (m ∷ rest)
    → m.seq_num ≡ base
    → Ascending (u32 (base + 1)) rest
advance m rest base h e = Ascending-mono rest (omega arith) h.1

fill_kept :
    (fuel : ℕ) (ps : List TrollMessage) (a : AckedSock)
    → Ascending a.base ps
    → a.recv_buffer_size ≤ a.receiving_length
    → IsSound (fill fuel (record a { packages = ps }))
unfolding fill consume cut
fill_kept zero ps a h k = record { ordered = h; fits = k }
fill_kept (suc fuel) [] a h k = rw fill_empty (record { ordered = tt; fits = k })
fill_kept (suc fuel) (m ∷ rest) a h k =
    elim (Bool-cases (ltb a.recv_buffer_size a.receiving_length)) [
      | inr full ↦
          rw (fill_full fuel (record a { packages = m ∷ rest }) full)
            (record { ordered = h; fits = k })
      | inl more ↦ elim (Bool-cases (m.seq_num == a.base)) [
        | inr miss ↦ rw (fill_missing fuel a m rest miss) (record { ordered = h; fits = k })
        | inl next ↦ elim (Bool-cases (leb (u64 (a.recv_buffer_size + m.len)) a.receiving_length)) [
          | inl room ↦ rw (fill-consume fuel a m rest more next room) (
              fill_kept fuel rest (consume m rest (record a { packages = m ∷ rest }))
                (advance m rest a.base h (ground arith)) (ground arith))
          | inr over ↦ rw (fill-cut fuel a m rest more next over) (
              fill_kept fuel (cut m rest (record a { packages = m ∷ rest })).packages
                (cut m rest (record a { packages = m ∷ rest })) h k)
        ]
      ]
    ]

pub fill-IsSound : (fuel : ℕ) (a : AckedSock) → IsSound a → IsSound (fill fuel a)
fill-IsSound fuel a h = fill_kept fuel a.packages a h.ordered h.fits

-- The lists of sockets.
abbrev OptionSound : Option (List AckedSock) → Type 0
OptionSound none = Unit {0}
OptionSound (some l) = AllSound l

modify_session-OptionSound :
    (session : ℕ) (f : AckedSock → AckedSock) (l : List AckedSock)
    → ((a : AckedSock) → find_acked session l ≡ some a → IsSound a → IsSound (f a))
    → AllSound l
    → OptionSound (modify_session session f l)
unfolding modify_session find_acked
modify_session-OptionSound session f [] k h = tt
modify_session-OptionSound session f (a ∷ l) k h =
    go (a.session == session) refl (modify_session session f l)
      (λ away. modify_session-OptionSound session f l (λ x e. k x (rw away e)) h.1)
  where
    go :
        (b : Bool)
        → (a.session == session) ≡ b
        → (o : Option (List AckedSock)) → ((a.session == session) ≡ false → OptionSound o)
        → OptionSound
            (if b then some (f a ∷ l) else elim o [ none ↦ none | some l' ↦ some (a ∷ l') ])
    go true e o r = (k a (rw e refl) h.0, h.1)
    go false e none r = tt
    go false e (some l') r = (h.0, r e)

pub modify_session-AllSound :
    (session : ℕ) (f : AckedSock → AckedSock) (l l' : List AckedSock)
    → modify_session session f l ≡ some l'
    → ((a : AckedSock) → find_acked session l ≡ some a → IsSound a → IsSound (f a))
    → AllSound l
    → AllSound l'
modify_session-AllSound session f l l' e k h =
    subst OptionSound e (modify_session-OptionSound session f l k h)

abbrev pub TakenSound : Option (AckedSock × List AckedSock) → Type 0
TakenSound none = Unit {0}
TakenSound (some r) = IsSound r.0 × AllSound r.1

pub take_waiting-TakenSound :
    (fd : ℕ) (l : List AckedSock) → AllSound l → TakenSound (take_waiting fd l)
unfolding take_waiting
take_waiting-TakenSound fd [] h = tt
take_waiting-TakenSound fd (a ∷ l) h =
    go (a.socket_fd == fd) (take_waiting fd l) (take_waiting-TakenSound fd l h.1)
  where
    go :
        (b : Bool) (o : Option (AckedSock × List AckedSock))
        → TakenSound o
        → TakenSound
            (if b then some (a, l) else elim o [ none ↦ none | some r ↦ some (r.0, a ∷ r.1) ])
    go true o r = h
    go false none r = tt
    go false (some p) r = (r.0, (h.0, r.1))

pub insert_session-AllSound :
    (a : AckedSock) (l : List AckedSock) → IsSound a → AllSound l → AllSound (insert_session a l)
unfolding insert_session
insert_session-AllSound a [] h k = (h, tt)
insert_session-AllSound a (b ∷ l) h k =
    go (b.session == a.session) (insert_session-AllSound a l h k.1)
  where
    go :
        (t : Bool)
        → AllSound (insert_session a l)
        → AllSound (if t then a ∷ l else b ∷ insert_session a l)
    go true r = (h, k.1)
    go false r = (k.0, r)

append-AllSound :
    (l : List AckedSock) (a : AckedSock) → AllSound l → IsSound a → AllSound (l ++ a ∷ [])
append-AllSound [] a h k = (k, tt)
append-AllSound (b ∷ l) a h k = (h.0, append-AllSound l a h.1 k)

-- All sockets that receive.
pub record AreSound {F : Type 0} (s : Tcpd F) : Type 0 where
  pub acked : AllSound s.acked_sockets
  pub waiting : AllSound s.waiting_ack_sockets

pub AreSound-IsReceiver : {F : Type 0} → IsReceiver {F = F} AreSound
AreSound-IsReceiver s t e f i = record { acked = rw e i.acked; waiting = rw f i.waiting }

-- A request of the application on a socket that has none.
pub request_recv-AreSound :
    {F : Type 0} (session len : ℕ) (front : SockAddr) (s : Tcpd F) (a : AckedSock)
    (l : List AckedSock)
    → find_acked session s.acked_sockets ≡ some a
    → (a.receiving_length == 0) ≡ true
    → modify_session session (request_recv len front) s.acked_sockets ≡ some l
    → AreSound s
    → AreSound (record s { acked_sockets = l })
unfolding request_recv
request_recv-AreSound session len front s a l e none_open g i = record {
  acked =
      modify_session-AllSound session (request_recv len front) s.acked_sockets l g
        (λ x f h.
          let same : a.receiving_length ≡ x.receiving_length = ap (length_or a) (sym e ∙ f) in
          let none_there : x.receiving_length ≡ 0 = ground arith in
          record { ordered = h.ordered; fits = omega (arith, h.fits, none_there) })
        i.acked;
  waiting = i.waiting;
}
  where
    length_or : AckedSock → Option AckedSock → ℕ
    length_or d none = d.receiving_length
    length_or d (some x) = x.receiving_length

pub deliver_package-AreSound :
    {F : Type 0} (b : BindedSock) (m : TrollMessage) (fresh : List ℕ) (s : Tcpd F)
    → AreSound s
    → AreSound (deliver_package b m fresh s)
unfolding deliver_package
deliver_package-AreSound b m fresh s i =
    elim (Option-cases (modify_session m.session (receive_package m) s.acked_sockets)) [
      | inr (l, e) ↦
          rw (e, deliver_package)
            (record {
              acked =
                  modify_session-AllSound m.session (receive_package m) s.acked_sockets l e
                    (λ x f. receive_package-IsSound m x) i.acked;
              waiting = i.waiting;
            })
      | inl e ↦
          elim (Option-cases (modify_session m.session (receive_package m) s.waiting_ack_sockets)) [
            | inr (l, f) ↦
                rw (e, f, deliver_package)
                  (record {
                    acked = i.acked;
                    waiting =
                        modify_session-AllSound m.session (receive_package m) s.waiting_ack_sockets
                          l f (λ x f. receive_package-IsSound m x) i.waiting;
                  })
            | inl f ↦
                rw (e, f, deliver_package)
                  (record {
                    acked = i.acked;
                    waiting =
                        append-AllSound s.waiting_ack_sockets _ i.waiting
                          (receive_package-IsSound m _ (new_acked-IsSound b m fresh));
                  })
          ]
    ]
