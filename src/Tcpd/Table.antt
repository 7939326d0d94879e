-- ===== src/Tcpd/Table.antt =====
-- `ConnectedSockets` of final/tcpd.c: the packages in its sockets, and its keys.
use mathlib.Core.List.{Perm}
use mathlib.Core.List.Perm
use mathlib.Core.List as Library
use mathlib.Core.Nat as Library_Nat
use cse5462_network_programm.Base.{
  ℕ, suc, ◌+◌, ◌≡◌, refl, ap, inl, inr, false, List, [], ◌∷◌, ◌++◌, ◌==◌, arith, Bool-cases, none,
  some, length,
}
use cse5462_network_programm.Base.Int.{ℤ, pos, ◌+ℤ◌, ◌-ℤ◌}
use cse5462_network_programm.Wire.{TrollMessage}
use cse5462_network_programm.Tcpd.{ConnectedSock}
use cse5462_network_programm.Tcpd.Acks.{expire, set_connected, find_session}
use cse5462_network_programm.Tcpd.Front.{find_connected, insert_connected}
use cse5462_network_programm.Tcpd.Window.{all_packages}

length_of_library {ℓ} :
    {A : Type ℓ} (xs ys : List A) → Library.length xs ≡ Library.length ys → length xs ≡ length ys
length_of_library [] [] h = refl
length_of_library [] (y ∷ ys) h = cc
length_of_library (x ∷ xs) [] h = cc
length_of_library (x ∷ xs) (y ∷ ys) h = ap suc (length_of_library xs ys (Library_Nat.suc_inj h))

pub Perm-length : {xs ys : List TrollMessage} → Perm xs ys → length xs ≡ length ys
Perm-length {xs} {ys} p = length_of_library xs ys (Perm.length-eq p)

-- The packages in all lists.
unfoldable pub total : List ConnectedSock → ℕ
total [] = 0
total (c ∷ l) = length (all_packages c) + total l

-- No two entries have the same descriptor: the table's keys are distinct.
unfoldable pub Keyed : List ConnectedSock → Type 0
Keyed [] = Unit {0}
Keyed (c ∷ l) = (find_connected c.socket_fd l ≡ none) × Keyed l

pub total-set_connected :
    (c d : ConnectedSock) (l : List ConnectedSock)
    → find_connected c.socket_fd l ≡ some c
    → d.socket_fd ≡ c.socket_fd
    → total (set_connected d l) + length (all_packages c) ≡ total l + length (all_packages d)
unfolding total set_connected find_connected
total-set_connected c d [] h e = cc
total-set_connected c d (x ∷ l) h e = ground (arith, total-set_connected c d l)

pub find-set_connected :
    (fd : ℕ) (d : ConnectedSock) (l : List ConnectedSock)
    → find_connected fd l ≡ none
    → find_connected fd (set_connected d l) ≡ none
unfolding set_connected find_connected
find-set_connected fd d [] h = refl
find-set_connected fd d (x ∷ l) h = ground (arith, find-set_connected fd d l)

pub set_connected-Keyed :
    (d : ConnectedSock) (l : List ConnectedSock) → Keyed l → Keyed (set_connected d l)
unfolding set_connected Keyed
set_connected-Keyed d [] k = tt
set_connected-Keyed d (x ∷ l) k =
    ground (arith, find-set_connected x.socket_fd d l, set_connected-Keyed d l)

pub find_session-find_connected :
    (session : ℕ) (c : ConnectedSock) (l : List ConnectedSock)
    → Keyed l
    → find_session session l ≡ some c
    → find_connected c.socket_fd l ≡ some c
unfolding find_session find_connected Keyed
find_session-find_connected session c [] k h = cc
find_session-find_connected session c (x ∷ l) k h = elim (Bool-cases (x.session == session)) [
  | inl t ↦ ground (arith, t)
  | inr f ↦
      let here : find_session session l ≡ some c = ground (arith, f) in
      ground (arith, find_session-find_connected session c l k.1 here)
]

pub insert_connected-fresh :
    (c : ConnectedSock) (l : List ConnectedSock)
    → find_connected c.socket_fd l ≡ none
    → insert_connected c l ≡ l ++ c ∷ []
unfolding insert_connected find_connected
insert_connected-fresh c [] h = refl
insert_connected-fresh c (x ∷ l) h = ground (arith, insert_connected-fresh c l)

pub total-append : (l k : List ConnectedSock) → total (l ++ k) ≡ total l + total k
unfolding total
total-append [] k = omega arith
total-append (c ∷ l) k = omega (arith, total-append l k)

pub find-append :
    (fd : ℕ) (c : ConnectedSock) (l : List ConnectedSock)
    → find_connected fd l ≡ none
    → (c.socket_fd == fd) ≡ false
    → find_connected fd (l ++ c ∷ []) ≡ none
unfolding find_connected
find-append fd c [] h e = rw e refl
find-append fd c (x ∷ l) h e = ground (arith, find-append fd c l)

pub append-Keyed :
    (c : ConnectedSock) (l : List ConnectedSock)
    → find_connected c.socket_fd l ≡ none
    → Keyed l
    → Keyed (l ++ c ∷ [])
unfolding find_connected Keyed
append-Keyed c [] h k = (refl, tt)
append-Keyed c (x ∷ l) h k = ground (arith, find-append x.socket_fd c l, append-Keyed c l)

pub expire_fd :
    (session seq_num : ℕ) (c : ConnectedSock) → (expire session seq_num c).socket_fd ≡ c.socket_fd
unfolding expire
expire_fd session seq_num c = ground arith

pub count_up : {x : ℤ} {t n : ℕ} → x ≡ pos t → n ≡ suc t → x +ℤ pos 1 ≡ pos n
unfolding ◌+ℤ◌
count_up h e = rw (h, e) (ground arith)

pub count_down : {x : ℤ} {t n : ℕ} → x ≡ pos t → t ≡ suc n → x -ℤ pos 1 ≡ pos n
unfolding ◌-ℤ◌
count_down h e = rw (h, e) (ground arith)
