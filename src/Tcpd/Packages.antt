-- ===== src/Tcpd/Packages.antt =====
-- The lists of packages that a socket keeps, as recv_data, recv_ack and recv_timer of
-- final/tcpd.c go through them.
use cse5462_network_programm.Base.{
  ℕ, Bool, ◌&&◌, List, [], ◌∷◌, Option, none, some, ◌==◌, ltb, if◌then◌else◌,
}
use cse5462_network_programm.Wire.{TrollMessage}

-- The loop of recv_data and the insertion behind it: before the first package with a larger
-- number, and not at all beside one of the same number.
unfoldable pub insert_package : TrollMessage → List TrollMessage → List TrollMessage
insert_package m [] = m ∷ []
insert_package m (p ∷ l) =
    if p.seq_num == m.seq_num
    then p ∷ l
    else if ltb m.seq_num p.seq_num
    then m ∷ p ∷ l
    else p ∷ insert_package m l

-- The test of recv_ack and recv_timer.
unfoldable pub same_package : ℕ → ℕ → TrollMessage → Bool
same_package session seq_num m = m.session == session && m.seq_num == seq_num

-- The first package of this session and number with the list without it, or `none`.
unfoldable pub remove_package :
    ℕ → ℕ → List TrollMessage → Option (TrollMessage × List TrollMessage)
remove_package session seq_num [] = none
remove_package session seq_num (p ∷ l) =
    let rest = remove_package session seq_num l in
    if same_package session seq_num p
    then some (p, l)
    else elim rest [ none ↦ none | some r ↦ some (r.0, p ∷ r.1) ]
