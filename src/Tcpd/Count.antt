-- ===== src/Tcpd/Count.antt =====
-- `in_buffer_packages` of final/tcpd.c, on which the daemon decides whether to listen to the
-- applications, is the number of packages in the sockets' lists.
use mathlib.Core.List.{Perm, perm_middle}
use mathlib.Core.List.Perm
use cse5462_network_programm.Base.{
  ℕ, ◌≡◌, refl, ◌⊎◌, inl, inr, true, false, List, [], ◌∷◌, ◌++◌, append-nil, append_assoc, Option,
  none, some,
}
use cse5462_network_programm.Wire.{TrollMessage}
use cse5462_network_programm.Tcpd.{ConnectedSock}
use cse5462_network_programm.Tcpd.Packages.{remove_package, same_package}
use cse5462_network_programm.Tcpd.Acks.{acknowledge, expire}
use cse5462_network_programm.Tcpd.Window.{
  all_packages, select_packages, Removal, remove_package-Removal,
}

-- An acknowledgement takes exactly the package that it names out of those sent, and only one; where
-- there is none the socket stays as it is. The pending packages are not looked at.
pub acknowledge_lem :
    (session seq_num : ℕ) (c : ConnectedSock)
    → ((select_packages (same_package session seq_num) c.packages ≡ [])
        × (acknowledge session seq_num c ≡ (false, c)))
      ⊎ ((m : TrollMessage) × (rest : List TrollMessage) × (acknowledge session seq_num c
            ≡ (true, record c { packages = rest }))
          × (same_package session seq_num m ≡ true)
          × Perm (m ∷ rest) c.packages)
unfolding acknowledge
acknowledge_lem session seq_num c =
    go (remove_package session seq_num c.packages) refl
      (remove_package-Removal session seq_num c.packages)
  where
    go :
        (o : Option (TrollMessage × List TrollMessage))
        → remove_package session seq_num c.packages ≡ o
        → Removal session seq_num c.packages o
        → ((select_packages (same_package session seq_num) c.packages ≡ [])
            × (acknowledge session seq_num c ≡ (false, c)))
          ⊎ ((m : TrollMessage) × (rest : List TrollMessage) × (acknowledge session seq_num c
                ≡ (true, record c { packages = rest }))
              × (same_package session seq_num m ≡ true)
              × Perm (m ∷ rest) c.packages)
    go none e h = inl (h, rw (e, acknowledge) refl)
    go (some r) e h = inr (r.0, r.1, rw (e, acknowledge) refl, h.named, h.parts)

-- A timer that runs out loses and doubles no package of the socket: at most one goes from those
-- sent to the end of the pending ones.
pub expire-perm :
    (session seq_num : ℕ) (c : ConnectedSock)
    → Perm (all_packages (expire session seq_num c)) (all_packages c)
unfolding expire
expire-perm session seq_num c =
    go (remove_package session seq_num c.packages) refl
      (remove_package-Removal session seq_num c.packages)
  where
    go :
        (o : Option (TrollMessage × List TrollMessage))
        → remove_package session seq_num c.packages ≡ o
        → Removal session seq_num c.packages o
        → Perm (all_packages (expire session seq_num c)) (all_packages c)
    go none e h = rw (e, expire) (Perm.refl (all_packages c))
    go (some r) e h =
        rw (e, expire, ← append_assoc r.1 c.pending_packages (r.0 ∷ []))
          (Perm.trans (perm_middle (r.1 ++ c.pending_packages) [])
            (rw append-nil (Perm.append h.parts (Perm.refl c.pending_packages))))
