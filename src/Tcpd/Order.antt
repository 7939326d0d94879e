-- ===== src/Tcpd/Order.antt =====
-- The receiver's list of packages in final/tcpd.c is in order of the sequence numbers, without
-- repetition, and holds just what has arrived.
use cse5462_network_programm.Base.{
  ℕ, suc, ◌≤◌, ◌<◌, ◌≡◌, refl, ◌⊎◌, Bool, true, false, ◌||◌, ◌&&◌, List, [], ◌∷◌, ◌==◌, ltb, leb,
  if◌then◌else◌, arith,
}
use cse5462_network_programm.Wire.{TrollMessage}
use cse5462_network_programm.Tcpd.{AckedSock}
use cse5462_network_programm.Tcpd.Packages.{insert_package}
use cse5462_network_programm.Tcpd.Receive.{receive_package}

-- Numbers from `lo` on, each larger than the one before.
abbrev pub Ascending : ℕ → List TrollMessage → Type 0
Ascending lo [] = Unit {0}
Ascending lo (m ∷ l) = (lo ≤ m.seq_num) × Ascending (suc m.seq_num) l

abbrev pub All : (TrollMessage → Type 0) → List TrollMessage → Type 0
All P [] = Unit {0}
All P (m ∷ l) = P m × All P l

-- Is there a package of this number?
unfoldable pub holds : ℕ → List TrollMessage → Bool
holds q [] = false
holds q (m ∷ l) = (m.seq_num == q) || holds q l

pub Ascending-mono : {lo hi : ℕ} (l : List TrollMessage) → lo ≤ hi → Ascending hi l → Ascending lo l
Ascending-mono [] h a = tt
Ascending-mono (m ∷ l) h a = (omega arith, a.1)

pub insert_package-Ascending :
    (m : TrollMessage) (lo : ℕ) (l : List TrollMessage)
    → lo ≤ m.seq_num
    → Ascending lo l
    → Ascending lo (insert_package m l)
unfolding insert_package
insert_package-Ascending m lo [] h a = (h, tt)
insert_package-Ascending m lo (p ∷ l) h a =
    ground (arith, insert_package-Ascending m (suc p.seq_num) l)

pub insert_package-All :
    (P : TrollMessage → Type 0) (m : TrollMessage) (l : List TrollMessage)
    → P m
    → All P l
    → All P (insert_package m l)
unfolding insert_package
insert_package-All P m [] h a = (h, tt)
insert_package-All P m (p ∷ l) h a =
    go (p.seq_num == m.seq_num) (ltb m.seq_num p.seq_num) (insert_package-All P m l h a.1)
  where
    go :
        (b c : Bool)
        → All P (insert_package m l)
        → All P (if b then p ∷ l else if c then m ∷ p ∷ l else p ∷ insert_package m l)
    go true c r = a
    go false true r = (h, a)
    go false false r = (a.0, r)

pub holds-insert_package :
    (q : ℕ) (m : TrollMessage) (l : List TrollMessage)
    → holds q (insert_package m l) ≡ ((m.seq_num == q) || holds q l)
unfolding insert_package holds
holds-insert_package q m [] = refl
holds-insert_package q m (p ∷ l) = ground (arith, holds-insert_package q m l)

-- Below the first number nothing is held.
pub holds_below : (q lo : ℕ) (l : List TrollMessage) → q < lo → Ascending lo l → holds q l ≡ false
unfolding holds
holds_below q lo [] h a = refl
holds_below q lo (m ∷ l) h a = ground (arith, holds_below q (suc m.seq_num) l)

-- The packages of a socket are in order from its base on.
abbrev pub IsOrdered : AckedSock → Type 0
IsOrdered a = Ascending a.base a.packages

-- A frame that arrives keeps the packages of the socket in order without repetition. It is held
-- afterwards, beside all that was held, exactly if its number is not below the base.
pub receive_package-IsOrdered :
    (m : TrollMessage) (a : AckedSock)
    → IsOrdered a
    → IsOrdered (receive_package m a)
      × ((q : ℕ)
          → holds q (receive_package m a).packages
            ≡ ((leb a.base m.seq_num && (m.seq_num == q)) || holds q a.packages))
unfolding receive_package
receive_package-IsOrdered m a h = (
  ground (arith, insert_package-Ascending m a.base a.packages),
  λ q. ground (arith, holds-insert_package q m a.packages),
)

insert_package_held :
    (m : TrollMessage) (lo : ℕ) (l : List TrollMessage)
    → Ascending lo l
    → holds m.seq_num l ≡ true
    → insert_package m l ≡ l
unfolding insert_package holds
insert_package_held m lo [] a h = cc
insert_package_held m lo (p ∷ l) a h =
    ground (arith, insert_package_held m (suc p.seq_num) l, holds_below m.seq_num (suc p.seq_num) l)

-- A frame that is outdated or held already changes nothing.
pub receive_package_again :
    (m : TrollMessage) (a : AckedSock)
    → IsOrdered a
    → ((m.seq_num < a.base) ⊎ (holds m.seq_num a.packages ≡ true))
    → receive_package m a ≡ a
unfolding receive_package
receive_package_again m a h seen = ground (arith, insert_package_held m a.base a.packages)
