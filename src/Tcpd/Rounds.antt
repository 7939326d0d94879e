-- ===== src/Tcpd/Rounds.antt =====
-- The main loop of final/tcpd.c: the count of buffered packages over any number of rounds.
use cse5462_network_programm.Base.{◌≡◌, true, Option, some}
use cse5462_network_programm.Base.Outcome.{done}
use cse5462_network_programm.Wire.{max_buffer_packages}
use cse5462_network_programm.Tcpd.{Tcpd, Machine}
use cse5462_network_programm.Tcpd.Loop.{Arrivals, listens, main_round}
use cse5462_network_programm.Tcpd.Keeps.{Keeps}
use cse5462_network_programm.Tcpd.Backed.{IsBounded}

-- `select` reports the applications' socket only where re_register_fd has put it into the set.
abbrev pub Selects : {F : Type 0} → (Tcpd F → Option Arrivals) → Type 0
Selects wait = (t : Tcpd _) (a : Arrivals) → wait t ≡ some a → a.front ≡ true → listens t ≡ true

abbrev IsFull : {F : Type 0} → Tcpd F → Type 0
IsFull = IsBounded max_buffer_packages

-- The states that the main loop comes to.
pub data Rounds {F : Type 0} (env : Machine F) (s : Tcpd F) : Tcpd F → Type 0 where
  started : Rounds env s s
  next_round :
      {t u : Tcpd F} (wait : Tcpd F → Option Arrivals)
      → Selects wait
      → Rounds env s t
      → main_round env wait t ≡ done (tt, u)
      → Rounds env s u
