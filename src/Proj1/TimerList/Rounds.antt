-- ===== src/Proj1/TimerList/Rounds.antt =====
-- A round of the timer process of proj1/timer.c: which timers run on.
use mathlib.Core.List.{Perm}
use mathlib.Core.List.Perm
use cse5462_network_programm.Base.{ℕ, ◌≡◌, ◌≢◌, ◌⊎◌, List, [], ◌∷◌, ◌++◌}
use cse5462_network_programm.Timer.{TimeVal}
use cse5462_network_programm.Proj1.TimerList.{
  TimeNode, time_add, delta_time, start_args, cancel_args, stop_args, other_args, Polled,
  select_failed, nothing_there, command_there,
}

-- No node has this id.
abbrev pub NoneHas : ℕ → List TimeNode → Type 0
NoneHas id [] = Unit {0}
NoneHas id (n ∷ l) = (n.id ≢ id) × NoneHas id l

-- `l'` is `l` without the first node of this id, if there is one.
abbrev pub Removed : ℕ → List TimeNode → List TimeNode → Type 0
Removed id l l' =
    (NoneHas id l × (l' ≡ l))
    ⊎ ((before : List TimeNode) × (n : TimeNode) × (after : List TimeNode) × (l
          ≡ before ++ n ∷ after)
        × NoneHas id before
        × (n.id ≡ id)
        × (l' ≡ before ++ after))

-- What a round leaves of the timers `l` that have not expired, in any order.
abbrev pub Leaves : TimeVal → Polled → List TimeNode → List TimeNode → Type 0
Leaves next select_failed l l' = Perm l' l
Leaves next nothing_there l l' = Perm l' l
Leaves next (command_there (start_args id t)) l l' =
    Perm l' (record { id = id; expire_time = time_add (delta_time t) next } ∷ l)
Leaves next (command_there (cancel_args id)) l l' = Removed id l l'
Leaves next (command_there stop_args) l l' = ⊥
Leaves next (command_there (other_args c)) l l' = Perm l' l
