-- ===== src/Proj1/TimerList.antt =====
-- The timer process of proj1/timer.c: a list of nodes in the order of the times at which they expire.
-- A double number of seconds is a whole number of microseconds, not negative.
pub mod Sorted
pub mod Rounds
use cse5462_network_programm.Base.{
  ℕ, ◌+◌, ◌-◌, ◌*◌, ◌/◌, ◌%◌, Bool, true, false, List, [], ◌∷◌, Option, none, some, ◌==◌, ltb, leb,
  if◌then◌else◌,
}
use cse5462_network_programm.Timer.{TimeVal}

-- `struct time_node`
pub record TimeNode : Type 0 where
  pub id : ℕ
  pub expire_time : TimeVal

-- `timercmp(a, b, >)` of timer.h
unfoldable pub later : TimeVal → TimeVal → Bool
later a b = if a.tv_sec == b.tv_sec then ltb b.tv_usec a.tv_usec else ltb b.tv_sec a.tv_sec

-- `timeradd` of timer.h
unfoldable pub time_add : TimeVal → TimeVal → TimeVal
time_add a b =
    if leb 1000000 (a.tv_usec + b.tv_usec)
    then record { tv_sec = a.tv_sec + b.tv_sec + 1; tv_usec = a.tv_usec + b.tv_usec - 1000000 }
    else record { tv_sec = a.tv_sec + b.tv_sec; tv_usec = a.tv_usec + b.tv_usec }

-- `delta_time` of `insert`: the seconds, and a thousand times the fraction of a second.
unfoldable pub delta_time : ℕ → TimeVal
delta_time t = record { tv_sec = t / 1000000; tv_usec = t % 1000000 * 1000 / 1000000 }

-- The loop of `insert` and the insertion behind it.
unfoldable pub insert_time_node : TimeNode → List TimeNode → List TimeNode
insert_time_node node [] = node ∷ []
insert_time_node node (n ∷ l) =
    let rest = insert_time_node node l in
    if later node.expire_time n.expire_time then n ∷ rest else node ∷ n ∷ l

-- `insert`, where the clock shows `now`
unfoldable pub insert_timer : TimeVal → List TimeNode → ℕ → ℕ → List TimeNode
insert_timer now head expire_time id =
    insert_time_node (record { id = id; expire_time = time_add (delta_time expire_time) now }) head

-- `delele`
unfoldable pub delete_timer : List TimeNode → ℕ → List TimeNode
delete_timer [] id = []
delete_timer (n ∷ l) id = let rest = delete_timer l id in if n.id == id then l else n ∷ rest

-- `delete_all`: what is left.
unfoldable pub delete_all : List TimeNode → List TimeNode
delete_all [] = []
delete_all (n ∷ l) = delete_all l

-- `update`, where the clock shows `now`
unfoldable pub update_timers : TimeVal → List TimeNode → List TimeNode
update_timers now [] = []
update_timers now (n ∷ l) =
    let rest = update_timers now l in if later n.expire_time now then n ∷ l else rest

-- The structs that go through the pipe: `start_args`, `cancel_args`, `stop_args`, and any other
-- command byte.
pub data Command : Type 0 where
  start_args : ℕ → ℕ → Command
  cancel_args : ℕ → Command
  stop_args : Command
  other_args : ℕ → Command

-- `start_timer` and `send_to_timer`: the RTO is cut to whole seconds.
unfoldable pub start_timer : ℕ → ℕ → Command
start_timer expire_time id = start_args id expire_time

unfoldable pub send_to_timer : ℕ → ℕ → Command
send_to_timer rto seq = start_timer (rto * 1000000) seq

-- `cancel_timer` and `delete_from_timer`, and `stop_timer`
unfoldable pub delete_from_timer : ℕ → Command
delete_from_timer seq = cancel_args seq

unfoldable pub stop_timer : Command
stop_timer = stop_args

-- What `select` comes to in a round: an error, nothing, or a command to be read.
pub data Polled : Type 0 where
  select_failed : Polled
  nothing_there : Polled
  command_there : Command → Polled

-- The `switch` over the command; `none` where the process exits.
unfoldable pub run_command : TimeVal → Command → List TimeNode → Option (List TimeNode)
run_command now (start_args id expire_time) head = some (insert_timer now head expire_time id)
run_command now (cancel_args id) head = some (delete_timer head id)
run_command now stop_args head = none
run_command now (other_args c) head = some head

-- One round of the loop: the clock shows `now` after `select`, and `next` at an insertion.
unfoldable pub timer_round : TimeVal → TimeVal → Polled → List TimeNode → Option (List TimeNode)
timer_round now next select_failed head = some (update_timers now head)
timer_round now next nothing_there head = some (update_timers now head)
timer_round now next (command_there c) head = run_command next c (update_timers now head)
