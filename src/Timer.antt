-- ===== src/Timer.antt =====
-- The delta list of the timer process, final/timer.c: `TimerList` and the four operations of its
-- main loop. A `double` number of seconds is an integer number of microseconds, added exactly.
-- An address of a requester is the number `Requester` that stands for it.
pub mod Deadlines
pub mod Invariant
mod Tests
pub mod Requests
pub mod Expiry
use Prim.Native.Nat.{ℕ, ◌+◌, ◌*◌, ◌/◌, ◌%◌}
use cse5462_network_programm.Base.{
  Bool, true, false, ◌&&◌, List, [], ◌∷◌, Option, none, some, ◌==◌, if◌then◌else◌,
}
use cse5462_network_programm.Base.Outcome.{Outcome, done, exits, ◌>>=◌}
use cse5462_network_programm.Base.Int.{ℤ, pos, pos_part, ◌+ℤ◌, ◌-ℤ◌, ltb_ℤ}

-- `struct TimerNodeStruct`
pub record TimerNode : Type 0 where
  pub session : ℕ
  pub seq_num : ℕ
  pub remain_seconds : ℤ
  pub request_addr : ℕ

-- `struct TimerRequestStruct`, without its type
pub record TimerRequest : Type 0 where
  pub session : ℕ
  pub seq_num : ℕ
  pub seconds : ℤ

-- `struct TimerExpiredStruct`, with the address that it is sent to
pub record TimerExpired : Type 0 where
  pub session : ℕ
  pub seq_num : ℕ
  pub to_addr : ℕ

-- The test that both searches make of a node.
unfoldable pub same_timer : ℕ → ℕ → TimerNode → Bool
same_timer session seq_num n = n.session == session && n.seq_num == seq_num

-- The first loop of `InsertRequest`: is there a node of this session and number?
unfoldable pub duplicated : ℕ → ℕ → List TimerNode → Bool
duplicated session seq_num [] = false
duplicated session seq_num (n ∷ l) =
    if same_timer session seq_num n then true else duplicated session seq_num l

-- The second loop and the insertion: `node.remain_seconds` falls by each node passed, and the
-- node stopped at falls by what is left of it.
unfoldable pub insert_node : TimerNode → List TimerNode → List TimerNode
insert_node node [] = node ∷ []
insert_node node (n ∷ l) =
    let passed = record node { remain_seconds = node.remain_seconds -ℤ n.remain_seconds } in
    let rest = insert_node passed l in
    if ltb_ℤ node.remain_seconds n.remain_seconds
    then node ∷ record n { remain_seconds = n.remain_seconds -ℤ node.remain_seconds } ∷ l
    else n ∷ rest

-- `InsertRequest`: the result code and the new list.
unfoldable pub insert_request : TimerRequest → ℕ → List TimerNode → ℕ × List TimerNode
insert_request r addr l =
    if duplicated r.session r.seq_num l then (1, l) else (0, insert_node node l)
  where
    node : TimerNode
    node = record {
      session = r.session;
      seq_num = r.seq_num;
      remain_seconds = r.seconds;
      request_addr = addr;
    }

-- What `l->next` gets when the node before it goes: that node's share.
unfoldable pub add_remain : ℤ → List TimerNode → List TimerNode
add_remain d [] = []
add_remain d (n ∷ l) = record n { remain_seconds = n.remain_seconds +ℤ d } ∷ l

-- The search and the removal of `CancelRequest`; `none` if no node is found.
unfoldable pub delete_node : ℕ → ℕ → List TimerNode → Option (List TimerNode)
delete_node session seq_num [] = none
delete_node session seq_num (n ∷ l) =
    let rest = delete_node session seq_num l in
    if same_timer session seq_num n
    then some (add_remain n.remain_seconds l)
    else elim rest [ none ↦ none | some l' ↦ some (n ∷ l') ]

-- `CancelRequest`: the result code and the new list.
unfoldable pub cancel_request : TimerRequest → List TimerNode → ℕ × List TimerNode
cancel_request r l = elim (delete_node r.session r.seq_num l) [ none ↦ (1, l) | some l' ↦ (0, l') ]

-- The loop of `UpdateTimerList`; `carry` is what the node before hands on: at the first node,
-- the elapsed time taken off.
unfoldable pub transmit : ℤ → List TimerNode → List TimerNode
transmit carry [] = []
transmit carry (n ∷ l) =
    let r = n.remain_seconds +ℤ carry in
    let rest = transmit r l in
    if ltb_ℤ (pos 0) r
    then record n { remain_seconds = r } ∷ l
    else record n { remain_seconds = pos 0 } ∷ rest

-- `struct timeval`
pub record TimeVal : Type 0 where
  pub tv_sec : ℕ
  pub tv_usec : ℕ

unfoldable pub microseconds : TimeVal → ℤ
microseconds t = pos (t.tv_sec * 1000000 + t.tv_usec)

-- `ElapsedSeconds`
unfoldable pub elapsed_seconds : TimeVal → TimeVal → ℤ
elapsed_seconds now last = microseconds now -ℤ microseconds last

-- `TimerList` and `LastSystemTime`
pub record Timer : Type 0 where
  pub timer_list : List TimerNode
  pub last_system_time : TimeVal

-- `UpdateTimerList`, where `gettimeofday` says `now`. Its assertion that the last time is not in the
-- second 0 is left out: main has set that time from the clock.
unfoldable pub update_timer_list : TimeVal → Timer → Timer
update_timer_list now t = record {
  timer_list = transmit (pos 0 -ℤ elapsed_seconds now t.last_system_time) t.timer_list;
  last_system_time = now;
}

unfoldable pub expired_of : TimerNode → TimerExpired
expired_of n = record { session = n.session; seq_num = n.seq_num; to_addr = n.request_addr }

-- `SendCallbacks`: what is sent, in order, and the list that is left. `delivers` says whether a
-- `sendto` succeeds; where one fails the process exits.
unfoldable pub send_callbacks :
    (TimerExpired → Bool) → List TimerNode → Outcome (List TimerExpired × List TimerNode)
send_callbacks delivers [] = done ([], [])
send_callbacks delivers (n ∷ l) =
    let rest = send_callbacks delivers l >>= λ p. done (expired_of n ∷ p.0, p.1) in
    if ltb_ℤ (pos 0) n.remain_seconds
    then done ([], n ∷ l)
    else if delivers (expired_of n)
    then rest
    else exits 1

-- What `select` and `recvfrom` bring to a round of the main loop: an error, a timeout, or a request
-- with its type and the address that it came from.
pub data Wakeup : Type 0 where
  select_error : Wakeup
  timed_out : Wakeup
  received : ℕ → TimerRequest → ℕ → Wakeup

abbrev pub timer_request_start : ℕ
timer_request_start = 1

abbrev pub timer_request_cancel : ℕ
timer_request_cancel = 2

-- The `switch` over `NowRequest.Type`
unfoldable pub handle_request : ℕ → TimerRequest → ℕ → List TimerNode → List TimerNode
handle_request type r addr l =
    if type == timer_request_start
    then (insert_request r addr l).1
    else if type == timer_request_cancel
    then (cancel_request r l).1
    else l

-- The end of a round: the callbacks over the list that the request left.
unfoldable pub callback_round :
    (TimerExpired → Bool) → List TimerNode → TimeVal → Outcome (List TimerExpired × Timer)
callback_round delivers l now = do
  p ← send_callbacks delivers l
  done (p.0, record { timer_list = p.1; last_system_time = now })

-- One round of the main loop, behind `select`.
unfoldable pub round :
    (TimerExpired → Bool) → TimeVal → Wakeup → Timer → Outcome (List TimerExpired × Timer)
round delivers now select_error t = exits 1
round delivers now timed_out t = callback_round delivers (update_timer_list now t).timer_list now
round delivers now (received type r addr) t =
    callback_round delivers (handle_request type r addr (update_timer_list now t).timer_list) now
