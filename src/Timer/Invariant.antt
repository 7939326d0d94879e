-- ===== src/Timer/Invariant.antt =====
-- The delta list of final/timer.c never holds a wait of less than nothing.
use cse5462_network_programm.Base.{
  ℕ, Bool, true, false, List, [], ◌∷◌, Option, none, some, if◌then◌else◌, arith, ◌==◌,
}
use cse5462_network_programm.Base.Int.{ℤ, pos, ◌+ℤ◌, ◌-ℤ◌, ◌≤ℤ◌, int_laws, -ℤ_parts}
use cse5462_network_programm.Timer.{
  TimerNode, TimerRequest, transmit, insert_node, insert_request, add_remain, delete_node,
  cancel_request, handle_request, duplicated, same_timer, timer_request_start, timer_request_cancel,
}
use cse5462_network_programm.Timer.Deadlines.{IsDelta}

insert_node-IsDelta :
    (node : TimerNode) (l : List TimerNode)
    → pos 0 ≤ℤ node.remain_seconds
    → IsDelta l
    → IsDelta (insert_node node l)
unfolding insert_node
insert_node-IsDelta node [] h d = (h, tt)
insert_node-IsDelta node (n ∷ l) h d = ground (
  arith,
  -ℤ_parts n.remain_seconds node.remain_seconds,
  -ℤ_parts node.remain_seconds n.remain_seconds,
  insert_node-IsDelta (record node { remain_seconds = node.remain_seconds -ℤ n.remain_seconds }) l,
)

add_remain-IsDelta :
    (d : ℤ) (l : List TimerNode) → pos 0 ≤ℤ d → IsDelta l → IsDelta (add_remain d l)
unfolding add_remain
add_remain-IsDelta d [] h v = tt
add_remain-IsDelta d (n ∷ l) h v = (omega int_laws, v.1)

abbrev IsDelta? : Option (List TimerNode) → Type 0
IsDelta? none = Unit {0}
IsDelta? (some l) = IsDelta l

delete_node-IsDelta : (s q : ℕ) (l : List TimerNode) → IsDelta l → IsDelta? (delete_node s q l)
unfolding delete_node
delete_node-IsDelta s q [] h = tt
delete_node-IsDelta s q (n ∷ l) h =
    go (delete_node s q l) (delete_node-IsDelta s q l h.1) (same_timer s q n)
  where
    go :
        (o : Option (List TimerNode))
        → IsDelta? o
        → (b : Bool)
        → IsDelta? (
            if b
            then some (add_remain n.remain_seconds l)
            else elim o [ none ↦ none | some l' ↦ some (n ∷ l') ])
    go o v true = add_remain-IsDelta n.remain_seconds l h.0 h.1
    go none v false = tt
    go (some l') v false = (h.0, v)

pub transmit-IsDelta : (c : ℤ) (l : List TimerNode) → IsDelta l → IsDelta (transmit c l)
unfolding transmit
transmit-IsDelta c [] h = tt
transmit-IsDelta c (n ∷ l) h = ground (arith, transmit-IsDelta (n.remain_seconds +ℤ c) l h.1)

-- Every request with a wait of at least nothing keeps the list so, whatever its type.
pub handle_request-IsDelta :
    (type : ℕ) (r : TimerRequest) (addr : ℕ) (l : List TimerNode)
    → pos 0 ≤ℤ r.seconds
    → IsDelta l
    → IsDelta (handle_request type r addr l)
unfolding handle_request insert_request cancel_request
handle_request-IsDelta type r addr l h d =
    go (delete_node r.session r.seq_num l) (delete_node-IsDelta r.session r.seq_num l d)
      (duplicated r.session r.seq_num l) (type == timer_request_start)
      (type == timer_request_cancel)
  where
    node : TimerNode
    node = record {
      session = r.session;
      seq_num = r.seq_num;
      remain_seconds = r.seconds;
      request_addr = addr;
    }

    go :
        (o : Option (List TimerNode))
        → IsDelta? o
        → (dup start cancel : Bool)
        → IsDelta (
            if start
            then (let p : ℕ × List TimerNode = if dup then (1, l) else (0, insert_node node l) in
                p.1)
            else if cancel
            then (let p : ℕ × List TimerNode = elim o [ none ↦ (1, l) | some l' ↦ (0, l') ] in p.1)
            else l)
    go o v true true c = d
    go o v false true c = insert_node-IsDelta node l h d
    go none v dup false true = d
    go (some l') v dup false true = v
    go o v dup false false = d
