-- ===== src/Timer/Tests.antt =====
-- The functions of final/timer.c on the requests of final/driver.c, and its theorems at work.
use cse5462_network_programm.Base.{ℕ, ◌≡◌, refl, ◌⊎◌, true, false, not, List, [], ◌∷◌, map, arith}
use cse5462_network_programm.Base.Outcome.{done}
use cse5462_network_programm.Base.Int.{ℤ, pos, ◌+ℤ◌, ◌-ℤ◌}
use cse5462_network_programm.Timer.{
  duplicated, insert_node, same_timer, delete_node, add_remain, TimerNode, TimerRequest, TimeVal,
  Timer, insert_request, cancel_request, round, timed_out, received, elapsed_seconds,
  update_timer_list, handle_request,
}
use cse5462_network_programm.Timer.Deadlines.{
  deadlines, has_timer, insert_due, remove_due, select, age, is_due, IsDelta,
}
use cse5462_network_programm.Timer.Requests.{insert_request_lem, cancel_request_lem}
use cse5462_network_programm.Timer.Expiry.{expired_due, round_timed_out, round_total}

abbrev node : ℕ → ℤ → TimerNode
node q r = record { session = 7; seq_num = q; remain_seconds = r; request_addr = 9 }

abbrev request : ℕ → ℤ → TimerRequest
request q s = record { session = 7; seq_num = q; seconds = s }

abbrev first_three : List TimerNode
first_three = node 2 (pos 10) ∷ node 1 (pos 10) ∷ node 3 (pos 10) ∷ []

abbrev at : ℕ → TimeVal
at us = record { tv_sec = 5; tv_usec = us }

abbrev running : Timer
running = record { timer_list = first_three; last_system_time = at 100 }

start_three :
    (insert_request
      (request 3 (pos 30))
      9
      (insert_request (request 2 (pos 10)) 9 (insert_request (request 1 (pos 20)) 9 []).1).1).1
    ≡ first_three
unfolding insert_request duplicated insert_node same_timer ◌-ℤ◌
start_three = refl

cancel_one :
    cancel_request (request 1 (pos 0)) first_three ≡ (0, node 2 (pos 10) ∷ node 3 (pos 20) ∷ [])
unfolding cancel_request delete_node same_timer add_remain ◌+ℤ◌
cancel_one = refl

round_timed_out_example :
    (left : List TimerNode) × (round (λ _. true) (at 121) timed_out running
      ≡ done (
        map expired_due
            (select (is_due (elapsed_seconds (at 121) (at 100))) (deadlines (pos 0) first_three)),
        record { timer_list = left; last_system_time = at 121 },
      ))
    × (deadlines (pos 0) left
        ≡ map (age (elapsed_seconds (at 121) (at 100))) (
            select
              (λ d. not (is_due (elapsed_seconds (at 121) (at 100)) d))
              (deadlines (pos 0) first_three)))
    × IsDelta left
round_timed_out_example = round_timed_out (λ _. true) (λ _. refl) (at 121) running (omega arith)

round_total_example :
    let l =
      handle_request 1 (request 4 (pos 5)) 9 (update_timer_list (at 121) running).timer_list in
    (left : List TimerNode) × (round (λ _. true) (at 121) (received 1 (request 4 (pos 5)) 9) running
      ≡ done (
        map expired_due (select (is_due (pos 0)) (deadlines (pos 0) l)),
        record { timer_list = left; last_system_time = at 121 },
      ))
    × (deadlines (pos 0) left ≡ select (λ d. not (is_due (pos 0) d)) (deadlines (pos 0) l))
    × IsDelta left
round_total_example =
    round_total (λ _. true) (λ _. refl) (at 121) 1 (request 4 (pos 5)) 9 running (omega arith)
      (omega arith)

insert_request_lem_example :
    let (code, l') = insert_request (request 4 (pos 15)) 9 first_three in
    ((has_timer 7 4 (deadlines (pos 0) first_three) ≡ true) × (code ≡ 1) × (l' ≡ first_three))
    ⊎ ((has_timer 7 4 (deadlines (pos 0) first_three) ≡ false)
        × (code ≡ 0)
        × (deadlines (pos 0) l'
            ≡ insert_due
                (record { session = 7; seq_num = 4; addr = 9; due = pos 15 })
                (deadlines (pos 0) first_three)))
insert_request_lem_example = insert_request_lem (request 4 (pos 15)) 9 first_three

cancel_request_lem_example :
    let (code, l') = cancel_request (request 1 (pos 0)) first_three in
    ((has_timer 7 1 (deadlines (pos 0) first_three) ≡ false) × (code ≡ 1) × (l' ≡ first_three))
    ⊎ ((has_timer 7 1 (deadlines (pos 0) first_three) ≡ true)
        × (code ≡ 0)
        × (deadlines (pos 0) l' ≡ remove_due 7 1 (deadlines (pos 0) first_three)))
cancel_request_lem_example = cancel_request_lem (request 1 (pos 0)) first_three
