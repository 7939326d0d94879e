-- ===== src/Timer/Expiry.antt =====
-- `UpdateTimerList`, `SendCallbacks` and a round of the main loop of final/timer.c: exactly the
-- timers that have run out are called back.
use cse5462_network_programm.Base.{
  ℕ, ◌≡◌, refl, ◌∙◌, Bool, true, not, inl, inr, List, [], ◌∷◌, map, arith, Bool-cases,
}
use cse5462_network_programm.Base.Outcome.{Outcome, done}
use cse5462_network_programm.Base.Int.{
  ℤ, pos, ◌+ℤ◌, ◌-ℤ◌, ◌≤ℤ◌, ltb_ℤ, int_laws, +ℤ_parts, -ℤ_parts,
}
use cse5462_network_programm.Timer.{
  TimerNode, TimerRequest, TimerExpired, Timer, TimeVal, transmit, update_timer_list, expired_of,
  send_callbacks, elapsed_seconds, callback_round, round, timed_out, received, handle_request,
}
use cse5462_network_programm.Timer.Invariant.{transmit-IsDelta, handle_request-IsDelta}
use cse5462_network_programm.Timer.Deadlines.{
  Due, due_of, deadlines, IsDelta, select, age, is_due, zero-+ℤ,
}

age_step : (x e : ℤ) → x +ℤ (pos 0 -ℤ e) ≡ x -ℤ e
age_step x e = omega int_laws

-- `deadlines` behind a carry of `c` has each time `c` later than the list alone.
pub age-deadlines_live :
    (a e : ℤ) (l : List TimerNode)
    → IsDelta l
    → ltb_ℤ (pos 0) (a -ℤ e) ≡ true
    → map (age e) (deadlines a l) ≡ deadlines (a -ℤ e) l
unfolding deadlines age due_of
age-deadlines_live a e [] h p = refl
age-deadlines_live a e (n ∷ l) h p =
    ground (arith, live, shift, age-deadlines_live (a +ℤ n.remain_seconds) e l h.1 live)
  where
    shift : a +ℤ n.remain_seconds -ℤ e ≡ a -ℤ e +ℤ n.remain_seconds
    shift = omega int_laws

    live : ltb_ℤ (pos 0) (a +ℤ n.remain_seconds -ℤ e) ≡ true
    live =
        ground
          (arith, +ℤ_parts a n.remain_seconds, -ℤ_parts (a +ℤ n.remain_seconds) e, -ℤ_parts a e)

pub deadlines-transmit :
    (a e : ℤ) (l : List TimerNode)
    → IsDelta l
    → deadlines (pos 0) (transmit (a -ℤ e) l) ≡ map (age e) (deadlines a l)
unfolding deadlines age due_of transmit
deadlines-transmit a e [] h = refl
deadlines-transmit a e (n ∷ l) h = elim (Bool-cases (ltb_ℤ (pos 0) (a +ℤ n.remain_seconds -ℤ e))) [
  | inl live ↦ ground (
    arith,
    live,
    shift,
    zero-+ℤ (n.remain_seconds +ℤ (a -ℤ e)),
    age-deadlines_live (a +ℤ n.remain_seconds) e l h.1 live,
  )
  | inr gone ↦
      ground
        (arith, gone, shift, zero-+ℤ (pos 0), deadlines-transmit (a +ℤ n.remain_seconds) e l h.1)
]
  where
    shift : n.remain_seconds +ℤ (a -ℤ e) ≡ a +ℤ n.remain_seconds -ℤ e
    shift = omega int_laws

pub expired_due : Due → TimerExpired
expired_due d = record { session = d.session; seq_num = d.seq_num; to_addr = d.addr }

-- Times that lie behind a positive time are positive.
select_live :
    (a : ℤ) (l : List TimerNode)
    → IsDelta l
    → ltb_ℤ (pos 0) a ≡ true
    → (select (is_due (pos 0)) (deadlines a l) ≡ [])
      × (select (λ d. not (is_due (pos 0) d)) (deadlines a l) ≡ deadlines a l)
unfolding select is_due deadlines due_of
select_live a [] h p = (refl, refl)
select_live a (n ∷ l) h p =
    let live : ltb_ℤ (pos 0) (a +ℤ n.remain_seconds) ≡ true =
      ground (arith, +ℤ_parts a n.remain_seconds) in
    let same : a +ℤ n.remain_seconds -ℤ pos 0 ≡ a +ℤ n.remain_seconds = omega int_laws in
    let rest = select_live (a +ℤ n.remain_seconds) l h.1 live in
    (ground (arith, live, same, rest), ground (arith, live, same, rest))

due_now : (x : ℤ) (n : TimerNode) → is_due (pos 0) (due_of x n) ≡ not (ltb_ℤ (pos 0) x)
unfolding is_due due_of
due_now x n = let same : x -ℤ pos 0 ≡ x = omega int_laws in rw same

expired_due-due_of : (x : ℤ) (n : TimerNode) → expired_due (due_of x n) ≡ expired_of n
unfolding expired_due due_of expired_of
expired_due-due_of x n = refl

-- What is sent and what is left, of a list whose nodes do not wait for less than nothing.
record CallsBack (l : List TimerNode) (r : Outcome (List TimerExpired × List TimerNode))
    : Type 0 where
  left : List TimerNode
  sent : r ≡ done (map expired_due (select (is_due (pos 0)) (deadlines (pos 0) l)), left)
  kept : deadlines (pos 0) left ≡ select (λ d. not (is_due (pos 0) d)) (deadlines (pos 0) l)
  delta : IsDelta left

module _ (delivers : TimerExpired → Bool) (all : (x : TimerExpired) → delivers x ≡ true) where
  send_callbacks-CallsBack :
      (l : List TimerNode) → IsDelta l → CallsBack l (send_callbacks delivers l)
  unfolding send_callbacks select deadlines
  send_callbacks-CallsBack [] h = record { left = []; sent = refl; kept = refl; delta = tt }
  send_callbacks-CallsBack (n ∷ l) h = elim (Bool-cases (ltb_ℤ (pos 0) n.remain_seconds)) [
    | inl live ↦
        let live' : ltb_ℤ (pos 0) (pos 0 +ℤ n.remain_seconds) ≡ true = rw zero-+ℤ live in
        record {
          left = n ∷ l;
          sent = ground (
            arith,
            live,
            zero-+ℤ n.remain_seconds,
            due_now (pos 0 +ℤ n.remain_seconds) n,
            select_live (pos 0 +ℤ n.remain_seconds) l h.1 live',
          );
          kept = ground (
            arith,
            live,
            zero-+ℤ n.remain_seconds,
            due_now (pos 0 +ℤ n.remain_seconds) n,
            select_live (pos 0 +ℤ n.remain_seconds) l h.1 live',
          );
          delta = h;
        }
    | inr gone ↦
        let rest = send_callbacks-CallsBack l h.1 in
        let at_zero : pos 0 +ℤ n.remain_seconds ≡ pos 0 =
          ground (arith, zero-+ℤ n.remain_seconds) in
        let due : is_due (pos 0) (due_of (pos 0) n) ≡ true = due_now (pos 0) n in
        record {
          left = rest.left;
          sent =
              rw (gone, all (expired_of n), at_zero, due, rest.sent, expired_due-due_of (pos 0) n)
                refl;
          kept = rw (at_zero, due) rest.kept;
          delta = rest.delta;
        }
  ]

expired_due-age : (e : ℤ) (d : Due) → expired_due (age e d) ≡ expired_due d
unfolding expired_due age
expired_due-age e d = refl

is_due-age : (e : ℤ) (d : Due) → is_due (pos 0) (age e d) ≡ is_due e d
unfolding is_due age
is_due-age e d = ground (arith, -ℤ_parts (d.due -ℤ e) (pos 0), -ℤ_parts (pos 0) (pos 0))

select-age :
    (e : ℤ) (p : Bool → Bool) (l : List Due)
    → select (λ d. p (is_due (pos 0) d)) (map (age e) l)
      ≡ map (age e) (select (λ d. p (is_due e d)) l)
unfolding select
select-age e p [] = refl
select-age e p (d ∷ l) = elim (Bool-cases (p (is_due e d))) [
  | inl h ↦ rw (is_due-age e d, h, select-age e p l)
  | inr h ↦ rw (is_due-age e d, h, select-age e p l)
]

map-expired_due-age : (e : ℤ) (l : List Due) → map expired_due (map (age e) l) ≡ map expired_due l
map-expired_due-age e [] = refl
map-expired_due-age e (d ∷ l) = rw (expired_due-age e d, map-expired_due-age e l)

module _ (delivers : TimerExpired → Bool) (all : (x : TimerExpired) → delivers x ≡ true) where
  callback_round_lem :
      (l : List TimerNode) (now : TimeVal)
      → IsDelta l
      → (left : List TimerNode) × (callback_round delivers l now
          ≡ done (
            map expired_due (select (is_due (pos 0)) (deadlines (pos 0) l)),
            record { timer_list = left; last_system_time = now },
          ))
        × (deadlines (pos 0) left ≡ select (λ d. not (is_due (pos 0) d)) (deadlines (pos 0) l))
        × IsDelta left
  unfolding callback_round
  callback_round_lem l now h =
      let calls = send_callbacks-CallsBack delivers all l h in
      (calls.left, rw calls.sent, calls.kept, calls.delta)

  -- A round of the main loop that no request interrupts: the timers called back are exactly those
  -- whose time is no more than the time that has passed, in the order in which they ran out; the
  -- others stay, each with its time less what has passed. It is supposed that no wait in the
  -- list is negative and that every datagram can be sent.
  pub round_timed_out :
      (now : TimeVal) (t : Timer)
      → IsDelta t.timer_list
      → let e = elapsed_seconds now t.last_system_time in
        (left : List TimerNode) × (round delivers now timed_out t
          ≡ done (
            map expired_due (select (is_due e) (deadlines (pos 0) t.timer_list)),
            record { timer_list = left; last_system_time = now },
          ))
        × (deadlines (pos 0) left
            ≡ map (age e) (select (λ d. not (is_due e d)) (deadlines (pos 0) t.timer_list)))
        × IsDelta left
  unfolding round update_timer_list
  round_timed_out now t h =
      let e = elapsed_seconds now t.last_system_time in
      let l = transmit (pos 0 -ℤ e) t.timer_list in
      let (left, sent, kept, delta) = callback_round_lem l now (transmit-IsDelta _ _ h) in
      let aged = deadlines-transmit (pos 0) e t.timer_list h in
      (
        left,
        sent
            ∙ rw (aged, select-age e (λ b. b) (deadlines (pos 0) t.timer_list), map-expired_due-age)
                refl,
        kept ∙ rw aged (select-age e not (deadlines (pos 0) t.timer_list)),
        delta,
      )

  -- A round always ends with the next list and never in an error, whatever request it reads, if
  -- the request's wait is not negative and every datagram can be sent; what is left in the list has
  -- not run out, so the wait of the first node is positive and that of every other not negative.
  pub round_total :
      (now : TimeVal) (type : ℕ) (r : TimerRequest) (addr : ℕ) (t : Timer)
      → pos 0 ≤ℤ r.seconds
      → IsDelta t.timer_list
      → let l = handle_request type r addr (update_timer_list now t).timer_list in
        (left : List TimerNode) × (round delivers now (received type r addr) t
          ≡ done (
            map expired_due (select (is_due (pos 0)) (deadlines (pos 0) l)),
            record { timer_list = left; last_system_time = now },
          ))
        × (deadlines (pos 0) left ≡ select (λ d. not (is_due (pos 0) d)) (deadlines (pos 0) l))
        × IsDelta left
  unfolding round update_timer_list
  round_total now type r addr t hr h =
      callback_round_lem _ now (handle_request-IsDelta type r addr _ hr (transmit-IsDelta _ _ h))
