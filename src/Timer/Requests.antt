-- ===== src/Timer/Requests.antt =====
-- `InsertRequest` and `CancelRequest` of final/timer.c keep every other timer's time.
use cse5462_network_programm.Base.{
  ◌⊎◌, ℕ, ◌≡◌, refl, ◌∙◌, true, false, inl, inr, List, [], ◌∷◌, Option, none, some, arith,
  Bool-cases,
}
use cse5462_network_programm.Base.Int.{ℤ, pos, ◌+ℤ◌, ◌-ℤ◌, int_laws}
use cse5462_network_programm.Timer.{
  TimerNode, TimerRequest, same_timer, duplicated, insert_node, insert_request, add_remain,
  delete_node, cancel_request,
}
use cse5462_network_programm.Timer.Deadlines.{
  due_of, deadlines, insert_due, is_timer, has_timer, remove_due, ltb_ℤ-add, add_sub_shift, zero-+ℤ,
}

pub deadlines-insert_node :
    (acc : ℤ) (node : TimerNode) (l : List TimerNode)
    → deadlines acc (insert_node node l)
      ≡ insert_due (due_of (acc +ℤ node.remain_seconds) node) (deadlines acc l)
unfolding deadlines insert_node insert_due due_of
deadlines-insert_node acc node [] = refl
deadlines-insert_node acc node (n ∷ l) = ground (
  arith,
  ltb_ℤ-add acc node.remain_seconds n.remain_seconds,
  add_sub_shift acc node.remain_seconds n.remain_seconds,
  add_sub_shift acc n.remain_seconds node.remain_seconds,
  deadlines-insert_node (acc +ℤ n.remain_seconds) passed l,
)
  where
    passed : TimerNode
    passed = record node { remain_seconds = node.remain_seconds -ℤ n.remain_seconds }

has_timer-deadlines :
    (s q : ℕ) (acc : ℤ) (l : List TimerNode) → has_timer s q (deadlines acc l) ≡ duplicated s q l
unfolding has_timer deadlines duplicated is_timer same_timer due_of
has_timer-deadlines s q acc [] = refl
has_timer-deadlines s q acc (n ∷ l) =
    ground (arith, has_timer-deadlines s q (acc +ℤ n.remain_seconds) l)

deadlines-add_remain :
    (acc d : ℤ) (l : List TimerNode) → deadlines acc (add_remain d l) ≡ deadlines (acc +ℤ d) l
unfolding deadlines add_remain due_of
deadlines-add_remain acc d [] = refl
deadlines-add_remain acc d (n ∷ l) =
    let e : acc +ℤ (n.remain_seconds +ℤ d) ≡ acc +ℤ d +ℤ n.remain_seconds = omega int_laws in rw e

-- What the removal of a timer may come to: no list where the timer does not run, and otherwise
-- the list without it.
abbrev Deleted : ℕ → ℕ → ℤ → List TimerNode → Option (List TimerNode) → Type 0
Deleted s q acc l none = duplicated s q l ≡ false
Deleted s q acc l (some l') =
    (duplicated s q l ≡ true) × (deadlines acc l' ≡ remove_due s q (deadlines acc l))

delete_node-Deleted :
    (s q : ℕ) (acc : ℤ) (l : List TimerNode) → Deleted s q acc l (delete_node s q l)
unfolding delete_node remove_due deadlines duplicated is_timer same_timer due_of
delete_node-Deleted s q acc [] = refl
delete_node-Deleted s q acc (n ∷ l) =
    go (delete_node s q l) refl (delete_node-Deleted s q (acc +ℤ n.remain_seconds) l)
  where
    go :
        (o : Option (List TimerNode))
        → delete_node s q l ≡ o
        → Deleted s q (acc +ℤ n.remain_seconds) l o
        → Deleted s q acc (n ∷ l) (delete_node s q (n ∷ l))
    go none e h = elim (Bool-cases (same_timer s q n)) [
      | inl t ↦ rw (t, delete_node) (ground (arith, deadlines-add_remain acc n.remain_seconds l))
      | inr f ↦ rw (f, e, delete_node) (ground arith)
    ]
    go (some l') e h = elim (Bool-cases (same_timer s q n)) [
      | inl t ↦ rw (t, delete_node) (ground (arith, deadlines-add_remain acc n.remain_seconds l))
      | inr f ↦ rw (f, e, delete_node) (ground arith)
    ]

-- `InsertRequest` refuses a timer that runs already; otherwise the new timer takes its place among
-- the times left, and no other timer's time changes.
pub insert_request_lem :
    (r : TimerRequest) (addr : ℕ) (l : List TimerNode)
    → let (code, l') = insert_request r addr l in
      ((has_timer r.session r.seq_num (deadlines (pos 0) l) ≡ true) × (code ≡ 1) × (l' ≡ l))
      ⊎ ((has_timer r.session r.seq_num (deadlines (pos 0) l) ≡ false)
          × (code ≡ 0)
          × (deadlines (pos 0) l'
              ≡ insert_due
                  (record {
                    session = r.session;
                    seq_num = r.seq_num;
                    addr = addr;
                    due = r.seconds;
                  })
                  (deadlines (pos 0) l)))
unfolding insert_request due_of
insert_request_lem r addr l = elim (Bool-cases (duplicated r.session r.seq_num l)) [
  | inl e ↦ inl (has_timer-deadlines r.session r.seq_num (pos 0) l ∙ e, rw e, rw e)
  | inr e ↦ inr (
    has_timer-deadlines r.session r.seq_num (pos 0) l ∙ e,
    rw e,
    rw e (deadlines-insert_node (pos 0) _ l ∙ rw (zero-+ℤ r.seconds)),
  )
]

-- `CancelRequest` takes away the timer that is named and no other, and changes the time of none;
-- where it does not run the code is 1 and the list stays.
pub cancel_request_lem :
    (r : TimerRequest) (l : List TimerNode)
    → let (code, l') = cancel_request r l in
      ((has_timer r.session r.seq_num (deadlines (pos 0) l) ≡ false) × (code ≡ 1) × (l' ≡ l))
      ⊎ ((has_timer r.session r.seq_num (deadlines (pos 0) l) ≡ true)
          × (code ≡ 0)
          × (deadlines (pos 0) l' ≡ remove_due r.session r.seq_num (deadlines (pos 0) l)))
unfolding cancel_request
cancel_request_lem r l =
    go (delete_node r.session r.seq_num l) refl (delete_node-Deleted r.session r.seq_num (pos 0) l)
  where
    runs : has_timer r.session r.seq_num (deadlines (pos 0) l) ≡ duplicated r.session r.seq_num l
    runs = has_timer-deadlines r.session r.seq_num (pos 0) l

    go :
        (o : Option (List TimerNode))
        → delete_node r.session r.seq_num l ≡ o
        → Deleted r.session r.seq_num (pos 0) l o
        → let (code, l') = cancel_request r l in
          ((has_timer r.session r.seq_num (deadlines (pos 0) l) ≡ false) × (code ≡ 1) × (l' ≡ l))
          ⊎ ((has_timer r.session r.seq_num (deadlines (pos 0) l) ≡ true)
              × (code ≡ 0)
              × (deadlines (pos 0) l' ≡ remove_due r.session r.seq_num (deadlines (pos 0) l)))
    go none e h = inl (runs ∙ h, rw (e, cancel_request), rw (e, cancel_request))
    go (some l') e h = inr (runs ∙ h.0, rw (e, cancel_request), rw (e, cancel_request) h.1)
