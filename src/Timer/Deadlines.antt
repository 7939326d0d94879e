-- ===== src/Timer/Deadlines.antt =====
-- What the delta list of final/timer.c stands for: timers with the time that each has left, in
-- the order in which they run out.
use cse5462_network_programm.Base.{
  ℕ, ◌≡◌, Bool, true, false, ◌&&◌, not, List, [], ◌∷◌, ◌==◌, if◌then◌else◌, arith,
}
use cse5462_network_programm.Base.Int.{ℤ, pos, ◌+ℤ◌, ◌-ℤ◌, ◌≤ℤ◌, ltb_ℤ, +ℤ_parts, int_laws}
use cse5462_network_programm.Timer.{TimerNode}

-- A timer with its time left.
pub record Due : Type 0 where
  pub session : ℕ
  pub seq_num : ℕ
  pub addr : ℕ
  pub due : ℤ

unfoldable pub due_of : ℤ → TimerNode → Due
due_of d n = record { session = n.session; seq_num = n.seq_num; addr = n.request_addr; due = d }

-- The timers of a list that stands behind `acc` microseconds of earlier nodes.
unfoldable pub deadlines : ℤ → List TimerNode → List Due
deadlines acc [] = []
deadlines acc (n ∷ l) = due_of (acc +ℤ n.remain_seconds) n ∷ deadlines (acc +ℤ n.remain_seconds) l

-- Into an ordered list, behind all that run out no later.
unfoldable pub insert_due : Due → List Due → List Due
insert_due x [] = x ∷ []
insert_due x (y ∷ l) = if ltb_ℤ x.due y.due then x ∷ y ∷ l else y ∷ insert_due x l

unfoldable pub is_timer : ℕ → ℕ → Due → Bool
is_timer session seq_num d = d.session == session && d.seq_num == seq_num

unfoldable pub has_timer : ℕ → ℕ → List Due → Bool
has_timer session seq_num [] = false
has_timer session seq_num (d ∷ l) =
    if is_timer session seq_num d then true else has_timer session seq_num l

-- Without the first timer of this session and number.
unfoldable pub remove_due : ℕ → ℕ → List Due → List Due
remove_due session seq_num [] = []
remove_due session seq_num (d ∷ l) =
    if is_timer session seq_num d then l else d ∷ remove_due session seq_num l

unfoldable pub select {ℓ} : {A : Type ℓ} → (A → Bool) → List A → List A
select p [] = []
select p (x ∷ l) = if p x then x ∷ select p l else select p l

-- `e` microseconds later; a time that has run out is 0.
unfoldable pub age : ℤ → Due → Due
age e d = record d { due = if ltb_ℤ (pos 0) (d.due -ℤ e) then d.due -ℤ e else pos 0 }

-- Has it run out after `e` microseconds?
unfoldable pub is_due : ℤ → Due → Bool
is_due e d = not (ltb_ℤ (pos 0) (d.due -ℤ e))

-- No node waits for less than nothing: the list runs out in order.
abbrev pub IsDelta : List TimerNode → Type 0
IsDelta [] = Unit {0}
IsDelta (n ∷ l) = (pos 0 ≤ℤ n.remain_seconds) × IsDelta l

pub ltb_ℤ-add : (a b c : ℤ) → ltb_ℤ (a +ℤ b) (a +ℤ c) ≡ ltb_ℤ b c
ltb_ℤ-add a b c = ground (arith, +ℤ_parts a b, +ℤ_parts a c)

pub add_sub_shift : (a n x : ℤ) → (a +ℤ n) +ℤ (x -ℤ n) ≡ a +ℤ x
add_sub_shift a n x = omega int_laws

pub zero-+ℤ : (x : ℤ) → pos 0 +ℤ x ≡ x
zero-+ℤ x = omega int_laws
