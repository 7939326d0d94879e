-- ===== src/Proj1/TimerList/Sorted.antt =====
-- The order of the list of proj1/timer.c, and what each operation does to it.
use mathlib.Core.List.{Perm}
use mathlib.Core.List.Perm
use cse5462_network_programm.Base.{
  ℕ, ◌≡◌, refl, true, false, List, [], ◌∷◌, ◌==◌, if◌then◌else◌, arith, Bool-cases, inl, inr,
}
use cse5462_network_programm.Timer.{TimeVal}
use cse5462_network_programm.Proj1.TimerList.{
  TimeNode, later, insert_time_node, delete_timer, update_timers,
}

-- In order, and none before `lo`.
abbrev pub SortedFrom : TimeVal → List TimeNode → Type 0
SortedFrom lo [] = Unit {0}
SortedFrom lo (n ∷ l) = (later lo n.expire_time ≡ false) × SortedFrom n.expire_time l

abbrev pub IsSorted : List TimeNode → Type 0
IsSorted [] = Unit {0}
IsSorted (n ∷ l) = SortedFrom n.expire_time l

later_trans : (a b c : TimeVal) → later a b ≡ false → later b c ≡ false → later a c ≡ false
unfolding later
later_trans a b c h k = ground arith

later_total : (a b : TimeVal) → later a b ≡ true → later b a ≡ false
unfolding later
later_total a b h = ground arith

later_above : (a b c : TimeVal) → later a b ≡ false → later a c ≡ true → later b c ≡ true
unfolding later
later_above a b c h k = ground arith

SortedFrom-mono :
    (a b : TimeVal) (l : List TimeNode) → later a b ≡ false → SortedFrom b l → SortedFrom a l
SortedFrom-mono a b [] h s = tt
SortedFrom-mono a b (n ∷ l) h s = (later_trans a b n.expire_time h s.0, s.1)

SortedFrom-IsSorted : (lo : TimeVal) (l : List TimeNode) → SortedFrom lo l → IsSorted l
SortedFrom-IsSorted lo [] s = tt
SortedFrom-IsSorted lo (n ∷ l) s = s.1

insert_time_node-SortedFrom :
    (node : TimeNode) (lo : TimeVal) (l : List TimeNode)
    → later lo node.expire_time ≡ false
    → SortedFrom lo l
    → SortedFrom lo (insert_time_node node l)
unfolding insert_time_node
insert_time_node-SortedFrom node lo [] h s = (h, tt)
insert_time_node-SortedFrom node lo (n ∷ l) h s =
    elim (Bool-cases (later node.expire_time n.expire_time)) [
      | inl e ↦ rw e (
        s.0,
        insert_time_node-SortedFrom node n.expire_time l
            (later_total node.expire_time n.expire_time e) s.1,
      )
      | inr e ↦ rw e (h, (e, s.1))
    ]

pub insert_time_node-IsSorted :
    (node : TimeNode) (l : List TimeNode) → IsSorted l → IsSorted (insert_time_node node l)
unfolding insert_time_node
insert_time_node-IsSorted node [] s = tt
insert_time_node-IsSorted node (n ∷ l) s =
    elim (Bool-cases (later node.expire_time n.expire_time)) [
      | inl e ↦ rw e (
          insert_time_node-SortedFrom node n.expire_time l
            (later_total node.expire_time n.expire_time e) s)
      | inr e ↦ rw e (e, s)
    ]

pub insert_time_node-Perm :
    (node : TimeNode) (l : List TimeNode) → Perm (insert_time_node node l) (node ∷ l)
unfolding insert_time_node
insert_time_node-Perm node [] = Perm.refl (node ∷ [])
insert_time_node-Perm node (n ∷ l) = elim (Bool-cases (later node.expire_time n.expire_time)) [
  | inl e ↦ rw e (Perm.trans (Perm.cons n (insert_time_node-Perm node l)) (Perm.swap node n l))
  | inr e ↦ rw e (Perm.refl (node ∷ n ∷ l))
]

delete_timer-SortedFrom :
    (lo : TimeVal) (l : List TimeNode) (id : ℕ)
    → SortedFrom lo l
    → SortedFrom lo (delete_timer l id)
unfolding delete_timer
delete_timer-SortedFrom lo [] id s = tt
delete_timer-SortedFrom lo (n ∷ l) id s = elim (Bool-cases (n.id == id)) [
  | inl e ↦ rw e (SortedFrom-mono lo n.expire_time l s.0 s.1)
  | inr e ↦ rw e (s.0, delete_timer-SortedFrom n.expire_time l id s.1)
]

pub delete_timer-IsSorted : (l : List TimeNode) (id : ℕ) → IsSorted l → IsSorted (delete_timer l id)
unfolding delete_timer
delete_timer-IsSorted [] id s = tt
delete_timer-IsSorted (n ∷ l) id s = elim (Bool-cases (n.id == id)) [
  | inl e ↦ rw e (SortedFrom-IsSorted n.expire_time l s)
  | inr e ↦ rw e (delete_timer-SortedFrom n.expire_time l id s)
]

-- The nodes whose time has not come.
unfoldable pub unexpired : TimeVal → List TimeNode → List TimeNode
unexpired now [] = []
unexpired now (n ∷ l) = if later n.expire_time now then n ∷ unexpired now l else unexpired now l

unexpired_all :
    (lo now : TimeVal) (l : List TimeNode)
    → SortedFrom lo l
    → later lo now ≡ true
    → unexpired now l ≡ l
unfolding unexpired
unexpired_all lo now [] s h = refl
unexpired_all lo now (n ∷ l) s h =
    let there = later_above lo n.expire_time now s.0 h in
    rw (there, unexpired_all n.expire_time now l s.1 there)

pub update_timers_lem :
    (now : TimeVal) (l : List TimeNode) → IsSorted l → update_timers now l ≡ unexpired now l
unfolding update_timers unexpired
update_timers_lem now [] s = refl
update_timers_lem now (n ∷ l) s = elim (Bool-cases (later n.expire_time now)) [
  | inl e ↦ rw (e, unexpired_all n.expire_time now l s e)
  | inr e ↦ rw e (update_timers_lem now l (SortedFrom-IsSorted n.expire_time l s))
]

pub update_timers-IsSorted :
    (now : TimeVal) (l : List TimeNode) → IsSorted l → IsSorted (update_timers now l)
unfolding update_timers
update_timers-IsSorted now [] s = tt
update_timers-IsSorted now (n ∷ l) s = elim (Bool-cases (later n.expire_time now)) [
  | inl e ↦ rw e s
  | inr e ↦ rw e (update_timers-IsSorted now l (SortedFrom-IsSorted n.expire_time l s))
]
