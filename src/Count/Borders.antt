-- ===== src/Count/Borders.antt =====
-- The table of gen_next of lab1/count.c holds borders of the pattern.
use cse5462_network_programm.Base.{
  ℕ, zero, suc, ◌+◌, ◌-◌, ◌≤◌, ◌<◌, ◌≡◌, ◌≢◌, refl, sym, subst, ◌⊎◌, inl, inr, List, [], ◌∷◌, ◌==◌,
  ==_iff, leb, length, get_or, get_or-set_ne, set, replicate, Bool-cases, arith,
}
use cse5462_network_programm.Count.{next_loop, gen_next}

-- The first `k` bytes of the pattern are also the last of its first `m`.
abbrev pub Shifted : List ℕ → ℕ → ℕ → Type 0
Shifted p m k = (j : ℕ) → j < k → get_or p j 0 ≡ get_or p (m - k + j) 0

-- Every entry is a border, shorter than what is matched.
abbrev pub AllBorders : List ℕ → List ℕ → Type 0
AllBorders p next = (q : ℕ) → (get_or next q 0 ≤ q) × Shifted p (q + 1) (get_or next q 0)

Shifted-suc :
    (p : List ℕ) (i val : ℕ)
    → val < i
    → Shifted p i val
    → get_or p i 0 ≡ get_or p val 0
    → Shifted p (i + 1) (val + 1)
Shifted-suc p i val lt before e j h = elim (Bool-cases (j == val)) [
  | inl last ↦
      let at : j ≡ val = (==_iff _ _).0 last in
      let place : i + 1 - (val + 1) + j ≡ i = omega arith in rw (place, at) (sym e)
  | inr not_last ↦
      let other : j ≢ val = λ f. cc ((==_iff j val).1 f) in
      let place : i + 1 - (val + 1) + j ≡ i - val + j = omega arith in
      rw place (before j (omega arith))
]

set_here :
    (l : List ℕ) (i v : ℕ) → (get_or (set l i v) i 0 ≡ v) ⊎ (get_or (set l i v) i 0 ≡ get_or l i 0)
set_here [] i v = inr refl
set_here (x ∷ l) zero v = inl refl
set_here (x ∷ l) (suc i) v = set_here l i v

set-AllBorders :
    (p next : List ℕ) (i v : ℕ)
    → AllBorders p next
    → v ≤ i
    → Shifted p (i + 1) v
    → AllBorders p (set next i v)
set-AllBorders p next i v all small new q = elim (Bool-cases (i == q)) [
  | inl e ↦
      let same : i ≡ q = (==_iff _ _).0 e in
      subst (λ r. (get_or (set next i v) r 0 ≤ r) × Shifted p (r + 1) (get_or (set next i v) r 0))
        same (elim (set_here next i v) [ inl f ↦ rw f (small, new) | inr f ↦ rw f (all i) ])
  | inr e ↦
      let other : i ≢ q = λ f. cc ((==_iff i q).1 f) in
      rw (get_or-set_ne next i q v 0 other) (all q)
]

next_loop-AllBorders :
    (p : List ℕ) (n i val : ℕ) (next : List ℕ)
    → val < i
    → Shifted p i val
    → AllBorders p next
    → AllBorders p (next_loop p n i val next)
unfolding next_loop
next_loop-AllBorders p zero i val next lt before all = all
next_loop-AllBorders p (suc n) i val next lt before all =
    elim (Bool-cases (get_or p i 0 == get_or p val 0)) [
      | inl e ↦
          let longer = Shifted-suc p i val lt before ((==_iff _ _).0 e) in
          rw (next_loop, e)
            (next_loop-AllBorders p n (i + 1) (val + 1) (set next i (val + 1)) (omega arith) longer
              (set-AllBorders p next i (val + 1) all (omega arith) longer))
      | inr e ↦
          rw (next_loop, e)
            (next_loop-AllBorders p n (i + 1) 0 next (omega arith) (λ j h. absurd (omega arith))
              all)
    ]

get_or-zeros : (n q : ℕ) → get_or {A = ℕ} (replicate n 0) q 0 ≡ 0
get_or-zeros zero q = refl
get_or-zeros (suc n) zero = refl
get_or-zeros (suc n) (suc q) = get_or-zeros n q

zeros-AllBorders : (p : List ℕ) (n : ℕ) → AllBorders p (replicate n 0)
zeros-AllBorders p n q = rw (get_or-zeros n q) (omega arith, λ j h. absurd (omega arith))

pub gen_next-AllBorders : (p : List ℕ) → AllBorders p (gen_next p)
unfolding gen_next
gen_next-AllBorders p = elim (Bool-cases (leb (length p) 1)) [
  | inl e ↦ rw (gen_next, e) (zeros-AllBorders p (length p))
  | inr e ↦
      rw (gen_next, e)
        (next_loop-AllBorders p (length p - 1) 1 0 (replicate (length p) 0) (omega arith)
          (λ j h. absurd (omega arith)) (zeros-AllBorders p (length p)))
]
