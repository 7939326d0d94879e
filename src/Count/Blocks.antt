-- ===== src/Count/Blocks.antt =====
-- main of lab1/count.c reads a file in blocks: the places in the blocks are places in the file.
use cse5462_network_programm.Base.{
  ℕ, zero, suc, ◌+◌, ◌-◌, ◌≤◌, ◌<◌, ◌≡◌, ◌≢◌, refl, subst, ◌∙◌, inl, inr, Bool, true, false, List,
  [], ◌∷◌, ◌++◌, ◌==◌, ==_iff, ltb, length, get_or, if◌then◌else◌, ◌&&◌, Bool-cases, arith,
}
use cse5462_network_programm.Ftp.Names.{NoZero}
use cse5462_network_programm.Count.Found.{agrees, occurrences}

get_or-NoZero : (l : List ℕ) (i : ℕ) → NoZero l → i < length l → 0 < get_or l i 0
get_or-NoZero [] i h lt = absurd (omega arith)
get_or-NoZero (b ∷ l) zero h lt = h.0
get_or-NoZero (b ∷ l) (suc i) h lt = get_or-NoZero l i h.1 (omega arith)

get_or_out : (l : List ℕ) (i : ℕ) → length l ≤ i → get_or l i 0 ≡ 0
get_or_out [] i h = refl
get_or_out (b ∷ l) zero h = absurd (omega arith)
get_or_out (b ∷ l) (suc i) h = get_or_out l i (omega arith)

get_or_middle :
    (before block behind : List ℕ) (i : ℕ)
    → i < length block
    → get_or (before ++ (block ++ behind)) (length before + i) 0 ≡ get_or block i 0
get_or_middle [] [] behind i h = absurd (omega arith)
get_or_middle [] (b ∷ block) behind zero h = refl
get_or_middle [] (b ∷ block) behind (suc i) h =
    let e : 0 + suc i ≡ suc (0 + i) = omega arith in
    rw e (get_or_middle [] block behind i (omega arith))
get_or_middle (a ∷ before) block behind i h =
    let e : suc (length before) + i ≡ suc (length before + i) = omega arith in
    rw e (get_or_middle before block behind i h)

both_true : (a b : Bool) → (a && b) ≡ true → (a ≡ true) × (b ≡ true)
both_true true true h = (refl, refl)
both_true true false h = absurd (cc h)
both_true false b h = absurd (cc h)

-- A place that agrees agrees at each byte.
agrees_at :
    (text pattern : List ℕ) (h k j : ℕ)
    → agrees text pattern h k ≡ true
    → j < k
    → get_or text (h + j) 0 ≡ get_or pattern j 0
unfolding agrees
agrees_at text pattern h zero j a lt = absurd (omega arith)
agrees_at text pattern h (suc k) j a lt =
    let (before, last) =
      both_true (agrees text pattern h k) (get_or text (h + k) 0 == get_or pattern k 0) a in
    elim (Bool-cases (j == k)) [
      | inl f ↦ let at : j ≡ k = (==_iff _ _).0 f in rw at ((==_iff _ _).0 last)
      | inr f ↦
          let other : j ≢ k = λ g. cc ((==_iff j k).1 g) in
          agrees_at text pattern h k j before (omega arith)
    ]

module _ (pattern before block behind : List ℕ) where
  agrees_middle :
      (h k : ℕ)
      → h + k ≤ length block
      → agrees (before ++ (block ++ behind)) pattern (length before + h) k
        ≡ agrees block pattern h k
  unfolding agrees
  agrees_middle h zero lt = refl
  agrees_middle h (suc k) lt =
      let e : length before + h + k ≡ length before + (h + k) = omega arith in
      rw
        (
          e,
          get_or_middle before block behind (h + k) (omega arith),
          agrees_middle h k (omega arith),
        )
        refl

  -- The whole pattern does not stand where the block ends before it.
  agrees_end :
      NoZero pattern
      → (h : ℕ) → length block < h + length pattern
      → h ≤ length block
      → agrees block pattern h (length pattern) ≡ false
  agrees_end no_zero h long inside = elim (Bool-cases (agrees block pattern h (length pattern))) [
    | inr e ↦ e
    | inl e ↦
        let j = length block - h in
        let same = agrees_at block pattern h (length pattern) j e (omega arith) in
        let some = get_or-NoZero pattern j no_zero (omega arith) in
        let none = get_or_out block (h + j) (omega arith) in
        absurd (omega (arith, same, some, none))
  ]

  -- Places of the block are places of the whole.
  occurrences_middle :
      (h : ℕ)
      → h + (length pattern - 1) ≤ length block
      → 0 < length pattern
      → occurrences block pattern h
          + occurrences (before ++ (block ++ behind)) pattern (length before)
        ≤ occurrences (before ++ (block ++ behind)) pattern (length before + h)
  unfolding occurrences
  occurrences_middle zero fits some =
      let e : length before + 0 ≡ length before = omega arith in rw e (omega arith)
  occurrences_middle (suc h) fits some =
      let e : length before + suc h ≡ suc (length before + h) = omega arith in
      let same = agrees_middle h (length pattern) (omega arith) in
      let one : ℕ = if agrees block pattern h (length pattern) then 1 else 0 in
      let there : occurrences (before ++ (block ++ behind)) pattern (suc (length before + h))
          ≡ occurrences (before ++ (block ++ behind)) pattern (length before + h) + one =
        rw (occurrences, same) refl in
      rw e (omega (arith, there, occurrences_middle h (omega arith) some))

  occurrences_end :
      NoZero pattern
      → (h d : ℕ) → length block ≤ h + (length pattern - 1)
      → h + d ≤ length block
      → 0 < length pattern
      → occurrences block pattern (h + d) ≡ occurrences block pattern h
  unfolding occurrences
  occurrences_end no_zero h zero long inside some = let e : h + 0 ≡ h = omega arith in rw e refl
  occurrences_end no_zero h (suc d) long inside some =
      let e : h + suc d ≡ suc (h + d) = omega arith in
      let no = agrees_end no_zero (h + d) (omega arith) (omega arith) in
      rw (e, occurrences, no) (omega (arith, occurrences_end no_zero h d long (omega arith) some))

  -- All places of a block, with those in front of it.
  pub block_count :
      NoZero pattern
      → 0 < length pattern
      → occurrences block pattern (length block)
          + occurrences (before ++ (block ++ behind)) pattern (length before)
        ≤ occurrences
            (before ++ (block ++ behind))
            pattern
            (length before + (length block - (length pattern - 1)))
  unfolding occurrences
  block_count no_zero some = elim (Bool-cases (ltb (length block) (length pattern - 1))) [
    | inl e ↦
        let short : length block < length pattern - 1 = ground arith in
        let none : length block - (length pattern - 1) ≡ 0 = omega arith in
        let same : length before + 0 ≡ length before = omega arith in
        let nothing : occurrences block pattern (0 + length block) ≡ occurrences block pattern 0 =
          occurrences_end no_zero 0 (length block) (omega arith) (omega arith) some in
        let all : 0 + length block ≡ length block = omega arith in
        rw (none, same)
          (omega (arith, subst (λ n. occurrences block pattern n ≡ 0) all (nothing ∙ zero_places)))
    | inr e ↦
        let h = length block - (length pattern - 1) in
        let long : length pattern - 1 ≤ length block = ground arith in
        let all : h + (length pattern - 1) ≡ length block = omega arith in
        let nothing =
          occurrences_end no_zero h (length pattern - 1) (omega arith) (omega arith) some in
        omega (
          arith,
          occurrences_middle h (omega arith) some,
          subst (λ n. occurrences block pattern n ≡ occurrences block pattern h) all nothing,
        )
  ]
    where
      zero_places : occurrences block pattern 0 ≡ 0
      zero_places = refl
