-- ===== src/Count/Found.antt =====
-- kmp_match of lab1/count.c against the places of a text where a pattern stands.
use cse5462_network_programm.Base.{
  ℕ, zero, suc, ◌+◌, ◌-◌, ◌*◌, ◌≤◌, ◌<◌, ◌≡◌, ◌≢◌, refl, sym, ap, subst, ◌∙◌, inl, inr, Bool, true,
  false, List, [], ◌∷◌, ◌==◌, ==_iff, ltb, length, get_or, if◌then◌else◌, ◌&&◌, Bool-cases, arith,
}
use cse5462_network_programm.Count.{
  Kmp, jump, kmp_step, kmp_loop, kmp_start, kmp_run, kmp_match, gen_next,
}
use cse5462_network_programm.Count.Borders.{AllBorders, gen_next-AllBorders}

-- Do the `k` bytes of the text from `h` on agree with the pattern's first?
unfoldable pub agrees : List ℕ → List ℕ → ℕ → ℕ → Bool
agrees text pattern h zero = true
agrees text pattern h (suc k) =
    agrees text pattern h k && (get_or text (h + k) 0 == get_or pattern k 0)

-- The number of places below `n` where the whole pattern stands.
unfoldable pub occurrences : List ℕ → List ℕ → ℕ → ℕ
occurrences text pattern zero = 0
occurrences text pattern (suc n) =
    occurrences text pattern n + (if agrees text pattern n (length pattern) then 1 else 0)

get_or_in : (l : List ℕ) (i : ℕ) → (get_or l i 0 == 0) ≡ false → i < length l
get_or_in [] i h = absurd (ground arith)
get_or_in (x ∷ l) zero h = omega arith
get_or_in (x ∷ l) (suc i) h = omega (arith, get_or_in l i h)

module _ (text pattern : List ℕ) where
  Agrees : ℕ → ℕ → Type 0
  Agrees h k = (j : ℕ) → j < k → get_or text (h + j) 0 ≡ get_or pattern j 0

  agrees_of : (h k : ℕ) → Agrees h k → agrees text pattern h k ≡ true
  unfolding Agrees agrees
  agrees_of h zero a = refl
  agrees_of h (suc k) a =
      let last : (get_or text (h + k) 0 == get_or pattern k 0) ≡ true =
        (==_iff _ _).1 (a k (omega arith)) in
      rw (agrees_of h k (λ j b. a j (omega arith)), last) refl

  pub occurrences_up : (n d : ℕ) → occurrences text pattern n ≤ occurrences text pattern (n + d)
  unfolding occurrences
  occurrences_up n zero = let e : n + 0 ≡ n = omega arith in rw e (omega arith)
  occurrences_up n (suc d) =
      let e : n + suc d ≡ suc (n + d) = omega arith in rw e (omega (arith, occurrences_up n d))

  occurrences_found :
      (h d : ℕ)
      → Agrees h (length pattern)
      → suc (occurrences text pattern h) ≤ occurrences text pattern (h + suc d)
  unfolding occurrences
  occurrences_found h d a =
      let here : occurrences text pattern (suc h) ≡ occurrences text pattern h + 1 =
        rw (occurrences, agrees_of h (length pattern) a) refl in
      let e : h + suc d ≡ suc h + d = omega arith in
      rw e (omega (arith, here, occurrences_up (suc h) d))

  -- What is matched, and what is counted.
  record IsMatching (s : Kmp) : Type 0 where
    t_at : s.t ≡ s.cur_head + s.matched_len
    p_at : s.p ≡ s.matched_len
    short : s.matched_len ≤ length pattern - 1
    in_text : s.t ≤ length text
    agree : Agrees s.cur_head s.matched_len
    counted : s.matched_times ≤ occurrences text pattern s.cur_head

  measure : Kmp → ℕ
  measure s = 2 * (length text - s.t) + s.matched_len

  module _ (next : List ℕ) (borders : AllBorders pattern next) where
    jump-IsMatching :
        (m : ℕ) (s : Kmp)
        → 0 < m
        → m ≤ length pattern
        → s.cur_head + m ≤ length text
        → Agrees s.cur_head m
        → s.matched_times ≤ occurrences text pattern (s.cur_head + (m - get_or next (m - 1) 0))
        → IsMatching (jump next m s)
          × ((jump next m s).t ≡ s.cur_head + m)
          × ((jump next m s).matched_len < m)
    unfolding jump Agrees
    jump-IsMatching m s some_matched fits there a counted =
        let k = get_or next (m - 1) 0 in
        let (small, shifted) = borders (m - 1) in
        (
          record {
            t_at = refl;
            p_at = refl;
            short = omega (arith, small);
            in_text = omega (arith, small);
            agree = λ j b.
                let e : s.cur_head + (m - k) + j ≡ s.cur_head + (m - k + j) = omega arith in
                let f : m - 1 + 1 - k + j ≡ m - k + j = omega arith in
                rw e (
                  a (m - k + j) (omega (arith, small))
                  ∙ sym (shifted j b ∙ ap (λ i. get_or pattern i 0) f));
            counted = counted;
          },
          omega (arith, small),
          omega (arith, small),
        )

    Goes : Kmp → Kmp → Type 0
    Goes s s' = IsMatching s' × (measure s' < measure s)

    Agrees-suc :
        (h k : ℕ) → Agrees h k → get_or text (h + k) 0 ≡ get_or pattern k 0 → Agrees h (k + 1)
    unfolding Agrees
    Agrees-suc h k a e j b = elim (Bool-cases (j == k)) [
      | inl f ↦ let at : j ≡ k = (==_iff _ _).0 f in rw at e
      | inr f ↦ let other : j ≢ k = λ g. cc ((==_iff j k).1 g) in a j (omega arith)
    ]

    byte_matches :
        (s : Kmp)
        → IsMatching s
        → s.t < length text
        → s.p < length pattern
        → Agrees s.cur_head (s.matched_len + 1)
        → Goes s (
            if s.matched_len + 1 == length pattern
            then jump next (s.matched_len + 1) (record s { matched_times = s.matched_times + 1 })
            else record s { t = s.t + 1; p = s.p + 1; matched_len = s.matched_len + 1 })
    unfolding Goes measure
    byte_matches s v inside inside' a = elim (Bool-cases (s.matched_len + 1 == length pattern)) [
      | inl e ↦
          let whole : s.matched_len + 1 ≡ length pattern = (==_iff _ _).0 e in
          let k = get_or next (s.matched_len + 1 - 1) 0 in
          let small : k ≤ s.matched_len = omega (arith, (borders (s.matched_len + 1 - 1)).0) in
          let on : s.cur_head + (s.matched_len + 1 - k) ≡ s.cur_head + suc (s.matched_len - k) =
            omega arith in
          let found =
            occurrences_found s.cur_head (s.matched_len - k) (subst (Agrees s.cur_head) whole a) in
          let (v', t', m') =
            jump-IsMatching (s.matched_len + 1) (record s { matched_times = s.matched_times + 1 })
              (omega arith) (omega (arith, v.p_at)) (omega (arith, v.t_at)) a
              (rw on (omega (arith, v.counted, found))) in
          rw e (v', omega (arith, t', m', v.t_at))
      | inr e ↦
          let not_whole : s.matched_len + 1 ≢ length pattern = λ f. cc ((==_iff _ _).1 f) in
          rw e (
            record {
              t_at = omega (arith, v.t_at);
              p_at = omega (arith, v.p_at);
              short = omega (arith, v.p_at);
              in_text = omega arith;
              agree = a;
              counted = v.counted;
            },
            omega arith,
          )
    ]

    byte_differs :
        (s : Kmp)
        → IsMatching s
        → s.t < length text
        → Goes s (
            if ltb 0 s.matched_len
            then jump next s.matched_len s
            else record s { cur_head = s.cur_head + 1; t = s.cur_head + 1; p = 0 })
    unfolding Goes measure Agrees
    byte_differs s v inside = elim (Bool-cases (ltb 0 s.matched_len)) [
      | inl e ↦
          let some_matched : 0 < s.matched_len = ground arith in
          let (v', t', m') =
            jump-IsMatching s.matched_len s some_matched (omega (arith, v.short))
              (omega (arith, v.t_at)) v.agree
              (omega (
                arith,
                v.counted,
                occurrences_up s.cur_head (s.matched_len - get_or next (s.matched_len - 1) 0),
              )) in
          rw e (v', omega (arith, t', m', v.t_at))
      | inr e ↦
          let none_matched : s.matched_len ≡ 0 = ground arith in
          rw e (
            record {
              t_at = omega arith;
              p_at = omega arith;
              short = v.short;
              in_text = omega (arith, v.t_at);
              agree = λ j b. absurd (omega arith);
              counted = omega (arith, v.counted, occurrences_up s.cur_head 1);
            },
            omega (arith, v.t_at),
          )
    ]

    kmp_step-IsMatching :
        (s : Kmp)
        → IsMatching s
        → (get_or text s.t 0 == 0) ≡ false
        → Goes s (kmp_step text pattern next s)
    unfolding kmp_step
    kmp_step-IsMatching s v more =
        let inside = get_or_in text s.t more in
        elim (Bool-cases (get_or text s.t 0 == get_or pattern s.p 0)) [
          | inl e ↦
              let same : get_or text s.t 0 ≡ get_or pattern s.p 0 = (==_iff _ _).0 e in
              let inside' = get_or_in pattern s.p (subst (λ c. (c == 0) ≡ false) same more) in
              rw (kmp_step, e)
                (byte_matches s v inside inside' (
                  Agrees-suc s.cur_head s.matched_len v.agree (
                    ap (λ i. get_or text i 0) (sym v.t_at)
                    ∙ same
                    ∙ ap (λ i. get_or pattern i 0) v.p_at)))
          | inr e ↦ rw (kmp_step, e) (byte_differs s v inside)
        ]

    kmp_loop-IsMatching :
        (fuel : ℕ) (s : Kmp)
        → IsMatching s
        → measure s < fuel
        → IsMatching (kmp_loop text pattern next fuel s)
          × ((get_or text (kmp_loop text pattern next fuel s).t 0 == 0) ≡ true)
    unfolding kmp_loop Goes
    kmp_loop-IsMatching zero s v enough = absurd (omega arith)
    kmp_loop-IsMatching (suc fuel) s v enough = elim (Bool-cases (get_or text s.t 0 == 0)) [
      | inl e ↦ rw (kmp_loop, e) (v, e)
      | inr e ↦
          let (v', less) = kmp_step-IsMatching s v e in
          rw (kmp_loop, e)
            (kmp_loop-IsMatching fuel (kmp_step text pattern next s) v' (omega arith))
    ]

-- The loop of kmp_match ends, where the text ends, and what it counts is at most the number of places of
-- the text where the pattern stands.
pub kmp_match_lem :
    (text pattern : List ℕ)
    → (get_or text (kmp_run text pattern).t 0 ≡ 0)
      × (kmp_match text pattern ≤ occurrences text pattern (length text))
unfolding kmp_match kmp_run measure Agrees
kmp_match_lem text pattern =
    let start : IsMatching text pattern kmp_start = record {
      t_at = refl;
      p_at = refl;
      short = omega arith;
      in_text = omega arith;
      agree = λ j b. absurd (omega arith);
      counted = omega arith;
    } in
    let (v, end) =
      kmp_loop-IsMatching text pattern (gen_next pattern) (gen_next-AllBorders pattern)
        (2 * length text + 1) kmp_start start (omega arith) in
    let s = kmp_run text pattern in
    let rest : s.cur_head + (length text - s.cur_head) ≡ length text =
      omega (arith, v.t_at, v.in_text) in
    (
      (==_iff _ _).0 end,
      omega (
        arith,
        v.counted,
        subst (λ n. occurrences text pattern s.cur_head ≤ occurrences text pattern n) rest
            (occurrences_up text pattern s.cur_head (length text - s.cur_head)),
      ),
    )
