-- ===== src/Count.antt =====
-- lab1/count.c: how often a pattern stands in a text. A string is its bytes without the zero.
pub mod Borders
pub mod Found
pub mod Blocks
pub mod Reading
mod Tests
use cse5462_network_programm.Base.{
  ℕ, zero, suc, ◌+◌, ◌-◌, ◌*◌, ◌%◌, ◌^◌, List, [], ◌∷◌, ◌++◌, ◌==◌, ◌||◌, take, drop, leb, ltb,
  length, get_or, set, replicate, if◌then◌else◌,
}

-- The loop of `gen_next`, for the `n` places from `i` on.
unfoldable pub next_loop : List ℕ → ℕ → ℕ → ℕ → List ℕ → List ℕ
next_loop p zero i val next = next
next_loop p (suc n) i val next =
    let same = get_or p i 0 == get_or p val 0 in
    next_loop p n (i + 1) (if same then val + 1 else 0)
      (if same then set next i (val + 1) else next)

unfoldable pub gen_next : List ℕ → List ℕ
gen_next p =
    let next = replicate (length p) 0 in
    if leb (length p) 1 then next else next_loop p (length p - 1) 1 0 next

-- The variables of `kmp_match`: the pointers are places in the text and in the pattern.
pub record Kmp : Type 0 where
  pub cur_head : ℕ
  pub t : ℕ
  pub p : ℕ
  pub matched_len : ℕ
  pub matched_times : ℕ

-- Lines 45 to 48, and 63 to 66, of `m` matched bytes.
unfoldable pub jump : List ℕ → ℕ → Kmp → Kmp
jump next m s =
    let k = get_or next (m - 1) 0 in
    record s {
      cur_head = s.cur_head + (m - k);
      t = s.cur_head + (m - k) + k;
      p = k;
      matched_len = k;
    }

-- The body of the loop of `kmp_match`.
unfoldable pub kmp_step : List ℕ → List ℕ → List ℕ → Kmp → Kmp
kmp_step text pattern next s =
    if get_or text s.t 0 == get_or pattern s.p 0
    then (if s.matched_len + 1 == length pattern
        then jump next (s.matched_len + 1) (record s { matched_times = s.matched_times + 1 })
        else record s { t = s.t + 1; p = s.p + 1; matched_len = s.matched_len + 1 })
    else if ltb 0 s.matched_len
    then jump next s.matched_len s
    else record s { cur_head = s.cur_head + 1; t = s.cur_head + 1; p = 0 }

-- The loop, on fuel.
unfoldable pub kmp_loop : List ℕ → List ℕ → List ℕ → ℕ → Kmp → Kmp
kmp_loop text pattern next zero s = s
kmp_loop text pattern next (suc fuel) s =
    let rest = kmp_loop text pattern next fuel (kmp_step text pattern next s) in
    if get_or text s.t 0 == 0 then s else rest

abbrev pub kmp_start : Kmp
kmp_start = record { cur_head = 0; t = 0; p = 0; matched_len = 0; matched_times = 0 }

-- The state after the loop of `kmp_match`: every round goes on in the text or back in the pattern.
unfoldable pub kmp_run : List ℕ → List ℕ → Kmp
kmp_run text pattern = kmp_loop text pattern (gen_next pattern) (2 * length text + 1) kmp_start

-- `kmp_match`
unfoldable pub kmp_match : List ℕ → List ℕ → ℕ
kmp_match text pattern = (kmp_run text pattern).matched_times

-- `strncpy` from `text` to its front, byte by byte.
unfoldable pub strncpy : ℕ → List ℕ → List ℕ
strncpy zero l = []
strncpy (suc n) [] = replicate (suc n) 0
strncpy (suc n) (b ∷ l) = let rest = strncpy n l in if b == 0 then replicate (suc n) 0 else b ∷ rest

abbrev pub text_size : ℕ
text_size = 100

-- The loop of `main`, on fuel: `left` is what stands at the front of `text`, `file` what is not read
-- yet. The result is `cnt` and `matched_times`, an `int` each, by its 32 bits.
unfoldable pub count_loop : List ℕ → ℕ → List ℕ → List ℕ → ℕ → ℕ → ℕ × ℕ
count_loop pattern zero left file cnt times = (cnt, times)
count_loop pattern (suc fuel) left file cnt times =
    let room = text_size - length left - 1 in
    let read = take room file in
    let text = left ++ read in
    let k = length pattern - 1 in
    let cnt' = (cnt + length read) % 2 ^ 32 in
    let times' = (times + kmp_match text pattern) % 2 ^ 32 in
    let rest =
      count_loop pattern fuel (strncpy k (drop (length text - k) text)) (drop room file) cnt'
        times' in
    if length read == 0
    then (cnt, times)
    else if (length pattern == 0) || ltb (length text) k
    then (cnt', times')
    else rest

-- Lines 123 to 150 of `main`, for a file that can be opened: every round but the last reads a byte.
unfoldable pub count_file : List ℕ → List ℕ → ℕ × ℕ
count_file pattern file = count_loop pattern (length file + 1) [] file 0 0
