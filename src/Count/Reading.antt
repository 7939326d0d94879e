-- ===== src/Count/Reading.antt =====
-- The loop of main of lab1/count.c, which reads a file in blocks.
use cse5462_network_programm.Base.{ℕ, ◌+◌, ◌-◌, ◌^◌, ◌≤◌, ◌<◌, ◌≡◌, ◌⊎◌, List, ◌++◌, length}
use cse5462_network_programm.Ftp.Names.{NoZero}
use cse5462_network_programm.Count.Found.{occurrences}

module _ (pattern all : List ℕ) (no_zero : NoZero pattern) (some : 0 < length pattern)
    (fits : length pattern ≤ 99) (small : length all < 2 ^ 31) where
  -- What is read of the file, of which the places in front of `left` are counted.
  record IsRead (before left file : List ℕ) (cnt times : ℕ) : Type 0 where
    whole : all ≡ before ++ (left ++ file)
    clean : NoZero left
    clean_file : NoZero file
    left_there : (length left ≡ length pattern - 1) ⊎ ((length before ≡ 0) × (length left ≡ 0))
    cnt_at : cnt ≡ length before + length left
    counted : times ≤ occurrences all pattern (length before)

  Counts : ℕ × ℕ → Type 0
  Counts r = (r.0 ≡ length all) × (r.1 ≤ occurrences all pattern (length all))
