-- ===== src/Count/Tests.antt =====
-- The search of lab1/count.c at concrete inputs.
use cse5462_network_programm.Base.{ℕ, ◌≤◌, ◌≡◌, refl, List, get_or, length}
use cse5462_network_programm.Tcpd.Loop.{ascii}
use cse5462_network_programm.Count.{
  kmp_run, kmp_match, kmp_loop, kmp_step, jump, gen_next, next_loop,
}
use cse5462_network_programm.Count.Found.{occurrences, agrees, kmp_match_lem}

abbrev text : List ℕ
text = ascii "aabaaabaaa"

abbrev pattern : List ℕ
pattern = ascii "aabaaa"

-- Two places, of which the search finds one.
two_places : occurrences text pattern 10 ≡ 2
unfolding occurrences agrees
two_places = refl

one_found : kmp_match text pattern ≡ 1
unfolding kmp_match kmp_run kmp_loop kmp_step jump gen_next next_loop
one_found = refl

kmp_match_lem_example :
    (get_or text (kmp_run text pattern).t 0 ≡ 0)
    × (kmp_match text pattern ≤ occurrences text pattern (length text))
kmp_match_lem_example = kmp_match_lem text pattern
