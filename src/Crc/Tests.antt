-- ===== src/Crc/Tests.antt =====
-- The theorems on the checksum of final/crc32.c at concrete bytes.
use cse5462_network_programm.Base.{◌≡◌, ◌≢◌, refl, [], ◌∷◌, ◌++◌, arith}
use cse5462_network_programm.Crc.{crc32}
use cse5462_network_programm.Crc.Bitwise.{crc32_bitwise}
use cse5462_network_programm.Crc.Reference.{crc32-crc32_bitwise}
use cse5462_network_programm.Crc.Errors.{crc32_detects}

crc32-crc32_bitwise_example : crc32 0 (49 ∷ 50 ∷ 255 ∷ []) ≡ crc32_bitwise 0 (49 ∷ 50 ∷ 255 ∷ [])
crc32-crc32_bitwise_example =
    crc32-crc32_bitwise 0 (49 ∷ 50 ∷ 255 ∷ []) (omega arith, (omega arith, (omega arith, tt)))

crc32_detects_example :
    crc32 0 ((49 ∷ 50 ∷ []) ++ 51 ∷ (52 ∷ [])) ≢ crc32 0 ((49 ∷ 50 ∷ []) ++ 115 ∷ (52 ∷ []))
crc32_detects_example =
    crc32_detects 0 (49 ∷ 50 ∷ []) 51 115 (52 ∷ []) (omega arith) (omega arith, (omega arith, tt))
      (omega arith, tt) (omega arith) (omega arith) (λ e. absurd (omega arith))

-- The check value of the polynomial: the checksum of the digits 1 to 9.
check_value : crc32 0 (49 ∷ 50 ∷ 51 ∷ 52 ∷ 53 ∷ 54 ∷ 55 ∷ 56 ∷ 57 ∷ []) ≡ 0xcbf43926
unfolding crc32
check_value = refl
