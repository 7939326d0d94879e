-- ===== src/Crc.antt =====
-- `crc32` of final/crc32.c, the checksum of every frame: a table step for each byte.
pub mod Table
pub mod Xor
pub mod Bitwise
pub mod Reference
pub mod Errors
mod Tests
use Prim.Native.Nat.{bit_and, bit_xor}
use cse5462_network_programm.Base.{ℕ, ◌/◌, ◌^◌, List, [], ◌∷◌, get_or}
use Table.{crc32_tab}

-- ~0U
abbrev pub all_ones : ℕ
all_ones = 0xffffffff

-- The body of the loop: one byte.
unfoldable pub crc32_step : ℕ → ℕ → ℕ
unfolding crc32_tab
crc32_step crc byte = bit_xor (get_or crc32_tab (bit_and (bit_xor crc byte) 0xff) 0) (crc / 2 ^ 8)

-- The loop over the bytes.
unfoldable pub crc32_loop : ℕ → List ℕ → ℕ
crc32_loop crc [] = crc
crc32_loop crc (b ∷ bytes) = crc32_loop (crc32_step crc b) bytes

-- `crc32`
unfoldable pub crc32 : ℕ → List ℕ → ℕ
unfolding crc32_loop crc32_step
crc32 crc bytes = bit_xor (crc32_loop (bit_xor crc all_ones) bytes) all_ones
