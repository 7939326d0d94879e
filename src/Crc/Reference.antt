-- ===== src/Crc/Reference.antt =====
-- `crc32` of final/crc32.c is the checksum of the shift register.
use Prim.Native.Nat.{bit_xor}
use cse5462_network_programm.Base.{
  ℕ, zero, suc, ◌+◌, ◌*◌, ◌/◌, ◌%◌, ◌^◌, ◌<◌, ◌≡◌, refl, sym, ap, ◌∙◌, true, List, [], ◌∷◌, ◌==◌,
  ==_iff, get_or, arith,
}
use cse5462_network_programm.Crc.{crc32, crc32_loop, crc32_step, all_ones}
use cse5462_network_programm.Crc.Table.{crc32_tab}
use cse5462_network_programm.Crc.Xor.{bit_xor_step, bit_xor_comm, bit_xor-zero, bit_xor_shift_eight}
use cse5462_network_programm.Crc.Bitwise.{
  each_below, each_below_holds, bit_and_byte, eight_bits, eight_bits-even, times_256, bitwise_loop,
  crc32_bitwise,
}

-- An even number and a small one do not meet.
Apart : ℕ → ℕ → Type 0
Apart h w = (l : ℕ) → l < w → bit_xor h l ≡ h + l

Apart-double : (h w : ℕ) → Apart h w → Apart (2 * h) (2 * w)
unfolding Apart
Apart-double h w k l lt =
    let half : 2 * h / 2 ≡ h = omega arith in
    omega (arith, bit_xor_step (2 * h) l, ap (λ x. bit_xor x (l / 2)) half, k (l / 2) (omega arith))

Apart-one : (h : ℕ) → Apart h 1
unfolding Apart
Apart-one h zero lt = omega (arith, bit_xor-zero h)
Apart-one h (suc l) lt = absurd (omega arith)

Apart-blocks : (h : ℕ) → Apart (times_256 h) 256
Apart-blocks h = Apart-double _ 128 (
    Apart-double _ 64 (
      Apart-double _ 32 (
        Apart-double _ 16 (
          Apart-double _ 8
            (Apart-double _ 4 (Apart-double _ 2 (Apart-double h 1 (Apart-one h))))))))

parts : (x : ℕ) → bit_xor (times_256 (x / 256)) (x % 256) ≡ x
unfolding Apart
parts x = Apart-blocks (x / 256) (x % 256) (omega arith) ∙ omega arith

-- Every entry of the table is eight steps of the register on its place.
table_holds : each_below 256 (λ i. eight_bits i == get_or crc32_tab i 0) ≡ true
unfolding each_below eight_bits crc32_tab
table_holds = refl

eight_bits-table : (x : ℕ) → eight_bits x ≡ bit_xor (x / 256) (get_or crc32_tab (x % 256) 0)
eight_bits-table x =
    ap eight_bits (sym (parts x))
    ∙ eight_bits-even (x / 256) (x % 256)
    ∙ ap (bit_xor (x / 256)) (
        (==_iff _ _).0 (
          each_below_holds 256 (λ i. eight_bits i == get_or crc32_tab i 0) (x % 256) table_holds
            (omega arith)))

shifted : (crc byte : ℕ) → byte < 256 → bit_xor crc byte / 256 ≡ crc / 2 ^ 8
shifted crc byte h =
    let none_left : byte / 256 ≡ 0 = omega arith in
    bit_xor_shift_eight crc byte ∙ ap (bit_xor (crc / 256)) none_left ∙ bit_xor-zero (crc / 256)

-- A step of the table in terms of the byte that goes in.
pub crc32_step_lem :
    (crc byte : ℕ)
    → byte < 256
    → crc32_step crc byte
      ≡ bit_xor (bit_xor crc byte / 256) (get_or crc32_tab (bit_xor crc byte % 256) 0)
unfolding crc32_step
crc32_step_lem crc byte h =
    ap (λ i. bit_xor (get_or crc32_tab i 0) (crc / 2 ^ 8)) (bit_and_byte (bit_xor crc byte))
    ∙ bit_xor_comm (get_or crc32_tab (bit_xor crc byte % 256) 0) (crc / 2 ^ 8)
    ∙ ap (λ y. bit_xor y (get_or crc32_tab (bit_xor crc byte % 256) 0)) (sym (shifted crc byte h))

-- Numbers that are bytes.
abbrev pub AreBytes : List ℕ → Type 0
AreBytes [] = Unit {0}
AreBytes (b ∷ l) = (b < 256) × AreBytes l

loops_agree :
    (crc : ℕ) (bytes : List ℕ) → AreBytes bytes → crc32_loop crc bytes ≡ bitwise_loop crc bytes
unfolding crc32_loop bitwise_loop
loops_agree crc [] h = refl
loops_agree crc (b ∷ bytes) h =
    ap (λ c. crc32_loop c bytes) (crc32_step_lem crc b h.0 ∙ sym (eight_bits-table (bit_xor crc b)))
    ∙ loops_agree (eight_bits (bit_xor crc b)) bytes h.1

-- crc32 with its table of 256 entries computes what the shift register of the polynomial
-- x^32 + x^26 + ... + 1 ($edb88320, lowest bit first) computes bit by bit, for every start value and
-- every run of bytes.
pub crc32-crc32_bitwise :
    (crc : ℕ) (bytes : List ℕ) → AreBytes bytes → crc32 crc bytes ≡ crc32_bitwise crc bytes
unfolding crc32 crc32_bitwise
crc32-crc32_bitwise crc bytes h =
    ap (λ c. bit_xor c all_ones) (loops_agree (bit_xor crc all_ones) bytes h)
