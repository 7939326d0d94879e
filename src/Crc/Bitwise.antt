-- ===== src/Crc/Bitwise.antt =====
-- The table of final/crc32.c against the polynomial: a step of the table is eight steps of the shift
-- register that the comment at the top of the source describes.
use Prim.Native.Nat.{bit_xor, bit_and, bit_and-bitwise, min}
use cse5462_network_programm.Base.{
  ℕ, zero, suc, ◌+◌, ◌*◌, ◌/◌, ◌%◌, ◌≤◌, ◌<◌, ◌≡◌, refl, ap, ◌∙◌, Bool, true, ◌&&◌, List, [], ◌∷◌,
  ◌==◌, if◌then◌else◌, arith, Bool-cases, inl, inr,
}
use cse5462_network_programm.Crc.{all_ones}
use cse5462_network_programm.Crc.Xor.{digits_enough, bit_xor_half, bit_xor_parity, bit_xor_assoc}

-- Is the test passed by every number below `n`?
unfoldable pub each_below : ℕ → (ℕ → Bool) → Bool
each_below zero p = true
each_below (suc n) p = p n && each_below n p

pub each_below_holds : (n : ℕ) (p : ℕ → Bool) (x : ℕ) → each_below n p ≡ true → x < n → p x ≡ true
unfolding each_below
each_below_holds zero p x passed small = absurd (omega arith)
each_below_holds (suc n) p x passed small = ground (arith, each_below_holds n p x)

-- The mask of a byte.
bit_and_step : (a b : ℕ) → bit_and a b ≡ bit_and (a / 2) (b / 2) * 2 + min (a % 2) (b % 2)
bit_and_step zero b = omega (arith, bit_and-bitwise 0 b, bit_and-bitwise 0 (b / 2))
bit_and_step (suc a) b =
    let half = suc a / 2 in
    let less_fuel = digits_enough (λ y. 0) min half (b / 2) a half (omega arith) (omega arith) in
    omega (arith, less_fuel, bit_and-bitwise half (b / 2), bit_and-bitwise (suc a) b)

and_none_below : (n a : ℕ) → a ≤ n → bit_and a 0 ≡ 0
and_none_below zero zero h = bit_and-bitwise 0 0
and_none_below zero (suc a) h = absurd (omega arith)
and_none_below (suc n) a h = omega (arith, bit_and_step a 0, and_none_below n (a / 2) (omega arith))

and_ones : (a m k : ℕ) → m ≡ k * 2 + 1 → bit_and a m ≡ bit_and (a / 2) k * 2 + a % 2
and_ones a m k e =
    let half : m / 2 ≡ k = omega arith in omega (arith, bit_and_step a m, ap (bit_and (a / 2)) half)

pub bit_and_byte : (a : ℕ) → bit_and a 0xff ≡ a % 256
bit_and_byte a =
    let one = a / 2 in
    let two = one / 2 in
    let three = two / 2 in
    let four = three / 2 in
    let five = four / 2 in
    let six = five / 2 in
    let seven = six / 2 in
    omega (
      arith,
      and_ones a 255 127 refl,
      and_ones one 127 63 refl,
      and_ones two 63 31 refl,
      and_ones three 31 15 refl,
      and_ones four 15 7 refl,
      and_ones five 7 3 refl,
      and_ones six 3 1 refl,
      and_ones seven 1 0 refl,
      and_none_below (seven / 2) (seven / 2) (omega arith),
    )

pub bit_and_one : (a : ℕ) → bit_and a 1 ≡ a % 2
bit_and_one a = omega (arith, and_ones a 1 0 refl, and_none_below (a / 2) (a / 2) (omega arith))

-- One step of the shift register of a polynomial, lowest bit first.
unfoldable pub shift_bit : ℕ → ℕ → ℕ
shift_bit poly x = if x % 2 == 1 then bit_xor (x / 2) poly else x / 2

-- An even number in front goes through halved.
pub shift_bit-even :
    (poly h l : ℕ) → shift_bit poly (bit_xor (2 * h) l) ≡ bit_xor h (shift_bit poly l)
unfolding shift_bit
shift_bit-even poly h l =
    let halves : 2 * h / 2 ≡ h = omega arith in
    let half : bit_xor (2 * h) l / 2 ≡ bit_xor h (l / 2) =
      bit_xor_half (2 * h) l ∙ ap (λ x. bit_xor x (l / 2)) halves in
    let odd : bit_xor (2 * h) l % 2 ≡ l % 2 = omega (arith, bit_xor_parity (2 * h) l) in
    rw (odd, half)
      (elim (Bool-cases (l % 2 == 1)) [
        | inl e ↦ rw e (bit_xor_assoc h (l / 2) poly)
        | inr e ↦ rw e refl
      ])

-- The polynomial of final/crc32.c, $edb88320.
unfoldable pub crc_bit : ℕ → ℕ
unfolding shift_bit
crc_bit x = shift_bit 0xedb88320 x

unfoldable pub eight_bits : ℕ → ℕ
unfolding crc_bit
eight_bits x = crc_bit (crc_bit (crc_bit (crc_bit (crc_bit (crc_bit (crc_bit (crc_bit x)))))))

-- The checksum with the shift register in place of the table.
unfoldable pub bitwise_loop : ℕ → List ℕ → ℕ
bitwise_loop crc [] = crc
bitwise_loop crc (b ∷ bytes) = bitwise_loop (eight_bits (bit_xor crc b)) bytes

unfoldable pub crc32_bitwise : ℕ → List ℕ → ℕ
unfolding bitwise_loop eight_bits
crc32_bitwise crc bytes = bit_xor (bitwise_loop (bit_xor crc all_ones) bytes) all_ones

crc_bit-even : (h l : ℕ) → crc_bit (bit_xor (2 * h) l) ≡ bit_xor h (crc_bit l)
unfolding crc_bit
crc_bit-even h l = shift_bit-even 0xedb88320 h l

abbrev pub times_256 : ℕ → ℕ
times_256 h = 2 * (2 * (2 * (2 * (2 * (2 * (2 * (2 * h)))))))

pub eight_bits-even : (h l : ℕ) → eight_bits (bit_xor (times_256 h) l) ≡ bit_xor h (eight_bits l)
eight_bits-even h l =
    unfold eight_bits in
    (ap (λ x. crc_bit (crc_bit (crc_bit (crc_bit (crc_bit (crc_bit (crc_bit x)))))))
        (crc_bit-even _ l)
      ∙ ap (λ x. crc_bit (crc_bit (crc_bit (crc_bit (crc_bit (crc_bit x)))))) (crc_bit-even _ _)
      ∙ ap (λ x. crc_bit (crc_bit (crc_bit (crc_bit (crc_bit x))))) (crc_bit-even _ _)
      ∙ ap (λ x. crc_bit (crc_bit (crc_bit (crc_bit x)))) (crc_bit-even _ _)
      ∙ ap (λ x. crc_bit (crc_bit (crc_bit x))) (crc_bit-even _ _)
      ∙ ap (λ x. crc_bit (crc_bit x)) (crc_bit-even _ _)
      ∙ ap crc_bit (crc_bit-even _ _)
      ∙ crc_bit-even h _)
