-- ===== src/Proj1/Crc16/Register.antt =====
-- crc16 of proj1/tcpd.c as a shift register that takes a whole byte at once.
use Prim.Native.Nat.{bit_and, bit_xor}
use cse5462_network_programm.Base.{
  ℕ, zero, suc, ◌+◌, ◌-◌, ◌==◌, ==_iff, true, ◌*◌, ◌/◌, ◌%◌, ◌^◌, ◌<◌, ◌≡◌, refl, sym, ap, ap₂, ◌∙◌,
  List, [], ◌∷◌, arith,
}
use cse5462_network_programm.Crc.Xor.{
  bit_xor_step, bit_xor_half, bit_xor_parity, bit_xor_comm, bit_xor_bound_16, bit_xor_assoc,
  bit_xor-zero, zero-bit_xor,
}
use cse5462_network_programm.Crc.Bitwise.{
  each_below, each_below_holds, bit_and_one, bit_and_byte, shift_bit, shift_bit-even,
}
use cse5462_network_programm.Proj1.Crc16.{crc16_bit, crc16_byte, crc16_loop, crc16_end, crc16, poly}
use cse5462_network_programm.Crc.Reference.{AreBytes}

-- Eight steps of the register, one for each bit.
unfoldable pub shifts : ℕ → ℕ → ℕ
shifts zero x = x
shifts (suc n) x = shifts n (shift_bit poly x)

-- The register over the bytes.
unfoldable pub register_loop : ℕ → List ℕ → ℕ
register_loop crc [] = crc
register_loop crc (b ∷ bytes) = register_loop (shifts 8 (bit_xor crc b)) bytes

small_xor : (x y : ℕ) → x < 2 → y < 2 → bit_xor x y ≡ (x + y) % 2
small_xor x y h k =
    let a : x / 2 ≡ 0 = omega arith in
    let b : y / 2 ≡ 0 = omega arith in
    let none : bit_xor (x / 2) (y / 2) ≡ 0 = ap₂ bit_xor a b ∙ zero-bit_xor 0 in
    omega (arith, bit_xor_step x y, none)

crc16_bit-shift_bit : (crc bits : ℕ) → crc16_bit crc bits ≡ shift_bit poly (bit_xor crc (bits % 2))
unfolding crc16_bit shift_bit
crc16_bit-shift_bit crc bits =
    let low : bit_xor (bit_and crc 1) (bit_and bits 1) ≡ (crc + bits) % 2 =
      ap₂ bit_xor (bit_and_one crc) (bit_and_one bits)
      ∙ small_xor (crc % 2) (bits % 2) (omega arith) (omega arith)
      ∙ omega arith in
    let odd : bit_xor crc (bits % 2) % 2 ≡ (crc + bits) % 2 =
      omega (arith, bit_xor_parity crc (bits % 2)) in
    let none : bits % 2 / 2 ≡ 0 = omega arith in
    let half : bit_xor crc (bits % 2) / 2 ≡ crc / 2 =
      bit_xor_half crc (bits % 2) ∙ ap (bit_xor (crc / 2)) none ∙ bit_xor-zero (crc / 2) in
    rw (low, odd, half) (ground arith)

split_low : (x : ℕ) → x ≡ bit_xor (2 * (x / 2)) (x % 2)
split_low x =
    let half : 2 * (x / 2) / 2 ≡ x / 2 = omega arith in
    let none : x % 2 / 2 ≡ 0 = omega arith in
    let front : bit_xor (2 * (x / 2) / 2) (x % 2 / 2) ≡ x / 2 =
      ap₂ bit_xor half none ∙ bit_xor-zero (x / 2) in
    omega (arith, bit_xor_step (2 * (x / 2)) (x % 2), front)

crc16_byte-shifts :
    (n crc bits : ℕ) → bits < 2 ^ n → crc16_byte n crc bits ≡ shifts n (bit_xor crc bits)
unfolding crc16_byte shifts
crc16_byte-shifts zero crc bits h =
    let none : bits ≡ 0 = omega arith in sym (ap (bit_xor crc) none ∙ bit_xor-zero crc)
crc16_byte-shifts (suc n) crc bits h =
    let two = 2 * (bits / 2) in
    let low = bits % 2 in
    let smaller : bits / 2 < 2 ^ n = omega arith in
    let whole : bit_xor two (bit_xor crc low) ≡ bit_xor crc bits =
      sym (bit_xor_assoc two crc low)
      ∙ ap (λ x. bit_xor x low) (bit_xor_comm two crc)
      ∙ bit_xor_assoc crc two low
      ∙ ap (bit_xor crc) (sym (split_low bits)) in
    crc16_byte-shifts n (crc16_bit crc bits) (bits / 2) smaller
    ∙ ap (shifts n) (
        ap (λ x. bit_xor x (bits / 2)) (crc16_bit-shift_bit crc bits)
        ∙ bit_xor_comm (shift_bit poly (bit_xor crc low)) (bits / 2)
        ∙ sym (shift_bit-even poly (bits / 2) (bit_xor crc low))
        ∙ ap (shift_bit poly) whole)

pub crc16_loop-register :
    (crc : ℕ) (bytes : List ℕ) → AreBytes bytes → crc16_loop crc bytes ≡ register_loop crc bytes
unfolding crc16_loop register_loop
crc16_loop-register crc [] h = refl
crc16_loop-register crc (b ∷ bytes) h =
    let byte : bit_and b 0xff ≡ b = bit_and_byte b ∙ omega (arith, h.0) in
    ap (λ c. crc16_loop c bytes)
      (crc16_byte-shifts 8 crc (bit_and b 0xff) (omega (arith, byte, h.0))
        ∙ ap (λ x. shifts 8 (bit_xor crc x)) byte)
    ∙ crc16_loop-register (shifts 8 (bit_xor crc b)) bytes h.1

pub shift_bit_bound : (x : ℕ) → x < 2 ^ 16 → shift_bit poly x < 2 ^ 16
unfolding shift_bit
shift_bit_bound x h =
    let xored = bit_xor_bound_16 (x / 2) poly (omega arith) (omega arith) in ground (arith, xored)

pub shifts_bound : (n x : ℕ) → x < 2 ^ 16 → shifts n x < 2 ^ 16
unfolding shifts
shifts_bound zero x h = h
shifts_bound (suc n) x h = shifts_bound n (shift_bit poly x) (shift_bit_bound x h)

pub mixed : (crc b : ℕ) → crc < 2 ^ 16 → b < 256 → bit_xor crc b < 2 ^ 16
mixed crc b h k = bit_xor_bound_16 crc b h (omega arith)

pub loop_bound :
    (crc : ℕ) (bytes : List ℕ) → AreBytes bytes → crc < 2 ^ 16 → register_loop crc bytes < 2 ^ 16
unfolding register_loop
loop_bound crc [] a h = h
loop_bound crc (b ∷ bytes) a h =
    loop_bound (shifts 8 (bit_xor crc b)) bytes a.1 (shifts_bound 8 _ (mixed crc b h a.0))

end_of : ℕ → ℕ
end_of r = (255 - r % 256) * 256 + (255 - r / 256)

end_of_holds : each_below 65536 (λ r. crc16_end r == end_of r) ≡ true
unfolding each_below end_of crc16_end
end_of_holds = refl

-- crc16 of at least one byte is the shift register of the polynomial x^16 + x^12 + x^5 + 1 (0x8408,
-- lowest bit first) run over the bytes from 0xffff, with its bits flipped and its two bytes exchanged:
-- the high byte of the result is 255 less the low byte of the register, and its low byte 255 less the
-- high one.
pub crc16-register_loop :
    (b : ℕ) (bytes : List ℕ)
    → AreBytes (b ∷ bytes)
    → let r = register_loop 0xffff (b ∷ bytes) in
      crc16 (b ∷ bytes) ≡ (255 - r % 256) * 256 + (255 - r / 256)
unfolding crc16 end_of
crc16-register_loop b bytes h =
    let r = register_loop 0xffff (b ∷ bytes) in
    ap crc16_end (crc16_loop-register 0xffff (b ∷ bytes) h)
    ∙ (==_iff _ _).0 (
        each_below_holds 65536 (λ x. crc16_end x == end_of x) r end_of_holds
          (loop_bound 0xffff (b ∷ bytes) h (omega arith)))
