-- ===== src/Proj1/Crc16.antt =====
-- crc16 and check_crc of proj1/tcpd.c.
pub mod Register
pub mod Errors
use Prim.Native.Nat.{bit_and, bit_or, bit_xor}
use cse5462_network_programm.Base.{
  ℕ, zero, suc, ◌-◌, ◌*◌, ◌/◌, ◌%◌, ◌^◌, Bool, List, [], ◌∷◌, ◌==◌, if◌then◌else◌,
}

-- POLY
abbrev pub poly : ℕ
poly = 0x8408

-- The body of the inner loop: one bit of the data.
unfoldable pub crc16_bit : ℕ → ℕ → ℕ
crc16_bit crc bits =
    if bit_xor (bit_and crc 0x0001) (bit_and bits 0x0001) == 0
    then crc / 2
    else bit_xor (crc / 2) poly

-- The inner loop, `n` rounds of it.
unfoldable pub crc16_byte : ℕ → ℕ → ℕ → ℕ
crc16_byte zero crc bits = crc
crc16_byte (suc n) crc bits = crc16_byte n (crc16_bit crc bits) (bits / 2)

-- The outer loop.
unfoldable pub crc16_loop : ℕ → List ℕ → ℕ
crc16_loop crc [] = crc
crc16_loop crc (b ∷ bytes) = crc16_loop (crc16_byte 8 crc (bit_and b 0xff)) bytes

-- `~crc` of an unsigned int
abbrev pub flip : ℕ → ℕ
flip crc = 2 ^ 32 - 1 - crc

-- The end: the bits are flipped and the two bytes change places; the result is an unsigned short.
unfoldable pub crc16_end : ℕ → ℕ
crc16_end crc = bit_or (flip crc * 256 % 2 ^ 32) (bit_and (flip crc / 256) 0xff) % 2 ^ 16

-- `crc16`, of all the bytes; a length that is negative is not modelled.
unfoldable pub crc16 : List ℕ → ℕ
unfolding crc16_loop crc16_byte crc16_bit crc16_end
crc16 [] = flip 0xffff % 2 ^ 16
crc16 (b ∷ bytes) = crc16_end (crc16_loop 0xffff (b ∷ bytes))

-- `check_crc`: is its result 0?
unfoldable pub check_crc : ℕ → ℕ → Bool
check_crc crc_send crc_recv = crc_recv == crc_send
