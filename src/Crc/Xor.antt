-- ===== src/Crc/Xor.antt =====
-- Laws of exclusive or on numbers, from its lowest binary digit, for the checksum of final/crc32.c.
use Prim.Native.Nat.{bit_xor, bit_xor-bitwise, digits, differ}
use cse5462_network_programm.Base.{
  ℕ, zero, suc, ◌+◌, ◌*◌, ◌/◌, ◌%◌, ◌^◌, ◌≤◌, ◌<◌, ◌≡◌, refl, sym, ap, ap₂, ◌∙◌, arith,
}

-- More fuel than the first number changes nothing.
pub digits_enough :
    (rest : ℕ → ℕ) (op : ℕ → ℕ → ℕ) (x y k l : ℕ)
    → x ≤ k
    → x ≤ l
    → digits rest op k x y ≡ digits rest op l x y
digits_enough rest op zero y zero zero h h' = refl
digits_enough rest op zero y zero (suc l) h h' = refl
digits_enough rest op zero y (suc k) zero h h' = refl
digits_enough rest op zero y (suc k) (suc l) h h' = refl
digits_enough rest op (suc x) y zero l h h' = absurd (omega arith)
digits_enough rest op (suc x) y (suc k) zero h h' = absurd (omega arith)
digits_enough rest op (suc x) y (suc k) (suc l) h h' =
    let smaller = digits_enough rest op (suc x / 2) (y / 2) k l (omega arith) (omega arith) in
    rw smaller

differ_bits : (x y : ℕ) → x < 2 → y < 2 → differ x y ≡ (x + y) % 2
differ_bits zero zero p q = refl
differ_bits zero (suc zero) p q = refl
differ_bits zero (suc (suc y)) p q = absurd (omega arith)
differ_bits (suc zero) zero p q = refl
differ_bits (suc zero) (suc zero) p q = refl
differ_bits (suc zero) (suc (suc y)) p q = absurd (omega arith)
differ_bits (suc (suc x)) y p q = absurd (omega arith)

pub zero-bit_xor : (b : ℕ) → bit_xor 0 b ≡ b
zero-bit_xor b = bit_xor-bitwise 0 b

-- The number is that of the halves, and the lowest digit tells whether the digits differ.
pub bit_xor_step : (a b : ℕ) → bit_xor a b ≡ bit_xor (a / 2) (b / 2) * 2 + (a % 2 + b % 2) % 2
bit_xor_step zero b = omega (arith, zero-bit_xor b, zero-bit_xor (b / 2))
bit_xor_step (suc a) b =
    let half = suc a / 2 in
    let digit = differ_bits (suc a % 2) (b % 2) (omega arith) (omega arith) in
    let less_fuel = digits_enough (λ y. y) differ half (b / 2) a half (omega arith) (omega arith) in
    omega (arith, digit, less_fuel, bit_xor-bitwise half (b / 2), bit_xor-bitwise (suc a) b)

pub bit_xor_half : (a b : ℕ) → bit_xor a b / 2 ≡ bit_xor (a / 2) (b / 2)
bit_xor_half a b = omega (arith, bit_xor_step a b)

pub bit_xor_parity : (a b : ℕ) → bit_xor a b % 2 ≡ (a + b) % 2
bit_xor_parity a b = omega (arith, bit_xor_step a b)

half_ext : (x y : ℕ) → x / 2 ≡ y / 2 → x % 2 ≡ y % 2 → x ≡ y
half_ext x y h k = omega arith

comm_below : (n a b : ℕ) → a ≤ n → b ≤ n → bit_xor a b ≡ bit_xor b a
comm_below zero zero zero p q = refl
comm_below zero (suc a) b p q = absurd (omega arith)
comm_below zero zero (suc b) p q = absurd (omega arith)
comm_below (suc n) a b p q = omega (
  arith,
  bit_xor_step a b,
  bit_xor_step b a,
  comm_below n (a / 2) (b / 2) (omega arith) (omega arith),
)

pub bit_xor_comm : (a b : ℕ) → bit_xor a b ≡ bit_xor b a
bit_xor_comm a b = comm_below (a + b) a b (omega arith) (omega arith)

pub bit_xor-zero : (a : ℕ) → bit_xor a 0 ≡ a
bit_xor-zero a = bit_xor_comm a 0 ∙ zero-bit_xor a

assoc_below :
    (n a b c : ℕ) → a ≤ n → b ≤ n → c ≤ n → bit_xor (bit_xor a b) c ≡ bit_xor a (bit_xor b c)
assoc_below zero zero b c p q r =
    ap (λ x. bit_xor x c) (zero-bit_xor b) ∙ sym (zero-bit_xor (bit_xor b c))
assoc_below zero (suc a) b c p q r = absurd (omega arith)
assoc_below (suc n) a b c p q r =
    half_ext (bit_xor (bit_xor a b) c) (bit_xor a (bit_xor b c))
      (bit_xor_half (bit_xor a b) c
        ∙ ap (λ x. bit_xor x (c / 2)) (bit_xor_half a b)
        ∙ assoc_below n (a / 2) (b / 2) (c / 2) (omega arith) (omega arith) (omega arith)
        ∙ ap (bit_xor (a / 2)) (sym (bit_xor_half b c))
        ∙ sym (bit_xor_half a (bit_xor b c)))
      (omega (
        arith,
        bit_xor_parity (bit_xor a b) c,
        bit_xor_parity a b,
        bit_xor_parity a (bit_xor b c),
        bit_xor_parity b c,
      ))

pub bit_xor_assoc : (a b c : ℕ) → bit_xor (bit_xor a b) c ≡ bit_xor a (bit_xor b c)
bit_xor_assoc a b c = assoc_below (a + b + c) a b c (omega arith) (omega arith) (omega arith)

self_below : (n a : ℕ) → a ≤ n → bit_xor a a ≡ 0
self_below zero zero p = refl
self_below zero (suc a) p = absurd (omega arith)
self_below (suc n) a p = omega (arith, bit_xor_step a a, self_below n (a / 2) (omega arith))

pub bit_xor_self : (a : ℕ) → bit_xor a a ≡ 0
bit_xor_self a = self_below a a (omega arith)

-- What is put in twice goes out.
pub bit_xor_cancel : (a b : ℕ) → bit_xor a (bit_xor a b) ≡ b
bit_xor_cancel a b =
    sym (bit_xor_assoc a a b) ∙ ap (λ x. bit_xor x b) (bit_xor_self a) ∙ zero-bit_xor b

pub bit_xor_inj : (a : ℕ) {b c : ℕ} → bit_xor a b ≡ bit_xor a c → b ≡ c
bit_xor_inj a {b} {c} e = sym (bit_xor_cancel a b) ∙ ap (bit_xor a) e ∙ bit_xor_cancel a c

-- Shifts to the right.
by_two : (a b : ℕ) → bit_xor a b / 4 ≡ bit_xor (a / 4) (b / 4)
by_two a b =
    let e : (x : ℕ) → x / 4 ≡ x / 2 / 2 = λ x. omega arith in
    e (bit_xor a b)
    ∙ ap (λ x. x / 2) (bit_xor_half a b)
    ∙ bit_xor_half (a / 2) (b / 2)
    ∙ ap₂ bit_xor (sym (e a)) (sym (e b))

by_four : (a b : ℕ) → bit_xor a b / 16 ≡ bit_xor (a / 16) (b / 16)
by_four a b =
    let e : (x : ℕ) → x / 16 ≡ x / 4 / 4 = λ x. omega arith in
    e (bit_xor a b)
    ∙ ap (λ x. x / 4) (by_two a b)
    ∙ by_two (a / 4) (b / 4)
    ∙ ap₂ bit_xor (sym (e a)) (sym (e b))

pub bit_xor_shift_eight : (a b : ℕ) → bit_xor a b / 256 ≡ bit_xor (a / 256) (b / 256)
bit_xor_shift_eight a b =
    let e : (x : ℕ) → x / 256 ≡ x / 16 / 16 = λ x. omega arith in
    e (bit_xor a b)
    ∙ ap (λ x. x / 16) (by_four a b)
    ∙ by_four (a / 16) (b / 16)
    ∙ ap₂ bit_xor (sym (e a)) (sym (e b))

by_sixteen : (a b : ℕ) → bit_xor a b / 2 ^ 16 ≡ bit_xor (a / 2 ^ 16) (b / 2 ^ 16)
by_sixteen a b =
    let e : (x : ℕ) → x / 2 ^ 16 ≡ x / 256 / 256 = λ x. omega arith in
    e (bit_xor a b)
    ∙ ap (λ x. x / 256) (bit_xor_shift_eight a b)
    ∙ bit_xor_shift_eight (a / 256) (b / 256)
    ∙ ap₂ bit_xor (sym (e a)) (sym (e b))

pub bit_xor_shift_15 : (a b : ℕ) → bit_xor a b / 2 ^ 15 ≡ bit_xor (a / 2 ^ 15) (b / 2 ^ 15)
bit_xor_shift_15 a b =
    let e : (x : ℕ) → x / 2 ^ 15 ≡ x / 256 / 16 / 4 / 2 = λ x. omega arith in
    e (bit_xor a b)
    ∙ ap (λ x. x / 16 / 4 / 2) (bit_xor_shift_eight a b)
    ∙ ap (λ x. x / 4 / 2) (by_four (a / 256) (b / 256))
    ∙ ap (λ x. x / 2) (by_two (a / 256 / 16) (b / 256 / 16))
    ∙ bit_xor_half (a / 256 / 16 / 4) (b / 256 / 16 / 4)
    ∙ ap₂ bit_xor (sym (e a)) (sym (e b))

-- 16 bits stay 16 bits.
pub bit_xor_bound_16 : (a b : ℕ) → a < 2 ^ 16 → b < 2 ^ 16 → bit_xor a b < 2 ^ 16
bit_xor_bound_16 a b p q =
    let none_of : (x : ℕ) → x < 2 ^ 16 → x / 2 ^ 16 ≡ 0 = λ x h. omega arith in
    let high : bit_xor a b / 2 ^ 16 ≡ 0 =
      by_sixteen a b ∙ ap₂ bit_xor (none_of a p) (none_of b q) ∙ zero-bit_xor 0 in
    omega (arith, high)

pub bit_xor_shift_24 : (a b : ℕ) → bit_xor a b / 2 ^ 24 ≡ bit_xor (a / 2 ^ 24) (b / 2 ^ 24)
bit_xor_shift_24 a b =
    let e : (x : ℕ) → x / 2 ^ 24 ≡ x / 2 ^ 16 / 256 = λ x. omega arith in
    e (bit_xor a b)
    ∙ ap (λ x. x / 256) (by_sixteen a b)
    ∙ bit_xor_shift_eight (a / 2 ^ 16) (b / 2 ^ 16)
    ∙ ap₂ bit_xor (sym (e a)) (sym (e b))

by_32 : (a b : ℕ) → bit_xor a b / 2 ^ 32 ≡ bit_xor (a / 2 ^ 32) (b / 2 ^ 32)
by_32 a b =
    let e : (x : ℕ) → x / 2 ^ 32 ≡ x / 2 ^ 16 / 2 ^ 16 = λ x. omega arith in
    e (bit_xor a b)
    ∙ ap (λ x. x / 2 ^ 16) (by_sixteen a b)
    ∙ by_sixteen (a / 2 ^ 16) (b / 2 ^ 16)
    ∙ ap₂ bit_xor (sym (e a)) (sym (e b))

-- 32 bits stay 32 bits.
pub bit_xor_bound : (a b : ℕ) → a < 2 ^ 32 → b < 2 ^ 32 → bit_xor a b < 2 ^ 32
bit_xor_bound a b p q =
    let none_of : (x : ℕ) → x < 2 ^ 32 → x / 2 ^ 32 ≡ 0 = λ x h. omega arith in
    let high : bit_xor a b / 2 ^ 32 ≡ 0 =
      by_32 a b ∙ ap₂ bit_xor (none_of a p) (none_of b q) ∙ zero-bit_xor 0 in
    omega (arith, high)
