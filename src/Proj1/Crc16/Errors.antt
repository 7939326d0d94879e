-- ===== src/Proj1/Crc16/Errors.antt =====
-- The checksum of proj1/tcpd.c tells two runs of bytes apart that differ in one byte.
use Prim.Native.Nat.{bit_xor}
use cse5462_network_programm.Base.{
  ℕ, zero, suc, ◌+◌, ◌-◌, ◌*◌, ◌/◌, ◌%◌, ◌^◌, ◌<◌, ◌≡◌, ◌≢◌, refl, sym, ap, ◌∙◌, inl, inr, true,
  false, List, [], ◌∷◌, ◌++◌, ◌==◌, ==_iff, Bool-cases, arith,
}
use cse5462_network_programm.Crc.Xor.{bit_xor_comm, bit_xor_inj, bit_xor_shift_15}
use cse5462_network_programm.Crc.Bitwise.{each_below, each_below_holds, shift_bit}
use cse5462_network_programm.Crc.Reference.{AreBytes}
use cse5462_network_programm.Proj1.Crc16.{crc16, crc16_end, crc16_loop, check_crc, poly}
use cse5462_network_programm.Proj1.Crc16.Register.{
  shifts, register_loop, crc16_loop-register, shift_bit_bound, shifts_bound, mixed, loop_bound,
}

-- The register before the end, from the checksum.
register_of : ℕ → ℕ
register_of sum = 0xffff - (sum % 256 * 256 + sum / 256)

register_of_holds : each_below 65536 (λ c. register_of (crc16_end c) == c) ≡ true
unfolding each_below register_of crc16_end
register_of_holds = refl

-- The top bit tells whether the polynomial went in.
shift_bit_top : (x : ℕ) → x < 2 ^ 16 → shift_bit poly x / 2 ^ 15 ≡ x % 2
unfolding shift_bit
shift_bit_top x h =
    let none : x / 2 / 2 ^ 15 ≡ 0 = omega arith in
    let top : bit_xor (x / 2) poly / 2 ^ 15 ≡ 1 =
      bit_xor_shift_15 (x / 2) poly ∙ ap (λ y. bit_xor y 1) none in
    elim (Bool-cases (x % 2 == 1)) [
      | inl e ↦ rw e (top ∙ sym ((==_iff _ _).0 e))
      | inr e ↦ rw e (none ∙ ground arith)
    ]

shift_bit_inj : (x y : ℕ) → x < 2 ^ 16 → y < 2 ^ 16 → shift_bit poly x ≡ shift_bit poly y → x ≡ y
unfolding shift_bit
shift_bit_inj x y h k e =
    let low : x % 2 ≡ y % 2 =
      sym (shift_bit_top x h) ∙ ap (λ z. z / 2 ^ 15) e ∙ shift_bit_top y k in
    let high : x / 2 ≡ y / 2 = elim (Bool-cases (x % 2 == 1)) [
      | inl t ↦
          let t' : (y % 2 == 1) ≡ true = ap (λ z. z == 1) (sym low) ∙ t in
          bit_xor_inj poly
            (bit_xor_comm poly (x / 2) ∙ (rw (t, t') at e) ∙ bit_xor_comm (y / 2) poly)
      | inr t ↦ let t' : (y % 2 == 1) ≡ false = ap (λ z. z == 1) (sym low) ∙ t in (rw (t, t') at e)
    ] in
    omega (arith, low, high)

shifts_inj : (n x y : ℕ) → x < 2 ^ 16 → y < 2 ^ 16 → shifts n x ≡ shifts n y → x ≡ y
unfolding shifts
shifts_inj zero x y h k e = e
shifts_inj (suc n) x y h k e = shift_bit_inj x y h k (
    shifts_inj n (shift_bit poly x) (shift_bit poly y) (shift_bit_bound x h) (shift_bit_bound y k)
      e)

loop_inj :
    (crc crc' : ℕ) (bytes : List ℕ)
    → AreBytes bytes
    → crc < 2 ^ 16
    → crc' < 2 ^ 16
    → register_loop crc bytes ≡ register_loop crc' bytes
    → crc ≡ crc'
unfolding register_loop
loop_inj crc crc' [] a h k e = e
loop_inj crc crc' (b ∷ bytes) a h k e =
    let same =
      shifts_inj 8 (bit_xor crc b) (bit_xor crc' b) (mixed crc b h a.0) (mixed crc' b k a.0) (
        loop_inj (shifts 8 (bit_xor crc b)) (shifts 8 (bit_xor crc' b)) bytes a.1
          (shifts_bound 8 _ (mixed crc b h a.0)) (shifts_bound 8 _ (mixed crc' b k a.0)) e) in
    bit_xor_inj b (bit_xor_comm b crc ∙ same ∙ bit_xor_comm crc' b)

loop_differs :
    (crc : ℕ) (before : List ℕ) (b b' : ℕ) (behind : List ℕ)
    → crc < 2 ^ 16
    → AreBytes before
    → AreBytes behind
    → b < 256
    → b' < 256
    → register_loop crc (before ++ b ∷ behind) ≡ register_loop crc (before ++ b' ∷ behind)
    → b ≡ b'
unfolding register_loop
loop_differs crc [] b b' behind h p q k k' e = bit_xor_inj crc (
    shifts_inj 8 (bit_xor crc b) (bit_xor crc b') (mixed crc b h k) (mixed crc b' h k') (
      loop_inj (shifts 8 (bit_xor crc b)) (shifts 8 (bit_xor crc b')) behind q
        (shifts_bound 8 _ (mixed crc b h k)) (shifts_bound 8 _ (mixed crc b' h k')) e))
loop_differs crc (a ∷ before) b b' behind h p q k k' e =
    loop_differs (shifts 8 (bit_xor crc a)) before b b' behind
      (shifts_bound 8 _ (mixed crc a h p.0)) p.1 q k k' e

crc16_end_inj : (c c' : ℕ) → c < 2 ^ 16 → c' < 2 ^ 16 → crc16_end c ≡ crc16_end c' → c ≡ c'
crc16_end_inj c c' h k e =
    sym ((==_iff _ _).0 (each_below_holds 65536 _ c register_of_holds h))
    ∙ ap register_of e
    ∙ (==_iff _ _).0 (each_below_holds 65536 _ c' register_of_holds k)

crc16_end-loop : (bytes : List ℕ) → bytes ≢ [] → crc16 bytes ≡ crc16_end (crc16_loop 0xffff bytes)
unfolding crc16
crc16_end-loop [] ne = absurd (ne refl)
crc16_end-loop (b ∷ bytes) ne = refl

AreBytes-append :
    (before : List ℕ) (b : ℕ) (behind : List ℕ)
    → AreBytes before
    → b < 256
    → AreBytes behind
    → AreBytes (before ++ b ∷ behind)
AreBytes-append [] b behind p k q = (k, q)
AreBytes-append (a ∷ before) b behind p k q = (p.0, AreBytes-append before b behind p.1 k q)

crc16_of :
    (before : List ℕ) (b : ℕ) (behind : List ℕ)
    → AreBytes (before ++ b ∷ behind)
    → crc16 (before ++ b ∷ behind) ≡ crc16_end (register_loop 0xffff (before ++ b ∷ behind))
crc16_of before b behind h =
    crc16_end-loop (before ++ b ∷ behind) (not_nil before)
    ∙ ap crc16_end (crc16_loop-register 0xffff (before ++ b ∷ behind) h)
  where
    not_nil : (l : List ℕ) → l ++ b ∷ behind ≢ []
    not_nil [] e = cc
    not_nil (x ∷ l) e = cc

-- check_crc refuses every packet of which exactly one byte has changed: it tells the checksum of the
-- bytes that were sent from that of the bytes that have come.
pub check_crc_detects :
    (before : List ℕ) (b b' : ℕ) (behind : List ℕ)
    → AreBytes before
    → AreBytes behind
    → b < 256
    → b' < 256
    → b ≢ b'
    → check_crc (crc16 (before ++ b ∷ behind)) (crc16 (before ++ b' ∷ behind)) ≡ false
unfolding check_crc
check_crc_detects before b b' behind p q k k' ne =
    elim (Bool-cases (crc16 (before ++ b' ∷ behind) == crc16 (before ++ b ∷ behind))) [
      | inr e ↦ e
      | inl e ↦
          let all = AreBytes-append before b behind p k q in
          let all' = AreBytes-append before b' behind p k' q in
          let sums : crc16_end (register_loop 0xffff (before ++ b ∷ behind))
              ≡ crc16_end (register_loop 0xffff (before ++ b' ∷ behind)) =
            sym (crc16_of before b behind all)
            ∙ sym ((==_iff _ _).0 e)
            ∙ crc16_of before b' behind all' in
          absurd (
            ne (
              loop_differs 0xffff before b b' behind (omega arith) p q k k' (
                crc16_end_inj _ _ (loop_bound 0xffff _ all (omega arith))
                  (loop_bound 0xffff _ all' (omega arith)) sums)))
    ]
