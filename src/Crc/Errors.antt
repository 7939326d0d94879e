-- ===== src/Crc/Errors.antt =====
-- The checksum of final/crc32.c tells two runs of bytes apart that differ in one byte.
use Prim.Native.Nat.{bit_xor}
use cse5462_network_programm.Base.{
  ℕ, ◌/◌, ◌%◌, ◌^◌, ◌<◌, ◌≡◌, ◌≢◌, refl, sym, ap, ◌∙◌, true, List, [], ◌∷◌, ◌++◌, ◌==◌, ==_iff,
  get_or, arith, ltb, ltb→lt,
}
use cse5462_network_programm.Crc.{crc32, crc32_loop, crc32_step, all_ones}
use cse5462_network_programm.Crc.Table.{crc32_tab}
use cse5462_network_programm.Crc.Xor.{
  bit_xor_comm, bit_xor_inj, bit_xor_shift_24, bit_xor_bound, zero-bit_xor,
}
use cse5462_network_programm.Crc.Bitwise.{each_below, each_below_holds}
use cse5462_network_programm.Crc.Reference.{AreBytes, crc32_step_lem}

-- At which place of the table the entry with a given first byte stands.
place_of : List ℕ
place_of =
    0 ∷ 65 ∷ 195 ∷ 130 ∷ 134 ∷ 199 ∷ 69 ∷ 4 ∷ 77 ∷ 12 ∷ 142 ∷ 207 ∷ 203 ∷ 138 ∷ 8 ∷ 73 ∷ 154 ∷ 219
    ∷ 89 ∷ 24 ∷ 28 ∷ 93 ∷ 223 ∷ 158 ∷ 215 ∷ 150 ∷ 20 ∷ 85 ∷ 81 ∷ 16 ∷ 146 ∷ 211 ∷ 117 ∷ 52 ∷ 182
    ∷ 247 ∷ 243 ∷ 178 ∷ 48 ∷ 113 ∷ 56 ∷ 121 ∷ 251 ∷ 186 ∷ 190 ∷ 255 ∷ 125 ∷ 60 ∷ 239 ∷ 174 ∷ 44
    ∷ 109 ∷ 105 ∷ 40 ∷ 170 ∷ 235 ∷ 162 ∷ 227 ∷ 97 ∷ 32 ∷ 36 ∷ 101 ∷ 231 ∷ 166 ∷ 234 ∷ 171 ∷ 41 ∷ 104
    ∷ 108 ∷ 45 ∷ 175 ∷ 238 ∷ 167 ∷ 230 ∷ 100 ∷ 37 ∷ 33 ∷ 96 ∷ 226 ∷ 163 ∷ 112 ∷ 49 ∷ 179 ∷ 242 ∷ 246
    ∷ 183 ∷ 53 ∷ 116 ∷ 61 ∷ 124 ∷ 254 ∷ 191 ∷ 187 ∷ 250 ∷ 120 ∷ 57 ∷ 159 ∷ 222 ∷ 92 ∷ 29 ∷ 25 ∷ 88
    ∷ 218 ∷ 155 ∷ 210 ∷ 147 ∷ 17 ∷ 80 ∷ 84 ∷ 21 ∷ 151 ∷ 214 ∷ 5 ∷ 68 ∷ 198 ∷ 135 ∷ 131 ∷ 194 ∷ 64
    ∷ 1 ∷ 72 ∷ 9 ∷ 139 ∷ 202 ∷ 206 ∷ 143 ∷ 13 ∷ 76 ∷ 149 ∷ 212 ∷ 86 ∷ 23 ∷ 19 ∷ 82 ∷ 208 ∷ 145 ∷ 216
    ∷ 153 ∷ 27 ∷ 90 ∷ 94 ∷ 31 ∷ 157 ∷ 220 ∷ 15 ∷ 78 ∷ 204 ∷ 141 ∷ 137 ∷ 200 ∷ 74 ∷ 11 ∷ 66 ∷ 3 ∷ 129
    ∷ 192 ∷ 196 ∷ 133 ∷ 7 ∷ 70 ∷ 224 ∷ 161 ∷ 35 ∷ 98 ∷ 102 ∷ 39 ∷ 165 ∷ 228 ∷ 173 ∷ 236 ∷ 110 ∷ 47
    ∷ 43 ∷ 106 ∷ 232 ∷ 169 ∷ 122 ∷ 59 ∷ 185 ∷ 248 ∷ 252 ∷ 189 ∷ 63 ∷ 126 ∷ 55 ∷ 118 ∷ 244 ∷ 181
    ∷ 177 ∷ 240 ∷ 114 ∷ 51 ∷ 127 ∷ 62 ∷ 188 ∷ 253 ∷ 249 ∷ 184 ∷ 58 ∷ 123 ∷ 50 ∷ 115 ∷ 241 ∷ 176
    ∷ 180 ∷ 245 ∷ 119 ∷ 54 ∷ 229 ∷ 164 ∷ 38 ∷ 103 ∷ 99 ∷ 34 ∷ 160 ∷ 225 ∷ 168 ∷ 233 ∷ 107 ∷ 42 ∷ 46
    ∷ 111 ∷ 237 ∷ 172 ∷ 10 ∷ 75 ∷ 201 ∷ 136 ∷ 140 ∷ 205 ∷ 79 ∷ 14 ∷ 71 ∷ 6 ∷ 132 ∷ 197 ∷ 193 ∷ 128
    ∷ 2 ∷ 67 ∷ 144 ∷ 209 ∷ 83 ∷ 18 ∷ 22 ∷ 87 ∷ 213 ∷ 148 ∷ 221 ∷ 156 ∷ 30 ∷ 95 ∷ 91 ∷ 26 ∷ 152 ∷ 217
    ∷ []

abbrev entry : ℕ → ℕ
entry i = get_or crc32_tab i 0

places_hold : each_below 256 (λ i. get_or place_of (entry i / 2 ^ 24) 0 == i) ≡ true
unfolding each_below crc32_tab place_of
places_hold = refl

entries_small : each_below 256 (λ i. ltb (entry i) (2 ^ 32)) ≡ true
unfolding each_below crc32_tab
entries_small = refl

entry_inj : (i j : ℕ) → i < 256 → j < 256 → entry i / 2 ^ 24 ≡ entry j / 2 ^ 24 → i ≡ j
entry_inj i j p q e =
    sym ((==_iff _ _).0 (each_below_holds 256 _ i places_hold p))
    ∙ ap (λ t. get_or place_of t 0) e
    ∙ (==_iff _ _).0 (each_below_holds 256 _ j places_hold q)

entry_bound : (i : ℕ) → i < 256 → entry i < 2 ^ 32
entry_bound i p = ltb→lt _ _ (each_below_holds 256 _ i entries_small p)

-- The register after a byte, from the exclusive or of register and byte.
register : ℕ → ℕ
register x = bit_xor (x / 256) (entry (x % 256))

register_top : (x : ℕ) → x < 2 ^ 32 → register x / 2 ^ 24 ≡ entry (x % 256) / 2 ^ 24
unfolding register
register_top x h =
    let high : x / 256 / 2 ^ 24 ≡ 0 = omega arith in
    bit_xor_shift_24 (x / 256) (entry (x % 256))
    ∙ ap (λ y. bit_xor y (entry (x % 256) / 2 ^ 24)) high
    ∙ zero-bit_xor (entry (x % 256) / 2 ^ 24)

register_bound : (x : ℕ) → x < 2 ^ 32 → register x < 2 ^ 32
unfolding register
register_bound x h =
    bit_xor_bound (x / 256) (entry (x % 256)) (omega arith) (entry_bound (x % 256) (omega arith))

register_inj : (x y : ℕ) → x < 2 ^ 32 → y < 2 ^ 32 → register x ≡ register y → x ≡ y
unfolding register
register_inj x y p q e =
    let tops : entry (x % 256) / 2 ^ 24 ≡ entry (y % 256) / 2 ^ 24 =
      sym (register_top x p) ∙ ap (λ r. r / 2 ^ 24) e ∙ register_top y q in
    let low : x % 256 ≡ y % 256 = entry_inj (x % 256) (y % 256) (omega arith) (omega arith) tops in
    let high : x / 256 ≡ y / 256 = bit_xor_inj (entry (x % 256)) (
      bit_xor_comm (entry (x % 256)) (x / 256)
      ∙ e
      ∙ bit_xor_comm (y / 256) (entry (y % 256))
      ∙ ap (λ i. bit_xor (entry i) (y / 256)) (sym low)) in
    omega (arith, low, high)

crc32_step-register : (crc b : ℕ) → b < 256 → crc32_step crc b ≡ register (bit_xor crc b)
unfolding register
crc32_step-register crc b h = crc32_step_lem crc b h

mixed_bound : (crc b : ℕ) → crc < 2 ^ 32 → b < 256 → bit_xor crc b < 2 ^ 32
mixed_bound crc b h k = bit_xor_bound crc b h (omega arith)

step_bound : (crc b : ℕ) → crc < 2 ^ 32 → b < 256 → crc32_step crc b < 2 ^ 32
step_bound crc b h k =
    rw (crc32_step-register crc b k) (register_bound (bit_xor crc b) (mixed_bound crc b h k))

step_inj :
    (crc crc' b b' : ℕ)
    → crc < 2 ^ 32
    → crc' < 2 ^ 32
    → b < 256
    → b' < 256
    → crc32_step crc b ≡ crc32_step crc' b'
    → bit_xor crc b ≡ bit_xor crc' b'
step_inj crc crc' b b' h h' k k' e =
    register_inj (bit_xor crc b) (bit_xor crc' b') (mixed_bound crc b h k)
      (mixed_bound crc' b' h' k')
      (sym (crc32_step-register crc b k) ∙ e ∙ crc32_step-register crc' b' k')

loop_inj :
    (crc crc' : ℕ) (bytes : List ℕ)
    → AreBytes bytes
    → crc < 2 ^ 32
    → crc' < 2 ^ 32
    → crc32_loop crc bytes ≡ crc32_loop crc' bytes
    → crc ≡ crc'
unfolding crc32_loop
loop_inj crc crc' [] a h h' e = e
loop_inj crc crc' (b ∷ bytes) a h h' e =
    let same : crc32_step crc b ≡ crc32_step crc' b =
      loop_inj (crc32_step crc b) (crc32_step crc' b) bytes a.1 (step_bound crc b h a.0)
        (step_bound crc' b h' a.0) e in
    bit_xor_inj b
      (bit_xor_comm b crc ∙ step_inj crc crc' b b h h' a.0 a.0 same ∙ bit_xor_comm crc' b)

loop_append :
    (crc : ℕ) (xs ys : List ℕ) → crc32_loop crc (xs ++ ys) ≡ crc32_loop (crc32_loop crc xs) ys
unfolding crc32_loop
loop_append crc [] ys = refl
loop_append crc (x ∷ xs) ys = loop_append (crc32_step crc x) xs ys

loop_bound :
    (crc : ℕ) (bytes : List ℕ) → AreBytes bytes → crc < 2 ^ 32 → crc32_loop crc bytes < 2 ^ 32
unfolding crc32_loop
loop_bound crc [] a h = h
loop_bound crc (b ∷ bytes) a h = loop_bound (crc32_step crc b) bytes a.1 (step_bound crc b h a.0)

-- Two runs of bytes that differ in exactly one byte have different checksums, whatever stands before
-- and behind it and whatever the start value of 32 bits.
pub crc32_detects :
    (crc : ℕ) (before : List ℕ) (b b' : ℕ) (behind : List ℕ)
    → crc < 2 ^ 32
    → AreBytes before
    → AreBytes behind
    → b < 256
    → b' < 256
    → b ≢ b'
    → crc32 crc (before ++ b ∷ behind) ≢ crc32 crc (before ++ b' ∷ behind)
unfolding crc32 crc32_loop
crc32_detects crc before b b' behind h p q k k' ne e =
    let start = bit_xor crc all_ones in
    let there = crc32_loop start before in
    let small : there < 2 ^ 32 =
      loop_bound start before p (bit_xor_bound crc all_ones h (omega arith)) in
    let loops : crc32_loop start (before ++ b ∷ behind) ≡ crc32_loop start (before ++ b' ∷ behind) =
      bit_xor_inj all_ones (bit_xor_comm all_ones _ ∙ e ∙ bit_xor_comm _ all_ones) in
    let steps : crc32_step there b ≡ crc32_step there b' =
      loop_inj (crc32_step there b) (crc32_step there b') behind q (step_bound there b small k)
        (step_bound there b' small k')
        (sym (loop_append start before (b ∷ behind))
          ∙ loops
          ∙ loop_append start before (b' ∷ behind)) in
    ne (bit_xor_inj there (step_inj there there b b' small small k k' steps))
