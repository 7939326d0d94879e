-- ===== src/Bytes.antt =====
-- Numbers as bytes in memory, least byte first (the x86-64 of final/), and copies into an array.
use cse5462_network_programm.Base.{
  ℕ, zero, suc, ◌+◌, ◌*◌, ◌/◌, ◌%◌, ◌^◌, ◌<◌, ◌≡◌, refl, List, [], ◌∷◌, ◌++◌, take, drop, length,
  arith, ◌≤◌, ap, length-append, length-take, length-drop,
}

-- The `k` low bytes of a number.
unfoldable pub le_bytes : ℕ → ℕ → List ℕ
le_bytes zero n = []
le_bytes (suc k) n = n % 256 ∷ le_bytes k (n / 256)

-- The number that bytes stand for.
unfoldable pub of_bytes : List ℕ → ℕ
of_bytes [] = 0
of_bytes (b ∷ l) = b + 256 * of_bytes l

-- `bcopy(bytes, array + at, length bytes)`
unfoldable pub copy_at : ℕ → List ℕ → List ℕ → List ℕ
copy_at at bytes array = take at array ++ (bytes ++ drop (at + length bytes) array)

abbrev pub u32 : ℕ → ℕ
u32 n = n % 2 ^ 32

abbrev pub u64 : ℕ → ℕ
u64 n = n % 2 ^ 64

pub length-le_bytes : (k n : ℕ) → length (le_bytes k n) ≡ k
unfolding le_bytes
length-le_bytes zero n = refl
length-le_bytes (suc k) n = omega (arith, length-le_bytes k (n / 256))

-- Four bytes hold a 32-bit number, and eight a 64-bit number.
pub of_bytes-le_bytes_four : (n : ℕ) → n < 2 ^ 32 → of_bytes (le_bytes 4 n) ≡ n
unfolding of_bytes le_bytes
of_bytes-le_bytes_four n h = omega arith

pub of_bytes-le_bytes_eight : (n : ℕ) → n < 2 ^ 64 → of_bytes (le_bytes 8 n) ≡ n
unfolding of_bytes le_bytes
of_bytes-le_bytes_eight n h = omega arith

take_append {ℓ} : {A : Type ℓ} (xs ys : List A) → take (length xs) (xs ++ ys) ≡ xs
take_append [] ys = refl
take_append (x ∷ xs) ys = ap (◌∷◌ x) (take_append xs ys)

take_both :
    (k : ℕ) (bytes array rest : List ℕ)
    → k ≤ length array
    → take (k + length bytes) (take k array ++ (bytes ++ rest)) ≡ take k array ++ bytes
take_both zero bytes array rest h =
    let e : 0 + length bytes ≡ length bytes = omega arith in rw e (take_append bytes rest)
take_both (suc k) bytes [] rest h = absurd (omega arith)
take_both (suc k) bytes (x ∷ array) rest h =
    let e : suc k + length bytes ≡ suc (k + length bytes) = omega arith in
    rw e (ap (◌∷◌ x) (take_both k bytes array rest (omega arith)))

-- What stands in front of the end of the bytes that were copied in.
pub take-copy_at :
    (k : ℕ) (bytes array : List ℕ)
    → k ≤ length array
    → take (k + length bytes) (copy_at k bytes array) ≡ take k array ++ bytes
unfolding copy_at
take-copy_at k bytes array h = take_both k bytes array (drop (k + length bytes) array) h

pub length-copy_at :
    (k : ℕ) (bytes array : List ℕ)
    → k + length bytes ≤ length array
    → length (copy_at k bytes array) ≡ length array
unfolding copy_at
length-copy_at k bytes array h = omega (
  arith,
  length-append (take k array) (bytes ++ drop (k + length bytes) array),
  length-append bytes (drop (k + length bytes) array),
  length-take k array,
  length-drop (k + length bytes) array,
)
