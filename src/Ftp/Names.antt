-- ===== src/Ftp/Names.antt =====
-- The size and the name of a file, as final/ftpc.c sends them and final/ftps.c reads them.
use cse5462_network_programm.Base.{
  ℕ, zero, suc, ◌+◌, ◌-◌, ◌^◌, ◌≤◌, ◌<◌, ◌≡◌, refl, ap, ◌∙◌, List, [], ◌∷◌, ◌++◌, arith, length,
  take, drop, set, replicate, length-append, length-replicate, length-drop, append_assoc,
}
use cse5462_network_programm.Bytes.{copy_at}
use cse5462_network_programm.Wire.{buf_len}
use cse5462_network_programm.Ftp.{size_bytes, size_of_bytes, c_string}
use cse5462_network_programm.Ftp.Client.{name_bytes}

-- The size comes back from behind the four bytes that are copied in.
pub size_of_bytes-size_bytes :
    (n : ℕ) (array : List ℕ) → n < 2 ^ 32 → size_of_bytes (copy_at 0 (size_bytes n) array) ≡ n
unfolding size_of_bytes size_bytes copy_at
size_of_bytes-size_bytes n array h = omega arith

pub length-size_bytes : (n : ℕ) → length (size_bytes n) ≡ 4
unfolding size_bytes
length-size_bytes n = refl

-- A name has no zero byte.
abbrev pub NoZero : List ℕ → Type 0
NoZero [] = Unit {0}
NoZero (b ∷ l) = (0 < b) × NoZero l

pub c_string_stops : (name rest : List ℕ) → NoZero name → c_string (name ++ 0 ∷ rest) ≡ name
unfolding c_string
c_string_stops [] rest h = refl
c_string_stops (b ∷ name) rest h = ground (arith, h.0, c_string_stops name rest h.1)

take_longer :
    (xs ys : List ℕ) (k : ℕ) → length xs ≤ k → take k (xs ++ ys) ≡ xs ++ take (k - length xs) ys
take_longer [] ys k h = let e : k - 0 ≡ k = omega arith in rw e
take_longer (x ∷ xs) ys zero h = absurd (omega arith)
take_longer (x ∷ xs) ys (suc k) h =
    let e : suc k - suc (length xs) ≡ k - length xs = omega arith in
    rw e (ap (◌∷◌ x) (take_longer xs ys k (omega arith)))

set_longer :
    (xs ys : List ℕ) (k v : ℕ) → length xs ≤ k → set (xs ++ ys) k v ≡ xs ++ set ys (k - length xs) v
set_longer [] ys k v h = let e : k - 0 ≡ k = omega arith in rw e
set_longer (x ∷ xs) ys zero v h = absurd (omega arith)
set_longer (x ∷ xs) ys (suc k) v h =
    let e : suc k - suc (length xs) ≡ k - length xs = omega arith in
    rw e (ap (◌∷◌ x) (set_longer xs ys k v (omega arith)))

drop-replicate : (k n a : ℕ) → drop k (replicate n a) ≡ replicate (n - k) a
drop-replicate zero n a = let e : n - 0 ≡ n = omega arith in rw e
drop-replicate (suc k) zero a = let e : 0 - suc k ≡ 0 = omega arith in rw e
drop-replicate (suc k) (suc n) a =
    let e : suc n - suc k ≡ n - k = omega arith in rw e (drop-replicate k n a)

take-replicate : (k n a : ℕ) → k ≤ n → take k (replicate n a) ≡ replicate k a
take-replicate zero n a h = refl
take-replicate (suc k) zero a h = absurd (omega arith)
take-replicate (suc k) (suc n) a h = ap (◌∷◌ a) (take-replicate k n a (omega arith))

pub padded :
    (k n : ℕ) (name : List ℕ)
    → length name ≤ k
    → k ≤ n
    → take k (copy_at 0 name (replicate n 0)) ≡ name ++ replicate (k - length name) 0
unfolding copy_at
padded k n name h g =
    take_longer name (drop (0 + length name) (replicate n 0)) k h
    ∙ ap (λ l. name ++ take (k - length name) l) (drop-replicate (0 + length name) n 0)
    ∙ ap (◌++◌ name) (take-replicate (k - length name) (n - (0 + length name)) 0 (omega arith))

-- A name of at most 20 bytes is sent whole, with zeros behind it.
pub name_bytes_lem :
    (name : List ℕ) → length name ≤ 20 → name_bytes name ≡ name ++ replicate (20 - length name) 0
unfolding name_bytes
name_bytes_lem name h = padded 20 buf_len name h (omega arith)

pub length-name_bytes : (name : List ℕ) → length name ≤ 20 → length (name_bytes name) ≡ 20
length-name_bytes name h =
    ap length (name_bytes_lem name h)
    ∙ (omega (
      arith,
      length-append name (replicate (20 - length name) 0),
      length-replicate {A = ℕ} (20 - length name) 0,
    ))

zeros_first : (j : ℕ) (t : List ℕ) → (t' : List ℕ) × (replicate j 0 ++ 0 ∷ t ≡ 0 ∷ t')
zeros_first zero t = (t, refl)
zeros_first (suc j) t = (replicate j 0 ++ 0 ∷ t, refl)

set_end : (l : List ℕ) → 0 < length l → (t : List ℕ) × (set l 0 0 ≡ 0 ∷ t)
set_end [] h = absurd (omega arith)
set_end (x ∷ l) h = (l, refl)

ended :
    (k : ℕ) (name buf : List ℕ)
    → NoZero name
    → length name ≤ k
    → k < length buf
    → c_string (set (copy_at 0 (name ++ replicate (k - length name) 0) buf) k 0) ≡ name
unfolding copy_at
ended k name buf z h g =
    let j = k - length name in
    let sent = name ++ replicate j 0 in
    let behind = drop (0 + length sent) buf in
    let size : length sent ≡ k =
      omega (arith, length-append name (replicate j 0), length-replicate {A = ℕ} j 0) in
    let (t, last) = set_end behind (omega (arith, size, length-drop (0 + length sent) buf)) in
    let (t', first) = zeros_first j t in
    let at : k - length sent ≡ 0 = omega (arith, size) in
    ap c_string (
      set_longer sent behind k 0 (omega (arith, size))
      ∙ ap (λ i. sent ++ set behind i 0) at
      ∙ ap (◌++◌ sent) last
      ∙ append_assoc name (replicate j 0) (0 ∷ t)
      ∙ ap (◌++◌ name) first)
    ∙ c_string_stops name t' z

-- The name comes back from the 20 bytes that are copied in, ended by a zero behind them.
pub c_string-name_bytes :
    (name buf : List ℕ)
    → NoZero name
    → length name ≤ 20
    → 20 < length buf
    → c_string (set (copy_at 0 (name_bytes name) buf) 20 0) ≡ name
c_string-name_bytes name buf z h g = rw (name_bytes_lem name h) (ended 20 name buf z h g)
