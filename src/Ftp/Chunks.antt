-- ===== src/Ftp/Chunks.antt =====
-- A file in pieces of at most 1000 bytes, as final/ftpc.c reads it.
use cse5462_network_programm.Base.{
  ℕ, zero, suc, ◌≤◌, ◌≡◌, refl, ap, ◌∙◌, List, [], ◌∷◌, ◌++◌, arith, length, take, drop,
  take-append-drop, length-drop,
}
use cse5462_network_programm.Wire.{buf_len}

-- The pieces of a file of at most `fuel` bytes.
unfoldable pub pieces : ℕ → List ℕ → List (List ℕ)
pieces zero file = []
pieces (suc fuel) [] = []
pieces (suc fuel) (b ∷ file) = take buf_len (b ∷ file) ∷ pieces fuel (drop buf_len (b ∷ file))

abbrev pub chunks : List ℕ → List (List ℕ)
chunks file = pieces (length file) file

unfoldable pub concat : List (List ℕ) → List ℕ
concat [] = []
concat (c ∷ cs) = c ++ concat cs

concat-pieces : (fuel : ℕ) (file : List ℕ) → length file ≤ fuel → concat (pieces fuel file) ≡ file
unfolding concat pieces
concat-pieces zero [] h = refl
concat-pieces zero (b ∷ file) h = absurd (omega arith)
concat-pieces (suc fuel) [] h = refl
concat-pieces (suc fuel) (b ∷ file) h =
    ap (◌++◌ (take buf_len (b ∷ file)))
      (concat-pieces fuel (drop buf_len (b ∷ file)) (omega (arith, length-drop buf_len (b ∷ file))))
    ∙ take-append-drop buf_len (b ∷ file)

-- The pieces together are the file.
pub concat-chunks : (file : List ℕ) → concat (chunks file) ≡ file
concat-chunks file = concat-pieces (length file) file (omega arith)

pub length-pieces : (fuel : ℕ) (file : List ℕ) → length (pieces fuel file) ≤ fuel
unfolding pieces
length-pieces zero file = omega arith
length-pieces (suc fuel) [] = omega arith
length-pieces (suc fuel) (b ∷ file) = omega (arith, length-pieces fuel (drop buf_len (b ∷ file)))
