-- ===== src/Ftp/Sending.antt =====
-- The loop of final/ftpc.c sends the pieces of the file, one SEND for each.
use cse5462_network_programm.Base.{
  ℕ, zero, suc, ◌+◌, ◌-◌, ◌^◌, ◌≤◌, ◌<◌, ◌≡◌, ap, ap₂, ◌∙◌, Bool, true, false, List, [], ◌∷◌, ◌++◌,
  Option, some, arith, length, take, drop, ltb, if◌then◌else◌, ◌==◌, length-take, length-drop,
}
use cse5462_network_programm.Base.Int.{pos, negsuc}
use cse5462_network_programm.Base.Outcome.{exits}
use cse5462_network_programm.Bytes.{le_bytes}
use cse5462_network_programm.Wire.{buf_len}
use cse5462_network_programm.Wrappers.{Caller, System, W, ◌>>=◌, to_int, call_send}
use cse5462_network_programm.Wrappers.Requests.{send_requests, take_all}
use cse5462_network_programm.Wrappers.Runs.{Ran, pure-Ran, >>=-Ran, call_send-Ran}
use cse5462_network_programm.Ftp.{narrow}
use cse5462_network_programm.Ftp.Client.{send_file}
use cse5462_network_programm.Ftp.Chunks.{pieces}

-- The requests for each of some pieces, one after another.
unfoldable pub requests_of : (List ℕ → List (List ℕ)) → List (List ℕ) → List (List ℕ)
requests_of request [] = []
requests_of request (c ∷ cs) = request c ++ requests_of request cs

-- The answers of the daemon to SENDs of these pieces.
unfoldable pub send_answers : List (List ℕ) → List (Option (List ℕ)) → List (Option (List ℕ))
send_answers [] rest = rest
send_answers (c ∷ cs) rest = some (le_bytes 4 (length c)) ∷ send_answers cs rest

pub narrow_small : (n : ℕ) → n < 2 ^ 31 → narrow (pos n) ≡ pos n
unfolding narrow to_int
narrow_small n h = ground (arith, h)

pub length-send_answers :
    (cs : List (List ℕ)) (rest : List (Option (List ℕ)))
    → length (send_answers cs rest) ≡ length cs + length rest
unfolding send_answers
length-send_answers [] rest = omega arith
length-send_answers (c ∷ cs) rest = omega (arith, length-send_answers cs rest)

pub not_ltb : (a b : ℕ) → b ≤ a → ltb a b ≡ false
not_ltb a b h = ground arith

pub if_no {ℓ} : {A : Type ℓ} (b : Bool) (x y : A) → b ≡ false → (if b then x else y) ≡ y
if_no b x y h = rw h

pub not_zero : (n : ℕ) → 0 < n → (n == 0) ≡ false
not_zero n h = ground arith

module _ (system : System) (works : (n : ℕ) → system.succeeds n ≡ true) where
  send_file_step :
      (fuel sock : ℕ) (file : List ℕ)
      → 0 < length file
      → send_file system (suc fuel) sock file (length file) ≡ (
          call_send system sock (take buf_len file) >>= λ w_val. elim (narrow w_val) [
            | negsuc n ↦ (λ s. exits 1)
            | pos n ↦ send_file system fuel sock (drop buf_len file) (length (drop buf_len file))
          ])
  unfolding send_file
  send_file_step fuel sock file h =
      let some_left : (length file == 0) ≡ false = not_zero (length file) h in
      let whole : ltb (length file) (length (take buf_len file)) ≡ false =
        not_ltb (length file) (length (take buf_len file))
          (omega (arith, length-take buf_len file)) in
      let rest : length file - length (take buf_len file) ≡ length (drop buf_len file) =
        omega (arith, length-take buf_len file, length-drop buf_len file) in
      let run : List ℕ → ℕ → W (Unit {0}) = λ bytes left. call_send system sock bytes >>= λ w_val.
      elim (narrow w_val) [
        | negsuc n ↦ (λ s. exits 1)
        | pos n ↦ send_file system fuel sock (drop buf_len file) left
      ] in
      rw (some_left, send_file)
        (ap (λ k. run (take k (take buf_len file)) (length file - k)) (if_no _ _ _ whole)
          ∙ ap₂ run (take_all (take buf_len file)) rest)

  pub send_file-Ran :
      (fuel n sock : ℕ) (file : List ℕ) (rest : List (Option (List ℕ))) (w : Caller)
      → length file ≤ n
      → length (pieces n file) < fuel
      → w.inbox ≡ send_answers (pieces n file) rest
      → Ran w
          (send_file system fuel sock file (length file) w)
          tt
          (requests_of (send_requests sock) (pieces n file))
          rest
  unfolding pieces send_answers requests_of
  send_file-Ran zero n sock file rest w h f e = absurd (omega arith)
  send_file-Ran (suc fuel) zero sock [] rest w h f e = unfold send_file in pure-Ran w tt e
  send_file-Ran (suc fuel) zero sock (b ∷ file) rest w h f e = absurd (omega arith)
  send_file-Ran (suc fuel) (suc n) sock [] rest w h f e = unfold send_file in pure-Ran w tt e
  send_file-Ran (suc fuel) (suc n) sock (b ∷ file) rest w h f e =
      let chunk = take buf_len (b ∷ file) in
      let after = drop buf_len (b ∷ file) in
      let size : length chunk ≤ buf_len = omega (arith, length-take buf_len (b ∷ file)) in
      rw (send_file_step fuel sock (b ∷ file) (omega arith)) (
        >>=-Ran (call_send system sock chunk) _ w (pos (length chunk)) tt (send_requests sock chunk)
          (requests_of (send_requests sock) (pieces n after)) (send_answers (pieces n after) rest)
          rest
          (call_send-Ran system works sock (length chunk) chunk (send_answers (pieces n after) rest)
            w (omega (arith, size)) e)
          (λ v read. rw (narrow_small (length chunk) (omega (arith, size))) (
            send_file-Ran fuel n sock after rest v (omega (arith, length-drop buf_len (b ∷ file)))
              (omega arith) read)))
