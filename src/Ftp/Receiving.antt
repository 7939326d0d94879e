-- ===== src/Ftp/Receiving.antt =====
-- The loop of final/ftps.c asks for the pieces that the client sends, and writes them one after
-- another.
use cse5462_network_programm.Base.{
  ℕ, zero, suc, ◌+◌, ◌-◌, ◌^◌, ◌≤◌, ◌<◌, ◌≡◌, sym, ap, ◌∙◌, true, List, [], ◌∷◌, ◌++◌, Option, some,
  arith, length, take, drop, ltb, if◌then◌else◌, min, length-take, length-drop, append_assoc,
  append-nil,
}
use cse5462_network_programm.Base.Int.{ℤ, pos, negsuc}
use cse5462_network_programm.Bytes.{copy_at}
use cse5462_network_programm.Wire.{buf_len}
use cse5462_network_programm.Wrappers.{Caller, System, W, pure, ◌>>=◌, call_recv}
use cse5462_network_programm.Wrappers.Requests.{copied_back}
use cse5462_network_programm.Wrappers.Runs.{Ran, pure-Ran, >>=-Ran, call_recv-Ran, recv_requests}
use cse5462_network_programm.Ftp.{narrow}
use cse5462_network_programm.Ftp.Server.{receive_file}
use cse5462_network_programm.Ftp.Chunks.{pieces, concat}
use cse5462_network_programm.Ftp.Sending.{requests_of, narrow_small, not_ltb, not_zero, if_no}

-- The answers that bring some pieces, one for each.
unfoldable pub recv_answers : List (List ℕ) → List (Option (List ℕ)) → List (Option (List ℕ))
recv_answers [] rest = rest
recv_answers (c ∷ cs) rest = some c ∷ recv_answers cs rest

pub length-recv_answers :
    (cs : List (List ℕ)) (rest : List (Option (List ℕ)))
    → length (recv_answers cs rest) ≡ length cs + length rest
unfolding recv_answers
length-recv_answers [] rest = omega arith
length-recv_answers (c ∷ cs) rest = omega (arith, length-recv_answers cs rest)

-- A round asks for as many bytes as the client's next piece has.
asked : (left : ℕ) → (if ltb left buf_len then left else buf_len) ≡ min buf_len left
asked left = ground arith

-- What RECV asks for a piece of this length.
abbrev pub piece_requests : ℕ → List ℕ → List (List ℕ)
piece_requests sock c = recv_requests sock (length c)

module _ (system : System) (works : (n : ℕ) → system.succeeds n ≡ true) where
  -- What a round does with the answer.
  abbrev received : ℕ → ℕ → ℕ → List ℕ → (ℤ × List ℕ) → W (List ℕ)
  received fuel sock left written r = elim (narrow r.0) [
    | negsuc n ↦ pure written
    | pos n ↦
        let r_val = if ltb left n then left else n in
        receive_file system true fuel sock (left - r_val) r.1 (written ++ take r_val r.1)
  ]

  received_lem :
      (fuel sock left n : ℕ) (written buf : List ℕ)
      → n < 2 ^ 31
      → n ≤ left
      → received fuel sock left written (pos n, buf)
        ≡ receive_file system true fuel sock (left - n) buf (written ++ take n buf)
  received_lem fuel sock left n written buf h k =
      ap branch (narrow_small n h)
      ∙ ap (λ m. receive_file system true fuel sock (left - m) buf (written ++ take m buf))
          (if_no _ _ _ (not_ltb left n k))
    where
      branch : ℤ → W (List ℕ)
      branch x = elim x [
        | negsuc m ↦ pure written
        | pos m ↦
            let r_val = if ltb left m then left else m in
            receive_file system true fuel sock (left - r_val) buf (written ++ take r_val buf)
      ]

  receive_file_step :
      (fuel sock : ℕ) (file buf written : List ℕ)
      → 0 < length file
      → receive_file system true (suc fuel) sock (length file) buf written ≡ (
          call_recv system sock buf (length (take buf_len file))
          >>= received fuel sock (length file) written)
  unfolding receive_file
  receive_file_step fuel sock file buf written h =
      rw (not_zero (length file) h, receive_file)
        (ap (λ k. call_recv system sock buf k >>= received fuel sock (length file) written)
          (asked (length file) ∙ sym (length-take buf_len file)))

  pub receive_file-Ran :
      (fuel n sock : ℕ) (file buf written : List ℕ) (rest : List (Option (List ℕ))) (w : Caller)
      → length file ≤ n
      → length (pieces n file) < fuel
      → w.inbox ≡ recv_answers (pieces n file) rest
      → Ran w
          (receive_file system true fuel sock (length file) buf written w)
          (written ++ concat (pieces n file))
          (requests_of (piece_requests sock) (pieces n file))
          rest
  unfolding pieces recv_answers requests_of concat
  receive_file-Ran zero n sock file buf written rest w h f e = absurd (omega arith)
  receive_file-Ran (suc fuel) zero sock [] buf written rest w h f e =
      rw (append-nil written) (unfold receive_file in pure-Ran w written e)
  receive_file-Ran (suc fuel) zero sock (b ∷ file) buf written rest w h f e = absurd (omega arith)
  receive_file-Ran (suc fuel) (suc n) sock [] buf written rest w h f e =
      rw (append-nil written) (unfold receive_file in pure-Ran w written e)
  receive_file-Ran (suc fuel) (suc n) sock (b ∷ file) buf written rest w h f e =
      let whole = b ∷ file in
      let chunk = take buf_len whole in
      let after = drop buf_len whole in
      let size : length chunk ≤ buf_len = omega (arith, length-take buf_len whole) in
      let left : length whole - length chunk ≡ length after =
        omega (arith, length-take buf_len whole, length-drop buf_len whole) in
      rw (receive_file_step fuel sock whole buf written (omega arith)) (
        >>=-Ran (call_recv system sock buf (length chunk)) _ w
          (pos (length chunk), copy_at 0 chunk buf) _ (piece_requests sock chunk)
          (requests_of (piece_requests sock) (pieces n after)) (recv_answers (pieces n after) rest)
          rest (call_recv-Ran system works sock buf chunk (recv_answers (pieces n after) rest) w e)
          (λ v read.
            rw
              (
                received_lem fuel sock (length whole) (length chunk) written (copy_at 0 chunk buf)
                    (omega (arith, size)) (omega (arith, length-take buf_len whole)),
                left,
                copied_back chunk buf,
                ← append_assoc written chunk (concat (pieces n after)),
              )
              (receive_file-Ran fuel n sock after (copy_at 0 chunk buf) (written ++ chunk) rest v
                (omega (arith, length-drop buf_len whole)) (omega arith) read)))
