-- ===== src/Proj1/Calls.antt =====
-- SEND of proj1/wrap_func.c: a datagram for the daemon, and the words that the daemon answers. A socket
-- that cannot be bound, where SEND exits, is not modelled.
pub mod Answered
use mathlib.Core.Option
use cse5462_network_programm.Base.{
  ℕ, zero, suc, Bool, true, false, List, [], ◌∷◌, ◌++◌, Option, none, some, length, take, replicate,
  if◌then◌else◌, ◌==◌,
}
use cse5462_network_programm.Base.Int.{ℤ, pos, negsuc, ◌-ℤ◌}
use cse5462_network_programm.Bytes.{copy_at}
use cse5462_network_programm.Tcpd.Loop.{ascii, str_is}

-- What a round of the loop finds: the success of `sendto`, and the datagram that `recvfrom` takes.
pub record Signal : Type 0 where
  pub sent : Bool
  pub word : List ℕ

-- `commad_buffer`: `sizeof(buffer)` is the size of a pointer.
unfoldable pub command_buffer : List ℕ → List ℕ
command_buffer word = copy_at 0 (take 8 word) (replicate 10 0)

-- Lines 84 to 106: `blocking` and `left` behind a word.
unfoldable pub after_word : Bool → ℤ → ℤ → List ℕ → Bool × ℤ
after_word blocking byte left command =
    if str_is command (ascii "block")
    then (true, left)
    else if str_is command (ascii "unblock")
    then (false, left -ℤ byte)
    else if str_is command (ascii "received")
    then (blocking, left -ℤ byte)
    else (blocking, left)

-- `left == 0`
abbrev pub is_zero : ℤ → Bool
is_zero (pos n) = n == 0
is_zero (negsuc n) = false

-- What SEND comes to: its result, `blocking`, the datagrams that it has sent, and the words that are
-- not read.
pub record SendEnd : Type 0 where
  pub result : ℕ
  pub blocking : Bool
  pub datagrams : List (List ℕ)
  pub unread : List Signal

-- The loop of SEND; `none` where it waits for a word and there is none.
unfoldable pub send_loop : List ℕ → Bool → ℤ → ℤ → List Signal → Option SendEnd
send_loop buffer blocking byte left [] = none
send_loop buffer blocking byte left (g ∷ signals) =
    let byte' = if blocking then byte else (if g.sent then pos (length buffer) else negsuc 0) in
    let out = if blocking then [] else (if g.sent then buffer ∷ [] else []) in
    let (blocking', left') = after_word blocking byte' left (command_buffer g.word) in
    let rest = send_loop buffer blocking' byte' left' signals in
    if is_zero left'
    then some
        (record { result = length buffer; blocking = blocking'; datagrams = out; unread = signals })
    else Option.map {A = SendEnd} (λ e. record e { datagrams = out ++ e.datagrams }) rest

-- SEND, where `blocking` is the variable of the file and `byte` what is on the stack.
unfoldable pub send_call : List ℕ → Bool → ℤ → List Signal → Option SendEnd
send_call buffer blocking byte signals =
    send_loop buffer blocking byte (pos (length buffer)) signals
