-- ===== src/Proj1/Calls/Answered.antt =====
-- SEND of proj1/wrap_func.c with the daemon of proj1/tcpd.c behind it.
use cse5462_network_programm.Base.{
  ℕ, ◌≤◌, ◌<◌, ◌≡◌, refl, ap, ap₂, ◌∙◌, ◌⊎◌, inl, inr, Bool, true, false, List, [], ◌∷◌, ◌++◌,
  Option, none, some, length, take, ◌==◌, Bool-cases, arith,
}
use cse5462_network_programm.Base.Int.{ℤ, pos, ◌-ℤ◌, int_laws}
use cse5462_network_programm.Bytes.{copy_at}
use cse5462_network_programm.Tcpd.Loop.{str_is}
use cse5462_network_programm.Proj1.{TrollHeader}
use cse5462_network_programm.Proj1.Window.{window_full}
use cse5462_network_programm.Proj1.Daemon.{
  Doubles, Daemon, Outgoing, to_client_ftp, to_client_troll, to_timer, to_server_ftp,
  to_client_tcpd, Arrivals, block_word, received_word, packet_arm, server_remote,
  block_sending_and_save, body_size, buffer_size,
}
use cse5462_network_programm.Proj1.Daemon.Arms.{
  client_arm, then_network, network_arms, ack_arm, client_remote, daemon_round, daemon_run,
}
use cse5462_network_programm.Proj1.Daemon.Full.{IsSound, send_packet-IsSound}
use cse5462_network_programm.Proj1.Calls.{
  Signal, command_buffer, after_word, is_zero, send_loop, send_call,
}

-- The words for the client among what the daemon sends.
unfoldable pub words : List Outgoing → List Signal
words [] = []
words (to_client_ftp d ∷ l) = record { sent = true; word = d } ∷ words l
words (to_client_troll h ∷ l) = words l
words (to_timer c ∷ l) = words l
words (to_server_ftp d ∷ l) = words l
words (to_client_tcpd h ∷ l) = words l

words-append : (l m : List Outgoing) → words (l ++ m) ≡ words l ++ words m
unfolding words
words-append [] m = refl
words-append (to_client_ftp d ∷ l) m =
    ap (λ r. record { sent = true; word = d } ∷ r) (words-append l m)
words-append (to_client_troll h ∷ l) m = words-append l m
words-append (to_timer c ∷ l) m = words-append l m
words-append (to_server_ftp d ∷ l) m = words-append l m
words-append (to_client_tcpd h ∷ l) m = words-append l m

-- These rounds bring no datagram of the client.
abbrev pub NoClient : List Arrivals → Type 0
NoClient [] = Unit {0}
NoClient (a ∷ rounds) = (a.client_local ≡ none) × NoClient rounds

packet_arm-words :
    (sent : Bool) (stack : TrollHeader) (head : Option TrollHeader)
    → words (packet_arm sent stack head) ≡ []
unfolding words packet_arm server_remote
packet_arm-words sent stack none = refl
packet_arm-words true stack (some head) = refl
packet_arm-words false stack (some head) = refl

all_sent : (n : ℕ) → is_zero (pos n -ℤ pos n) ≡ true
all_sent n = let e : pos n -ℤ pos n ≡ pos 0 = omega int_laws in ap is_zero e

-- SEND returns at the word "received", and waits behind "block".
send_call_received :
    (buffer : List ℕ) (byte : ℤ)
    → send_call buffer false byte (record { sent = true; word = received_word } ∷ [])
      ≡ some (record {
        result = length buffer;
        blocking = false;
        datagrams = buffer ∷ [];
        unread = [];
      })
unfolding send_call send_loop after_word command_buffer str_is copy_at
send_call_received buffer byte = rw (all_sent (length buffer)) refl

send_call_blocked :
    (buffer : List ℕ) (byte : ℤ)
    → 0 < length buffer
    → send_call buffer false byte (record { sent = true; word = block_word } ∷ []) ≡ none
unfolding send_call send_loop after_word command_buffer str_is copy_at
send_call_blocked buffer byte h = let e : (length buffer == 0) ≡ false = ground arith in rw e refl

module _ {D : Type 0} (double : Doubles D) where
  network_arms-words : (a : Arrivals) (s : Daemon D) → words (network_arms double a s).1 ≡ []
  unfolding network_arms ack_arm client_remote words
  network_arms-words a s =
      words-append (ack_arm double a.now a.stack a.client_remote s).1
        (packet_arm a.sent a.stack a.server_remote_packet)
      ∙ ap₂ ◌++◌ (acks a.client_remote) (packet_arm-words a.sent a.stack a.server_remote_packet)
    where
      acks : (o : Option TrollHeader) → words (ack_arm double a.now a.stack o s).1 ≡ []
      acks none = refl
      acks (some head) = refl

  daemon_run-words :
      (rounds : List Arrivals) (s : Daemon D)
      → NoClient rounds
      → (s' : Daemon D) × (out : List Outgoing) × (daemon_run double rounds s ≡ some (s', out))
        × (words out ≡ [])
  unfolding daemon_run daemon_round client_arm words
  daemon_run-words [] s h = (s, [], refl, refl)
  daemon_run-words (a ∷ rounds) s h =
      let (s', out, all, quiet) = daemon_run-words rounds (network_arms double a s).0 h.1 in
      let one : client_arm double a a.client_local s ≡ some (network_arms double a s) =
        ap (λ o. client_arm double a o s) h.0 in
      rw (one, daemon_run, all)
        (
          _,
          _,
          refl,
          words-append (network_arms double a s).1 out ∙ ap₂ ◌++◌ (network_arms-words a s) quiet,
        )

  -- SEND of a datagram that is not empty and fits into a packet, with the answers of a daemon in a sound
  -- state, where no SEND before was told to block: while the window is not full the daemon takes the
  -- datagram, and SEND returns its length having sent it once. Where the window is full SEND waits for
  -- ever: whatever comes to the daemon from the network in later rounds, as long as no other datagram
  -- of the client comes, it has no word for the client.
  pub send_call_answered :
      (a : Arrivals) (later : List Arrivals) (buffer : List ℕ) (byte : ℤ) (s : Daemon D)
      → IsSound s
      → a.client_local ≡ some buffer
      → NoClient later
      → 0 < length buffer
      → length (take buffer_size buffer) ≤ body_size
      → (s' : Daemon D) × (out : List Outgoing) × (s'' : Daemon D) × (out' : List Outgoing)
        × (daemon_round double a s ≡ some (s', out))
        × (daemon_run double later s' ≡ some (s'', out'))
        × (((window_full s.window_client ≡ false)
              × (send_call buffer false byte (words out)
                  ≡ some (record {
                    result = length buffer;
                    blocking = false;
                    datagrams = buffer ∷ [];
                    unread = [];
                  })))
            ⊎ ((window_full s.window_client ≡ true)
                × (send_call buffer false byte (words out ++ words out') ≡ none)))
  unfolding daemon_round client_arm then_network block_sending_and_save words
  send_call_answered a later buffer byte s v e quiet some_bytes small =
      elim (Bool-cases (window_full s.window_client)) [
        | inl full ↦
            let s' = (block_sending_and_save buffer s).0 in
            let (s'', out', all, none_said) = daemon_run-words later s' quiet in
            (
              s',
              to_client_ftp block_word ∷ [],
              s'',
              out',
              ap (λ o. client_arm double a o s) e ∙ (rw full refl),
              all,
              inr (full, (rw none_said (send_call_blocked buffer byte some_bytes))),
            )
        | inr free ↦
            let (s', out, sent, v', there, said) =
              send_packet-IsSound double a.now a.stack buffer s v free small in
            let t = (network_arms double a s').0 in
            let (s'', out', all, none_said) = daemon_run-words later t quiet in
            (
              t,
              out ++ (network_arms double a s').1,
              s'',
              out',
              ap (λ o. client_arm double a o s) e ∙ (rw (free, sent) refl),
              all,
              inl (
                free,
                ap (send_call buffer false byte) (
                      words-append out (network_arms double a s').1
                      ∙ ap₂ ◌++◌ (ap words said) (network_arms-words a s'))
                    ∙ send_call_received buffer byte,
              ),
            )
      ]
