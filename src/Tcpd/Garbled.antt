-- ===== src/Tcpd/Garbled.antt =====
-- recv_data of final/tcpd.c on a frame that the network has changed: the checksum of final/crc32.c
-- keeps it out.
use cse5462_network_programm.Base.{
  ℕ, ◌≡◌, ◌≢◌, ◌<◌, refl, sym, ◌∙◌, ap, true, false, inl, inr, List, ◌∷◌, ◌++◌, ◌==◌, ==_iff, some,
  Bool-cases, arith,
}
use cse5462_network_programm.Base.Outcome.{done}
use cse5462_network_programm.Crc.{crc32}
use cse5462_network_programm.Crc.Reference.{AreBytes}
use cse5462_network_programm.Crc.Errors.{crc32_detects}
use cse5462_network_programm.Wire.{
  SockAddr, TrollMessage, message_bytes, message_sum, message_intact,
}
use cse5462_network_programm.Tcpd.{Tcpd, Machine, BindedSock}
use cse5462_network_programm.Tcpd.Receive.{recv_data, garbled}

message_intact_changed :
    (m n : TrollMessage) (before : List ℕ) (b b' : ℕ) (behind : List ℕ)
    → message_intact m ≡ true
    → n.check_sum ≡ m.check_sum
    → message_bytes m ≡ before ++ b ∷ behind
    → message_bytes n ≡ before ++ b' ∷ behind
    → AreBytes before
    → AreBytes behind
    → b < 256
    → b' < 256
    → b ≢ b'
    → message_intact n ≡ false
unfolding message_intact message_sum
message_intact_changed m n before b b' behind ok same old new p q k k' ne =
    let sum_m : crc32 0 (message_bytes m) ≡ m.check_sum = (==_iff _ _).0 ok in
    elim (Bool-cases (crc32 0 (message_bytes n) == n.check_sum)) [
      | inl e ↦
          let sum_n : crc32 0 (message_bytes n) ≡ n.check_sum = (==_iff _ _).0 e in
          absurd (
            crc32_detects 0 before b b' behind (omega arith) p q k k' ne
              (ap (crc32 0) (sym old) ∙ sum_m ∙ sym same ∙ sym sum_n ∙ ap (crc32 0) new))
      | inr e ↦ e
    ]

-- A frame that arrives with its checksum but with exactly one of the bytes that the checksum covers
-- changed (a number, the length, the padding or the contents) is dropped by recv_data: nothing is
-- buffered, nothing is acknowledged and no other part of the state changes.
pub recv_data_changed :
    {F : Type 0} (env : Machine F) (bs : BindedSock) (remote : SockAddr) (s : Tcpd F)
    (m n : TrollMessage) (before : List ℕ) (b b' : ℕ) (behind : List ℕ)
    → message_intact m ≡ true
    → n.check_sum ≡ m.check_sum
    → message_bytes m ≡ before ++ b ∷ behind
    → message_bytes n ≡ before ++ b' ∷ behind
    → AreBytes before
    → AreBytes behind
    → b < 256
    → b' < 256
    → b ≢ b'
    → recv_data env bs (some (n, remote)) s ≡ done (garbled, s)
unfolding recv_data
recv_data_changed env bs remote s m n before b b' behind ok same old new p q k k' ne =
    rw (message_intact_changed m n before b b' behind ok same old new p q k k' ne) refl
