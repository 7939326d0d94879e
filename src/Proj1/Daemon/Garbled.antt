-- ===== src/Proj1/Daemon/Garbled.antt =====
-- A packet that came garbled to the daemon of proj1/tcpd.c.
use cse5462_network_programm.Base.{
  ℕ, suc, ◌<◌, ◌≡◌, ◌≢◌, refl, sym, ap, ap₂, ◌∙◌, true, false, List, [], ◌∷◌, ◌++◌, append_assoc,
  length,
}
use cse5462_network_programm.Crc.Reference.{AreBytes}
use cse5462_network_programm.Proj1.{TrollHeader, header_bytes}
use cse5462_network_programm.Proj1.Crc16.{crc16, check_crc}
use cse5462_network_programm.Proj1.Crc16.Errors.{check_crc_detects}
use cse5462_network_programm.Proj1.Daemon.{
  to_server_ftp, to_client_tcpd, server_remote, sum_of, with_check,
}

AreBytes-both : (l m : List ℕ) → AreBytes l → AreBytes m → AreBytes (l ++ m)
AreBytes-both [] m p q = q
AreBytes-both (b ∷ l) m p q = (p.0, AreBytes-both l m p.1 q)

-- Where exactly one byte of the body has changed on the way, check_crc tells that the packet is
-- garbled; the server gets the changed body all the same, and the client's daemon the
-- acknowledgement that the packet as it was sent would have brought.
pub server_remote_garbled :
    (stack head : TrollHeader) (before : List ℕ) (b b' : ℕ) (behind : List ℕ)
    → head.body ≡ before ++ b ∷ behind
    → AreBytes (header_bytes (record head.tcp_header { check = 0 }))
    → AreBytes before
    → AreBytes behind
    → b < 256
    → b' < 256
    → b ≢ b'
    → let garbled = record (with_check head) { body = before ++ b' ∷ behind } in
      (check_crc garbled.tcp_header.check (sum_of garbled) ≡ false)
      × ((ack : TrollHeader) × (server_remote true stack garbled
            ≡ to_server_ftp (before ++ b' ∷ behind) ∷ to_client_tcpd ack ∷ [])
          × (server_remote true stack (with_check head)
              ≡ to_server_ftp head.body ∷ to_client_tcpd ack ∷ []))
unfolding server_remote sum_of with_check
server_remote_garbled stack head before b b' behind e h p q k k' ne =
    let header = header_bytes (record head.tcp_header { check = 0 }) in
    let sum_at : (c : ℕ)
        → crc16 (header ++ (before ++ c ∷ behind)) ≡ crc16 ((header ++ before) ++ c ∷ behind) =
      λ c. ap crc16 (sym (append_assoc header before (c ∷ behind))) in
    let same : length (before ++ b' ∷ behind) ≡ length head.body =
      same_length before ∙ sym (ap length e) in
    (
      ap₂ check_crc (ap (λ l. crc16 (header ++ l)) e ∙ sum_at b) (sum_at b')
          ∙ check_crc_detects (header ++ before) b b' behind (AreBytes-both header before h p) q k
              k' ne,
      (_, rw same refl, refl),
    )
  where
    same_length : (l : List ℕ) → length (l ++ b' ∷ behind) ≡ length (l ++ b ∷ behind)
    same_length [] = refl
    same_length (x ∷ l) = ap suc (same_length l)
