-- ===== src/Proj1.antt =====
-- proj1, the earlier version of the transfer system: its parts, and what its daemon sends.
pub mod Calls
pub mod Crc16
pub mod Files
pub mod Daemon
pub mod TimerList
mod Tests
mod FileTests
mod Samples
pub mod Window
use cse5462_network_programm.Base.{ℕ, ◌+◌, ◌*◌, List, ◌∷◌, ◌++◌}
use cse5462_network_programm.Bytes.{le_bytes}
use cse5462_network_programm.Wire.{SockAddr}

-- `struct tcphdr` as it stands in memory: `ports` are the four bytes of source and destination,
-- `offset` is the byte in front of the flags, and `ack` one bit among the flags.
pub record TcpHeader : Type 0 where
  pub ports : List ℕ
  pub seq : ℕ
  pub ack_seq : ℕ
  pub offset : ℕ
  pub low_flags : ℕ
  pub ack : ℕ
  pub high_flags : ℕ
  pub window : List ℕ
  pub check : ℕ
  pub urgent : List ℕ

-- `struct TrollHeader` of tcpd.h
pub record TrollHeader : Type 0 where
  pub send_to : SockAddr
  pub tcp_header : TcpHeader
  pub body : List ℕ

-- The twenty bytes of the header.
unfoldable pub header_bytes : TcpHeader → List ℕ
header_bytes h =
    h.ports
    ++ (le_bytes 4 h.seq
        ++ (le_bytes 4 h.ack_seq
            ++ (h.offset
                ∷ (h.low_flags + 16 * h.ack + 32 * h.high_flags)
                ∷ (h.window ++ (le_bytes 2 h.check ++ h.urgent)))))
