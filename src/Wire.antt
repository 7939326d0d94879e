-- ===== src/Wire.antt =====
-- What goes over the network: `struct sockaddr_in`, and the frames of final/Header.h with the
-- bytes that their checksums are taken of.
use cse5462_network_programm.Base.{ℕ, Bool, List, ◌++◌, ◌==◌}
use cse5462_network_programm.Bytes.{le_bytes}
use cse5462_network_programm.Crc.{crc32}

-- `struct sockaddr_in`, its fields as they stand in memory
pub record SockAddr : Type 0 where
  pub sin_family : ℕ
  pub sin_port : ℕ
  pub sin_addr : ℕ

-- htons(AF_INET)
abbrev pub wire_family : ℕ
wire_family = 0x200

abbrev pub buf_len : ℕ
buf_len = 1000

abbrev pub max_buffer_packages : ℕ
max_buffer_packages = 64

-- `struct TrollMessageStruct`; `padding` is the four bytes before the aligned `len`.
pub record TrollMessage : Type 0 where
  pub header : SockAddr
  pub check_sum : ℕ
  pub session : ℕ
  pub seq_num : ℕ
  pub padding : List ℕ
  pub len : ℕ
  pub body : List ℕ

-- `struct TrollAckStruct`
pub record TrollAck : Type 0 where
  pub header : SockAddr
  pub check_sum : ℕ
  pub session : ℕ
  pub seq_num : ℕ

-- The bytes from `CheckSumOffset` to the end of the structure.
unfoldable pub message_bytes : TrollMessage → List ℕ
message_bytes m =
    le_bytes 4 m.session ++ (le_bytes 4 m.seq_num ++ (m.padding ++ (le_bytes 8 m.len ++ m.body)))

unfoldable pub ack_bytes : TrollAck → List ℕ
ack_bytes a = le_bytes 4 a.session ++ le_bytes 4 a.seq_num

unfoldable pub message_sum : TrollMessage → ℕ
message_sum m = crc32 0 (message_bytes m)

unfoldable pub ack_sum : TrollAck → ℕ
ack_sum a = crc32 0 (ack_bytes a)

-- The comparisons that the receivers make.
unfoldable pub message_intact : TrollMessage → Bool
message_intact m = message_sum m == m.check_sum

unfoldable pub ack_intact : TrollAck → Bool
ack_intact a = ack_sum a == a.check_sum
