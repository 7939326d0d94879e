-- ===== src/Tcpd/Frames.antt =====
-- The frames and acknowledgements that final/tcpd.c makes are those that it takes.
use cse5462_network_programm.Base.{
  ℕ, ◌+◌, ◌≡◌, refl, ap, sym, ◌∙◌, true, List, ◌==◌, arith, length, take, drop,
}
use cse5462_network_programm.Bytes.{copy_at, take-copy_at}
use cse5462_network_programm.Wire.{
  SockAddr, TrollMessage, message_intact, message_sum, message_bytes, ack_intact, ack_sum,
  ack_bytes, buf_len,
}
use cse5462_network_programm.Tcpd.{ConnectedSock}
use cse5462_network_programm.Tcpd.Receive.{make_ack}
use cse5462_network_programm.Tcpd.Front.{make_message}
use cse5462_network_programm.Tcpd.Delivery.{Carries}

equal_self : (n : ℕ) → (n == n) ≡ true
equal_self n = ground arith

pub make_message-intact :
    (c : ConnectedSock) (bytes : List ℕ) (len : ℕ) (fresh : List ℕ)
    → message_intact (make_message c bytes len fresh) ≡ true
unfolding make_message message_intact message_sum message_bytes
make_message-intact c bytes len fresh = equal_self _

pub make_ack-intact : (m : TrollMessage) (remote : SockAddr) → ack_intact (make_ack m remote) ≡ true
unfolding make_ack ack_intact ack_sum ack_bytes
make_ack-intact m remote = equal_self _

-- What SEND queues is a frame that recv_data takes: its checksum is right, it has the socket's
-- session and next number, and it carries just the bytes sent, whatever the block held before.
pub make_message_lem :
    (c : ConnectedSock) (bytes fresh : List ℕ) (chunk : ℕ → List ℕ)
    → chunk c.base ≡ bytes
    → let m = make_message c bytes (length bytes) fresh in
      (message_intact m ≡ true) × (m.session ≡ c.session) × (m.seq_num ≡ c.base) × Carries chunk m
make_message_lem c bytes fresh chunk e = (
  make_message-intact c bytes (length bytes) fresh,
  unfold make_message in refl,
  unfold make_message in refl,
  unfold make_message in
      record {
        carried =
            (let z : length bytes ≡ 0 + length bytes = omega arith in
              ap (λ k. take k (copy_at 0 bytes (take buf_len (drop 40 fresh)))) z
              ∙ take-copy_at 0 bytes (take buf_len (drop 40 fresh)) (omega arith)
              ∙ sym e);
        whole = ap length (sym e);
      },
)
