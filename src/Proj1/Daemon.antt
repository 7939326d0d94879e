-- ===== src/Proj1/Daemon.antt =====
-- The daemon of proj1/tcpd.c: its globals and the locals of `main` that live on, what it sends, and the
-- functions that `main` calls. The doubles are a parameter.
pub mod Arms
pub mod Full
pub mod Times
pub mod Garbled
pub mod Exchange
use Prim.Native.Nat.{◌-◌}
use mathlib.Core.Option
use cse5462_network_programm.Base.{
  ℕ, zero, suc, ◌+◌, ◌*◌, ◌/◌, ◌%◌, ◌^◌, Bool, true, false, List, [], ◌∷◌, ◌++◌, Option, none, some,
  ◌==◌, ltb, length, take, set, replicate, if◌then◌else◌,
}
use cse5462_network_programm.Bytes.{u32}
use cse5462_network_programm.Timer.{TimeVal}
use cse5462_network_programm.Wire.{SockAddr, wire_family}
use cse5462_network_programm.Proj1.{TcpHeader, TrollHeader, header_bytes}
use cse5462_network_programm.Proj1.Crc16.{crc16, check_crc}
use cse5462_network_programm.Proj1.TimerList.{Command, send_to_timer, delete_from_timer}
use cse5462_network_programm.Proj1.Window.{
  Window, window_init, window_full, save_packet, ack_window,
}

-- What the daemon uses of the doubles: `difference a b` is the double of a - b, and `whole` the cast
-- of a double that is not negative to int.
pub record Doubles (D : Type 0) : Type 0 where
  pub add : D → D → D
  pub sub : D → D → D
  pub mul : D → D → D
  pub div : D → D → D
  pub fabs : D → D
  pub difference : ℕ → ℕ → D
  pub whole : D → ℕ

-- `time_record` of tcpd.h
pub record TimeRecord : Type 0 where
  pub start_time : TimeVal
  pub seq : ℕ

pub record Daemon (D : Type 0) : Type 0 where
  pub rto : D
  pub window_client : Window
  pub record_buf : List TimeRecord
  pub record_index : ℕ
  pub seq : ℕ
  pub tmp_save_buf : List ℕ
  pub srtt : D
  pub dev_rtt : D

-- What the daemon sends: a word to the client, a packet to the troll, a command to the timer, a body to
-- the server, an acknowledgement to the daemon of the client.
pub data Outgoing : Type 0 where
  to_client_ftp : List ℕ → Outgoing
  to_client_troll : TrollHeader → Outgoing
  to_timer : Command → Outgoing
  to_server_ftp : List ℕ → Outgoing
  to_client_tcpd : TrollHeader → Outgoing

-- BUFFER sizes of `main` and of TrollHeader
abbrev pub buffer_size : ℕ
buffer_size = 1000

abbrev pub body_size : ℕ
body_size = 800

abbrev pub record_size : ℕ
record_size = 30

unfoldable pub random_ini_seq : ℕ
random_ini_seq = 1

-- "block" and "received" in an array of ten bytes
abbrev pub block_word : List ℕ
block_word = 98 ∷ 108 ∷ 111 ∷ 99 ∷ 107 ∷ replicate 5 0

abbrev pub received_word : List ℕ
received_word = 114 ∷ 101 ∷ 99 ∷ 101 ∷ 105 ∷ 118 ∷ 101 ∷ 100 ∷ replicate 2 0

-- `to_server_tcpd`: 127.0.0.1, htons(REMOTE_PORT_SERVER)
abbrev pub to_server_tcpd : SockAddr
to_server_tcpd = record { sin_family = wire_family; sin_port = 0x1327; sin_addr = 0x0100007f }

-- `generate_TrollHeader` on a `head` with these contents; `none` where `memcpy` writes behind the body.
unfoldable pub generate_TrollHeader : ℕ → TrollHeader → List ℕ → Option TrollHeader
generate_TrollHeader seq head buffer =
    if ltb body_size (length buffer)
    then none
    else some (record {
      send_to = to_server_tcpd;
      tcp_header = record head.tcp_header { seq = seq; ack = 0 };
      body = buffer;
    })

-- The bytes that both sides take the checksum of: the header with no checksum, and the body.
unfoldable pub sum_of : TrollHeader → ℕ
sum_of head = crc16 (header_bytes (record head.tcp_header { check = 0 }) ++ head.body)

-- Lines 101 and 102.
unfoldable pub with_check : TrollHeader → TrollHeader
with_check head = record head { tcp_header = record head.tcp_header { check = sum_of head } }

-- Lines 211 to 253, where `sent` is the success of the first `sendto`, whose -1 is added as it is: the
-- result of `check_crc` is not used. `ack_packet` is the contents of that variable.
unfoldable pub server_remote : Bool → TrollHeader → TrollHeader → List Outgoing
server_remote sent ack_packet head =
    let checked = check_crc head.tcp_header.check (sum_of head) in
    let bytes = if sent then length head.body else 2 ^ 32 - 1 in
    let ack = record ack_packet {
      tcp_header = record ack_packet.tcp_header {
        ack = 1;
        seq = head.tcp_header.seq;
        ack_seq = u32 (head.tcp_header.seq + bytes);
      };
    } in
    if sent then to_server_ftp head.body ∷ to_client_tcpd ack ∷ [] else to_client_tcpd ack ∷ []

-- The arm of the packets.
unfoldable pub packet_arm : Bool → TrollHeader → Option TrollHeader → List Outgoing
packet_arm sent stack none = []
packet_arm sent stack (some head) = server_remote sent stack head

-- What a round of the loop finds: a datagram of the client, an acknowledgement, a packet, each where
-- its descriptor is ready. `now` is the clock; `stack` is what the variables of the round hold before
-- they are set; `sent` is the success of the transmission to the server.
pub record Arrivals : Type 0 where
  pub client_local : Option (List ℕ)
  pub client_remote : Option TrollHeader
  pub server_remote_packet : Option TrollHeader
  pub now : TimeVal
  pub stack : TrollHeader
  pub sent : Bool

-- `record`
unfoldable pub record_seq : {D : Type 0} → TimeVal → ℕ → Daemon D → Daemon D
record_seq now seq s = record s {
  record_buf = set s.record_buf s.record_index (record { start_time = now; seq = seq });
  record_index = (s.record_index + 1) % record_size;
}

-- `block_sending_and_save`
unfoldable pub block_sending_and_save : {D : Type 0} → List ℕ → Daemon D → Daemon D × List Outgoing
block_sending_and_save d s = (
  record s { tmp_save_buf = take buffer_size (d ++ replicate buffer_size 0) },
  to_client_ftp block_word ∷ [],
)

-- `send_recv_to_ftpc`
abbrev pub send_recv_to_ftpc : List Outgoing
send_recv_to_ftpc = to_client_ftp received_word ∷ []

module _ {D : Type 0} (double : Doubles D) where
  -- The double of a literal n / d.
  abbrev pub literal : ℕ → ℕ → D
  literal n d = double.div (double.difference n 0) (double.difference d 0)

  -- `update_RTO`
  unfoldable pub update_rto : D → Daemon D → D × Daemon D
  update_rto rtt s =
      let srtt = double.add s.srtt (double.mul (literal 125 1000) (double.sub rtt s.srtt)) in
      let dev_rtt =
        double.add (double.mul (double.sub (double.difference 1 0) (literal 250 1000)) s.dev_rtt)
          (double.mul (literal 250 1000) (double.fabs (double.sub rtt srtt))) in
      (
        double.add (double.mul (double.difference 1 0) srtt)
            (double.mul (double.difference 4 0) dev_rtt),
        record s { srtt = srtt; dev_rtt = dev_rtt },
      )

  -- The time from `a` to `b` in seconds, as `get_rtt` takes it.
  unfoldable pub interval : TimeVal → TimeVal → D
  interval a b =
      double.add (double.difference b.tv_sec a.tv_sec)
        (double.div (double.difference b.tv_usec a.tv_usec) (double.difference 1000000 0))

  -- The loop of `get_rtt`, and `get_rtt`, where the clock shows `now`.
  unfoldable pub rtt_loop : TimeVal → ℕ → D → List TimeRecord → D
  rtt_loop now ack rtt [] = rtt
  rtt_loop now ack rtt (r ∷ l) =
      rtt_loop now ack (if ack == r.seq then interval r.start_time now else rtt) l

  unfoldable pub get_rtt : TimeVal → ℕ → Daemon D → D
  get_rtt now ack s = rtt_loop now ack (double.difference 0 1) s.record_buf
