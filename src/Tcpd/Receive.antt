-- ===== src/Tcpd/Receive.antt =====
-- recv_data of final/tcpd.c: a frame from the troll is buffered and acknowledged.
use cse5462_network_programm.Base.{
  ℕ, List, [], ◌∷◌, ◌++◌, Option, none, some, ◌==◌, ltb, if◌then◌else◌, take, drop,
}
use cse5462_network_programm.Wire.{
  SockAddr, TrollMessage, TrollAck, wire_family, message_intact, ack_sum, buf_len,
}
use cse5462_network_programm.Tcpd.{Tcpd, AckedSock, BindedSock, Machine, ack}
use cse5462_network_programm.Tcpd.Kernel.{
  M, pure, exit, get, put, ◌>>=◌, ◌>>◌, send_or_exit, malloc,
}
use cse5462_network_programm.Tcpd.Packages.{insert_package}

-- Lines 165 to 191: an outdated package or one that is in the list is not inserted.
unfoldable pub receive_package : TrollMessage → AckedSock → AckedSock
receive_package m a =
    if ltb m.seq_num a.base then a else record a { packages = insert_package m a.packages }

-- Lines 153 to 159: the socket of a session that is not known yet, on a block that holds `fresh`.
unfoldable pub new_acked : BindedSock → TrollMessage → List ℕ → AckedSock
new_acked b m fresh = record {
  socket_fd = b.socket_fd;
  session = m.session;
  base = 0;
  receiving_length = 0;
  receiving_addr = none;
  packages = [];
  recv_buffer = take buf_len (drop 48 fresh);
  recv_buffer_size = 0;
}

-- The socket of a session is changed where it stands; `none` where there is none.
unfoldable pub modify_session :
    ℕ → (AckedSock → AckedSock) → List AckedSock → Option (List AckedSock)
modify_session session f [] = none
modify_session session f (a ∷ l) =
    let rest = modify_session session f l in
    if a.session == session
    then some (f a ∷ l)
    else elim rest [ none ↦ none | some l' ↦ some (a ∷ l') ]

-- Lines 195 to 201
unfoldable pub make_ack : TrollMessage → SockAddr → TrollAck
make_ack m remote =
    let unsigned : TrollAck = record {
      header = record m.header { sin_family = wire_family; sin_addr = remote.sin_addr };
      check_sum = 0;
      session = m.session;
      seq_num = m.seq_num;
    } in
    record unsigned { check_sum = ack_sum unsigned }

-- Lines 134 to 191: find the session's socket or make it, and buffer the package there.
unfoldable pub deliver_package : {F : Type 0} → BindedSock → TrollMessage → List ℕ → Tcpd F → Tcpd F
deliver_package b m fresh s = elim (modify_session m.session (receive_package m) s.acked_sockets) [
  | some l ↦ record s { acked_sockets = l }
  | none ↦ elim (modify_session m.session (receive_package m) s.waiting_ack_sockets) [
    | some l ↦ record s { waiting_ack_sockets = l }
    | none ↦ record s {
      waiting_ack_sockets = s.waiting_ack_sockets ++ receive_package m (new_acked b m fresh) ∷ [];
    }
  ]
]

-- The result codes of recv_data and of recv_ack.
pub data Code : Type 0 where
  handled garbled : Code

-- `recv_data`, where `recvfrom` brings `none` on an error, or a frame and the troll's address.
unfoldable pub recv_data :
    {F : Type 0} → Machine F → BindedSock → Option (TrollMessage × SockAddr) → M F Code
recv_data env b none = exit 5
recv_data env b (some (m, remote)) =
    if message_intact m
    then (do
      fresh ← malloc env
      s ← get
      put (deliver_package b m fresh s)
      send_or_exit env 5 (ack b.socket_fd (make_ack m remote))
      pure handled)
    else pure garbled
