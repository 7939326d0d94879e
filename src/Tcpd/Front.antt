-- ===== src/Tcpd/Front.antt =====
-- The requests of the local applications, tcpd_SOCKET to tcpd_SEND of final/tcpd.c, and their
-- dispatch in process_tcpd_message.
use cse5462_network_programm.Base.{
  ℕ, ◌+◌, ◌^◌, true, false, List, [], ◌∷◌, ◌++◌, Option, none, some, ◌==◌, ltb, if◌then◌else◌, take,
  drop, ◌-◌,
}
use cse5462_network_programm.Base.Int.{pos, ◌+ℤ◌}
use cse5462_network_programm.Bytes.{le_bytes, of_bytes, copy_at, u32}
use cse5462_network_programm.Wire.{SockAddr, TrollMessage, wire_family, message_sum, buf_len}
use cse5462_network_programm.Tcpd.{Tcpd, AckedSock, BindedSock, ConnectedSock, Machine, to_front}
use cse5462_network_programm.Tcpd.Kernel.{
  M, pure, exit, get, put, ◌>>=◌, ◌>>◌, send_or_exit, recv_front, recv_buf, rand, malloc,
  socket_or_exit, bind_or_exit,
}
use cse5462_network_programm.Tcpd.Receive.{modify_session}
use cse5462_network_programm.Tcpd.Acks.{set_connected}

-- -1, -2 and -3 as 32-bit patterns
abbrev pub minus_one : ℕ
minus_one = 2 ^ 32 - 1

abbrev pub minus_two : ℕ
minus_two = 2 ^ 32 - 2

abbrev pub minus_three : ℕ
minus_three = 2 ^ 32 - 3

-- `struct sockaddr_in` from its bytes
unfoldable pub addr_of_bytes : List ℕ → SockAddr
addr_of_bytes l = record {
  sin_family = of_bytes (take 2 l);
  sin_port = of_bytes (take 2 (drop 2 l));
  sin_addr = of_bytes (take 4 (drop 4 l));
}

module _ {F : Type 0} (env : Machine F) where
  -- The four bytes of an `int` that are sent back to the application.
  unfoldable pub reply : ℕ → SockAddr → M F (Unit {0})
  reply n front = send_or_exit env 4 (to_front (le_bytes 4 n) (some front))

  -- `tcpd_SOCKET`
  unfoldable pub tcpd_socket : SockAddr → M F (Unit {0})
  tcpd_socket front = do fd ← socket_or_exit env 2; reply fd front

  -- `tcpd_BIND`; the address is only passed on to `bind`.
  unfoldable pub tcpd_bind : SockAddr → M F (Unit {0})
  tcpd_bind front = do
    fd ← recv_front 4
    addr ← recv_front 16
    bind_or_exit env 2
    s ← get
    put (record s {
      binded_sockets =
          s.binded_sockets
          ++ record { socket_fd = of_bytes fd.0; accepting = false; accepting_addr = none } ∷ [];
    })
    reply 0 addr.1

-- What the loop of tcpd_ACCEPT comes to: no socket found (-1), one that accepts already (-2), or a
-- request added (0).
pub data AcceptResult : Type 0 where
  not_found busy added : AcceptResult

-- The loop of lines 651 to 667, with the result so far.
unfoldable pub start_accepting :
    ℕ → SockAddr → AcceptResult → List BindedSock → AcceptResult × List BindedSock
start_accepting fd front result [] = (result, [])
start_accepting fd front result (b ∷ l) =
    let skipped = start_accepting fd front result l in
    let started = start_accepting fd front added l in
    if b.socket_fd == fd
    then (if b.accepting
        then (busy, b ∷ l)
        else (started.0, record b { accepting = true; accepting_addr = some front } ∷ started.1))
    else (skipped.0, b ∷ skipped.1)

-- Lines 746 to 759: a request on an accepted socket that has none.
unfoldable pub request_recv : ℕ → SockAddr → AckedSock → AckedSock
request_recv len front a = record a { receiving_length = len; receiving_addr = some front }

-- The first accepted socket of a session.
unfoldable pub find_acked : ℕ → List AckedSock → Option AckedSock
find_acked session [] = none
find_acked session (a ∷ l) = if a.session == session then some a else find_acked session l

-- The first connected socket of a descriptor.
unfoldable pub find_connected : ℕ → List ConnectedSock → Option ConnectedSock
find_connected fd [] = none
find_connected fd (c ∷ l) = if c.socket_fd == fd then some c else find_connected fd l

-- `g_hash_table_insert` into `ConnectedSockets`
unfoldable pub insert_connected : ConnectedSock → List ConnectedSock → List ConnectedSock
insert_connected c [] = c ∷ []
insert_connected c (d ∷ l) = if d.socket_fd == c.socket_fd then c ∷ l else d ∷ insert_connected c l

-- Lines 870 to 878: the frame of `data`, on a block that holds `fresh`.
unfoldable pub make_message : ConnectedSock → List ℕ → ℕ → List ℕ → TrollMessage
make_message c data_bytes len fresh =
    let unsigned : TrollMessage = record {
      header = record c.server_addr { sin_family = wire_family };
      check_sum = 0;
      session = c.session;
      seq_num = c.base;
      padding = take 4 (drop 28 fresh);
      len = len;
      body = copy_at 0 data_bytes (take buf_len (drop 40 fresh));
    } in
    record unsigned { check_sum = message_sum unsigned }

-- Lines 873 to 882: the frame is queued under the next number.
unfoldable pub queue_message : {F : Type 0} → ConnectedSock → List ℕ → ℕ → List ℕ → Tcpd F → Tcpd F
queue_message c data_bytes len fresh s = record s {
  connected_sockets =
      set_connected
        (record c {
          base = u32 (c.base + 1);
          pending_packages = c.pending_packages ++ make_message c data_bytes len fresh ∷ [];
        })
        s.connected_sockets;
  in_buffer_packages = s.in_buffer_packages +ℤ pos 1;
}

-- The socket that tcpd_CONNECT makes.
unfoldable pub new_connected : ℕ → ℕ → SockAddr → ConnectedSock
new_connected fd session addr = record {
  socket_fd = fd;
  session = session;
  base = 0;
  min_seq = 0;
  server_addr = addr;
  packages = [];
  pending_packages = [];
}

module _ {F : Type 0} (env : Machine F) where
  -- `tcpd_ACCEPT`: the answer waits for a frame, but for an error.
  unfoldable pub tcpd_accept : SockAddr → M F (Unit {0})
  tcpd_accept _ = do
    fd ← recv_front 4
    s ← get
    let r = start_accepting (of_bytes fd.0) fd.1 not_found s.binded_sockets
    put (record s { binded_sockets = r.1 })
    elim r.0 [
      | not_found ↦ reply env minus_one fd.1
      | busy ↦ reply env minus_one fd.1
      | added ↦ pure tt
    ]

  -- `tcpd_RECV`: the answer waits for the data, but for the three refusals.
  unfoldable pub tcpd_recv : SockAddr → M F (Unit {0})
  tcpd_recv _ = do
    fd ← recv_front 4
    len ← recv_front 8
    if of_bytes len.0 == 0 then reply env 0 len.1 else (λ s.
        elim (find_acked (of_bytes fd.0) s.acked_sockets) [
          | none ↦ reply env minus_two len.1 s
          | some a ↦
              if a.receiving_length == 0
              then (elim (modify_session (of_bytes fd.0) (request_recv (of_bytes len.0) len.1)
                  s.acked_sockets) [
                    | none ↦ pure tt s
                    | some l ↦ put (record s { acked_sockets = l }) s
                  ])
              else reply env minus_three len.1 s
        ])

  -- `tcpd_CONNECT`
  unfoldable pub tcpd_connect : SockAddr → M F (Unit {0})
  tcpd_connect _ = do
    fd ← recv_front 4
    addr ← recv_front 16
    session ← rand env
    s ← get
    put (record s {
      connected_sockets =
          insert_connected (new_connected (of_bytes fd.0) session (addr_of_bytes addr.0))
            s.connected_sockets;
    })
    reply env 0 addr.1

  -- Lines 860 to 896: the data for the connected socket that has been found, if one has.
  unfoldable pub send_to : Option ConnectedSock → List ℕ → ℕ → SockAddr → M F (Unit {0})
  send_to none data_bytes len front = exit 1
  send_to (some c) data_bytes len front = do
    fresh ← malloc env
    t ← get
    put (queue_message c data_bytes len fresh t)
    reply env (u32 len) front

  -- `tcpd_SEND`
  unfoldable pub tcpd_send : SockAddr → M F (Unit {0})
  tcpd_send _ = do
    fd ← recv_front 4
    len ← recv_front 8
    if ltb buf_len (of_bytes len.0) then exit 5 else (do
      d ← recv_buf (of_bytes len.0)
      s ← get
      send_to (find_connected (of_bytes fd.0) s.connected_sockets) d.0 (of_bytes len.0) d.1)
