-- ===== src/Tcpd/Back.antt =====
-- handle_ack_back, handle_recv_back and handle_send_all_back of final/tcpd.c: what the daemon does
-- at the end of each round of its loop.
use cse5462_network_programm.Base.{
  ℕ, zero, suc, ◌+◌, ◌-◌, Bool, true, false, List, [], ◌∷◌, Option, none, some, ◌==◌, ltb, leb,
  if◌then◌else◌, take, drop,
}
use cse5462_network_programm.Base.Outcome.{overrun}
use cse5462_network_programm.Bytes.{le_bytes, copy_at, u32, u64}
use cse5462_network_programm.Wire.{TrollMessage, buf_len}
use cse5462_network_programm.Tcpd.{AckedSock, BindedSock, Machine, to_front}
use cse5462_network_programm.Tcpd.Kernel.{M, pure, exit, get, put, ◌>>=◌, ◌>>◌, send_or_exit}

-- Lines 349 to 352: the first waiting socket of this descriptor, and the list without it.
unfoldable pub take_waiting : ℕ → List AckedSock → Option (AckedSock × List AckedSock)
take_waiting fd [] = none
take_waiting fd (a ∷ l) =
    let rest = take_waiting fd l in
    if a.socket_fd == fd
    then some (a, l)
    else elim rest [ none ↦ none | some r ↦ some (r.0, a ∷ r.1) ]

-- `g_hash_table_insert` into `acked_sockets`
unfoldable pub insert_session : AckedSock → List AckedSock → List AckedSock
insert_session a [] = a ∷ []
insert_session a (b ∷ l) = if b.session == a.session then a ∷ l else b ∷ insert_session a l

module _ {F : Type 0} (env : Machine F) where
  -- Lines 344 to 369: one binded socket.
  unfoldable pub accept_one : BindedSock → M F BindedSock
  accept_one b s = elim b.accepting [
    | false ↦ pure b s
    | true ↦ elim (take_waiting b.socket_fd s.waiting_ack_sockets) [
      | none ↦ pure b s
      | some r ↦
          (do
            send_or_exit env 4 (to_front (le_bytes 4 r.0.session) b.accepting_addr)
            t ← get
            put (record t {
              acked_sockets = insert_session r.0 t.acked_sockets;
              waiting_ack_sockets = r.1;
            })
            pure (record b { accepting = false }))
            s
    ]
  ]

  unfoldable pub accept_all : List BindedSock → M F (List BindedSock)
  accept_all [] = pure []
  accept_all (b ∷ l) = do b' ← accept_one b; l' ← accept_all l; pure (b' ∷ l')

  -- `handle_ack_back`
  unfoldable pub handle_ack_back : M F (Unit {0})
  handle_ack_back s = elim s.waiting_ack_sockets [
    | [] ↦ pure tt s
    | _ ∷ _ ↦ (do l ← accept_all s.binded_sockets; t ← get; put (record t { binded_sockets = l })) s
  ]

-- Lines 410 to 414: the package fits, and is taken whole.
unfoldable pub consume : TrollMessage → List TrollMessage → AckedSock → AckedSock
consume m rest a = record a {
  recv_buffer = copy_at a.recv_buffer_size (take m.len m.body) a.recv_buffer;
  recv_buffer_size = u64 (a.recv_buffer_size + m.len);
  packages = rest;
  base = u32 (a.base + 1);
}

-- Lines 418 to 421: it does not; the part that fits is copied and cut off the package. The size of
-- the buffer stays as it was.
unfoldable pub cut : TrollMessage → List TrollMessage → AckedSock → AckedSock
cut m rest a =
    let remain = a.receiving_length - a.recv_buffer_size in
    record a {
      recv_buffer = copy_at a.recv_buffer_size (take remain m.body) a.recv_buffer;
      packages =
          record m {
            body = copy_at 0 (take (m.len - remain) (drop remain m.body)) m.body;
            len = m.len - remain;
          }
          ∷ rest;
    }

-- The loop of lines 395 to 423, on fuel.
unfoldable pub fill : ℕ → AckedSock → AckedSock
fill zero a = a
fill (suc fuel) a = elim (ltb a.recv_buffer_size a.receiving_length) [
  | false ↦ a
  | true ↦ elim a.packages [
    | [] ↦ a
    | m ∷ rest ↦ elim (m.seq_num == a.base) [
      | false ↦ a
      | true ↦ elim (leb (u64 (a.recv_buffer_size + m.len)) a.receiving_length) [
        | true ↦ fill fuel (consume m rest a)
        | false ↦ fill fuel (cut m rest a)
      ]
    ]
  ]
]

-- Every round takes a package out or makes one shorter.
unfoldable pub fill_fuel : List TrollMessage → ℕ
fill_fuel [] = 1
fill_fuel (m ∷ l) = suc m.len + fill_fuel l

-- Does a `bcopy` of the loop go outside the arrays? The body of a package has `buf_len` bytes, and a
-- `len` up to that neither wraps the test nor leaves the buffer.
unfoldable pub fill_overruns : ℕ → AckedSock → Bool
fill_overruns zero a = false
fill_overruns (suc fuel) a = elim (ltb a.recv_buffer_size a.receiving_length) [
  | false ↦ false
  | true ↦ elim a.packages [
    | [] ↦ false
    | m ∷ rest ↦ elim (m.seq_num == a.base) [
      | false ↦ false
      | true ↦ elim (ltb buf_len m.len) [
        | true ↦ true
        | false ↦ elim (leb (u64 (a.recv_buffer_size + m.len)) a.receiving_length) [
          | true ↦ fill_overruns fuel (consume m rest a)
          | false ↦ fill_overruns fuel (cut m rest a)
        ]
      ]
    ]
  ]
]

module _ {F : Type 0} (env : Machine F) where
  -- Lines 426 to 437: a full request is answered.
  unfoldable pub answer_recv : AckedSock → M F AckedSock
  answer_recv a =
      if a.recv_buffer_size == a.receiving_length
      then (do
        send_or_exit env 4 (to_front (take a.recv_buffer_size a.recv_buffer) a.receiving_addr)
        pure (record a { recv_buffer_size = 0; receiving_length = 0 }))
      else pure a

  -- Lines 387 to 438: one accepted socket.
  unfoldable pub serve : AckedSock → M F AckedSock
  serve a =
      if ltb 0 a.receiving_length
      then (if ltb buf_len a.receiving_length
          then exit 5
          else if fill_overruns (fill_fuel a.packages) a
          then exit overrun
          else answer_recv (fill (fill_fuel a.packages) a))
      else pure a

  unfoldable pub serve_all : List AckedSock → M F (List AckedSock)
  serve_all [] = pure []
  serve_all (a ∷ l) = do a' ← serve a; l' ← serve_all l; pure (a' ∷ l')

  -- `handle_recv_back`
  unfoldable pub handle_recv_back : M F (Unit {0})
  handle_recv_back s =
      (do l ← serve_all s.acked_sockets; t ← get; put (record t { acked_sockets = l })) s
