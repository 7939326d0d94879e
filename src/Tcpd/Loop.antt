-- ===== src/Tcpd/Loop.antt =====
-- process_tcpd_message, re_register_fd, get_data_from_sockets, handle_back_imformation and the
-- main loop of final/tcpd.c.
use Prim.Native.Char.{code}
use Prim.Native.String.{String}
use cse5462_network_programm.Base.{
  ℕ, Bool, true, false, ◌&&◌, List, [], ◌∷◌, ◌++◌, Option, none, some, ◌==◌, ltb, if◌then◌else◌,
  take,
}
use cse5462_network_programm.Base.Int.{pos, ltb_ℤ}
use cse5462_network_programm.Base.Outcome.{done, exits, blocks, overrun}
use cse5462_network_programm.Bytes.{copy_at}
use cse5462_network_programm.Wire.{SockAddr, TrollMessage, TrollAck, max_buffer_packages}
use cse5462_network_programm.Tcpd.{Tcpd, BindedSock, ConnectedSock, Machine}
use cse5462_network_programm.Tcpd.Kernel.{M, pure, get, ◌>>=◌, ◌>>◌, malloc}
use cse5462_network_programm.Tcpd.Receive.{recv_data}
use cse5462_network_programm.Tcpd.Acks.{recv_ack, recv_timer}
use cse5462_network_programm.Tcpd.Back.{handle_ack_back, handle_recv_back}
use cse5462_network_programm.Tcpd.Transmit.{handle_send_all_back}
use cse5462_network_programm.Tcpd.Front.{
  tcpd_socket, tcpd_bind, tcpd_accept, tcpd_recv, tcpd_connect, tcpd_send,
}

-- The bytes of an ASCII text.
abbrev pub ascii : String → List ℕ
ascii String.[] = []
ascii (String.◌∷◌ c s) = code c ∷ ascii s

-- `strcmp(bytes, text) == 0`: the bytes are those of the text up to a zero.
unfoldable pub str_is : List ℕ → List ℕ → Bool
str_is [] l = false
str_is (c ∷ bytes) [] = c == 0
str_is (c ∷ bytes) (d ∷ text) = let rest = str_is bytes text in if c == d then rest else false

abbrev pub tcpd_msg_len : ℕ
tcpd_msg_len = 8

module _ {F : Type 0} (env : Machine F) where
  -- The comparisons of lines 1026 to 1049.
  unfoldable pub dispatch : List ℕ → SockAddr → M F (Unit {0})
  unfolding str_is
  dispatch msg front =
      if str_is msg (ascii "SOCKET")
      then tcpd_socket env front
      else if str_is msg (ascii "BIND")
      then tcpd_bind env front
      else if str_is msg (ascii "ACCEPT")
      then tcpd_accept env front
      else if str_is msg (ascii "RECV")
      then tcpd_recv env front
      else if str_is msg (ascii "CONNECT")
      then tcpd_connect env front
      else if str_is msg (ascii "SEND")
      then tcpd_send env front
      else pure tt

  -- Lines 1017 to 1023: the name of the function, read over what the stack holds.
  unfoldable pub recv_msg : M F (List ℕ × SockAddr)
  recv_msg s =
      (do
        stack ← malloc env
        t ← get
        λ u. elim t.inbox [
          | [] ↦ blocks
          | none ∷ rest ↦ exits 4
          | some d ∷ rest ↦ done (
            (copy_at 0 (take tcpd_msg_len d.bytes) stack, d.from_addr),
            record u { inbox = rest },
          )
        ])
        s

  -- `process_tcpd_message`
  unfoldable pub process_tcpd_message : M F (Unit {0})
  process_tcpd_message = do msg ← recv_msg; dispatch msg.0 msg.1

-- Line 987: are the applications listened to?
unfoldable pub listens : {F : Type 0} → Tcpd F → Bool
listens s = ltb_ℤ s.in_buffer_packages (pos max_buffer_packages)

-- FD_SETSIZE
abbrev pub fd_setsize : ℕ
fd_setsize = 1024

-- Are these numbers, the 32 bits of an `int` each, all descriptors that a set can hold?
unfoldable pub fds_fit : List ℕ → Bool
fds_fit [] = true
fds_fit (fd ∷ l) = ltb fd fd_setsize && fds_fit l

-- `FD_SET` and the maximum: one descriptor more. The comparison is one of numbers that fit.
unfoldable pub register : ℕ → ℕ × List ℕ → ℕ × List ℕ
register fd r = (if ltb r.0 fd then fd else r.0, r.1 ++ fd ∷ [])

unfoldable pub register_binded : List BindedSock → ℕ × List ℕ → ℕ × List ℕ
register_binded [] r = r
register_binded (b ∷ l) r = register_binded l (register b.socket_fd r)

unfoldable pub register_connected : List ConnectedSock → ℕ × List ℕ → ℕ × List ℕ
register_connected [] r = r
register_connected (c ∷ l) r = register_connected l (register c.socket_fd r)

-- What `re_register_fd` leaves, where every descriptor fits into the set.
unfoldable pub registered : {F : Type 0} → Tcpd F → Tcpd F
registered s =
    let timer : ℕ × List ℕ = (s.sock_timer_driver, s.sock_timer_driver ∷ []) in
    let front = if listens s then register s.sock timer else timer in
    let all = register_connected s.connected_sockets (register_binded s.binded_sockets front) in
    record s { max_socket = all.0; sock_fd = all.1 }

-- `re_register_fd`: `FD_SET` of a descriptor that does not fit, a negative one too, goes outside the
-- set.
unfoldable pub re_register_fd : {F : Type 0} → M F (Unit {0})
re_register_fd s = if fds_fit (registered s).sock_fd then done (tt, registered s) else exits overrun

-- What a `select` that returns a positive number leaves to be read: on `sock`, on each binded and
-- each connected socket by its descriptor, and on the timer's socket. An outer `none` is a socket
-- that is not in the set, an inner one an error of `recvfrom`.
pub record Arrivals : Type 0 where
  pub front : Bool
  pub data_at : ℕ → Option (Option (TrollMessage × SockAddr))
  pub ack_at : ℕ → Option (Option TrollAck)
  pub timer : Option (Option (ℕ × ℕ))

module _ {F : Type 0} (env : Machine F) where
  -- `get_data_from_sockets`
  unfoldable pub get_data_from_sockets :
      (ℕ → Option (Option (TrollMessage × SockAddr))) → List BindedSock → M F (Unit {0})
  get_data_from_sockets data_at [] = pure tt
  get_data_from_sockets data_at (b ∷ l) = elim (data_at b.socket_fd) [
    | none ↦ get_data_from_sockets data_at l
    | some r ↦ (do code ← recv_data env b r; get_data_from_sockets data_at l)
  ]

  -- Lines 69 to 82: the loop over the connected sockets, each as it stands in `ConnectedSockets`.
  unfoldable pub get_acks : (ℕ → Option (Option TrollAck)) → List ConnectedSock → M F (Unit {0})
  get_acks ack_at [] = pure tt
  get_acks ack_at (c ∷ l) = elim (ack_at c.socket_fd) [
    | none ↦ get_acks ack_at l
    | some r ↦ (do code ← recv_ack env c r; get_acks ack_at l)
  ]

  -- Lines 61 to 89: all that has arrived.
  unfoldable pub process_arrivals : Arrivals → M F (Unit {0})
  process_arrivals a = do
    if a.front then process_tcpd_message env else pure tt
    s ← get
    get_data_from_sockets a.data_at s.binded_sockets
    t ← get
    get_acks a.ack_at t.connected_sockets
    elim a.timer [ none ↦ pure tt | some r ↦ recv_timer r ]

  -- `handle_back_imformation`
  unfoldable pub handle_back_imformation : M F (Unit {0})
  handle_back_imformation = do handle_ack_back env; handle_recv_back env; handle_send_all_back env

  -- One round of the main loop; `none` where `select` returns no positive number. `wait` makes of
  -- the registered sockets what `select` leaves.
  unfoldable pub main_round : (Tcpd F → Option Arrivals) → M F (Unit {0})
  main_round wait s =
      (do
        re_register_fd
        t ← get
        elim (wait t) [ none ↦ pure tt | some a ↦ process_arrivals a ]
        handle_back_imformation)
        s
