-- ===== src/Wrappers.antt =====
-- The calls of final/tcpudp.c, with which an application asks its daemon: each sends datagrams to
-- the daemon and waits for one answer.
pub mod Requests
pub mod Runs
mod Tests
use Prim.Native.String.{String}
use cse5462_network_programm.Base.{
  ℕ, suc, ◌+◌, ◌-◌, ◌*◌, ◌/◌, ◌%◌, ◌^◌, Bool, List, [], ◌∷◌, ◌++◌, Option, none, some,
  if◌then◌else◌, take, drop, length, min, replicate, ltb,
}
use cse5462_network_programm.Base.Int.{ℤ, pos, negsuc}
use cse5462_network_programm.Base.Outcome
use cse5462_network_programm.Base.Outcome.{Outcome, done, exits, blocks}
use cse5462_network_programm.Bytes.{le_bytes, of_bytes, copy_at, u32}
use cse5462_network_programm.Wire.{SockAddr}
use cse5462_network_programm.Tcpd.Loop.{ascii, tcpd_msg_len}

-- The globals of tcpudp.c and what goes through `sock`: the datagrams sent to the daemon and those
-- that wait, where an error of `recvfrom` is a `none`.
pub record Caller : Type 0 where
  pub calls : ℕ
  pub sock : ℤ
  pub tcpd_addr : SockAddr
  pub buf : List ℕ
  pub sent : List (List ℕ)
  pub inbox : List (Option (List ℕ))

-- What the calls use of the system: which calls succeed, the descriptors of `socket`, the address
-- of the local host if it is known, `atoi` and `htons`.
pub record System : Type 0 where
  pub succeeds : ℕ → Bool
  pub fresh_fd : ℕ → ℕ
  pub localhost : Option ℕ
  pub atoi : List ℕ → ℕ
  pub htons : ℕ → ℕ

abbrev pub W : Type 0 → Type 0
W A = Caller → Outcome (A × Caller)

abbrev pub pure : {A : Type 0} → A → W A
pure a s = done (a, s)

infixl 5 ◌>>=◌ ◌>>◌
abbrev pub ◌>>=◌ : {A B : Type 0} → W A → (A → W B) → W B
◌>>=◌ m f s = Outcome.◌>>=◌ (m s) (λ p. f p.0 p.1)

abbrev pub ◌>>◌ : {B : Type 0} → W (Unit {0}) → W B → W B
m >> k = m >>= λ _. k

-- A 32-bit pattern as an `int`.
unfoldable pub to_int : ℕ → ℤ
to_int n = if ltb n (2 ^ 31) then pos n else negsuc (2 ^ 32 - 1 - n)

-- `char tcpd_msg[TCPD_MSG_LEN] = text`
abbrev pub tcpd_msg : String → List ℕ
tcpd_msg text = take tcpd_msg_len (ascii text ++ replicate tcpd_msg_len 0)

-- `struct sockaddr_in` as bytes; the last eight are not looked at.
unfoldable pub addr_bytes : SockAddr → List ℕ
addr_bytes a =
    le_bytes 2 a.sin_family ++ (le_bytes 2 a.sin_port ++ (le_bytes 4 a.sin_addr ++ replicate 8 0))

-- `recvfrom(sock, array, k)`: the result, and the array after it.
unfoldable pub recv_into : ℕ → List ℕ → W (ℤ × List ℕ)
recv_into k array s = elim s.inbox [
  | [] ↦ blocks
  | none ∷ rest ↦ done ((negsuc 0, array), record s { inbox = rest })
  | some d ∷ rest ↦
      done ((pos (length (take k d)), copy_at 0 (take k d) array), record s { inbox = rest })
]

module _ (system : System) where
  -- `if (sendto(sock, bytes, …) < 0) exit(4)`
  unfoldable pub send_tcpd : List ℕ → W (Unit {0})
  send_tcpd bytes s =
      if system.succeeds s.calls
      then done (tt, record s { calls = suc s.calls; sent = s.sent ++ bytes ∷ [] })
      else exits 4

  -- `bzero(buf, k)`, `recvfrom(sock, buf, k)` with `exit(5)` on an error, and the number in `buf`
  unfoldable pub recv_number : ℕ → W ℕ
  unfolding recv_into
  recv_number k s = elim (recv_into k (copy_at 0 (replicate k 0) s.buf) s) [
    | exits n ↦ exits n
    | blocks ↦ blocks
    | done ((negsuc n, array), t) ↦ exits 5
    | done ((pos n, array), t) ↦ done (of_bytes (take k array), record t { buf = array })
  ]

  -- `InitTcpUdp`
  unfoldable pub init_tcp_udp : List ℕ → W (Unit {0})
  init_tcp_udp tcpd_port s =
      if system.succeeds s.calls
      then elim system.localhost [
        | none ↦ exits 3
        | some address ↦ done (
          tt,
          record s {
            calls = suc s.calls;
            sock = pos (system.fresh_fd s.calls);
            tcpd_addr = record {
              sin_family = 2;
              sin_port = system.htons (system.atoi tcpd_port % 2 ^ 16);
              sin_addr = address;
            };
          },
        )
      ]
      else exits 2

  -- `SOCKET`; the arguments are not sent.
  unfoldable pub call_socket : W ℤ
  call_socket = do send_tcpd (tcpd_msg "SOCKET"); ret ← recv_number 4; pure (to_int ret)

  -- `BIND`
  unfoldable pub call_bind : ℕ → SockAddr → W ℤ
  call_bind sockfd addr = do
    send_tcpd (tcpd_msg "BIND")
    send_tcpd (le_bytes 4 sockfd)
    send_tcpd (addr_bytes addr)
    ret ← recv_number 4
    pure (to_int ret)

  -- `LISTEN`
  unfoldable pub call_listen : ℕ → ℕ → W ℤ
  call_listen sockfd backlog = pure (pos 0)

  -- `ACCEPT`
  unfoldable pub call_accept : ℕ → W ℤ
  call_accept sockfd = do
    send_tcpd (tcpd_msg "ACCEPT")
    send_tcpd (le_bytes 4 sockfd)
    ret ← recv_number 4
    pure (to_int ret)

  -- `RECV`: what `recvfrom` returns, and the application's buffer after it
  unfoldable pub call_recv : ℕ → List ℕ → ℕ → W (ℤ × List ℕ)
  call_recv sockfd buffer len = do
    send_tcpd (tcpd_msg "RECV")
    send_tcpd (le_bytes 4 sockfd)
    send_tcpd (le_bytes 8 len)
    recv_into len buffer

  -- `CONNECT`
  unfoldable pub call_connect : ℕ → SockAddr → W ℤ
  call_connect sockfd addr = do
    send_tcpd (tcpd_msg "CONNECT")
    send_tcpd (le_bytes 4 sockfd)
    send_tcpd (addr_bytes addr)
    ret ← recv_number 4
    pure (to_int ret)

  -- `SEND`: `buffer` are the `len` bytes to send. The result is read as 8 bytes.
  unfoldable pub call_send : ℕ → List ℕ → W ℤ
  call_send sockfd buffer = do
    send_tcpd (tcpd_msg "SEND")
    send_tcpd (le_bytes 4 sockfd)
    send_tcpd (le_bytes 8 (length buffer))
    send_tcpd buffer
    ret ← recv_number 8
    pure (if ltb ret (2 ^ 63) then pos ret else negsuc (2 ^ 64 - 1 - ret))

  -- `CLOSE`
  unfoldable pub call_close : ℕ → W ℤ
  call_close fd = pure (pos 0)
