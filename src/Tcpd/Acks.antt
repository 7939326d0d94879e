-- ===== src/Tcpd/Acks.antt =====
-- recv_ack and recv_timer of final/tcpd.c: what takes a package out of the sender's window.
use cse5462_network_programm.Base.{
  ℕ, Bool, true, false, List, [], ◌∷◌, ◌++◌, Option, none, some, ◌==◌, if◌then◌else◌,
}
use cse5462_network_programm.Base.Outcome.{done, exits}
use cse5462_network_programm.Base.Int.{pos, ◌-ℤ◌}
use cse5462_network_programm.Timer.{TimeVal}
use cse5462_network_programm.Wire.{TrollAck, ack_intact}
use cse5462_network_programm.Tcpd.{Tcpd, ConnectedSock, Machine, cancel_timer}
use cse5462_network_programm.Tcpd.Kernel.{
  M, pure, exit, get, put, ◌>>=◌, ◌>>◌, sendto, gettimeofday,
}
use cse5462_network_programm.Tcpd.Packages.{remove_package}
use cse5462_network_programm.Tcpd.Receive.{Code, handled, garbled}

-- `ElapsedSeconds` between sending and acknowledgement, without its sign.
unfoldable pub elapsed_between : {F : Type 0} → Machine F → TimeVal → TimeVal → F
elapsed_between env sent acked =
    let usec2sec = env.decimal 1 6 in
    let seconds = env.of_int (pos sent.tv_sec -ℤ pos acked.tv_sec) in
    let e =
      env.minus (env.plus seconds (env.times usec2sec (env.of_int (pos sent.tv_usec))))
        (env.times usec2sec (env.of_int (pos acked.tv_usec))) in
    if env.less e (env.decimal 0 1)
    then env.times e (env.minus (env.decimal 0 1) (env.decimal 10 1))
    else e

-- Lines 261 to 272 on one socket: is a package removed, and the socket.
unfoldable pub acknowledge : ℕ → ℕ → ConnectedSock → Bool × ConnectedSock
acknowledge session seq_num c = elim (remove_package session seq_num c.packages) [
  | none ↦ (false, c)
  | some r ↦ (true, record c { packages = r.1 })
]

-- The entry of `ConnectedSockets` under this descriptor is replaced.
unfoldable pub set_connected : ConnectedSock → List ConnectedSock → List ConnectedSock
set_connected c [] = []
set_connected c (d ∷ l) = if d.socket_fd == c.socket_fd then c ∷ l else d ∷ set_connected c l

-- Lines 261 to 272: the socket and the count of packages.
unfoldable pub ack_package : {F : Type 0} → TrollAck → ConnectedSock → Tcpd F → Tcpd F
ack_package a c s =
    let (found, c') = acknowledge a.session a.seq_num c in
    record s {
      connected_sockets = set_connected c' s.connected_sockets;
      in_buffer_packages = if found then s.in_buffer_packages -ℤ pos 1 else s.in_buffer_packages;
    }

-- `recv_ack`, where `recvfrom` brings `none` on an error. The timer is cancelled whether or not a
-- package is found, and a failure of that `sendto` is not looked at.
unfoldable pub recv_ack : {F : Type 0} → Machine F → ConnectedSock → Option TrollAck → M F Code
recv_ack env c none = exit 5
recv_ack env c (some a) = do
  now ← gettimeofday env
  s ← get
  put (record s {
    ack_time = now;
    estimator = record s.estimator { elapsed = elapsed_between env s.send_time now };
  })
  if ack_intact a
      then (do
        t ← get
        put (ack_package a c t)
        sent ← sendto env (cancel_timer a.session a.seq_num)
        pure handled)
      else pure garbled

-- The first socket of `ConnectedSockets` with this session.
unfoldable pub find_session : ℕ → List ConnectedSock → Option ConnectedSock
find_session session [] = none
find_session session (c ∷ l) = if c.session == session then some c else find_session session l

-- Lines 316 to 326: the expired package goes to the end of the pending ones.
unfoldable pub expire : ℕ → ℕ → ConnectedSock → ConnectedSock
expire session seq_num c = elim (remove_package session seq_num c.packages) [
  | none ↦ c
  | some r ↦ record c { packages = r.1; pending_packages = c.pending_packages ++ r.0 ∷ [] }
]

-- `recv_timer`, where `recvfrom` brings `none` on an error, or a session and a number.
unfoldable pub recv_timer : {F : Type 0} → Option (ℕ × ℕ) → M F (Unit {0})
recv_timer none s = exits 5
recv_timer (some (session, seq_num)) s = elim (find_session session s.connected_sockets) [
  | none ↦ exits 5
  | some c ↦ done (
    tt,
    record s { connected_sockets = set_connected (expire session seq_num c) s.connected_sockets },
  )
]
