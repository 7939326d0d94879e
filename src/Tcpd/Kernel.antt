-- ===== src/Tcpd/Kernel.antt =====
-- The daemon as state passing with exits, and the system calls that it makes.
use cse5462_network_programm.Base.{
  ℕ, Bool, true, false, List, [], ◌∷◌, ◌++◌, none, some, if◌then◌else◌, suc, take, replicate,
}
use cse5462_network_programm.Base.Outcome
use cse5462_network_programm.Base.Outcome.{Outcome, done, exits, blocks}
use cse5462_network_programm.Timer.{TimeVal}
use cse5462_network_programm.Bytes.{copy_at}
use cse5462_network_programm.Wire.{SockAddr}
use cse5462_network_programm.Tcpd.{Tcpd, Sent, Machine}

-- A step of the daemon: the outcome is its result and the state after it.
abbrev pub M : Type 0 → Type 0 → Type 0
M F A = Tcpd F → Outcome (A × Tcpd F)

abbrev pub pure : {F A : Type 0} → A → M F A
pure a s = done (a, s)

infixl 5 ◌>>=◌ ◌>>◌
abbrev pub ◌>>=◌ : {F A B : Type 0} → M F A → (A → M F B) → M F B
◌>>=◌ m f s = Outcome.◌>>=◌ (m s) (λ p. f p.0 p.1)

abbrev pub ◌>>◌ : {F B : Type 0} → M F (Unit {0}) → M F B → M F B
m >> k = m >>= λ _. k

abbrev pub exit : {F A : Type 0} → ℕ → M F A
exit n s = exits n

abbrev pub get : {F : Type 0} → M F (Tcpd F)
get s = done (s, s)

abbrev pub put : {F : Type 0} → Tcpd F → M F (Unit {0})
put t s = done (tt, t)

module _ {F : Type 0} (env : Machine F) where
  -- `sendto`: does it succeed?
  unfoldable pub sendto : Sent F → M F Bool
  sendto x s =
      if env.succeeds s.calls
      then done (true, record s { calls = suc s.calls; log = s.log ++ x ∷ [] })
      else done (false, record s { calls = suc s.calls })

  -- `if (sendto(…) < 0) exit(code)`
  unfoldable pub send_or_exit : ℕ → Sent F → M F (Unit {0})
  unfolding sendto
  send_or_exit code x = do sent ← sendto x; if sent then pure tt else exit code

  -- `gettimeofday`
  unfoldable pub gettimeofday : M F TimeVal
  gettimeofday s = done (env.clock s.calls, record s { calls = suc s.calls })

  unfoldable pub rand : M F ℕ
  rand s = done (env.rand s.calls, record s { calls = suc s.calls })

  -- the bytes of a new block
  unfoldable pub malloc : M F (List ℕ)
  malloc s = done (env.fresh_bytes s.calls, record s { calls = suc s.calls })

  -- `socket`, or `exit(code)`
  unfoldable pub socket_or_exit : ℕ → M F ℕ
  socket_or_exit code s =
      if env.succeeds s.calls
      then done (env.fresh_fd s.calls, record s { calls = suc s.calls })
      else exits code

  -- `if (bind(…) < 0) exit(code)`
  unfoldable pub bind_or_exit : ℕ → M F (Unit {0})
  bind_or_exit code s =
      if env.succeeds s.calls then done (tt, record s { calls = suc s.calls }) else exits code

-- `recvfrom(sock, buf, k)` with `exit(4)` on an error: the first `k` bytes of `buf`, and the address
-- that they came from. Of a longer datagram the rest is lost; behind a shorter one `buf` is as it was.
unfoldable pub recv_buf : {F : Type 0} → ℕ → M F (List ℕ × SockAddr)
recv_buf k s = elim s.inbox [
  | [] ↦ blocks
  | none ∷ rest ↦ exits 4
  | some d ∷ rest ↦
      let buf = copy_at 0 (take k d.bytes) s.buf in
      done ((take k buf, d.from_addr), record s { inbox = rest; buf = buf })
]

-- The same behind `bzero(buf, k)`.
unfoldable pub recv_front : {F : Type 0} → ℕ → M F (List ℕ × SockAddr)
unfolding recv_buf
recv_front k s = recv_buf k (record s { buf = copy_at 0 (replicate k 0) s.buf })
