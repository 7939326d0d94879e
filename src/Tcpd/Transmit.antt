-- ===== src/Tcpd/Transmit.antt =====
-- handle_send_all_back of final/tcpd.c: pending packages within the window go to the troll, each
-- with a timer that Jacobson's estimate sets.
use cse5462_network_programm.Base.{ℕ, ◌+◌, Bool, List, [], ◌∷◌, ◌++◌, ltb, if◌then◌else◌}
use cse5462_network_programm.Base.Int.{pos}
use cse5462_network_programm.Bytes.{u32}
use cse5462_network_programm.Wire.{TrollMessage, max_buffer_packages}
use cse5462_network_programm.Tcpd.{ConnectedSock, Machine, Estimator, frame, start_timer}
use cse5462_network_programm.Tcpd.Kernel.{
  M, pure, get, put, ◌>>=◌, ◌>>◌, sendto, send_or_exit, gettimeofday,
}

abbrev pub no_min_seq : ℕ
no_min_seq = 100000000

-- Lines 458 to 462
unfoldable pub min_seq_of : ℕ → List TrollMessage → ℕ
min_seq_of acc [] = acc
min_seq_of acc (m ∷ l) = min_seq_of (if ltb m.seq_num acc then m.seq_num else acc) l

-- The test of line 470, turned round: is the package within the window?
unfoldable pub in_window : ℕ → TrollMessage → Bool
in_window min_seq m = ltb m.seq_num (u32 (min_seq + max_buffer_packages))

module _ {F : Type 0} (env : Machine F) where
  -- Lines 489 to 497: the estimator after a measurement of `elapsed`.
  unfoldable pub jacobson : Estimator F → Estimator F
  jacobson e =
      let one = env.decimal 1 0 in
      let elapsed =
        if env.at_most e.elapsed (env.decimal 0 0) then env.decimal 1 2 else e.elapsed in
      let rtt =
        env.plus (env.times (env.decimal 875 3) e.rtt_prev)
          (env.times (env.minus one (env.decimal 875 3)) elapsed) in
      let dev =
        env.plus (env.times (env.minus one (env.decimal 25 2)) e.dev_prev)
          (env.times (env.decimal 25 2) (env.abs_int (env.minus elapsed e.rtt_prev))) in
      record {
        elapsed = elapsed;
        rtt = rtt;
        rtt_prev = rtt;
        dev = dev;
        dev_prev = dev;
        rto = env.plus e.rtt_prev (env.times (env.of_int (pos 4)) e.dev_prev);
      }

  -- Lines 477 to 502: one package that is within the window.
  unfoldable pub send_package : ℕ → TrollMessage → M F (Unit {0})
  send_package fd m = do
    send_or_exit env 5 (frame fd m)
    now ← gettimeofday env
    s ← get
    let e = jacobson s.estimator
    put (record s { send_time = now; estimator = e })
    sent ← sendto env (start_timer m.session m.seq_num e.rto)
    pure tt

  -- Lines 463 to 505: the packages that are sent, in order, and those that stay.
  unfoldable pub send_pending :
      ℕ → ℕ → List TrollMessage → M F (List TrollMessage × List TrollMessage)
  send_pending fd min_seq [] = pure ([], [])
  send_pending fd min_seq (m ∷ l) =
      if in_window min_seq m
      then (do send_package fd m; r ← send_pending fd min_seq l; pure (m ∷ r.0, r.1))
      else (do r ← send_pending fd min_seq l; pure (r.0, m ∷ r.1))

  -- Lines 454 to 505: one connected socket.
  unfoldable pub send_socket : ConnectedSock → M F ConnectedSock
  send_socket c = do
    let min_seq = min_seq_of no_min_seq c.packages
    r ← send_pending c.socket_fd min_seq c.pending_packages
    pure (record c { min_seq = min_seq; packages = c.packages ++ r.0; pending_packages = r.1 })

  unfoldable pub send_sockets : List ConnectedSock → M F (List ConnectedSock)
  send_sockets [] = pure []
  send_sockets (c ∷ l) = do c' ← send_socket c; l' ← send_sockets l; pure (c' ∷ l')

  -- `handle_send_all_back`
  unfoldable pub handle_send_all_back : M F (Unit {0})
  handle_send_all_back s =
      (do l ← send_sockets s.connected_sockets; t ← get; put (record t { connected_sockets = l })) s
