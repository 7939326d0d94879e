-- ===== src/Proj1/Daemon/Exchange.antt =====
-- Two daemons of proj1/tcpd.c over a network that delivers what they send.
use mathlib.Core.Option
use cse5462_network_programm.Base.{
  ℕ, zero, suc, ◌+◌, ◌-◌, ◌%◌, ◌≤◌, ◌≡◌, refl, ap, ◌∙◌, true, false, List, [], ◌∷◌, ◌++◌, Option,
  none, some, ◌==◌, ==_iff, length, take, take_all, map, arith,
}
use cse5462_network_programm.Bytes.{u32}
use cse5462_network_programm.Timer.{TimeVal}
use cse5462_network_programm.Proj1.{TrollHeader}
use cse5462_network_programm.Proj1.Crc16.{check_crc}
use cse5462_network_programm.Proj1.Window.{
  Window, window_size, window_full, save_packet, ack_window,
}
use cse5462_network_programm.Proj1.Window.Queue.{
  IsWindow, contents, entries, mark_first, drop_acked, save_packet_lem, ack_window_lem,
}
use cse5462_network_programm.Proj1.Daemon.{
  Doubles, Daemon, Outgoing, to_client_troll, to_server_ftp, to_client_tcpd, Arrivals,
  server_remote, packet_arm, update_rto, with_check, sum_of, body_size,
}
use cse5462_network_programm.Proj1.Daemon.Arms.{
  client_remote, ack_arm, network_arms, client_arm, then_network, daemon_round,
}
use cse5462_network_programm.Proj1.Daemon.Full.{
  IsSound, packet_of, ack_arm-IsSound, send_packet-IsSound,
}

-- The packet that the daemon makes of a datagram passes its own checksum.
packet_of-check_crc :
    {D : Type 0} (stack : TrollHeader) (d : List ℕ) (s : Daemon D)
    → check_crc (packet_of stack d s).tcp_header.check (sum_of (packet_of stack d s)) ≡ true
unfolding with_check sum_of check_crc
packet_of-check_crc stack d s = (==_iff _ _).1 refl

nothing_left :
    (blank : TrollHeader) (w : Window) → IsWindow w → contents blank w ≡ [] → w.num_empty ≡ 10
nothing_left blank w v e = go (10 - w.num_empty) refl e
  where
    go :
        (n : ℕ)
        → 10 - w.num_empty ≡ n
        → entries blank w.troll_headers w.ack_bitmap ((w.last_ack + 1) % 10) n ≡ []
        → w.num_empty ≡ 10
    go zero h e = omega (arith, v.num_empty_in)
    go (suc n) h e = absurd (cc e)

-- The one packet under way leaves the window with its acknowledgement.
saved_and_acked :
    (blank head : TrollHeader) (w : Window)
    → IsWindow w
    → w.num_empty ≡ 10
    → (ack_window blank head.tcp_header.seq (save_packet head w)).num_empty ≡ 10
unfolding window_full save_packet mark_first drop_acked
saved_and_acked blank head w v empty =
    let free : window_full w ≡ false = rw empty refl in
    let (v', now) = save_packet_lem blank head w v free in
    let alone : contents blank (save_packet head w) ≡ (head, 0) ∷ [] =
      now
      ∙ ap
          (λ n.
            entries blank w.troll_headers w.ack_bitmap ((w.last_ack + 1) % 10) (10 - n)
            ++ (head, 0) ∷ [])
          empty in
    let free' : window_full (save_packet head w) ≡ false = rw empty refl in
    let (v'', after) = ack_window_lem blank head.tcp_header.seq (save_packet head w) v' free' in
    let same : (head.tcp_header.seq == head.tcp_header.seq) ≡ true = (==_iff _ _).1 refl in
    nothing_left blank _ v''
      (after ∙ ap (λ l. drop_acked (mark_first head.tcp_header.seq l)) alone ∙ (rw same refl))

-- What comes out of a round, one of each kind.
unfoldable pub first_packet : List Outgoing → Option TrollHeader
first_packet [] = none
first_packet (to_client_troll h ∷ l) = some h
first_packet (x ∷ l) = first_packet l

unfoldable pub first_ack : List Outgoing → Option TrollHeader
first_ack [] = none
first_ack (to_client_tcpd h ∷ l) = some h
first_ack (x ∷ l) = first_ack l

unfoldable pub bodies : List Outgoing → List (List ℕ)
bodies [] = []
bodies (to_server_ftp d ∷ l) = d ∷ bodies l
bodies (x ∷ l) = bodies l

-- A datagram of the client, with the clock and the contents of the variables in the three rounds that
-- it takes.
pub record Turn : Type 0 where
  pub datagram : List ℕ
  pub sent_at : TimeVal
  pub acked_at : TimeVal
  pub stack : TrollHeader
  pub server_stack : TrollHeader

-- Every datagram fits into a packet.
abbrev pub Small : List Turn → Type 0
Small [] = Unit {0}
Small (turn ∷ turns) = (length turn.datagram ≤ body_size) × Small turns

abbrev pub quiet_round : TimeVal → TrollHeader → Arrivals
quiet_round now stack = record {
  client_local = none;
  client_remote = none;
  server_remote_packet = none;
  now = now;
  stack = stack;
  sent = true;
}

module _ {D : Type 0} (double : Doubles D) where
  -- The client's daemon `s` takes the datagram and sends a packet, the server's daemon `t` gets it, and
  -- its acknowledgement comes back.
  unfoldable pub exchange :
      Turn → Daemon D → Daemon D → Option (Daemon D × Daemon D × List (List ℕ))
  exchange turn s t =
      elim (daemon_round double
        (record (quiet_round turn.sent_at turn.stack) { client_local = some turn.datagram }) s) [
          | none ↦ none
          | some (s', out) ↦
              elim (daemon_round double
                (record (quiet_round turn.sent_at turn.server_stack) {
                  server_remote_packet = first_packet out;
                })
                t) [
                  | none ↦ none
                  | some (t', out') ↦
                      Option.map (λ r. (r.0, t', bodies out'))
                        (daemon_round double
                          (record (quiet_round turn.acked_at turn.stack) {
                            client_remote = first_ack out';
                          })
                          s')
                ]
        ]

  unfoldable pub transfer :
      List Turn → Daemon D → Daemon D → Option (Daemon D × Daemon D × List (List ℕ))
  transfer [] s t = some (s, t, [])
  transfer (turn ∷ turns) s t = elim (exchange turn s t) [
    | none ↦ none
    | some (s', t', l) ↦ Option.map (λ r. (r.0, r.1, l ++ r.2)) (transfer turns s' t')
  ]

  exchange_lem :
      (turn : Turn) (s t : Daemon D)
      → IsSound s
      → s.window_client.num_empty ≡ 10
      → length turn.datagram ≤ 800
      → (s' : Daemon D) × (exchange turn s t ≡ some (s', t, turn.datagram ∷ []))
        × IsSound s'
        × (s'.window_client.num_empty ≡ 10)
  unfolding exchange daemon_round client_arm then_network network_arms ack_arm packet_arm
      client_remote server_remote first_packet first_ack bodies window_full with_check update_rto
  exchange_lem turn s t v empty small =
      let d = turn.datagram in
      let all : take 1000 d ≡ d = take_all 1000 d (omega arith) in
      let free : (s.window_client.num_empty == 0) ≡ false = rw empty refl in
      let (s', out, sent, v', there, said) =
        send_packet-IsSound double turn.sent_at turn.stack d s v free (rw all small) in
      let ack : TrollHeader = record turn.server_stack {
        tcp_header = record turn.server_stack.tcp_header {
          ack = 1;
          seq = s.seq;
          ack_seq = u32 (s.seq + length d);
        };
      } in
      rw (exchange, free, sent, said, all)
        (
          _,
          refl,
          ack_arm-IsSound double turn.acked_at turn.stack (some ack) s' v',
          ap (λ w. (ack_window turn.stack s.seq w).num_empty) there
              ∙ saved_and_acked turn.stack (packet_of turn.stack d s) s.window_client v.is_window
                  empty,
        )

  -- Where every packet and every acknowledgement arrives before the client goes on, any number of
  -- datagrams that fit into a packet goes from client to server, each as it is and in order, and nothing
  -- is left in the window.
  pub transfer_lem :
      (turns : List Turn) (s t : Daemon D)
      → IsSound s
      → s.window_client.num_empty ≡ window_size
      → Small turns
      → (s' : Daemon D) × (transfer turns s t ≡ some (s', t, map (λ turn. turn.datagram) turns))
        × IsSound s'
        × (s'.window_client.num_empty ≡ window_size)
  unfolding transfer
  transfer_lem [] s t v empty small = (s, refl, v, empty)
  transfer_lem (turn ∷ turns) s t v empty small =
      let (s', one, v', empty') = exchange_lem turn s t v empty small.0 in
      let (s'', rest, v'', empty'') = transfer_lem turns s' t v' empty' small.1 in
      rw (transfer, one, rest) (s'', refl, v'', empty'')
