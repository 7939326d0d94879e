-- ===== src/Proj1/Daemon/Arms.antt =====
-- The arms of the loop of `main` of proj1/tcpd.c, and its rounds.
use mathlib.Core.Option
use cse5462_network_programm.Base.{
  ℕ, ◌+◌, ◌%◌, List, [], ◌∷◌, ◌++◌, Option, none, some, length, take, replicate, if◌then◌else◌,
}
use cse5462_network_programm.Timer.{TimeVal}
use cse5462_network_programm.Proj1.{TrollHeader}
use cse5462_network_programm.Proj1.TimerList.{send_to_timer, delete_from_timer}
use cse5462_network_programm.Proj1.Window.{window_init, window_full, save_packet, ack_window}
use cse5462_network_programm.Proj1.Daemon.{
  Doubles, buffer_size, record_size, random_ini_seq, generate_TrollHeader, with_check, packet_arm,
  record_seq, block_sending_and_save, send_recv_to_ftpc, update_rto, get_rtt, Daemon, Outgoing,
  Arrivals, to_client_troll, to_timer,
}

module _ {D : Type 0} (double : Doubles D) where
  -- Lines 91 to 125, of a datagram of the client while the window is not full.
  unfoldable pub send_packet :
      TimeVal → TrollHeader → List ℕ → Daemon D → Option (Daemon D × List Outgoing)
  send_packet now stack d s =
      let buffer = take buffer_size d in
      Option.map
        (λ h.
          let head = with_check h in
          let s' =
            record_seq now s.seq (record s { window_client = save_packet head s.window_client }) in
          (
            record s' { seq = (s.seq + length buffer) % 65535 },
            send_recv_to_ftpc
                ++ to_client_troll head ∷ to_timer (send_to_timer (double.whole s.rto) s.seq) ∷ [],
          ))
        (generate_TrollHeader s.seq stack buffer)

  -- Lines 143 to 193, of an acknowledgement; `stack` is what lies behind the arrays of the window.
  unfoldable pub client_remote :
      TimeVal → TrollHeader → TrollHeader → Daemon D → Daemon D × List Outgoing
  client_remote now stack head s =
      let seq = head.tcp_header.seq in
      let s' = record s { window_client = ack_window stack seq s.window_client } in
      let (rto, s'') = update_rto double (get_rtt double now seq s') s' in
      (record s'' { rto = rto }, to_timer (delete_from_timer seq) ∷ [])

  -- The arm of the acknowledgements.
  unfoldable pub ack_arm :
      TimeVal → TrollHeader → Option TrollHeader → Daemon D → Daemon D × List Outgoing
  ack_arm now stack none s = (s, [])
  ack_arm now stack (some head) s = client_remote now stack head s

  -- The two arms that a full window does not reach in a round with a datagram of the client.
  unfoldable pub network_arms : Arrivals → Daemon D → Daemon D × List Outgoing
  network_arms a s =
      let (s', out) = ack_arm a.now a.stack a.client_remote s in
      (s', out ++ packet_arm a.sent a.stack a.server_remote_packet)

  -- They come behind a packet sent.
  unfoldable pub then_network :
      Arrivals → Option (Daemon D × List Outgoing) → Option (Daemon D × List Outgoing)
  then_network a none = none
  then_network a (some r) = let (s', out) = network_arms a r.0 in some (s', r.1 ++ out)

  -- The arm of the client, with what is left of the round.
  unfoldable pub client_arm :
      Arrivals → Option (List ℕ) → Daemon D → Option (Daemon D × List Outgoing)
  client_arm a none s = some (network_arms a s)
  client_arm a (some d) s =
      if window_full s.window_client
      then some (block_sending_and_save d s)
      else then_network a (send_packet a.now a.stack d s)

  -- A round of the loop of `main`.
  unfoldable pub daemon_round : Arrivals → Daemon D → Option (Daemon D × List Outgoing)
  daemon_round a s = client_arm a a.client_local s

  -- The state before the first round; the window's arrays hold what the stack held.
  unfoldable pub daemon_start : List TrollHeader → List ℕ → Daemon D
  daemon_start headers bitmap = record {
    rto = double.difference 100 0;
    window_client = window_init headers bitmap;
    record_buf =
        replicate record_size (record { start_time = record { tv_sec = 0; tv_usec = 0 }; seq = 0 });
    record_index = 0;
    seq = random_ini_seq;
    tmp_save_buf = replicate buffer_size 0;
    srtt = double.difference 0 0;
    dev_rtt = double.difference 0 0;
  }

  -- The rounds of the loop, one after the other.
  unfoldable pub daemon_run : List Arrivals → Daemon D → Option (Daemon D × List Outgoing)
  daemon_run [] s = some (s, [])
  daemon_run (a ∷ rounds) s = elim (daemon_round a s) [
    | none ↦ none
    | some r ↦ Option.map (λ q. (q.0, r.1 ++ q.1)) (daemon_run rounds r.0)
  ]
