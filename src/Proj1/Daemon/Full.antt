-- ===== src/Proj1/Daemon/Full.antt =====
-- What the rounds of the daemon of proj1/tcpd.c keep, and where they stay: a full window.
use cse5462_network_programm.Base.{
  ℕ, ◌<◌, ◌≡◌, refl, sym, ap, subst, ◌∙◌, inl, inr, Bool, true, false, List, [], ◌∷◌, ◌++◌, Option,
  none, some, ltb, ◌≤◌, length, length-set, take, Bool-cases, arith,
}
use cse5462_network_programm.Timer.{TimeVal}
use cse5462_network_programm.Proj1.{TrollHeader}
use cse5462_network_programm.Proj1.Window.{
  Window, window_size, window_full, window_init, save_packet, ack_window,
}
use cse5462_network_programm.Proj1.Window.Queue.{IsWindow, ack_window_lem, save_packet_lem}
use cse5462_network_programm.Proj1.Window.Stuck.{
  Waits, ack_window-Waits, save_packet-Waits, ack_window_full,
}
use cse5462_network_programm.Proj1.TimerList.{send_to_timer}
use cse5462_network_programm.Proj1.Daemon.{
  received_word, Doubles, Daemon, Outgoing, to_client_ftp, to_client_troll, to_timer, to_server_ftp,
  to_client_tcpd, Arrivals, generate_TrollHeader, server_remote, packet_arm, update_rto,
  to_server_tcpd, block_sending_and_save, with_check, record_seq, body_size, buffer_size,
  record_size,
}
use cse5462_network_programm.Proj1.Daemon.Arms.{
  client_remote, ack_arm, network_arms, send_packet, then_network, client_arm, daemon_round,
  daemon_run, daemon_start,
}

-- The window represents a queue whose first packet is not acknowledged, and the ring of the times of
-- the packets has its thirty places.
pub record IsSound {D : Type 0} (s : Daemon D) : Type 0 where
  pub is_window : IsWindow s.window_client
  pub waits : Waits s.window_client
  pub records_there : length s.record_buf ≡ record_size
  pub record_index_in : s.record_index < record_size

-- No packet goes to the troll.
abbrev pub NoPacket : List Outgoing → Type 0
NoPacket [] = Unit {0}
NoPacket (to_client_ftp d ∷ l) = NoPacket l
NoPacket (to_client_troll h ∷ l) = ⊥
NoPacket (to_timer c ∷ l) = NoPacket l
NoPacket (to_server_ftp d ∷ l) = NoPacket l
NoPacket (to_client_tcpd h ∷ l) = NoPacket l

NoPacket-append : (l m : List Outgoing) → NoPacket l → NoPacket m → NoPacket (l ++ m)
NoPacket-append [] m p q = q
NoPacket-append (to_client_ftp d ∷ l) m p q = NoPacket-append l m p q
NoPacket-append (to_client_troll h ∷ l) m p q = p
NoPacket-append (to_timer c ∷ l) m p q = NoPacket-append l m p q
NoPacket-append (to_server_ftp d ∷ l) m p q = NoPacket-append l m p q
NoPacket-append (to_client_tcpd h ∷ l) m p q = NoPacket-append l m p q

ack_window-IsWindow :
    (blank : TrollHeader) (seq : ℕ) (w : Window)
    → IsWindow w
    → Waits w
    → IsWindow (ack_window blank seq w)
ack_window-IsWindow blank seq w v waits = elim (Bool-cases (window_full w)) [
  | inl full ↦ subst IsWindow (sym (ack_window_full blank seq w v waits full)) v
  | inr free ↦ (ack_window_lem blank seq w v free).0
]

packet_arm-NoPacket :
    (sent : Bool) (stack : TrollHeader) (head : Option TrollHeader)
    → NoPacket (packet_arm sent stack head)
unfolding packet_arm server_remote
packet_arm-NoPacket sent stack none = tt
packet_arm-NoPacket true stack (some head) = tt
packet_arm-NoPacket false stack (some head) = tt

-- The packet that the daemon sends of this datagram.
abbrev pub packet_of : {D : Type 0} → TrollHeader → List ℕ → Daemon D → TrollHeader
packet_of stack d s = with_check (record {
  send_to = to_server_tcpd;
  tcp_header = record stack.tcp_header { seq = s.seq; ack = 0 };
  body = take buffer_size d;
})

module _ {D : Type 0} (double : Doubles D) where
  pub ack_arm-IsSound :
      (now : TimeVal) (stack : TrollHeader) (head : Option TrollHeader) (s : Daemon D)
      → IsSound s
      → IsSound (ack_arm double now stack head s).0
  unfolding ack_arm client_remote update_rto
  ack_arm-IsSound now stack none s v = v
  ack_arm-IsSound now stack (some head) s v = record {
    is_window = ack_window-IsWindow stack head.tcp_header.seq s.window_client v.is_window v.waits;
    waits = ack_window-Waits stack head.tcp_header.seq s.window_client v.is_window;
    records_there = v.records_there;
    record_index_in = v.record_index_in;
  }

  ack_arm_full :
      (now : TimeVal) (stack : TrollHeader) (head : Option TrollHeader) (s : Daemon D)
      → IsSound s
      → window_full s.window_client ≡ true
      → ((ack_arm double now stack head s).0.window_client ≡ s.window_client)
        × NoPacket (ack_arm double now stack head s).1
  unfolding ack_arm client_remote update_rto
  ack_arm_full now stack none s v full = (refl, tt)
  ack_arm_full now stack (some head) s v full =
      (ack_window_full stack head.tcp_header.seq s.window_client v.is_window v.waits full, tt)

  network_arms-IsSound :
      (a : Arrivals) (s : Daemon D) → IsSound s → IsSound (network_arms double a s).0
  unfolding network_arms
  network_arms-IsSound a s v = ack_arm-IsSound a.now a.stack a.client_remote s v

  network_arms_full :
      (a : Arrivals) (s : Daemon D)
      → IsSound s
      → window_full s.window_client ≡ true
      → ((network_arms double a s).0.window_client ≡ s.window_client)
        × NoPacket (network_arms double a s).1
  unfolding network_arms
  network_arms_full a s v full =
      let (same, quiet) = ack_arm_full a.now a.stack a.client_remote s v full in
      (
        same,
        NoPacket-append (ack_arm double a.now a.stack a.client_remote s).1
            (packet_arm a.sent a.stack a.server_remote_packet) quiet
            (packet_arm-NoPacket a.sent a.stack a.server_remote_packet),
      )

  pub send_packet-IsSound :
      (now : TimeVal) (stack : TrollHeader) (d : List ℕ) (s : Daemon D)
      → IsSound s
      → window_full s.window_client ≡ false
      → length (take buffer_size d) ≤ body_size
      → (s' : Daemon D) × (out : List Outgoing) × (send_packet double now stack d s
          ≡ some (s', out))
        × IsSound s'
        × (s'.window_client ≡ save_packet (packet_of stack d s) s.window_client)
        × (out
            ≡ to_client_ftp received_word
              ∷ to_client_troll (packet_of stack d s)
              ∷ to_timer (send_to_timer (double.whole s.rto) s.seq)
              ∷ [])
  unfolding send_packet generate_TrollHeader record_seq
  send_packet-IsSound now stack d s v free small =
      let fits : ltb body_size (length (take buffer_size d)) ≡ false = ground arith in
      rw fits (
        _,
        _,
        refl,
        record {
          is_window =
              (save_packet_lem stack (packet_of stack d s) s.window_client v.is_window free).0;
          waits = save_packet-Waits (packet_of stack d s) s.window_client v.is_window free v.waits;
          records_there = length-set s.record_buf s.record_index _ ∙ v.records_there;
          record_index_in = omega arith;
        },
        refl,
        refl,
      )

  -- A datagram of the client fits into the body of a packet.
  abbrev pub Fits : Option (List ℕ) → Type 0
  Fits none = Unit {0}
  Fits (some d) = length (take buffer_size d) ≤ body_size

  abbrev pub AllFit : List Arrivals → Type 0
  AllFit [] = Unit {0}
  AllFit (a ∷ rounds) = Fits a.client_local × AllFit rounds

  client_arm-IsSound :
      (a : Arrivals) (o : Option (List ℕ)) (s : Daemon D)
      → IsSound s
      → Fits o
      → (s' : Daemon D) × (out : List Outgoing) × (client_arm double a o s ≡ some (s', out))
        × IsSound s'
  unfolding client_arm then_network block_sending_and_save
  client_arm-IsSound a none s v small = (_, _, refl, network_arms-IsSound a s v)
  client_arm-IsSound a (some d) s v small = elim (Bool-cases (window_full s.window_client)) [
    | inl full ↦ rw full (
      _,
      _,
      refl,
      record {
        is_window = v.is_window;
        waits = v.waits;
        records_there = v.records_there;
        record_index_in = v.record_index_in;
      },
    )
    | inr free ↦
        let (s', out, sent, v', there, said) = send_packet-IsSound a.now a.stack d s v free small in
        rw (free, sent) (_, _, refl, network_arms-IsSound a s' v')
  ]

  client_arm_full :
      (a : Arrivals) (o : Option (List ℕ)) (s : Daemon D)
      → IsSound s
      → window_full s.window_client ≡ true
      → (s' : Daemon D) × (out : List Outgoing) × (client_arm double a o s ≡ some (s', out))
        × IsSound s'
        × (s'.window_client ≡ s.window_client)
        × NoPacket out
  unfolding client_arm block_sending_and_save
  client_arm_full a none s v full =
      let (same, quiet) = network_arms_full a s v full in
      (_, _, refl, network_arms-IsSound a s v, same, quiet)
  client_arm_full a (some d) s v full = rw full (
    _,
    _,
    refl,
    record {
      is_window = v.is_window;
      waits = v.waits;
      records_there = v.records_there;
      record_index_in = v.record_index_in;
    },
    refl,
    tt,
  )

  -- From a sound state, one whose window is the ring of a queue whose first packet is not acknowledged
  -- and whose times of packets keep to their ring, the loop goes on: however many rounds there are and
  -- whatever they find, as long as each datagram of the client fits into a packet, the daemon does not
  -- leave the loop, and the state behind them is sound.
  pub daemon_run-IsSound :
      (rounds : List Arrivals) (s : Daemon D)
      → IsSound s
      → AllFit rounds
      → (s' : Daemon D) × (out : List Outgoing) × (daemon_run double rounds s ≡ some (s', out))
        × IsSound s'
  unfolding daemon_run daemon_round
  daemon_run-IsSound [] s v small = (_, _, refl, v)
  daemon_run-IsSound (a ∷ rounds) s v small =
      let (s', out, one, v') = client_arm-IsSound a a.client_local s v small.0 in
      let (s'', out', all, v'') = daemon_run-IsSound rounds s' v' small.1 in
      rw (one, daemon_run, all) (_, _, refl, v'')

  -- A window that is full stays as it is for ever: whatever acknowledgements, packets and datagrams the
  -- rounds bring, the daemon goes on without leaving the loop, sends no packet to the troll again, and
  -- its window is the same, and full, after them.
  pub daemon_run_full :
      (rounds : List Arrivals) (s : Daemon D)
      → IsSound s
      → window_full s.window_client ≡ true
      → (s' : Daemon D) × (out : List Outgoing) × (daemon_run double rounds s ≡ some (s', out))
        × (s'.window_client ≡ s.window_client)
        × NoPacket out
  unfolding daemon_run daemon_round
  daemon_run_full [] s v full = (_, _, refl, refl, tt)
  daemon_run_full (a ∷ rounds) s v full =
      let (s', out, one, v', same, quiet) = client_arm_full a a.client_local s v full in
      let (s'', out', all, same', quiet') =
        daemon_run_full rounds s' v' (ap window_full same ∙ full) in
      rw (one, daemon_run, all) (_, _, refl, same' ∙ same, NoPacket-append out out' quiet quiet')

  pub daemon_start-IsSound :
      (headers : List TrollHeader) (bitmap : List ℕ)
      → length headers ≡ window_size
      → length bitmap ≡ window_size
      → IsSound (daemon_start double headers bitmap)
  unfolding daemon_start window_init
  daemon_start-IsSound headers bitmap e f = record {
    is_window = record {
      headers_there = e;
      bitmap_there = f;
      last_ack_in = omega arith;
      num_empty_in = omega arith;
      last_send_at = refl;
    };
    waits = inl refl;
    records_there = refl;
    record_index_in = omega arith;
  }
