-- ===== src/Tcpd/SenderTests.antt =====
-- The theorems on the sending side of final/tcpd.c at concrete states.
use cse5462_network_programm.Base.{
  ℕ, Bool, refl, false, List, [], ◌∷◌, Option, none, some, replicate,
}
use cse5462_network_programm.Base.Outcome.{Outcome, done, exits, blocks}
use cse5462_network_programm.Bytes.{le_bytes}
use cse5462_network_programm.Wire.{TrollAck}
use cse5462_network_programm.Tcpd.{Tcpd, Datagram}
use cse5462_network_programm.Tcpd.Loop.{Arrivals, main_round, listens}
use cse5462_network_programm.Tcpd.Acks.{ack_package}
use cse5462_network_programm.Tcpd.Front.{find_connected}
use cse5462_network_programm.Tcpd.Transmit.{send_socket}
use cse5462_network_programm.Tcpd.Rounds.{Rounds}
use cse5462_network_programm.Tcpd.Bounds.{SocketSent, send_socket-SocketSent}
use cse5462_network_programm.Tcpd.Samples.{machine, idle, local, half_sent, sending}
use cse5462_network_programm.Tcpd.Sender.{IsCounted, Reachable, SenderStep, Reachable-IsCounted}
use cse5462_network_programm.Tcpd.Table.{Keyed, total}

send_socket-SocketSent_example :
    SocketSent half_sent sending (send_socket machine half_sent sending)
send_socket-SocketSent_example = send_socket-SocketSent machine (λ _. refl) half_sent sending

abbrev ack_one : TrollAck
ack_one = record { header = local; check_sum = 0; session = 7; seq_num = 1 }

sending-IsCounted : IsCounted sending
unfolding Keyed total find_connected
sending-IsCounted = record { keyed = (refl, tt); counted = refl }

one_acknowledged : Reachable machine sending (ack_package ack_one half_sent sending)
unfolding find_connected
one_acknowledged =
    Reachable.then_step Reachable.here (SenderStep.acknowledges ack_one half_sent refl)

Reachable-IsCounted_example : IsCounted (ack_package ack_one half_sent sending)
Reachable-IsCounted_example =
    Reachable-IsCounted machine (λ _. refl) sending (ack_package ack_one half_sent sending)
      one_acknowledged sending-IsCounted

abbrev datagram : List ℕ → Option Datagram
datagram bytes = some (record { bytes = bytes; from_addr = local })

-- An application connects its descriptor 9.
abbrev connecting : Tcpd ℕ
connecting = record idle {
  inbox =
      datagram (67 ∷ 79 ∷ 78 ∷ 78 ∷ 69 ∷ 67 ∷ 84 ∷ 0 ∷ [])
      ∷ datagram (le_bytes 4 9)
      ∷ datagram (replicate 16 1)
      ∷ [];
}

abbrev on_front : Tcpd ℕ → Option Arrivals
on_front t =
    some (record { front = listens t; data_at = λ fd. none; ack_at = λ fd. none; timer = none })

front_of : Option Arrivals → Bool
front_of none = false
front_of (some a) = a.front

abbrev state_after : Tcpd ℕ → Outcome (Unit {0} × Tcpd ℕ) → Tcpd ℕ
state_after s (done p) = p.1
state_after s (exits n) = s
state_after s blocks = s

abbrev connected : Tcpd ℕ
connected = state_after connecting (main_round machine on_front connecting)
