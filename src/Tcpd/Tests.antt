-- ===== src/Tcpd/Tests.antt =====
-- The daemon of final/tcpd.c at work on small inputs, and its theorems there.
use cse5462_network_programm.Base.{ℕ, ◌≡◌, refl, List, [], ◌∷◌, arith, some, replicate}
use cse5462_network_programm.Base.Outcome.{done}
use cse5462_network_programm.Tcpd.{AckedSock, to_front}
use cse5462_network_programm.Tcpd.Samples.{machine, local, idle, frame_of}
use cse5462_network_programm.Tcpd.Receive.{receive_package}
use cse5462_network_programm.Tcpd.Back.{serve, fill, fill_fuel, fill_overruns, answer_recv, consume}
use cse5462_network_programm.Bytes.{copy_at}
use cse5462_network_programm.Tcpd.Kernel.{send_or_exit}
use cse5462_network_programm.Tcpd.Packages.{insert_package}
use cse5462_network_programm.Tcpd.Delivery.{span, Carries}
use cse5462_network_programm.Tcpd.Stream.{Waiting, receive_package-Waiting}

-- The chunk of number `q` is the byte `q`.
abbrev digits_stream : ℕ → List ℕ
digits_stream q = q ∷ []

-- The second package has come, the first has not.
abbrev early : AckedSock
early = record {
  socket_fd = 3;
  session = 7;
  base = 0;
  receiving_length = 2;
  receiving_addr = some local;
  packages = frame_of 1 ∷ [];
  recv_buffer = replicate 8 0;
  recv_buffer_size = 0;
}

frame_of-Carries : (q : ℕ) → Carries digits_stream (frame_of q)
frame_of-Carries q = record { carried = refl; whole = refl }

early-Waiting : Waiting digits_stream 0 2 early
unfolding span
early-Waiting = record {
  have = 0;
  need = 2;
  split = refl;
  reached = refl;
  copied = refl;
  asks = record {
    ordered = omega arith;
    genuine = (frame_of-Carries 1, tt);
    request = refl;
    room = omega arith;
    small = omega arith;
    numbers = omega arith;
  };
  positive = omega arith;
  allowed = omega arith;
}

receive_package-Waiting_example : Waiting digits_stream 0 2 (receive_package (frame_of 0) early)
receive_package-Waiting_example =
    receive_package-Waiting digits_stream 0 2 (frame_of 0) early (frame_of-Carries 0) early-Waiting

served_in_order :
    serve machine (receive_package (frame_of 0) early) idle
    ≡ done (
      record early {
        packages = [];
        base = 2;
        receiving_length = 0;
        recv_buffer = 0 ∷ 1 ∷ 0 ∷ 0 ∷ 0 ∷ 0 ∷ 0 ∷ 0 ∷ [];
      },
      record idle { calls = 1; log = to_front (0 ∷ 1 ∷ []) (some local) ∷ [] },
    )
unfolding serve receive_package answer_recv fill fill_overruns fill_fuel insert_package consume
    send_or_exit copy_at
served_in_order = refl
