-- ===== src/Tcpd/Stream.antt =====
-- A request for whole chunks of the stream in final/tcpd.c: it is answered with just those chunks,
-- in order, as soon as all of them have arrived.
use cse5462_network_programm.Base.{
  ℕ, zero, suc, ◌+◌, ◌≤◌, ◌<◌, ◌≡◌, refl, ap, Bool, true, false, List, ◌++◌, ◌==◌, ltb,
  if◌then◌else◌, arith, take, append_assoc,
}
use cse5462_network_programm.Base.Outcome.{done}
use cse5462_network_programm.Wire.{TrollMessage, buf_len}
use cse5462_network_programm.Tcpd.{AckedSock, Tcpd, Machine}
use cse5462_network_programm.Tcpd.Receive.{receive_package}
use cse5462_network_programm.Tcpd.Packages.{insert_package}
use cse5462_network_programm.Tcpd.Back.{fill, fill_fuel, fill_overruns, answer_recv, serve}
use cse5462_network_programm.Tcpd.Order.{insert_package-Ascending, insert_package-All}
use cse5462_network_programm.Tcpd.Delivery.{span, Carries, Asks}

pub span-add :
    (chunk : ℕ → List ℕ) (b k n : ℕ) → span chunk b (k + n) ≡ span chunk b k ++ span chunk (b + k) n
unfolding span
span-add chunk b zero n =
    let e : 0 + n ≡ n = omega arith in let f : b + 0 ≡ b = omega arith in rw (e, f)
span-add chunk b (suc k) n =
    let e : suc k + n ≡ suc (k + n) = omega arith in
    let f : b + suc k ≡ suc b + k = omega arith in
    rw (e, f, append_assoc) (ap (◌++◌ (chunk b)) (span-add chunk (suc b) k n))

-- A socket with a request for the chunks `start` to `start + total - 1`, of which those below its
-- base are in the buffer.
pub record Waiting (chunk : ℕ → List ℕ) (start total : ℕ) (a : AckedSock) : Type 0 where
  pub have : ℕ
  pub need : ℕ
  pub split : total ≡ have + need
  pub reached : a.base ≡ start + have
  pub copied : take a.recv_buffer_size a.recv_buffer ≡ span chunk start have
  pub asks : Asks chunk need a
  pub positive : 0 < a.receiving_length
  pub allowed : a.receiving_length ≤ buf_len

-- A frame of the stream keeps such a request as it is, whichever frame it is and however often it
-- comes.
pub receive_package-Waiting :
    (chunk : ℕ → List ℕ) (start total : ℕ) (m : TrollMessage) (a : AckedSock)
    → Carries chunk m
    → Waiting chunk start total a
    → Waiting chunk start total (receive_package m a)
unfolding receive_package
receive_package-Waiting chunk start total m a c w = go (ltb m.seq_num a.base) refl
  where
    go :
        (b : Bool)
        → ltb m.seq_num a.base ≡ b
        → Waiting chunk start total
            (if b then a else record a { packages = insert_package m a.packages })
    go true e = w
    go false e = record {
      have = w.have;
      need = w.need;
      split = w.split;
      reached = w.reached;
      copied = w.copied;
      asks = record {
        ordered = insert_package-Ascending m a.base a.packages (ground arith) w.asks.ordered;
        genuine = insert_package-All (Carries chunk) m a.packages c w.asks.genuine;
        request = w.asks.request;
        room = w.asks.room;
        small = w.asks.small;
        numbers = w.asks.numbers;
      };
      positive = w.positive;
      allowed = w.allowed;
    }

module _ {F : Type 0} (env : Machine F) where
  pub serve_enough :
      (a : AckedSock) (s : Tcpd F)
      → 0 < a.receiving_length
      → a.receiving_length ≤ buf_len
      → fill_overruns (fill_fuel a.packages) a ≡ false
      → serve env a s ≡ answer_recv env (fill (fill_fuel a.packages) a) s
  unfolding serve
  serve_enough a s p q r =
      let e : ltb 0 a.receiving_length ≡ true = ground arith in
      let f : ltb buf_len a.receiving_length ≡ false = ground arith in rw (e, f, r)

  pub answer_part :
      (a : AckedSock) (s : Tcpd F)
      → (a.recv_buffer_size == a.receiving_length) ≡ false
      → answer_recv env a s ≡ done (a, s)
  unfolding answer_recv
  answer_part a s e = rw e
