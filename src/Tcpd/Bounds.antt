-- ===== src/Tcpd/Bounds.antt =====
-- What handle_send_all_back of final/tcpd.c sends of one socket, against the window as it is meant:
-- 64 numbers from the least one that is not acknowledged.
use mathlib.Core.List.{Perm}
use cse5462_network_programm.Base.{
  ℕ, ◌+◌, ◌%◌, ◌^◌, ◌≤◌, ◌≡◌, refl, ◌∙◌, ap, ◌⊎◌, inl, Bool, true, not, List, [], ◌∷◌, ◌++◌, map,
  ltb, if◌then◌else◌, arith,
}
use cse5462_network_programm.Base.Outcome.{Outcome, done}
use cse5462_network_programm.Wire.{TrollMessage, max_buffer_packages}
use cse5462_network_programm.Tcpd.{ConnectedSock, Tcpd, Machine, Sent}
use cse5462_network_programm.Tcpd.Order.{All, holds}
use cse5462_network_programm.Tcpd.Transmit.{in_window, min_seq_of, no_min_seq, send_socket}
use cse5462_network_programm.Tcpd.Window.{
  all_packages, select_packages, frames_of, timers_of, send_socket_lem,
}

-- The least of the numbers, at most that of MinSeq where nothing is sent.
pub record IsLeast (low : ℕ) (l : List TrollMessage) : Type 0 where
  pub bound : low ≤ no_min_seq
  pub below : All (λ m. low ≤ m.seq_num) l
  pub attained : (low ≡ no_min_seq) ⊎ (holds low l ≡ true)

All-mono :
    {low high : ℕ} (l : List TrollMessage)
    → low ≤ high
    → All (λ m. high ≤ m.seq_num) l
    → All (λ m. low ≤ m.seq_num) l
All-mono [] h a = tt
All-mono (m ∷ l) h a = (omega arith, All-mono l h a.1)

min_seq_of-le : (acc : ℕ) (l : List TrollMessage) → min_seq_of acc l ≤ acc
unfolding min_seq_of
min_seq_of-le acc [] = omega arith
min_seq_of-le acc (m ∷ l) =
    ground (arith, min_seq_of-le (if ltb m.seq_num acc then m.seq_num else acc) l)

min_seq_of-below : (acc : ℕ) (l : List TrollMessage) → All (λ m. min_seq_of acc l ≤ m.seq_num) l
unfolding min_seq_of
min_seq_of-below acc [] = tt
min_seq_of-below acc (m ∷ l) = (
  ground (arith, min_seq_of-le (if ltb m.seq_num acc then m.seq_num else acc) l),
  min_seq_of-below (if ltb m.seq_num acc then m.seq_num else acc) l,
)

min_seq_of-attained :
    (acc : ℕ) (l : List TrollMessage)
    → (min_seq_of acc l ≡ acc) ⊎ (holds (min_seq_of acc l) l ≡ true)
unfolding min_seq_of holds
min_seq_of-attained acc [] = inl refl
min_seq_of-attained acc (m ∷ l) =
    ground (arith, min_seq_of-attained (if ltb m.seq_num acc then m.seq_num else acc) l)

-- The number of MinSeq for the packages sent is their least number.
pub min_seq_of-IsLeast : (l : List TrollMessage) → IsLeast (min_seq_of no_min_seq l) l
min_seq_of-IsLeast l = record {
  bound = min_seq_of-le no_min_seq l;
  below = min_seq_of-below no_min_seq l;
  attained = min_seq_of-attained no_min_seq l;
}

-- Is the number in the window that begins at `low`?
abbrev pub near : ℕ → TrollMessage → Bool
near low m = ltb m.seq_num (low + max_buffer_packages)

in_window-near : (low : ℕ) (m : TrollMessage) → low ≤ no_min_seq → in_window low m ≡ near low m
unfolding in_window
in_window-near low m h =
    let small : (low + max_buffer_packages) % 2 ^ 32 ≡ low + max_buffer_packages = omega arith in
    rw small

select-near :
    (low : ℕ) (l : List TrollMessage)
    → low ≤ no_min_seq
    → (select_packages (in_window low) l ≡ select_packages (near low) l)
      × (select_packages (λ m. not (in_window low m)) l ≡ select_packages (λ m. not (near low m)) l)
unfolding select_packages
select-near low [] h = (refl, refl)
select-near low (m ∷ l) h =
    let (a, b) = select-near low l h in
    (rw (in_window-near low m h, a), rw (in_window-near low m h, b))

-- What sending of one socket comes to: `extra` is what the log grows by.
pub record SocketSent {F : Type 0} (c : ConnectedSock) (s : Tcpd F)
    (r : Outcome (ConnectedSock × Tcpd F)) : Type 0 where
  pub low : ℕ
  pub least : IsLeast low c.packages
  pub after : ConnectedSock
  pub state : Tcpd F
  pub ran : r ≡ done (after, state)
  pub packages : after.packages ≡ c.packages ++ select_packages (near low) c.pending_packages
  pub pending : after.pending_packages ≡ select_packages (λ m. not (near low m)) c.pending_packages
  pub kept : Perm (all_packages after) (all_packages c)
  pub extra : List (Sent F)
  pub logged : state.log ≡ s.log ++ extra
  pub frames :
      frames_of extra ≡ map (λ m. (c.socket_fd, m)) (select_packages (near low) c.pending_packages)
  pub timers :
      timers_of extra
      ≡ map
          (λ (m : TrollMessage). (m.session, m.seq_num))
          (select_packages (near low) c.pending_packages)

-- Of one socket's pending packages handle_send_all_back sends exactly those whose number is less
-- than 64 above the least number that is sent and not acknowledged, or above 100000000 where that is
-- smaller or there is none, each as one frame through the socket and with one timer of its session and number. These go
-- behind the packages sent before, the others stay pending in their order, and no package is lost
-- or doubled, if every datagram can be sent.
pub send_socket-SocketSent :
    {F : Type 0} (env : Machine F)
    → ((n : ℕ) → env.succeeds n ≡ true)
    → (c : ConnectedSock) (s : Tcpd F) → SocketSent c s (send_socket env c s)
send_socket-SocketSent env succeeds c s =
    let (c', s', ran, t, ps, qs, perm, fd, session, base) = send_socket_lem env succeeds c s in
    let low = min_seq_of no_min_seq c.packages in
    let least = min_seq_of-IsLeast c.packages in
    let (same, same_rest) = select-near low c.pending_packages least.bound in
    record {
      low = low;
      least = least;
      after = c';
      state = s';
      ran = ran;
      packages = ps ∙ ap (◌++◌ c.packages) same;
      pending = qs ∙ same_rest;
      kept = perm;
      extra = t.extra;
      logged = t.logged;
      frames = t.frames ∙ ap (map (λ m. (c.socket_fd, m))) same;
      timers = t.timers ∙ ap (map (λ (m : TrollMessage). (m.session, m.seq_num))) same;
    }
