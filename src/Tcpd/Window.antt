-- ===== src/Tcpd/Window.antt =====
-- The sender's window of final/tcpd.c: what handle_send_all_back sends, and that no package of a
-- socket is lost or doubled on its way between the two lists.
use mathlib.Core.List.{Perm, perm_middle}
use mathlib.Core.List.Perm
use cse5462_network_programm.Base.{
  ℕ, suc, ◌≡◌, refl, sym, ap, ◌∙◌, inl, inr, Bool, true, false, not, List, [], ◌∷◌, ◌++◌,
  if◌then◌else◌, Bool-cases, append-nil, append_assoc, Option, none, some, map,
}
use cse5462_network_programm.Base.Outcome.{done}
use cse5462_network_programm.Wire.{TrollMessage}
use cse5462_network_programm.Tcpd.{
  ConnectedSock, Tcpd, Machine, Sent, to_front, frame, ack, start_timer, cancel_timer,
}
use cse5462_network_programm.Tcpd.Kernel.{sendto, send_or_exit, gettimeofday}
use cse5462_network_programm.Tcpd.Packages.{remove_package, same_package}
use cse5462_network_programm.Tcpd.Transmit.{
  in_window, jacobson, send_package, send_pending, send_socket, min_seq_of, no_min_seq,
}

-- All packages of a socket, sent or pending.
abbrev pub all_packages : ConnectedSock → List TrollMessage
all_packages c = c.packages ++ c.pending_packages

unfoldable pub select_packages : (TrollMessage → Bool) → List TrollMessage → List TrollMessage
select_packages p [] = []
select_packages p (m ∷ l) = if p m then m ∷ select_packages p l else select_packages p l

-- The frames in a stretch of the log, each with the socket that it went through.
unfoldable pub frames_of : {F : Type 0} → List (Sent F) → List (ℕ × TrollMessage)
frames_of [] = []
frames_of (frame fd m ∷ l) = (fd, m) ∷ frames_of l
frames_of (to_front b a ∷ l) = frames_of l
frames_of (ack fd a ∷ l) = frames_of l
frames_of (start_timer s q x ∷ l) = frames_of l
frames_of (cancel_timer s q ∷ l) = frames_of l

-- The timers started in it, by session and number.
unfoldable pub timers_of : {F : Type 0} → List (Sent F) → List (ℕ × ℕ)
timers_of [] = []
timers_of (start_timer s q x ∷ l) = (s, q) ∷ timers_of l
timers_of (frame fd m ∷ l) = timers_of l
timers_of (to_front b a ∷ l) = timers_of l
timers_of (ack fd a ∷ l) = timers_of l
timers_of (cancel_timer s q ∷ l) = timers_of l

partition-perm :
    (p : TrollMessage → Bool) (l : List TrollMessage)
    → Perm (select_packages p l ++ select_packages (λ m. not (p m)) l) l
unfolding select_packages
partition-perm p [] = Perm.refl []
partition-perm p (m ∷ l) = elim (Bool-cases (p m)) [
  | inl e ↦ rw e (Perm.cons m (partition-perm p l))
  | inr e ↦ rw e (
      Perm.trans (perm_middle (select_packages p l) (select_packages (λ x. not (p x)) l))
        (Perm.cons m (partition-perm p l)))
]

-- What sending some of the pending packages comes to.
pub record Sends {F : Type 0} (fd min_seq : ℕ) (pending : List TrollMessage) (s : Tcpd F)
    (s' : Tcpd F) : Type 0 where
  pub extra : List (Sent F)
  pub logged : s'.log ≡ s.log ++ extra
  pub frames : frames_of extra ≡ map (λ m. (fd, m)) (select_packages (in_window min_seq) pending)
  pub timers :
      timers_of extra
      ≡ map
          (λ (m : TrollMessage). (m.session, m.seq_num))
          (select_packages (in_window min_seq) pending)
  pub others :
      (s'.connected_sockets ≡ s.connected_sockets)
      × (s'.in_buffer_packages ≡ s.in_buffer_packages)
      × (s'.acked_sockets ≡ s.acked_sockets)
      × (s'.waiting_ack_sockets ≡ s.waiting_ack_sockets)
      × (s'.binded_sockets ≡ s.binded_sockets)

module _ {F : Type 0} (env : Machine F) (sends : (n : ℕ) → env.succeeds n ≡ true) where
  -- One package: a frame, then its timer.
  send_package_lem :
      (fd : ℕ) (m : TrollMessage) (s : Tcpd F)
      → (s' : Tcpd F) × (send_package env fd m s ≡ done (tt, s'))
        × (s'.log ≡ s.log ++ frame fd m ∷ start_timer m.session m.seq_num s'.estimator.rto ∷ [])
        × (s'.connected_sockets ≡ s.connected_sockets)
        × (s'.in_buffer_packages ≡ s.in_buffer_packages)
        × (s'.acked_sockets ≡ s.acked_sockets)
        × (s'.waiting_ack_sockets ≡ s.waiting_ack_sockets)
        × (s'.binded_sockets ≡ s.binded_sockets)
  unfolding send_package send_or_exit sendto gettimeofday
  send_package_lem fd m s = (
    record s {
      calls = suc (suc (suc s.calls));
      log =
          (s.log ++ frame fd m ∷ [])
          ++ start_timer m.session m.seq_num (jacobson env s.estimator).rto ∷ [];
      send_time = env.clock (suc s.calls);
      estimator = jacobson env s.estimator;
    },
    rw (sends s.calls, sends (suc (suc s.calls))) refl,
    append_assoc s.log (frame fd m ∷ [])
        (start_timer m.session m.seq_num (jacobson env s.estimator).rto ∷ []),
    refl,
    refl,
    refl,
    refl,
    refl,
  )

  send_pending_lem :
      (fd min_seq : ℕ) (l : List TrollMessage) (s : Tcpd F)
      → (s' : Tcpd F) × (send_pending env fd min_seq l s
          ≡ done (
            (
              select_packages (in_window min_seq) l,
              select_packages (λ m. not (in_window min_seq m)) l,
            ),
            s',
          ))
        × Sends fd min_seq l s s'
  unfolding send_pending select_packages frames_of timers_of
  send_pending_lem fd min_seq [] s = (
    s,
    refl,
    record {
      extra = [];
      logged = sym (append-nil s.log);
      frames = refl;
      timers = refl;
      others = (refl, refl, refl, refl, refl);
    },
  )
  send_pending_lem fd min_seq (m ∷ l) s = elim (Bool-cases (in_window min_seq m)) [
    | inl e ↦
        let (s1, ran, log1, o0, o1, o2, o3, o4) = send_package_lem fd m s in
        let (s2, rest, t) = send_pending_lem fd min_seq l s1 in
        (
          s2,
          rw (e, ran, rest) refl,
          record {
            extra = frame fd m ∷ start_timer m.session m.seq_num s1.estimator.rto ∷ t.extra;
            logged =
                t.logged
                ∙ ap (λ g. g ++ t.extra) log1
                ∙ append_assoc s.log
                    (frame fd m ∷ start_timer m.session m.seq_num s1.estimator.rto ∷ []) t.extra;
            frames = rw e (ap (◌∷◌ (fd, m)) t.frames);
            timers = rw e (ap (◌∷◌ (m.session, m.seq_num)) t.timers);
            others = (
              t.others.0 ∙ o0,
              t.others.1 ∙ o1,
              t.others.2 ∙ o2,
              t.others.3 ∙ o3,
              t.others.4 ∙ o4,
            );
          },
        )
    | inr e ↦
        let (s2, rest, t) = send_pending_lem fd min_seq l s in
        (
          s2,
          rw (e, rest) refl,
          record {
            extra = t.extra;
            logged = t.logged;
            frames = rw e t.frames;
            timers = rw e t.timers;
            others = t.others;
          },
        )
  ]

  -- handle_send_all_back sends, of one socket's pending packages, exactly those whose number is
  -- within the window above the least number that is not acknowledged, each as one frame through
  -- the socket and with a timer of its session and number; these go behind the packages sent
  -- before, the others stay pending in their order, and no package is lost or doubled. It is
  -- supposed that every datagram can be sent.
  pub send_socket_lem :
      (c : ConnectedSock) (s : Tcpd F)
      → let low = min_seq_of no_min_seq c.packages in
        (c' : ConnectedSock) × (s' : Tcpd F) × (send_socket env c s ≡ done (c', s'))
        × Sends c.socket_fd low c.pending_packages s s'
        × (c'.packages ≡ c.packages ++ select_packages (in_window low) c.pending_packages)
        × (c'.pending_packages ≡ select_packages (λ m. not (in_window low m)) c.pending_packages)
        × Perm (all_packages c') (all_packages c)
        × (c'.socket_fd ≡ c.socket_fd)
        × (c'.session ≡ c.session)
        × (c'.base ≡ c.base)
  unfolding send_socket
  send_socket_lem c s =
      let low = min_seq_of no_min_seq c.packages in
      let sent = select_packages (in_window low) c.pending_packages in
      let kept = select_packages (λ m. not (in_window low m)) c.pending_packages in
      let (s', ran, t) = send_pending_lem c.socket_fd low c.pending_packages s in
      (
        record c { min_seq = low; packages = c.packages ++ sent; pending_packages = kept },
        s',
        rw ran refl,
        t,
        refl,
        refl,
        rw (append_assoc c.packages sent kept) (
            Perm.append (Perm.refl c.packages) (partition-perm (in_window low) c.pending_packages)),
        refl,
        refl,
        refl,
      )

-- A removed package is one of the list, of the session and number asked for; the rest is what was
-- there beside it.
pub record Removed (session seq_num : ℕ) (l : List TrollMessage) (m : TrollMessage)
    (rest : List TrollMessage) : Type 0 where
  pub named : same_package session seq_num m ≡ true
  pub parts : Perm (m ∷ rest) l

abbrev pub Removal : ℕ → ℕ → List TrollMessage → Option (TrollMessage × List TrollMessage) → Type 0
Removal session seq_num l none = select_packages (same_package session seq_num) l ≡ []
Removal session seq_num l (some r) = Removed session seq_num l r.0 r.1

pub remove_package-Removal :
    (session seq_num : ℕ) (l : List TrollMessage)
    → Removal session seq_num l (remove_package session seq_num l)
unfolding remove_package select_packages
remove_package-Removal session seq_num [] = refl
remove_package-Removal session seq_num (p ∷ l) =
    go (same_package session seq_num p) refl (remove_package session seq_num l)
      (remove_package-Removal session seq_num l)
  where
    go :
        (b : Bool)
        → same_package session seq_num p ≡ b
        → (o : Option (TrollMessage × List TrollMessage)) → Removal session seq_num l o
        → Removal session seq_num
            (p ∷ l)
            (if b then some (p, l) else elim o [ none ↦ none | some r ↦ some (r.0, p ∷ r.1) ])
    go true e o h = record { named = e; parts = Perm.refl (p ∷ l) }
    go false e none h = rw e h
    go false e (some r) h = record {
      named = h.named;
      parts = Perm.trans (Perm.swap p r.0 r.1) (Perm.cons p h.parts);
    }
