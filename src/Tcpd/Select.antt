-- ===== src/Tcpd/Select.antt =====
-- What re_register_fd of final/tcpd.c has `select` wait for.
use cse5462_network_programm.Base.{
  ℕ, ◌≤◌, ◌≡◌, refl, ap, ◌↔◌, Bool, true, false, ◌||◌, List, [], ◌∷◌, ◌++◌, map, ◌==◌,
  if◌then◌else◌, arith, append_assoc, append-nil, ◌∙◌, subst, ◌⊎◌, inl, inr, Bool-cases,
}
use cse5462_network_programm.Base.Outcome.{Outcome, done, exits, overrun}
use cse5462_network_programm.Base.Int.{pos, ◌≤ℤ◌}
use cse5462_network_programm.Wire.{max_buffer_packages}
use cse5462_network_programm.Tcpd.{BindedSock, ConnectedSock, Tcpd}
use cse5462_network_programm.Tcpd.Loop.{
  listens, register, register_binded, register_connected, registered, fds_fit, re_register_fd,
}

-- Every number of the list is at most `n`.
unfoldable pub AtMost : ℕ → List ℕ → Type 0
AtMost n [] = Unit {0}
AtMost n (x ∷ l) = (x ≤ n) × AtMost n l

unfoldable pub is_in : ℕ → List ℕ → Bool
is_in n [] = false
is_in n (x ∷ l) = (x == n) || is_in n l

-- The descriptors registered, and the greatest of them.
pub record Registers (expected : List ℕ) (r : ℕ × List ℕ) : Type 0 where
  pub members : r.1 ≡ expected
  pub greatest : AtMost r.0 r.1
  pub attained : is_in r.0 r.1 ≡ true

AtMost-mono : {n k : ℕ} (l : List ℕ) → n ≤ k → AtMost n l → AtMost k l
unfolding AtMost
AtMost-mono [] h a = tt
AtMost-mono (x ∷ l) h a = (omega arith, AtMost-mono l h a.1)

AtMost-append : (n fd : ℕ) (l : List ℕ) → AtMost n l → fd ≤ n → AtMost n (l ++ fd ∷ [])
unfolding AtMost
AtMost-append n fd [] a h = (h, tt)
AtMost-append n fd (x ∷ l) a h = (a.0, AtMost-append n fd l a.1 h)

is_in-append : (n fd : ℕ) (l : List ℕ) → is_in n (l ++ fd ∷ []) ≡ (is_in n l || (fd == n))
unfolding is_in
is_in-append n fd [] = ground arith
is_in-append n fd (x ∷ l) = ground (arith, is_in-append n fd l)

register-Registers :
    (fd : ℕ) (expected : List ℕ) (r : ℕ × List ℕ)
    → Registers expected r
    → Registers (expected ++ fd ∷ []) (register fd r)
unfolding register
register-Registers fd expected r h = record {
  members = ap (λ l. l ++ fd ∷ []) h.members;
  greatest = AtMost-append _ fd r.1 (AtMost-mono r.1 (ground arith) h.greatest) (ground arith);
  attained = rw is_in-append (ground (arith, h.attained));
}

register_binded-Registers :
    (l : List BindedSock) (expected : List ℕ) (r : ℕ × List ℕ)
    → Registers expected r
    → Registers (expected ++ map (λ b. b.socket_fd) l) (register_binded l r)
unfolding register_binded
register_binded-Registers [] expected r h = rw append-nil h
register_binded-Registers (b ∷ l) expected r h =
    rw (← append_assoc expected (b.socket_fd ∷ []) (map (λ (x : BindedSock). x.socket_fd) l)) (
      register_binded-Registers l (expected ++ b.socket_fd ∷ []) (register b.socket_fd r)
        (register-Registers b.socket_fd expected r h))

register_connected-Registers :
    (l : List ConnectedSock) (expected : List ℕ) (r : ℕ × List ℕ)
    → Registers expected r
    → Registers (expected ++ map (λ c. c.socket_fd) l) (register_connected l r)
unfolding register_connected
register_connected-Registers [] expected r h = rw append-nil h
register_connected-Registers (c ∷ l) expected r h =
    rw (← append_assoc expected (c.socket_fd ∷ []) (map (λ (x : ConnectedSock). x.socket_fd) l)) (
      register_connected-Registers l (expected ++ c.socket_fd ∷ []) (register c.socket_fd r)
        (register-Registers c.socket_fd expected r h))

-- The descriptors that `select` is to wait for.
abbrev pub watched : {F : Type 0} → Tcpd F → List ℕ
watched s =
    ((s.sock_timer_driver ∷ (if listens s then s.sock ∷ [] else []))
      ++ map (λ (b : BindedSock). b.socket_fd) s.binded_sockets)
    ++ map (λ (c : ConnectedSock). c.socket_fd) s.connected_sockets

registered-Registers :
    {F : Type 0} (s : Tcpd F)
    → Registers (watched s) ((registered s).max_socket, (registered s).sock_fd)
unfolding registered
registered-Registers s =
    register_connected-Registers s.connected_sockets _ _
      (register_binded-Registers s.binded_sockets _ _ (go (listens s)))
  where
    alone : Registers (s.sock_timer_driver ∷ []) (s.sock_timer_driver, s.sock_timer_driver ∷ [])
    alone =
        unfold AtMost is_in in
        record { members = refl; greatest = (omega arith, tt); attained = ground arith }

    go :
        (b : Bool)
        → Registers (s.sock_timer_driver ∷ (if b then s.sock ∷ [] else [])) (
            if b
            then register s.sock (s.sock_timer_driver, s.sock_timer_driver ∷ [])
            else (s.sock_timer_driver, s.sock_timer_driver ∷ []))
    go true = register-Registers s.sock (s.sock_timer_driver ∷ []) _ alone
    go false = alone

-- What `re_register_fd` leaves: the set, and the greatest descriptor in it.
pub record Watches {F : Type 0} (s : Tcpd F) (r : Outcome (Unit {0} × Tcpd F)) : Type 0 where
  pub greatest : ℕ
  pub ran : r ≡ done (tt, record s { max_socket = greatest; sock_fd = watched s })
  pub above : AtMost greatest (watched s)
  pub attained : is_in greatest (watched s) ≡ true

registered-record :
    {F : Type 0} (s : Tcpd F)
    → registered s
      ≡ record s { max_socket = (registered s).max_socket; sock_fd = (registered s).sock_fd }
unfolding registered
registered-record s = refl

-- The descriptors to wait for are the timer's socket, the applications' socket exactly while fewer
-- than 64 packages are buffered, and every binded and every connected socket. Where one of them, the
-- 32 bits of an `int`, is not less than 1024, as a negative one is not, the model stops for a write
-- outside the set; otherwise the set for `select` is these, `max_socket` is the greatest of them, and
-- nothing else changes.
pub re_register_fd_lem :
    {F : Type 0} (s : Tcpd F)
    → (((fds_fit (watched s) ≡ false) × (re_register_fd s ≡ exits overrun))
        ⊎ ((fds_fit (watched s) ≡ true) × Watches s (re_register_fd s)))
      × ((listens s ≡ false) ↔ (pos max_buffer_packages ≤ℤ s.in_buffer_packages))
unfolding re_register_fd
re_register_fd_lem s =
    let set = registered-Registers s in
    (
      elim (Bool-cases (fds_fit (watched s))) [
        | inr e ↦
            let over : fds_fit (registered s).sock_fd ≡ false = ap fds_fit set.members ∙ e in
            inl (e, rw over refl)
        | inl e ↦
            let fit : fds_fit (registered s).sock_fd ≡ true = ap fds_fit set.members ∙ e in
            inr (
              e,
              record {
                greatest = (registered s).max_socket;
                ran = rw fit (
                    ap (λ t. done (tt, t))
                      (registered-record s
                        ∙ ap (λ l. record s { max_socket = (registered s).max_socket; sock_fd = l })
                            set.members));
                above = subst (AtMost (registered s).max_socket) set.members set.greatest;
                attained =
                    subst (λ l. is_in (registered s).max_socket l ≡ true) set.members set.attained;
              },
            )
      ],
      unfold listens in ground arith,
    )
