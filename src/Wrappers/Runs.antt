-- ===== src/Wrappers/Runs.antt =====
-- The calls of final/tcpudp.c one after another: what each sends, and what it returns for an answer.
use cse5462_network_programm.Base.{
  ℕ, suc, ◌^◌, ◌<◌, ◌≡◌, refl, sym, ap, subst, ◌∙◌, true, List, [], ◌∷◌, ◌++◌, Option, some, arith,
  append_assoc, append-nil, length, take, replicate, ltb,
}
use cse5462_network_programm.Base.Int.{pos}
use cse5462_network_programm.Base.Outcome.{Outcome, done}
use cse5462_network_programm.Bytes.{le_bytes, of_bytes, copy_at}
use cse5462_network_programm.Wire.{SockAddr}
use cse5462_network_programm.Wrappers.{
  Caller, System, W, ◌>>=◌, tcpd_msg, addr_bytes, send_tcpd, recv_number, recv_into, to_int,
  call_socket, call_accept, call_recv, call_connect, call_send,
}
use cse5462_network_programm.Wrappers.Requests.{send_requests, call_send_lem, take_all}

-- A run from `w` that returns `a`, has sent `requests` and leaves the answers `rest` to be read.
pub record Ran {A : Type 0} (w : Caller) (r : Outcome (A × Caller)) (a : A)
    (requests : List (List ℕ)) (rest : List (Option (List ℕ))) : Type 0 where
  pub after : Caller
  pub ran : r ≡ done (a, after)
  pub sent : after.sent ≡ w.sent ++ requests
  pub inbox : after.inbox ≡ rest

-- A run that sends nothing and reads nothing.
pub pure-Ran :
    {A : Type 0} (w : Caller) (a : A) {rest : List (Option (List ℕ))}
    → w.inbox ≡ rest
    → Ran w (done (a, w)) a [] rest
pure-Ran w a e = record { after = w; ran = refl; sent = sym (append-nil w.sent); inbox = e }

pub equal-Ran :
    {A : Type 0} (w : Caller) (a b : A) {rest : List (Option (List ℕ))}
    → a ≡ b
    → w.inbox ≡ rest
    → Ran w (done (a, w)) b [] rest
equal-Ran w a b {rest} p e = subst (λ x. Ran w (done (a, w)) x [] rest) p (pure-Ran w a e)

pub >>=-Ran :
    {A B : Type 0} (m : W A) (f : A → W B) (w : Caller) (a : A) (b : B) (q1 q2 : List (List ℕ))
    (r1 r2 : List (Option (List ℕ)))
    → Ran w (m w) a q1 r1
    → ((v : Caller) → v.inbox ≡ r1 → Ran v (f a v) b q2 r2)
    → Ran w ((m >>= f) w) b (q1 ++ q2) r2
>>=-Ran m f w a b q1 q2 r1 r2 h k =
    let t = k h.after h.inbox in
    record {
      after = t.after;
      ran = rw (h.ran) t.ran;
      sent = t.sent ∙ ap (λ l. l ++ q2) h.sent ∙ append_assoc w.sent q1 q2;
      inbox = t.inbox;
    }

-- What RECV sends.
abbrev pub recv_requests : ℕ → ℕ → List (List ℕ)
recv_requests sock len = tcpd_msg "RECV" ∷ le_bytes 4 sock ∷ le_bytes 8 len ∷ []

module _ (system : System) (works : (n : ℕ) → system.succeeds n ≡ true) where
  pub call_send-Ran :
      (sock n : ℕ) (bytes : List ℕ) (rest : List (Option (List ℕ))) (w : Caller)
      → n < 2 ^ 32
      → w.inbox ≡ some (le_bytes 4 n) ∷ rest
      → Ran w (call_send system sock bytes w) (pos n) (send_requests sock bytes) rest
  call_send-Ran sock n bytes rest w h e =
      subst
        (λ box.
          Ran (record w { inbox = box }) (call_send system sock bytes (record w { inbox = box }))
            (pos n) (send_requests sock bytes) rest)
        (sym e)
        (let (after, ran, sent, inbox) = call_send_lem system works sock n bytes rest w h in
          record { after = after; ran = ran; sent = sent; inbox = inbox })

  pub call_recv-Ran :
      (sock : ℕ) (buffer bytes : List ℕ) (rest : List (Option (List ℕ))) (w : Caller)
      → w.inbox ≡ some bytes ∷ rest
      → Ran w
          (call_recv system sock buffer (length bytes) w)
          (pos (length bytes), copy_at 0 bytes buffer)
          (recv_requests sock (length bytes))
          rest
  unfolding call_recv send_tcpd recv_into
  call_recv-Ran sock buffer bytes rest w e =
      subst
        (λ box.
          Ran (record w { inbox = box })
            (call_recv system sock buffer (length bytes) (record w { inbox = box }))
            (pos (length bytes), copy_at 0 bytes buffer) (recv_requests sock (length bytes)) rest)
        (sym e)
        (record {
          after = record w {
            calls = suc (suc (suc w.calls));
            sent =
                ((w.sent ++ tcpd_msg "RECV" ∷ []) ++ le_bytes 4 sock ∷ [])
                ++ le_bytes 8 (length bytes) ∷ [];
            inbox = rest;
          };
          ran =
              rw (works w.calls, works (suc w.calls), works (suc (suc w.calls)), take_all bytes)
                refl;
          sent = simp append_assoc;
          inbox = refl;
        })

four_number :
    (n : ℕ) (array : List ℕ)
    → n < 2 ^ 32
    → of_bytes (take 4 (copy_at 0 (take 4 (le_bytes 4 n)) (copy_at 0 (replicate 4 0) array))) ≡ n
unfolding of_bytes le_bytes copy_at
four_number n array h = omega (arith, h)

module _ (system : System) (works : (n : ℕ) → system.succeeds n ≡ true) where
  pub call_socket-Ran :
      (n : ℕ) (rest : List (Option (List ℕ))) (w : Caller)
      → n < 2 ^ 31
      → w.inbox ≡ some (le_bytes 4 n) ∷ rest
      → Ran w (call_socket system w) (pos n) (tcpd_msg "SOCKET" ∷ []) rest
  unfolding call_socket send_tcpd recv_number recv_into to_int
  call_socket-Ran n rest w h e =
      subst
        (λ box.
          Ran (record w { inbox = box }) (call_socket system (record w { inbox = box })) (pos n)
            (tcpd_msg "SOCKET" ∷ []) rest)
        (sym e)
        (let small : ltb n (2 ^ 31) ≡ true = ground arith in
          record {
            after = record w {
              calls = suc w.calls;
              sent = w.sent ++ tcpd_msg "SOCKET" ∷ [];
              inbox = rest;
              buf = copy_at 0 (take 4 (le_bytes 4 n)) (copy_at 0 (replicate 4 0) w.buf);
            };
            ran = rw (works w.calls, four_number n w.buf (omega (arith, h)), small) refl;
            sent = refl;
            inbox = refl;
          })

  pub call_accept-Ran :
      (listener n : ℕ) (rest : List (Option (List ℕ))) (w : Caller)
      → n < 2 ^ 31
      → w.inbox ≡ some (le_bytes 4 n) ∷ rest
      → Ran w
          (call_accept system listener w)
          (pos n)
          (tcpd_msg "ACCEPT" ∷ le_bytes 4 listener ∷ [])
          rest
  unfolding call_accept send_tcpd recv_number recv_into to_int
  call_accept-Ran listener n rest w h e =
      subst
        (λ box.
          Ran (record w { inbox = box }) (call_accept system listener (record w { inbox = box }))
            (pos n) (tcpd_msg "ACCEPT" ∷ le_bytes 4 listener ∷ []) rest)
        (sym e)
        (let small : ltb n (2 ^ 31) ≡ true = ground arith in
          record {
            after = record w {
              calls = suc (suc w.calls);
              sent = (w.sent ++ tcpd_msg "ACCEPT" ∷ []) ++ le_bytes 4 listener ∷ [];
              inbox = rest;
              buf = copy_at 0 (take 4 (le_bytes 4 n)) (copy_at 0 (replicate 4 0) w.buf);
            };
            ran =
                rw
                  (
                    works w.calls,
                    works (suc w.calls),
                    four_number n w.buf (omega (arith, h)),
                    small,
                  )
                  refl;
            sent = simp append_assoc;
            inbox = refl;
          })

  pub call_connect-Ran :
      (sock n : ℕ) (addr : SockAddr) (rest : List (Option (List ℕ))) (w : Caller)
      → n < 2 ^ 31
      → w.inbox ≡ some (le_bytes 4 n) ∷ rest
      → Ran w
          (call_connect system sock addr w)
          (pos n)
          (tcpd_msg "CONNECT" ∷ le_bytes 4 sock ∷ addr_bytes addr ∷ [])
          rest
  unfolding call_connect send_tcpd recv_number recv_into to_int
  call_connect-Ran sock n addr rest w h e =
      subst
        (λ box.
          Ran (record w { inbox = box }) (call_connect system sock addr (record w { inbox = box }))
            (pos n) (tcpd_msg "CONNECT" ∷ le_bytes 4 sock ∷ addr_bytes addr ∷ []) rest)
        (sym e)
        (let small : ltb n (2 ^ 31) ≡ true = ground arith in
          record {
            after = record w {
              calls = suc (suc (suc w.calls));
              sent =
                  ((w.sent ++ tcpd_msg "CONNECT" ∷ []) ++ le_bytes 4 sock ∷ [])
                  ++ addr_bytes addr ∷ [];
              inbox = rest;
              buf = copy_at 0 (take 4 (le_bytes 4 n)) (copy_at 0 (replicate 4 0) w.buf);
            };
            ran =
                rw
                  (
                    works w.calls,
                    works (suc w.calls),
                    works (suc (suc w.calls)),
                    four_number n w.buf (omega (arith, h)),
                    small,
                  )
                  refl;
            sent = simp append_assoc;
            inbox = refl;
          })
