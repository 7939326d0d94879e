-- ===== src/Tcpd/Keeps.antt =====
-- Predicates on the state of final/tcpd.c that operations keep, and the system calls, which keep all
-- those that look at the lists of sockets and the count of packages only.
use cse5462_network_programm.Base.{
  ℕ, ◌≡◌, refl, true, false, Bool, Bool-cases, inl, inr, List, [], ◌∷◌, none, some, if◌then◌else◌,
}
use cse5462_network_programm.Base.Outcome.{Holds, >>=-Holds}
use cse5462_network_programm.Tcpd.{Tcpd, Machine, Sent}
use cse5462_network_programm.Tcpd.Kernel.{
  M, ◌>>=◌, sendto, send_or_exit, malloc, rand, gettimeofday, socket_or_exit, bind_or_exit,
  recv_buf, recv_front,
}

-- If an operation that starts where `P` holds ends, `P` holds there too.
abbrev pub Keeps : {F A : Type 0} → (Tcpd F → Type 0) → M F A → Type 0
Keeps P m = (s : Tcpd _) → P s → Holds (λ p. P p.1) (m s)

pub >>=-Keeps :
    {F A B : Type 0} {P : Tcpd F → Type 0} (m : M F A) (f : A → M F B)
    → Keeps P m
    → ((a : A) → Keeps P (f a))
    → Keeps P (m >>= f)
>>=-Keeps {P = P} m f h k s i =
    >>=-Holds (λ p. P p.1) (λ p. P p.1) (m s) (λ p. f p.0 p.1) (h s i) (λ p. k p.0 p.1)

pub if-Keeps :
    {F A : Type 0} {P : Tcpd F → Type 0} (b : Bool) (m k : M F A)
    → Keeps P m
    → Keeps P k
    → Keeps P (if b then m else k)
if-Keeps true m k h h' = h
if-Keeps false m k h h' = h'

-- Does `P` look at the connected sockets and the count only?
abbrev pub IsSender : {F : Type 0} → (Tcpd F → Type 0) → Type 0
IsSender P =
    (s t : Tcpd _)
    → t.connected_sockets ≡ s.connected_sockets
    → t.in_buffer_packages ≡ s.in_buffer_packages
    → P s
    → P t

-- Does it look at these and at the sockets that receive only?
abbrev pub IsSteady : {F : Type 0} → (Tcpd F → Type 0) → Type 0
IsSteady P =
    (s t : Tcpd _)
    → t.connected_sockets ≡ s.connected_sockets
    → t.in_buffer_packages ≡ s.in_buffer_packages
    → t.acked_sockets ≡ s.acked_sockets
    → t.waiting_ack_sockets ≡ s.waiting_ack_sockets
    → P s
    → P t

-- Does it look at the sockets that receive only?
abbrev pub IsReceiver : {F : Type 0} → (Tcpd F → Type 0) → Type 0
IsReceiver P =
    (s t : Tcpd _)
    → t.acked_sockets ≡ s.acked_sockets
    → t.waiting_ack_sockets ≡ s.waiting_ack_sockets
    → P s
    → P t

pub IsReceiver-IsSteady : {F : Type 0} {P : Tcpd F → Type 0} → IsReceiver P → IsSteady P
IsReceiver-IsSteady receiver s t e f g h i = receiver s t g h i

pub IsSender-IsSteady : {F : Type 0} {P : Tcpd F → Type 0} → IsSender P → IsSteady P
IsSender-IsSteady sender s t e f g h i = sender s t e f i

module _ {F : Type 0} (env : Machine F) {P : Tcpd F → Type 0} (steady : IsSteady P) where
  pub sendto-Keeps : (x : Sent F) → Keeps P (sendto env x)
  unfolding sendto
  sendto-Keeps x s i = elim (Bool-cases (env.succeeds s.calls)) [
    | inl e ↦ rw e (steady s _ refl refl refl refl i)
    | inr e ↦ rw e (steady s _ refl refl refl refl i)
  ]

  pub send_or_exit-Keeps : (code : ℕ) (x : Sent F) → Keeps P (send_or_exit env code x)
  unfolding send_or_exit
  send_or_exit-Keeps code x =
      >>=-Keeps {P = P} (sendto env x) _ (sendto-Keeps x)
        (λ b. if-Keeps {P = P} b _ _ (λ s i. i) (λ s i. tt))

  pub gettimeofday-Keeps : Keeps P (gettimeofday env)
  unfolding gettimeofday
  gettimeofday-Keeps s i = steady s _ refl refl refl refl i

  pub rand-Keeps : Keeps P (rand env)
  unfolding rand
  rand-Keeps s i = steady s _ refl refl refl refl i

  pub malloc-Keeps : Keeps P (malloc env)
  unfolding malloc
  malloc-Keeps s i = steady s _ refl refl refl refl i

  pub socket_or_exit-Keeps : (code : ℕ) → Keeps P (socket_or_exit env code)
  unfolding socket_or_exit
  socket_or_exit-Keeps code s i = elim (Bool-cases (env.succeeds s.calls)) [
    | inl e ↦ rw e (steady s _ refl refl refl refl i)
    | inr e ↦ rw e tt
  ]

  pub bind_or_exit-Keeps : (code : ℕ) → Keeps P (bind_or_exit env code)
  unfolding bind_or_exit
  bind_or_exit-Keeps code s i = elim (Bool-cases (env.succeeds s.calls)) [
    | inl e ↦ rw e (steady s _ refl refl refl refl i)
    | inr e ↦ rw e tt
  ]

module _ {F : Type 0} {P : Tcpd F → Type 0} (steady : IsSteady P) where
  pub recv_buf-Keeps : (k : ℕ) → Keeps P (recv_buf {F = F} k)
  unfolding recv_buf
  recv_buf-Keeps k s i = go s.inbox refl
    where
      go : (l : List _) → s.inbox ≡ l → Holds (λ p. P p.1) (recv_buf k s)
      go [] e = rw (e, recv_buf) tt
      go (none ∷ l) e = rw (e, recv_buf) tt
      go (some d ∷ l) e = rw (e, recv_buf) (steady s _ refl refl refl refl i)

  pub recv_front-Keeps : (k : ℕ) → Keeps P (recv_front {F = F} k)
  unfolding recv_front
  recv_front-Keeps k s i = recv_buf-Keeps k _ (steady s _ refl refl refl refl i)
