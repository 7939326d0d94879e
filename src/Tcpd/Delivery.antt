-- ===== src/Tcpd/Delivery.antt =====
-- Reliable delivery by final/tcpd.c: whatever frames the network brings, in whatever order and
-- however often, an application that asks for whole chunks of the stream gets them in order.
use cse5462_network_programm.Base.{
  ℕ, zero, suc, ◌+◌, ◌^◌, ◌≤◌, ◌<◌, ◌≡◌, refl, sym, ap, subst, ◌∙◌, ◌⊎◌, inl, inr, true, false,
  List, [], ◌∷◌, ◌++◌, ◌==◌, ltb, leb, arith, Bool-cases, length, take, length-append, append-nil,
  append_assoc,
}
use cse5462_network_programm.Bytes.{copy_at, take-copy_at, length-copy_at, u32, u64}
use cse5462_network_programm.Wire.{TrollMessage}
use cse5462_network_programm.Tcpd.{AckedSock}
use cse5462_network_programm.Wire.{buf_len}
use cse5462_network_programm.Tcpd.Back.{consume, fill, fill_fuel, fill_overruns}
use cse5462_network_programm.Tcpd.Order.{Ascending, All, holds, holds_below}

-- The chunks `b`, `b + 1`, … of a stream, `n` of them, one after another.
unfoldable pub span : (ℕ → List ℕ) → ℕ → ℕ → List ℕ
span chunk b zero = []
span chunk b (suc n) = chunk b ++ span chunk (suc b) n

-- A frame that the sender made of the chunk of its number.
pub record Carries (chunk : ℕ → List ℕ) (m : TrollMessage) : Type 0 where
  pub carried : take m.len m.body ≡ chunk m.seq_num
  pub whole : m.len ≡ length (chunk m.seq_num)

-- What the loop of handle_recv_back finds: a request for the rest of what has been copied and
-- the next `n` chunks, in a buffer that has room for it.
pub record Asks (chunk : ℕ → List ℕ) (n : ℕ) (a : AckedSock) : Type 0 where
  pub ordered : Ascending a.base a.packages
  pub genuine : All (Carries chunk) a.packages
  pub request : a.receiving_length ≡ a.recv_buffer_size + length (span chunk a.base n)
  pub room : a.receiving_length ≤ length a.recv_buffer
  pub small : length a.recv_buffer < 2 ^ 64
  pub numbers : a.base + n < 2 ^ 32

-- What it leaves: some of the chunks copied, and no more of them if the request is not full and
-- the next package is not there.
pub record Filled (chunk : ℕ → List ℕ) (n : ℕ) (a a' : AckedSock) : Type 0 where
  pub taken : ℕ
  pub left : ℕ
  pub split : n ≡ taken + left
  pub moved : a'.base ≡ a.base + taken
  pub bytes :
      take a'.recv_buffer_size a'.recv_buffer
      ≡ take a.recv_buffer_size a.recv_buffer ++ span chunk a.base taken
  pub asks : Asks chunk left a'
  pub same : (a'.receiving_length ≡ a.receiving_length) × (a'.receiving_addr ≡ a.receiving_addr)
  pub later : (q : ℕ) → a'.base ≤ q → holds q a'.packages ≡ holds q a.packages
  pub stops : (a'.recv_buffer_size ≡ a'.receiving_length) ⊎ (holds a'.base a'.packages ≡ false)

Filled-none :
    (chunk : ℕ → List ℕ) (n : ℕ) (a : AckedSock)
    → Asks chunk n a
    → ((a.recv_buffer_size ≡ a.receiving_length) ⊎ (holds a.base a.packages ≡ false))
    → Filled chunk n a a
unfolding span
Filled-none chunk n a h stop = record {
  taken = 0;
  left = n;
  split = omega arith;
  moved = omega arith;
  bytes = sym (append-nil _);
  asks = h;
  same = (refl, refl);
  later = λ q le. refl;
  stops = stop;
}

module _ (chunk : ℕ → List ℕ) (a : AckedSock) (m : TrollMessage) (rest : List TrollMessage) where
  abbrev before : AckedSock
  before = record a { packages = m ∷ rest }

  module _ (n : ℕ) (h : Asks chunk (suc n) before) (e : m.seq_num ≡ a.base) where
    next_base : u32 (a.base + 1) ≡ suc a.base
    next_base = omega (arith, h.numbers)

    copied : take m.len m.body ≡ chunk a.base
    copied = h.genuine.0.carried ∙ ap chunk e

    chunk_len : m.len ≡ length (chunk a.base)
    chunk_len = h.genuine.0.whole ∙ ap (λ q. length (chunk q)) e

    asked : a.receiving_length ≡ a.recv_buffer_size + m.len + length (span chunk (suc a.base) n)
    unfolding span
    asked =
        omega
          (arith, h.request, chunk_len, length-append (chunk a.base) (span chunk (suc a.base) n))

    next_size : u64 (a.recv_buffer_size + m.len) ≡ a.recv_buffer_size + m.len
    next_size = omega (arith, asked, h.room, h.small)

    fits : leb (u64 (a.recv_buffer_size + m.len)) a.receiving_length ≡ true
    fits = rw next_size (ground (arith, asked))

    copied_len : length (take m.len m.body) ≡ m.len
    copied_len = ap length copied ∙ sym chunk_len

    same_length :
        length (copy_at a.recv_buffer_size (take m.len m.body) a.recv_buffer) ≡ length a.recv_buffer
    same_length =
        length-copy_at a.recv_buffer_size (take m.len m.body) a.recv_buffer
          (omega (arith, copied_len, asked, h.room))

    new_bytes :
        take
          (u64 (a.recv_buffer_size + m.len))
          (copy_at a.recv_buffer_size (take m.len m.body) a.recv_buffer)
        ≡ take a.recv_buffer_size a.recv_buffer ++ chunk a.base
    new_bytes = rw next_size (
        ap
          (λ k.
            take (a.recv_buffer_size + k)
              (copy_at a.recv_buffer_size (take m.len m.body) a.recv_buffer))
          (sym copied_len)
        ∙ take-copy_at a.recv_buffer_size (take m.len m.body) a.recv_buffer
            (omega (arith, asked, h.room))
        ∙ ap (◌++◌ (take a.recv_buffer_size a.recv_buffer)) copied)

    -- The next package is taken whole.
    consume-Asks : Asks chunk n (consume m rest before)
    unfolding consume
    consume-Asks = record {
      ordered = rw next_base (subst (λ q. Ascending (suc q) rest) e h.ordered.1);
      genuine = h.genuine.1;
      request = rw (next_base, next_size) asked;
      room = rw same_length h.room;
      small = rw same_length h.small;
      numbers = rw next_base (omega (arith, h.numbers));
    }

    Filled-more :
        (a' : AckedSock)
        → Filled chunk n (consume m rest before) a'
        → Filled chunk (suc n) before a'
    unfolding consume span
    Filled-more a' f = record {
      taken = suc f.taken;
      left = f.left;
      split = omega (arith, f.split);
      moved = omega (arith, f.moved, next_base);
      bytes =
          f.bytes
          ∙ rw (new_bytes, next_base)
              (append_assoc (take a.recv_buffer_size a.recv_buffer) (chunk a.base)
                (span chunk (suc a.base) f.taken));
      asks = f.asks;
      same = f.same;
      later = λ q le. f.later q le ∙ behind q (omega (arith, f.moved, next_base));
      stops = f.stops;
    }
      where
        behind : (q : ℕ) → a.base < q → holds q rest ≡ holds q (m ∷ rest)
        behind q lt = unfold holds in ground arith

-- The three ends of a round of the loop that the request of whole chunks can come to.
pub fill_full :
    (fuel : ℕ) (a : AckedSock)
    → ltb a.recv_buffer_size a.receiving_length ≡ false
    → fill (suc fuel) a ≡ a
unfolding fill
fill_full fuel a e = rw (e, fill)

pub fill_empty :
    (fuel : ℕ) (a : AckedSock)
    → fill (suc fuel) (record a { packages = [] }) ≡ record a { packages = [] }
unfolding fill
fill_empty fuel a = elim (Bool-cases (ltb a.recv_buffer_size a.receiving_length)) [
  | inl e ↦ rw (e, fill)
  | inr e ↦ rw (e, fill)
]

pub fill_missing :
    (fuel : ℕ) (a : AckedSock) (m : TrollMessage) (rest : List TrollMessage)
    → (m.seq_num == a.base) ≡ false
    → fill (suc fuel) (record a { packages = m ∷ rest }) ≡ record a { packages = m ∷ rest }
unfolding fill
fill_missing fuel a m rest h = elim (Bool-cases (ltb a.recv_buffer_size a.receiving_length)) [
  | inl e ↦ rw (e, h, fill)
  | inr e ↦ rw (e, fill)
]

pub fill-consume :
    (fuel : ℕ) (a : AckedSock) (m : TrollMessage) (rest : List TrollMessage)
    → ltb a.recv_buffer_size a.receiving_length ≡ true
    → (m.seq_num == a.base) ≡ true
    → leb (u64 (a.recv_buffer_size + m.len)) a.receiving_length ≡ true
    → fill (suc fuel) (record a { packages = m ∷ rest })
      ≡ fill fuel (consume m rest (record a { packages = m ∷ rest }))
unfolding fill
fill-consume fuel a m rest h e f = rw (h, e, f, fill)

-- From a request for whole chunks the loop copies chunks until the request is full or the next
-- package is not there; the fuel is enough.
pub fill-Filled :
    (chunk : ℕ → List ℕ) (fuel n : ℕ) (ps : List TrollMessage) (a : AckedSock)
    → fill_fuel ps ≤ fuel
    → Asks chunk n (record a { packages = ps })
    → Filled chunk n (record a { packages = ps }) (fill fuel (record a { packages = ps }))
unfolding fill_fuel consume
fill-Filled chunk zero n [] a f h = absurd (omega arith)
fill-Filled chunk zero n (m ∷ rest) a f h = absurd (omega arith)
fill-Filled chunk (suc fuel) n [] a f h =
    rw fill_empty (Filled-none chunk n _ h (inr (unfold holds in refl)))
fill-Filled chunk (suc fuel) zero (m ∷ rest) a f h =
    let full : a.recv_buffer_size ≡ a.receiving_length = unfold span in omega (arith, h.request) in
    rw (fill_full fuel (record a { packages = m ∷ rest }) (ground (arith, full)))
      (Filled-none chunk zero _ h (inl full))
fill-Filled chunk (suc fuel) (suc n) (m ∷ rest) a f h = elim (Bool-cases (m.seq_num == a.base)) [
  | inr miss ↦
      rw (fill_missing fuel a m rest miss) (Filled-none chunk (suc n) _ h (inr (absent miss)))
  | inl next ↦ elim (Bool-cases (ltb a.recv_buffer_size a.receiving_length)) [
    | inr full ↦
        rw (fill_full fuel (record a { packages = m ∷ rest }) full)
          (Filled-none chunk (suc n) _ h (inl (stop full)))
    | inl more ↦
        let e : m.seq_num ≡ a.base = ground arith in
        rw (fill-consume fuel a m rest more next (fits chunk a m rest n h e)) (
          Filled-more chunk a m rest n h e _ (
            fill-Filled chunk fuel n rest (consume m rest (record a { packages = m ∷ rest }))
              (omega arith) (consume-Asks chunk a m rest n h e)))
  ]
]
  where
    absent : (m.seq_num == a.base) ≡ false → holds a.base (m ∷ rest) ≡ false
    absent miss = unfold holds in ground (arith, holds_below a.base (suc m.seq_num) rest, h.ordered)

    stop :
        ltb a.recv_buffer_size a.receiving_length ≡ false → a.recv_buffer_size ≡ a.receiving_length
    stop full = ground (arith, h.request)

-- The copies for a request of whole chunks stay inside the arrays.
pub fill_overruns-Asks :
    (chunk : ℕ → List ℕ) (fuel n : ℕ) (ps : List TrollMessage) (a : AckedSock)
    → Asks chunk n (record a { packages = ps })
    → a.receiving_length ≤ buf_len
    → fill_overruns fuel (record a { packages = ps }) ≡ false
unfolding fill_overruns consume
fill_overruns-Asks chunk zero n ps a h k = refl
fill_overruns-Asks chunk (suc fuel) n [] a h k =
    elim (Bool-cases (ltb a.recv_buffer_size a.receiving_length)) [
      | inl e ↦ rw (e, fill_overruns)
      | inr e ↦ rw (e, fill_overruns)
    ]
fill_overruns-Asks chunk (suc fuel) zero (m ∷ rest) a h k =
    let full : a.recv_buffer_size ≡ a.receiving_length = unfold span in omega (arith, h.request) in
    let e : ltb a.recv_buffer_size a.receiving_length ≡ false = ground (arith, full) in
    rw (e, fill_overruns)
fill_overruns-Asks chunk (suc fuel) (suc n) (m ∷ rest) a h k =
    elim (Bool-cases (ltb a.recv_buffer_size a.receiving_length)) [
      | inr full ↦ rw (full, fill_overruns)
      | inl more ↦ elim (Bool-cases (m.seq_num == a.base)) [
        | inr miss ↦ rw (more, miss, fill_overruns)
        | inl next ↦
            let e : m.seq_num ≡ a.base = ground arith in
            let small : ltb buf_len m.len ≡ false = ground (arith, asked chunk a m rest n h e) in
            rw (more, next, small, fits chunk a m rest n h e, fill_overruns)
              (fill_overruns-Asks chunk fuel n rest
                (consume m rest (record a { packages = m ∷ rest }))
                (consume-Asks chunk a m rest n h e) k)
      ]
    ]
