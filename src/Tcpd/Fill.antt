-- ===== src/Tcpd/Fill.antt =====
-- The loop of handle_recv_back in final/tcpd.c: it ends, and what it does with a package of which
-- only a part is asked for.
use cse5462_network_programm.Base.{
  ℕ, zero, suc, ◌+◌, ◌-◌, ◌*◌, ◌≤◌, ◌<◌, ◌≡◌, refl, ◌⊎◌, inl, inr, Bool, true, false, List, [], ◌∷◌,
  ◌==◌, ltb, leb, arith, Bool-cases, length, take, drop,
}
use cse5462_network_programm.Bytes.{copy_at, u64}
use cse5462_network_programm.Wire.{TrollMessage, buf_len}
use cse5462_network_programm.Tcpd.{AckedSock, Tcpd}
use cse5462_network_programm.Tcpd.Back.{consume, cut, fill, fill_fuel}
use cse5462_network_programm.Tcpd.Delivery.{fill_full, fill_empty, fill_missing, fill-consume}

-- Is the package that the socket waits for the first of the list?
unfoldable pub next_there : ℕ → List TrollMessage → Bool
next_there base [] = false
next_there base (m ∷ l) = m.seq_num == base

-- The guard of the loop is false or its body breaks.
abbrev pub Stopped : AckedSock → Type 0
Stopped a =
    (ltb a.recv_buffer_size a.receiving_length ≡ false) ⊎ (next_there a.base a.packages ≡ false)

pub fill-cut :
    (fuel : ℕ) (a : AckedSock) (m : TrollMessage) (rest : List TrollMessage)
    → ltb a.recv_buffer_size a.receiving_length ≡ true
    → (m.seq_num == a.base) ≡ true
    → leb (u64 (a.recv_buffer_size + m.len)) a.receiving_length ≡ false
    → fill (suc fuel) (record a { packages = m ∷ rest })
      ≡ fill fuel (cut m rest (record a { packages = m ∷ rest }))
unfolding fill
fill-cut fuel a m rest h e f = rw (h, e, f, fill)

fill_ends :
    (fuel : ℕ) (ps : List TrollMessage) (a : AckedSock)
    → fill_fuel ps ≤ fuel
    → Stopped (fill fuel (record a { packages = ps }))
unfolding fill_fuel consume cut
fill_ends zero [] a f = absurd (omega arith)
fill_ends zero (m ∷ rest) a f = absurd (omega arith)
fill_ends (suc fuel) [] a f = rw fill_empty (inr (unfold next_there in refl))
fill_ends (suc fuel) (m ∷ rest) a f =
    elim (Bool-cases (ltb a.recv_buffer_size a.receiving_length)) [
      | inr full ↦ rw (fill_full fuel (record a { packages = m ∷ rest }) full) (inl full)
      | inl more ↦ elim (Bool-cases (m.seq_num == a.base)) [
        | inr miss ↦ rw (fill_missing fuel a m rest miss) (inr (absent miss))
        | inl next ↦ elim (Bool-cases (leb (u64 (a.recv_buffer_size + m.len)) a.receiving_length)) [
          | inl fits ↦ rw (fill-consume fuel a m rest more next fits) (
              fill_ends fuel rest (consume m rest (record a { packages = m ∷ rest })) (omega arith))
          | inr over ↦
              let remain : ℕ = a.receiving_length - a.recv_buffer_size in
              rw (fill-cut fuel a m rest more next over) (
                fill_ends fuel
                  (record m {
                    body = copy_at 0 (take (m.len - remain) (drop remain m.body)) m.body;
                    len = m.len - remain;
                  }
                    ∷ rest)
                  (cut m rest (record a { packages = m ∷ rest })) (ground arith))
        ]
      ]
    ]
  where
    absent : (m.seq_num == a.base) ≡ false → next_there a.base (m ∷ rest) ≡ false
    absent miss = unfold next_there in miss

-- The fuel is enough: when the loop gives the socket back, its buffer holds all that is asked for,
-- or there is no package or not the next one.
pub fill_stops : (a : AckedSock) → Stopped (fill (fill_fuel a.packages) a)
fill_stops a = fill_ends (fill_fuel a.packages) a.packages a (omega arith)

-- A socket with an empty buffer and this one package.
abbrev pub with_only : AckedSock → TrollMessage → AckedSock
with_only a m = record a { packages = m ∷ []; recv_buffer_size = 0 }

module _ (a : AckedSock) (m : TrollMessage) (next : m.seq_num ≡ a.base)
    (positive : 0 < a.receiving_length) (longer : a.receiving_length < m.len)
    (shorter : m.len < 2 * a.receiving_length) (allowed : a.receiving_length ≤ buf_len)
    (whole : m.len ≤ length m.body) (one_body : m.len ≤ buf_len) where
  abbrev remain : ℕ
  remain = a.receiving_length - 0

  abbrev tail : List ℕ
  tail = take (m.len - remain) (drop remain m.body)

  abbrev cut_package : TrollMessage
  cut_package = record m { body = copy_at 0 tail m.body; len = m.len - remain }

  abbrev cut_sock : AckedSock
  cut_sock = record a {
    recv_buffer = copy_at 0 (take remain m.body) a.recv_buffer;
    recv_buffer_size = 0;
    packages = [];
  }

  abbrev filled : AckedSock
  filled = consume cut_package [] (record cut_sock { packages = cut_package ∷ [] })
