-- ===== src/Proj1/Daemon/Times.antt =====
-- The times that the daemon of proj1/tcpd.c takes of its packets.
use cse5462_network_programm.Base.{
  ℕ, zero, suc, ◌+◌, ◌-◌, ◌%◌, ◌≤◌, ◌<◌, ◌∙◌, ap, sym, ◌≡◌, ◌≢◌, refl, true, false, List, [], ◌∷◌,
  ◌==◌, ==_iff, length, set, drop, arith,
}
use cse5462_network_programm.Timer.{TimeVal}
use cse5462_network_programm.Proj1.Daemon.{
  Doubles, Daemon, TimeRecord, interval, rtt_loop, get_rtt, record_seq,
}
use cse5462_network_programm.Proj1.Daemon.Full.{IsSound}

-- No entry has this number.
abbrev pub NoneHas : ℕ → List TimeRecord → Type 0
NoneHas seq [] = Unit {0}
NoneHas seq (r ∷ l) = (seq ≢ r.seq) × NoneHas seq l

-- Place `k` holds this entry, and no place behind it has its number.
abbrev IsLast : TimeRecord → ℕ → List TimeRecord → Type 0
IsLast r k [] = ⊥
IsLast r zero (x ∷ l) = (x ≡ r) × NoneHas r.seq l
IsLast r (suc k) (x ∷ l) = IsLast r k l

IsLast-set :
    (r : TimeRecord) (l : List TimeRecord) (k : ℕ)
    → k < length l
    → NoneHas r.seq (drop (suc k) l)
    → IsLast r k (set l k r)
IsLast-set r [] k a h = absurd (omega arith)
IsLast-set r (x ∷ l) zero a h = (refl, h)
IsLast-set r (x ∷ l) (suc k) a h = IsLast-set r l k (omega arith) h

NoneHas-set :
    (seq : ℕ) (r : TimeRecord) (l : List TimeRecord) (j : ℕ)
    → seq ≢ r.seq
    → NoneHas seq l
    → NoneHas seq (set l j r)
NoneHas-set seq r [] j ne h = h
NoneHas-set seq r (x ∷ l) zero ne h = (ne, h.1)
NoneHas-set seq r (x ∷ l) (suc j) ne h = (h.0, NoneHas-set seq r l j ne h.1)

-- An entry written to another place under another number leaves it so.
IsLast-set_other :
    (r other : TimeRecord) (l : List TimeRecord) (k j : ℕ)
    → j ≢ k
    → r.seq ≢ other.seq
    → IsLast r k l
    → IsLast r k (set l j other)
IsLast-set_other r other [] k j ne new h = h
IsLast-set_other r other (x ∷ l) zero zero ne new h = absurd (ne refl)
IsLast-set_other r other (x ∷ l) zero (suc j) ne new h = (h.0, NoneHas-set r.seq other l j new h.1)
IsLast-set_other r other (x ∷ l) (suc k) zero ne new h = h
IsLast-set_other r other (x ∷ l) (suc k) (suc j) ne new h =
    IsLast-set_other r other l k j (λ e. ne (ap suc e)) new h

-- Packets that are recorded one after the other, each with its time and its number.
unfoldable pub recorded : {D : Type 0} → List (TimeVal × ℕ) → Daemon D → Daemon D
recorded [] s = s
recorded (p ∷ l) s = recorded l (record_seq p.0 p.1 s)

-- None of them has this number.
abbrev pub AllOthers : ℕ → List (TimeVal × ℕ) → Type 0
AllOthers seq [] = Unit {0}
AllOthers seq (p ∷ l) = (seq ≢ p.1) × AllOthers seq l

-- Fewer packets than there are places up to `k` do not reach it.
recorded-IsLast :
    {D : Type 0} (r : TimeRecord) (k d : ℕ) (l : List (TimeVal × ℕ)) (s : Daemon D)
    → IsLast r k s.record_buf
    → (s.record_index + d) % 30 ≡ k
    → s.record_index < 30
    → d < 30
    → length l ≤ d
    → AllOthers r.seq l
    → IsLast r k (recorded l s).record_buf
unfolding recorded record_seq
recorded-IsLast r k d [] s h at here small enough others = h
recorded-IsLast r k d (p ∷ l) s h at here small enough others =
    recorded-IsLast r k (d - 1) l (record_seq p.0 p.1 s)
      (IsLast-set_other r (record { start_time = p.0; seq = p.1 }) s.record_buf k s.record_index
        (λ e. omega (arith, e, at, here, small, enough)) others.0 h)
      (omega (arith, at, here, small, enough)) (omega arith) (omega (arith, small))
      (omega (arith, enough)) others.1

module _ {D : Type 0} (double : Doubles D) where
  rtt_loop_none :
      (now : TimeVal) (seq : ℕ) (rtt : D) (l : List TimeRecord)
      → NoneHas seq l
      → rtt_loop double now seq rtt l ≡ rtt
  unfolding rtt_loop
  rtt_loop_none now seq rtt [] h = refl
  rtt_loop_none now seq rtt (r ∷ l) h =
      let other : (seq == r.seq) ≡ false = ground arith in
      rw other (rtt_loop_none now seq rtt l h.1)

  rtt_loop-IsLast :
      (now : TimeVal) (r : TimeRecord) (l : List TimeRecord) (k : ℕ) (rtt : D)
      → IsLast r k l
      → rtt_loop double now r.seq rtt l ≡ interval double r.start_time now
  unfolding rtt_loop
  rtt_loop-IsLast now r [] k rtt h = absurd h
  rtt_loop-IsLast now r (x ∷ l) zero rtt h =
      let same : (r.seq == x.seq) ≡ true = (==_iff _ _).1 (ap (λ y. y.seq) (sym h.0)) in
      rw same (
        rtt_loop_none now r.seq (interval double x.start_time now) l h.1
        ∙ ap (λ y. interval double y.start_time now) h.0)
  rtt_loop-IsLast now r (x ∷ l) (suc k) rtt h = rtt_loop-IsLast now r l k _ h

  -- In a sound state a packet is recorded with its time, and then at most 29 others with other numbers,
  -- whatever their times: what `get_rtt` gives for its acknowledgement is the time since its own record,
  -- where no entry that stood behind its place in the array has the same number.
  pub get_rtt-record_seq :
      (now t : TimeVal) (seq : ℕ) (others : List (TimeVal × ℕ)) (s : Daemon D)
      → IsSound s
      → NoneHas seq (drop (suc s.record_index) s.record_buf)
      → length others ≤ 29
      → AllOthers seq others
      → get_rtt double now seq (recorded others (record_seq t seq s)) ≡ interval double t now
  unfolding get_rtt record_seq
  get_rtt-record_seq now t seq others s v h few new =
      let r : TimeRecord = record { start_time = t; seq = seq } in
      rtt_loop-IsLast now r (recorded others (record_seq t seq s)).record_buf s.record_index
        (double.difference 0 1)
        (recorded-IsLast r s.record_index 29 others (record_seq t seq s)
          (IsLast-set r s.record_buf s.record_index
            (omega (arith, v.records_there, v.record_index_in)) h)
          (omega (arith, v.record_index_in)) (omega arith) (omega arith) (omega (arith, few)) new)
