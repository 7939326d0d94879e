-- ===== src/Proj1/Window/Queue.antt =====
-- The window of proj1/tcpd.c as the queue of the packets under way, each with the mark that an
-- acknowledgement has come.
use cse5462_network_programm.Base.{
  ℕ, zero, suc, ◌+◌, ◌-◌, ◌%◌, ◌≤◌, ◌<◌, ◌≡◌, ◌≢◌, refl, sym, ap, ap₂, ◌∙◌, ◌⊎◌, inl, inr, false,
  List, [], ◌∷◌, ◌++◌, ◌==◌, get_or, get_or-set_self, get_or-set_ne, set, length, length-set,
  if◌then◌else◌, Bool-cases, arith,
}
use cse5462_network_programm.Proj1.{TrollHeader}
use cse5462_network_programm.Proj1.Window.{
  Window, window_size, window_full, save_packet, mark_acked, slide, ack_window, seq_at,
}

-- A packet and its mark.
abbrev pub Entry : Type 0
Entry = TrollHeader × ℕ

module _ (blank : TrollHeader) where
  -- The `n` places from `h` on, going round.
  abbrev pub entries : List TrollHeader → List ℕ → ℕ → ℕ → List Entry
  entries headers bitmap h zero = []
  entries headers bitmap h (suc n) =
      (get_or headers h blank, get_or bitmap h 0) ∷ entries headers bitmap ((h + 1) % window_size) n

  abbrev pub contents : Window → List Entry
  contents w =
      entries w.troll_headers w.ack_bitmap ((w.last_ack + 1) % window_size)
        (window_size - w.num_empty)

-- The representation is sound: two arrays of ten places, and the place of the last packet.
pub record IsWindow (w : Window) : Type 0 where
  pub headers_there : length w.troll_headers ≡ window_size
  pub bitmap_there : length w.ack_bitmap ≡ window_size
  pub last_ack_in : w.last_ack < window_size
  pub num_empty_in : w.num_empty ≤ window_size
  pub last_send_at : w.last_send ≡ (w.last_ack + (window_size - w.num_empty)) % window_size

-- What happens to the queue: the first packet of this number is marked, and marked packets go from
-- the front.
unfoldable pub mark_first : ℕ → List Entry → List Entry
mark_first seq [] = []
mark_first seq (e ∷ l) = if seq == e.0.tcp_header.seq then (e.0, 1) ∷ l else e ∷ mark_first seq l

unfoldable pub drop_acked : List Entry → List Entry
drop_acked [] = []
drop_acked (e ∷ l) = if e.1 == 1 then drop_acked l else e ∷ l

set_mark : ℕ → ℕ → List Entry → List Entry
set_mark k v [] = []
set_mark zero v (e ∷ l) = (e.0, v) ∷ l
set_mark (suc k) v (e ∷ l) = e ∷ set_mark k v l

module _ (blank : TrollHeader) (headers : List TrollHeader) where
  -- A write `m` places on is not seen in the `n` places.
  entries-set_away :
      (bitmap : List ℕ) (v h n m i : ℕ)
      → h < 10
      → n ≤ m
      → m < 10
      → i ≡ (h + m) % 10
      → entries blank headers (set bitmap i v) h n ≡ entries blank headers bitmap h n
  entries-set_away bitmap v h zero m i a b c e = refl
  entries-set_away bitmap v h (suc n) m i a b c e =
      ap₂ (λ x l. (get_or headers h blank, x) ∷ l) (get_or-set_ne bitmap i h v 0 (λ f. omega arith))
        (entries-set_away bitmap v ((h + 1) % 10) n (m - 1) i (omega arith) (omega arith)
          (omega arith) (omega arith))

  entries-set_mark :
      (bitmap : List ℕ) (v h n k i : ℕ)
      → length bitmap ≡ 10
      → h < 10
      → n ≤ 10
      → k < n
      → i ≡ (h + k) % 10
      → entries blank headers (set bitmap i v) h n ≡ set_mark k v (entries blank headers bitmap h n)
  unfolding set_mark
  entries-set_mark bitmap v h zero k i s a b c e = absurd (omega arith)
  entries-set_mark bitmap v h (suc n) zero i s a b c e =
      ap₂ (λ x l. (get_or headers h blank, x) ∷ l)
        (let here : i ≡ h = omega arith in rw here (get_or-set_self bitmap h v 0 (omega arith)))
        (entries-set_away bitmap v ((h + 1) % 10) n 9 i (omega arith) (omega arith) (omega arith)
          (omega arith))
  entries-set_mark bitmap v h (suc n) (suc k) i s a b c e =
      ap₂ (λ x l. (get_or headers h blank, x) ∷ l) (get_or-set_ne bitmap i h v 0 (λ f. omega arith))
        (entries-set_mark bitmap v ((h + 1) % 10) n k i s (omega arith) (omega arith) (omega arith)
          (omega arith))

  -- The loop marks the place of the first packet of this number, or none.
  mark_acked_lem :
      (bitmap : List ℕ) (fuel seq h n stop : ℕ)
      → h < 10
      → n < 10
      → n ≤ fuel
      → stop ≡ (h + n) % 10
      → ((mark_acked blank fuel seq h stop headers bitmap ≡ bitmap)
          × (mark_first seq (entries blank headers bitmap h n) ≡ entries blank headers bitmap h n))
        ⊎ ((k : ℕ) × (k < n)
            × (mark_acked blank fuel seq h stop headers bitmap ≡ set bitmap ((h + k) % 10) 1)
            × (mark_first seq (entries blank headers bitmap h n)
                ≡ set_mark k 1 (entries blank headers bitmap h n)))
  unfolding mark_acked mark_first set_mark
  mark_acked_lem bitmap zero seq h zero stop a b c e = inl (refl, refl)
  mark_acked_lem bitmap zero seq h (suc n) stop a b c e = absurd (omega arith)
  mark_acked_lem bitmap (suc fuel) seq h zero stop a b c e = inl (ground arith, refl)
  mark_acked_lem bitmap (suc fuel) seq h (suc n) stop a b c e =
      let on : (h == stop) ≡ false = ground arith in
      elim (Bool-cases (seq == seq_at blank headers h)) [
        | inl here ↦
            inr
              (0, omega arith, rw (on, here) (ap (λ i. set bitmap i 1) (omega arith)), rw here refl)
        | inr away ↦
            elim (mark_acked_lem bitmap fuel seq ((h + 1) % 10) n stop (omega arith) (omega arith)
              (omega arith) (omega arith)) [
                | inl (same, none) ↦ inl (
                  rw (on, away) same,
                  rw away (ap (λ l. (get_or headers h blank, get_or bitmap h 0) ∷ l) none),
                )
                | inr (k, lt, at, found) ↦ inr (
                  suc k,
                  omega arith,
                  rw (on, away) (at ∙ ap (λ i. set bitmap i 1) (omega arith)),
                  rw away (ap (λ l. (get_or headers h blank, get_or bitmap h 0) ∷ l) found),
                )
              ]
      ]

  slide_lem :
      (cnt i : ℕ) (w : Window)
      → w.troll_headers ≡ headers
      → IsWindow w
      → cnt ≡ 10 - w.num_empty
      → i ≡ (w.last_ack + 1) % 10
      → IsWindow (slide cnt i w)
        × ((slide cnt i w).troll_headers ≡ headers)
        × (contents blank (slide cnt i w) ≡ drop_acked (contents blank w))
  unfolding slide drop_acked
  slide_lem zero i w hs v c e = let none : 10 - w.num_empty ≡ 0 = sym c in (v, hs, rw none refl)
  slide_lem (suc cnt) i w hs v c e =
      let first : contents blank w ≡ entries blank w.troll_headers w.ack_bitmap i (suc cnt) =
        ap₂ (entries blank w.troll_headers w.ack_bitmap) (sym e) (sym c) in
      elim (Bool-cases (get_or w.ack_bitmap i 0 == 1)) [
        | inl t ↦
            let w' : Window = record w {
              last_ack = (w.last_ack + 1) % 10;
              num_empty = w.num_empty + 1;
            } in
            let v' : IsWindow w' = record {
              headers_there = v.headers_there;
              bitmap_there = v.bitmap_there;
              last_ack_in = omega arith;
              num_empty_in = omega arith;
              last_send_at = omega (arith, v.last_send_at, v.num_empty_in);
            } in
            let next : (i + 1) % 10 ≡ (w'.last_ack + 1) % 10 = omega arith in
            let (valid, same, rest) = slide_lem cnt ((i + 1) % 10) w' hs v' (omega arith) next in
            let left : contents blank w'
                ≡ entries blank w.troll_headers w.ack_bitmap ((i + 1) % 10) cnt =
              ap₂ (entries blank w.troll_headers w.ack_bitmap) (sym next) (omega arith) in
            rw t (valid, same, rest ∙ ap drop_acked left ∙ (rw (first, t) refl))
        | inr f ↦ rw f (v, hs, first ∙ sym (rw (first, f) refl))
      ]

-- A packet behind the `n` places.
entries-extend :
    (blank : TrollHeader) (headers : List TrollHeader) (bitmap : List ℕ) (head : TrollHeader)
    (v h n i : ℕ)
    → length headers ≡ 10
    → length bitmap ≡ 10
    → h < 10
    → n < 10
    → i ≡ (h + n) % 10
    → entries blank (set headers i head) (set bitmap i v) h (suc n)
      ≡ entries blank headers bitmap h n ++ (head, v) ∷ []
entries-extend blank headers bitmap head v h zero i s t a b e =
    let here : i ≡ h = omega arith in
    rw here (
      ap₂ (λ x y. (x, y) ∷ []) (get_or-set_self headers h head blank (omega arith))
        (get_or-set_self bitmap h v 0 (omega arith)))
entries-extend blank headers bitmap head v h (suc n) i s t a b e =
    let away : i ≢ h = λ f. omega arith in
    ap₂ ◌∷◌
      (ap₂ (λ x y. (x, y)) (get_or-set_ne headers i h head blank away)
        (get_or-set_ne bitmap i h v 0 away))
      (entries-extend blank headers bitmap head v ((h + 1) % 10) n i s t (omega arith) (omega arith)
        (omega arith))

-- `save_packet` on a window that is not full puts the packet, not acknowledged yet, behind the others.
pub save_packet_lem :
    (blank head : TrollHeader) (w : Window)
    → IsWindow w
    → window_full w ≡ false
    → IsWindow (save_packet head w)
      × (contents blank (save_packet head w) ≡ contents blank w ++ (head, 0) ∷ [])
unfolding save_packet window_full
save_packet_lem blank head w v free =
    let room : w.num_empty ≢ 0 = ground arith in
    let longer : 10 - (w.num_empty - 1) ≡ suc (10 - w.num_empty) = omega (arith, v.num_empty_in) in
    let at : (w.last_send + 1) % 10 ≡ ((w.last_ack + 1) % 10 + (10 - w.num_empty)) % 10 =
      omega (arith, v.last_send_at) in
    (
      record {
        headers_there = length-set w.troll_headers _ head ∙ v.headers_there;
        bitmap_there = length-set w.ack_bitmap _ 0 ∙ v.bitmap_there;
        last_ack_in = v.last_ack_in;
        num_empty_in = omega (arith, v.num_empty_in);
        last_send_at = omega (arith, v.last_send_at, v.num_empty_in);
      },
      ap
            (entries blank (set w.troll_headers ((w.last_send + 1) % 10) head)
              (set w.ack_bitmap ((w.last_send + 1) % 10) 0) ((w.last_ack + 1) % 10))
            longer
          ∙ entries-extend blank w.troll_headers w.ack_bitmap head 0 ((w.last_ack + 1) % 10)
              (10 - w.num_empty) ((w.last_send + 1) % 10) v.headers_there v.bitmap_there
              (omega arith) (omega arith) at,
    )

-- The marks of `ack_window`, before packets leave.
marked : TrollHeader → ℕ → Window → Window
marked blank seq w = record w {
  ack_bitmap =
      mark_acked blank window_size seq ((w.last_ack + 1) % window_size)
        ((w.last_send + 1) % window_size) w.troll_headers w.ack_bitmap;
}

marked_lem :
    (blank : TrollHeader) (seq : ℕ) (w : Window)
    → IsWindow w
    → window_full w ≡ false
    → IsWindow (marked blank seq w)
      × (contents blank (marked blank seq w) ≡ mark_first seq (contents blank w))
unfolding marked window_full
marked_lem blank seq w v free =
    let room : w.num_empty ≢ 0 = ground arith in
    let at : (w.last_send + 1) % 10 ≡ ((w.last_ack + 1) % 10 + (10 - w.num_empty)) % 10 =
      omega (arith, v.last_send_at) in
    elim (mark_acked_lem blank w.troll_headers w.ack_bitmap 10 seq ((w.last_ack + 1) % 10)
      (10 - w.num_empty) ((w.last_send + 1) % 10) (omega arith) (omega arith) (omega arith) at) [
        | inl (same, none) ↦ rw same (v, sym none)
        | inr (k, lt, there, found) ↦ rw there (
          record {
            headers_there = v.headers_there;
            bitmap_there = length-set w.ack_bitmap _ 1 ∙ v.bitmap_there;
            last_ack_in = v.last_ack_in;
            num_empty_in = v.num_empty_in;
            last_send_at = v.last_send_at;
          },
          entries-set_mark blank w.troll_headers w.ack_bitmap 1 ((w.last_ack + 1) % 10)
                (10 - w.num_empty) k (((w.last_ack + 1) % 10 + k) % 10) v.bitmap_there (omega arith)
                (omega arith) lt refl
              ∙ sym found,
        )
      ]

-- An acknowledgement while the window is not full marks the first packet of its number, and all marked
-- packets at the front of the queue leave it.
pub ack_window_lem :
    (blank : TrollHeader) (seq : ℕ) (w : Window)
    → IsWindow w
    → window_full w ≡ false
    → IsWindow (ack_window blank seq w)
      × (contents blank (ack_window blank seq w) ≡ drop_acked (mark_first seq (contents blank w)))
unfolding ack_window marked
ack_window_lem blank seq w v free =
    let (valid, now) = marked_lem blank seq w v free in
    let (valid', same, rest) =
      slide_lem blank w.troll_headers (10 - w.num_empty) ((w.last_ack + 1) % 10)
        (marked blank seq w) refl valid refl refl in
    (valid', rest ∙ ap drop_acked now)
