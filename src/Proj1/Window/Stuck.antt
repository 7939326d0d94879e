-- ===== src/Proj1/Window/Stuck.antt =====
-- The first packet of the window of proj1/tcpd.c waits for its acknowledgement, and what that means
-- for a window that is full.
use cse5462_network_programm.Base.{
  ℕ, zero, suc, ◌+◌, ◌-◌, ◌%◌, ◌≡◌, ◌≢◌, refl, sym, ap, ◌∙◌, ◌⊎◌, inl, inr, true, false, List, ◌==◌,
  ==_iff, get_or, get_or-set_self, get_or-set_ne, Bool-cases, arith,
}
use cse5462_network_programm.Proj1.{TrollHeader}
use cse5462_network_programm.Proj1.Window.{
  Window, window_size, window_full, save_packet, mark_acked, slide, ack_window, window_init,
}
use cse5462_network_programm.Proj1.Window.Queue.{IsWindow}

-- Nothing is under way, or the first packet is not acknowledged.
abbrev pub Waits : Window → Type 0
Waits w =
    (w.num_empty ≡ window_size)
    ⊎ ((get_or w.ack_bitmap ((w.last_ack + 1) % window_size) 0 == 1) ≡ false)

pub window_init-Waits :
    (headers : List TrollHeader) (bitmap : List ℕ) → Waits (window_init headers bitmap)
unfolding window_init
window_init-Waits headers bitmap = inl refl

slide-Waits :
    (cnt i : ℕ) (w : Window)
    → cnt + w.num_empty ≡ 10
    → i ≡ (w.last_ack + 1) % 10
    → Waits (slide cnt i w)
unfolding slide
slide-Waits zero i w c e = inl (omega arith)
slide-Waits (suc cnt) i w c e = elim (Bool-cases (get_or w.ack_bitmap i 0 == 1)) [
  | inl t ↦ rw t (
      slide-Waits cnt ((i + 1) % 10)
        (record w { last_ack = (w.last_ack + 1) % 10; num_empty = w.num_empty + 1 }) (omega arith)
        (omega arith))
  | inr f ↦ rw f (inr (ap (λ j. get_or w.ack_bitmap j 0 == 1) (sym e) ∙ f))
]

pub ack_window-Waits :
    (blank : TrollHeader) (seq : ℕ) (w : Window) → IsWindow w → Waits (ack_window blank seq w)
unfolding ack_window
ack_window-Waits blank seq w v =
    slide-Waits (10 - w.num_empty) ((w.last_ack + 1) % 10) _ (omega (arith, v.num_empty_in)) refl

pub save_packet-Waits :
    (head : TrollHeader) (w : Window)
    → IsWindow w
    → window_full w ≡ false
    → Waits w
    → Waits (save_packet head w)
unfolding save_packet window_full
save_packet-Waits head w v free (inl empty) =
    let here : (w.last_send + 1) % 10 ≡ (w.last_ack + 1) % 10 =
      omega (arith, v.last_send_at, empty, v.last_ack_in) in
    inr (
      rw here (
        ap (λ x. x == 1)
          (get_or-set_self w.ack_bitmap ((w.last_ack + 1) % 10) 0 0
            (omega (arith, v.bitmap_there)))))
save_packet-Waits head w v free (inr waits) =
    let at = (w.last_send + 1) % 10 in
    let first = (w.last_ack + 1) % 10 in
    inr (elim (Bool-cases (at == first)) [
      | inl e ↦
          let here : at ≡ first = (==_iff at first).0 e in
          rw here (
            ap (λ x. x == 1)
              (get_or-set_self w.ack_bitmap first 0 0 (omega (arith, v.bitmap_there))))
      | inr e ↦
          let away : at ≢ first = λ f. cc ((==_iff at first).1 f) in
          ap (λ x. x == 1) (get_or-set_ne w.ack_bitmap at first 0 0 away) ∙ waits
    ])

mark_acked_stop :
    (blank : TrollHeader) (fuel seq i : ℕ) (headers : List TrollHeader) (bitmap : List ℕ)
    → mark_acked blank (suc fuel) seq i i headers bitmap ≡ bitmap
unfolding mark_acked
mark_acked_stop blank fuel seq i headers bitmap = rw ((==_iff i i).1 refl)

slide_stop : (cnt i : ℕ) (w : Window) → (get_or w.ack_bitmap i 0 == 1) ≡ false → slide cnt i w ≡ w
unfolding slide
slide_stop zero i w f = refl
slide_stop (suc cnt) i w f = rw f refl

-- In a full window nothing is marked, since the loop over the packets ends where it begins: where the
-- first packet is not acknowledged, an acknowledgement changes nothing, whatever its number.
pub ack_window_full :
    (blank : TrollHeader) (seq : ℕ) (w : Window)
    → IsWindow w
    → Waits w
    → window_full w ≡ true
    → ack_window blank seq w ≡ w
unfolding ack_window window_full
ack_window_full blank seq w v (inl empty) full =
    let none : w.num_empty ≡ 0 = (==_iff _ _).0 full in absurd (omega arith)
ack_window_full blank seq w v (inr waits) full =
    let none : w.num_empty ≡ 0 = (==_iff _ _).0 full in
    let same : (w.last_send + 1) % 10 ≡ (w.last_ack + 1) % 10 =
      omega (arith, v.last_send_at, v.last_ack_in, none) in
    let unmarked : mark_acked blank 10 seq ((w.last_ack + 1) % 10) ((w.last_send + 1) % 10)
          w.troll_headers w.ack_bitmap
        ≡ w.ack_bitmap =
      ap (λ stop. mark_acked blank 10 seq ((w.last_ack + 1) % 10) stop w.troll_headers w.ack_bitmap)
        same
      ∙ mark_acked_stop blank 9 seq ((w.last_ack + 1) % 10) w.troll_headers w.ack_bitmap in
    ap (λ b. slide (10 - w.num_empty) ((w.last_ack + 1) % 10) (record w { ack_bitmap = b }))
      unmarked
    ∙ slide_stop (10 - w.num_empty) ((w.last_ack + 1) % 10) w waits
