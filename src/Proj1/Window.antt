-- ===== src/Proj1/Window.antt =====
-- `my_window` of proj1/tcpd.h, the ring of the packets that the daemon of proj1/tcpd.c has sent and
-- that are not acknowledged yet.
pub mod Queue
pub mod Stuck
use cse5462_network_programm.Base.{
  ℕ, zero, suc, ◌+◌, ◌-◌, ◌%◌, Bool, List, ◌==◌, get_or, set, if◌then◌else◌,
}
use cse5462_network_programm.Proj1.{TrollHeader}

abbrev pub window_size : ℕ
window_size = 10

pub record Window : Type 0 where
  pub last_ack : ℕ
  pub last_send : ℕ
  pub num_empty : ℕ
  pub troll_headers : List TrollHeader
  pub ack_bitmap : List ℕ

-- `window_init`, on a block that holds these arrays; its `bzero` only reaches the first two fields.
unfoldable pub window_init : List TrollHeader → List ℕ → Window
window_init headers bitmap = record {
  last_ack = 0;
  last_send = 0;
  num_empty = window_size;
  troll_headers = headers;
  ack_bitmap = bitmap;
}

-- `window_full`
unfoldable pub window_full : Window → Bool
window_full w = w.num_empty == 0

-- `save_packet`, which is only called while the window is not full.
unfoldable pub save_packet : TrollHeader → Window → Window
save_packet head w =
    let next_index = (w.last_send + 1) % window_size in
    record w {
      last_send = next_index;
      num_empty = w.num_empty - 1;
      troll_headers = set w.troll_headers next_index head;
      ack_bitmap = set w.ack_bitmap next_index 0;
    }

module _ (blank : TrollHeader) where
  -- The sequence number of the packet in this place; `blank` is never read inside the window.
  abbrev pub seq_at : List TrollHeader → ℕ → ℕ
  seq_at headers i = (get_or headers i blank).tcp_header.seq

  -- Lines 149 to 163, from place `i` to place `stop`, on fuel: the bitmap with the first packet of
  -- this number marked.
  unfoldable pub mark_acked : ℕ → ℕ → ℕ → ℕ → List TrollHeader → List ℕ → List ℕ
  mark_acked zero seq i stop headers bitmap = bitmap
  mark_acked (suc fuel) seq i stop headers bitmap =
      let rest = mark_acked fuel seq ((i + 1) % window_size) stop headers bitmap in
      if i == stop then bitmap else if seq == seq_at headers i then set bitmap i 1 else rest

-- Lines 165 to 178: `cnt` rounds at most, from place `i` on.
unfoldable pub slide : ℕ → ℕ → Window → Window
slide zero i w = w
slide (suc cnt) i w =
    let rest =
      slide cnt ((i + 1) % window_size)
        (record w { last_ack = (w.last_ack + 1) % window_size; num_empty = w.num_empty + 1 }) in
    if get_or w.ack_bitmap i 0 == 1 then rest else w

-- Lines 148 to 178: an acknowledgement of this number. The first loop comes to `stop` after less than
-- `window_size` rounds.
unfoldable pub ack_window : TrollHeader → ℕ → Window → Window
ack_window blank seq w =
    let first = (w.last_ack + 1) % window_size in
    slide (window_size - w.num_empty) first (record w {
      ack_bitmap =
          mark_acked blank window_size seq first ((w.last_send + 1) % window_size) w.troll_headers
            w.ack_bitmap;
    })
