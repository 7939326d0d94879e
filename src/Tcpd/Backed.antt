-- ===== src/Tcpd/Backed.antt =====
-- The count of buffered packages of final/tcpd.c under every change of the connected sockets, also
-- where a CONNECT puts a new socket in the place of one whose packages are then forgotten.
use cse5462_network_programm.Base.{
  ℕ, suc, ◌+◌, ◌-◌, ◌≤◌, ◌≡◌, refl, inl, inr, false, List, [], ◌∷◌, ◌++◌, ◌==◌, arith, none, some,
  length-append,
}
use cse5462_network_programm.Base.Int.{pos}
use cse5462_network_programm.Bytes.{u32}
use cse5462_network_programm.Wire.{TrollMessage, TrollAck, SockAddr}
use cse5462_network_programm.Tcpd.{ConnectedSock, Tcpd}
use cse5462_network_programm.Tcpd.Acks.{expire, set_connected, ack_package, find_session}
use cse5462_network_programm.Tcpd.Front.{
  find_connected, insert_connected, queue_message, make_message, new_connected,
}
use cse5462_network_programm.Tcpd.Window.{all_packages}
use cse5462_network_programm.Tcpd.Count.{acknowledge_lem, expire-perm}
use cse5462_network_programm.Tcpd.Table.{
  total, Keyed, total-set_connected, set_connected-Keyed, find_session-find_connected, Perm-length,
  expire_fd, count_up, count_down,
}
use cse5462_network_programm.Tcpd.Keeps.{IsSender}

-- No two connected sockets have the same descriptor, `in_buffer_packages` is at least the number of
-- packages in their lists, and it is at most `bound`.
pub record IsBounded {F : Type 0} (bound : ℕ) (s : Tcpd F) : Type 0 where
  pub keyed : Keyed s.connected_sockets
  pub count : ℕ
  pub is_count : s.in_buffer_packages ≡ pos count
  pub backed : total s.connected_sockets ≤ count
  pub below : count ≤ bound

pub IsBounded-IsSender : {F : Type 0} (bound : ℕ) → IsSender {F = F} (IsBounded bound)
IsBounded-IsSender bound s t same_table same_count i = record {
  keyed = rw same_table i.keyed;
  count = i.count;
  is_count = rw same_count i.is_count;
  backed = rw same_table i.backed;
  below = i.below;
}

find-insert_connected :
    (fd : ℕ) (c : ConnectedSock) (l : List ConnectedSock)
    → find_connected fd l ≡ none
    → (c.socket_fd == fd) ≡ false
    → find_connected fd (insert_connected c l) ≡ none
unfolding find_connected insert_connected
find-insert_connected fd c [] h e = rw e refl
find-insert_connected fd c (x ∷ l) h e = ground (arith, find-insert_connected fd c l)

insert_connected-Keyed :
    (c : ConnectedSock) (l : List ConnectedSock) → Keyed l → Keyed (insert_connected c l)
unfolding Keyed insert_connected find_connected
insert_connected-Keyed c [] k = (refl, tt)
insert_connected-Keyed c (x ∷ l) k =
    ground (arith, find-insert_connected x.socket_fd c l, insert_connected-Keyed c l)

total-insert_connected :
    (c : ConnectedSock) (l : List ConnectedSock)
    → all_packages c ≡ []
    → total (insert_connected c l) ≤ total l
unfolding total insert_connected
total-insert_connected c [] e = rw e (omega arith)
total-insert_connected c (x ∷ l) e = ground (arith, e, total-insert_connected c l)

module _ {F : Type 0} where
  pub queue_message-IsBounded :
      (bound : ℕ) (c : ConnectedSock) (bytes : List ℕ) (len : ℕ) (fresh : List ℕ) (s : Tcpd F)
      → find_connected c.socket_fd s.connected_sockets ≡ some c
      → IsBounded bound s
      → IsBounded (suc bound) (queue_message c bytes len fresh s)
  unfolding queue_message
  queue_message-IsBounded bound c bytes len fresh s h i = record {
    keyed = set_connected-Keyed _ s.connected_sockets i.keyed;
    count = suc i.count;
    is_count = count_up i.is_count refl;
    backed = omega (
      arith,
      i.backed,
      total-set_connected c queued s.connected_sockets h refl,
      length-append c.packages (c.pending_packages ++ m ∷ []),
      length-append c.packages c.pending_packages,
      length-append c.pending_packages (m ∷ []),
    );
    below = omega (arith, i.below);
  }
    where
      m : TrollMessage
      m = make_message c bytes len fresh

      queued : ConnectedSock
      queued = record c { base = u32 (c.base + 1); pending_packages = c.pending_packages ++ m ∷ [] }

  pub connect-IsBounded :
      (bound fd session : ℕ) (addr : SockAddr) (s : Tcpd F)
      → IsBounded bound s
      → IsBounded bound (record s {
        connected_sockets = insert_connected (new_connected fd session addr) s.connected_sockets;
      })
  unfolding new_connected
  connect-IsBounded bound fd session addr s i = record {
    keyed = insert_connected-Keyed _ s.connected_sockets i.keyed;
    count = i.count;
    is_count = i.is_count;
    backed = omega (
      arith,
      i.backed,
      total-insert_connected (new_connected fd session addr) s.connected_sockets refl,
    );
    below = i.below;
  }

  pub ack_package-IsBounded :
      (bound : ℕ) (a : TrollAck) (c : ConnectedSock) (s : Tcpd F)
      → find_connected c.socket_fd s.connected_sockets ≡ some c
      → IsBounded bound s
      → IsBounded bound (ack_package a c s)
  unfolding ack_package
  ack_package-IsBounded bound a c s h i = elim (acknowledge_lem a.session a.seq_num c) [
    | inl (none_named, e) ↦ rw e (record {
      keyed = set_connected-Keyed c s.connected_sockets i.keyed;
      count = i.count;
      is_count = i.is_count;
      backed = omega (arith, i.backed, total-set_connected c c s.connected_sockets h refl);
      below = i.below;
    })
    | inr (m, rest, e, named, parts) ↦
        let left : total s.connected_sockets
            ≡ suc (total (set_connected (record c { packages = rest }) s.connected_sockets)) =
          omega (
            arith,
            total-set_connected c (record c { packages = rest }) s.connected_sockets h refl,
            Perm-length parts,
            length-append c.packages c.pending_packages,
            length-append rest c.pending_packages,
          ) in
        rw e (record {
          keyed = set_connected-Keyed _ s.connected_sockets i.keyed;
          count = i.count - 1;
          is_count = count_down i.is_count (omega (arith, i.backed, left));
          backed = omega (arith, i.backed, left);
          below = omega (arith, i.below);
        })
  ]

  pub expire-IsBounded :
      (bound session seq_num : ℕ) (c : ConnectedSock) (s : Tcpd F)
      → find_session session s.connected_sockets ≡ some c
      → IsBounded bound s
      → IsBounded bound (record s {
        connected_sockets = set_connected (expire session seq_num c) s.connected_sockets;
      })
  expire-IsBounded bound session seq_num c s e i = record {
    keyed = set_connected-Keyed _ s.connected_sockets i.keyed;
    count = i.count;
    is_count = i.is_count;
    backed = omega (
      arith,
      i.backed,
      total-set_connected c (expire session seq_num c) s.connected_sockets
          (find_session-find_connected session c s.connected_sockets i.keyed e)
          (expire_fd session seq_num c),
      Perm-length (expire-perm session seq_num c),
    );
    below = i.below;
  }
