-- ===== src/Proj1/Files/Saved.antt =====
-- A file from the client of proj1 through both daemons to the server.
use mathlib.Core.Option
use cse5462_network_programm.Base.{
  ℕ, zero, suc, ◌-◌, ◌^◌, ◌≤◌, ◌<◌, ◌≡◌, refl, sym, ap, subst, ◌∙◌, true, false, List, [], ◌∷◌,
  ◌++◌, some, ◌==◌, ltb, leb, length, take, take_all, drop, replicate, map, append-nil,
  take-append-drop, length-take, length-drop, length-append, length-replicate, arith,
}
use cse5462_network_programm.Bytes.{
  le_bytes, of_bytes, copy_at, u32, of_bytes-le_bytes_four, length-le_bytes,
}
use cse5462_network_programm.Tcpd.Loop.{ascii}
use cse5462_network_programm.Ftp.{Files, c_string}
use cse5462_network_programm.Ftp.Names.{NoZero, padded, c_string_stops}
use cse5462_network_programm.Proj1.Daemon.{Doubles, Daemon, buffer_size, body_size}
use cse5462_network_programm.Proj1.Daemon.Full.{IsSound}
use cse5462_network_programm.Proj1.Daemon.Exchange.{Turn, Small, transfer, transfer_lem}
use cse5462_network_programm.Proj1.Window.{window_size}
use cse5462_network_programm.Proj1.Files.{
  ini_file_info, read_loop, ClientEnd, ended, overrun, endless, client_sends, client_run,
  client_main, saved, name_loop, receive_loop, save_file, process_request,
}

AllSmall : List (List ℕ) → Type 0
AllSmall [] = Unit {0}
AllSmall (d ∷ l) = (length d ≤ body_size) × AllSmall l

read_loop_step :
    (fuel : ℕ) (file : List ℕ) (left : ℕ)
    → (left == 0) ≡ false
    → read_loop (suc fuel) file left
      ≡ Option.map
          (λ l. take body_size file ∷ l)
          (read_loop fuel (drop body_size file) (left - length (take body_size file)))
unfolding read_loop
read_loop_step fuel file left e = rw e refl

receive_loop_step :
    (left : ℕ) (d : List ℕ) (l : List (List ℕ))
    → (left == 0) ≡ false
    → length d ≤ buffer_size
    → receive_loop left (d ∷ l)
      ≡ Option.map (λ r. (d ++ r.0, r.1)) (receive_loop (left - length d) l)
unfolding receive_loop
receive_loop_step left d l e h =
    let whole : take buffer_size d ≡ d = take_all buffer_size d h in
    rw (receive_loop, e, whole) refl

-- What the client's loop makes of a file, and what the server's loop makes of that.
GoesThrough : ℕ → List ℕ → List (List ℕ) → Type 0
GoesThrough fuel file chunks =
    (read_loop fuel file (length file) ≡ some chunks)
    × AllSmall chunks
    × (receive_loop (length file) chunks ≡ some (file, []))

one_chunk :
    (fuel : ℕ) (file : List ℕ) (chunks : List (List ℕ))
    → 0 < length file
    → GoesThrough fuel (drop body_size file) chunks
    → GoesThrough (suc fuel) file (take body_size file ∷ chunks)
unfolding GoesThrough AllSmall
one_chunk fuel file chunks h (sent, small, got) =
    let some_left : (length file == 0) ≡ false = ground arith in
    let short : length (take body_size file) ≤ body_size =
      omega (arith, length-take body_size file) in
    let left : length file - length (take body_size file) ≡ length (drop body_size file) =
      omega (arith, length-take body_size file, length-drop body_size file) in
    (
      read_loop_step fuel file (length file) some_left ∙ (rw (left, sent) refl),
      (short, small),
      receive_loop_step (length file) (take body_size file) chunks some_left (omega arith)
          ∙ (rw (left, got) (ap (λ l. some (l, [])) (take-append-drop body_size file))),
    )

-- The client's reading of a file ends, and the server's loop puts the pieces together again.
read_loop-receive_loop :
    (fuel : ℕ) (file : List ℕ)
    → length file ≤ fuel
    → (chunks : List (List ℕ)) × GoesThrough fuel file chunks
unfolding read_loop receive_loop AllSmall GoesThrough
read_loop-receive_loop zero [] h = ([], (refl, tt, refl))
read_loop-receive_loop zero (b ∷ file) h = absurd (omega arith)
read_loop-receive_loop (suc fuel) [] h = ([], (refl, tt, refl))
read_loop-receive_loop (suc fuel) (b ∷ file) h =
    let (chunks, rest) =
      read_loop-receive_loop fuel (drop body_size (b ∷ file))
        (omega (arith, length-drop body_size (b ∷ file))) in
    (_, one_chunk fuel (b ∷ file) chunks (omega arith) rest)

name_loop_done :
    (file_name : List ℕ) (l : List (List ℕ)) → name_loop 25 file_name l ≡ some (file_name, l)
unfolding name_loop
name_loop_done file_name [] = refl
name_loop_done file_name (d ∷ l) = refl

name_loop_once :
    (d : List ℕ) (l : List (List ℕ))
    → length d ≡ 25
    → name_loop 0 (replicate 25 0) (d ∷ l) ≡ some (d, l)
unfolding name_loop copy_at
name_loop_once d l e =
    let whole : take 25 d ≡ d = take_all 25 d (omega arith) in
    rw (name_loop, whole, e) (name_loop_done (d ++ []) l ∙ ap (λ x. some (x, l)) (append-nil d))

-- The name in the client's array.
abbrev name_part : List ℕ → List ℕ
name_part name = take 25 (copy_at 0 name (replicate 100 0))

name_part_lem :
    (name : List ℕ) → length name ≤ 24 → name_part name ≡ name ++ 0 ∷ replicate (24 - length name) 0
name_part_lem name h =
    let room : 25 - length name ≡ suc (24 - length name) = omega arith in
    padded 25 100 name (omega arith) (omega arith) ∙ ap (λ n. name ++ replicate n 0) room

length-name_part : (name : List ℕ) → length name ≤ 24 → length (name_part name) ≡ 25
length-name_part name h =
    ap length (name_part_lem name h)
    ∙ (omega (
      arith,
      length-append name (0 ∷ replicate (24 - length name) 0),
      length-replicate {A = ℕ} (24 - length name) 0,
    ))

size_part_lem :
    (n : ℕ) (buf : List ℕ)
    → n < 2 ^ 31
    → of_bytes (take 4 (copy_at 0 (take 4 (le_bytes 4 n)) buf)) ≡ n
unfolding le_bytes copy_at
size_part_lem n buf h = of_bytes-le_bytes_four n (omega arith)

-- The server on the size, the name and the pieces.
process_request_lem :
    (buf name file : List ℕ) (fuel : ℕ) (chunks : List (List ℕ))
    → length name ≤ 24
    → NoZero name
    → length file < 2 ^ 31
    → GoesThrough fuel file chunks
    → process_request buf true (le_bytes 4 (length file) ∷ name_part name ∷ chunks)
      ≡ saved (ascii "recvd_" ++ name) file []
unfolding process_request save_file GoesThrough
process_request_lem buf name file fuel chunks short no_zero small (sent, each, got) =
    let named : c_string (name_part name) ≡ name =
      ap c_string (name_part_lem name short)
      ∙ c_string_stops name (replicate (24 - length name) 0) no_zero in
    let fits : (length name == 25) ≡ false = ground arith in
    let positive : leb (2 ^ 31) (length file) ≡ false = ground arith in
    rw
      (
        process_request,
        name_loop_once (name_part name) chunks (length-name_part name short),
        size_part_lem (length file) buf small,
        save_file,
        named,
        fits,
        positive,
        got,
      )
      (ap (λ m. saved (ascii "recvd_" ++ m) file []) named)

abbrev pub datagrams_of : ClientEnd → List (List ℕ)
datagrams_of (ended code l) = l
datagrams_of overrun = []
datagrams_of endless = []

-- What the client gives to SEND.
client_main_lem :
    (files : Files) (server port name file : List ℕ) (address : ℕ)
    → files.contents name ≡ some file
    → files.host server ≡ some address
    → length server < 20
    → length port < 800
    → length name ≤ 24
    → length file < 2 ^ 31
    → (chunks : List (List ℕ)) × (client_main files true (server ∷ port ∷ name ∷ [])
        ≡ ended 0 (le_bytes 4 (length file) ∷ name_part name ∷ chunks))
      × GoesThrough (length file) file chunks
unfolding client_main client_run client_sends ini_file_info GoesThrough
client_main_lem files server port name file address there host short_server short_port short small =
    let (chunks, (sent, each, got)) = read_loop-receive_loop (length file) file (omega arith) in
    let a : leb 20 (length server) ≡ false = ground arith in
    let b : leb 800 (length port) ≡ false = ground arith in
    let c : leb 100 (length name) ≡ false = ground arith in
    let d : ltb 25 (length name) ≡ false = ground arith in
    let whole : u32 (length file) ≡ length file = omega arith in
    let e : leb (2 ^ 31) (u32 (length file)) ≡ false = ground arith in
    (
      chunks,
      (rw (client_main, a, b, c, there, d, e, whole, host, client_sends, sent) refl),
      (sent, each, got),
    )

AllSmall-Small : (turns : List Turn) → AllSmall (map (λ turn. turn.datagram) turns) → Small turns
unfolding AllSmall
AllSmall-Small [] h = tt
AllSmall-Small (turn ∷ turns) h = (h.0, AllSmall-Small turns h.1)

-- A file of less than 2^31 bytes whose name has at most 24, none of them zero, goes from the client
-- through both daemons to the server, where every packet and every acknowledgement arrives before the
-- next datagram: the client ends with code 0, its datagrams are taken and delivered, the window is empty
-- again, and the server saves exactly the bytes of the file under the name behind "recvd_". It is
-- supposed that the client opens the file and finds the server's host, whose name has less than 20 bytes
-- and the port less than 800, that its SOCKET succeeds, that the server can open the file it writes, and
-- that the client's daemon begins in a sound state with an empty window.
pub client_transfer_saved :
    {D : Type 0} (double : Doubles D) (files : Files) (server port name file : List ℕ) (address : ℕ)
    (buf : List ℕ) (turns : List Turn) (s t : Daemon D)
    → files.contents name ≡ some file
    → files.host server ≡ some address
    → length server < 20
    → length port < 800
    → length name ≤ 24
    → NoZero name
    → length file < 2 ^ 31
    → IsSound s
    → s.window_client.num_empty ≡ window_size
    → map (λ turn. turn.datagram) turns
      ≡ datagrams_of (client_main files true (server ∷ port ∷ name ∷ []))
    → (s' : Daemon D) × (l : List (List ℕ)) × (client_main files true (server ∷ port ∷ name ∷ [])
        ≡ ended 0 l)
      × (transfer double turns s t ≡ some (s', t, l))
      × (process_request buf true l ≡ saved (ascii "recvd_" ++ name) file [])
      × (s'.window_client.num_empty ≡ window_size)
unfolding AllSmall GoesThrough
client_transfer_saved double files server port name file address buf turns s t there host a b short
      no_zero small v empty these =
    let (chunks, client, through) =
      client_main_lem files server port name file address there host a b short small in
    let l : List (List ℕ) = le_bytes 4 (length file) ∷ name_part name ∷ chunks in
    let e : map (λ turn. turn.datagram) turns ≡ l = these ∙ ap datagrams_of client in
    let each : AllSmall l = (
      omega (arith, length-le_bytes 4 (length file)),
      (omega (arith, length-name_part name short), through.1),
    ) in
    let (s', gone, v', empty') =
      transfer_lem double turns s t v empty (AllSmall-Small turns (subst AllSmall (sym e) each)) in
    (
      s',
      l,
      client,
      gone ∙ ap (λ m. some (s', t, m)) e,
      process_request_lem buf name file (length file) chunks short no_zero small through,
      empty',
    )
