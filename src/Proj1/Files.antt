-- ===== src/Proj1/Files.antt =====
-- The applications of proj1: the client ftpc.c gives a file to SEND, and the server ftps.c takes it from
-- RECV. A failing RECV is not modelled.
pub mod Saved
use mathlib.Core.Option
use cse5462_network_programm.Base.{
  ℕ, zero, suc, ◌+◌, ◌-◌, ◌^◌, Bool, true, false, List, [], ◌∷◌, ◌++◌, Option, none, some, ◌==◌,
  ltb, leb, ◌||◌, length, take, drop, replicate, if◌then◌else◌,
}
use cse5462_network_programm.Bytes.{le_bytes, of_bytes, copy_at, u32}
use cse5462_network_programm.Tcpd.Loop.{ascii}
use cse5462_network_programm.Ftp.{Files, c_string}
use cse5462_network_programm.Proj1.Daemon.{buffer_size, body_size}

-- `file_info`: what is in the file, its length and its name.
pub record FileInfo : Type 0 where
  pub contents : List ℕ
  pub len : ℕ
  pub file_name : List ℕ

-- `ini_file_info`, which fails where the length as an `int` is negative.
unfoldable pub ini_file_info : Files → List ℕ → Option FileInfo
ini_file_info files name = with_file (files.contents name)
  where
    with_file : Option (List ℕ) → Option FileInfo
    with_file none = none
    with_file (some file) =
        if ltb 25 (length name)
        then none
        else if leb (2 ^ 31) (u32 (length file))
        then none
        else some (record { contents = file; len = u32 (length file); file_name = name })

-- The loop of lines 119 to 137, on fuel: the datagrams.
unfoldable pub read_loop : ℕ → List ℕ → ℕ → Option (List (List ℕ))
read_loop zero file left = if left == 0 then some [] else none
read_loop (suc fuel) file left =
    let chunk = take body_size file in
    let rest = read_loop fuel (drop body_size file) (left - length chunk) in
    if left == 0 then some [] else Option.map (λ l. chunk ∷ l) rest

-- What the client comes to: an exit code with the datagrams that it has given to SEND, a write behind
-- an array, or a loop that does not end.
pub data ClientEnd : Type 0 where
  ended : ℕ → List (List ℕ) → ClientEnd
  overrun : ClientEnd
  endless : ClientEnd

-- Lines 104 to 140. SEND returns the length, which is not negative.
unfoldable pub client_sends : FileInfo → ClientEnd
client_sends file = elim (read_loop (length file.contents) file.contents file.len) [
  | none ↦ endless
  | some chunks ↦
      ended 0 (le_bytes 4 file.len ∷ take 25 (copy_at 0 file.file_name (replicate 100 0)) ∷ chunks)
]

-- Lines 71 to 140, where `opened` is the success of SOCKET; CONNECT always succeeds.
unfoldable pub client_run : Files → Bool → List ℕ → List ℕ → ClientEnd
client_run files opened server name = with_info (ini_file_info files name)
  where
    with_host : FileInfo → Option ℕ → ClientEnd
    with_host file none = ended 2 []
    with_host file (some address) = client_sends file

    with_info : Option FileInfo → ClientEnd
    with_info none = ended 255 []
    with_info (some file) =
        let next = with_host file (files.host server) in if opened then next else ended 1 []

-- `main` of ftpc.c, with the words of the command line behind the program's name: `strcpy` puts them
-- into arrays of 20, 800 and 100 bytes.
unfoldable pub client_main : Files → Bool → List (List ℕ) → ClientEnd
client_main files opened (server ∷ port ∷ name ∷ []) =
    if leb 20 (length server) || (leb 800 (length port) || leb 100 (length name))
    then overrun
    else client_run files opened server name
client_main files opened _ = ended 1 []

-- What `process_request` comes to: the file that it has written and the datagrams that are left, RECV
-- waiting for a datagram, or a crash: a name with no zero behind it, or a null `FILE *`.
pub data RequestEnd : Type 0 where
  saved : List ℕ → List ℕ → List (List ℕ) → RequestEnd
  waits : RequestEnd
  crashes : RequestEnd

-- The loop of lines 82 to 93: the name, and the datagrams behind it.
unfoldable pub name_loop : ℕ → List ℕ → List (List ℕ) → Option (List ℕ × List (List ℕ))
name_loop rec_len file_name [] = if rec_len == 25 then some (file_name, []) else none
name_loop rec_len file_name (d ∷ l) =
    let rest = name_loop (u32 (rec_len + length (take 25 d))) (copy_at 0 (take 25 d) file_name) l in
    if rec_len == 25 then some (file_name, d ∷ l) else rest

-- The loop of lines 110 to 122: what is written, and the datagrams behind it.
unfoldable pub receive_loop : ℕ → List (List ℕ) → Option (List ℕ × List (List ℕ))
receive_loop left [] = if left == 0 then some ([], []) else none
receive_loop left (d ∷ l) =
    let part = take buffer_size d in
    let rest = receive_loop (left - length part) l in
    if left == 0 then some ([], d ∷ l) else Option.map (λ r. (part ++ r.0, r.1)) rest

-- Lines 96 to 125, where `writable` is the success of `fopen`.
unfoldable pub save_file : Bool → ℕ → List ℕ × List (List ℕ) → RequestEnd
save_file writable file_len (file_name, l) =
    if length (c_string file_name) == 25
    then crashes
    else if writable
    then written (receive_loop (if leb (2 ^ 31) file_len then 0 else file_len) l)
    else crashes
  where
    written : Option (List ℕ × List (List ℕ)) → RequestEnd
    written none = waits
    written (some (bytes, rest)) = saved (ascii "recvd_" ++ c_string file_name) bytes rest

-- `process_request`, on the datagrams that RECV brings; `buf` is the contents of that array.
unfoldable pub process_request : List ℕ → Bool → List (List ℕ) → RequestEnd
process_request buf writable [] = waits
process_request buf writable (d ∷ l) = elim (name_loop 0 (replicate 25 0) l) [
  | none ↦ waits
  | some named ↦ save_file writable (of_bytes (take 4 (copy_at 0 (take 4 d) buf))) named
]
