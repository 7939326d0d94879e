-- ===== src/Ftp.antt =====
-- The applications final/ftpc.c and final/ftps.c: what the two share, the files and hosts that they
-- find, bytes in the order in which a size is sent, and a number cut to an `int`.
pub mod Client
pub mod Server
pub mod Chunks
pub mod Names
pub mod Sending
pub mod Receiving
pub mod ClientRun
pub mod ServerRun
pub mod Transfer
mod Tests
use cse5462_network_programm.Base.{
  ℕ, ◌+◌, ◌-◌, ◌*◌, ◌/◌, ◌%◌, ◌^◌, Bool, List, [], ◌∷◌, Option, ◌==◌, if◌then◌else◌,
}
use cse5462_network_programm.Base.Int.{ℤ, pos, negsuc}
use cse5462_network_programm.Wrappers.{to_int}

-- What `stat` says of a file, what `fopen` for reading finds in it, which address a host has, and
-- whether `fopen` for writing succeeds; a name is its bytes without the zero.
pub record Files : Type 0 where
  pub stat_size : List ℕ → Option ℕ
  pub contents : List ℕ → Option (List ℕ)
  pub host : List ℕ → Option ℕ
  pub can_write : List ℕ → Bool

-- The code of a process that goes through a null `FILE *`.
abbrev pub null_file : ℕ
null_file = 139

-- `buf[0]` to `buf[3]` of lines 83 to 86 of ftpc.c
unfoldable pub size_bytes : ℕ → List ℕ
size_bytes n = n / 2 ^ 24 % 256 ∷ n / 2 ^ 16 % 256 ∷ n / 2 ^ 8 % 256 ∷ n % 256 ∷ []

-- Line 89 of ftps.c; the four bytes have no bit in common there, so `|` is `+`.
unfoldable pub size_of_bytes : List ℕ → ℕ
size_of_bytes [] = 0
size_of_bytes (a ∷ []) = 0
size_of_bytes (a ∷ b ∷ []) = 0
size_of_bytes (a ∷ b ∷ c ∷ []) = 0
size_of_bytes (a ∷ b ∷ c ∷ d ∷ l) = a * 2 ^ 24 + b * 2 ^ 16 + c * 2 ^ 8 + d

-- A `ssize_t` that is assigned to an `int`.
unfoldable pub narrow : ℤ → ℤ
unfolding to_int
narrow (pos n) = to_int (n % 2 ^ 32)
narrow (negsuc n) = to_int (2 ^ 32 - 1 - n % 2 ^ 32)

-- The 32 bits of an `int`.
unfoldable pub int_bits : ℤ → ℕ
int_bits (pos n) = n
int_bits (negsuc n) = 2 ^ 32 - 1 - n

-- The bytes before the first zero.
unfoldable pub c_string : List ℕ → List ℕ
c_string [] = []
c_string (b ∷ l) = let rest = c_string l in if b == 0 then [] else b ∷ rest
