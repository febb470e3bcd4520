-- ===== src/Bytes.antt =====
-- Byte strings as lists of numbers: `to_le_bytes`, `from_le_bytes`, `from_be_bytes` and
-- `Read::read_exact` of the Rust standard library, as the program uses them.
pub mod Laws
pub mod Bits
pub mod Digits
use mayara_server.Common.{
  ℕ, zero, suc, ◌+◌, ◌*◌, ◌/◌, ◌%◌, ◌^◌, ◌<◌, List, [], ◌∷◌, ◌++◌, Result, ok, err, leb, length,
  take, drop, if◌then◌else◌, Option, none, some,
}

abbrev pub IsByte : ℕ → Type 0
IsByte b = b < 256

-- Every element of a list meets a predicate.
abbrev pub All {ℓ κ} : {A : Type ℓ} → (A → Type κ) → List A → Type κ
All P [] = Unit
All P (x ∷ xs) = P x × All P xs

-- The `w` low bytes of `n`, lowest first.
unfoldable pub to_le_bytes : ℕ → ℕ → List ℕ
to_le_bytes zero n = []
to_le_bytes (suc w) n = n % 256 ∷ to_le_bytes w (n / 256)

unfoldable pub from_le_bytes : List ℕ → ℕ
from_le_bytes [] = 0
from_le_bytes (b ∷ bs) = b + 256 * from_le_bytes bs

be_from : ℕ → List ℕ → ℕ
be_from acc [] = acc
be_from acc (b ∷ bs) = be_from (acc * 256 + b) bs

unfoldable pub from_be_bytes : List ℕ → ℕ
unfolding be_from
from_be_bytes bs = be_from 0 bs

-- `data[from..from + n]`.
abbrev pub slice : ℕ → ℕ → List ℕ → List ℕ
slice from n xs = take n (drop from xs)

-- What is left to read comes first; `none` is `UnexpectedEof`.
unfoldable pub read_exact : ℕ → List ℕ → Option (List ℕ × List ℕ)
read_exact n src = if leb n (length src) then some (take n src, drop n src) else none
