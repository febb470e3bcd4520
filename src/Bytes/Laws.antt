-- ===== src/Bytes/Laws.antt =====
-- Round trips and lengths of the integer encodings, and `read_exact` on a known front.
use mayara_server.Common.{
  ℕ, zero, suc, ◌+◌, ◌*◌, ◌/◌, ◌^◌, ◌<◌, ◌≡◌, refl, ap, List, [], ◌∷◌, ◌++◌, arith, none, some,
  Bool, true, false, Bool-cases, inl, inr, ltb, ltb→lt, leb, length, take, drop, length-append,
  length-take, length-drop, if◌then◌else◌,
}
use mayara_server.Bytes.{IsByte, All, to_le_bytes, from_le_bytes, read_exact}
use native.Mathlib.Nat.{pow-suc}

pub length-to_le_bytes : (w n : ℕ) → length (to_le_bytes w n) ≡ w
unfolding to_le_bytes
length-to_le_bytes zero n = refl
length-to_le_bytes (suc w) n = ap suc (length-to_le_bytes w (n / 256))

pub to_le_bytes-IsByte : (w n : ℕ) → All IsByte (to_le_bytes w n)
unfolding to_le_bytes
to_le_bytes-IsByte zero n = tt
to_le_bytes-IsByte (suc w) n = (omega arith, to_le_bytes-IsByte w (n / 256))

-- The bytes of a number that fits give the number back.
pub from-to_le_bytes : (w n : ℕ) → n < 256 ^ w → from_le_bytes (to_le_bytes w n) ≡ n
unfolding to_le_bytes from_le_bytes
from-to_le_bytes zero n h = omega arith
from-to_le_bytes (suc w) n h =
    let q : n / 256 < 256 ^ w = div_small w n h in omega (arith, from-to_le_bytes w (n / 256) q)
  where
    div_small : (w n : ℕ) → n < 256 ^ suc w → n / 256 < 256 ^ w
    div_small w n h = let k : n < 256 ^ w * 256 = rw (← pow-suc) h in omega arith

-- A number read from `w` bytes fits `w` bytes.
pub from_le_bytes-lt : (bs : List ℕ) → All IsByte bs → from_le_bytes bs < 256 ^ length bs
unfolding from_le_bytes
from_le_bytes-lt [] h = omega arith
from_le_bytes-lt (b ∷ bs) h = rw pow-suc (omega (arith, from_le_bytes-lt bs h.1))

pub take-length_append {ℓ} : {A : Type ℓ} (xs ys : List A) → take (length xs) (xs ++ ys) ≡ xs
take-length_append [] ys = refl
take-length_append (x ∷ xs) ys = ap (λ zs. x ∷ zs) (take-length_append xs ys)

pub drop-length_append {ℓ} : {A : Type ℓ} (xs ys : List A) → drop (length xs) (xs ++ ys) ≡ ys
drop-length_append [] ys = refl
drop-length_append (x ∷ xs) ys = drop-length_append xs ys

pub All-map {ℓ κ υ} :
    {A : Type ℓ} (P : A → Type κ) (Q : A → Type υ) (xs : List A)
    → ((a : A) → P a → Q a)
    → All P xs
    → All Q xs
All-map P Q [] h a = tt
All-map P Q (x ∷ xs) h a = (h x a.0, All-map P Q xs h a.1)

pub All-append {ℓ κ} :
    {A : Type ℓ} (P : A → Type κ) (xs ys : List A) → All P xs → All P ys → All P (xs ++ ys)
All-append P [] ys hx hy = hy
All-append P (x ∷ xs) ys hx hy = (hx.0, All-append P xs ys hx.1 hy)

pub All-take {κ} : (P : ℕ → Type κ) (n : ℕ) (xs : List ℕ) → All P xs → All P (take n xs)
All-take P zero xs h = tt
All-take P (suc n) [] h = tt
All-take P (suc n) (x ∷ xs) h = (h.0, All-take P n xs h.1)

pub All-drop {κ} : (P : ℕ → Type κ) (n : ℕ) (xs : List ℕ) → All P xs → All P (drop n xs)
All-drop P zero xs h = h
All-drop P (suc n) [] h = tt
All-drop P (suc n) (x ∷ xs) h = All-drop P n xs h.1

-- `read_exact` takes a front of the wanted length, whatever follows it.
pub read_exact-append :
    (n : ℕ) (front back : List ℕ)
    → length front ≡ n
    → read_exact n (front ++ back) ≡ some (front, back)
unfolding read_exact
read_exact-append n front back h =
    rw (← h) (rw enough (rw (take-length_append, drop-length_append)))
  where
    enough : leb (length front) (length (front ++ back)) ≡ true
    enough = rw length-append (ground arith)

-- A short source is an error.
pub read_exact_short : (n : ℕ) (src : List ℕ) → length src < n → read_exact n src ≡ none
unfolding read_exact
read_exact_short n src h = ground arith

-- What is read has the length asked for, and is followed by the rest.
pub read_exact_parts :
    (n : ℕ) (src bytes rest : List ℕ)
    → read_exact n src ≡ some (bytes, rest)
    → (length bytes ≡ n) × (length src ≡ n + length rest)
unfolding read_exact
read_exact_parts n src bytes rest h = ground (arith, length-take n src, length-drop n src)

-- The test of a whole list, for lists that are given.
unfoldable pub are_bytes : List ℕ → Bool
are_bytes [] = true
are_bytes (b ∷ bs) = if ltb b 256 then are_bytes bs else false

pub are_bytes-All : (bs : List ℕ) → are_bytes bs ≡ true → All IsByte bs
unfolding are_bytes
are_bytes-All [] h = tt
are_bytes-All (b ∷ bs) h = elim (Bool-cases (ltb b 256)) [
  | inl small ↦ (ltb→lt b 256 small, are_bytes-All bs (rw small at h))
  | inr large ↦ ground (arith, h, large)
]
