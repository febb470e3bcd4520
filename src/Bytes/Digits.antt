-- ===== src/Bytes/Digits.antt =====
-- `bit_and` digit by digit, for masks that are wider than a byte.
use Prim.Native.Nat.{bit_and, digits, bit_and-bitwise}
use mayara_server.Common.{ℕ, zero, suc, ◌+◌, ◌*◌, ◌/◌, ◌%◌, ◌^◌, ◌≤◌, ◌<◌, ◌≡◌, refl, arith, min}
use mayara_server.Bytes.Bits.{agree_below, agree_below→eq}

-- The digits of `a` and `b`, where `left` is a bound for those to go.
abbrev both_digits : ℕ → ℕ → ℕ → ℕ
both_digits left a b = digits (λ rest. zero) min left a b

-- A larger bound changes nothing.
both_digits-any :
    (a b left more : ℕ) → a ≤ left → a ≤ more → both_digits left a b ≡ both_digits more a b
both_digits-any zero b zero zero h k = refl
both_digits-any zero b zero (suc more) h k = refl
both_digits-any zero b (suc left) zero h k = refl
both_digits-any zero b (suc left) (suc more) h k = refl
both_digits-any (suc a) b zero more h k = absurd (omega arith)
both_digits-any (suc a) b (suc left) zero h k = absurd (omega arith)
both_digits-any (suc a) b (suc left) (suc more) h k =
    let rest = both_digits-any (suc a / 2) (b / 2) left more (omega arith) (omega arith) in
    omega (arith, rest)

and_halves : (a b : ℕ) → bit_and a b ≡ bit_and (a / 2) (b / 2) * 2 + min (a % 2) (b % 2)
and_halves zero b = omega (arith, bit_and-bitwise 0 b, bit_and-bitwise 0 (b / 2))
and_halves (suc a) b =
    let half = suc a / 2 in
    let same = both_digits-any half (b / 2) a half (omega arith) (omega arith) in
    omega (arith, bit_and-bitwise (suc a) b, bit_and-bitwise half (b / 2), same)

and_double : (a m : ℕ) → bit_and a (m * 2) ≡ bit_and (a / 2) m * 2
and_double a m = let e : m * 2 / 2 ≡ m = omega arith in omega (arith, and_halves a (m * 2), e_at e)
  where
    e_at : {n : ℕ} → n ≡ m → bit_and (a / 2) n ≡ bit_and (a / 2) m
    e_at e = rw e refl

and_double_one : (a m : ℕ) → bit_and a (m * 2 + 1) ≡ bit_and (a / 2) m * 2 + a % 2
and_double_one a m =
    let e : (m * 2 + 1) / 2 ≡ m = omega arith in omega (arith, and_halves a (m * 2 + 1), e_at e)
  where
    e_at : {n : ℕ} → n ≡ m → bit_and (a / 2) n ≡ bit_and (a / 2) m
    e_at e = rw e refl

-- A mask whose low four digits are 0, and one whose low four digits are 1.
and_zeros : (a m : ℕ) → bit_and a (m * 16) ≡ bit_and (a / 16) m * 16
and_zeros a m =
    let e : m * 16 ≡ m * 2 * 2 * 2 * 2 = omega arith in
    let d : a / 2 / 2 / 2 / 2 ≡ a / 16 = omega arith in
    rw (e, ← d)
      (omega (
        arith,
        and_double a (m * 2 * 2 * 2),
        and_double (a / 2) (m * 2 * 2),
        and_double (a / 2 / 2) (m * 2),
        and_double (a / 2 / 2 / 2) m,
      ))

and_ones : (a m : ℕ) → bit_and a (m * 16 + 15) ≡ bit_and (a / 16) m * 16 + a % 16
and_ones a m =
    let e : m * 16 + 15 ≡ (((m * 2 + 1) * 2 + 1) * 2 + 1) * 2 + 1 = omega arith in
    let d : a / 2 / 2 / 2 / 2 ≡ a / 16 = omega arith in
    rw (e, ← d)
      (omega (
        arith,
        and_double_one a (((m * 2 + 1) * 2 + 1) * 2 + 1),
        and_double_one (a / 2) ((m * 2 + 1) * 2 + 1),
        and_double_one (a / 2 / 2) (m * 2 + 1),
        and_double_one (a / 2 / 2 / 2) m,
      ))

nothing : (a : ℕ) → a < 256 → bit_and a 0 ≡ 0
unfolding agree_below
nothing = agree_below→eq _ _ 256 refl

eleven : (a : ℕ) → a < 16 → bit_and a 11 ≡ a % 4 + a / 8 * 8
unfolding agree_below
eleven = agree_below→eq _ _ 16 refl

four : (a : ℕ) → a < 16 → bit_and a 4 ≡ a / 4 % 2 * 4
unfolding agree_below
four = agree_below→eq _ _ 16 refl

-- The masks of a heading of 16 bits.
pub heading_bits : (a : ℕ) → a < 2 ^ 16 → bit_and a 0xfff ≡ a % 4096
heading_bits a h = omega (
  arith,
  and_ones a 0xff,
  and_ones (a / 16) 0xf,
  and_ones (a / 16 / 16) 0,
  nothing (a / 16 / 16 / 16) (omega (arith, h)),
)

pub flag_bit : (a : ℕ) → a < 2 ^ 16 → bit_and a 0x4000 ≡ a / 16384 % 2 * 16384
flag_bit a h = omega (
  arith,
  and_zeros a 0x400,
  and_zeros (a / 16) 0x40,
  and_zeros (a / 16 / 16) 4,
  four (a / 16 / 16 / 16) (omega (arith, h)),
)

pub other_bits : (a : ℕ) → a < 2 ^ 16 → bit_and a 0xB000 ≡ (a / 4096 % 4 + a / 32768 * 8) * 4096
other_bits a h = omega (
  arith,
  and_zeros a 0xB00,
  and_zeros (a / 16) 0xB0,
  and_zeros (a / 16 / 16) 11,
  eleven (a / 16 / 16 / 16) (omega (arith, h)),
)

-- The low 24 of 32 bits.
pub low_24 : (a : ℕ) → a < 2 ^ 32 → bit_and a 0xffffff ≡ a % 16777216
low_24 a h = omega (
  arith,
  and_ones a 0xfffff,
  and_ones (a / 16) 0xffff,
  and_ones (a / 16 / 16) 0xfff,
  and_ones (a / 16 / 16 / 16) 0xff,
  and_ones (a / 16 / 16 / 16 / 16) 0xf,
  and_ones (a / 16 / 16 / 16 / 16 / 16) 0,
  nothing (a / 16 / 16 / 16 / 16 / 16 / 16) (omega (arith, h)),
)
