-- ===== src/Bytes/Bits.antt =====
-- Facts about single bytes, each a table of at most 256 entries checked by evaluation.
use Prim.Native.Nat.{bit_and, bit_or}
use mathlib.Core.Logic.{ite}
use native.Mathlib.Decide.{ℕ_discrete}
use mayara_server.Common.{
  ℕ, zero, suc, ◌+◌, ◌*◌, ◌/◌, ◌%◌, ◌<◌, ◌≡◌, refl, Bool, true, false, arith, if◌then◌else◌,
}

-- A test that holds of every number below a bound.
abbrev pub all_below : ℕ → (ℕ → Bool) → Bool
all_below zero p = true
all_below (suc n) p = if p n then all_below n p else false

pub all_below_sound : (n : ℕ) (p : ℕ → Bool) → all_below n p ≡ true → (x : ℕ) → x < n → p x ≡ true
all_below_sound zero p h x lt = absurd (omega arith)
all_below_sound (suc n) p h x lt = ground (arith, all_below_sound n p (ground arith) x)

module _ (f g : ℕ → ℕ) where
  unfoldable pub agree_below : ℕ → Bool
  unfolding ℕ_discrete
  agree_below zero = true
  agree_below (suc n) = ite (ℕ_discrete (f n) (g n)) (agree_below n) false

  pub agree_below→eq : (n : ℕ) → agree_below n ≡ true → (i : ℕ) → i < n → f i ≡ g i
  unfolding agree_below
  agree_below→eq zero e i h = absurd (omega arith)
  agree_below→eq (suc n) e i h = ground (arith, agree_below→eq n (ground arith) i)

-- Bit 0 of a byte.
pub bit0 : (b : ℕ) → b < 256 → bit_and b 1 ≡ b % 2
unfolding agree_below
bit0 = agree_below→eq _ _ 256 refl

-- Setting and clearing bit 0.
pub set_bit0 : (b : ℕ) → b < 256 → bit_or b 1 ≡ b / 2 * 2 + 1
unfolding agree_below
set_bit0 = agree_below→eq _ _ 256 refl

pub clear_bit0 : (b : ℕ) → b < 256 → bit_and b 254 ≡ b / 2 * 2
unfolding agree_below
clear_bit0 = agree_below→eq _ _ 256 refl

-- The low two bits of a byte.
pub low2 : (b : ℕ) → b < 256 → bit_and b 3 ≡ b % 4
unfolding agree_below
low2 = agree_below→eq _ _ 256 refl

-- Bits 3 and 4 of a byte.
pub bits_3_4 : (b : ℕ) → b < 256 → bit_and b 0x18 / 8 ≡ b / 8 % 4
unfolding agree_below
bits_3_4 = agree_below→eq (λ b. bit_and b 0x18 / 8) (λ b. b / 8 % 4) 256 refl

-- The two halves of a byte.
pub low_half : (b : ℕ) → b < 256 → bit_and b 0x0f ≡ b % 16
unfolding agree_below
low_half = agree_below→eq _ _ 256 refl

pub high_half : (b : ℕ) → b < 256 → bit_and (b / 16) 0x0f ≡ b / 16
unfolding agree_below
high_half = agree_below→eq _ _ 256 refl
