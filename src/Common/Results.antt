-- ===== src/Common/Results.antt =====
-- Fallible code: the result type, its `do` notation, and inversion of a successful bind.
use mathlib.Core.Path.{◌≡◌, refl, ap, subst}
use mathlib.Core.Bool.{Bool, true, false}
use mathlib.Core.Logic.{◌⊎◌, inl, inr}

pub data Result {ℓ κ} (E : Type ℓ) (A : Type κ) : Type (ℓ ⊔ κ) where
  ok : A → Result E A
  err : E → Result E A

infixl 5 ◌>>=◌ ◌>>◌
abbrev pub ◌>>=◌ {ℓ κ υ} :
    {E : Type ℓ} {A : Type κ} {B : Type υ} → Result E A → (A → Result E B) → Result E B
ok value >>= next = next value
err fault >>= next = err fault

abbrev pub ◌>>◌ {ℓ κ} : {E : Type ℓ} {B : Type κ} → Result E (Unit {0}) → Result E B → Result E B
first >> second = first >>= λ done. second

-- `if !test { return Err(e) }`.
abbrev pub guard {ℓ} : {E : Type ℓ} → Bool → E → Result E (Unit {0})
guard true fault = ok tt
guard false fault = err fault

pub >>=-eq-ok {ℓ κ υ} :
    {E : Type ℓ} {A : Type κ} {B : Type υ} (first : Result E A) (next : A → Result E B) {value : B}
    → (first >>= next) ≡ ok value
    → (x : A) × (first ≡ ok x) × (next x ≡ ok value)
>>=-eq-ok (err fault) next is = cc
>>=-eq-ok (ok x) next is = (x, refl, is)

pub Result-cases {ℓ κ} :
    {E : Type ℓ} {A : Type κ} (r : Result E A) → ((a : A) × (r ≡ ok a)) ⊎ ((e : E) × (r ≡ err e))
Result-cases (ok a) = inl (a, refl)
Result-cases (err e) = inr (e, refl)

-- A successful bind behind a guard: the test passed and the rest succeeded.
pub guard-eq-ok {ℓ κ} :
    {E : Type ℓ} {A : Type κ} (b : Bool) (e : E) (f : Unit {0} → Result E A) {a : A}
    → (guard b e >>= f) ≡ ok a
    → (b ≡ true) × (f tt ≡ ok a)
guard-eq-ok true e f h = (refl, h)
guard-eq-ok false e f h = cc

-- A statement about a result, if it is a success. As a family it shows its arguments.
pub data Ensures {ℓ κ υ} {E : Type ℓ} {A : Type κ} (P : A → Type υ) (r : Result E A)
    : Type (ℓ ⊔ κ ⊔ υ) where
  holds : ((a : A) → r ≡ ok a → P a) → Ensures P r

pub Ensures-elim {ℓ κ υ} :
    {E : Type ℓ} {A : Type κ} {P : A → Type υ} {r : Result E A} {a : A}
    → Ensures P r
    → r ≡ ok a
    → P a
Ensures-elim {a} (holds h) e = h a e

pub Ensures-bind {ℓ κ υ ν μ} :
    {E : Type ℓ} {A : Type κ} {B : Type υ} (Q : A → Type ν) {P : B → Type μ} {m : Result E A}
    {f : A → Result E B}
    → Ensures Q m
    → ((a : A) → Q a → Ensures P (f a))
    → Ensures P (m >>= f)
Ensures-bind Q {P} {m} {f} (holds hm) hf =
    holds (λ b e. let (a, ma, fa) = >>=-eq-ok m f e in Ensures-elim (hf a (hm a ma)) fa)

value_or {ℓ κ} : {E : Type ℓ} {A : Type κ} → A → Result E A → A
value_or d (ok a) = a
value_or d (err e) = d

pub ok_injective {ℓ κ} :
    {E : Type ℓ} {A : Type κ} {x y : A} → ◌≡◌ {A = Result E A} (ok x) (ok y) → x ≡ y
unfolding value_or
ok_injective {x} e = ap (value_or x) e

pub Ensures-ok {ℓ κ υ} :
    {E : Type ℓ} {A : Type κ} (P : A → Type υ) {x : A} → P x → Ensures {E = E} P (ok x)
Ensures-ok P {x} p = holds (λ a e. subst P (ok_injective e) p)

pub Ensures-guard {ℓ} : {E : Type ℓ} (b : Bool) (e : E) → Ensures (λ _. b ≡ true) (guard b e)
Ensures-guard true e = holds (λ a eq. refl)
Ensures-guard false e = holds (λ a eq. cc)

pub Ensures-any {ℓ κ} : {E : Type ℓ} {A : Type κ} (r : Result E A) → Ensures (λ _. Unit {0}) r
Ensures-any r = holds (λ a e. tt)
