-- ===== src/Radar/Spokes/Tally.antt =====
-- A reading of the events of `CommonRadar` of src/lib/radar/mod.rs: the spokes counted per rotation.
use mayara_server.Common.{
  ℕ, ◌+◌, ◌≡◌, refl, sym, ap, ◌∙◌, Bool, true, false, List, [], ◌∷◌, ◌++◌, Option, none, some, ◌==◌,
  Bool-cases, inl, inr,
}
use mayara_server.Radar.Spokes.{
  Event, set_heading, process_spoke, full_rotation, set_spokes, set_spoke_length, broadcast, u32,
}

-- A reading of the events: how many spokes were counted since the last rotation, starting from `n`;
-- `none` if a number handed on was not that count, or a message without a spoke was sent.
unfoldable pub tally : ℕ → List Event → Option ℕ
tally n [] = some n
tally n (process_spoke spoke ∷ es) = tally (u32 (n + 1)) es
tally n (set_spokes k ∷ es) = elim (k == n) [ true ↦ tally 0 es | false ↦ none ]
tally n (broadcast [] ∷ es) = none
tally n (e ∷ es) = tally n es

value_or : ℕ → Option ℕ → ℕ
value_or d none = d
value_or d (some n) = n

some_injective : {n m : ℕ} → ◌≡◌ {A = Option ℕ} (some n) (some m) → n ≡ m
unfolding value_or
some_injective e = ap (value_or 0) e

pub on_true :
    (x : Option ℕ) {b : Bool} → b ≡ true → ◌≡◌ {A = Option ℕ} (elim b [ true ↦ x | false ↦ none ]) x
on_true x e = rw e refl

on_false :
    (x : Option ℕ) {b : Bool}
    → b ≡ false
    → ◌≡◌ {A = Option ℕ} (elim b [ true ↦ x | false ↦ none ]) none
on_false x e = rw e refl

pub tally-append :
    (n m : ℕ) (es more : List Event) → tally n es ≡ some m → tally n (es ++ more) ≡ tally m more
unfolding tally
tally-append n m [] more h = ap (λ (k : ℕ). tally k more) (some_injective h)
tally-append n m (process_spoke spoke ∷ es) more h = tally-append (u32 (n + 1)) m es more h
tally-append n m (set_spokes k ∷ es) more h = elim (Bool-cases (k == n)) [
  | inl right ↦
      on_true (tally 0 (es ++ more)) right
      ∙ tally-append 0 m es more (sym (on_true (tally 0 es) right) ∙ h)
  | inr wrong ↦ absurd (none-ne-some (sym (on_false (tally 0 es) wrong) ∙ h))
]
  where
    none-ne-some : {n : ℕ} → ◌≡◌ {A = Option ℕ} none (some n) → ⊥
    none-ne-some e = cc
tally-append n m (broadcast [] ∷ es) more h = cc
tally-append n m (broadcast (s ∷ ss) ∷ es) more h = tally-append n m es more h
tally-append n m (set_heading k ∷ es) more h = tally-append n m es more h
tally-append n m (full_rotation ∷ es) more h = tally-append n m es more h
tally-append n m (set_spoke_length k ∷ es) more h = tally-append n m es more h
