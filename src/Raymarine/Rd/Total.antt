-- ===== src/Raymarine/Rd/Total.antt =====
-- The loop of `process_frame` of src/lib/brand/raymarine/report/rd.rs ends.
use mayara_server.Common.{
  ℕ, zero, suc, ◌+◌, ◌-◌, ◌*◌, ◌%◌, ◌^◌, ◌≤◌, ◌<◌, ◌≡◌, ◌≢◌, refl, arith, Bool, true, false, List,
  [], ◌∷◌, ◌++◌, Option, none, some, Result, ok, err, ◌>>=◌, Ensures, Ensures-elim, Ensures-bind,
  Ensures-ok, Ensures-any, length, drop, take, length-drop, leb, Bool-cases, inl, inr,
  if◌then◌else◌, ◌==◌,
}
use mayara_server.Raymarine.Spoke.{
  Fault, slice_out_of_range, index_out_of_bounds, division_by_zero, stuck, marker, samples,
  push_run, process_spoke, unpack,
}
use mayara_server.Raymarine.Rd.{
  RaymarineReportReceiver, Event, emit, read_line, read_spoke, read_spokes, skip_header2, slice_to,
  process_frame, line_type, is_frame, rotated, new_spoke_message, add_spoke, u32_at,
}

-- The result is a value or a panic: no fuel ran out.
pub data Runs {ℓ} {A : Type ℓ} (r : Result Fault A) : Type ℓ where
  runs : r ≢ err stuck → Runs r

Runs-elim {ℓ} : {A : Type ℓ} {r : Result Fault A} → Runs r → r ≢ err stuck
Runs-elim (runs h) = h

Runs-ok {ℓ} : {A : Type ℓ} {a : A} → Runs (ok a)
Runs-ok = runs (λ e. cc)

Runs-slice {ℓ} : {A : Type ℓ} → Runs {A = A} (err slice_out_of_range)
Runs-slice = runs (λ e. cc)

Runs-index {ℓ} : {A : Type ℓ} → Runs {A = A} (err index_out_of_bounds)
Runs-index = runs (λ e. cc)

Runs-division {ℓ} : {A : Type ℓ} → Runs {A = A} (err division_by_zero)
Runs-division = runs (λ e. cc)

Runs-bind {ℓ κ} :
    {A : Type ℓ} {B : Type κ} (m : Result Fault A) (f : A → Result Fault B)
    → Runs m
    → ((a : A) → m ≡ ok a → Runs (f a))
    → Runs (m >>= f)
Runs-bind (ok a) f hm hf = hf a refl
Runs-bind (err slice_out_of_range) f hm hf = Runs-slice
Runs-bind (err index_out_of_bounds) f hm hf = Runs-index
Runs-bind (err division_by_zero) f hm hf = Runs-division
Runs-bind (err stuck) f (runs h) hf = absurd (h refl)

Runs-if {ℓ} :
    {A : Type ℓ} (b : Bool) (x y : Result Fault A) → Runs x → Runs y → Runs (if b then x else y)
Runs-if true x y hx hy = hx
Runs-if false x y hx hy = hy

unpack-Runs :
    (pixels : ℕ → List ℕ) (out : List ℕ) (left : ℕ) (bytes : List ℕ)
    → Runs (unpack pixels out left bytes)
unfolding unpack
unpack-Runs pixels out zero bytes = Runs-ok
unpack-Runs pixels out (suc left) [] = Runs-index
unpack-Runs pixels out (suc left) (b ∷ []) =
    Runs-if (b == marker) _ _ Runs-index (unpack-Runs pixels (out ++ pixels b) left [])
unpack-Runs pixels out (suc left) (b ∷ c ∷ []) =
    Runs-if (b == marker) _ _ Runs-index (unpack-Runs pixels (out ++ pixels b) left (c ∷ []))
unpack-Runs pixels out (suc left) (b ∷ c ∷ v ∷ bytes) =
    Runs-if (b == marker) _ _ (unpack-Runs pixels (out ++ push_run c (pixels v)) (left - 2) bytes)
      (unpack-Runs pixels (out ++ pixels b) left (c ∷ v ∷ bytes))

slice_to-Runs : (n : ℕ) (bytes : List ℕ) → Runs (slice_to n bytes)
slice_to-Runs n bytes = Runs-if (leb n (length bytes)) _ _ Runs-ok Runs-slice

skip_header2-Runs : (rest : List ℕ) → Runs (skip_header2 rest)
unfolding skip_header2
skip_header2-Runs rest = Runs-bind _ _ (slice_to-Runs 8 (drop 40 rest)) (λ a e. Runs-ok)

process_spoke-Runs :
    (hd : Bool) (n : ℕ) (spoke : List ℕ) (len : ℕ) → Runs (process_spoke hd n spoke len)
unfolding process_spoke
process_spoke-Runs hd n spoke len =
    Runs-bind _ _ (unpack-Runs (samples hd) [] len spoke) (λ a e. Runs-ok)

read_line-Runs :
    (r : RaymarineReportReceiver) (hd : Bool) (n : ℕ) (rest : List ℕ) → Runs (read_line r hd n rest)
unfolding read_line
read_line-Runs r hd n rest = Runs-bind _ _ (skip_header2-Runs rest) (λ start e.
    Runs-bind _ _ (slice_to-Runs 12 (drop start rest)) (λ header3 e'. Runs-if _ _ _ Runs-ok (
      Runs-bind _ _ (Runs-if (r.spokes_per_revolution == 0) _ _ Runs-division Runs-ok)
        (λ angle e''. Runs-bind _ _ (process_spoke-Runs hd n _ _) (λ pixels e'''. Runs-ok)))))

read_spoke-Runs : (r : RaymarineReportReceiver) (rest : List ℕ) → Runs (read_spoke r rest)
unfolding read_spoke
read_spoke-Runs r rest = Runs-if _ _ _ Runs-ok (by_type (line_type rest))
  where
    by_type :
        (t : Option (Bool × ℕ))
        → Runs (elim t [
          | none ↦ ok none
          | some (hd_type, returns_per_line) ↦ read_line r hd_type returns_per_line rest
        ])
    by_type none = Runs-ok
    by_type (some (hd, n)) = read_line-Runs r hd n rest

-- A round goes on by 40 bytes at least.
abbrev GoesOn : Option (Event × ℕ) → Type 0
GoesOn none = Unit
GoesOn (some (e, n)) = 40 ≤ n

Ensures-if {ℓ κ} :
    {A : Type ℓ} {P : A → Type κ} (b : Bool) (x y : Result Fault A)
    → Ensures P x
    → Ensures P y
    → Ensures P (if b then x else y)
Ensures-if true x y hx hy = hx
Ensures-if false x y hx hy = hy

skip_header2-Ensures : (rest : List ℕ) → Ensures (λ n. 40 ≤ n) (skip_header2 rest)
unfolding skip_header2
skip_header2-Ensures rest =
    Ensures-bind _ (Ensures-any (slice_to 8 (drop 40 rest)))
      (λ header2 h. Ensures-ok _ (ground arith))

read_line-GoesOn :
    (r : RaymarineReportReceiver) (hd : Bool) (n : ℕ) (rest : List ℕ)
    → Ensures GoesOn (read_line r hd n rest)
unfolding read_line
read_line-GoesOn r hd n rest =
    Ensures-bind (λ n. 40 ≤ n) (skip_header2-Ensures rest)
      (λ start h. Ensures-bind _ (Ensures-any (slice_to 12 (drop start rest))) (λ header3 h'.
        Ensures-if _ _ _ (Ensures-ok GoesOn tt) (
          Ensures-bind _ (Ensures-any (rotated (u32_at 8 rest) r.spokes_per_revolution))
            (λ angle h''.
              let line = λ (header3 : List ℕ). take (u32_at 8 header3) (drop (start + 12) rest) in
              Ensures-bind _
                (Ensures-any (process_spoke hd n (line header3) (length (line header3))))
                (λ pixels h3.
                  Ensures-ok GoesOn
                    {x = some (
                      add_spoke (r.range_meters * 4 % 2 ^ 32) angle pixels,
                      start + u32_at 4 header3,
                    )}
                    (omega arith))))))

read_spoke-GoesOn :
    (r : RaymarineReportReceiver) (rest : List ℕ) → Ensures GoesOn (read_spoke r rest)
unfolding read_spoke
read_spoke-GoesOn r rest = Ensures-if _ _ _ (Ensures-ok GoesOn tt) (by_type (line_type rest))
  where
    by_type :
        (t : Option (Bool × ℕ))
        → Ensures GoesOn (elim t [
          | none ↦ ok none
          | some (hd_type, returns_per_line) ↦ read_line r hd_type returns_per_line rest
        ])
    by_type none = Ensures-ok GoesOn tt
    by_type (some (hd, n)) = read_line-GoesOn r hd n rest

round-Runs :
    (go : RaymarineReportReceiver → List ℕ → Result Fault RaymarineReportReceiver)
    (r : RaymarineReportReceiver) (rest : List ℕ) (s : Option (Event × ℕ))
    → GoesOn s
    → ((e : Event) (n : ℕ) → 40 ≤ n → Runs (go (emit e r) (drop n rest)))
    → Runs (elim s [ none ↦ ok r | some (e, n) ↦ go (emit e r) (drop n rest) ])
round-Runs go r rest none g h = Runs-ok
round-Runs go r rest (some (e, n)) g h = h e n g

read_spokes-Runs :
    (fuel : ℕ) (r : RaymarineReportReceiver) (rest : List ℕ)
    → length rest < fuel
    → Runs (read_spokes fuel r rest)
unfolding read_spokes
read_spokes-Runs zero r rest h = absurd (omega arith)
read_spokes-Runs (suc fuel) r rest h = elim (Bool-cases (leb (length rest) 40)) [
  | inl done ↦ rw done Runs-ok
  | inr more ↦ rw more (
      Runs-bind (read_spoke r rest) _ (read_spoke-Runs r rest) (λ s e.
        round-Runs (read_spokes fuel) r rest s (Ensures-elim (read_spoke-GoesOn r rest) e)
          (λ e' n far.
            read_spokes-Runs fuel (emit e' r) (drop n rest)
              (ground (arith, more, far, length-drop n rest)))))
]

process_frame-Runs : (bytes : List ℕ) (r : RaymarineReportReceiver) → Runs (process_frame bytes r)
unfolding process_frame
process_frame-Runs bytes r =
    Runs-if (is_frame r bytes) _ _
      (Runs-bind _ _
        (read_spokes-Runs (suc (length bytes)) (emit new_spoke_message r) (drop 32 bytes)
          (omega (arith, length-drop 32 bytes)))
        (λ r' e. Runs-ok))
      Runs-ok

-- On any bytes and in any state, `process_frame` returns or panics: its loop ends.
pub process_frame-ne-stuck :
    (bytes : List ℕ) (r : RaymarineReportReceiver) → process_frame bytes r ≢ err stuck
process_frame-ne-stuck bytes r = Runs-elim (process_frame-Runs bytes r)
