-- ===== src/Raymarine/Spoke/Ops.antt =====
-- The spoke encoding of src/lib/brand/raymarine/report as a list of operations.
use Prim.Native.Nat.{bit_and}
use mathlib.Core.Path.{subst}
use mayara_server.Common.{
  ℕ, zero, suc, ◌-◌, ◌*◌, ◌/◌, ◌%◌, ◌<◌, ◌≡◌, inl, inr, refl, sym, ap, ◌∙◌, arith, Bool, true,
  false, List, [], ◌∷◌, ◌++◌, Result, ok, err, ◌>>=◌, >>=-eq-ok, ◌↔◌, ok_injective, length, take,
  append_assoc, append-nil, ◌==◌, Bool-cases,
}
use mayara_server.Bytes.{All, IsByte}
use mayara_server.Bytes.Bits.{low_half, agree_below, agree_below→eq}
use mayara_server.Raymarine.Spoke.{
  Fault, marker, samples, push_run, unpack, process_spoke, process_quantum_spoke,
}

pub data Op : Type 0 where
  literal : ℕ → Op
  run : ℕ → ℕ → Op

-- A literal is not the byte that announces a run.
abbrev pub IsOp : Op → Type 0
IsOp (literal b) = (b == 0x5c) ≡ false
IsOp (run count value) = Unit

unfoldable pub encode : List Op → List ℕ
encode [] = []
encode (literal b ∷ ops) = b ∷ encode ops
encode (run count value ∷ ops) = 0x5c ∷ count ∷ value ∷ encode ops

-- The list, as many times over.
unfoldable pub times : ℕ → List ℕ → List ℕ
times zero xs = []
times (suc n) xs = xs ++ times n xs

-- The samples that the operations stand for.
unfoldable pub expand : (ℕ → List ℕ) → List Op → List ℕ
expand pixels [] = []
expand pixels (literal b ∷ ops) = pixels b ++ expand pixels ops
expand pixels (run count value ∷ ops) = times count (pixels value) ++ expand pixels ops

push_run-times : (n : ℕ) (xs : List ℕ) → push_run n xs ≡ times n xs
unfolding push_run times
push_run-times zero xs = refl
push_run-times (suc n) xs = ap (λ (ys : List ℕ). xs ++ ys) (push_run-times n xs)

absurd_err {ℓ} :
    {X : Type ℓ} {e : Fault} {a : List ℕ} → ◌≡◌ {A = Result Fault (List ℕ)} (err e) (ok a) → X
absurd_err h = cc

unpack_literal :
    (pixels : ℕ → List ℕ) (out : List ℕ) (b left : ℕ) (bytes : List ℕ)
    → (b == marker) ≡ false
    → unpack pixels out (suc left) (b ∷ bytes) ≡ unpack pixels (out ++ pixels b) left bytes
unfolding unpack
unpack_literal pixels out b left [] h = rw h
unpack_literal pixels out b left (c ∷ []) h = rw h
unpack_literal pixels out b left (c ∷ v ∷ bytes) h = rw h

less_two : (n : ℕ) → suc (suc n) - 2 ≡ n
less_two n = omega arith

unpack-encode :
    (pixels : ℕ → List ℕ) (out : List ℕ) (ops : List Op)
    → All IsOp ops
    → unpack pixels out (length (encode ops)) (encode ops) ≡ ok (out ++ expand pixels ops)
unfolding unpack encode expand
unpack-encode pixels out [] h = ap ok (sym (append-nil out))
unpack-encode pixels out (literal b ∷ ops) h =
    unpack_literal pixels out b (length (encode ops)) (encode ops) h.0
    ∙ unpack-encode pixels (out ++ pixels b) ops h.1
    ∙ ap ok (append_assoc out (pixels b) (expand pixels ops))
unpack-encode pixels out (run count value ∷ ops) h =
    ap (λ left. unpack pixels (out ++ push_run count (pixels value)) left (encode ops))
      (less_two (length (encode ops)))
    ∙ unpack-encode pixels (out ++ push_run count (pixels value)) ops h.1
    ∙ ap ok (append_assoc out (push_run count (pixels value)) (expand pixels ops))
    ∙ ap (λ (xs : List ℕ). ok (out ++ (xs ++ expand pixels ops)))
        (push_run-times count (pixels value))

-- What the bytes decode to, if they do.
abbrev pub IsEncoding : (ℕ → List ℕ) → List ℕ → List ℕ → List ℕ → Type 0
IsEncoding pixels out bytes result =
    (ops : List Op) × All IsOp ops × (bytes ≡ encode ops) × (result ≡ out ++ expand pixels ops)

literal-IsEncoding :
    (pixels : ℕ → List ℕ) (out : List ℕ) (b : ℕ) (bytes result : List ℕ)
    → (b == marker) ≡ false
    → IsEncoding pixels (out ++ pixels b) bytes result
    → IsEncoding pixels out (b ∷ bytes) result
unfolding encode expand
literal-IsEncoding pixels out b bytes result h (ops, are, is, gives) = (
  literal b ∷ ops,
  (h, are),
  ap (λ xs. b ∷ xs) is,
  gives ∙ append_assoc out (pixels b) (expand pixels ops),
)

run-IsEncoding :
    (pixels : ℕ → List ℕ) (out : List ℕ) (b count value : ℕ) (bytes result : List ℕ)
    → (b == marker) ≡ true
    → IsEncoding pixels (out ++ push_run count (pixels value)) bytes result
    → IsEncoding pixels out (b ∷ count ∷ value ∷ bytes) result
unfolding encode expand
run-IsEncoding pixels out b count value bytes result h (ops, are, is, gives) =
    let m : b ≡ 0x5c = ground (arith, h) in
    (
      run count value ∷ ops,
      (tt, are),
      rw (m, is),
      gives
          ∙ append_assoc out (push_run count (pixels value)) (expand pixels ops)
          ∙ ap (λ (xs : List ℕ). out ++ (xs ++ expand pixels ops))
              (push_run-times count (pixels value)),
    )

unpack-IsEncoding :
    (pixels : ℕ → List ℕ) (out bytes result : List ℕ)
    → unpack pixels out (length bytes) bytes ≡ ok result
    → IsEncoding pixels out bytes result
unfolding unpack encode expand
unpack-IsEncoding pixels out [] result h =
    ([], tt, refl, sym (ok_injective h) ∙ sym (append-nil out))
unpack-IsEncoding pixels out (b ∷ []) result h = elim (Bool-cases (b == marker)) [
  | inl marks ↦ absurd_err (rw marks at h)
  | inr plain ↦
      literal-IsEncoding pixels out b [] result plain
        (unpack-IsEncoding pixels (out ++ pixels b) [] result (rw plain at h))
]
unpack-IsEncoding pixels out (b ∷ c ∷ []) result h = elim (Bool-cases (b == marker)) [
  | inl marks ↦ absurd_err (rw marks at h)
  | inr plain ↦
      literal-IsEncoding pixels out b (c ∷ []) result plain
        (unpack-IsEncoding pixels (out ++ pixels b) (c ∷ []) result (rw plain at h))
]
unpack-IsEncoding pixels out (b ∷ c ∷ v ∷ bytes) result h = elim (Bool-cases (b == marker)) [
  | inl marks ↦ run-IsEncoding pixels out b c v bytes result marks (
      unpack-IsEncoding pixels (out ++ push_run c (pixels v)) bytes result (
        ap (λ left. unpack pixels (out ++ push_run c (pixels v)) left bytes)
          (sym (less_two (length bytes)))
        ∙ rw marks at h))
  | inr plain ↦
      literal-IsEncoding pixels out b (c ∷ v ∷ bytes) result plain
        (unpack-IsEncoding pixels (out ++ pixels b) (c ∷ v ∷ bytes) result (rw plain at h))
]

-- The bytes encode operations, and the result is the front of `n` of their samples.
abbrev pub IsSpoke : (ℕ → List ℕ) → ℕ → List ℕ → List ℕ → Type 0
IsSpoke pixels n spoke result =
    (ops : List Op) × All IsOp ops × (spoke ≡ encode ops) × (result ≡ take n (expand pixels ops))

unpack-IsSpoke :
    (pixels : ℕ → List ℕ) (n : ℕ) (spoke result : List ℕ)
    → ((unpack pixels [] (length spoke) spoke >>= λ unpacked. ok (take n unpacked)) ≡ ok result)
      ↔ IsSpoke pixels n spoke result
unpack-IsSpoke pixels n spoke result = (
  λ e.
      let (unpacked, is, taken) = >>=-eq-ok (unpack pixels [] (length spoke) spoke) _ e in
      let (ops, are, bytes, gives) = unpack-IsEncoding pixels [] spoke unpacked is in
      (ops, are, bytes, sym (ok_injective taken) ∙ ap (λ (xs : List ℕ). take n xs) gives),
  λ (ops, are, bytes, gives). rw bytes (rw (unpack-encode pixels [] ops are) (ap ok (sym gives))),
)

-- The strengths in a byte: seven bits in the HD format, and otherwise the low half and the high one,
-- each scaled to seven bits.
unfoldable pub strengths : Bool → ℕ → List ℕ
strengths true b = b / 2 ∷ []
strengths false b = b % 16 * 8 ∷ b / 16 * 8 ∷ []

high_scaled : (b : ℕ) → b < 256 → bit_and b 0xf0 / 2 ≡ b / 16 * 8
unfolding agree_below
high_scaled = agree_below→eq _ _ 256 refl

samples-strengths : (hd_type : Bool) (b : ℕ) → b < 256 → samples hd_type b ≡ strengths hd_type b
unfolding samples strengths
samples-strengths true b h = refl
samples-strengths false b h = rw (low_half b h, high_scaled b h) refl

expand-agree :
    (p q : ℕ → List ℕ) (ops : List Op)
    → ((b : ℕ) → b < 256 → p b ≡ q b)
    → All IsByte (encode ops)
    → expand p ops ≡ expand q ops
unfolding expand encode
expand-agree p q [] same bytes = refl
expand-agree p q (literal b ∷ ops) same bytes =
    rw (same b bytes.0, expand-agree p q ops same bytes.1) refl
expand-agree p q (run count value ∷ ops) same bytes =
    rw (same value bytes.1.1.0, expand-agree p q ops same bytes.1.1.1) refl

IsSpoke-agree :
    (p q : ℕ → List ℕ) (n : ℕ) (spoke result : List ℕ)
    → ((b : ℕ) → b < 256 → p b ≡ q b)
    → All IsByte spoke
    → IsSpoke p n spoke result
    → IsSpoke q n spoke result
IsSpoke-agree p q n spoke result same bytes (ops, are, is, gives) =
    let coded : All IsByte (encode ops) = subst (All IsByte) is bytes in
    (ops, are, is, gives ∙ ap (λ (xs : List ℕ). take n xs) (expand-agree p q ops same coded))

-- The same with the samples as the code computes them.
pub process_spoke-samples :
    (hd_type : Bool) (n : ℕ) (spoke result : List ℕ)
    → (process_spoke hd_type n spoke (length spoke) ≡ ok result)
      ↔ IsSpoke (samples hd_type) n spoke result
unfolding process_spoke
process_spoke-samples hd_type n spoke result = unpack-IsSpoke (samples hd_type) n spoke result

-- The bytes of a spoke of the RD series, in both formats, are decoded to `result` exactly if they
-- encode operations that stand for it: `result` is the front of their strengths, a run's as many
-- times over as its count says. On other bytes it panics.
pub process_spoke-IsSpoke :
    (hd_type : Bool) (n : ℕ) (spoke result : List ℕ)
    → All IsByte spoke
    → (process_spoke hd_type n spoke (length spoke) ≡ ok result)
      ↔ IsSpoke (strengths hd_type) n spoke result
unfolding process_spoke
process_spoke-IsSpoke hd_type n spoke result bytes =
    let (read, write) = unpack-IsSpoke (samples hd_type) n spoke result in
    let same = samples-strengths hd_type in
    (
      λ e. IsSpoke-agree (samples hd_type) (strengths hd_type) n spoke result same bytes (read e),
      λ h. write (
          IsSpoke-agree (strengths hd_type) (samples hd_type) n spoke result
            (λ b low. sym (same b low)) bytes h),
    )

-- A spoke of the Quantum series is decoded to `result` exactly if its bytes encode operations whose
-- samples, looked up in the legend, begin with `result`. On other bytes it panics.
pub process_quantum_spoke-IsSpoke :
    (legend : ℕ → ℕ) (n : ℕ) (spoke result : List ℕ)
    → (process_quantum_spoke n spoke legend ≡ ok result)
      ↔ IsSpoke (λ b. legend b ∷ []) n spoke result
unfolding process_quantum_spoke
process_quantum_spoke-IsSpoke legend n spoke result =
    unpack-IsSpoke (λ b. legend b ∷ []) n spoke result
