-- ===== src/Furuno/Stretch.antt =====
-- `stretch_spoke` of src/lib/brand/furuno/report.rs: nearest-neighbour stretching of a spoke.
use Prim.Native.Nat.{max}
use mayara_server.Common.{
  ℕ, zero, suc, ◌+◌, ◌-◌, ◌*◌, ◌/◌, ◌≤◌, ◌<◌, ◌≡◌, refl, ap, arith, min, false, List, [], ◌∷◌, some,
  length, replicate, take, get_or, get_elem?, leb, ◌==◌, if◌then◌else◌, length-take,
  length-replicate, Bool-cases, inl, inr, ◌||◌, leb→le, ◌∙◌,
}

-- `out[i] = src[(i * effective) / dst_len]` for `i` from `dst_len - left` on.
unfoldable pub stretch_loop : List ℕ → ℕ → ℕ → ℕ → List ℕ
stretch_loop src effective dst_len zero = []
stretch_loop src effective dst_len (suc left) =
    get_or src ((dst_len - suc left) * effective / dst_len) 0
    ∷ stretch_loop src effective dst_len left

unfoldable pub stretch_spoke : List ℕ → ℕ → ℕ → List ℕ
stretch_spoke src src_effective dst_len =
    let effective = max (min src_effective (length src)) 1 in
    if length src == 0 || dst_len == 0
    then replicate dst_len 0
    else if leb dst_len effective
    then take dst_len src
    else stretch_loop src effective dst_len dst_len

length-stretch_loop :
    (src : List ℕ) (effective dst_len left : ℕ)
    → length (stretch_loop src effective dst_len left) ≡ left
unfolding stretch_loop
length-stretch_loop src effective dst_len zero = refl
length-stretch_loop src effective dst_len (suc left) =
    ap suc (length-stretch_loop src effective dst_len left)

-- The result has the length asked for, on every branch.
pub length-stretch_spoke :
    (src : List ℕ) (src_effective dst_len : ℕ)
    → length (stretch_spoke src src_effective dst_len) ≡ dst_len
unfolding stretch_spoke
length-stretch_spoke src src_effective dst_len = ground (
  arith,
  length-replicate dst_len (zero),
  length-take dst_len src,
  length-stretch_loop src (max (min src_effective (length src)) 1) dst_len dst_len,
)

below : (i e d : ℕ) → i < d → 0 < e → i * e / d < e
below i e d h p = grind arith

stretch_loop-get_elem? :
    (src : List ℕ) (effective dst_len left i : ℕ)
    → i < left
    → left ≤ dst_len
    → get_elem? (stretch_loop src effective dst_len left) i
      ≡ some (get_or src ((dst_len - left + i) * effective / dst_len) 0)
unfolding stretch_loop
stretch_loop-get_elem? src effective dst_len zero i h le = absurd (omega arith)
stretch_loop-get_elem? src effective dst_len (suc left) zero h le =
    ap (λ (j : ℕ). some (get_or src (j * effective / dst_len) 0)) (omega arith)
stretch_loop-get_elem? src effective dst_len (suc left) (suc i) h le =
    stretch_loop-get_elem? src effective dst_len left i (omega arith) (omega arith)
    ∙ ap (λ (j : ℕ). some (get_or src (j * effective / dst_len) 0)) (omega arith)

get_or-get_elem? : (xs : List ℕ) (i d : ℕ) → i < length xs → some (get_or xs i d) ≡ get_elem? xs i
get_or-get_elem? [] i d h = absurd (omega arith)
get_or-get_elem? (x ∷ xs) zero d h = refl
get_or-get_elem? (x ∷ xs) (suc i) d h = get_or-get_elem? xs i d (omega arith)

get_elem?-take : (n : ℕ) (xs : List ℕ) (i : ℕ) → i < n → get_elem? (take n xs) i ≡ get_elem? xs i
get_elem?-take zero xs i h = absurd (omega arith)
get_elem?-take (suc n) [] i h = refl
get_elem?-take (suc n) (x ∷ xs) zero h = refl
get_elem?-take (suc n) (x ∷ xs) (suc i) h = get_elem?-take n xs i (omega arith)

-- The samples that count: at least one, and no more than there are.
abbrev pub effective_samples : List ℕ → ℕ → ℕ
effective_samples src src_effective = max (min src_effective (length src)) 1

-- Where sample `i` of the result comes from.
abbrev pub source_index : ℕ → ℕ → ℕ → ℕ
source_index effective dst_len i = if leb dst_len effective then i else i * effective / dst_len

-- Each sample of the result is one of the effective samples of the source, which is never read out
-- of bounds: the sample at the same place if there are enough, and else the one at the same
-- fraction of the length.
pub stretch_spoke_samples :
    (src : List ℕ) (src_effective dst_len i : ℕ)
    → 0 < length src
    → i < dst_len
    → let j = source_index (effective_samples src src_effective) dst_len i in
      (j < effective_samples src src_effective)
      × (j < length src)
      × (get_elem? (stretch_spoke src src_effective dst_len) i ≡ get_elem? src j)
unfolding stretch_spoke
stretch_spoke_samples src src_effective dst_len i some_src h =
    let effective = effective_samples src src_effective in
    let inside = below i effective dst_len h (omega arith) in
    let some_len : (length src == 0) ≡ false = ground arith in
    let some_dst : (dst_len == 0) ≡ false = ground arith in
    elim (Bool-cases (leb dst_len effective)) [
      | inl enough ↦
          let le = leb→le dst_len effective enough in
          rw enough
            (omega arith, omega arith, rw (some_len, some_dst) (get_elem?-take dst_len src i h))
      | inr fewer ↦ rw fewer (
        inside,
        omega arith,
        rw (some_len, some_dst)
            (stretch_loop-get_elem? src effective dst_len dst_len i h (omega arith)
              ∙ ap (λ (k : ℕ). some (get_or src (k * effective / dst_len) 0)) (omega arith)
              ∙ get_or-get_elem? src _ 0 (omega arith)),
      )
    ]
