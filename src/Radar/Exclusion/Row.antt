-- ===== src/Radar/Exclusion/Row.antt =====
-- The bits of one row of the mask of src/lib/radar/exclusion.rs.
use Prim.Native.Nat.{bit_or}
use mayara_server.Common.{
  ℕ, zero, suc, ◌+◌, ◌*◌, ◌/◌, ◌%◌, ◌^◌, ◌≤◌, ◌<◌, ◌≡◌, refl, arith, Bool, true, false, ◌&&◌, ◌||◌,
  List, [], ◌∷◌, ok, err, length, get_or, set, length-set, lt→ltb, ltb→lt, ==_iff, Bool-cases, inl,
  inr, ap, ltb, leb, ◌∙◌, ◌==◌, if◌then◌else◌,
}
use mayara_server.Bytes.{IsByte, All}
use mayara_server.Radar.Exclusion.{index_out_of_bounds, set_pixel, set_pixels}
use mayara_server.Bytes.Bits.{all_below, all_below_sound}

same : Bool → Bool → Bool
same true b = b
same false true = false
same false false = true

-- Bit `j` of a byte.
abbrev pub bit : ℕ → ℕ → Bool
bit b j = b / 2 ^ j % 2 == 1

bits_agree :
    all_below 8 (λ i.
      all_below 8 (λ j. all_below 256 (λ b. same (bit (bit_or b (2 ^ i)) j) ((i == j) || bit b j))))
    ≡ true
unfolding same
bits_agree = refl

-- The bit of a pixel in a row.
abbrev pub hidden : List ℕ → ℕ → Bool
hidden row q = bit (get_or row (q / 8) 0) (q % 8)

same-eq : (a b : Bool) → same a b ≡ true → a ≡ b
unfolding same
same-eq true true h = refl
same-eq true false h = cc
same-eq false true h = cc
same-eq false false h = refl

bit-bit_or :
    (b i j : ℕ) → b < 256 → i < 8 → j < 8 → bit (bit_or b (2 ^ i)) j ≡ ((i == j) || bit b j)
bit-bit_or b i j hb hi hj =
    let at_j =
      λ (b' : ℕ) (i' j' : ℕ). same (bit (bit_or b' (2 ^ i')) j') ((i' == j') || bit b' j') in
    same-eq _ _ (
      all_below_sound 256 (λ b'. at_j b' i j)
        (all_below_sound 8 (λ j'. all_below 256 (λ b'. at_j b' i j'))
          (all_below_sound 8 (λ i'. all_below 8 (λ j'. all_below 256 (λ b'. at_j b' i' j')))
            bits_agree i hi)
          j hj)
        b hb)

bit_or_small : all_below 8 (λ i. all_below 256 (λ b. ltb (bit_or b (2 ^ i)) 256)) ≡ true
bit_or_small = refl

bit_or-IsByte : (b i : ℕ) → b < 256 → i < 8 → bit_or b (2 ^ i) < 256
bit_or-IsByte b i hb hi = ltb→lt (bit_or b (2 ^ i)) 256 (
    all_below_sound 256 (λ b'. ltb (bit_or b' (2 ^ i)) 256)
      (all_below_sound 8 (λ i'. all_below 256 (λ b'. ltb (bit_or b' (2 ^ i')) 256)) bit_or_small i
        hi)
      b hb)

suc_eq : (i j : ℕ) → (suc i == suc j) ≡ (i == j)
suc_eq i j = ground arith

get_or-set :
    (row : List ℕ) (i j v : ℕ)
    → i < length row
    → get_or (set row i v) j 0 ≡ (if i == j then v else get_or row j 0)
get_or-set [] i j v h = absurd (omega arith)
get_or-set (b ∷ row) zero zero v h = refl
get_or-set (b ∷ row) zero (suc j) v h = ground arith
get_or-set (b ∷ row) (suc i) zero v h = ground arith
get_or-set (b ∷ row) (suc i) (suc j) v h = rw (suc_eq i j) (get_or-set row i j v (omega arith))

get_or-IsByte : (row : List ℕ) (i : ℕ) → All IsByte row → get_or row i 0 < 256
get_or-IsByte [] i h = omega arith
get_or-IsByte (b ∷ row) zero h = h.0
get_or-IsByte (b ∷ row) (suc i) h = get_or-IsByte row i h.1

All-set : (row : List ℕ) (i v : ℕ) → All IsByte row → v < 256 → All IsByte (set row i v)
All-set [] i v h hv = tt
All-set (b ∷ row) zero v h hv = (hv, h.1)
All-set (b ∷ row) (suc i) v h hv = (h.0, All-set row i v h.1 hv)

-- A row in which the pixels of `new` are hidden besides.
pub record Hides (new : ℕ → Bool) (row row' : List ℕ) : Type 0 where
  pub length_same : length row' ≡ length row
  pub bytes : All IsByte row'
  pub hidden_is : (q : ℕ) → hidden row' q ≡ (new q || hidden row q)

-- The byte of a pixel with its bit set.
abbrev marked : ℕ → List ℕ → ℕ
marked p row = bit_or (get_or row (p / 8) 0) (2 ^ (p % 8))

hidden-set :
    (p : ℕ) (row : List ℕ) (q : ℕ)
    → p / 8 < length row
    → All IsByte row
    → hidden (set row (p / 8) (marked p row)) q ≡ ((p == q) || hidden row q)
hidden-set p row q room bytes = elim (Bool-cases (p / 8 == q / 8)) [
  | inl together ↦
      let byte : p / 8 ≡ q / 8 = (==_iff (p / 8) (q / 8)).0 together in
      let pixel : (p % 8 == q % 8) ≡ (p == q) = ground (arith, byte) in
      rw (get_or-set row (p / 8) (q / 8) (marked p row) room) (
        rw together (
          rw
            (bit-bit_or (get_or row (p / 8) 0) (p % 8) (q % 8) (get_or-IsByte row (p / 8) bytes)
              (omega arith) (omega arith))
            (rw pixel (ap (λ (i : ℕ). (p == q) || bit (get_or row i 0) (q % 8)) byte))))
  | inr apart ↦
      let pixel : (p == q) ≡ false = ground (arith, apart) in
      rw (get_or-set row (p / 8) (q / 8) (marked p row) room) (rw apart (rw pixel refl))
]

pub set_pixel-Hides :
    (p : ℕ) (row : List ℕ)
    → p / 8 < length row
    → All IsByte row
    → (row' : List ℕ) × (set_pixel p row ≡ ok row') × Hides (λ q. p == q) row row'
unfolding set_pixel
set_pixel-Hides p row room bytes = (
  set row (p / 8) (marked p row),
  rw (lt→ltb (p / 8) (length row) room) refl,
  record {
    length_same = length-set row (p / 8) (marked p row);
    bytes =
        All-set row (p / 8) (marked p row) bytes
          (bit_or-IsByte _ (p % 8) (get_or-IsByte row (p / 8) bytes) (omega arith));
    hidden_is = λ q. hidden-set p row q room bytes;
  },
)

-- Behind the row.
pub set_pixel-err :
    (p : ℕ) (row : List ℕ) → length row ≤ p / 8 → set_pixel p row ≡ err index_out_of_bounds
unfolding set_pixel
set_pixel-err p row out = ground (arith, out)

-- The pixels from `start` on, as many as `count`.
abbrev pub within : ℕ → ℕ → ℕ → Bool
within start count q = leb start q && ltb q (start + count)

within-suc :
    (start count q : ℕ) → (within (suc start) count q || (start == q)) ≡ within start (suc count) q
within-suc start count q = ground arith

||-assoc : (a b c : Bool) → (a || (b || c)) ≡ ((a || b) || c)
||-assoc true b c = refl
||-assoc false b c = refl

pub set_pixels-Hides :
    (start count : ℕ) (row : List ℕ)
    → start + count ≤ 8 * length row
    → All IsByte row
    → (row' : List ℕ) × (set_pixels start count row ≡ ok row') × Hides (within start count) row row'
unfolding set_pixels
set_pixels-Hides start zero row room bytes =
    (row, refl, record { length_same = refl; bytes = bytes; hidden_is = λ q. ground arith })
set_pixels-Hides start (suc count) row room bytes =
    let (one, first, h) = set_pixel-Hides start row (omega arith) bytes in
    let (all, rest, t) =
      set_pixels-Hides (suc start) count one (omega (arith, h.length_same)) h.bytes in
    (
      all,
      rw first rest,
      record {
        length_same = t.length_same ∙ h.length_same;
        bytes = t.bytes;
        hidden_is = λ q.
            rw (t.hidden_is q, h.hidden_is q)
              (||-assoc (within (suc start) count q) (start == q) (hidden row q)
                ∙ ap (λ b. b || hidden row q) (within-suc start count q));
      },
    )

-- A pixel of the range is behind the row.
pub set_pixels-err :
    (start count : ℕ) (row : List ℕ)
    → All IsByte row
    → start ≤ 8 * length row
    → 8 * length row < start + count
    → set_pixels start count row ≡ err index_out_of_bounds
unfolding set_pixels
set_pixels-err start zero row bytes low high = absurd (omega arith)
set_pixels-err start (suc count) row bytes low high =
    elim (Bool-cases (ltb (start / 8) (length row))) [
      | inl room ↦
          let (one, first, h) =
            set_pixel-Hides start row (ltb→lt (start / 8) (length row) room) bytes in
          rw first (
            set_pixels-err (suc start) count one h.bytes
              (omega (arith, h.length_same, ltb→lt (start / 8) (length row) room))
              (omega (arith, h.length_same)))
      | inr full ↦ rw (set_pixel-err start row (ground (arith, full))) refl
    ]
