-- ===== src/Radar/Exclusion/Mask.antt =====
-- What a mask of src/lib/radar/exclusion.rs hides, and when none can be made.
use mayara_server.Common.{
  ℕ, zero, suc, ◌+◌, ◌-◌, ◌*◌, ◌/◌, ◌%◌, ◌^◌, ◌≤◌, ◌<◌, ◌≡◌, refl, sym, ap, ◌∙◌, arith, min, Bool,
  true, false, not, ◌&&◌, ◌||◌, List, [], ◌∷◌, none, some, Result, ok, ◌>>=◌, length, get_or,
  get_elem?, replicate, length-replicate, ltb, leb, ◌==◌, if◌then◌else◌, Bool-cases, Option-cases,
  inl, inr,
}
use mayara_server.Bytes.{IsByte, All}
use mayara_server.Bytes.Bits.{all_below_sound}
use mayara_server.Radar.Exclusion.{
  ExclusionZoneInternal, Fault, ExclusionMask, set_pixels, set_range, each_spoke, in_angle,
  mark_zone, mark_zones, Spans, mark_rect, mark_rects, mask_new, byte_at, row_at, is_excluded,
}
use mayara_server.Radar.Exclusion.Row.{bit, hidden, Hides, within, set_pixels-Hides}

-- One zone, as a test of a pixel of a spoke.
abbrev pub in_zone : ExclusionZoneInternal → ℕ → ℕ → ℕ → Bool
in_zone zone pixels spoke q =
    if in_angle zone spoke
    then leb (min zone.start_pixel pixels) q && leb q (min zone.end_pixel pixels)
    else false

abbrev pub in_rect : Spans → ℕ → ℕ → ℕ → Bool
in_rect spans pixels spoke q = elim (spans spoke) [
  | none ↦ false
  | some (start_pixel, end_pixel) ↦ leb start_pixel q && leb q (min end_pixel (pixels - 1))
]

-- Rows of one length, of bytes.
abbrev pub IsGrid : ℕ → List (List ℕ) → Type 0
IsGrid n rows = All (λ row. (length row ≡ n) × All IsByte row) rows

-- Rows in which the pixels of `new` are hidden besides.
pub record Hiding (n : ℕ) (new : ℕ → ℕ → Bool) (rows rows' : List (List ℕ)) : Type 0 where
  pub rows_same : length rows' ≡ length rows
  pub grid : IsGrid n rows'
  pub hiding_is :
      (i q : ℕ)
      → i < length rows
      → hidden (get_or rows' i []) q ≡ (new i q || hidden (get_or rows i []) q)

-- The whole range.
set_range-Hides :
    (start end : ℕ) (row : List ℕ)
    → end < 8 * length row
    → All IsByte row
    → (row' : List ℕ) × (set_range start end row ≡ ok row')
      × Hides (λ q. leb start q && leb q end) row row'
unfolding set_pixels
set_range-Hides start end row room bytes = elim (Bool-cases (leb start end)) [
  | inl some_pixels ↦
      let (row', made, h) =
        set_pixels-Hides start (suc end - start) row (ground (arith, room, some_pixels)) bytes in
      (
        row',
        made,
        record {
          length_same = h.length_same;
          bytes = h.bytes;
          hidden_is = λ q. h.hidden_is q ∙ ap (λ b. b || hidden row q) (range q);
        },
      )
  | inr no_pixel ↦
      let none_left : suc end - start ≡ 0 = ground (arith, no_pixel) in
      (
        row,
        rw none_left refl,
        record { length_same = refl; bytes = bytes; hidden_is = λ q. rw (outside q no_pixel) refl },
      )
]
  where
    range : (q : ℕ) → within start (suc end - start) q ≡ (leb start q && leb q end)
    range q = ground arith

    outside : (q : ℕ) → leb start end ≡ false → (leb start q && leb q end) ≡ false
    outside q h = ground (arith, h)

Hiding-cons :
    (new : ℕ → ℕ → Bool) (n spoke : ℕ) (row row' : List ℕ) (rows rows' : List (List ℕ))
    → length row ≡ n
    → Hides (new spoke) row row'
    → Hiding n (λ i. new (suc spoke + i)) rows rows'
    → Hiding n (λ i. new (spoke + i)) (row ∷ rows) (row' ∷ rows')
Hiding-cons new n spoke row row' rows rows' len h t = record {
  rows_same = ap suc t.rows_same;
  grid = ((h.length_same ∙ len, h.bytes), t.grid);
  hiding_is = by_row;
}
  where
    by_row :
        (i q : ℕ)
        → i < suc (length rows)
        → hidden (get_or (row' ∷ rows') i []) q
          ≡ (new (spoke + i) q || hidden (get_or (row ∷ rows) i []) q)
    by_row zero q below =
        let e : spoke + 0 ≡ spoke = omega arith in
        h.hidden_is q ∙ ap (λ (k : ℕ). new k q || hidden row q) (sym e)
    by_row (suc i) q below =
        let e : suc spoke + i ≡ spoke + suc i = omega arith in
        t.hiding_is i q (omega arith) ∙ ap (λ (k : ℕ). new k q || hidden (get_or rows i []) q) e

each_spoke-Hiding :
    (round : ℕ → List ℕ → Result Fault (List ℕ)) (new : ℕ → ℕ → Bool) (n spoke : ℕ)
    (rows : List (List ℕ))
    → ((i : ℕ) (row : List ℕ)
        → length row ≡ n
        → All IsByte row
        → (row' : List ℕ) × (round i row ≡ ok row') × Hides (new i) row row')
    → IsGrid n rows
    → (rows' : List (List ℕ)) × (each_spoke round spoke rows ≡ ok rows')
      × Hiding n (λ i. new (spoke + i)) rows rows'
unfolding each_spoke
each_spoke-Hiding round new n spoke [] one grid =
    ([], refl, record { rows_same = refl; grid = tt; hiding_is = λ i q h. absurd (omega arith) })
each_spoke-Hiding round new n spoke (row ∷ rows) one grid =
    let (row', here, h) = one spoke row grid.0.0 grid.0.1 in
    let (rows', rest, t) = each_spoke-Hiding round new n (suc spoke) rows one grid.1 in
    (row' ∷ rows', rw here (rw rest refl), Hiding-cons new n spoke row row' rows rows' grid.0.0 h t)

-- From the first spoke on.
Hiding-zero :
    (new : ℕ → ℕ → Bool) (n : ℕ) (rows rows' : List (List ℕ))
    → Hiding n (λ i. new (0 + i)) rows rows'
    → Hiding n new rows rows'
Hiding-zero new n rows rows' h = record {
  rows_same = h.rows_same;
  grid = h.grid;
  hiding_is = λ i q below.
      let e : 0 + i ≡ i = omega arith in
      h.hiding_is i q below ∙ ap (λ (k : ℕ). new k q || hidden (get_or rows i []) q) e;
}

Hiding-then :
    (new more : ℕ → ℕ → Bool) (n : ℕ) (rows mid rows' : List (List ℕ))
    → Hiding n new rows mid
    → Hiding n more mid rows'
    → Hiding n (λ i q. new i q || more i q) rows rows'
Hiding-then new more n rows mid rows' h t = record {
  rows_same = t.rows_same ∙ h.rows_same;
  grid = t.grid;
  hiding_is = λ i q below.
      t.hiding_is i q (omega (arith, h.rows_same))
      ∙ ap (λ b. more i q || b) (h.hiding_is i q below)
      ∙ ||-swap (more i q) (new i q) (hidden (get_or rows i []) q);
}
  where
    ||-swap : (a b c : Bool) → (a || (b || c)) ≡ ((b || a) || c)
    ||-swap true true c = refl
    ||-swap true false c = refl
    ||-swap false true c = refl
    ||-swap false false c = refl

Hides-cong :
    {new new' : ℕ → Bool} (row row' : List ℕ)
    → ((q : ℕ) → new q ≡ new' q)
    → Hides new row row'
    → Hides new' row row'
Hides-cong row row' same h = record {
  length_same = h.length_same;
  bytes = h.bytes;
  hidden_is = λ q. h.hidden_is q ∙ ap (λ b. b || hidden row q) (same q);
}

Hides-none :
    {new : ℕ → Bool} (row : List ℕ) → ((q : ℕ) → new q ≡ false) → All IsByte row → Hides new row row
Hides-none row nothing bytes = record {
  length_same = refl;
  bytes = bytes;
  hidden_is = λ q. ap (λ b. b || hidden row q) (sym (nothing q));
}

-- A zone whose end lies within the rows.
mark_zone-Hides :
    (zone : ExclusionZoneInternal) (pixels n spoke : ℕ) (row : List ℕ)
    → min zone.end_pixel pixels < 8 * n
    → length row ≡ n
    → All IsByte row
    → (row' : List ℕ) × (mark_zone zone pixels spoke row ≡ ok row')
      × Hides (in_zone zone pixels spoke) row row'
unfolding mark_zone
mark_zone-Hides zone pixels n spoke row room len bytes = elim (Bool-cases (in_angle zone spoke)) [
  | inl covers ↦
      let (row', made, h) =
        set_range-Hides (min zone.start_pixel pixels) (min zone.end_pixel pixels) row
          (omega (arith, len)) bytes in
      (row', rw covers made, Hides-cong row row' (λ q. rw (covers, in_zone) refl) h)
  | inr passes ↦ (row, rw passes refl, Hides-none row (λ q. rw (passes, in_zone) refl) bytes)
]

mark_rect-Hides :
    (spans : Spans) (pixels n spoke : ℕ) (row : List ℕ)
    → 0 < pixels
    → pixels ≤ 8 * n
    → length row ≡ n
    → All IsByte row
    → (row' : List ℕ) × (mark_rect spans pixels spoke row ≡ ok row')
      × Hides (in_rect spans pixels spoke) row row'
unfolding mark_rect
mark_rect-Hides spans pixels n spoke row some_pixels room len bytes =
    elim (Option-cases (spans spoke)) [
      | inl misses ↦
          (row, rw (misses, mark_rect) refl, Hides-none row (λ q. rw (misses, in_rect) refl) bytes)
      | inr ((start_pixel, end_pixel), meets) ↦
          let (row', made, h) =
            set_range-Hides start_pixel (min end_pixel (pixels - 1)) row (omega (arith, len))
              bytes in
          (row', rw (meets, mark_rect) made, Hides-cong row row' (λ q. rw (meets, in_rect) refl) h)
    ]

abbrev pub in_any_zone : List ExclusionZoneInternal → ℕ → ℕ → ℕ → Bool
in_any_zone [] pixels spoke q = false
in_any_zone (zone ∷ zones) pixels spoke q =
    in_zone zone pixels spoke q || in_any_zone zones pixels spoke q

abbrev pub in_any_rect : List Spans → ℕ → ℕ → ℕ → Bool
in_any_rect [] pixels spoke q = false
in_any_rect (rect ∷ rects) pixels spoke q =
    in_rect rect pixels spoke q || in_any_rect rects pixels spoke q

-- No zone reaches behind the rows.
abbrev pub ZonesFit : ℕ → List ExclusionZoneInternal → Type 0
ZonesFit pixels zones = All (λ zone. min zone.end_pixel pixels < 8 * ((pixels + 7) / 8)) zones

Hiding-none : (n : ℕ) (rows : List (List ℕ)) → IsGrid n rows → Hiding n (λ i q. false) rows rows
Hiding-none n rows grid = record { rows_same = refl; grid = grid; hiding_is = λ i q below. refl }

mark_zones-Hiding :
    (zones : List ExclusionZoneInternal) (pixels : ℕ) (rows : List (List ℕ))
    → ZonesFit pixels zones
    → IsGrid ((pixels + 7) / 8) rows
    → (rows' : List (List ℕ)) × (mark_zones zones pixels rows ≡ ok rows')
      × Hiding ((pixels + 7) / 8) (in_any_zone zones pixels) rows rows'
unfolding mark_zones
mark_zones-Hiding [] pixels rows fit grid = (rows, refl, Hiding-none _ rows grid)
mark_zones-Hiding (zone ∷ zones) pixels rows fit grid =
    let n = (pixels + 7) / 8 in
    let (mid, first, h) =
      each_spoke-Hiding (mark_zone zone pixels) (in_zone zone pixels) n 0 rows
        (λ i row len bytes. mark_zone-Hides zone pixels n i row fit.0 len bytes) grid in
    let (rows', rest, t) = mark_zones-Hiding zones pixels mid fit.1 h.grid in
    (
      rows',
      rw first rest,
      Hiding-then (in_zone zone pixels) (in_any_zone zones pixels) n rows mid rows'
          (Hiding-zero (in_zone zone pixels) n rows mid h) t,
    )

mark_rects-Hiding :
    (rects : List Spans) (pixels : ℕ) (rows : List (List ℕ))
    → 0 < pixels
    → IsGrid ((pixels + 7) / 8) rows
    → (rows' : List (List ℕ)) × (mark_rects rects pixels rows ≡ ok rows')
      × Hiding ((pixels + 7) / 8) (in_any_rect rects pixels) rows rows'
unfolding mark_rects
mark_rects-Hiding [] pixels rows some_pixels grid = (rows, refl, Hiding-none _ rows grid)
mark_rects-Hiding (rect ∷ rects) pixels rows some_pixels grid =
    let n = (pixels + 7) / 8 in
    let (mid, first, h) =
      each_spoke-Hiding (mark_rect rect pixels) (in_rect rect pixels) n 0 rows
        (λ i row len bytes. mark_rect-Hides rect pixels n i row some_pixels (omega arith) len bytes)
        grid in
    let (rows', rest, t) = mark_rects-Hiding rects pixels mid some_pixels h.grid in
    (
      rows',
      rw first rest,
      Hiding-then (in_rect rect pixels) (in_any_rect rects pixels) n rows mid rows'
          (Hiding-zero (in_rect rect pixels) n rows mid h) t,
    )

-- The rows of a mask that hides nothing yet.
abbrev pub fresh : ℕ → ℕ → List (List ℕ)
fresh spokes n = replicate spokes (replicate n 0)

pub replicate-IsGrid : (spokes n : ℕ) → IsGrid n (fresh spokes n)
replicate-IsGrid zero n = tt
replicate-IsGrid (suc spokes) n = ((length-replicate n 0, zeros n), replicate-IsGrid spokes n)
  where
    zeros : (n : ℕ) → All IsByte (replicate n 0)
    zeros zero = tt
    zeros (suc n) = (omega arith, zeros n)

bit-zero : (j : ℕ) → j < 8 → bit 0 j ≡ false
bit-zero j h = flip (bit 0 j) (all_below_sound 8 (λ k. not (bit 0 k)) refl j h)
  where
    flip : (b : Bool) → not b ≡ true → b ≡ false
    flip true e = cc
    flip false e = refl

get_or-replicate : (n i : ℕ) → ◌≡◌ {A = ℕ} (get_or (replicate n 0) i 0) 0
get_or-replicate zero i = refl
get_or-replicate (suc n) zero = refl
get_or-replicate (suc n) (suc i) = get_or-replicate n i

hidden-replicate : (spokes n i q : ℕ) → hidden (get_or (fresh spokes n) i []) q ≡ false
hidden-replicate zero n i q = bit-zero (q % 8) (omega arith)
hidden-replicate (suc spokes) n zero q =
    rw (get_or-replicate n (q / 8)) (bit-zero (q % 8) (omega arith))
hidden-replicate (suc spokes) n (suc i) q = hidden-replicate spokes n i q

get_elem?-get_or :
    {A : Type 0} (xs : List A) (i : ℕ) (d : A)
    → i < length xs
    → get_elem? xs i ≡ some (get_or xs i d)
get_elem?-get_or [] i d h = absurd (omega arith)
get_elem?-get_or (x ∷ xs) zero d h = refl
get_elem?-get_or (x ∷ xs) (suc i) d h = get_elem?-get_or xs i d (omega arith)

pub row-length :
    (n : ℕ) (rows : List (List ℕ)) (i : ℕ)
    → i < length rows
    → IsGrid n rows
    → length (get_or rows i []) ≡ n
row-length n [] i h grid = absurd (omega arith)
row-length n (row ∷ rows) zero h grid = grid.0.0
row-length n (row ∷ rows) (suc i) h grid = row-length n rows i (omega arith) grid.1

pub row-bytes :
    (n : ℕ) (rows : List (List ℕ)) (i : ℕ) → IsGrid n rows → All IsByte (get_or rows i [])
row-bytes n [] i grid = tt
row-bytes n (row ∷ rows) zero grid = grid.0.1
row-bytes n (row ∷ rows) (suc i) grid = row-bytes n rows i grid.1

-- A bit that is looked up in bounds.
looked_up :
    (n : ℕ) (rows : List (List ℕ)) (i q : ℕ)
    → i < length rows
    → q / 8 < n
    → IsGrid n rows
    → (row_at rows i >>= λ row. byte_at row (q / 8) >>= λ b. ok (b / 2 ^ (q % 8) % 2 == 1))
      ≡ ok (hidden (get_or rows i []) q)
unfolding row_at byte_at
looked_up n rows i q below room grid =
    let len = row-length n rows i below grid in
    rw (get_elem?-get_or rows i [] below, row_at)
      (rw (get_elem?-get_or (get_or rows i []) (q / 8) 0 (omega (arith, len)), byte_at) refl)

-- What is hidden in rows that started empty is read so.
is_excluded-Hiding :
    (spokes pixels : ℕ) (rows : List (List ℕ)) (spoke pixel : ℕ) (new : ℕ → ℕ → Bool)
    → Hiding ((pixels + 7) / 8) new (fresh spokes ((pixels + 7) / 8)) rows
    → is_excluded (record { mask = rows; spokes = spokes; pixels_per_spoke = pixels }) spoke pixel
      ≡ ok ((ltb spoke spokes && ltb pixel pixels) && new spoke pixel)
unfolding is_excluded
is_excluded-Hiding spokes pixels rows spoke pixel new h =
    elim (Bool-cases (ltb spoke spokes && ltb pixel pixels)) [
      | inl inside ↦
          let n = (pixels + 7) / 8 in
          let test : (leb spokes spoke || leb pixels pixel) ≡ false = ground (arith, inside) in
          let low : spoke < spokes = ground (arith, inside) in
          let near : pixel < pixels = ground (arith, inside) in
          let all : length (fresh spokes n) ≡ spokes = length-replicate spokes (replicate n 0) in
          let below : spoke < length (fresh spokes n) = omega (arith, all) in
          rw inside (
            rw test (
              looked_up n rows spoke pixel (omega (arith, h.rows_same)) (omega arith) h.grid
              ∙ ap (λ b. ok b)
                  (h.hiding_is spoke pixel below
                    ∙ ap (λ b. new spoke pixel || b) (hidden-replicate spokes n spoke pixel)
                    ∙ ||-false (new spoke pixel))))
      | inr outside ↦
          let test : (leb spokes spoke || leb pixels pixel) ≡ true = ground (arith, outside) in
          rw outside (rw test refl)
    ]
  where
    ||-false : (b : Bool) → (b || false) ≡ b
    ||-false true = refl
    ||-false false = refl

-- If no zone reaches behind the bytes of a row, a mask is made; it hides, of the spokes and pixels
-- that there are, exactly those that lie in a zone or in a rectangle, without a panic.
pub is_excluded-mask_new :
    (zones : List ExclusionZoneInternal) (rects : List Spans) (spokes pixels : ℕ)
    → 0 < pixels
    → ZonesFit pixels zones
    → (m : ExclusionMask) × (mask_new zones rects spokes pixels ≡ ok m)
      × ((spoke pixel : ℕ)
          → is_excluded m spoke pixel
            ≡ ok (
                (ltb spoke spokes && ltb pixel pixels)
                && (in_any_zone zones pixels spoke pixel || in_any_rect rects pixels spoke pixel)))
unfolding mask_new is_excluded
is_excluded-mask_new zones rects spokes pixels some_pixels fit =
    let n = (pixels + 7) / 8 in
    let (marked, first, h) =
      mark_zones-Hiding zones pixels (fresh spokes n) fit (replicate-IsGrid spokes n) in
    let (rows, rest, t) = mark_rects-Hiding rects pixels marked some_pixels h.grid in
    (
      record { mask = rows; spokes = spokes; pixels_per_spoke = pixels },
      rw first (rw rest refl),
      λ spoke pixel. is_excluded-Hiding spokes pixels rows spoke pixel _ (
          Hiding-then (in_any_zone zones pixels) (in_any_rect rects pixels) n (fresh spokes n)
            marked rows h t),
    )
