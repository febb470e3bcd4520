-- ===== src/Radar/Exclusion/Panics.antt =====
-- When no mask of src/lib/radar/exclusion.rs can be made: a zone that ends one past the last pixel.
use mayara_server.Common.{
  ℕ, zero, suc, ◌+◌, ◌/◌, ◌%◌, ◌≤◌, ◌<◌, ◌≡◌, ◌⊎◌, refl, ap, ◌∙◌, arith, min, true, List, [], ◌∷◌,
  Result, err, ◌>>=◌, length, get_or, length-replicate, ltb, Bool-cases, Result-cases, inl, inr,
  Ensures, holds, Ensures-elim, Ensures-bind, Ensures-ok,
}
use mayara_server.Bytes.{IsByte, All}
use mayara_server.Radar.Exclusion.{
  ExclusionZoneInternal, Fault, index_out_of_bounds, set_pixel, set_pixels, in_angle, each_spoke,
  mark_zone, mark_zones, Spans, mask_new,
}
use mayara_server.Radar.Exclusion.Row.{set_pixel-Hides, set_pixel-err, set_pixels-err}
use mayara_server.Radar.Exclusion.Mask.{IsGrid, fresh, replicate-IsGrid, row-length, row-bytes}

abbrev pub Panics : {A : Type 0} → Result Fault A → Type 0
Panics r = (e : Fault) × (r ≡ err e)

-- A row of the same shape.
abbrev SameShape : List ℕ → List ℕ → Type 0
SameShape row row' = (length row' ≡ length row) × All IsByte row'

set_pixel-SameShape :
    (p : ℕ) (row : List ℕ) → All IsByte row → Ensures (SameShape row) (set_pixel p row)
set_pixel-SameShape p row bytes = elim (Bool-cases (ltb (p / 8) (length row))) [
  | inl room ↦
      let (row', made, h) = set_pixel-Hides p row (ground (arith, room)) bytes in
      rw made (Ensures-ok (SameShape row) (h.length_same, h.bytes))
  | inr full ↦ rw (set_pixel-err p row (ground (arith, full))) (holds λ a e. cc)
]

set_pixels-SameShape :
    (start count : ℕ) (row : List ℕ)
    → All IsByte row
    → Ensures (SameShape row) (set_pixels start count row)
unfolding set_pixels
set_pixels-SameShape start zero row bytes = Ensures-ok (SameShape row) (refl, bytes)
set_pixels-SameShape start (suc count) row bytes =
    Ensures-bind (SameShape row) (set_pixel-SameShape start row bytes) λ mid h. holds λ row' e.
      let (same, good) = Ensures-elim (set_pixels-SameShape (suc start) count mid h.1) e in
      (same ∙ h.0, good)

mark_zone-SameShape :
    (zone : ExclusionZoneInternal) (pixels spoke : ℕ) (row : List ℕ)
    → All IsByte row
    → Ensures (SameShape row) (mark_zone zone pixels spoke row)
unfolding mark_zone
mark_zone-SameShape zone pixels spoke row bytes = elim (Bool-cases (in_angle zone spoke)) [
  | inl covers ↦ rw covers (set_pixels-SameShape _ _ row bytes)
  | inr passes ↦ rw passes (Ensures-ok (SameShape row) (refl, bytes))
]

each_spoke-IsGrid :
    (zone : ExclusionZoneInternal) (pixels n spoke : ℕ) (rows : List (List ℕ))
    → IsGrid n rows
    → Ensures
        (λ rows'. IsGrid n rows' × (length rows' ≡ length rows))
        (each_spoke (mark_zone zone pixels) spoke rows)
unfolding each_spoke
each_spoke-IsGrid zone pixels n spoke [] grid = Ensures-ok _ (tt, refl)
each_spoke-IsGrid zone pixels n spoke (row ∷ rows) grid =
    Ensures-bind (SameShape row) (mark_zone-SameShape zone pixels spoke row grid.0.1) λ row' h.
      Ensures-bind (λ rows'. IsGrid n rows' × (length rows' ≡ length rows))
        (each_spoke-IsGrid zone pixels n (suc spoke) rows grid.1)
        λ rows' t. Ensures-ok _ (((h.0 ∙ grid.0.0, h.1), t.0), ap suc t.1)

-- A panic in one round is a panic of the loop.
each_spoke-Panics :
    (round : ℕ → List ℕ → Result Fault (List ℕ)) (spoke i : ℕ) (rows : List (List ℕ))
    → i < length rows
    → round (spoke + i) (get_or rows i []) ≡ err index_out_of_bounds
    → Panics (each_spoke round spoke rows)
unfolding each_spoke
each_spoke-Panics round spoke i [] below bad = absurd (omega arith)
each_spoke-Panics round spoke zero (row ∷ rows) below bad =
    let e : spoke + 0 ≡ spoke = omega arith in
    let here : round spoke row ≡ err index_out_of_bounds = rw e at bad in
    (index_out_of_bounds, rw here refl)
each_spoke-Panics round spoke (suc i) (row ∷ rows) below bad =
    elim (Result-cases (round spoke row)) [
      | inl (row', made) ↦
          let e : spoke + suc i ≡ suc spoke + i = omega arith in
          let (fault, fails) =
            each_spoke-Panics round (suc spoke) i rows (omega arith) (rw e at bad) in
          (fault, rw made (rw fails refl))
      | inr (fault, fails) ↦ (fault, rw fails refl)
    ]

-- A zone that covers a spoke and reaches past the last pixel.
abbrev pub Overflows : ℕ → ℕ → ExclusionZoneInternal → Type 0
Overflows spokes pixels zone =
    (pixels ≤ zone.end_pixel) × (spoke : ℕ) × (spoke < spokes) × (in_angle zone spoke ≡ true)

abbrev pub SomeOverflow : ℕ → ℕ → List ExclusionZoneInternal → Type 0
SomeOverflow spokes pixels [] = ⊥
SomeOverflow spokes pixels (zone ∷ zones) =
    Overflows spokes pixels zone ⊎ SomeOverflow spokes pixels zones

mark_zone-err :
    (zone : ExclusionZoneInternal) (pixels spoke : ℕ) (row : List ℕ)
    → pixels % 8 ≡ 0
    → length row ≡ (pixels + 7) / 8
    → All IsByte row
    → pixels ≤ zone.end_pixel
    → in_angle zone spoke ≡ true
    → mark_zone zone pixels spoke row ≡ err index_out_of_bounds
unfolding mark_zone
mark_zone-err zone pixels spoke row whole len bytes far covers =
    let end : min zone.end_pixel pixels ≡ pixels = omega arith in
    rw covers (
      rw end (set_pixels-err (min zone.start_pixel pixels) _ row bytes (omega arith) (omega arith)))

mark_zones-Panics :
    (zones : List ExclusionZoneInternal) (spokes pixels : ℕ) (rows : List (List ℕ))
    → pixels % 8 ≡ 0
    → IsGrid ((pixels + 7) / 8) rows
    → length rows ≡ spokes
    → SomeOverflow spokes pixels zones
    → Panics (mark_zones zones pixels rows)
unfolding mark_zones
mark_zones-Panics [] spokes pixels rows whole grid len bad = elim bad [ ]
mark_zones-Panics (zone ∷ zones) spokes pixels rows whole grid len (inl (far, spoke, low, covers)) =
    let row = get_or rows spoke [] in
    let long = row-length ((pixels + 7) / 8) rows spoke (omega arith) grid in
    let e : 0 + spoke ≡ spoke = omega arith in
    let bad : mark_zone zone pixels (0 + spoke) row ≡ err index_out_of_bounds =
      ap (λ (k : ℕ). mark_zone zone pixels k row) e
      ∙ mark_zone-err zone pixels spoke row whole long (row-bytes _ rows spoke grid) far covers in
    let (fault, fails) = each_spoke-Panics (mark_zone zone pixels) 0 spoke rows (omega arith) bad in
    (fault, rw fails refl)
mark_zones-Panics (zone ∷ zones) spokes pixels rows whole grid len (inr later) =
    elim (Result-cases (each_spoke (mark_zone zone pixels) 0 rows)) [
      | inl (mid, made) ↦
          let (grid', same) = Ensures-elim (each_spoke-IsGrid zone pixels _ 0 rows grid) made in
          let (fault, fails) =
            mark_zones-Panics zones spokes pixels mid whole grid' (same ∙ len) later in
          (fault, ap (λ r. r >>= mark_zones zones pixels) made ∙ fails)
      | inr (fault, fails) ↦ (fault, rw fails refl)
    ]

-- Where the number of pixels is a multiple of eight, a zone whose end pixel is that number or more, so
-- one past the last pixel, and that covers a spoke that there is makes the construction of the mask
-- panic.
pub mask_new-Panics :
    (zones : List ExclusionZoneInternal) (rects : List Spans) (spokes pixels : ℕ)
    → pixels % 8 ≡ 0
    → SomeOverflow spokes pixels zones
    → Panics (mask_new zones rects spokes pixels)
unfolding mask_new
mask_new-Panics zones rects spokes pixels whole bad =
    let (fault, fails) =
      mark_zones-Panics zones spokes pixels (fresh spokes ((pixels + 7) / 8)) whole
        (replicate-IsGrid spokes _) (length-replicate spokes _) bad in
    (fault, rw fails refl)
