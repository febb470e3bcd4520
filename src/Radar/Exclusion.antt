-- ===== src/Radar/Exclusion.antt =====
-- src/lib/radar/exclusion.rs: the mask of the pixels that a stationary radar hides. Zones are
-- sectors of spokes and pixels; where a rectangle lies on each spoke is worked out in floating point
-- and is a parameter of the mask.
pub mod Row
pub mod Mask
pub mod Panics
use Prim.Native.Nat.{bit_or}
use mayara_server.Common.{
  ℕ, zero, suc, ◌+◌, ◌-◌, ◌*◌, ◌/◌, ◌%◌, ◌^◌, min, Bool, true, false, not, ◌&&◌, ◌||◌, List, [],
  ◌∷◌, Result, ok, err, ◌>>=◌, length, get_or, get_elem?, set, Option, none, some, replicate, ltb,
  leb, ◌==◌, if◌then◌else◌,
}

pub record ExclusionZoneInternal : Type 0 where
  pub start_spoke : ℕ
  pub end_spoke : ℕ
  pub start_pixel : ℕ
  pub end_pixel : ℕ

-- A panic.
pub data Fault : Type 0 where
  index_out_of_bounds division_by_zero : Fault

-- A row has one bit for each pixel.
pub record ExclusionMask : Type 0 where
  pub mask : List (List ℕ)
  pub spokes : ℕ
  pub pixels_per_spoke : ℕ

-- `mask[spoke][byte_idx] |= 1 << bit`
unfoldable pub set_pixel : ℕ → List ℕ → Result Fault (List ℕ)
set_pixel pixel row =
    let byte_idx = pixel / 8 in
    if ltb byte_idx (length row)
    then ok (set row byte_idx (bit_or (get_or row byte_idx 0) (2 ^ (pixel % 8))))
    else err index_out_of_bounds

-- The pixels from `start` on, as many as `count`.
unfoldable pub set_pixels : ℕ → ℕ → List ℕ → Result Fault (List ℕ)
set_pixels start zero row = ok row
set_pixels start (suc count) row = set_pixel start row >>= set_pixels (suc start) count

-- `for pixel in start..=end`
abbrev pub set_range : ℕ → ℕ → List ℕ → Result Fault (List ℕ)
set_range start end row = set_pixels start (suc end - start) row

unfoldable pub in_angle : ExclusionZoneInternal → ℕ → Bool
in_angle zone spoke =
    if leb zone.start_spoke zone.end_spoke
    then leb zone.start_spoke spoke && leb spoke zone.end_spoke
    else leb zone.start_spoke spoke || leb spoke zone.end_spoke

-- `for spoke in 0..spokes`, each round on the row of its spoke.
unfoldable pub each_spoke :
    (ℕ → List ℕ → Result Fault (List ℕ)) → ℕ → List (List ℕ) → Result Fault (List (List ℕ))
each_spoke round spoke [] = ok []
each_spoke round spoke (row ∷ rows) = do
  row' ← round spoke row
  rows' ← each_spoke round (suc spoke) rows
  ok (row' ∷ rows')

unfoldable pub mark_zone : ExclusionZoneInternal → ℕ → ℕ → List ℕ → Result Fault (List ℕ)
mark_zone zone pixels spoke row =
    let start = min zone.start_pixel pixels in
    let end = min zone.end_pixel pixels in
    if in_angle zone spoke then set_range start end row else ok row

unfoldable pub mark_zones :
    List ExclusionZoneInternal → ℕ → List (List ℕ) → Result Fault (List (List ℕ))
mark_zones [] pixels rows = ok rows
mark_zones (zone ∷ zones) pixels rows =
    each_spoke (mark_zone zone pixels) 0 rows >>= mark_zones zones pixels

-- Where a rectangle lies on each spoke: the pixels at which its rays enter and leave it.
abbrev pub Spans : Type 0
Spans = ℕ → Option (ℕ × ℕ)

unfoldable pub mark_rect : Spans → ℕ → ℕ → List ℕ → Result Fault (List ℕ)
mark_rect spans pixels spoke row = elim (spans spoke) [
  | none ↦ ok row
  | some (start_pixel, end_pixel) ↦ set_range start_pixel (min end_pixel (pixels - 1)) row
]

unfoldable pub mark_rects : List Spans → ℕ → List (List ℕ) → Result Fault (List (List ℕ))
mark_rects [] pixels rows = ok rows
mark_rects (rect ∷ rects) pixels rows =
    each_spoke (mark_rect rect pixels) 0 rows >>= mark_rects rects pixels

unfoldable pub mask_new :
    List ExclusionZoneInternal → List Spans → ℕ → ℕ → Result Fault ExclusionMask
mask_new zones rects spokes pixels = do
  marked ← mark_zones zones pixels (replicate spokes (replicate ((pixels + 7) / 8) 0))
  mask ← mark_rects rects pixels marked
  ok (record { mask = mask; spokes = spokes; pixels_per_spoke = pixels })

-- An index into a row, which panics out of bounds.
unfoldable pub byte_at : List ℕ → ℕ → Result Fault ℕ
byte_at row i = elim (get_elem? row i) [ none ↦ err index_out_of_bounds | some b ↦ ok b ]

unfoldable pub row_at : List (List ℕ) → ℕ → Result Fault (List ℕ)
row_at rows i = elim (get_elem? rows i) [ none ↦ err index_out_of_bounds | some row ↦ ok row ]

unfoldable pub is_excluded : ExclusionMask → ℕ → ℕ → Result Fault Bool
is_excluded m spoke pixel =
    let looked_up = row_at m.mask spoke >>= λ row.
    byte_at row (pixel / 8) >>= λ b. ok (b / 2 ^ (pixel % 8) % 2 == 1) in
    if leb m.spokes spoke || leb m.pixels_per_spoke pixel then ok false else looked_up
