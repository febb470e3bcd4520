-- ===== src/Garmin.antt =====
-- Garmin radars: the range table of src/lib/brand/garmin/range_table.rs.
pub mod Table
mod Tests
use mayara_server.Common.{
  ℕ, zero, suc, ◌+◌, ◌-◌, ◌*◌, ◌^◌, Bool, List, [], ◌∷◌, Option, none, some, length, drop, ltb,
  ◌==◌, ◌||◌, if◌then◌else◌,
}
use mayara_server.Common.Int.{ℤ, pos, sub_ℕ}
use mayara_server.Bytes.{from_le_bytes, slice}
use mayara_server.Radar.Range.{Ranges, new_by_distance}

abbrev pub max_range_entries : ℕ
max_range_entries = 32

abbrev pub count_offset : ℕ
count_offset = 4

abbrev pub ranges_offset : ℕ
ranges_offset = 8

-- `meters as i32`.
abbrev pub as_i32 : ℕ → ℤ
as_i32 n = if ltb n (2 ^ 31) then pos n else sub_ℕ n (2 ^ 32)

-- The loop, with `count` entries left, at their bytes.
unfoldable pub parse_distances : ℕ → List ℕ → List ℤ
parse_distances zero bytes = []
parse_distances (suc count) bytes =
    as_i32 (from_le_bytes (slice 0 4 bytes)) ∷ parse_distances count (drop 4 bytes)

unfoldable pub parse : List ℕ → Option Ranges
parse payload =
    let count = from_le_bytes (slice count_offset 4 payload) in
    if ltb (length payload) ranges_offset
    then none
    else if count == 0 || ltb max_range_entries count
    then none
    else if ltb (length payload) (ranges_offset + count * 4)
    then none
    else some (new_by_distance (parse_distances count (drop ranges_offset payload)))
