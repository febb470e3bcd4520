-- ===== src/Garmin/Table.antt =====
-- Range tables as a radar sends them, and what `parse` of src/lib/brand/garmin/range_table.rs gives.
use mayara_server.Common.{
  ℕ, ◌+◌, ◌*◌, ◌^◌, ◌≤◌, ◌<◌, ◌≡◌, refl, ap, ◌∙◌, arith, true, false, List, [], ◌∷◌, ◌++◌, map,
  some, length, length-append, drop, ltb, ◌==◌,
}
use mayara_server.Common.Int.{pos}
use mayara_server.Bytes.{All, to_le_bytes, from_le_bytes, slice}
use mayara_server.Bytes.Laws.{from-to_le_bytes}
use mayara_server.Radar.Range.{new_by_distance}
use mayara_server.Garmin.{parse, parse_distances, as_i32}

unfoldable pub entries_bytes : List ℕ → List ℕ
entries_bytes [] = []
entries_bytes (m ∷ ms) = to_le_bytes 4 m ++ entries_bytes ms

-- The body of a message `0x09B2` with these ranges in meters, and bytes behind them.
unfoldable pub table_bytes : ℕ → ℕ → List ℕ → List ℕ → List ℕ
table_bytes version len ms rest =
    to_le_bytes 2 version
    ++ (to_le_bytes 2 len ++ (to_le_bytes 4 (length ms) ++ (entries_bytes ms ++ rest)))

parse_distances-entries :
    (ms rest : List ℕ)
    → All (λ m. m < 2 ^ 31) ms
    → parse_distances (length ms) (entries_bytes ms ++ rest) ≡ map pos ms
unfolding parse_distances entries_bytes to_le_bytes from_le_bytes
parse_distances-entries [] rest h = refl
parse_distances-entries (m ∷ ms) rest h =
    let is : from_le_bytes (to_le_bytes 4 m) ≡ m = from-to_le_bytes 4 m (omega (arith, h.0)) in
    let small : ltb m (2 ^ 31) ≡ true = ground (arith, h.0) in
    let first : as_i32 m ≡ pos m = rw small refl in
    ap (λ d. d ∷ parse_distances (length ms) (entries_bytes ms ++ rest)) (ap as_i32 is ∙ first)
    ∙ ap (λ ds. pos m ∷ ds) (parse_distances-entries ms rest h.1)

length-entries : (ms : List ℕ) → length (entries_bytes ms) ≡ length ms * 4
unfolding entries_bytes to_le_bytes
length-entries [] = refl
length-entries (m ∷ ms) = omega (arith, length-entries ms)

table-count :
    (version len : ℕ) (ms rest : List ℕ)
    → length ms ≤ 32
    → from_le_bytes (slice 4 4 (table_bytes version len ms rest)) ≡ length ms
unfolding table_bytes to_le_bytes from_le_bytes
table-count version len ms rest h = from-to_le_bytes 4 (length ms) (omega (arith, h))

table-length :
    (version len : ℕ) (ms rest : List ℕ)
    → 8 + length ms * 4 ≤ length (table_bytes version len ms rest)
unfolding table_bytes to_le_bytes
table-length version len ms rest =
    omega (arith, length-append (entries_bytes ms) rest, length-entries ms)

drop_table :
    (version len : ℕ) (ms rest : List ℕ)
    → drop 8 (table_bytes version len ms rest) ≡ entries_bytes ms ++ rest
unfolding table_bytes to_le_bytes
drop_table version len ms rest = refl

-- A range table with 1 to 32 ranges, each below 2^31, is parsed to the ranges at these distances,
-- whatever its version and length fields say and whatever follows.
pub parse-table :
    (version len : ℕ) (ms rest : List ℕ)
    → 1 ≤ length ms
    → length ms ≤ 32
    → All (λ m. m < 2 ^ 31) ms
    → parse (table_bytes version len ms rest) ≡ some (new_by_distance (map pos ms))
unfolding parse
parse-table version len ms rest lo hi fit =
    let bytes = table_bytes version len ms rest in
    let long : ltb (length bytes) 8 ≡ false = ground (arith, table-length version len ms rest) in
    let enough : ltb (length bytes) (8 + length ms * 4) ≡ false =
      ground (arith, table-length version len ms rest) in
    let some_entries : (length ms == 0) ≡ false = ground (arith, lo) in
    let few : ltb 32 (length ms) ≡ false = ground (arith, hi) in
    rw long (
      rw (table-count version len ms rest hi) (
        rw some_entries (
          rw few (
            rw enough (
              ap (λ ds. some (new_by_distance ds))
                (ap (λ bs. parse_distances (length ms) bs) (drop_table version len ms rest)
                  ∙ parse_distances-entries ms rest fit))))))
