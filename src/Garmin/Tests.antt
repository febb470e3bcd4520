-- ===== src/Garmin/Tests.antt =====
-- A small range table, and the theorem at it.
use mayara_server.Common.{◌≡◌, refl, arith, [], ◌∷◌, map, some, none}
use mayara_server.Common.Int.{pos}
use mayara_server.Bytes.{from_le_bytes}
use mayara_server.Radar.Range.{new_by_distance}
use mayara_server.Garmin.{parse}
use mayara_server.Garmin.Table.{table_bytes, parse-table}

parse_short : parse (1 ∷ 0 ∷ 72 ∷ 0 ∷ 0 ∷ 0 ∷ 0 ∷ []) ≡ none
unfolding parse
parse_short = refl

parse_zero : parse (1 ∷ 0 ∷ 72 ∷ 0 ∷ 0 ∷ 0 ∷ 0 ∷ 0 ∷ []) ≡ none
unfolding parse from_le_bytes
parse_zero = refl

parse-table_example :
    parse (table_bytes 1 16 (232 ∷ 463 ∷ []) (9 ∷ []))
    ≡ some (new_by_distance (map pos (232 ∷ 463 ∷ [])))
parse-table_example =
    parse-table 1 16 (232 ∷ 463 ∷ []) (9 ∷ []) (omega arith) (omega arith) (omega arith)
