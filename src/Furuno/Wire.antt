-- ===== src/Furuno/Wire.antt =====
-- Wire range indices of src/lib/brand/furuno/protocol.rs: the two tables and their lookups.
pub mod Laws
pub mod Unit
use mayara_server.Common.{
  ℕ, zero, suc, ◌+◌, ◌≤◌, ◌<◌, ◌≡◌, refl, arith, Bool, true, false, List, [], ◌∷◌, Option, none,
  some, ◌==◌, ltb, leb, if◌then◌else◌,
}
use mayara_server.Common.Int.{ℤ, pos, negsuc, ◌-ℤ◌, pos_part, neg_part}

abbrev pub wire_unit_nm : ℕ
wire_unit_nm = 0

abbrev pub wire_unit_km : ℕ
wire_unit_km = 1

-- Wire index and meters.
abbrev pub Table : Type 0
Table = List (ℕ × ℕ)

unfoldable pub wire_index_table : Table
wire_index_table =
    (21, 116)
    ∷ (0, 231)
    ∷ (1, 463)
    ∷ (2, 926)
    ∷ (3, 1389)
    ∷ (4, 1852)
    ∷ (5, 2778)
    ∷ (6, 3704)
    ∷ (7, 5556)
    ∷ (8, 7408)
    ∷ (9, 11112)
    ∷ (10, 14816)
    ∷ (11, 22224)
    ∷ (12, 29632)
    ∷ (13, 44448)
    ∷ (14, 59264)
    ∷ (19, 66672)
    ∷ (15, 88896)
    ∷ (20, 118528)
    ∷ (16, 133344)
    ∷ (17, 177792)
    ∷ (18, 222240)
    ∷ []

unfoldable pub wire_index_table_km : Table
wire_index_table_km =
    (0, 125)
    ∷ (1, 250)
    ∷ (2, 500)
    ∷ (3, 750)
    ∷ (4, 1000)
    ∷ (5, 1500)
    ∷ (6, 2000)
    ∷ (7, 3000)
    ∷ (8, 4000)
    ∷ (9, 6000)
    ∷ (10, 8000)
    ∷ (11, 12000)
    ∷ (12, 16000)
    ∷ (13, 24000)
    ∷ (14, 32000)
    ∷ (19, 36000)
    ∷ (15, 48000)
    ∷ (20, 64000)
    ∷ (16, 72000)
    ∷ (17, 96000)
    ∷ (18, 120000)
    ∷ []

-- `(i64::from(m) - i64::from(meters)).abs()`
abbrev pub distance : ℕ → ℤ → ℕ
distance m meters = let d = pos m -ℤ meters in pos_part d + neg_part d

-- The step of `min_by_key`, which keeps the first of equal keys.
unfoldable pub closer : ℤ → ℕ × ℕ → ℕ × ℕ → ℕ × ℕ
closer meters best e = if ltb (distance e.1 meters) (distance best.1 meters) then e else best

unfoldable pub nearest : ℤ → ℕ × ℕ → Table → ℕ × ℕ
nearest meters best [] = best
nearest meters best (e ∷ es) = nearest meters (closer meters best e) es

unfoldable pub lookup_wire_index : Table → ℤ → ℕ
lookup_wire_index [] meters = 15
lookup_wire_index (e ∷ es) meters = (nearest meters e es).0

unfoldable pub find_meters : Table → ℕ → Option ℕ
find_meters [] wire_index = none
find_meters ((i, m) ∷ es) wire_index = if i == wire_index then some m else find_meters es wire_index

abbrev pub table_for_unit : ℕ → Table
table_for_unit wire_unit =
    if wire_unit == wire_unit_km then wire_index_table_km else wire_index_table

unfoldable pub meters_to_wire_index_for_unit : ℤ → ℕ → ℕ
meters_to_wire_index_for_unit meters wire_unit = lookup_wire_index (table_for_unit wire_unit) meters

unfoldable pub wire_index_to_meters_for_unit : ℕ → ℕ → Option ℕ
wire_index_to_meters_for_unit wire_index wire_unit =
    find_meters (table_for_unit wire_unit) wire_index
