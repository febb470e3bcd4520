-- ===== src/Furuno/Wire/Laws.antt =====
-- The wire range lookups of src/lib/brand/furuno/protocol.rs: nearest entry, and the round trip.
use mayara_server.Common.{
  ℕ, suc, ◌+◌, ◌-◌, ◌≤◌, ◌≡◌, ◌⊎◌, refl, arith, Bool, true, false, [], ◌∷◌, some, ◌==◌,
  if◌then◌else◌, Bool-cases, inl, inr, ==_iff,
}
use mayara_server.Common.Int.{ℤ, pos, negsuc, ◌-ℤ◌}
use mayara_server.Bytes.{All}
use mayara_server.Furuno.Wire.{
  Table, wire_index_table, wire_index_table_km, wire_unit_km, closer, nearest, lookup_wire_index,
  find_meters, meters_to_wire_index_for_unit, wire_index_to_meters_for_unit,
}

-- The entry stands in the table.
abbrev pub In : ℕ × ℕ → Table → Type 0
In e [] = ⊥
In e (x ∷ xs) = (x ≡ e) ⊎ In e xs

-- How far two distances lie apart.
unfoldable pub apart : ℕ → ℤ → ℕ
apart m (pos n) = (m - n) + (n - m)
apart m (negsuc n) = m + suc n

-- No entry of the table is nearer to `meters`.
abbrev pub IsNearest : ℤ → ℕ × ℕ → Table → Type 0
IsNearest meters e table = All (λ x. apart e.1 meters ≤ apart x.1 meters) table

-- A test of every entry, by evaluation.
unfoldable pub all_entries : (ℕ × ℕ → Bool) → Table → Bool
all_entries p [] = true
all_entries p (e ∷ es) = if p e then all_entries p es else false

pub find_meters-test :
    (p : ℕ × ℕ → Bool) (table : Table) (i m : ℕ)
    → all_entries p table ≡ true
    → find_meters table i ≡ some m
    → p (i, m) ≡ true
unfolding all_entries find_meters
find_meters-test p [] i m h e = cc
find_meters-test p ((j, n) ∷ es) i m h e = ground (arith, find_meters-test p es i m)

abbrev returns : Table → ℕ × ℕ → Bool
returns table e = lookup_wire_index table (pos e.1) == e.0

nm_returns : all_entries (returns wire_index_table) wire_index_table ≡ true
unfolding all_entries lookup_wire_index nearest closer wire_index_table ◌-ℤ◌
nm_returns = refl

km_returns : all_entries (returns wire_index_table_km) wire_index_table_km ≡ true
unfolding all_entries lookup_wire_index nearest closer wire_index_table_km ◌-ℤ◌
km_returns = refl

-- In both units, the meters of a wire index lead back to that index.
pub meters_to_wire_index-wire_index_to_meters :
    (wire_index wire_unit m : ℕ)
    → wire_index_to_meters_for_unit wire_index wire_unit ≡ some m
    → meters_to_wire_index_for_unit (pos m) wire_unit ≡ wire_index
unfolding wire_index_to_meters_for_unit meters_to_wire_index_for_unit
meters_to_wire_index-wire_index_to_meters i u m h = elim (Bool-cases (u == wire_unit_km)) [
  | inl km ↦ rw km (
      (==_iff _ _).0 (
        find_meters-test (returns wire_index_table_km) wire_index_table_km i m km_returns
          (rw km at h)))
  | inr nm ↦ rw nm (
      (==_iff _ _).0
        (find_meters-test (returns wire_index_table) wire_index_table i m nm_returns (rw nm at h)))
]
