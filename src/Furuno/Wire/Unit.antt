-- ===== src/Furuno/Wire/Unit.antt =====
-- `wire_unit_for_meters` of src/lib/brand/furuno/protocol.rs, and the tables it decides between.
use mayara_server.Common.{
  ℕ, ◌≡◌, refl, Bool, true, false, not, ◌&&◌, ◌||◌, [], ◌∷◌, some, ◌==◌, ==_iff, if◌then◌else◌,
  Bool-cases, inl, inr,
}
use mayara_server.Common.Int.{ℤ, pos}
use mayara_server.Radar.Range.{is_metric_distance, near, eq_ℤ}
use mayara_server.Furuno.Wire.{
  Table, wire_index_table, wire_index_table_km, wire_unit_km, wire_unit_nm,
  wire_index_to_meters_for_unit, meters_to_wire_index_for_unit,
}
use mayara_server.Furuno.Wire.Laws.{
  all_entries, find_meters-test, meters_to_wire_index-wire_index_to_meters,
}

-- `iter().any(|(_, m)| *m == meters)`
unfoldable pub has_meters : Table → ℤ → Bool
has_meters [] meters = false
has_meters (e ∷ es) meters = eq_ℤ (pos e.1) meters || has_meters es meters

unfoldable pub wire_unit_for_meters : ℤ → ℕ
wire_unit_for_meters meters =
    if has_meters wire_index_table_km meters && is_metric_distance meters
    then wire_unit_km
    else wire_unit_nm

-- The unit is the one wanted, and the distance is metric exactly in kilometers.
abbrev fits_unit : ℕ → Bool → ℕ × ℕ → Bool
fits_unit unit metric e =
    (wire_unit_for_meters (pos e.1) == unit)
    && (if metric then is_metric_distance (pos e.1) else not (is_metric_distance (pos e.1)))

nm_fits : all_entries (fits_unit wire_unit_nm false) wire_index_table ≡ true
unfolding all_entries wire_unit_for_meters has_meters is_metric_distance near wire_index_table
    wire_index_table_km
nm_fits = refl

km_fits : all_entries (fits_unit wire_unit_km true) wire_index_table_km ≡ true
unfolding all_entries wire_unit_for_meters has_meters is_metric_distance near wire_index_table_km
km_fits = refl

both : (a b : Bool) → (a && b) ≡ true → (a ≡ true) × (b ≡ true)
both true true h = (refl, refl)
both true false h = cc
both false b h = cc

flipped : (b : Bool) → not b ≡ true → b ≡ false
flipped true h = cc
flipped false h = refl

-- The meters of a wire index are metric exactly in the unit of kilometers, the unit found for them
-- is the one that they came from, and in that unit they lead back to the wire index.
pub wire_unit_for_meters-wire_index_to_meters :
    (wire_index wire_unit m : ℕ)
    → wire_index_to_meters_for_unit wire_index wire_unit ≡ some m
    → (wire_unit_for_meters (pos m)
        ≡ (if wire_unit == wire_unit_km then wire_unit_km else wire_unit_nm))
      × (is_metric_distance (pos m) ≡ (wire_unit == wire_unit_km))
      × (meters_to_wire_index_for_unit (pos m) (wire_unit_for_meters (pos m)) ≡ wire_index)
unfolding wire_index_to_meters_for_unit meters_to_wire_index_for_unit
wire_unit_for_meters-wire_index_to_meters i u m h =
    let back = meters_to_wire_index-wire_index_to_meters i u m h in
    elim (Bool-cases (u == wire_unit_km)) [
      | inl km ↦
          let (unit, metric) = both _ _ (
            find_meters-test (fits_unit wire_unit_km true) wire_index_table_km i m km_fits
              (rw km at h)) in
          let unit_is : wire_unit_for_meters (pos m) ≡ wire_unit_km = (==_iff _ _).0 unit in
          rw (km, unit_is) (refl, metric, rw km at back)
      | inr nm ↦
          let (unit, metric) = both _ _ (
            find_meters-test (fits_unit wire_unit_nm false) wire_index_table i m nm_fits
              (rw nm at h)) in
          let unit_is : wire_unit_for_meters (pos m) ≡ wire_unit_nm = (==_iff _ _).0 unit in
          rw (nm, unit_is) (refl, flipped _ metric, rw nm at back)
    ]
