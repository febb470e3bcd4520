-- ===== src/Radar/Range.antt =====
-- The ranges of a radar, src/lib/radar/range.rs: which are metric, and the lists by unit.
pub mod Split
pub mod Order
use mayara_server.Common.{
  ℕ, zero, suc, ◌+◌, ◌-◌, ◌*◌, ◌%◌, Bool, true, false, not, ◌||◌, List, [], ◌∷◌, ◌++◌, map, Option,
  none, some, length, get_elem?, ltb, ◌==◌, if◌then◌else◌,
}
use mayara_server.Common.Int.{ℤ, pos, negsuc, ltb_ℤ}

pub record Range : Type 0 where
  pub distance : ℤ
  pub index : ℕ

pub record Ranges : Type 0 where
  pub all : List Range
  pub metric : List Range
  pub nautical : List Range
  pub mixed : List Range
  pub ordered : Bool

abbrev pub eq_ℤ : ℤ → ℤ → Bool
eq_ℤ (pos a) (pos b) = a == b
eq_ℤ (negsuc a) (negsuc b) = a == b
eq_ℤ (pos a) (negsuc b) = false
eq_ℤ (negsuc a) (pos b) = false

-- `a % b == 0 || a % b == 1 || a % b == b - 1`, for `b` above 1; the remainder of a negative `a` is
-- not positive.
unfoldable pub near : ℤ → ℕ → Bool
near (pos a) b = a % b == 0 || a % b == 1 || a % b == b - 1
near (negsuc a) b = suc a % b == 0

unfoldable pub is_metric_distance : ℤ → Bool
is_metric_distance v =
    if eq_ℤ v (pos 125)
    then true
    else if not (ltb_ℤ (pos 100) v)
    then near v 25
    else if not (ltb_ℤ (pos 750) v)
    then near v 50
    else near v 500

-- The lists that a range at place `i` is added to.
unfoldable pub add_range : ℤ → ℕ → Ranges → Ranges
add_range d i rs =
    let entry : List Range = record { distance = d; index = i } ∷ [] in
    if is_metric_distance d
    then record rs {
      metric = rs.metric ++ entry;
      mixed = if ltb_ℤ (pos 1000) d then rs.mixed else rs.mixed ++ entry;
    }
    else record rs {
      nautical = rs.nautical ++ entry;
      mixed = if ltb_ℤ (pos 1500) d then rs.mixed ++ entry else rs.mixed;
    }

-- `sort_by` on the distances, which is stable.
unfoldable pub insert : Range → List Range → List Range
insert r [] = r ∷ []
insert r (x ∷ xs) =
    let rest = insert r xs in if ltb_ℤ x.distance r.distance then x ∷ rest else r ∷ x ∷ xs

unfoldable pub sort : List Range → List Range
sort [] = []
sort (r ∷ rs) = insert r (sort rs)

unfoldable pub empty : Ranges
empty = record { all = []; metric = []; nautical = []; mixed = []; ordered = false }

-- The loop over `ranges.iter().enumerate()`.
unfoldable pub add_ranges : ℕ → List Range → Ranges → Ranges
add_ranges i [] rs = rs
add_ranges i (r ∷ more) rs = add_ranges (suc i) more (add_range r.distance i rs)

unfoldable pub ranges_new : List Range → Ranges
ranges_new ranges = record (add_ranges 0 (sort ranges) empty) { all = sort ranges; ordered = true }

-- The distances with their places.
unfoldable pub enumerated : ℕ → List ℤ → List Range
enumerated i [] = []
enumerated i (d ∷ ds) = record { distance = d; index = i } ∷ enumerated (suc i) ds

unfoldable pub new_by_distance : List ℤ → Ranges
new_by_distance distances = ranges_new (enumerated 0 distances)

unfoldable pub has_distance : ℤ → List Range → Bool
has_distance d [] = false
has_distance d (r ∷ rs) = eq_ℤ r.distance d || has_distance d rs

unfoldable pub push : Range → Ranges → Ranges × Bool
push range rs = if has_distance range.distance rs.all then (rs, false) else (
  add_range range.distance (length rs.all) (record rs { all = rs.all ++ (range ∷ []) }),
  true,
)

unfoldable pub get_distance : Ranges → ℕ → ℤ
get_distance rs index = elim (get_elem? rs.all index) [ some range ↦ range.distance | none ↦ pos 0 ]
