-- ===== src/Radar/Tests.antt =====
-- Runs of the range lists on a small table, and their theorems at such inputs.
use mathlib.Core.List.{Perm}
use mayara_server.Common.{◌≡◌, refl, not, List, [], ◌∷◌}
use mayara_server.Common.Int.{pos}
use mayara_server.Bytes.{All}
use mayara_server.Radar.Range.{
  Range, near, is_metric_distance, add_range, insert, sort, empty, add_ranges, ranges_new,
}
use mayara_server.Radar.Range.Split.{IsSplit, is_mixed, ranges_new-IsSplit}
use mayara_server.Radar.Range.Order.{IsSorted, Leads, ranges_new-IsSorted, get_distance-Leads}

-- 1852 m is nautical, 500 m and 2000 m are metric.
abbrev given : List Range
given =
    record { distance = pos 2000; index = 0 }
    ∷ record { distance = pos 500; index = 1 }
    ∷ record { distance = pos 1852; index = 2 }
    ∷ []

metric_and_mixed :
    ((ranges_new given).metric
      ≡ record { distance = pos 500; index = 0 } ∷ record { distance = pos 2000; index = 2 } ∷ [])
    × ((ranges_new given).mixed
        ≡ record { distance = pos 500; index = 0 } ∷ record { distance = pos 1852; index = 1 } ∷ [])
unfolding ranges_new add_ranges add_range sort insert empty is_metric_distance near
metric_and_mixed = (refl, refl)

ranges_new-IsSplit_example : IsSplit (ranges_new given) × ((ranges_new given).all ≡ sort given)
ranges_new-IsSplit_example = ranges_new-IsSplit given

ranges_new-IsSorted_example : IsSorted (ranges_new given).all × Perm (ranges_new given).all given
ranges_new-IsSorted_example = ranges_new-IsSorted given

get_distance-Leads_example :
    All (Leads is_metric_distance (ranges_new given)) (ranges_new given).metric
    × All (Leads (λ d. not (is_metric_distance d)) (ranges_new given)) (ranges_new given).nautical
    × All (Leads is_mixed (ranges_new given)) (ranges_new given).mixed
get_distance-Leads_example = get_distance-Leads (ranges_new given) (ranges_new-IsSplit given).0
