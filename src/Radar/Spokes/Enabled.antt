-- ===== src/Radar/Spokes/Enabled.antt =====
-- The pixels of a spoke of a stationary radar: `add_spoke` of src/lib/radar/mod.rs by the zones and
-- rectangles of the configuration.
use mayara_server.Common.{
  ℕ, suc, ◌+◌, ◌*◌, ◌/◌, ◌<◌, ◌≡◌, min, Bool, true, false, ◌&&◌, ◌||◌, List, [], ◌∷◌, Option, none,
  some, length, if◌then◌else◌,
}
use mayara_server.Radar.Exclusion.Mask.{in_zone, in_rect}
use mayara_server.Radar.Spokes.{Spoke, ExclusionZone, ExclusionRect, CommonRadar, Env}

-- A pixel lies in a zone of the configuration that is enabled, by its shape at this range and length.
unfoldable pub in_enabled_zone : List (Option ExclusionZone) → ℕ → ℕ → ℕ → ℕ → Bool
in_enabled_zone [] range n angle pixel = false
in_enabled_zone (none ∷ zones) range n angle pixel = in_enabled_zone zones range n angle pixel
in_enabled_zone (some z ∷ zones) range n angle pixel =
    (z.enabled && in_zone (z.internal range n) n angle pixel)
    || in_enabled_zone zones range n angle pixel

unfoldable pub in_enabled_rect : List (Option ExclusionRect) → ℕ → ℕ → ℕ → ℕ → Bool
in_enabled_rect [] range n angle pixel = false
in_enabled_rect (none ∷ rects) range n angle pixel = in_enabled_rect rects range n angle pixel
in_enabled_rect (some rect ∷ rects) range n angle pixel =
    (rect.enabled && in_rect (rect.spans range n) n angle pixel)
    || in_enabled_rect rects range n angle pixel

-- The pixels from `i` on, of a spoke of `n` at this range, with those cleared that lie in an enabled
-- zone or rectangle of the radar.
unfoldable pub left_of : CommonRadar → ℕ → ℕ → ℕ → ℕ → List ℕ → List ℕ
left_of c range n angle i [] = []
left_of c range n angle i (p ∷ ps) =
    (if in_enabled_zone c.exclusion_zones range n angle i
        || in_enabled_rect c.exclusion_rects range n angle i
      then 0
      else p)
    ∷ left_of c range n angle (suc i) ps

-- No enabled zone reaches behind the rows of the mask.
unfoldable pub EnabledFit : List (Option ExclusionZone) → ℕ → ℕ → Type 0
EnabledFit [] range n = Unit
EnabledFit (none ∷ zones) range n = EnabledFit zones range n
EnabledFit (some z ∷ zones) range n =
    (z.enabled ≡ true → min (z.internal range n).end_pixel n < 8 * ((n + 7) / 8))
    × EnabledFit zones range n

-- The spoke that is handed on: its pixels are left as the trails make them of those not cleared.
abbrev pub handed_on : Env → CommonRadar → ℕ → ℕ → Option ℕ → List ℕ → Spoke
handed_on env c range angle bearing ps =
    let spoke : Spoke = record {
      angle = angle;
      bearing = bearing;
      range = range;
      time = some c.spoke_time;
      pixels = left_of c range (length ps) angle 0 ps;
    } in
    record spoke { pixels = env.update_trails spoke }
