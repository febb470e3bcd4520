-- ===== src/Radar/SpokeTests.antt =====
-- Runs of the mask and of the shared part of the receivers on small inputs, and their theorems at
-- such inputs.
use mayara_server.Common.{
  ℕ, ◌≡◌, ◌&&◌, ◌||◌, refl, arith, true, false, List, [], ◌∷◌, none, some, ok, err, ltb, inl, inr,
}
use mayara_server.Radar.Exclusion.{
  ExclusionZoneInternal, ExclusionMask, Spans, mask_new, is_excluded, in_angle, mark_zones,
  mark_rects, each_spoke, mark_zone, set_pixels, set_pixel, byte_at, row_at,
}
use mayara_server.Radar.Exclusion.Mask.{in_any_zone, in_any_rect, is_excluded-mask_new}
use mayara_server.Radar.Exclusion.Panics.{Panics, mask_new-Panics}
use mayara_server.Radar.Spokes.{
  ExclusionZone, CommonRadar, common_radar_new, Env, add_spoke, active_zones, active_rects,
  new_spoke_message, send_spoke_message, refresh_exclusion_mask, rebuild_mask, is_current, new_mask,
  mark_end, hide_pixels, verify_pixels, to_protobuf_spoke, bearing_of, push_spoke, counted,
  count_rotation, set_exclusion_zone, set_heading_true,
}
use mayara_server.Radar.Legend.{arpa, default_legend}
use mayara_server.Radar.Legend.Parts.{IsLegend, default_legend-IsLegend}
use mayara_server.Radar.Spokes.Enabled.{in_enabled_zone, in_enabled_rect, left_of}
use mayara_server.Radar.Spokes.Rotation.{
  Call, begin_message, add, send_message, change_zone, hear_heading, calls, IsRadar,
  calls-IsRadar_new,
}

-- Spokes 3, 0 and 1 of four, pixels 2 to 4.
abbrev wrapped : ExclusionZoneInternal
wrapped = record { start_spoke = 3; end_spoke = 1; start_pixel = 2; end_pixel = 4 }

abbrev to_the_end : ExclusionZoneInternal
to_the_end = record { start_spoke = 0; end_spoke = 1; start_pixel = 2; end_pixel = 9 }

abbrev on_spoke_two : Spans
on_spoke_two spoke = elim (ltb spoke 2) [ true ↦ none | false ↦ some (1, 20) ]

is_excluded-mask_new_example :
    (m : ExclusionMask) × (mask_new (wrapped ∷ []) (on_spoke_two ∷ []) 4 10 ≡ ok m)
    × ((spoke pixel : ℕ)
        → is_excluded m spoke pixel
          ≡ ok (
              (ltb spoke 4 && ltb pixel 10)
              && (in_any_zone (wrapped ∷ []) 10 spoke pixel
                  || in_any_rect (on_spoke_two ∷ []) 10 spoke pixel)))
is_excluded-mask_new_example =
    is_excluded-mask_new (wrapped ∷ []) (on_spoke_two ∷ []) 4 10 (omega arith) (omega arith, tt)

mask_new-Panics_example : Panics (mask_new (wrapped ∷ to_the_end ∷ []) [] 4 8)
unfolding in_angle
mask_new-Panics_example =
    mask_new-Panics (wrapped ∷ to_the_end ∷ []) [] 4 8 refl
      (inr (inl (omega arith, 0, omega arith, refl)))

abbrev env : Env
env = record { kept_heading = λ n h. h; trace = false; update_trails = λ spoke. spoke.pixels }

abbrev zone_one : ExclusionZone
zone_one = record { enabled = true; internal = λ range spoke_len. wrapped }

abbrev begun : CommonRadar
unfolding common_radar_new new_spoke_message
begun = new_spoke_message 5 (common_radar_new 4 16 50 true false (some zone_one ∷ none ∷ []) [])

-- What is left of the four pixels.
two_cleared : left_of begun 100 4 3 0 (9 ∷ 9 ∷ 9 ∷ 9 ∷ []) ≡ 9 ∷ 9 ∷ 0 ∷ 0 ∷ []
unfolding left_of in_enabled_zone in_enabled_rect in_angle begun common_radar_new new_spoke_message
two_cleared = refl

-- A rotation of two spokes, a new zone, and the next spoke.
abbrev script : List Call
script =
    begin_message 5
    ∷ add env 100 1 none (9 ∷ 9 ∷ 9 ∷ 9 ∷ [])
    ∷ add env 100 3 (some 4) (8 ∷ 8 ∷ 8 ∷ 8 ∷ [])
    ∷ change_zone 1 (some zone_one)
    ∷ hear_heading (some 2)
    ∷ add env 100 0 none (7 ∷ 7 ∷ 7 ∷ 7 ∷ [])
    ∷ send_message
    ∷ []

abbrev fresh_radar : CommonRadar
unfolding common_radar_new
fresh_radar = common_radar_new 4 16 50 true false (none ∷ none ∷ []) []

abbrev after_script : CommonRadar
unfolding fresh_radar
after_script = elim (calls script fresh_radar) [ ok c ↦ c | err e ↦ fresh_radar ]

calls-IsRadar_new_example : IsRadar false after_script
unfolding after_script fresh_radar common_radar_new new_spoke_message send_spoke_message
    active_zones active_rects add_spoke refresh_exclusion_mask rebuild_mask is_current new_mask
    mask_new mark_zones mark_rects each_spoke mark_zone set_pixels set_pixel in_angle is_excluded
    byte_at row_at mark_end hide_pixels verify_pixels to_protobuf_spoke bearing_of push_spoke
    counted count_rotation set_exclusion_zone set_heading_true
calls-IsRadar_new_example =
    calls-IsRadar_new script after_script 4 16 50 true false (none ∷ none ∷ []) [] refl

-- The counter after it: the rotation handed on three spokes.
script_count : after_script.spoke_count ≡ 0
unfolding after_script fresh_radar common_radar_new new_spoke_message send_spoke_message
    active_zones active_rects add_spoke refresh_exclusion_mask rebuild_mask is_current new_mask
    mask_new mark_zones mark_rects each_spoke mark_zone set_pixels set_pixel in_angle is_excluded
    byte_at row_at mark_end hide_pixels verify_pixels to_protobuf_spoke bearing_of push_spoke
    counted count_rotation set_exclusion_zone set_heading_true
script_count = refl

-- An NXT-like radar: one level, with rain, and history.
default_legend-IsLegend_example : IsLegend arpa 1 1 16 (default_legend arpa 1 true 16)
default_legend-IsLegend_example = default_legend-IsLegend arpa 1 true 16 (omega arith) (omega arith)
