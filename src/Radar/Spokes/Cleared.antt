-- ===== src/Radar/Spokes/Cleared.antt =====
-- The pixels of a spoke of a stationary radar: `add_spoke` of src/lib/radar/mod.rs with the mask of
-- src/lib/radar/exclusion.rs.
use mayara_server.Common.{
  ℕ, suc, ◌+◌, ◌/◌, ◌%◌, ◌≤◌, ◌<◌, ◌≡◌, ◌⊎◌, refl, sym, ap, ◌∙◌, arith, Bool, true, false, not,
  ◌&&◌, ◌||◌, List, [], ◌∷◌, ◌++◌, Option, none, some, ok, length, ltb, ◌==◌, ==_iff, if◌then◌else◌,
  Bool-cases, inl, inr, ok_injective,
}
use mayara_server.Radar.Exclusion.{ExclusionZoneInternal, ExclusionMask, Spans, is_excluded}
use mayara_server.Radar.Exclusion.Mask.{in_any_zone, in_any_rect, ZonesFit, is_excluded-mask_new}
use mayara_server.Radar.Spokes.{
  Spoke, CommonRadar, Env, bearing_of, to_protobuf_spoke, active_zones, active_rects, is_empty,
  is_some, new_mask, is_current, rebuild_mask, refresh_exclusion_mask, mark_end, hide_pixels,
  apply_mask, verify_pixels, counted, count_rotation, push_spoke, add_spoke, u16,
}

-- The mask that belongs to these zones and rectangles: none if there are none.
abbrev pub MaskFor : List ExclusionZoneInternal → List Spans → ℕ → ℕ → Option ExclusionMask → Type 0
MaskFor zones rects spokes spoke_len mask = new_mask zones rects spokes spoke_len ≡ ok mask

abbrev pub zones_at : ℕ → ℕ → CommonRadar → List ExclusionZoneInternal
zones_at range spoke_len c = active_zones range spoke_len c.exclusion_zones

abbrev pub rects_at : ℕ → ℕ → CommonRadar → List Spans
rects_at range spoke_len c = active_rects range spoke_len c.exclusion_rects

-- A mask that is kept belongs to the zones at the range and spoke length noted with it, unless the
-- range noted is zero, as a change of the zones leaves it. (A spoke of range zero and the noted
-- length then finds the mask current, so the exception is needed.)
abbrev pub IsCoherent : CommonRadar → Type 0
IsCoherent c =
    (c.exclusion_mask ≡ none)
    ⊎ (c.current_exclusion_range ≡ 0)
    ⊎ MaskFor (zones_at c.current_exclusion_range c.current_exclusion_spoke_len c)
        (rects_at c.current_exclusion_range c.current_exclusion_spoke_len c) c.spokes_per_revolution
        c.current_exclusion_spoke_len c.exclusion_mask

-- The radar with this mask.
abbrev pub with_mask : ℕ → ℕ → Option ExclusionMask → CommonRadar → CommonRadar
with_mask range spoke_len mask c = record c {
  exclusion_mask = mask;
  current_exclusion_range = range;
  current_exclusion_spoke_len = spoke_len;
}

pub &&-true : (a b : Bool) → (a && b) ≡ true → (a ≡ true) × (b ≡ true)
&&-true true b h = (refl, h)
&&-true false b h = cc

is_some-ne : {A : Type 0} (o : Option A) → is_some o ≡ true → o ≡ none → ⊥
is_some-ne none h e = cc
is_some-ne (some a) h e = cc

-- A mask that is current is the one for the spoke.
is_current-MaskFor :
    (range spoke_len : ℕ) (c : CommonRadar)
    → IsCoherent c
    → 0 < range
    → is_current range spoke_len c ≡ true
    → MaskFor
        (zones_at range spoke_len c)
        (rects_at range spoke_len c)
        c.spokes_per_revolution
        spoke_len
        c.exclusion_mask
      × (c ≡ with_mask range spoke_len c.exclusion_mask c)
unfolding is_current
is_current-MaskFor range spoke_len c h far current =
    let (same_range, rest) = &&-true _ _ current in
    let (same_len, there) = &&-true _ _ rest in
    let r : range ≡ c.current_exclusion_range = (==_iff _ _).0 same_range in
    let l : spoke_len ≡ c.current_exclusion_spoke_len = (==_iff _ _).0 same_len in
    elim h [
      | inl absent ↦ absurd (is_some-ne c.exclusion_mask there absent)
      | inr (inl zeroed) ↦ absurd (omega (arith, r, zeroed))
      | inr (inr made) ↦ (rw (r, l) made, λ i. with_mask (sym r i) (sym l i) c.exclusion_mask c)
    ]

-- The pixels from `i` on, of a spoke of `n`, with those cleared that lie in a zone or a rectangle.
unfoldable pub cleared : List ExclusionZoneInternal → List Spans → ℕ → ℕ → ℕ → List ℕ → List ℕ
cleared zones rects n angle i [] = []
cleared zones rects n angle i (p ∷ ps) =
    (if in_any_zone zones n angle i || in_any_rect rects n angle i then 0 else p)
    ∷ cleared zones rects n angle (suc i) ps

cleared-none : (n angle i : ℕ) (ps : List ℕ) → cleared [] [] n angle i ps ≡ ps
unfolding cleared
cleared-none n angle i [] = refl
cleared-none n angle i (p ∷ ps) = ap (λ qs. p ∷ qs) (cleared-none n angle (suc i) ps)

hide_pixels-cleared :
    (zones : List ExclusionZoneInternal) (rects : List Spans) (m : ExclusionMask)
    (spokes n angle i : ℕ) (ps : List ℕ)
    → angle < spokes
    → i + length ps ≤ n
    → ((spoke pixel : ℕ)
        → is_excluded m spoke pixel
          ≡ ok (
              (ltb spoke spokes && ltb pixel n)
              && (in_any_zone zones n spoke pixel || in_any_rect rects n spoke pixel)))
    → hide_pixels m angle i ps ≡ ok (cleared zones rects n angle i ps)
unfolding hide_pixels cleared
hide_pixels-cleared zones rects m spokes n angle i [] low room reads = refl
hide_pixels-cleared zones rects m spokes n angle i (p ∷ ps) low room reads =
    let inside : (ltb angle spokes && ltb i n) ≡ true = ground (arith, room) in
    let here : is_excluded m angle i
        ≡ ok (in_any_zone zones n angle i || in_any_rect rects n angle i) =
      reads angle i
      ∙ ap (λ b. ok (b && (in_any_zone zones n angle i || in_any_rect rects n angle i))) inside in
    rw here (
      rw (hide_pixels-cleared zones rects m spokes n angle (suc i) ps low (omega arith) reads) refl)

both_empty :
    (zones : List ExclusionZoneInternal) (rects : List Spans)
    → (is_empty zones && is_empty rects) ≡ true
    → (zones ≡ []) × (rects ≡ [])
both_empty [] [] h = (refl, refl)
both_empty [] (r ∷ rects) h = cc
both_empty (z ∷ zones) rects h = cc

-- A mask can be made for zones that fit, and clears what lies in them.
new_mask-cleared :
    (zones : List ExclusionZoneInternal) (rects : List Spans) (spokes n angle : ℕ) (ps : List ℕ)
    → angle < spokes
    → length ps ≡ n
    → 0 < n
    → ZonesFit n zones
    → (mask : Option ExclusionMask) × MaskFor zones rects spokes n mask
      × (apply_mask mask angle ps ≡ ok (cleared zones rects n angle 0 ps))
unfolding new_mask
new_mask-cleared zones rects spokes n angle ps low len some_pixels fit =
    elim (Bool-cases (is_empty zones && is_empty rects)) [
      | inl nothing ↦
          let (no_zone, no_rect) = both_empty zones rects nothing in
          (
            none,
            rw nothing refl,
            ap (λ qs. ok qs) (sym (rw (no_zone, no_rect) (cleared-none n angle 0 ps))),
          )
      | inr something ↦
          let (m, made, reads) = is_excluded-mask_new zones rects spokes n some_pixels fit in
          (
            some m,
            rw something (rw made refl),
            hide_pixels-cleared zones rects m spokes n angle 0 ps low (omega (arith, len)) reads,
          )
    ]

-- Two masks for the same zones are one.
apply_mask-cleared :
    (zones : List ExclusionZoneInternal) (rects : List Spans) (spokes n angle : ℕ) (ps : List ℕ)
    (mask : Option ExclusionMask)
    → angle < spokes
    → length ps ≡ n
    → 0 < n
    → ZonesFit n zones
    → MaskFor zones rects spokes n mask
    → apply_mask mask angle ps ≡ ok (cleared zones rects n angle 0 ps)
apply_mask-cleared zones rects spokes n angle ps mask low len some_pixels fit made =
    let (mask', made', applied) =
      new_mask-cleared zones rects spokes n angle ps low len some_pixels fit in
    ap (λ k. apply_mask k angle ps) (ok_injective (sym made ∙ made')) ∙ applied

fixed_test : (a b : Bool) → a ≡ true → (not a || b) ≡ b
fixed_test true b h = refl
fixed_test false b h = cc

refresh-MaskFor :
    (range n angle : ℕ) (ps : List ℕ) (c : CommonRadar)
    → IsCoherent c
    → c.stationary ≡ true
    → 0 < range
    → angle < c.spokes_per_revolution
    → length ps ≡ n
    → 0 < n
    → ZonesFit n (zones_at range n c)
    → (mask : Option ExclusionMask) × (refresh_exclusion_mask range n c
        ≡ ok (with_mask range n mask c))
      × MaskFor (zones_at range n c) (rects_at range n c) c.spokes_per_revolution n mask
unfolding refresh_exclusion_mask rebuild_mask
refresh-MaskFor range n angle ps c h fixed far low len some_pixels fit =
    elim (Bool-cases (is_current range n c)) [
      | inl current ↦
          let (made, same) = is_current-MaskFor range n c h far current in
          let test : (not c.stationary || is_current range n c) ≡ true =
            fixed_test c.stationary (is_current range n c) fixed ∙ current in
          (
            c.exclusion_mask,
            ap (λ b. if b then ok c else rebuild_mask range n c) test ∙ ap (λ d. ok d) same,
            made,
          )
      | inr stale ↦
          let (mask, made, applied) =
            new_mask-cleared (zones_at range n c) (rects_at range n c) c.spokes_per_revolution n
              angle ps low len some_pixels fit in
          let test : (not c.stationary || is_current range n c) ≡ false =
            fixed_test c.stationary (is_current range n c) fixed ∙ stale in
          let rebuilt : rebuild_mask range n c ≡ ok (with_mask range n mask c) =
            rw (made, rebuild_mask) refl in
          (mask, ap (λ b. if b then ok c else rebuild_mask range n c) test ∙ rebuilt, made)
    ]

-- The state after `push_spoke`, where there is a spoke to a revolution.
unfoldable pub pushed : Env → Spoke → List Spoke → CommonRadar → CommonRadar
pushed env spoke spokes c = record (count_rotation spoke.angle (counted env spoke spokes c)) {
  prev_angle = spoke.angle;
}

pub push_spoke-pushed :
    (env : Env) (spoke : Spoke) (spokes : List Spoke) (c : CommonRadar)
    → 0 < c.spokes_per_revolution
    → (push_spoke env spoke spokes c ≡ ok (pushed env spoke spokes c))
      × ((pushed env spoke spokes c).spoke_message
          ≡ some (spokes ++ (record spoke { pixels = env.update_trails spoke } ∷ [])))
      × (IsCoherent c → IsCoherent (pushed env spoke spokes c))
unfolding push_spoke pushed count_rotation counted
push_spoke-pushed env spoke spokes c some_spokes =
    let test : not (c.spokes_per_revolution == 0) ≡ true = ground (arith, some_spokes) in
    elim (Bool-cases (ltb spoke.angle c.prev_angle)) [
      | inl turned ↦ rw turned (rw test (refl, refl, λ h. h))
      | inr onward ↦ rw onward (rw test (refl, refl, λ h. h))
    ]

-- A bearing is one of the spokes.
pub bearing_of-ok :
    (nav_heading : Option ℕ) (spokes angle : ℕ) (heading : Option ℕ)
    → 0 < spokes
    → (b : Option ℕ) × (bearing_of nav_heading spokes angle heading ≡ ok b)
unfolding bearing_of
bearing_of-ok nav_heading spokes angle (some h) some_spokes =
    let test : (spokes == 0) ≡ false = ground (arith, some_spokes) in
    (some (u16 (h / 2 + angle) % spokes), rw test refl)
bearing_of-ok none spokes angle none some_spokes = (none, refl)
bearing_of-ok (some h) spokes angle none some_spokes =
    let test : (spokes == 0) ≡ false = ground (arith, some_spokes) in
    (some (u16 (h + angle) % spokes), rw test refl)

-- The spoke that is handed on, before the trails are drawn.
abbrev pub shown : CommonRadar → ℕ → ℕ → Option ℕ → List ℕ → Spoke
shown c range angle bearing ps = record {
  angle = angle;
  bearing = bearing;
  range = range;
  time = some c.spoke_time;
  pixels =
      cleared (zones_at range (length ps) c) (rects_at range (length ps) c) (length ps) angle 0 ps;
}

from_some :
    {A : Type 0} {B : Type 0} (x : B) (f : A → B) {t : Option A} (v : A)
    → t ≡ some v
    → ◌≡◌ {A = B} (elim t [ none ↦ x | some w ↦ f w ]) (f v)
from_some x f v e = rw e refl

-- `add_spoke` by its steps.
pub add_spoke_steps :
    (env : Env) (range angle : ℕ) (heading : Option ℕ) (ps shown_pixels : List ℕ)
    (c d e : CommonRadar) (spokes : List Spoke) (b : Option ℕ)
    → refresh_exclusion_mask range (length ps) c ≡ ok d
    → d.spoke_message ≡ some spokes
    → mark_end d ps ≡ ps
    → apply_mask d.exclusion_mask angle ps ≡ ok shown_pixels
    → bearing_of d.nav_heading d.spokes_per_revolution angle heading ≡ ok b
    → verify_pixels env d.legend_len shown_pixels ≡ shown_pixels
    → push_spoke env
        (record {
          angle = angle;
          bearing = b;
          range = range;
          time = some d.spoke_time;
          pixels = shown_pixels;
        })
        spokes
        d
      ≡ ok e
    → add_spoke env range angle heading ps c ≡ ok e
unfolding add_spoke to_protobuf_spoke
add_spoke_steps env range angle heading ps shown_pixels c d e spokes b refreshed begun ends applied
      bearing verified done =
    rw refreshed (from_some _ _ spokes begun ∙ rw ends (rw applied (rw bearing (rw verified done))))

pub mark_end-live : (c : CommonRadar) (ps : List ℕ) → c.replay ≡ false → mark_end c ps ≡ ps
unfolding mark_end
mark_end-live c ps live = rw live refl

pub verify_pixels-quiet :
    (env : Env) (legend_len : ℕ) (ps : List ℕ)
    → env.trace ≡ false
    → verify_pixels env legend_len ps ≡ ps
unfolding verify_pixels
verify_pixels-quiet env legend_len ps quiet = rw quiet refl

-- A spoke of a stationary radar, by the zones and rectangles that are kept for a mask.
pub add_spoke-masked :
    (env : Env) (range angle : ℕ) (heading : Option ℕ) (ps : List ℕ) (c : CommonRadar)
    (spokes : List Spoke)
    → IsCoherent c
    → c.stationary ≡ true
    → c.replay ≡ false
    → env.trace ≡ false
    → c.spoke_message ≡ some spokes
    → 0 < range
    → 0 < length ps
    → angle < c.spokes_per_revolution
    → ZonesFit (length ps) (zones_at range (length ps) c)
    → (c' : CommonRadar) × (b : Option ℕ) × (add_spoke env range angle heading ps c ≡ ok c')
      × IsCoherent c'
      × (c'.spoke_message
          ≡ some (
              spokes
              ++ (record (shown c range angle b ps) {
                pixels = env.update_trails (shown c range angle b ps);
              }
                  ∷ [])))
add_spoke-masked env range angle heading ps c spokes h fixed live quiet begun far some_pixels low
      fit =
    let n = length ps in
    let (mask, refreshed, made) =
      refresh-MaskFor range n angle ps c h fixed far low refl some_pixels fit in
    let (b, bearing) =
      bearing_of-ok c.nav_heading c.spokes_per_revolution angle heading (omega arith) in
    let applied =
      apply_mask-cleared (zones_at range n c) (rects_at range n c) c.spokes_per_revolution n angle
        ps mask low refl some_pixels fit made in
    let (done, message, coherent) =
      push_spoke-pushed env (shown c range angle b ps) spokes (with_mask range n mask c)
        (omega arith) in
    (
      pushed env (shown c range angle b ps) spokes (with_mask range n mask c),
      b,
      add_spoke_steps env range angle heading ps _ c (with_mask range n mask c) _ spokes b refreshed
          begun (mark_end-live (with_mask range n mask c) ps live) applied bearing
          (verify_pixels-quiet env c.legend_len _ quiet) done,
      coherent (inr (inr made)),
      message,
    )
