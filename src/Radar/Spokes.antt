-- ===== src/Radar/Spokes.antt =====
-- `CommonRadar` of src/lib/radar/mod.rs, where every receiver hands on its spokes, with
-- `to_protobuf_spoke` of src/lib/radar/spoke.rs. What it does to others is a list of events. The
-- position of a spoke and the shape of a zone are worked out in floating point: the position is left
-- out, and a zone comes with its shape for each range and spoke length.
pub mod Cleared
pub mod Enabled
pub mod Plain
pub mod Moving
pub mod Tally
pub mod Rotation
use mayara_server.Common.{
  ℕ, zero, suc, ◌+◌, ◌-◌, ◌*◌, ◌/◌, ◌%◌, ◌^◌, min, Bool, true, false, not, ◌&&◌, ◌||◌, List, [],
  ◌∷◌, ◌++◌, Option, none, some, Result, ok, err, ◌>>=◌, ◌>>◌, guard, map, length, set, ltb, leb,
  ◌==◌, if◌then◌else◌,
}
use Prim.Native.Nat.{max}
use mayara_server.Radar.Exclusion.{
  ExclusionZoneInternal, Fault, division_by_zero, ExclusionMask, Spans, mask_new, is_excluded,
}

pub record Spoke : Type 0 where
  pub angle : ℕ
  pub bearing : Option ℕ
  pub range : ℕ
  pub time : Option ℕ
  pub pixels : List ℕ

-- A zone of the configuration, with `zone_to_internal`.
pub record ExclusionZone : Type 0 where
  pub enabled : Bool
  pub internal : ℕ → ℕ → ExclusionZoneInternal

-- A rectangle, with the pixels that it covers on each spoke.
pub record ExclusionRect : Type 0 where
  pub enabled : Bool
  pub spans : ℕ → ℕ → Spans

pub data Event : Type 0 where
  set_heading : ℕ → Event
  process_spoke : Spoke → Event
  full_rotation : Event
  set_spokes : ℕ → Event
  set_spoke_length : ℕ → Event
  broadcast : List Spoke → Event

pub record CommonRadar : Type 0 where
  pub spokes_per_revolution : ℕ
  pub pixel_colors : ℕ
  pub legend_len : ℕ
  pub stationary : Bool
  pub replay : Bool
  pub spoke_message : Option (List Spoke)
  pub spoke_time : ℕ
  pub prev_angle : ℕ
  pub spoke_count : ℕ
  pub max_spoke_length : ℕ
  pub exclusion_zones : List (Option ExclusionZone)
  pub exclusion_rects : List (Option ExclusionRect)
  pub exclusion_mask : Option ExclusionMask
  pub current_exclusion_range : ℕ
  pub current_exclusion_spoke_len : ℕ
  pub nav_heading : Option ℕ
  pub events : List Event

-- `CommonRadar::new`, with what the radar and its controls say. The true heading belongs to no radar:
-- it is shared with the navigation data, and not known at first.
unfoldable pub common_radar_new :
    ℕ
    → ℕ
    → ℕ
    → Bool
    → Bool
    → List (Option ExclusionZone)
    → List (Option ExclusionRect)
    → CommonRadar
common_radar_new spokes_per_revolution pixel_colors legend_len stationary replay zones rects =
    record {
      spokes_per_revolution = spokes_per_revolution;
      pixel_colors = pixel_colors;
      legend_len = legend_len;
      stationary = stationary;
      replay = replay;
      spoke_message = none;
      spoke_time = 0;
      prev_angle = 0;
      spoke_count = 0;
      max_spoke_length = 0;
      exclusion_zones = zones;
      exclusion_rects = rects;
      exclusion_mask = none;
      current_exclusion_range = 0;
      current_exclusion_spoke_len = 0;
      nav_heading = none;
      events = [];
    }

-- What is read and not set: the number of spokes that a heading of so many spokes, of this many to a
-- revolution, gives when it is kept in radians (floating point), whether trace messages are logged,
-- and what the trails make of the pixels.
pub record Env : Type 0 where
  pub kept_heading : ℕ → ℕ → ℕ
  pub trace : Bool
  pub update_trails : Spoke → List ℕ

abbrev u16 : ℕ → ℕ
u16 n = n % 2 ^ 16

abbrev pub u32 : ℕ → ℕ
u32 n = n % 2 ^ 32

-- `%`, which panics on zero.
abbrev pub modulo : ℕ → ℕ → Result Fault ℕ
modulo n d = if d == 0 then err division_by_zero else ok (n % d)

unfoldable pub bearing_of : Option ℕ → ℕ → ℕ → Option ℕ → Result Fault (Option ℕ)
bearing_of nav_heading spokes_per_revolution angle (some h) =
    modulo (u16 (h / 2 + angle)) spokes_per_revolution >>= λ b. ok (some b)
bearing_of none spokes_per_revolution angle none = ok none
bearing_of (some h) spokes_per_revolution angle none =
    modulo (u16 (h + angle)) spokes_per_revolution >>= λ b. ok (some b)

unfoldable pub to_protobuf_spoke :
    Option ℕ → ℕ → ℕ → ℕ → Option ℕ → Option ℕ → List ℕ → Result Fault Spoke
to_protobuf_spoke nav_heading spokes_per_revolution range angle heading time generic_spoke = do
  bearing ← bearing_of nav_heading spokes_per_revolution angle heading
  ok (record {
    angle = angle;
    bearing = bearing;
    range = range;
    time = time;
    pixels = generic_spoke;
  })

-- What others tell of the true heading, in spokes.
unfoldable pub set_heading_true : Option ℕ → CommonRadar → CommonRadar
set_heading_true heading c = record c { nav_heading = heading }

unfoldable pub new_spoke_message : ℕ → CommonRadar → CommonRadar
new_spoke_message now c = record c { spoke_message = some []; spoke_time = now }

abbrev pub emit : List Event → CommonRadar → CommonRadar
emit es c = record c { events = c.events ++ es }

-- The message is taken, and sent if it has a spoke.
unfoldable pub send_spoke_message : CommonRadar → CommonRadar
send_spoke_message c = elim c.spoke_message [
  | none ↦ c
  | some [] ↦ record c { spoke_message = none }
  | some (spoke ∷ spokes) ↦ record c {
    spoke_message = none;
    events = c.events ++ (broadcast (spoke ∷ spokes) ∷ []);
  }
]

unfoldable pub active_zones : ℕ → ℕ → List (Option ExclusionZone) → List ExclusionZoneInternal
active_zones range spoke_len [] = []
active_zones range spoke_len (none ∷ zones) = active_zones range spoke_len zones
active_zones range spoke_len (some z ∷ zones) =
    let rest = active_zones range spoke_len zones in
    if z.enabled then z.internal range spoke_len ∷ rest else rest

unfoldable pub active_rects : ℕ → ℕ → List (Option ExclusionRect) → List Spans
active_rects range spoke_len [] = []
active_rects range spoke_len (none ∷ rects) = active_rects range spoke_len rects
active_rects range spoke_len (some r ∷ rects) =
    let rest = active_rects range spoke_len rects in
    if r.enabled then r.spans range spoke_len ∷ rest else rest

abbrev pub is_empty : {A : Type 0} → List A → Bool
is_empty [] = true
is_empty (x ∷ xs) = false

abbrev is_some : {A : Type 0} → Option A → Bool
is_some none = false
is_some (some a) = true

-- The mask for the zones, if there are any.
unfoldable pub new_mask :
    List ExclusionZoneInternal → List Spans → ℕ → ℕ → Result Fault (Option ExclusionMask)
new_mask zones rects spokes spoke_len =
    if is_empty zones && is_empty rects
    then ok none
    else mask_new zones rects spokes spoke_len >>= λ m. ok (some m)

-- The mask is kept while the range and the spoke length are those that it was made for.
unfoldable pub is_current : ℕ → ℕ → CommonRadar → Bool
is_current range spoke_len c =
    (range == c.current_exclusion_range)
    && ((spoke_len == c.current_exclusion_spoke_len) && is_some c.exclusion_mask)

unfoldable pub rebuild_mask : ℕ → ℕ → CommonRadar → Result Fault CommonRadar
rebuild_mask range spoke_len c = do
  mask ←
      new_mask (active_zones range spoke_len c.exclusion_zones)
        (active_rects range spoke_len c.exclusion_rects) c.spokes_per_revolution spoke_len
  ok (record c {
    exclusion_mask = mask;
    current_exclusion_range = range;
    current_exclusion_spoke_len = spoke_len;
  })

unfoldable pub refresh_exclusion_mask : ℕ → ℕ → CommonRadar → Result Fault CommonRadar
refresh_exclusion_mask range spoke_len c =
    if not c.stationary || is_current range spoke_len c
    then ok c
    else rebuild_mask range spoke_len c

-- What a changed zone or rectangle sets, the range to force the mask to be built again.
unfoldable pub set_exclusion_zone : ℕ → Option ExclusionZone → CommonRadar → CommonRadar
set_exclusion_zone i z c = record c {
  exclusion_zones = set c.exclusion_zones i z;
  current_exclusion_range = 0;
}

unfoldable pub set_exclusion_rect : ℕ → Option ExclusionRect → CommonRadar → CommonRadar
set_exclusion_rect i rect c = record c {
  exclusion_rects = set c.exclusion_rects i rect;
  current_exclusion_range = 0;
}

-- In replay mode the last two pixels are drawn.
unfoldable pub mark_end : CommonRadar → List ℕ → List ℕ
mark_end c generic_spoke =
    let len = length generic_spoke in
    let max_pixel = c.pixel_colors - 1 in
    if c.replay && leb 2 len
    then set (set generic_spoke (len - 2) max_pixel) (len - 1) max_pixel
    else generic_spoke

-- The pixels from `i` on, those in a zone cleared.
unfoldable pub hide_pixels : ExclusionMask → ℕ → ℕ → List ℕ → Result Fault (List ℕ)
hide_pixels m angle i [] = ok []
hide_pixels m angle i (pixel ∷ pixels) = do
  hidden ← is_excluded m angle i
  rest ← hide_pixels m angle (suc i) pixels
  ok ((if hidden then 0 else pixel) ∷ rest)

abbrev pub apply_mask : Option ExclusionMask → ℕ → List ℕ → Result Fault (List ℕ)
apply_mask none angle pixels = ok pixels
apply_mask (some m) angle pixels = hide_pixels m angle 0 pixels

-- The check of the values, where trace messages are logged.
unfoldable pub verify_pixels : Env → ℕ → List ℕ → List ℕ
verify_pixels env legend_len pixels =
    let max_value = legend_len % 256 in
    if env.trace then map (λ (p : ℕ). if leb max_value p then 0 else p) pixels else pixels

-- `(bearing - angle).rem_euclid(spokes_per_revolution)`
abbrev pub heading_spokes : ℕ → ℕ → ℕ → ℕ
heading_spokes spokes_per_revolution bearing angle =
    (bearing + angle * spokes_per_revolution - angle) % spokes_per_revolution

abbrev heading_events : ℕ → Spoke → List Event
heading_events spokes_per_revolution spoke = elim spoke.bearing [
  | none ↦ []
  | some b ↦ set_heading (heading_spokes spokes_per_revolution b spoke.angle) ∷ []
]

-- The heading of a spoke that has a bearing is the one that is known from then on.
unfoldable pub heading_after : Env → ℕ → Spoke → Option ℕ → Option ℕ
heading_after env spokes_per_revolution spoke nav_heading = elim spoke.bearing [
  | none ↦ nav_heading
  | some b ↦
      some (
        env.kept_heading spokes_per_revolution (heading_spokes spokes_per_revolution b spoke.angle))
]

-- The counters, which a new rotation hands on and resets.
unfoldable pub count_rotation : ℕ → CommonRadar → CommonRadar
count_rotation angle c =
    if ltb angle c.prev_angle
    then record c {
      spoke_count = 0;
      max_spoke_length = 0;
      events =
          c.events
          ++ (full_rotation ∷ set_spokes c.spoke_count ∷ set_spoke_length c.max_spoke_length ∷ []);
    }
    else c

-- A spoke with its pixels in place, into the message.
unfoldable pub counted : Env → Spoke → List Spoke → CommonRadar → CommonRadar
counted env spoke spokes c = record c {
  spoke_count = u32 (c.spoke_count + 1);
  max_spoke_length = max c.max_spoke_length (u32 (length spoke.pixels));
  events = c.events ++ (process_spoke spoke ∷ heading_events c.spokes_per_revolution spoke);
  nav_heading = heading_after env c.spokes_per_revolution spoke c.nav_heading;
  spoke_message = some (spokes ++ (record spoke { pixels = env.update_trails spoke } ∷ []));
}

unfoldable pub push_spoke : Env → Spoke → List Spoke → CommonRadar → Result Fault CommonRadar
push_spoke env spoke spokes c₀ =
    let c = count_rotation spoke.angle (counted env spoke spokes c₀) in
    -- the check for a missing spoke, which only logs, divides by the number of spokes
    guard (not (c.spokes_per_revolution == 0)) division_by_zero
    >> ok (record c { prev_angle = spoke.angle })

unfoldable pub add_spoke : Env → ℕ → ℕ → Option ℕ → List ℕ → CommonRadar → Result Fault CommonRadar
add_spoke env range angle heading generic_spoke c₀ = do
  c ← refresh_exclusion_mask range (length generic_spoke) c₀
  elim c.spoke_message [
    | none ↦ ok c
    | some spokes ↦ do
      shown ← apply_mask c.exclusion_mask angle (mark_end c generic_spoke)
      spoke ←
          to_protobuf_spoke c.nav_heading c.spokes_per_revolution range angle heading
            (some c.spoke_time) (verify_pixels env c.legend_len shown)
      push_spoke env spoke spokes c
  ]
