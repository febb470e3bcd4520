-- ===== src/Radar/Legend.antt =====
-- `default_legend` of src/lib/radar/mod.rs: what each pixel value of a radar means and how it is
-- drawn. The colours are quotients that the source works out in floating point and casts by `as u8`,
-- which cuts off the fraction and stops at 255 and, for 0 / 0, gives 0: `shade` is that number.
pub mod Parts
use mayara_server.Common.{
  ℕ, zero, suc, ◌+◌, ◌-◌, ◌*◌, ◌/◌, ◌%◌, min, Bool, true, false, not, ◌&&◌, List, [], ◌∷◌, ◌++◌,
  Option, none, some, length, ltb, leb, ◌==◌, if◌then◌else◌,
}
use Prim.Native.Nat.{max}

pub data PixelType : Type 0 where
  normal doppler_approaching doppler_receding doppler_rain history : PixelType

pub record Color : Type 0 where
  pub r : ℕ
  pub g : ℕ
  pub b : ℕ
  pub a : ℕ

pub record Lookup : Type 0 where
  pub pixel_type : PixelType
  pub color : Color

pub record Legend : Type 0 where
  pub doppler_approaching_range : Option (ℕ × ℕ)
  pub doppler_receding_range : Option (ℕ × ℕ)
  pub doppler_rain_range : Option (ℕ × ℕ)
  pub history_start : ℕ
  pub low_return : ℕ
  pub medium_return : ℕ
  pub strong_return : ℕ
  pub pixel_colors : ℕ
  pub pixels : List Lookup
  pub static_background : Option ℕ

pub data TargetMode : Type 0 where
  arpa trails no_targets : TargetMode

abbrev pub blob_history_colors : ℕ
blob_history_colors = 32

abbrev opaque : ℕ
opaque = 255

abbrev pub u8 : ℕ → ℕ
u8 n = n % 256

abbrev pub rgb : ℕ → ℕ → ℕ → Color
rgb r g b = record { r = r; g = g; b = b; a = opaque }

abbrev pub is_arpa : TargetMode → Bool
is_arpa arpa = true
is_arpa mode = false

abbrev pub has_history : TargetMode → Bool
has_history no_targets = false
has_history mode = true

-- `(255.0 * v as f64 / d as f64) as u8`
abbrev shade : ℕ → ℕ → ℕ
shade v d = if d == 0 then (if v == 0 then 0 else 255) else min 255 (255 * v / d)

unfoldable pub normal_lookup : ℕ → ℕ → Lookup
normal_lookup pixels_with_color v =
    let one_third = pixels_with_color / 3 in
    let two_thirds = one_third * 2 in
    record {
      pixel_type = normal;
      color =
          rgb (if leb two_thirds v then shade (v - two_thirds) one_third else 0)
            (if leb one_third v && ltb v two_thirds
              then shade (v - one_third) one_third
              else if leb two_thirds v
              then shade (pixels_with_color - v) one_third
              else 0)
            (if ltb v one_third
              then shade v one_third
              else if leb one_third v && ltb v two_thirds
              then shade (two_thirds - v) one_third
              else 0);
    }

-- The values from `v` on, as many as `count`.
unfoldable pub normal_lookups : ℕ → ℕ → ℕ → List Lookup
normal_lookups pixels_with_color v zero = []
normal_lookups pixels_with_color v (suc count) =
    normal_lookup pixels_with_color v ∷ normal_lookups pixels_with_color (suc v) count

-- Dim to bright.
unfoldable pub brightness : ℕ → ℕ → ℕ
brightness levels i = if levels == 1 then 255 else u8 (64 + u8 (i * 191 / (levels - 1)))

unfoldable pub doppler_color : PixelType → ℕ → Color
doppler_color doppler_approaching brightness = rgb brightness 0 brightness
doppler_color doppler_receding brightness = rgb 0 brightness 0
doppler_color pixel_type brightness = rgb 0 0 brightness

-- The sub-levels from `i` on.
unfoldable pub doppler_lookups : PixelType → ℕ → ℕ → ℕ → List Lookup
doppler_lookups pixel_type levels i zero = []
doppler_lookups pixel_type levels i (suc count) =
    record { pixel_type = pixel_type; color = doppler_color pixel_type (brightness levels i) }
    ∷ doppler_lookups pixel_type levels (suc i) count

unfoldable pub history_lookups : ℕ → ℕ → List Lookup
history_lookups density zero = []
history_lookups density (suc count) =
    record { pixel_type = history; color = rgb density density density }
    ∷ history_lookups (density - (255 - 63) / blob_history_colors) count

-- Sections are pushed one by one, each at the length so far, cast by `as u8`.
unfoldable pub push_section : Bool → List Lookup → List Lookup → List Lookup × Option ℕ
push_section true section pixels = (pixels ++ section, some (u8 (length pixels)))
push_section false section pixels = (pixels, none)

abbrev pub with_levels : ℕ → Option ℕ → Option (ℕ × ℕ)
with_levels levels none = none
with_levels levels (some start) = some (start, levels)

unfoldable pub or_zero : Option ℕ → ℕ
or_zero none = 0
or_zero (some n) = n

unfoldable pub rain_levels_of : Bool → ℕ → ℕ
rain_levels_of has_rain_class doppler_levels =
    if has_rain_class && ltb 0 doppler_levels then doppler_levels else 0

-- A difference of bytes, which wraps around.
abbrev pub sub_u8 : ℕ → ℕ → ℕ
sub_u8 a b = u8 (a + 256 - b)

-- The number of values that stay for the echoes.
unfoldable pub echo_values : TargetMode → ℕ → ℕ → ℕ → ℕ
echo_values targets doppler_levels rain_levels pixel_values = min pixel_values (
    sub_u8
      (sub_u8 (sub_u8 (sub_u8 255 (if has_history targets then blob_history_colors else 0)) 1)
        (if is_arpa targets then 1 else 0))
      (u8 (u8 (doppler_levels * 2) + rain_levels)))

abbrev pub transparent : Lookup
transparent = record { pixel_type = normal; color = record { r = 0; g = 0; b = 0; a = 0 } }

abbrev pub grey : Lookup
grey = record { pixel_type = history; color = rgb 0x50 0x50 0x50 }

-- The legend with `pixel_values` values for the echoes, at least one.
unfoldable pub full_legend : TargetMode → ℕ → ℕ → ℕ → Legend
full_legend targets doppler_levels rain_levels pixel_values =
    let pixels_with_color = pixel_values - 1 in
    let one_third = pixels_with_color / 3 in
    let echoes = transparent ∷ normal_lookups pixels_with_color 1 pixels_with_color in
    let (p₁, background) = push_section (is_arpa targets) (grey ∷ []) echoes in
    let has_doppler = ltb 0 doppler_levels in
    let (p₂, approaching) =
      push_section has_doppler (doppler_lookups doppler_approaching doppler_levels 0 doppler_levels)
        p₁ in
    let (p₃, receding) =
      push_section has_doppler (doppler_lookups doppler_receding doppler_levels 0 doppler_levels)
        p₂ in
    let (p₄, rain) =
      push_section (ltb 0 rain_levels) (doppler_lookups doppler_rain rain_levels 0 rain_levels)
        p₃ in
    let (p₅, trail) =
      push_section (has_history targets) (history_lookups 255 blob_history_colors) p₄ in
    record {
      doppler_approaching_range = with_levels doppler_levels approaching;
      doppler_receding_range = with_levels doppler_levels receding;
      doppler_rain_range = with_levels rain_levels rain;
      history_start = or_zero trail;
      low_return = max 1 (one_third / 3);
      medium_return = one_third;
      strong_return = one_third * 2;
      pixel_colors = pixel_values;
      pixels = p₅;
      static_background = background;
    }

abbrev pub empty_legend : Legend
empty_legend = record {
  doppler_approaching_range = none;
  doppler_receding_range = none;
  doppler_rain_range = none;
  history_start = 0;
  low_return = 0;
  medium_return = 0;
  strong_return = 0;
  pixel_colors = 0;
  pixels = transparent ∷ [];
  static_background = none;
}

unfoldable pub default_legend : TargetMode → ℕ → Bool → ℕ → Legend
default_legend targets doppler_levels has_rain_class pixel_values =
    let rain_levels = rain_levels_of has_rain_class doppler_levels in
    let values = echo_values targets doppler_levels rain_levels pixel_values in
    if values == 0 then empty_legend else full_legend targets doppler_levels rain_levels values
