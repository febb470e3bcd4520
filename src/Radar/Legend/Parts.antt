-- ===== src/Radar/Legend/Parts.antt =====
-- The parts of a legend of src/lib/radar/mod.rs: where the values of each kind stand.
use mayara_server.Common.{
  ℕ, zero, suc, ◌+◌, ◌-◌, ◌*◌, ◌/◌, ◌≤◌, ◌<◌, ◌≡◌, refl, sym, ap, ◌∙◌, arith, Bool, true, false,
  List, [], ◌∷◌, ◌++◌, append_assoc, append-nil, Option, none, some, length, length-append, ltb,
  ◌==◌, if◌then◌else◌, min,
}
use mayara_server.Bytes.{All}
use mayara_server.Radar.Legend.{
  PixelType, normal, doppler_approaching, doppler_receding, doppler_rain, history, Lookup, Legend,
  TargetMode, is_arpa, has_history, blob_history_colors, normal_lookup, normal_lookups,
  doppler_lookups, history_lookups, push_section, with_levels, or_zero, rain_levels_of, echo_values,
  transparent, grey, u8, full_legend, default_legend,
}

-- The values from `start` on, as many as `n`, are of the kind.
abbrev pub HoldsAt : PixelType → ℕ → ℕ → List Lookup → Type 0
HoldsAt kind start n pixels =
    (before : List Lookup) × (section : List Lookup) × (after : List Lookup) × (pixels
      ≡ before ++ (section ++ after))
    × (length before ≡ start)
    × (length section ≡ n)
    × All (λ l. l.pixel_type ≡ kind) section

abbrev pub Holds : PixelType → Option (ℕ × ℕ) → List Lookup → Type 0
Holds kind none pixels = Unit
Holds kind (some (start, n)) pixels = HoldsAt kind start n pixels

HoldsAt-append :
    (kind : PixelType) (start n : ℕ) (pixels more : List Lookup)
    → HoldsAt kind start n pixels
    → HoldsAt kind start n (pixels ++ more)
HoldsAt-append kind start n pixels more (before, section, after, split, len, size, kinds) = (
  before,
  section,
  after ++ more,
  rw split (
      append_assoc before (section ++ after) more
      ∙ ap (λ xs. before ++ xs) (append_assoc section after more)),
  len,
  size,
  kinds,
)

Holds-append :
    (kind : PixelType) (range : Option (ℕ × ℕ)) (pixels more : List Lookup)
    → Holds kind range pixels
    → Holds kind range (pixels ++ more)
Holds-append kind none pixels more h = tt
Holds-append kind (some (start, n)) pixels more h = HoldsAt-append kind start n pixels more h

-- What a section that may be pushed leaves.
record Pushed (kind : PixelType) (section pixels : List Lookup) (b : Bool) : Type 0 where
  more : List Lookup
  pixels_are : (push_section b section pixels).0 ≡ pixels ++ more
  more_length : length more ≡ (if b then length section else 0)
  holds :
      Holds kind
        (with_levels (length section) (push_section b section pixels).1)
        (push_section b section pixels).0

push_section-Pushed :
    (kind : PixelType) (section pixels : List Lookup) (b : Bool)
    → All (λ l. l.pixel_type ≡ kind) section
    → length pixels ≤ 255
    → Pushed kind section pixels b
unfolding push_section
push_section-Pushed kind section pixels true kinds small = record {
  more = section;
  pixels_are = refl;
  more_length = refl;
  holds = (
    pixels,
    section,
    [],
    ap (λ xs. pixels ++ xs) (sym (append-nil section)),
    omega arith,
    refl,
    kinds,
  );
}
push_section-Pushed kind section pixels false kinds small = record {
  more = [];
  pixels_are = sym (append-nil pixels);
  more_length = refl;
  holds = tt;
}

length-normal_lookups : (c v n : ℕ) → length (normal_lookups c v n) ≡ n
unfolding normal_lookups
length-normal_lookups c v zero = refl
length-normal_lookups c v (suc n) = ap suc (length-normal_lookups c (suc v) n)

normal_lookups-normal : (c v n : ℕ) → All (λ l. l.pixel_type ≡ normal) (normal_lookups c v n)
unfolding normal_lookups normal_lookup
normal_lookups-normal c v zero = tt
normal_lookups-normal c v (suc n) = (refl, normal_lookups-normal c (suc v) n)

length-doppler_lookups :
    (kind : PixelType) (levels i n : ℕ) → length (doppler_lookups kind levels i n) ≡ n
unfolding doppler_lookups
length-doppler_lookups kind levels i zero = refl
length-doppler_lookups kind levels i (suc n) = ap suc (length-doppler_lookups kind levels (suc i) n)

doppler_lookups-kind :
    (kind : PixelType) (levels i n : ℕ)
    → All (λ l. l.pixel_type ≡ kind) (doppler_lookups kind levels i n)
unfolding doppler_lookups
doppler_lookups-kind kind levels i zero = tt
doppler_lookups-kind kind levels i (suc n) = (refl, doppler_lookups-kind kind levels (suc i) n)

length-history_lookups : (density n : ℕ) → length (history_lookups density n) ≡ n
unfolding history_lookups
length-history_lookups density zero = refl
length-history_lookups density (suc n) =
    ap suc (length-history_lookups (density - (255 - 63) / blob_history_colors) n)

history_lookups-history :
    (density n : ℕ) → All (λ l. l.pixel_type ≡ history) (history_lookups density n)
unfolding history_lookups
history_lookups-history density zero = tt
history_lookups-history density (suc n) =
    (refl, history_lookups-history (density - (255 - 63) / blob_history_colors) n)

Pushed-length :
    {kind : PixelType} {section pixels : List Lookup} {b : Bool}
    → Pushed kind section pixels b
    → length (push_section b section pixels).0 ≡ length pixels + (if b then length section else 0)
Pushed-length {pixels} h =
    ap (λ (xs : List Lookup). length xs) h.pixels_are
    ∙ length-append pixels h.more
    ∙ ap (λ (n : ℕ). length pixels + n) h.more_length

-- What held before a section still holds behind it.
Pushed-Holds :
    {kind : PixelType} {section pixels : List Lookup} {b : Bool} (other : PixelType)
    (range : Option (ℕ × ℕ))
    → Pushed kind section pixels b
    → Holds other range pixels
    → Holds other range (push_section b section pixels).0
Pushed-Holds {pixels} other range h held =
    rw h.pixels_are (Holds-append other range pixels h.more held)

-- The part behind a test of its levels.
abbrev pub range_if : Bool → ℕ → ℕ → Option (ℕ × ℕ)
range_if true start n = some (start, n)
range_if false start n = none

-- A part of `n` values is where the legend says, or the legend has none where there are none.
abbrev pub Part : PixelType → ℕ → Option (ℕ × ℕ) → List Lookup → Type 0
Part kind zero range pixels = range ≡ none
Part kind (suc n) range pixels =
    (start : ℕ) × (range ≡ some (start, suc n)) × HoldsAt kind start (suc n) pixels

-- The legend for so many levels of Doppler and of rain: as many values for the echoes as the modes
-- leave, and parts of as many values as there are levels.
pub record IsLegend (targets : TargetMode) (levels rain_levels pixel_values : ℕ) (l : Legend)
    : Type 0 where
  pub small : length l.pixels ≤ 255
  pub room :
      l.pixel_colors
      ≡ min pixel_values (
          254
          - ((if has_history targets then 32 else 0) + (if is_arpa targets then 1 else 0))
          - (2 * levels + rain_levels))
  pub echoes : HoldsAt normal 0 l.pixel_colors l.pixels
  pub approaching : Part doppler_approaching levels l.doppler_approaching_range l.pixels
  pub receding : Part doppler_receding levels l.doppler_receding_range l.pixels
  pub rain : Part doppler_rain rain_levels l.doppler_rain_range l.pixels
  pub trail : Holds history (range_if (has_history targets) l.history_start 32) l.pixels

-- A part that a legend states, in the form of `Part`.
Holds-Part :
    (kind : PixelType) (n : ℕ) (start : Option ℕ) (pixels : List Lookup)
    → (n ≡ 0 → start ≡ none) × (0 < n → (k : ℕ) × (start ≡ some k))
    → Holds kind (with_levels n start) pixels
    → Part kind n (with_levels n start) pixels
Holds-Part kind zero start pixels known h = ap (with_levels 0) (known.0 refl)
Holds-Part kind (suc n) none pixels known h = cc_none (known.1 (omega arith)).1
  where
    cc_none : {k : ℕ} {X : Type 0} → ◌≡◌ {A = Option ℕ} none (some k) → X
    cc_none e = cc
Holds-Part kind (suc n) (some k) pixels known h = (k, refl, h)

trail-Holds :
    (b : Bool) (pixels : List Lookup)
    → Pushed history (history_lookups 255 32) pixels b
    → Holds history
        (range_if b (or_zero (push_section b (history_lookups 255 32) pixels).1) 32)
        (push_section b (history_lookups 255 32) pixels).0
unfolding push_section or_zero
trail-Holds true pixels h = rw (length-history_lookups 255 32) at h.holds
trail-Holds false pixels h = tt

-- A section of sub-levels adds as many values as there are levels.
levels-length :
    (kind : PixelType) (levels : ℕ) {pixels : List Lookup}
    → Pushed kind (doppler_lookups kind levels 0 levels) pixels (ltb 0 levels)
    → length (push_section (ltb 0 levels) (doppler_lookups kind levels 0 levels) pixels).0
      ≡ length pixels + levels
levels-length kind levels {pixels} h = Pushed-length h ∙ ap (λ (n : ℕ). length pixels + n) added
  where
    added : (if ltb 0 levels then length (doppler_lookups kind levels 0 levels) else 0) ≡ levels
    added = rw (length-doppler_lookups kind levels 0 levels) (ground arith)

levels-Holds :
    (kind : PixelType) (levels : ℕ) {pixels : List Lookup}
    → Pushed kind (doppler_lookups kind levels 0 levels) pixels (ltb 0 levels)
    → Holds kind
        (with_levels levels
          (push_section (ltb 0 levels) (doppler_lookups kind levels 0 levels) pixels).1)
        (push_section (ltb 0 levels) (doppler_lookups kind levels 0 levels) pixels).0
levels-Holds kind levels h = rw (length-doppler_lookups kind levels 0 levels) at h.holds

-- Whether a section of levels is pushed.
push_levels :
    (levels : ℕ) (section pixels : List Lookup)
    → (levels ≡ 0 → (push_section (ltb 0 levels) section pixels).1 ≡ none)
      × (0 < levels → (n : ℕ) × ((push_section (ltb 0 levels) section pixels).1 ≡ some n))
unfolding push_section
push_levels zero section pixels = (λ e. refl, λ h. absurd (omega (arith, h)))
push_levels (suc n) section pixels =
    let test : ltb 0 (suc n) ≡ true = ground arith in
    (λ e. absurd (omega (arith, e)), λ h. (u8 (length pixels), rw test refl))

full_legend-IsLegend :
    (targets : TargetMode) (levels rain_levels values : ℕ)
    → values
        + (if is_arpa targets then 1 else 0)
        + 2 * levels
        + rain_levels
        + (if has_history targets then 32 else 0)
      ≤ 255
    → 0 < values
    → (pixel_values : ℕ)
    → values
      ≡ min pixel_values (
          254
          - ((if has_history targets then 32 else 0) + (if is_arpa targets then 1 else 0))
          - (2 * levels + rain_levels))
    → IsLegend targets levels rain_levels pixel_values
        (full_legend targets levels rain_levels values)
unfolding full_legend
full_legend-IsLegend targets levels rain_levels values fits some_values pixel_values room =
    let c = values - 1 in
    let p₀ : List Lookup = transparent ∷ normal_lookups c 1 c in
    let n₀ : length p₀ ≡ values = omega (arith, length-normal_lookups c 1 c) in
    let s₁ =
      push_section-Pushed history (grey ∷ []) p₀ (is_arpa targets) (refl, tt) (omega (arith, n₀)) in
    let p₁ = (push_section (is_arpa targets) (grey ∷ []) p₀).0 in
    let n₁ = Pushed-length s₁ in
    let a = doppler_lookups doppler_approaching levels 0 levels in
    let s₂ =
      push_section-Pushed doppler_approaching a p₁ (ltb 0 levels)
        (doppler_lookups-kind doppler_approaching levels 0 levels) (omega (arith, n₀, n₁)) in
    let p₂ = (push_section (ltb 0 levels) a p₁).0 in
    let n₂ = levels-length doppler_approaching levels s₂ in
    let r = doppler_lookups doppler_receding levels 0 levels in
    let s₃ =
      push_section-Pushed doppler_receding r p₂ (ltb 0 levels)
        (doppler_lookups-kind doppler_receding levels 0 levels) (omega (arith, n₀, n₁, n₂)) in
    let p₃ = (push_section (ltb 0 levels) r p₂).0 in
    let n₃ = levels-length doppler_receding levels s₃ in
    let d = doppler_lookups doppler_rain rain_levels 0 rain_levels in
    let s₄ =
      push_section-Pushed doppler_rain d p₃ (ltb 0 rain_levels)
        (doppler_lookups-kind doppler_rain rain_levels 0 rain_levels)
        (omega (arith, n₀, n₁, n₂, n₃)) in
    let p₄ = (push_section (ltb 0 rain_levels) d p₃).0 in
    let n₄ = levels-length doppler_rain rain_levels s₄ in
    let s₅ =
      push_section-Pushed history (history_lookups 255 32) p₄ (has_history targets)
        (history_lookups-history 255 32) (omega (arith, n₀, n₁, n₂, n₃, n₄)) in
    let n₅ : length (push_section (has_history targets) (history_lookups 255 32) p₄).0
        ≡ length p₄ + (if has_history targets then 32 else 0) =
      Pushed-length s₅
      ∙ ap (λ (n : ℕ). length p₄ + (if has_history targets then n else 0))
          (length-history_lookups 255 32) in
    let echo : HoldsAt normal 0 values p₀ =
      ([], p₀, [], sym (append-nil p₀), refl, n₀, (refl, normal_lookups-normal c 1 c)) in
    let kept₂ = λ (k : PixelType) (o : Option (ℕ × ℕ)) (h : Holds k o p₂).
      Pushed-Holds k o s₅ (Pushed-Holds k o s₄ (Pushed-Holds k o s₃ h)) in
    record {
      small = omega (arith, n₀, n₁, n₂, n₃, n₄, n₅);
      echoes = kept₂ normal (some (0, values)) (
          Pushed-Holds normal (some (0, values)) s₂
            (Pushed-Holds normal (some (0, values)) s₁ echo));
      room = room;
      approaching =
          Holds-Part doppler_approaching levels _ _ (push_levels levels a p₁)
            (kept₂ doppler_approaching _ (levels-Holds doppler_approaching levels s₂));
      receding = Holds-Part doppler_receding levels _ _ (push_levels levels r p₂) (
          Pushed-Holds doppler_receding _ s₅
            (Pushed-Holds doppler_receding _ s₄ (levels-Holds doppler_receding levels s₃)));
      rain =
          Holds-Part doppler_rain rain_levels _ _ (push_levels rain_levels d p₃)
            (Pushed-Holds doppler_rain _ s₅ (levels-Holds doppler_rain rain_levels s₄));
      trail = trail-Holds (has_history targets) p₄ s₅;
    }

-- The legend of a radar with at most 73 levels of Doppler, and with values for its echoes, has at
-- most 255 values. First come those for the echoes: as many as asked for, or as many as the trails,
-- the static background, the levels and one more leave of 255. For as many levels as there are, the
-- values for approaching targets, for receding ones and (where the radar tells rain) for rain stand
-- where its fields say, and the fields are empty where there are none; the 32 values of the trails
-- stand where they say.
pub default_legend-IsLegend :
    (mode : TargetMode) (levels : ℕ) (has_rain_class : Bool) (pixel_values : ℕ)
    → levels ≤ 73
    → 0 < pixel_values
    → IsLegend mode levels
        (if has_rain_class then levels else 0)
        pixel_values
        (default_legend mode levels has_rain_class pixel_values)
unfolding default_legend echo_values rain_levels_of
default_legend-IsLegend mode levels has_rain_class pixel_values few some_values =
    let rain_levels = if has_rain_class then levels else 0 in
    let rain_few = at_most has_rain_class levels in
    let values = echo_values mode levels rain_levels pixel_values in
    let h = at_most (has_history mode) 32 in
    let a = at_most (is_arpa mode) 1 in
    let room : values
        ≡ min pixel_values (
            254
            - ((if has_history mode then 32 else 0) + (if is_arpa mode then 1 else 0))
            - (2 * levels + rain_levels)) =
      omega (arith, rain_few, h, a, few) in
    let left : 0 < values = omega (arith, rain_few, h, a, few, some_values, room) in
    let test : (values == 0) ≡ false = ground (arith, left) in
    rw (rain_levels_same has_rain_class levels) (
      rw test (
        full_legend-IsLegend mode levels rain_levels values
          (omega (arith, rain_few, h, a, few, room)) left pixel_values room))
  where
    at_most : (b : Bool) (n : ℕ) → (if b then n else 0) ≤ n
    at_most true n = omega arith
    at_most false n = omega arith

    by_levels : (n : ℕ) → rain_levels_of true n ≡ n
    by_levels zero = refl
    by_levels (suc n) =
        let test : ltb 0 (suc n) ≡ true = ground arith in rw (test, rain_levels_of) refl

    rain_levels_same : (b : Bool) (n : ℕ) → rain_levels_of b n ≡ (if b then n else 0)
    rain_levels_same true n = by_levels n
    rain_levels_same false n = refl
