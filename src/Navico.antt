-- ===== src/Navico.antt =====
-- The echo frames of src/lib/brand/navico/report.rs, on the spokes of `CommonRadar`: the frame
-- loop, the checks of a line's header for the two generations, and the table from half bytes to
-- pixel values. The range of the BR24 and 3G is worked out in floating point, so it is a parameter.
pub mod Headers
pub mod Pixels
pub mod Lines
pub mod Frames
mod Tests
use mayara_server.Common.{
  ℕ, zero, suc, ◌+◌, ◌-◌, ◌*◌, ◌/◌, ◌^◌, Bool, true, false, not, ◌&&◌, ◌||◌, List, [], ◌∷◌, ◌++◌,
  Option, none, some, Result, ok, ◌>>=◌, length, ltb, leb, ◌==◌, if◌then◌else◌,
}
use Prim.Native.Nat.{bit_and}
use mayara_server.Bytes.{from_le_bytes, slice}
use mayara_server.Radar.Exclusion.{Fault}
use mayara_server.Radar.Legend.{Legend}
use mayara_server.Radar.Spokes.{CommonRadar, add_spoke, new_spoke_message, send_spoke_message}
use mayara_server.Radar.Spokes

pub data Model : Type 0 where
  unknown_model br24 gen3 gen4 halo halo24 halo20 halo20_plus halo2000 halo3000 halo5000 halo4000
        halo6000 :
      Model

pub data DopplerMode : Type 0 where
  doppler_off both approaching : DopplerMode

pub data LookupDoppler : Type 0 where
  low_normal low_both low_approaching high_normal high_both high_approaching : LookupDoppler

-- The table, by its row and a byte.
abbrev pub WireToLegendTable : Type 0
WireToLegendTable = LookupDoppler → ℕ → ℕ

unfoldable pub match_both : ℕ → ℕ → ℕ → ℕ
match_both approaching_idx receding_idx v =
    if v == 0x0f
    then approaching_idx
    else if v == 0x0e
    then receding_idx
    else if leb 0x08 v && leb v 0x0d
    then v + 2
    else v + 1

unfoldable pub match_approaching : ℕ → ℕ → ℕ
match_approaching approaching_idx v = if v == 0x0f then approaching_idx else v + 1

-- The rows for the approaching index and the receding one; a row that is not filled has zeros.
unfoldable pub both_entry : Legend → ℕ → ℕ
both_entry legend v = elim legend.doppler_approaching_range [
  | none ↦ 0
  | some (approaching_idx, _) ↦ elim legend.doppler_receding_range [
    | none ↦ 0
    | some (receding_idx, _) ↦ match_both approaching_idx receding_idx v
  ]
]

unfoldable pub approaching_entry : Legend → ℕ → ℕ
approaching_entry legend v = elim legend.doppler_approaching_range [
  | none ↦ 0
  | some (approaching_idx, _) ↦ match_approaching approaching_idx v
]

abbrev pub low_of : ℕ → ℕ
low_of j = bit_and j 0x0f

abbrev pub high_of : ℕ → ℕ
high_of j = bit_and (j / 16) 0x0f

unfoldable pub wire_to_legend : Legend → WireToLegendTable
wire_to_legend legend low_normal j = low_of j
wire_to_legend legend low_both j = both_entry legend (low_of j)
wire_to_legend legend low_approaching j = approaching_entry legend (low_of j)
wire_to_legend legend high_normal j = high_of j
wire_to_legend legend high_both j = both_entry legend (high_of j)
wire_to_legend legend high_approaching j = approaching_entry legend (high_of j)

pub record NavicoReportReceiver : Type 0 where
  pub common : CommonRadar
  pub model : Model
  pub doppler : DopplerMode
  pub wire_to_legend_table : WireToLegendTable
  pub data_buf : List ℕ

-- What the shared part reads, and `raw as f64 * BR24_RANGE_FACTOR` as a number.
pub record Env : Type 0 where
  pub shared : Spokes.Env
  pub br24_range : ℕ → ℕ

abbrev heading_true_flag : ℕ
heading_true_flag = 0x4000

abbrev heading_mask : ℕ
heading_mask = 4096 - 1

unfoldable pub is_heading_true : ℕ → Bool
is_heading_true x = not (bit_and x heading_true_flag == 0)

-- `!` of a u16 is what is missing to 0xffff; the flag and the mask share no bit.
unfoldable pub is_valid_heading_value : ℕ → Bool
is_valid_heading_value x = bit_and x (0xffff - (heading_true_flag + heading_mask)) == 0

unfoldable pub extract_heading_value : ℕ → Option ℕ
extract_heading_value x =
    if is_valid_heading_value x && is_heading_true x then some (bit_and x heading_mask) else none

-- `Gen3PlusHeader`, the fields that are read.
pub record Gen3PlusHeader : Type 0 where
  pub header_len : ℕ
  pub status : ℕ
  pub large_range : List ℕ
  pub angle : List ℕ
  pub heading : List ℕ
  pub small_range : List ℕ

pub record GenBr24Header : Type 0 where
  pub header_len : ℕ
  pub status : ℕ
  pub angle : List ℕ
  pub heading : List ℕ
  pub range : List ℕ

abbrev pub radar_line_header_length : ℕ
radar_line_header_length = 24

-- A header is read from its 24 bytes.
unfoldable pub gen3_plus_header : List ℕ → Option Gen3PlusHeader
gen3_plus_header (l ∷ s ∷ n0 ∷ n1 ∷ m0 ∷ m1 ∷ g0 ∷ g1 ∷ a0 ∷ a1 ∷ h0 ∷ h1 ∷ r0 ∷ r1 ∷ rest) =
    if leb 10 (length rest)
    then some (record {
      header_len = l;
      status = s;
      large_range = g0 ∷ g1 ∷ [];
      angle = a0 ∷ a1 ∷ [];
      heading = h0 ∷ h1 ∷ [];
      small_range = r0 ∷ r1 ∷ [];
    })
    else none
gen3_plus_header _ = none

unfoldable pub gen_br24_header : List ℕ → Option GenBr24Header
gen_br24_header
      (l ∷ s ∷ n0 ∷ n1 ∷ m0 ∷ m1 ∷ m2 ∷ m3 ∷ a0 ∷ a1 ∷ h0 ∷ h1 ∷ r0 ∷ r1 ∷ r2 ∷ r3 ∷ rest) =
    if leb 8 (length rest)
    then some (record {
      header_len = l;
      status = s;
      angle = a0 ∷ a1 ∷ [];
      heading = h0 ∷ h1 ∷ [];
      range = r0 ∷ r1 ∷ r2 ∷ r3 ∷ [];
    })
    else none
gen_br24_header _ = none

abbrev is_valid_status : ℕ → Bool
is_valid_status s = (s == 0x02) || ((s == 0x12) || (s == 0xC2))

unfoldable pub validate_4g_header : Gen3PlusHeader → Option (ℕ × ℕ × Option ℕ)
validate_4g_header h =
    let large_range = from_le_bytes h.large_range in
    let small_range = from_le_bytes h.small_range in
    if not (h.header_len == radar_line_header_length)
    then none
    else if not (is_valid_status h.status)
    then none
    else some (
      (if large_range == 0x80
          then (if small_range == 0xffff then 0 else small_range / 4)
          else large_range * small_range / 512),
      from_le_bytes h.angle / 2,
      extract_heading_value (from_le_bytes h.heading),
    )

unfoldable pub validate_br24_header : Env → GenBr24Header → Option (ℕ × ℕ × Option ℕ)
validate_br24_header env h =
    if not (h.header_len == radar_line_header_length)
    then none
    else if not (is_valid_status h.status)
    then none
    else some (
      env.br24_range (bit_and (from_le_bytes h.range) 0xffffff),
      from_le_bytes h.angle / 2,
      extract_heading_value (from_le_bytes h.heading),
    )

abbrev has_br24_header : Model → Bool
has_br24_header br24 = true
has_br24_header gen3 = true
has_br24_header m = false

unfoldable pub validate_header : Env → Model → List ℕ → Option (ℕ × ℕ × Option ℕ)
validate_header env m header_slice =
    if has_br24_header m
    then elim (gen_br24_header header_slice) [
      | none ↦ none
      | some header ↦ validate_br24_header env header
    ]
    else elim (gen3_plus_header header_slice) [
      | none ↦ none
      | some header ↦ validate_4g_header header
    ]

abbrev low_nibble_index : DopplerMode → LookupDoppler
low_nibble_index doppler_off = low_normal
low_nibble_index both = low_both
low_nibble_index approaching = low_approaching

abbrev high_nibble_index : DopplerMode → LookupDoppler
high_nibble_index doppler_off = high_normal
high_nibble_index both = high_both
high_nibble_index approaching = high_approaching

unfoldable pub process_spoke : WireToLegendTable → DopplerMode → List ℕ → List ℕ
process_spoke table mode [] = []
process_spoke table mode (pixel ∷ spoke) =
    table (low_nibble_index mode) pixel
    ∷ table (high_nibble_index mode) pixel
    ∷ process_spoke table mode spoke

abbrev pub frame_header_length : ℕ
frame_header_length = 8

abbrev pub spoke_data_length : ℕ
spoke_data_length = 512

abbrev pub radar_line_length : ℕ
radar_line_length = radar_line_header_length + spoke_data_length

-- A line whose header is not valid is skipped.
unfoldable pub take_line :
    Env → Option (ℕ × ℕ × Option ℕ) → List ℕ → CommonRadar → Result Fault CommonRadar
take_line env none pixels c = ok c
take_line env (some (range, angle, heading)) pixels c =
    add_spoke env.shared range angle heading pixels c

unfoldable pub add_line : Env → NavicoReportReceiver → ℕ → CommonRadar → Result Fault CommonRadar
add_line env r offset c =
    take_line env (validate_header env r.model (slice offset radar_line_header_length r.data_buf))
      (process_spoke r.wire_to_legend_table r.doppler
        (slice (offset + radar_line_header_length) spoke_data_length r.data_buf))
      c

unfoldable pub add_lines :
    Env → NavicoReportReceiver → ℕ → ℕ → CommonRadar → Result Fault CommonRadar
add_lines env r zero offset c = ok c
add_lines env r (suc n) offset c =
    add_line env r offset c >>= add_lines env r n (offset + radar_line_length)

unfoldable pub process_frame : Env → ℕ → NavicoReportReceiver → Result Fault NavicoReportReceiver
process_frame env now r =
    if ltb (length r.data_buf) (frame_header_length + radar_line_length)
    then ok r
    else add_lines env r ((length r.data_buf - frame_header_length) / radar_line_length)
        frame_header_length (new_spoke_message now r.common)
      >>= λ c. ok (record r { common = send_spoke_message c })
