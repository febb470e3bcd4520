-- ===== src/Furuno/Frame.antt =====
-- `process_frame` and `process_tile_frame` of src/lib/brand/furuno/report.rs. What the receiver
-- hands on to its radars (`CommonRadar`) is the list of events; what it reads from them and from
-- the navigation data is `Env`.
pub mod Imo
pub mod Tile
pub mod Handled
pub mod Deliver
use Prim.Native.Nat.{bit_and, bit_or}
use mayara_server.Common.{
  ℕ, zero, suc, ◌+◌, ◌-◌, ◌*◌, ◌/◌, ◌%◌, ◌^◌, min, Bool, true, false, not, ◌&&◌, List, [], ◌∷◌,
  ◌++◌, Option, none, some, Result, ok, err, ◌>>=◌, map, length, drop, take, get_or, replicate, ltb,
  leb, ◌==◌, if◌then◌else◌,
}
use mayara_server.Bytes.{from_le_bytes, slice}
use mayara_server.Furuno.Protocol.{
  spoke_len, frame_magic, tile_magic, tile_scale, tile_repeat_default,
}
use mayara_server.Furuno.Sweep.{
  decode_sweep_encoding_0, decode_sweep_encoding_1, decode_sweep_encoding_2,
  decode_sweep_encoding_3,
}
use mayara_server.Furuno.Stretch.{stretch_spoke}
use mayara_server.Furuno.Wire.{wire_index_to_meters_for_unit}

-- A panic; `stuck` is no Rust value: a loop ran out of fuel.
pub data Fault : Type 0 where
  slice_out_of_range impossible_encoding stuck : Fault

pub record FurunoSpokeMetadata : Type 0 where
  pub sweep_count : ℕ
  pub sweep_len : ℕ
  pub encoding : ℕ
  pub have_heading : ℕ
  pub range : ℕ
  pub radar_no : ℕ
  pub scale : ℕ

pub data Event : Type 0 where
  new_spoke_message : Bool → Event
  set_range_and_transmit : Bool → ℕ → Event
  add_spoke : Bool → ℕ → ℕ → Option ℕ → List ℕ → Event
  send_spoke_message : Bool → Event

-- What the handler reads but does not set. A Boolean argument is `is_range_b`. The true heading that
-- is known depends on what was handed on so far, since each spoke with a bearing tells it.
pub record Env : Type 0 where
  pub has_range_b : Bool
  pub replay : Bool → Bool
  pub wire_unit : Bool → ℕ
  pub range_control : Bool → ℕ
  pub nav_heading : List Event → Option ℕ
  pub wire_to_legend : Bool → List ℕ

-- Delta state of one range.
pub record History : Type 0 where
  pub prev_spoke : List ℕ
  pub prev_angle : ℕ

-- The arrays of two entries, `prev_spoke` and `prev_angle`, by range.
pub record Receiver : Type 0 where
  pub range_a : History
  pub range_b : History
  pub events : List Event

abbrev pub history : Bool → Receiver → History
history true r = r.range_b
history false r = r.range_a

abbrev pub set_history : Bool → History → Receiver → Receiver
set_history true h r = record r { range_b = h }
set_history false h r = record r { range_a = h }

abbrev pub emit : List Event → Receiver → Receiver
emit es r = record r { events = r.events ++ es }

-- `((high & 0x1F) << 8) | low`
abbrev pub angle_of : ℕ → ℕ → ℕ
angle_of high low = bit_or (bit_and high 0x1F * 256) low

unfoldable pub parse_metadata_header : Env → List ℕ → FurunoSpokeMetadata
parse_metadata_header env bytes =
    let at = λ (i : ℕ). get_or bytes i 0 in
    let sweep_len = bit_or (bit_and (at 11) 0x07 * 256) (at 10) in
    let radar_no = bit_and (at 15) 0x40 / 64 in
    let wire_index = bit_and (at 12) 0x3F in
    let wire_unit = env.wire_unit (radar_no == 1 && env.has_range_b) in
    let range = wire_index_to_meters_for_unit wire_index wire_unit in
    let scale = bit_or (bit_and (at 15) 0x07 * 256) (at 14) in
    record {
      sweep_count = at 9 / 2;
      sweep_len = sweep_len;
      encoding = bit_and (at 11) 0x18 / 8;
      have_heading = bit_and (at 11) 0x20 / 32;
      range = elim range [ some m ↦ m | none ↦ 0 ];
      radar_no = radar_no;
      scale = if scale == 0 then sweep_len else scale;
    }

-- What `add_spoke_to_common` does to the radar of the range.
unfoldable pub spoke_events :
    Env → List Event → Bool → FurunoSpokeMetadata → ℕ → ℕ → List ℕ → List Event
spoke_events env earlier is_range_b m angle heading sweep =
    let heading = if ltb 0 m.have_heading then some heading else env.nav_heading earlier in
    let pixels = map (λ b. get_or (env.wire_to_legend is_range_b) b 0) sweep in
    let spoke = add_spoke is_range_b m.range angle heading pixels ∷ [] in
    if env.replay is_range_b then set_range_and_transmit is_range_b m.range ∷ spoke else spoke

-- `match metadata.encoding`; `first` is `sweep_idx == 0`.
unfoldable pub decode_sweep :
    FurunoSpokeMetadata → Bool → List ℕ → List ℕ → Result Fault (List ℕ × ℕ)
decode_sweep m first prev sweep =
    if m.encoding == 0
    then ok (decode_sweep_encoding_0 sweep)
    else if m.encoding == 1
    then ok (decode_sweep_encoding_1 sweep m.sweep_len)
    else if m.encoding == 2
    then ok (
        if first
        then decode_sweep_encoding_1 sweep m.sweep_len
        else decode_sweep_encoding_2 sweep prev m.sweep_len)
    else if m.encoding == 3
    then ok (decode_sweep_encoding_3 sweep prev m.sweep_len)
    else err impossible_encoding

-- `generic_spoke.resize(sweep_len, 0)` where it is shorter.
abbrev pub padded : ℕ → List ℕ → List ℕ
padded sweep_len spoke =
    if ltb (length spoke) sweep_len then spoke ++ replicate (sweep_len - length spoke) 0 else spoke

-- `&sweep[used..]`, which panics past the end.
abbrev pub slice_from : ℕ → List ℕ → Result Fault (List ℕ)
slice_from used sweep =
    if leb used (length sweep) then ok (drop used sweep) else err slice_out_of_range

-- What one decoded sweep does to the receiver.
unfoldable pub take_sweep : Env → Bool → FurunoSpokeMetadata → ℕ → ℕ → List ℕ → Receiver → Receiver
take_sweep env is_range_b m angle heading spoke r =
    set_history is_range_b (record { prev_spoke = spoke; prev_angle = angle })
      (emit
        (spoke_events env r.events is_range_b m angle heading
          (stretch_spoke spoke m.scale spoke_len))
        r)

-- The sweeps left of `sweep_count`.
unfoldable pub process_sweeps :
    Env → Bool → FurunoSpokeMetadata → ℕ → Bool → List ℕ → Receiver → Result Fault Receiver
process_sweeps env is_range_b m zero first sweep r = ok r
process_sweeps env is_range_b m (suc left) first sweep r =
    let angle = angle_of (get_or sweep 1 0) (get_or sweep 0 0) in
    let heading = angle_of (get_or sweep 3 0) (get_or sweep 2 0) in
    let body = drop 4 sweep in
    let rest = (do
      (spoke, used) ← decode_sweep m first (history is_range_b r).prev_spoke body
      after ← slice_from used body
      process_sweeps env is_range_b m left false after
          (take_sweep env is_range_b m angle heading (padded m.sweep_len spoke) r)) in
    if ltb (length sweep) 5 then ok r else rest

unfoldable pub process_imo_frame : Env → List ℕ → Receiver → Result Fault Receiver
process_imo_frame env bytes r =
    let m = parse_metadata_header env bytes in
    let is_range_b = m.radar_no == 1 && env.has_range_b in
    process_sweeps env is_range_b m m.sweep_count true (drop 16 bytes)
      (emit (new_spoke_message is_range_b ∷ []) r)
    >>= λ r'. ok (emit (send_spoke_message is_range_b ∷ []) r')

-- `(byte & 0x7F) >> 1 | (byte & 1) << 7`
abbrev pub tile_literal : ℕ → ℕ
tile_literal byte = bit_or (bit_and byte 0x7F / 2) (bit_and byte 1 * 128)

-- The samples of one strip: the spoke so far, and the bytes before `frame_end`. What is left is
-- given back.
unfoldable pub tile_pixels : ℕ → List ℕ → ℕ → List ℕ → List ℕ × List ℕ
tile_pixels pixel_count spoke last [] = (spoke, [])
tile_pixels pixel_count spoke last (byte ∷ bytes) =
    let literal = bit_and byte 0x80 == 0 in
    let low = bit_and byte 0x7F in
    let count = if low == 0 then tile_repeat_default else low in
    let last' = if literal then tile_literal byte else last in
    let spoke' =
      if literal
      then spoke ++ (tile_literal byte ∷ [])
      else spoke ++ replicate (min count (pixel_count - length spoke)) last in
    let rest = tile_pixels pixel_count spoke' last' bytes in
    if ltb (length spoke) pixel_count then rest else (spoke, byte ∷ bytes)

abbrev pub tile_metadata : Env → Bool → ℕ → ℕ → FurunoSpokeMetadata
tile_metadata env is_range_b radar_no pixel_count = record {
  sweep_count = 1;
  sweep_len = pixel_count;
  encoding = 0;
  have_heading = 1;
  range = env.range_control is_range_b;
  radar_no = radar_no;
  scale = tile_scale;
}

-- The strips before `frame_end`; each takes five bytes at least.
unfoldable pub tile_spokes : ℕ → Env → Bool → ℕ → List ℕ → Receiver → Result Fault Receiver
tile_spokes zero env is_range_b radar_no bytes r = err stuck
tile_spokes (suc fuel) env is_range_b radar_no (a₀ ∷ a₁ ∷ h₀ ∷ h₁ ∷ flag ∷ bytes) r =
    let angle = angle_of a₁ a₀ in
    let heading = angle_of h₁ h₀ in
    let pixel_count = if bit_and flag 0x80 == 0 then 64 else 256 in
    let first = tile_literal flag in
    let (spoke, rest) = tile_pixels pixel_count (first ∷ []) first bytes in
    let spoke' = padded tile_scale spoke in
    let m = tile_metadata env is_range_b radar_no pixel_count in
    let h : History = record {
      prev_spoke = (history is_range_b r).prev_spoke;
      prev_angle = angle;
    } in
    tile_spokes fuel env is_range_b radar_no rest (
      set_history is_range_b h (
        emit
          (spoke_events env r.events is_range_b m angle heading
            (stretch_spoke spoke' tile_scale spoke_len))
          r))
tile_spokes (suc fuel) env is_range_b radar_no bytes r = ok r

abbrev pub header_word : List ℕ → ℕ
header_word bytes = from_le_bytes (slice 8 4 bytes)

unfoldable pub process_tile_frame : Env → List ℕ → Receiver → Result Fault Receiver
process_tile_frame env bytes r =
    let content_length = bit_and (header_word bytes) 0x7FF in
    let radar_no = bit_and (get_or bytes 15 0 / 64) 1 in
    let is_range_b = radar_no == 1 && env.has_range_b in
    let frame_end = min (content_length + 7) (length bytes) in
    let h : History = record { prev_spoke = []; prev_angle = (history is_range_b r).prev_angle } in
    let strips =
      tile_spokes (suc (length bytes)) env is_range_b radar_no (drop 24 (take frame_end bytes))
        (emit (new_spoke_message is_range_b ∷ []) (set_history is_range_b h r))
      >>= λ r'. ok (emit (send_spoke_message is_range_b ∷ []) r') in
    if ltb (length bytes) 24 then ok r else strips

unfoldable pub process_frame : Env → List ℕ → Receiver → Result Fault Receiver
process_frame env bytes r =
    if ltb (length bytes) 16
    then ok r
    else if header_word bytes / 2 ^ 29 == tile_magic
    then process_tile_frame env bytes r
    else if get_or bytes 0 0 == frame_magic
    then process_imo_frame env bytes r
    else ok r
