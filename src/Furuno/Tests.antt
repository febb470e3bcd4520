-- ===== src/Furuno/Tests.antt =====
-- Runs of the Furuno receiver on small frames, and its theorems at such inputs.
use mayara_server.Common.{
  ℕ, ◌<◌, ◌≡◌, refl, arith, true, false, List, [], ◌∷◌, ◌++◌, none, ok, err, length, map, get_elem?,
}
use mayara_server.Bytes.{from_le_bytes}
use mayara_server.Bytes.Laws.{are_bytes, are_bytes-All}
use mayara_server.Common.Int.{pos}
use mayara_server.Furuno.Sweep.{
  decode_1_loop, decode_sweep_encoding_1, decode_2_loop, decode_sweep_encoding_2,
  decode_sweep_encoding_3, push_prev, aligned,
}
use mayara_server.Furuno.Sweep.Bounds.{Decoded, decoders-Decoded}
use mayara_server.Furuno.Sweep.Ops.{
  Op, literal, again, from_prev, op_byte, expand, window, decode_sweep_encoding_3-expand,
}
use mayara_server.Furuno.Stretch.{
  stretch_spoke, source_index, effective_samples, stretch_spoke_samples,
}
use mayara_server.Furuno.Wire.{
  find_meters, wire_index_table_km, meters_to_wire_index_for_unit, wire_index_to_meters_for_unit,
}
use mayara_server.Radar.Range.{is_metric_distance}
use mayara_server.Furuno.Wire.Unit.{wire_unit_for_meters, wire_unit_for_meters-wire_index_to_meters}
use mayara_server.Furuno.Frame.{
  Env, Receiver, slice_out_of_range, process_frame, process_imo_frame, process_sweeps,
  parse_metadata_header, decode_sweep,
}
use mayara_server.Furuno.Frame.Imo.{process_frame_panics}
use mayara_server.Furuno.Frame.Deliver.{Radars}
use mayara_server.Radar.Spokes
use mayara_server.Radar.Spokes.{CommonRadar, common_radar_new}
use mayara_server.Furuno.Frame.Handled.{ForOneRange, process_frame-ForOneRange}

-- 16 is a literal, 5 repeats it twice, 8 is a literal; the last byte is not read.
sweep_1 : decode_sweep_encoding_1 (16 ∷ 5 ∷ 8 ∷ 9 ∷ []) 4 ≡ (16 ∷ 16 ∷ 16 ∷ 8 ∷ [], 4)
unfolding decode_sweep_encoding_1 decode_1_loop
sweep_1 = refl

sweep_2 : decode_sweep_encoding_2 (16 ∷ 5 ∷ []) (2 ∷ 4 ∷ 6 ∷ []) 3 ≡ (16 ∷ 4 ∷ 6 ∷ [], 4)
unfolding decode_sweep_encoding_2 decode_2_loop push_prev
sweep_2 = refl

abbrev ops : List Op
ops = literal 16 ∷ again 2 ∷ from_prev 2 ∷ again 1 ∷ []

ops_expanded : expand (1 ∷ 2 ∷ 3 ∷ 4 ∷ []) 0 0 ops ≡ 16 ∷ 16 ∷ 16 ∷ 4 ∷ 0 ∷ 0 ∷ []
unfolding expand window
ops_expanded = refl

decode_sweep_encoding_3-expand_example :
    decode_sweep_encoding_3 (map op_byte ops ++ (7 ∷ [])) (1 ∷ 2 ∷ 3 ∷ 4 ∷ []) 6
    ≡ (expand (1 ∷ 2 ∷ 3 ∷ 4 ∷ []) 0 0 ops, aligned (length ops))
unfolding expand window
decode_sweep_encoding_3-expand_example =
    decode_sweep_encoding_3-expand (1 ∷ 2 ∷ 3 ∷ 4 ∷ []) ops (7 ∷ []) 6 (omega arith) refl

decoders-Decoded_example :
    Decoded 6 3 (decode_sweep_encoding_1 (16 ∷ 5 ∷ 8 ∷ []) 6)
    × Decoded 6 3 (decode_sweep_encoding_2 (16 ∷ 5 ∷ 8 ∷ []) (1 ∷ []) 6)
    × Decoded 6 3 (decode_sweep_encoding_3 (16 ∷ 5 ∷ 8 ∷ []) (1 ∷ []) 6)
decoders-Decoded_example = decoders-Decoded (16 ∷ 5 ∷ 8 ∷ []) (1 ∷ []) 6 (omega arith)

stretch_spoke_samples_example :
    let j = source_index (effective_samples (5 ∷ 6 ∷ 7 ∷ []) 2) 4 3 in
    (j < effective_samples (5 ∷ 6 ∷ 7 ∷ []) 2)
    × (j < 3)
    × (get_elem? (stretch_spoke (5 ∷ 6 ∷ 7 ∷ []) 2 4) 3 ≡ get_elem? (5 ∷ 6 ∷ 7 ∷ []) j)
stretch_spoke_samples_example =
    stretch_spoke_samples (5 ∷ 6 ∷ 7 ∷ []) 2 4 3 (omega arith) (omega arith)

abbrev env : Env
env = record {
  has_range_b = true;
  replay = λ b. false;
  wire_unit = λ b. 0;
  range_control = λ b. 1852;
  nav_heading = λ es. none;
  wire_to_legend = λ b. [];
}

abbrev start : Receiver
start = record {
  range_a = record { prev_spoke = []; prev_angle = 0 };
  range_b = record { prev_spoke = []; prev_angle = 0 };
  events = [];
}

-- A header with one sweep of 4 samples in encoding 1, for Range B.
abbrev header : List ℕ
header = 2 ∷ 0 ∷ 0 ∷ 0 ∷ 0 ∷ 0 ∷ 0 ∷ 0 ∷ 0 ∷ 2 ∷ 4 ∷ 0x28 ∷ 4 ∷ 0 ∷ 4 ∷ 0x40 ∷ []

process_frame_panics_example :
    process_frame env (header ++ (1 ∷ 0 ∷ 2 ∷ 0 ∷ 16 ∷ [])) start ≡ err slice_out_of_range
unfolding parse_metadata_header from_le_bytes
process_frame_panics_example =
    process_frame_panics env header 1 0 2 0 16 start refl (λ e. omega (arith, e)) refl (omega arith)
      (omega arith) (omega arith) (omega arith)

-- The sweep has four samples: 16 twice, 8 and 9.
abbrev frame : List ℕ
frame = header ++ (1 ∷ 0 ∷ 2 ∷ 0 ∷ 16 ∷ 5 ∷ 8 ∷ 9 ∷ [])

abbrev shared : Spokes.Env
shared = record { kept_heading = λ n h. h; trace = false; update_trails = λ spoke. spoke.pixels }

abbrev radar : CommonRadar
unfolding common_radar_new
radar = common_radar_new 8192 64 200 false false [] []

abbrev radars : Radars
radars = record { common = radar; common_b = radar }

-- A Tile frame of 24 bytes and one strip of six.
abbrev tile_frame : List ℕ
tile_frame = header ++ (0 ∷ 0 ∷ 0 ∷ 0 ∷ 0 ∷ 0 ∷ 0 ∷ 0 ∷ 3 ∷ 1 ∷ 7 ∷ 0 ∷ 20 ∷ 0x83 ∷ [])

-- The frame is for Range B, and hands on one spoke.
abbrev after_frame : Receiver
after_frame = elim (process_frame env frame start) [ ok r ↦ r | err e ↦ start ]

process_frame-ForOneRange_example : ForOneRange env frame start after_frame
unfolding process_frame process_imo_frame process_sweeps parse_metadata_header from_le_bytes
    are_bytes decode_sweep decode_sweep_encoding_1 decode_1_loop
process_frame-ForOneRange_example =
    process_frame-ForOneRange env frame start after_frame (are_bytes-All frame refl) refl

wire_unit_for_meters-wire_index_to_meters_example :
    (wire_unit_for_meters (pos 36000) ≡ 1)
    × (is_metric_distance (pos 36000) ≡ true)
    × (meters_to_wire_index_for_unit (pos 36000) (wire_unit_for_meters (pos 36000)) ≡ 19)
unfolding wire_index_to_meters_for_unit find_meters wire_index_table_km
wire_unit_for_meters-wire_index_to_meters_example =
    wire_unit_for_meters-wire_index_to_meters 19 1 36000 refl
