-- ===== src/Navico/Tests.antt =====
-- Runs of src/lib/brand/navico/report.rs on small inputs, and its theorem at such an input.
use mayara_server.Common.{
  ℕ, zero, suc, ◌^◌, ◌≡◌, ◌<◌, refl, arith, true, false, List, [], ◌∷◌, ◌++◌, none, some, map,
}
use mayara_server.Bytes.{to_le_bytes, from_le_bytes}
use mayara_server.Radar.Legend.{arpa, Legend, default_legend}
use mayara_server.Radar.Spokes.{Spoke, CommonRadar, common_radar_new}
use mayara_server.Radar.Spokes.Plain.{bearing, heading_from, sent}
use mayara_server.Navico.{
  gen4, br24, both, NavicoReportReceiver, Env, wire_to_legend, validate_header,
  extract_heading_value, validate_4g_header, gen3_plus_header, is_heading_true,
  is_valid_heading_value,
}
use mayara_server.Navico.Headers.{
  Header, IsHeader, header_bytes, is_good, true_heading, range_of, reading, validate_header-reading,
}
use mayara_server.Navico.Pixels.{Pair}
use mayara_server.Navico.Lines.{Line, lines_bytes, spoke_of, told_by, line_spokes}

abbrev same : ℕ → Pair → List Pair
same zero p = []
same (suc n) p = p ∷ same n p

-- A 4G header: 16 metres, angle 100, the true heading 0x5be in the header.
abbrev good : Header
good = record {
  header_len = 24;
  status = 2;
  scan_number = 1;
  mark = 0;
  large_range = 0x80;
  angle = 200;
  heading = 0x45be;
  small_range = 64;
  rotation = 0;
  unknown = 0 ∷ 0 ∷ 0 ∷ 0 ∷ 0 ∷ 0 ∷ 0 ∷ 0 ∷ [];
}

-- The next one, with no true heading, and one with an unknown status.
abbrev later : Header
later = record good { angle = 202; heading = 0x07d6 }

abbrev bad : Header
bad = record good { status = 3 }

abbrev env : Env
env = record {
  shared = record { kept_heading = λ n h. h; trace = false; update_trails = λ spoke. spoke.pixels };
  br24_range = λ raw. raw;
}

read_good : reading env gen4 good ≡ some (16, 100, some 0x5be)
unfolding reading is_good range_of true_heading
read_good = refl

read_older : reading env br24 later ≡ some (64, 101, none)
unfolding reading is_good range_of true_heading
read_older = refl

read_bad : reading env gen4 bad ≡ none
unfolding reading is_good
read_bad = refl

-- What the code makes of the bytes.
good_header : validate_header env gen4 (header_bytes good) ≡ some (16, 100, some 0x5be)
unfolding validate_header validate_4g_header gen3_plus_header extract_heading_value is_heading_true
    is_valid_heading_value from_le_bytes header_bytes to_le_bytes
good_header = refl

abbrev legend : Legend
legend = default_legend arpa 1 true 16

abbrev common : CommonRadar
unfolding common_radar_new
common = common_radar_new 2048 16 50 false false [] []

abbrev line : Header → Line
line header = record { header = header; pairs = same 512 (15, 7) }

abbrev lines : List Line
lines = line good ∷ line bad ∷ line later ∷ []

abbrev front : List ℕ
front = 1 ∷ 2 ∷ 3 ∷ 4 ∷ 5 ∷ 6 ∷ 7 ∷ 8 ∷ []

abbrev receiver : NavicoReportReceiver
receiver = record {
  common = common;
  model = gen4;
  doppler = both;
  wire_to_legend_table = wire_to_legend legend;
  data_buf = front ++ (lines_bytes lines ++ (9 ∷ []));
}

-- The second spoke has its bearing by the heading that the first has told.
two_bearings :
    map (λ (s : Spoke). s.bearing) (line_spokes env gen4 legend both 5 none lines)
    ≡ some 835 ∷ some 836 ∷ []
unfolding line_spokes spoke_of told_by reading is_good range_of true_heading bearing heading_from
    sent
two_bearings = refl

fits :
    (h : Header)
    → (h.angle < 2 ^ 16) × (h.heading < 2 ^ 16)
    → IsHeader (record good { status = h.status; angle = h.angle; heading = h.heading })
fits h small = record {
  large_range_fits = omega arith;
  angle_fits = small.0;
  heading_fits = small.1;
  small_range_fits = omega arith;
  rotation_fits = omega arith;
  unknown_length = refl;
}

validate_header-reading_example :
    validate_header env br24 (header_bytes later) ≡ reading env br24 later
validate_header-reading_example =
    validate_header-reading env br24 later (fits later (omega arith, omega arith))
