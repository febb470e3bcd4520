-- ===== src/Raymarine/Rd/Lines.antt =====
-- Lines of the RD series, as the radar sends them to src/lib/brand/raymarine/report/rd.rs.
use mayara_server.Common.{
  ℕ, ◌+◌, ◌*◌, ◌/◌, ◌%◌, ◌^◌, ◌<◌, Bool, true, false, List, [], ◌++◌, Option, none, some, length,
  take,
}
use mayara_server.Bytes.{All, to_le_bytes}
use mayara_server.Raymarine.Spoke.{samples}
use mayara_server.Raymarine.Spoke.Ops.{Op, IsOp, encode, expand}
use mayara_server.Raymarine.Rd.{RaymarineReportReceiver, Event, add_spoke}

abbrev pub u32_bytes : ℕ → List ℕ
u32_bytes n = to_le_bytes 4 n

-- One line of the radar: a spoke, with a second header or without, and what stands behind its data.
pub record Line : Type 0 where
  pub azimuth : ℕ
  pub hd_type : Bool
  pub header2 : Option ℕ
  pub ops : List Op
  pub padding : List ℕ

-- The fields of the first header from `fieldx_2` on.
abbrev pub type_bytes : Bool → List ℕ
type_bytes true =
    u32_bytes 3
    ++ (u32_bytes 2
        ++ (u32_bytes 3 ++ (u32_bytes 1 ++ (u32_bytes 0 ++ (u32_bytes 0 ++ u32_bytes 1)))))
type_bytes false =
    u32_bytes 1
    ++ (u32_bytes 2
        ++ (u32_bytes 1 ++ (u32_bytes 1 ++ (u32_bytes 0x1f4 ++ (u32_bytes 0 ++ u32_bytes 1)))))

abbrev pub head_bytes : Line → List ℕ
head_bytes l = u32_bytes 1 ++ (u32_bytes 0x28 ++ (u32_bytes l.azimuth ++ type_bytes l.hd_type))

abbrev pub header2_bytes : Option ℕ → List ℕ
header2_bytes none = []
header2_bytes (some len) = u32_bytes 2 ++ u32_bytes len

abbrev pub line_len : Line → ℕ
line_len l = 12 + length (encode l.ops) + length l.padding

abbrev pub header3_bytes : Line → List ℕ
header3_bytes l = u32_bytes 3 ++ (u32_bytes (line_len l) ++ u32_bytes (length (encode l.ops)))

-- A line and what follows it.
unfoldable pub line_then : Line → List ℕ → List ℕ
line_then l rest =
    head_bytes l
    ++ (header2_bytes l.header2 ++ (header3_bytes l ++ (encode l.ops ++ (l.padding ++ rest))))

pub record LineFits (l : Line) : Type 0 where
  pub azimuth_fits : l.azimuth < 2 ^ 32
  pub len_fits : line_len l < 2 ^ 32
  pub are_ops : All IsOp l.ops

abbrev pub returns_of : Bool → ℕ
returns_of true = 1024
returns_of false = 512

-- What the receiver hands on for a line.
abbrev pub spoke_of : RaymarineReportReceiver → Line → Event
spoke_of r l =
    add_spoke (r.range_meters * 4 % 2 ^ 32)
      ((l.azimuth % 2 ^ 16 + r.spokes_per_revolution / 2) % 2 ^ 16 % r.spokes_per_revolution)
      (take (returns_of l.hd_type) (expand (samples l.hd_type) l.ops))
