-- ===== src/Navico/Lines.antt =====
-- The loop over the lines of a frame of src/lib/brand/navico/report.rs.
use mayara_server.Common.{
  ℕ, ◌+◌, ◌≡◌, refl, sym, ap, ◌∙◌, arith, false, List, [], ◌∷◌, ◌++◌, append_assoc, append-nil,
  Option, none, some, Result, ok, ◌>>=◌, length, length-append,
}
use mayara_server.Bytes.{All, slice}
use mayara_server.Bytes.Laws.{take-length_append, drop-length_append}
use mayara_server.Radar.Exclusion.{Fault}
use mayara_server.Radar.Legend.{Legend}
use mayara_server.Radar.Spokes.{Spoke, CommonRadar}
use mayara_server.Radar.Spokes.Plain.{
  messages, IsPlain, bearing, heading_from, sent, add_spoke-sent,
}
use mayara_server.Navico.Headers.{
  Header, IsHeader, header_bytes, reading, length-header_bytes, validate_header-reading,
}
use mayara_server.Navico.{
  Model, DopplerMode, NavicoReportReceiver, Env, validate_header, process_spoke, wire_to_legend,
  take_line, add_line, add_lines, radar_line_header_length, spoke_data_length, radar_line_length,
}
use mayara_server.Navico.Pixels.{
  Pair, IsPair, packed, all_drawn, length-packed, process_spoke-packed,
}

-- A line as the radar sends it: its header, and its strengths in pairs.
pub record Line : Type 0 where
  pub header : Header
  pub pairs : List Pair

pub record IsLine (l : Line) : Type 0 where
  pub header : IsHeader l.header
  pub pairs_length : length l.pairs ≡ spoke_data_length
  pub strengths : All IsPair l.pairs

abbrev pub line_bytes : Line → List ℕ
line_bytes l = header_bytes l.header ++ packed l.pairs

unfoldable pub lines_bytes : List Line → List ℕ
lines_bytes [] = []
lines_bytes (l ∷ ls) = line_bytes l ++ lines_bytes ls

-- The spoke of a line with this reading of its header, if it has one, where the true heading is known
-- as `nav_heading`, and that heading after it.
unfoldable pub spoke_of :
    Env → Legend → DopplerMode → ℕ → Option ℕ → Option (ℕ × ℕ × Option ℕ) → List Pair → List Spoke
spoke_of env legend mode time nav_heading none pairs = []
spoke_of env legend mode time nav_heading (some (range, angle, heading)) pairs =
    sent env.shared time (bearing nav_heading angle heading) range angle
      (all_drawn legend mode pairs)
    ∷ []

unfoldable pub told_by : Env → Option (ℕ × ℕ × Option ℕ) → Option ℕ → Option ℕ
told_by env none nav_heading = nav_heading
told_by env (some (range, angle, heading)) nav_heading =
    heading_from env.shared angle (bearing nav_heading angle heading) nav_heading

-- The spokes of the lines whose header is good, in their order, in a message begun at `time`; each
-- tells the heading that the next ones find.
unfoldable pub line_spokes :
    Env → Model → Legend → DopplerMode → ℕ → Option ℕ → List Line → List Spoke
line_spokes env m legend mode time nav_heading [] = []
line_spokes env m legend mode time nav_heading (l ∷ ls) =
    spoke_of env legend mode time nav_heading (reading env m l.header) l.pairs
    ++ line_spokes env m legend mode time (told_by env (reading env m l.header) nav_heading) ls

unfoldable pub heading_behind : Env → Model → Option ℕ → List Line → Option ℕ
heading_behind env m nav_heading [] = nav_heading
heading_behind env m nav_heading (l ∷ ls) =
    heading_behind env m (told_by env (reading env m l.header) nav_heading) ls

slice_at :
    (front middle back : List ℕ) {from n : ℕ}
    → length front ≡ from
    → length middle ≡ n
    → slice from n (front ++ (middle ++ back)) ≡ middle
slice_at front middle back hf hm =
    rw (← hf, ← hm)
      (rw (drop-length_append front (middle ++ back)) (take-length_append middle back))

-- The state of a message while its lines are taken.
pub record Taking (c : CommonRadar) (spokes : List Spoke) (nav_heading : Option ℕ)
    (c' : CommonRadar) : Type 0 where
  pub plain : IsPlain c'
  pub message : c'.spoke_message ≡ some spokes
  pub same_messages : messages c'.events ≡ messages c.events
  pub same_time : c'.spoke_time ≡ c.spoke_time
  pub told : c'.nav_heading ≡ nav_heading

pub length-line_bytes : (l : Line) → IsLine l → length (line_bytes l) ≡ radar_line_length
length-line_bytes l h = omega (
  arith,
  length-append (header_bytes l.header) (packed l.pairs),
  length-packed l.pairs,
  length-header_bytes l.header h.header,
  h.pairs_length,
)

-- A line takes the message on by its spoke, if it has one.
take_line-Taking :
    (env : Env) (legend : Legend) (mode : DopplerMode) (o : Option (ℕ × ℕ × Option ℕ))
    (pairs : List Pair) (c : CommonRadar) (spokes : List Spoke)
    → env.shared.trace ≡ false
    → IsPlain c
    → c.spoke_message ≡ some spokes
    → (c' : CommonRadar) × (take_line env o (all_drawn legend mode pairs) c ≡ ok c')
      × Taking c
          (spokes ++ spoke_of env legend mode c.spoke_time c.nav_heading o pairs)
          (told_by env o c.nav_heading)
          c'
unfolding take_line spoke_of told_by
take_line-Taking env legend mode none pairs c spokes quiet plain begun = (
  c,
  refl,
  record {
    plain = plain;
    message = begun ∙ ap (λ (ss : List Spoke). some ss) (sym (append-nil spokes));
    same_messages = refl;
    same_time = refl;
    told = refl;
  },
)
take_line-Taking env legend mode (some (range, angle, heading)) pairs c spokes quiet plain begun =
    let (c', done, h) =
      add_spoke-sent env.shared range angle heading (all_drawn legend mode pairs) c spokes plain
        quiet begun in
    (
      c',
      done,
      record {
        plain = h.plain;
        message = h.message;
        same_messages = h.same_messages;
        same_time = h.same_time;
        told = h.told;
      },
    )

-- The loop reads the header and the strengths of the line at its offset.
add_line-take_line :
    (env : Env) (legend : Legend) (r : NavicoReportReceiver) (front back : List ℕ) (l : Line)
    (offset : ℕ) (c : CommonRadar)
    → IsLine l
    → r.wire_to_legend_table ≡ wire_to_legend legend
    → r.data_buf ≡ front ++ (line_bytes l ++ back)
    → length front ≡ offset
    → add_line env r offset c
      ≡ take_line env (reading env r.model l.header) (all_drawn legend r.doppler l.pairs) c
unfolding add_line
add_line-take_line env legend r front back l offset c hl table buf place =
    ap
      (λ (h : List ℕ).
        take_line env (validate_header env r.model h)
          (process_spoke r.wire_to_legend_table r.doppler
            (slice (offset + radar_line_header_length) spoke_data_length r.data_buf))
          c)
      header
    ∙ ap
        (λ (o : Option (ℕ × ℕ × Option ℕ)).
          take_line env o
            (process_spoke r.wire_to_legend_table r.doppler
              (slice (offset + radar_line_header_length) spoke_data_length r.data_buf))
            c)
        (validate_header-reading env r.model l.header hl.header)
    ∙ ap (λ (ps : List ℕ). take_line env (reading env r.model l.header) ps c) pixels
  where
    hdr : List ℕ
    hdr = header_bytes l.header

    parts : r.data_buf ≡ front ++ (hdr ++ (packed l.pairs ++ back))
    parts = buf ∙ ap (λ (bs : List ℕ). front ++ bs) (append_assoc hdr (packed l.pairs) back)

    header : slice offset radar_line_header_length r.data_buf ≡ hdr
    header =
        ap (slice offset radar_line_header_length) parts
        ∙ slice_at front hdr (packed l.pairs ++ back) place (length-header_bytes l.header hl.header)

    body : slice (offset + radar_line_header_length) spoke_data_length r.data_buf ≡ packed l.pairs
    body =
        ap (slice (offset + radar_line_header_length) spoke_data_length)
          (parts ∙ sym (append_assoc front hdr (packed l.pairs ++ back)))
        ∙ slice_at (front ++ hdr) (packed l.pairs) back
            (omega (arith, length-append front hdr, place, length-header_bytes l.header hl.header))
            (length-packed l.pairs ∙ hl.pairs_length)

    pixels :
        process_spoke r.wire_to_legend_table r.doppler
          (slice (offset + radar_line_header_length) spoke_data_length r.data_buf)
        ≡ all_drawn legend r.doppler l.pairs
    pixels = rw (body, table) (process_spoke-packed legend r.doppler l.pairs hl.strengths)

-- All lines of a frame.
pub add_lines-Taking :
    (env : Env) (legend : Legend) (r : NavicoReportReceiver) (front back : List ℕ) (ls : List Line)
    (offset : ℕ) (c : CommonRadar) (spokes : List Spoke)
    → All IsLine ls
    → r.wire_to_legend_table ≡ wire_to_legend legend
    → r.data_buf ≡ front ++ (lines_bytes ls ++ back)
    → length front ≡ offset
    → env.shared.trace ≡ false
    → IsPlain c
    → c.spoke_message ≡ some spokes
    → (c' : CommonRadar) × (add_lines env r (length ls) offset c ≡ ok c')
      × Taking c
          (spokes ++ line_spokes env r.model legend r.doppler c.spoke_time c.nav_heading ls)
          (heading_behind env r.model c.nav_heading ls)
          c'
unfolding add_lines lines_bytes line_spokes heading_behind
add_lines-Taking env legend r front back [] offset c spokes hl table buf place quiet plain begun = (
  c,
  refl,
  record {
    plain = plain;
    message = begun ∙ ap (λ (ss : List Spoke). some ss) (sym (append-nil spokes));
    same_messages = refl;
    same_time = refl;
    told = refl;
  },
)
add_lines-Taking env legend r front back (l ∷ ls) offset c spokes hl table buf place quiet plain
      begun =
    let first_spoke : List Spoke =
      spoke_of env legend r.doppler c.spoke_time c.nav_heading (reading env r.model l.header)
        l.pairs in
    let here : r.data_buf ≡ front ++ (line_bytes l ++ (lines_bytes ls ++ back)) =
      buf ∙ ap (λ (bs : List ℕ). front ++ bs) (append_assoc (line_bytes l) (lines_bytes ls) back) in
    let (d, one, first) =
      take_line-Taking env legend r.doppler (reading env r.model l.header) l.pairs c spokes quiet
        plain begun in
    let (c', more, rest) =
      add_lines-Taking env legend r (front ++ line_bytes l) back ls (offset + radar_line_length) d
        (spokes ++ first_spoke) hl.1 table
        (here ∙ sym (append_assoc front (line_bytes l) (lines_bytes ls ++ back)))
        (omega (arith, length-append front (line_bytes l), length-line_bytes l hl.0, place)) quiet
        first.plain first.message in
    let opened : add_line env r offset c ≡ ok d =
      add_line-take_line env legend r front (lines_bytes ls ++ back) l offset c hl.0 table here
        place
      ∙ one in
    (
      c',
      ap
            (λ (s : Result Fault CommonRadar).
              s >>= add_lines env r (length ls) (offset + radar_line_length))
            opened
          ∙ more,
      record {
        plain = rest.plain;
        message =
            rest.message
            ∙ ap
                (λ (k : ℕ × Option ℕ).
                  some (
                    (spokes ++ first_spoke) ++ line_spokes env r.model legend r.doppler k.0 k.1 ls))
                (λ i. (first.same_time i, first.told i))
            ∙ ap (λ (ss : List Spoke). some ss) (append_assoc spokes first_spoke _);
        same_messages = rest.same_messages ∙ first.same_messages;
        same_time = rest.same_time ∙ first.same_time;
        told = rest.told ∙ ap (λ (k : Option ℕ). heading_behind env r.model k ls) first.told;
      },
    )
