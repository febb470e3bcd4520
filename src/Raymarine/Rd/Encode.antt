-- ===== src/Raymarine/Rd/Encode.antt =====
-- How a round of the loop of src/lib/brand/raymarine/report/rd.rs reads a whole line.
use mayara_server.Common.{
  ℕ, ◌+◌, ◌*◌, ◌/◌, ◌%◌, ◌^◌, ◌≡◌, ◌≢◌, refl, sym, ap, ◌∙◌, arith, Bool, true, false, List, ◌++◌,
  Option, none, some, ok, length, drop, take, length-append, leb, ltb, ◌==◌, if◌then◌else◌,
}
use mayara_server.Bytes.{to_le_bytes, from_le_bytes}
use mayara_server.Bytes.Laws.{from-to_le_bytes, take-length_append}
use mayara_server.Raymarine.Spoke.{samples, process_spoke}
use mayara_server.Raymarine.Spoke.Ops.{encode, expand, process_spoke-samples}
use mayara_server.Raymarine.Rd.{
  RaymarineReportReceiver, add_spoke, u32_at, slice_to, line_type, skip_header2, read_line,
  read_spoke,
}
use mayara_server.Raymarine.Rd.Lines.{
  u32_bytes, Line, header2_bytes, line_len, header3_bytes, line_then, LineFits, returns_of,
  spoke_of,
}

slice_to-append :
    (n : ℕ) (front back : List ℕ) → length front ≡ n → slice_to n (front ++ back) ≡ ok front
slice_to-append n front back h =
    let enough : leb n (length (front ++ back)) ≡ true = rw length-append (ground arith) in
    rw enough
      (ap ok (ap (λ (k : ℕ). take k (front ++ back)) (sym h) ∙ take-length_append front back))

line_type-line :
    (l : Line) (rest : List ℕ)
    → line_type (line_then l rest) ≡ some (l.hd_type, returns_of l.hd_type)
unfolding line_type line_then to_le_bytes from_le_bytes
line_type-line l rest = by_type l.hd_type
  where
    by_type :
        (hd : Bool)
        → line_type (line_then (record l { hd_type = hd }) rest) ≡ some (hd, returns_of hd)
    by_type true = refl
    by_type false = refl

read_line_parts :
    (r : RaymarineReportReceiver) (hd : Bool) (n : ℕ) (rest : List ℕ) (start : ℕ) (header3 : List ℕ)
    (azimuth len : ℕ) (spoke pixels : List ℕ)
    → (r.spokes_per_revolution == 0) ≡ false
    → skip_header2 rest ≡ ok start
    → slice_to 12 (drop start rest) ≡ ok header3
    → u32_at 8 rest ≡ azimuth
    → u32_at 0 header3 ≡ 3
    → u32_at 4 header3 ≡ len
    → u32_at 8 header3 ≡ length spoke
    → ltb len ((length spoke + 8) % 2 ^ 32) ≡ false
    → take (length spoke) (drop (start + 12) rest) ≡ spoke
    → process_spoke hd n spoke (length spoke) ≡ ok pixels
    → read_line r hd n rest
      ≡ ok (
          some (
            add_spoke
                (r.range_meters * 4 % 2 ^ 32)
                ((azimuth % 2 ^ 16 + r.spokes_per_revolution / 2)
                  % 2 ^ 16
                  % r.spokes_per_revolution)
                pixels,
            start + len,
          ))
unfolding read_line
read_line_parts r hd n rest start header3 azimuth len spoke pixels turns skip third az magic long
      short enough found decoded =
    rw skip (
      rw third
        (rw magic (rw long (rw short (rw enough (rw turns (rw found (rw decoded (rw az refl)))))))))

abbrev pub start_of : Line → ℕ
start_of l = elim l.header2 [ none ↦ 40 | some len ↦ 48 ]

-- Behind the first header.
abbrev pub tail_bytes : Line → List ℕ → List ℕ
tail_bytes l rest =
    header2_bytes l.header2 ++ (header3_bytes l ++ (encode l.ops ++ (l.padding ++ rest)))

drop_head : (l : Line) (rest : List ℕ) → drop 40 (line_then l rest) ≡ tail_bytes l rest
unfolding line_then to_le_bytes
drop_head l rest = by_type l.hd_type
  where
    by_type :
        (hd : Bool)
        → drop 40 (line_then (record l { hd_type = hd }) rest)
          ≡ tail_bytes (record l { hd_type = hd }) rest
    by_type true = refl
    by_type false = refl

-- The first eight bytes behind the first header.
header2_of : Line → List ℕ
header2_of l = elim l.header2 [
  | none ↦ u32_bytes 3 ++ u32_bytes (line_len l)
  | some len ↦ u32_bytes 2 ++ u32_bytes len
]

slice-header2 : (l : Line) (rest : List ℕ) → slice_to 8 (tail_bytes l rest) ≡ ok (header2_of l)
unfolding header2_of to_le_bytes
slice-header2 l rest = by_header l.header2
  where
    by_header :
        (h : Option ℕ)
        → slice_to 8 (tail_bytes (record l { header2 = h }) rest)
          ≡ ok (header2_of (record l { header2 = h }))
    by_header none =
        slice_to-append 8 (u32_bytes 3 ++ u32_bytes (line_len l))
          (u32_bytes (length (encode l.ops)) ++ (encode l.ops ++ (l.padding ++ rest))) refl
    by_header (some len) =
        slice_to-append 8 (u32_bytes 2 ++ u32_bytes len)
          (header3_bytes l ++ (encode l.ops ++ (l.padding ++ rest))) refl

start_of_header2 : (l : Line) → (if u32_at 0 (header2_of l) == 2 then 48 else 40) ≡ start_of l
unfolding header2_of to_le_bytes from_le_bytes
start_of_header2 l = by_header l.header2
  where
    by_header :
        (h : Option ℕ)
        → (if u32_at 0 (header2_of (record l { header2 = h })) == 2 then 48 else 40)
          ≡ start_of (record l { header2 = h })
    by_header none = refl
    by_header (some len) = refl

skip_header2-line : (l : Line) (rest : List ℕ) → skip_header2 (line_then l rest) ≡ ok (start_of l)
unfolding skip_header2
skip_header2-line l rest =
    rw (drop_head l rest) (rw (slice-header2 l rest) (ap ok (start_of_header2 l)))

pub drop-line :
    (l : Line) (rest : List ℕ)
    → drop (start_of l) (line_then l rest)
      ≡ header3_bytes l ++ (encode l.ops ++ (l.padding ++ rest))
unfolding line_then to_le_bytes
drop-line l rest = by_case l.hd_type l.header2
  where
    by_case :
        (hd : Bool) (h : Option ℕ)
        → let k = record l { hd_type = hd; header2 = h } in
          drop (start_of k) (line_then k rest)
          ≡ header3_bytes k ++ (encode l.ops ++ (l.padding ++ rest))
    by_case true none = refl
    by_case true (some len) = refl
    by_case false none = refl
    by_case false (some len) = refl

pub drop_header3 :
    (l : Line) (rest : List ℕ)
    → drop (start_of l + 12) (line_then l rest) ≡ encode l.ops ++ (l.padding ++ rest)
unfolding line_then to_le_bytes
drop_header3 l rest = by_case l.hd_type l.header2
  where
    by_case :
        (hd : Bool) (h : Option ℕ)
        → let k = record l { hd_type = hd; header2 = h } in
          drop (start_of k + 12) (line_then k rest) ≡ encode l.ops ++ (l.padding ++ rest)
    by_case true none = refl
    by_case true (some len) = refl
    by_case false none = refl
    by_case false (some len) = refl

pub header3-length : (l : Line) → length (header3_bytes l) ≡ 12
unfolding to_le_bytes
header3-length l = refl

header3-magic : (l : Line) → u32_at 0 (header3_bytes l) ≡ 3
unfolding to_le_bytes from_le_bytes
header3-magic l = refl

header3-len : (l : Line) → LineFits l → u32_at 4 (header3_bytes l) ≡ line_len l
unfolding to_le_bytes from_le_bytes
header3-len l fits = from-to_le_bytes 4 (line_len l) fits.len_fits

header3-data : (l : Line) → LineFits l → u32_at 8 (header3_bytes l) ≡ length (encode l.ops)
unfolding to_le_bytes from_le_bytes
header3-data l fits = from-to_le_bytes 4 (length (encode l.ops)) (omega (arith, fits.len_fits))

azimuth-line : (l : Line) (rest : List ℕ) → LineFits l → u32_at 8 (line_then l rest) ≡ l.azimuth
unfolding line_then to_le_bytes from_le_bytes
azimuth-line l rest fits = from-to_le_bytes 4 l.azimuth fits.azimuth_fits

head-magic : (l : Line) (rest : List ℕ) → u32_at 0 (line_then l rest) ≡ 1
unfolding line_then to_le_bytes from_le_bytes
head-magic l rest = refl

head-length : (l : Line) (rest : List ℕ) → u32_at 4 (line_then l rest) ≡ 0x28
unfolding line_then to_le_bytes from_le_bytes
head-length l rest = refl

read_line-line :
    (r : RaymarineReportReceiver) (l : Line) (rest : List ℕ)
    → r.spokes_per_revolution ≢ 0
    → LineFits l
    → read_line r l.hd_type (returns_of l.hd_type) (line_then l rest)
      ≡ ok (some (spoke_of r l, start_of l + line_len l))
read_line-line r l rest turns fits =
    read_line_parts r l.hd_type (returns_of l.hd_type) (line_then l rest) (start_of l)
      (header3_bytes l) l.azimuth (line_len l) (encode l.ops)
      (take (returns_of l.hd_type) (expand (samples l.hd_type) l.ops)) (ground (arith, turns))
      (skip_header2-line l rest)
      (ap (λ xs. slice_to 12 xs) (drop-line l rest)
        ∙ slice_to-append 12 (header3_bytes l) _ (header3-length l))
      (azimuth-line l rest fits) (header3-magic l) (header3-len l fits) (header3-data l fits)
      (ground (arith, fits.len_fits))
      (ap (λ xs. take (length (encode l.ops)) xs) (drop_header3 l rest)
        ∙ take-length_append (encode l.ops) _)
      ((process_spoke-samples l.hd_type (returns_of l.hd_type) (encode l.ops) _).1
        (l.ops, fits.are_ops, refl, refl))

pub read_spoke-line :
    (r : RaymarineReportReceiver) (l : Line) (rest : List ℕ)
    → r.spokes_per_revolution ≢ 0
    → LineFits l
    → read_spoke r (line_then l rest) ≡ ok (some (spoke_of r l, start_of l + line_len l))
unfolding read_spoke
read_spoke-line r l rest turns fits =
    rw (head-magic l rest)
      (rw (head-length l rest) (rw (line_type-line l rest) (read_line-line r l rest turns fits)))
