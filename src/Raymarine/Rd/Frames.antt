-- ===== src/Raymarine/Rd/Frames.antt =====
-- Whole frames of the RD series through `process_frame` of src/lib/brand/raymarine/report/rd.rs.
use mayara_server.Common.{
  ℕ, zero, suc, ◌+◌, ◌^◌, ◌≤◌, ◌<◌, ◌≡◌, ◌≢◌, refl, sym, ap, ◌∙◌, arith, true, false, List, [], ◌∷◌,
  ◌++◌, ok, map, length, drop, length-append, length-drop, append_assoc, append-nil, leb, ltb, ◌==◌,
}
use mayara_server.Bytes.{All, to_le_bytes, from_le_bytes}
use mayara_server.Bytes.Laws.{from-to_le_bytes, drop-length_append}
use mayara_server.Raymarine.Spoke.Ops.{encode}
use mayara_server.Raymarine.Rd.{
  RaymarineReportReceiver, status_request_received, new_spoke_message, send_spoke_message, emit,
  u32_at, read_spokes, is_frame, process_frame,
}
use mayara_server.Raymarine.Rd.Lines.{
  Line, LineFits, line_then, line_len, spoke_of, header3_bytes, u32_bytes,
}
use mayara_server.Raymarine.Rd.Encode.{
  start_of, header3-length, drop-line, drop_header3, read_spoke-line,
}

drop-nil {ℓ} : {A : Type ℓ} (n : ℕ) → drop {A = A} n [] ≡ []
drop-nil zero = refl
drop-nil (suc n) = refl

drop-drop {ℓ} : {A : Type ℓ} (m n : ℕ) (xs : List A) → drop (m + n) xs ≡ drop n (drop m xs)
drop-drop zero n xs = ap (λ (k : ℕ). drop k xs) (omega arith)
drop-drop (suc m) n [] = drop-nil (suc m + n) ∙ sym (drop-nil n)
drop-drop (suc m) n (x ∷ xs) =
    let e : suc m + n ≡ suc (m + n) = omega arith in
    ap (λ (k : ℕ). drop k (x ∷ xs)) e ∙ drop-drop m n xs

start_of-le : (l : Line) → 40 ≤ start_of l
start_of-le l = ground arith

length-line : (l : Line) (rest : List ℕ) → 40 + 12 + length rest ≤ length (line_then l rest)
length-line l rest =
    let after = encode l.ops ++ (l.padding ++ rest) in
    omega (
      arith,
      start_of-le l,
      length-drop (start_of l) (line_then l rest),
      ap (λ (xs : List ℕ). length xs) (drop-line l rest),
      length-append (header3_bytes l) after,
      header3-length l,
      length-append (encode l.ops) (l.padding ++ rest),
      length-append l.padding rest,
    )

drop_line : (l : Line) (rest : List ℕ) → drop (start_of l + line_len l) (line_then l rest) ≡ rest
drop_line l rest =
    let size : start_of l + line_len l ≡ start_of l + 12 + length (encode l.ops ++ l.padding) =
      omega (arith, length-append (encode l.ops) l.padding) in
    ap (λ (n : ℕ). drop n (line_then l rest)) size
    ∙ drop-drop (start_of l + 12) (length (encode l.ops ++ l.padding)) (line_then l rest)
    ∙ ap (λ (xs : List ℕ). drop (length (encode l.ops ++ l.padding)) xs)
        (drop_header3 l rest ∙ sym (append_assoc (encode l.ops) l.padding rest))
    ∙ drop-length_append (encode l.ops ++ l.padding) rest

unfoldable pub lines_bytes : List Line → List ℕ
lines_bytes [] = []
lines_bytes (l ∷ ls) = line_then l (lines_bytes ls)

read_spokes-lines :
    (fuel : ℕ) (r : RaymarineReportReceiver) (ls : List Line)
    → r.spokes_per_revolution ≢ 0
    → All LineFits ls
    → length (lines_bytes ls) < fuel
    → read_spokes fuel r (lines_bytes ls)
      ≡ ok (record r { events = r.events ++ map (spoke_of r) ls })
unfolding lines_bytes read_spokes
read_spokes-lines zero r ls turns fits enough = absurd (omega arith)
read_spokes-lines (suc fuel) r [] turns fits enough =
    ap (λ es. ok (record r { events = es })) (sym (append-nil r.events))
read_spokes-lines (suc fuel) r (l ∷ ls) turns fits enough =
    let more : leb (length (line_then l (lines_bytes ls))) 40 ≡ false =
      ground (arith, length-line l (lines_bytes ls)) in
    rw more (
      rw (read_spoke-line r l (lines_bytes ls) turns fits.0) (
        rw (drop_line l (lines_bytes ls)) (
          read_spokes-lines fuel (emit (spoke_of r l) r) ls turns fits.1
            (omega (arith, enough, length-line l (lines_bytes ls)))
          ∙ ap (λ es. ok (record r { events = es }))
              (append_assoc r.events (spoke_of r l ∷ []) (map (spoke_of r) ls)))))

-- The first header of a frame, with the fields that the code ignores.
pub record FrameStart : Type 0 where
  pub zero_1 : ℕ
  pub nspokes : ℕ
  pub spoke_count : ℕ
  pub zero_3 : ℕ
  pub fieldx_4 : ℕ

unfoldable pub frame_bytes : FrameStart → List Line → List ℕ
frame_bytes f ls =
    u32_bytes 0x00010003
    ++ (u32_bytes f.zero_1
        ++ (u32_bytes 0x0000001c
            ++ (u32_bytes f.nspokes
                ++ (u32_bytes f.spoke_count
                    ++ (u32_bytes f.zero_3
                        ++ (u32_bytes 0x00000001 ++ (u32_bytes f.fieldx_4 ++ lines_bytes ls)))))))

pub record StartFits (f : FrameStart) : Type 0 where
  pub some_spokes : 0 < f.nspokes
  pub few_spokes : f.nspokes ≤ 360
  pub same_type : f.fieldx_4 ≢ 0x400
  pub field_fits : f.fieldx_4 < 2 ^ 32

frame-length :
    (f : FrameStart) (ls : List Line) → length (frame_bytes f ls) ≡ 32 + length (lines_bytes ls)
unfolding frame_bytes to_le_bytes
frame-length f ls = omega arith

frame-magic : (f : FrameStart) (ls : List Line) → (u32_at 0 (frame_bytes f ls) == 0x00010003) ≡ true
unfolding frame_bytes to_le_bytes from_le_bytes
frame-magic f ls = refl

frame-field_1 :
    (f : FrameStart) (ls : List Line) → (u32_at 8 (frame_bytes f ls) == 0x0000001c) ≡ true
unfolding frame_bytes to_le_bytes from_le_bytes
frame-field_1 f ls = refl

frame-field_3 :
    (f : FrameStart) (ls : List Line) → (u32_at 24 (frame_bytes f ls) == 0x00000001) ≡ true
unfolding frame_bytes to_le_bytes from_le_bytes
frame-field_3 f ls = refl

frame-nspokes :
    (f : FrameStart) (ls : List Line) → StartFits f → u32_at 12 (frame_bytes f ls) ≡ f.nspokes
unfolding frame_bytes to_le_bytes from_le_bytes
frame-nspokes f ls fits = from-to_le_bytes 4 f.nspokes (omega (arith, fits.few_spokes))

frame-field_4 :
    (f : FrameStart) (ls : List Line) → StartFits f → u32_at 28 (frame_bytes f ls) ≡ f.fieldx_4
unfolding frame_bytes to_le_bytes from_le_bytes
frame-field_4 f ls fits = from-to_le_bytes 4 f.fieldx_4 fits.field_fits

drop_start : (f : FrameStart) (ls : List Line) → drop 32 (frame_bytes f ls) ≡ lines_bytes ls
unfolding frame_bytes to_le_bytes
drop_start f ls = refl

is_frame-frame :
    (r : RaymarineReportReceiver) (f : FrameStart) (l : Line) (ls : List Line)
    → r.state ≡ status_request_received
    → StartFits f
    → is_frame r (frame_bytes f (l ∷ ls)) ≡ true
unfolding is_frame lines_bytes
is_frame-frame r f l ls ready fits =
    let bytes = frame_bytes f (l ∷ ls) in
    let enough : leb 72 (length bytes) ≡ true =
      ground (arith, frame-length f (l ∷ ls), length-line l (lines_bytes ls)) in
    let same : (u32_at 28 bytes == 0x400) ≡ false =
      ground (arith, frame-field_4 f (l ∷ ls) fits, fits.same_type) in
    let some_lines : ltb 0 (u32_at 12 bytes) ≡ true =
      ground (arith, frame-nspokes f (l ∷ ls) fits, fits.some_spokes) in
    let few : leb (u32_at 12 bytes) 360 ≡ true =
      ground (arith, frame-nspokes f (l ∷ ls) fits, fits.few_spokes) in
    rw (ready, enough, frame-magic, frame-field_1, frame-field_3, same, some_lines, few) refl

-- A receiver that has seen all reports hands on, for a frame of one or more whole lines, in one
-- message and in order, one spoke for each: turned by half a circle, with the samples that the
-- line's operations stand for, and with the range times four. A second header and padding change
-- nothing, nor does the number of spokes announced, if it is from 1 to 360.
pub process_frame-frame :
    (r : RaymarineReportReceiver) (f : FrameStart) (l : Line) (ls : List Line)
    → r.state ≡ status_request_received
    → r.spokes_per_revolution ≢ 0
    → StartFits f
    → All LineFits (l ∷ ls)
    → process_frame (frame_bytes f (l ∷ ls)) r
      ≡ ok (record r {
        events =
            r.events
            ++ (new_spoke_message ∷ map (spoke_of r) (l ∷ ls))
            ++ (send_spoke_message ∷ []);
      })
unfolding process_frame
process_frame-frame r f l ls ready turns start fits =
    let bytes = frame_bytes f (l ∷ ls) in
    rw (is_frame-frame r f l ls ready start) (
      rw (drop_start f (l ∷ ls)) (
        rw
          (read_spokes-lines (suc (length bytes)) (emit new_spoke_message r) (l ∷ ls) turns fits
            (omega (arith, frame-length f (l ∷ ls))))
          (ap (λ es. ok (record r { events = es ++ (send_spoke_message ∷ []) }))
            (append_assoc r.events (new_spoke_message ∷ []) (map (spoke_of r) (l ∷ ls))))))
