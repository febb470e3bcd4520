-- ===== src/Recording/File/Reads.antt =====
-- Reading frames in order from a file laid out as the writer leaves it, and opening such a file.
use mayara_server.Common.{
  ℕ, ◌+◌, ◌-◌, ◌<◌, ◌≡◌, ap, ◌∙◌, arith, true, false, List, [], ◌∷◌, ◌++◌, append_assoc, none, some,
  ok, length, length-append, drop, map, leb,
}
use mayara_server.Bytes.{All}
use mayara_server.Bytes.Laws.{drop-length_append}
use mayara_server.Recording.Format.{MrrFrame, frame_read, frame_write, frame_size}
use mayara_server.Recording.Format.Frames.{
  FrameFits, as_written, frame_read-write, length-frame_write,
}
use mayara_server.Recording.Reader.{MrrReader, next_frame, read_frame}
use mayara_server.Recording.File.Written.{body}

-- `read_frame` gives exactly these frames, in order, and then the end.
abbrev pub Reads : MrrReader → List MrrFrame → Type 0
Reads r [] = read_frame r ≡ ok (none, r)
Reads r (f ∷ fs) = (r' : MrrReader) × (read_frame r ≡ ok (some f, r')) × Reads r' fs

-- The reader stands before the frames `fs`, and its frames end behind them.
pub record At (r : MrrReader) (before : List ℕ) (fs : List MrrFrame) (after : List ℕ) : Type 0 where
  pub content_is : r.content ≡ before ++ (body fs ++ after)
  pub pos_is : r.pos ≡ length before
  pub end_is : r.frames_end_offset ≡ length before + length (body fs)

abbrev pub forward : MrrReader → MrrFrame → MrrReader
forward r f = record r { pos = r.pos + frame_size f }

frame_size_pos : (f : MrrFrame) → 0 < frame_size f
unfolding frame_size
frame_size_pos f = ground arith

pub read_frame-At :
    (r : MrrReader) (before : List ℕ) (f : MrrFrame) (fs : List MrrFrame) (after : List ℕ)
    → FrameFits f
    → At r before (f ∷ fs) after
    → read_frame r ≡ ok (some (as_written f), forward r f)
unfolding read_frame next_frame
read_frame-At r before f fs after fits h =
    rw more (rw read (ap (λ (p : ℕ). ok (some (as_written f), record r { pos = p })) moved))
  where
    written : length (frame_write f) ≡ frame_size f
    written = length-frame_write f

    src : drop r.pos r.content ≡ frame_write f ++ (body fs ++ after)
    src =
        rw (h.pos_is, h.content_is)
          (drop-length_append before _ ∙ append_assoc (frame_write f) (body fs) after)

    read : frame_read (drop r.pos r.content) ≡ ok (as_written f, body fs ++ after)
    read = rw src (frame_read-write f (body fs ++ after) fits)

    more : leb r.frames_end_offset r.pos ≡ false
    more = ground (arith, length-append (frame_write f) (body fs), written, frame_size_pos f)

    moved : length r.content - length (body fs ++ after) ≡ r.pos + frame_size f
    moved = rw h.content_is (
        omega (
          arith,
          length-append before ((frame_write f ++ body fs) ++ after),
          length-append (frame_write f ++ body fs) after,
          length-append (frame_write f) (body fs),
          length-append (body fs) after,
          written,
          h.pos_is,
        ))

pub forward-At :
    (r : MrrReader) (before : List ℕ) (f : MrrFrame) (fs : List MrrFrame) (after : List ℕ)
    → At r before (f ∷ fs) after
    → At (forward r f) (before ++ frame_write f) fs after
forward-At r before f fs after h = record {
  content_is =
      h.content_is
      ∙ rw (append_assoc before (frame_write f) (body fs ++ after))
          (ap (λ xs. before ++ xs) (append_assoc (frame_write f) (body fs) after));
  pos_is = rw (h.pos_is, length-append, length-frame_write);
  end_is =
      h.end_is
      ∙ omega
          (arith, length-append (frame_write f) (body fs), length-append before (frame_write f));
}

pub read_frame-At_end :
    (r : MrrReader) (before after : List ℕ) → At r before [] after → read_frame r ≡ ok (none, r)
unfolding read_frame
read_frame-At_end r before after h =
    let e : leb r.frames_end_offset r.pos ≡ true = ground (arith, h.end_is, h.pos_is) in rw e

-- A reader before frames that fit gives them back one by one, and then the end.
pub Reads-At :
    (r : MrrReader) (before : List ℕ) (fs : List MrrFrame) (after : List ℕ)
    → All FrameFits fs
    → At r before fs after
    → Reads r (map as_written fs)
Reads-At r before [] after fits h = read_frame-At_end r before after h
Reads-At r before (f ∷ fs) after fits h = (
  forward r f,
  read_frame-At r before f fs after fits.0 h,
  Reads-At (forward r f) (before ++ frame_write f) fs after fits.1
      (forward-At r before f fs after h),
)
