-- ===== src/Recording/File/Seek.antt =====
-- `seek_to_timestamp` of src/lib/recording/file_format.rs on a file that `MrrWriter` has finished.
use mathlib.Core.Path.{subst}
use mayara_server.Common.{
  ℕ, suc, ◌+◌, ◌^◌, ◌≤◌, ◌<◌, ◌≡◌, refl, sym, ap, ◌∙◌, arith, List, [], ◌∷◌, ◌++◌, append_assoc,
  Option, none, Result, ok, length, length-append, drop, ok_injective, inl, inr,
}
use mayara_server.Bytes.{All, to_le_bytes}
use mayara_server.Bytes.Laws.{All-map, All-append, drop-length_append}
use mayara_server.Recording.Format.{frame_write, MrrFrame, MrrIndexEntry, IoError, footer_write}
use mayara_server.Recording.Format.Fixed.{EntryFits}
use mayara_server.Recording.Format.Frames.{FrameFits}
use mayara_server.Recording.Writer.{RecordingSetup, index_write, record_file}
use mayara_server.Recording.Reader.{
  MrrReader, reader_open, best_entry, skip_frames, seek_to_timestamp, seek_pos,
}
use mayara_server.Recording.File.Written.{
  body, front, body-append, writer_after, writer_after-Written, IsBoundary,
}
use mayara_server.Recording.File.Reads.{At}
use mayara_server.Recording.File.Open.{
  RecordingFits, opened, opened-At, index_bytes, frames_offset_is, final_footer, open-record_file,
}
use mayara_server.Recording.File.Skip.{Ascending, Best, best_entry-index, SoughtTo, skip_frames-At}

All-append_right {ℓ κ} :
    {A : Type ℓ} (P : A → Type κ) (xs ys : List A) → All P (xs ++ ys) → All P xs × All P ys
All-append_right P [] ys h = (tt, h)
All-append_right P (x ∷ xs) ys h = let (p, q) = All-append_right P xs ys h.1 in ((h.0, p), q)

-- In ascending frames all before a frame are at or before its time.
Ascending-append :
    (before : List MrrFrame) (f : MrrFrame) (after : List MrrFrame)
    → Ascending (before ++ (f ∷ after))
    → All (λ g. g.timestamp_ms ≤ f.timestamp_ms) before × Ascending (f ∷ after)
Ascending-append [] f after h = (tt, h)
Ascending-append (g ∷ before) f after h =
    let (low, rest) = Ascending-append before f after h.1 in
    (((All-append_right _ before (f ∷ after) h.0).1.0, low), rest)

length-le-body : (fs : List MrrFrame) → length fs ≤ length (body fs)
unfolding frame_write to_le_bytes
length-le-body [] = omega arith
length-le-body (f ∷ fs) = omega (arith, length-append (frame_write f) (body fs), length-le-body fs)

IsBoundary-EntryFits :
    (base : ℕ) (fs : List MrrFrame) (e : MrrIndexEntry)
    → All FrameFits fs
    → base + length (body fs) < 2 ^ 64
    → IsBoundary base fs e
    → EntryFits e
IsBoundary-EntryFits base fs e fits room (before, f, after, split, at_, time) =
    let whole : length (body fs) ≡ length (body before) + length (body (f ∷ after)) =
      rw split
        (rw (body-append before (f ∷ after)) (length-append (body before) (body (f ∷ after)))) in
    let mine = (All-append_right FrameFits before (f ∷ after) (rw split at fits)).1.0 in
    record { timestamp_ms_fits = rw time mine.timestamp_ms_fits; file_offset_fits = omega arith }

-- The reader moved to the start of one of the frames.
opened-At_boundary :
    (s : RecordingSetup) (fs : List MrrFrame) (fits : RecordingFits s fs)
    (before after : List MrrFrame) (offset : ℕ)
    → fs ≡ before ++ after
    → offset ≡ length (front s) + length (body before)
    → At
        (record (opened s fs fits) { pos = offset })
        (front s ++ body before)
        after
        (index_bytes s fs fits ++ footer_write (final_footer s fs))
unfolding opened
opened-At_boundary s fs fits before after offset split at_ =
    let parts : body fs ≡ body before ++ body after = rw split (body-append before after) in
    let tail = index_bytes s fs fits ++ footer_write (final_footer s fs) in
    record {
      content_is =
          (opened-At s fs fits).content_is
          ∙ ap (λ xs. front s ++ (xs ++ tail)) parts
          ∙ ap (λ xs. front s ++ xs) (append_assoc (body before) (body after) tail)
          ∙ sym (append_assoc (front s) (body before) (body after ++ tail));
      pos_is = at_ ∙ sym (length-append (front s) (body before));
      end_is = omega (
        arith,
        ap (λ (xs : List ℕ). length xs) parts,
        length-append (body before) (body after),
        length-append (front s) (body before),
      );
    }

opened_start :
    (s : RecordingSetup) (fs : List MrrFrame) (fits : RecordingFits s fs)
    → (opened s fs fits).header.frames_offset ≡ length (front s)
unfolding opened
opened_start s fs fits = frames_offset_is s fs fits

opened_count :
    (s : RecordingSetup) (fs : List MrrFrame) (fits : RecordingFits s fs)
    → (opened s fs fits).footer.index_count ≡ length (writer_after s fs).index
unfolding opened
opened_count s fs fits = refl

opened_enough :
    (s : RecordingSetup) (fs : List MrrFrame) (fits : RecordingFits s fs)
    → length fs ≤ length (opened s fs fits).content
opened_enough s fs fits = rw (opened-At s fs fits).content_is (
    omega (
      arith,
      length-append (front s)
          (body fs ++ (index_bytes s fs fits ++ footer_write (final_footer s fs))),
      length-append (body fs) (index_bytes s fs fits ++ footer_write (final_footer s fs)),
      length-le-body fs,
    ))

-- The frames before an entry in time join what is skipped.
SoughtTo-append :
    (target : ℕ) (fs before after : List MrrFrame) (outcome : Option (Result IoError MrrReader))
    → fs ≡ before ++ after
    → All (λ f. f.timestamp_ms ≤ target) before
    → SoughtTo target after outcome
    → SoughtTo target fs outcome
SoughtTo-append target fs before after outcome split early
      (r, is, pre, post, split', low, high, reads) =
    (
      r,
      is,
      before ++ pre,
      post,
      split ∙ rw split' (sym (append_assoc before pre post)),
      All-append _ before pre early low,
      high,
      reads,
    )

-- A seek to where the index scan ended: the frames before it are in time, and the rest is skipped
-- through.
seek_from :
    (s : RecordingSetup) (fs : List MrrFrame) (fits : RecordingFits s fs) (target : ℕ)
    (best : Option MrrIndexEntry)
    → Ascending fs
    → Best (IsBoundary (length (front s)) fs) target none best
    → let r = opened s fs fits in
      SoughtTo target fs
        (skip_frames (suc (length r.content)) target (record r { pos = seek_pos r.header best }))
seek_from s fs fits target best asc (inl start) = rw start (
    SoughtTo-append target fs [] fs _ refl tt (
      skip_frames-At _ target _ _ fs _ (omega (arith, opened_enough s fs fits)) asc fits.frames_fit
        (opened-At_boundary s fs fits [] fs _ refl (opened_start s fs fits ∙ omega arith))))
seek_from s fs fits target best asc (inr (e, is, early, (before, f, after, split, at_, time))) =
    let (low, asc') = Ascending-append before f after (rw split at asc) in
    let mine = (All-append_right FrameFits before (f ∷ after) (rw split at fits.frames_fit)).1 in
    let in_time : All (λ g. g.timestamp_ms ≤ target) before =
      All-map _ _ before (λ g le. omega arith) low in
    let short : length (f ∷ after) < suc (length (opened s fs fits).content) = omega (
      arith,
      opened_enough s fs fits,
      ap (λ (xs : List MrrFrame). length xs) split,
      length-append before (f ∷ after),
    ) in
    rw is (
      SoughtTo-append target fs before (f ∷ after) _ split in_time (
        skip_frames-At _ target _ _ (f ∷ after) _ short asc' mine
          (opened-At_boundary s fs fits before (f ∷ after) _ split at_)))

-- Where the index stands in the file.
index_at :
    (s : RecordingSetup) (fs : List MrrFrame) (fits : RecordingFits s fs)
    → let r = opened s fs fits in
      drop r.footer.index_offset r.content
      ≡ index_write (writer_after s fs).index ++ footer_write (final_footer s fs)
unfolding opened index_bytes
index_at s fs fits =
    let tail = index_write (writer_after s fs).index ++ footer_write (final_footer s fs) in
    ap (λ n. drop n (record_file s fs)) (sym (length-append (front s) (body fs)))
    ∙ ap (drop (length (front s ++ body fs)))
        ((opened-At s fs fits).content_is ∙ sym (append_assoc (front s) (body fs) tail))
    ∙ drop-length_append (front s ++ body fs) tail

seek_opened :
    (s : RecordingSetup) (fs : List MrrFrame) (fits : RecordingFits s fs) (target pos : ℕ)
    → Ascending fs
    → SoughtTo target fs (seek_to_timestamp target (record (opened s fs fits) { pos = pos }))
unfolding seek_to_timestamp
seek_opened s fs fits target pos asc =
    let w = writer_after-Written s fs in
    let fit =
      All-map _ EntryFits (writer_after s fs).index
        (λ e b. IsBoundary-EntryFits (length (front s)) fs e fits.frames_fit fits.size_fits b)
        w.marks in
    let (best, found, good) =
      best_entry-index (IsBoundary (length (front s)) fs) (writer_after s fs).index
        (footer_write (final_footer s fs)) target none fit w.marks in
    let r = opened s fs fits in
    let scan : best_entry r.footer.index_count target none (drop r.footer.index_offset r.content)
        ≡ ok best =
      rw (index_at s fs fits, opened_count s fs fits) found in
    rw (scan, seek_to_timestamp) (seek_from s fs fits target best asc good)

-- In a finished recording whose times never go back, a seek to `target` from any position leaves
-- the reader before the frames from `target` on: all that it then gives are at or after `target`,
-- and all that it skips are at or before it.
pub seek_to_timestamp-SoughtTo :
    (s : RecordingSetup) (fs : List MrrFrame) (target pos : ℕ) (r : MrrReader)
    → RecordingFits s fs
    → Ascending fs
    → reader_open (record_file s fs) ≡ ok r
    → SoughtTo target fs (seek_to_timestamp target (record r { pos = pos }))
seek_to_timestamp-SoughtTo s fs target pos r fits asc is =
    subst (λ q. SoughtTo target fs (seek_to_timestamp target (record q { pos = pos })))
      (ok_injective (sym (open-record_file s fs fits) ∙ is)) (seek_opened s fs fits target pos asc)
