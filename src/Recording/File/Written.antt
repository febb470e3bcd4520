-- ===== src/Recording/File/Written.antt =====
-- What `MrrWriter` of src/lib/recording/file_format.rs leaves in its sink.
use mathlib.Core.List.{foldl}
use mathlib.Core.Path.{subst}
use mayara_server.Common.{
  ℕ, ◌+◌, ◌≤◌, ◌≡◌, refl, sym, arith, List, [], ◌∷◌, ◌++◌, append_assoc, append-nil, length,
  length-append, inl, inr, Bool-cases, leb,
}
use mayara_server.Bytes.{All}
use mayara_server.Bytes.Laws.{All-map, All-append, drop-length_append}
use mayara_server.Recording.Format.{
  MrrFrame, MrrIndexEntry, header_write, footer_write, frame_write,
}
use mayara_server.Recording.Writer.{
  MrrWriter, RecordingSetup, u32, new_header, writer_new, mark_index, write_frame, index_write,
  writer_footer, finish, record_file,
}

-- The frames' bytes, one after the other.
abbrev pub body : List MrrFrame → List ℕ
body [] = []
body (f ∷ fs) = frame_write f ++ body fs

-- What stands before the first frame.
abbrev pub front : RecordingSetup → List ℕ
front s = header_write (new_header s) ++ (s.capabilities_json ++ s.initial_state_json)

abbrev pub last_timestamp : List MrrFrame → ℕ
last_timestamp [] = 0
last_timestamp (f ∷ []) = f.timestamp_ms
last_timestamp (f ∷ g ∷ fs) = last_timestamp (g ∷ fs)

-- The entry names the start of one of the frames, and that frame's time.
abbrev pub IsBoundary : ℕ → List MrrFrame → MrrIndexEntry → Type 0
IsBoundary base fs e =
    (before : List MrrFrame) × (f : MrrFrame) × (after : List MrrFrame) × (fs
      ≡ before ++ (f ∷ after))
    × (e.file_offset ≡ base + length (body before))
    × (e.timestamp_ms ≡ f.timestamp_ms)

-- A writer that has taken the frames `fs`.
pub record Written (s : RecordingSetup) (fs : List MrrFrame) (w : MrrWriter) : Type 0 where
  pub out_is : w.out ≡ front s ++ body fs
  pub header_is : w.header ≡ new_header s
  pub count_is : w.frame_count ≡ u32 (length fs)
  pub last_is : w.last_timestamp_ms ≡ last_timestamp fs
  pub index_short : length w.index ≤ length fs
  pub marks : All (IsBoundary (length (front s)) fs) w.index

pub body-append : (fs gs : List MrrFrame) → body (fs ++ gs) ≡ body fs ++ body gs
body-append [] gs = refl
body-append (f ∷ fs) gs =
    rw (body-append fs gs) (sym (append_assoc (frame_write f) (body fs) (body gs)))

last_timestamp-append :
    (fs : List MrrFrame) (f : MrrFrame) → last_timestamp (fs ++ (f ∷ [])) ≡ f.timestamp_ms
last_timestamp-append [] f = refl
last_timestamp-append (g ∷ []) f = refl
last_timestamp-append (g ∷ h ∷ fs) f = last_timestamp-append (h ∷ fs) f

IsBoundary-append :
    (base : ℕ) (fs gs : List MrrFrame) (e : MrrIndexEntry)
    → IsBoundary base fs e
    → IsBoundary base (fs ++ gs) e
IsBoundary-append base fs gs e (before, f, after, split, at_, time) =
    (before, f, after ++ gs, rw split (append_assoc before (f ∷ after) gs), at_, time)

writer_new-Written : (s : RecordingSetup) → Written s [] (writer_new s)
unfolding writer_new
writer_new-Written s = record {
  out_is = sym (append-nil (front s));
  header_is = refl;
  count_is = refl;
  last_is = refl;
  index_short = omega arith;
  marks = tt;
}

-- One more frame: the entry, if one is due, names its start.
write_frame-Written :
    (s : RecordingSetup) (fs : List MrrFrame) (w : MrrWriter) (f : MrrFrame)
    → Written s fs w
    → Written s (fs ++ (f ∷ [])) (write_frame w f)
unfolding write_frame
write_frame-Written s fs w f h = elim (Bool-cases (leb w.index_interval w.frames_since_index)) [
  | inl due ↦
      rw (due, mark_index, write_frame)
        (record {
          out_is = out;
          header_is = h.header_is;
          count_is = count;
          last_is = last;
          index_short = omega (
            arith,
            h.index_short,
            length-append fs (f ∷ []),
            length-append w.index
                (record { timestamp_ms = f.timestamp_ms; file_offset = length w.out } ∷ []),
          );
          marks = All-append _ w.index _ old (new, tt);
        })
  | inr early ↦
      rw (early, mark_index, write_frame)
        (record {
          out_is = out;
          header_is = h.header_is;
          count_is = count;
          last_is = last;
          index_short = rw length-append (omega (arith, h.index_short));
          marks = old;
        })
]
  where
    out : w.out ++ frame_write f ≡ front s ++ body (fs ++ (f ∷ []))
    out =
        rw (h.out_is, body-append fs (f ∷ []), append-nil)
          (append_assoc (front s) (body fs) (frame_write f))

    count : u32 (w.frame_count + 1) ≡ u32 (length (fs ++ (f ∷ [])))
    count = rw (h.count_is, length-append) (omega arith)

    last : f.timestamp_ms ≡ last_timestamp (fs ++ (f ∷ []))
    last = sym (last_timestamp-append fs f)

    old : All (IsBoundary (length (front s)) (fs ++ (f ∷ []))) w.index
    old = All-map _ _ w.index (λ e b. IsBoundary-append (length (front s)) fs (f ∷ []) e b) h.marks

    new :
        IsBoundary
          (length (front s))
          (fs ++ (f ∷ []))
          (record { timestamp_ms = f.timestamp_ms; file_offset = length w.out })
    new = (fs, f, [], refl, rw h.out_is (length-append (front s) (body fs)), refl)

foldl-Written :
    (s : RecordingSetup) (done fs : List MrrFrame) (w : MrrWriter)
    → Written s done w
    → Written s (done ++ fs) (foldl write_frame w fs)
foldl-Written s done [] w h = subst (λ gs. Written s gs w) (sym (append-nil done)) h
foldl-Written s done (f ∷ fs) w h =
    subst (λ gs. Written s gs (foldl write_frame (write_frame w f) fs))
      (append_assoc done (f ∷ []) fs)
      (foldl-Written s (done ++ (f ∷ [])) fs (write_frame w f) (write_frame-Written s done w f h))

abbrev pub writer_after : RecordingSetup → List MrrFrame → MrrWriter
writer_after s fs = foldl write_frame (writer_new s) fs

-- A writer that was made by `new` and has taken the frames `fs` in order holds the header, the
-- metadata and the frames' bytes, counts the frames modulo 2^32, keeps the last timestamp, and
-- each of its index entries names the start and the time of one of the frames.
pub writer_after-Written :
    (s : RecordingSetup) (fs : List MrrFrame) → Written s fs (writer_after s fs)
writer_after-Written s fs = foldl-Written s [] fs (writer_new s) (writer_new-Written s)

-- What follows the frames in a finished file.
abbrev pub tail_bytes : MrrWriter → List ℕ
tail_bytes w = index_write w.index ++ footer_write (writer_footer w)

-- Rewriting the header changes nothing, so a file is header, metadata, frames, index and footer.
pub record_file_lem :
    (s : RecordingSetup) (fs : List MrrFrame)
    → record_file s fs ≡ front s ++ (body fs ++ tail_bytes (writer_after s fs))
unfolding record_file finish
record_file_lem s fs =
    let h = writer_after-Written s fs in
    rw (h.header_is, h.out_is)
      (rw (append_assoc (front s) (body fs) (tail_bytes (writer_after s fs))) (
        rw
          (append_assoc (header_write (new_header s)) (s.capabilities_json ++ s.initial_state_json)
            (body fs ++ tail_bytes (writer_after s fs)))
          (rw (drop-length_append))))
