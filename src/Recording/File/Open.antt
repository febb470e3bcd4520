-- ===== src/Recording/File/Open.antt =====
-- `MrrReader::open` of src/lib/recording/file_format.rs on a file that `MrrWriter` has finished.
use mayara_server.Common.{
  ℕ, ◌+◌, ◌-◌, ◌^◌, ◌≤◌, ◌<◌, ◌≡◌, refl, sym, ap, ◌∙◌, arith, true, List, [], ◌∷◌, ◌++◌,
  append_assoc, append-nil, ok, length, length-append, drop, map, leb,
}
use mayara_server.Bytes.{All}
use mayara_server.Bytes.Laws.{drop-length_append}
use mayara_server.Recording.Format.{
  MrrFrame, MrrFooter, IoError, header_read, header_write, footer_read, footer_write,
  max_metadata_size, capabilities_too_large, initial_state_too_large, footer_size,
}
use mayara_server.Recording.Format.Fixed.{
  HeaderFits, FooterFits, exactly-append, header_read-write, footer_read-write, length-header_write,
  length-footer_write,
}
use mayara_server.Recording.Format.Frames.{FrameFits, as_written}
use mayara_server.Recording.Writer.{
  RecordingSetup, u32, new_header, writer_footer, index_write, record_file,
}
use mayara_server.Recording.Reader.{MrrReader, read_metadata, reader_open}
use mayara_server.Recording.File.Written.{
  body, front, last_timestamp, writer_after, writer_after-Written, record_file_lem, Written,
}
use mayara_server.Recording.File.Reads.{At, Reads, Reads-At}

-- A setup and frames within the widths of the file and the limits of the reader.
pub record RecordingFits (s : RecordingSetup) (fs : List MrrFrame) : Type 0 where
  pub start_fits : s.start_time_ms < 2 ^ 64
  pub brand_fits : s.radar_brand < 2 ^ 32
  pub spokes_fits : s.spokes_per_rev < 2 ^ 32
  pub len_fits : s.max_spoke_len < 2 ^ 32
  pub pixels_fits : s.pixel_values < 2 ^ 32
  pub capabilities_fits : length s.capabilities_json ≤ max_metadata_size
  pub state_fits : length s.initial_state_json ≤ max_metadata_size
  pub frames_fit : All FrameFits fs
  pub count_fits : length fs < 2 ^ 32
  pub size_fits : length (front s) + length (body fs) < 2 ^ 64

read_metadata-append :
    (e : ℕ → IoError) (before bytes after content : List ℕ) (offset : ℕ)
    → length bytes ≤ max_metadata_size
    → content ≡ before ++ (bytes ++ after)
    → offset ≡ length before
    → read_metadata e (length bytes) offset content ≡ ok bytes
unfolding read_metadata
read_metadata-append e before bytes after content offset small split at_ =
    let test : leb (length bytes) max_metadata_size ≡ true = ground arith in
    rw (test, at_, split)
      (rw (drop-length_append before (bytes ++ after))
        (rw (exactly-append (length bytes) bytes after refl)))

last_timestamp-lt : (fs : List MrrFrame) → All FrameFits fs → last_timestamp fs < 2 ^ 64
last_timestamp-lt [] h = omega arith
last_timestamp-lt (f ∷ []) h = h.0.timestamp_ms_fits
last_timestamp-lt (f ∷ g ∷ fs) h = last_timestamp-lt (g ∷ fs) h.1

-- The footer that a reader finds.
abbrev pub final_footer : RecordingSetup → List MrrFrame → MrrFooter
final_footer s fs = record {
  index_offset = length (front s) + length (body fs);
  index_count = length (writer_after s fs).index;
  frame_count = length fs;
  duration_ms = last_timestamp fs;
}

-- The footer is what stands in the last 32 bytes.
footer_at :
    (xs : List ℕ) (f : MrrFooter)
    → FooterFits f
    → footer_read (drop (length (xs ++ footer_write f) - footer_size) (xs ++ footer_write f))
      ≡ ok (f, [])
footer_at xs f fits =
    let n : length (xs ++ footer_write f) - footer_size ≡ length xs =
      omega (arith, length-append xs (footer_write f), length-footer_write f) in
    rw n (
      rw (drop-length_append xs (footer_write f))
        (rw (← append-nil (footer_write f)) (footer_read-write f [] fits)))

module _ (s : RecordingSetup) (fs : List MrrFrame) (fits : RecordingFits s fs) where
  header_fits : HeaderFits (new_header s)
  unfolding new_header
  header_fits = omega (arith, fits)

  writer_footer_is : writer_footer (writer_after s fs) ≡ final_footer s fs
  unfolding writer_footer
  writer_footer_is =
      let h = writer_after-Written s fs in
      λ i. record {
        index_offset =
            (ap (λ (o : List ℕ). length o) h.out_is ∙ length-append (front s) (body fs)) i;
        index_count = small_index h i;
        frame_count = (h.count_is ∙ small_count) i;
        duration_ms = h.last_is i;
      }
    where
      small_index :
          Written s fs (writer_after s fs)
          → u32 (length (writer_after s fs).index) ≡ length (writer_after s fs).index
      small_index h = omega (arith, h.index_short, fits.count_fits)

      small_count : u32 (length fs) ≡ length fs
      small_count = omega (arith, fits.count_fits)

  footer_fits : FooterFits (final_footer s fs)
  footer_fits = record {
    index_offset_fits = fits.size_fits;
    index_count_fits = omega (arith, (writer_after-Written s fs).index_short, fits.count_fits);
    frame_count_fits = fits.count_fits;
    duration_ms_fits = last_timestamp-lt fs fits.frames_fit;
  }

  unfoldable pub index_bytes : List ℕ
  index_bytes = index_write (writer_after s fs).index

  -- The file with the footer's bytes in place.
  file_is :
      record_file s fs ≡ front s ++ (body fs ++ (index_bytes ++ footer_write (final_footer s fs)))
  unfolding index_bytes
  file_is = rw (← writer_footer_is) (record_file_lem s fs)

  file_ends :
      record_file s fs ≡ (front s ++ (body fs ++ index_bytes)) ++ footer_write (final_footer s fs)
  file_ends =
      file_is
      ∙ sym (
          append_assoc (front s) (body fs ++ index_bytes) _
          ∙ ap (λ xs. front s ++ xs) (append_assoc (body fs) index_bytes _))

  footer_at_end :
      footer_read (drop (length (record_file s fs) - footer_size) (record_file s fs))
      ≡ ok (final_footer s fs, [])
  footer_at_end =
      rw file_ends (footer_at (front s ++ (body fs ++ index_bytes)) (final_footer s fs) footer_fits)

  -- What follows the metadata.
  frames_on : List ℕ
  frames_on = body fs ++ (index_bytes ++ footer_write (final_footer s fs))

  header_first :
      header_read (record_file s fs)
      ≡ ok (new_header s, (s.capabilities_json ++ s.initial_state_json) ++ frames_on)
  unfolding frames_on new_header
  header_first =
      rw
        (
          file_is,
          append_assoc (header_write (new_header s)) (s.capabilities_json ++ s.initial_state_json),
        )
        (header_read-write (new_header s) _ header_fits)

  capabilities_second :
      read_metadata capabilities_too_large
        (new_header s).capabilities_len
        (new_header s).capabilities_offset
        (record_file s fs)
      ≡ ok s.capabilities_json
  unfolding new_header frames_on
  capabilities_second =
      let len : u32 (length s.capabilities_json) ≡ length s.capabilities_json =
        omega (arith, fits.capabilities_fits) in
      rw len (
        read_metadata-append capabilities_too_large (header_write (new_header s))
          s.capabilities_json (s.initial_state_json ++ frames_on) (record_file s fs) 256
          fits.capabilities_fits
          (file_is
            ∙ append_assoc (header_write (new_header s)) _ _
            ∙ ap (λ xs. header_write (new_header s) ++ xs)
                (append_assoc s.capabilities_json s.initial_state_json frames_on))
          (sym (length-header_write (new_header s))))

  state_third :
      read_metadata initial_state_too_large
        (new_header s).initial_state_len
        (new_header s).initial_state_offset
        (record_file s fs)
      ≡ ok s.initial_state_json
  unfolding new_header frames_on
  state_third =
      let len : u32 (length s.initial_state_json) ≡ length s.initial_state_json =
        omega (arith, fits.state_fits) in
      rw len (
        read_metadata-append initial_state_too_large
          (header_write (new_header s) ++ s.capabilities_json) s.initial_state_json frames_on
          (record_file s fs) _ fits.state_fits (file_is ∙ simp append_assoc)
          (omega (
            arith,
            length-append (header_write (new_header s)) s.capabilities_json,
            length-header_write (new_header s),
            fits.capabilities_fits,
          )))

  pub frames_offset_is : (new_header s).frames_offset ≡ length (front s)
  unfolding new_header
  frames_offset_is = omega (
    arith,
    fits.capabilities_fits,
    fits.state_fits,
    length-append (header_write (new_header s)) (s.capabilities_json ++ s.initial_state_json),
    length-append s.capabilities_json s.initial_state_json,
    length-header_write (new_header s),
  )

  -- The reader that `open` returns.
  unfoldable pub opened : MrrReader
  opened = record {
    content = record_file s fs;
    pos = (new_header s).frames_offset;
    header = new_header s;
    footer = final_footer s fs;
    capabilities = s.capabilities_json;
    initial_state = s.initial_state_json;
    frames_end_offset = (final_footer s fs).index_offset;
  }

  long_enough : leb footer_size (length (record_file s fs)) ≡ true
  long_enough = rw file_ends (
      ground (
        arith,
        length-append (front s ++ (body fs ++ index_bytes)) (footer_write (final_footer s fs)),
        length-footer_write (final_footer s fs),
      ))

  pub open-record_file : reader_open (record_file s fs) ≡ ok opened
  unfolding reader_open opened
  open-record_file =
      rw header_first (rw capabilities_second (rw state_third (rw long_enough (rw footer_at_end))))

  pub opened-At : At opened (front s) fs (index_bytes ++ footer_write (final_footer s fs))
  unfolding opened
  opened-At = record { content_is = file_is; pos_is = frames_offset_is; end_is = refl }

-- A recording that fits opens: the reader has the header, the capabilities, the initial state and a
-- footer with the frames' number and the last timestamp, and gives back the frames in order, each
-- as it was written, and then the end.
pub open-Reads :
    (s : RecordingSetup) (fs : List MrrFrame)
    → RecordingFits s fs
    → (r : MrrReader) × (reader_open (record_file s fs) ≡ ok r)
      × (r.header ≡ new_header s)
      × (r.capabilities ≡ s.capabilities_json)
      × (r.initial_state ≡ s.initial_state_json)
      × (r.footer ≡ final_footer s fs)
      × Reads r (map as_written fs)
unfolding opened
open-Reads s fs fits = (
  opened s fs fits,
  open-record_file s fs fits,
  refl,
  refl,
  refl,
  refl,
  Reads-At (opened s fs fits) (front s) fs _ fits.frames_fit (opened-At s fs fits),
)
