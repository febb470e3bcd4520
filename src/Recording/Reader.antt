-- ===== src/Recording/Reader.antt =====
-- `MrrReader` of src/lib/recording/file_format.rs, over a file held in memory: `content` is the
-- file and `pos` the stream position.
use mayara_server.Common.{
  ℕ, zero, suc, ◌-◌, List, Option, none, some, Result, ok, err, ◌>>=◌, ◌>>◌, guard, length, drop,
  leb, if◌then◌else◌,
}
use mayara_server.Recording.Format.{
  MrrHeader, MrrFooter, MrrIndexEntry, MrrFrame, IoError, invalid_seek, capabilities_too_large,
  initial_state_too_large, footer_size, max_metadata_size, exactly, header_read, footer_read,
  index_entry_read, frame_read,
}

pub record MrrReader : Type 0 where
  pub content : List ℕ
  pub pos : ℕ
  pub header : MrrHeader
  pub footer : MrrFooter
  pub capabilities : List ℕ
  pub initial_state : List ℕ
  pub frames_end_offset : ℕ

-- A length check, a seek from the start and a `read_exact`.
unfoldable pub read_metadata : (ℕ → IoError) → ℕ → ℕ → List ℕ → Result IoError (List ℕ)
read_metadata too_large len offset content = do
  guard (leb len max_metadata_size) (too_large len)
  (bytes, rest) ← exactly len (drop offset content)
  ok bytes

unfoldable pub reader_open : List ℕ → Result IoError MrrReader
reader_open content = do
  (header, rest) ← header_read content
  capabilities ←
      read_metadata capabilities_too_large header.capabilities_len header.capabilities_offset
        content
  initial_state ←
      read_metadata initial_state_too_large header.initial_state_len header.initial_state_offset
        content
  guard (leb footer_size (length content)) invalid_seek
  (footer, after_footer) ← footer_read (drop (length content - footer_size) content)
  ok (record {
    content = content;
    pos = header.frames_offset;
    header = header;
    footer = footer;
    capabilities = capabilities;
    initial_state = initial_state;
    frames_end_offset = footer.index_offset;
  })

-- The frame at the position, and the position behind it.
unfoldable pub next_frame : MrrReader → Result IoError (MrrFrame × MrrReader)
next_frame r = do
  (f, rest) ← frame_read (drop r.pos r.content)
  ok (f, record r { pos = length r.content - length rest })

unfoldable pub read_frame : MrrReader → Result IoError (Option MrrFrame × MrrReader)
read_frame r =
    let read = next_frame r >>= λ p. ok (some p.0, p.1) in
    if leb r.frames_end_offset r.pos then ok (none, r) else read

-- The loop over the index: the last entry of the front part that is not past the target.
unfoldable pub best_entry :
    ℕ → ℕ → Option MrrIndexEntry → List ℕ → Result IoError (Option MrrIndexEntry)
best_entry zero target best src = ok best
best_entry (suc n) target best src = do
  (entry, rest) ← index_entry_read src
  let later = best_entry n target (some entry) rest
  if leb entry.timestamp_ms target then later else ok best

abbrev pub seek_pos : MrrHeader → Option MrrIndexEntry → ℕ
seek_pos h none = h.frames_offset
seek_pos h (some e) = e.file_offset

-- The loop over the frames, on fuel: `none` is a loop that has not ended.
unfoldable pub skip_frames : ℕ → ℕ → MrrReader → Option (Result IoError MrrReader)
skip_frames zero target r = none
skip_frames (suc fuel) target r = elim (read_frame r) [
  | err e ↦ some (err e)
  | ok (none, r') ↦ some (ok r')
  | ok (some f, r') ↦
      let rest = skip_frames fuel target r' in
      if leb target f.timestamp_ms then some (ok (record r' { pos = r.pos })) else rest
]

-- Each frame takes a byte at least, so the length of the file bounds the rounds.
unfoldable pub seek_to_timestamp : ℕ → MrrReader → Option (Result IoError MrrReader)
seek_to_timestamp target r =
    elim (best_entry r.footer.index_count target none (drop r.footer.index_offset r.content)) [
      | err e ↦ some (err e)
      | ok best ↦
          skip_frames (suc (length r.content)) target (record r { pos = seek_pos r.header best })
    ]

unfoldable pub rewind : MrrReader → MrrReader
rewind r = record r { pos = r.header.frames_offset }
