-- ===== src/Recording/Format.antt =====
-- src/lib/recording/file_format.rs: the records of an MRR file and how each is written and read.
-- A `Write` is the list of bytes that it appends, and a `Read` the list of bytes still to come.
pub mod Fixed
pub mod Frames
use Prim.Native.Nat.{bit_and, bit_or}
use mayara_server.Common.{
  ℕ, ◌+◌, ◌-◌, ◌*◌, ◌/◌, ◌%◌, ◌^◌, ◌≤◌, ◌<◌, Bool, true, false, not, List, [], ◌∷◌, ◌++◌, Option,
  none, some, Result, ok, err, ◌>>=◌, ◌>>◌, guard, length, replicate, ltb, leb, ◌==◌, if◌then◌else◌,
}
use mayara_server.Bytes.{to_le_bytes, from_le_bytes, slice, read_exact}

abbrev pub header_size : ℕ
header_size = 256

abbrev pub footer_size : ℕ
footer_size = 32

abbrev pub index_entry_size : ℕ
index_entry_size = 16

abbrev pub mrr_version : ℕ
mrr_version = 1

abbrev pub mrr_magic : List ℕ
mrr_magic = b'M' ∷ b'R' ∷ b'R' ∷ b'1' ∷ []

abbrev pub mrr_footer_magic : List ℕ
mrr_footer_magic = b'M' ∷ b'R' ∷ b'R' ∷ b'F' ∷ []

abbrev pub frame_flag_has_state : ℕ
frame_flag_has_state = 1

abbrev pub max_frame_data_size : ℕ
max_frame_data_size = 64 * 1024 * 1024

abbrev pub max_metadata_size : ℕ
max_metadata_size = 16 * 1024 * 1024

-- The `io::Error` values that the module makes; the sizes and versions are those of the messages.
pub data IoError : Type 0 where
  unexpected_eof bad_magic bad_footer_magic invalid_seek : IoError
  unsupported_version frame_too_large state_too_large : ℕ → IoError
  capabilities_too_large initial_state_too_large : ℕ → IoError

-- A read takes the bytes to come to a value and the bytes after it.
abbrev pub Read : Type 0 → Type 0
Read A = List ℕ → Result IoError (A × List ℕ)

abbrev pub exactly : ℕ → Read (List ℕ)
exactly n src = elim (read_exact n src) [ none ↦ err unexpected_eof | some p ↦ ok p ]

-- `[u8] == [u8]`
unfoldable pub bytes_eq : List ℕ → List ℕ → Bool
bytes_eq [] [] = true
bytes_eq (a ∷ as') (b ∷ bs) = if a == b then bytes_eq as' bs else false
bytes_eq _ _ = false

pub record MrrHeader : Type 0 where
  pub version : ℕ
  pub flags : ℕ
  pub radar_brand : ℕ
  pub spokes_per_rev : ℕ
  pub max_spoke_len : ℕ
  pub pixel_values : ℕ
  pub start_time_ms : ℕ
  pub capabilities_offset : ℕ
  pub capabilities_len : ℕ
  pub initial_state_offset : ℕ
  pub initial_state_len : ℕ
  pub frames_offset : ℕ

pub record MrrFooter : Type 0 where
  pub index_offset : ℕ
  pub index_count : ℕ
  pub frame_count : ℕ
  pub duration_ms : ℕ

pub record MrrIndexEntry : Type 0 where
  pub timestamp_ms : ℕ
  pub file_offset : ℕ

pub record MrrFrame : Type 0 where
  pub timestamp_ms : ℕ
  pub flags : ℕ
  pub payload : List ℕ
  pub state_delta : Option (List ℕ)

-- The fields fill the 256 byte buffer in order; the 192 bytes behind them stay zero.
unfoldable pub header_write : MrrHeader → List ℕ
header_write h =
    mrr_magic
    ++ (to_le_bytes 2 h.version
        ++ (to_le_bytes 2 h.flags
            ++ (to_le_bytes 4 h.radar_brand
                ++ (to_le_bytes 4 h.spokes_per_rev
                    ++ (to_le_bytes 4 h.max_spoke_len
                        ++ (to_le_bytes 4 h.pixel_values
                            ++ (to_le_bytes 8 h.start_time_ms
                                ++ (to_le_bytes 8 h.capabilities_offset
                                    ++ (to_le_bytes 4 h.capabilities_len
                                        ++ (to_le_bytes 8 h.initial_state_offset
                                            ++ (to_le_bytes 4 h.initial_state_len
                                                ++ (to_le_bytes 8 h.frames_offset
                                                    ++ replicate 192 0))))))))))))

-- The fields of a buffer whose magic and version have passed.
unfoldable pub header_of : List ℕ → MrrHeader
header_of buf = record {
  version = from_le_bytes (slice 4 2 buf);
  flags = from_le_bytes (slice 6 2 buf);
  radar_brand = from_le_bytes (slice 8 4 buf);
  spokes_per_rev = from_le_bytes (slice 12 4 buf);
  max_spoke_len = from_le_bytes (slice 16 4 buf);
  pixel_values = from_le_bytes (slice 20 4 buf);
  start_time_ms = from_le_bytes (slice 24 8 buf);
  capabilities_offset = from_le_bytes (slice 32 8 buf);
  capabilities_len = from_le_bytes (slice 40 4 buf);
  initial_state_offset = from_le_bytes (slice 44 8 buf);
  initial_state_len = from_le_bytes (slice 52 4 buf);
  frames_offset = from_le_bytes (slice 56 8 buf);
}

unfoldable pub header_read : Read MrrHeader
header_read src = do
  (buf, rest) ← exactly header_size src
  guard (bytes_eq (slice 0 4 buf) mrr_magic) bad_magic
  let version = from_le_bytes (slice 4 2 buf)
  guard (leb version mrr_version) (unsupported_version version)
  ok (header_of buf, rest)

unfoldable pub footer_write : MrrFooter → List ℕ
footer_write f =
    mrr_footer_magic
    ++ (to_le_bytes 8 f.index_offset
        ++ (to_le_bytes 4 f.index_count
            ++ (to_le_bytes 4 f.frame_count ++ (to_le_bytes 8 f.duration_ms ++ replicate 4 0))))

unfoldable pub footer_of : List ℕ → MrrFooter
footer_of buf = record {
  index_offset = from_le_bytes (slice 4 8 buf);
  index_count = from_le_bytes (slice 12 4 buf);
  frame_count = from_le_bytes (slice 16 4 buf);
  duration_ms = from_le_bytes (slice 20 8 buf);
}

unfoldable pub footer_read : Read MrrFooter
footer_read src = do
  (buf, rest) ← exactly footer_size src
  guard (bytes_eq (slice 0 4 buf) mrr_footer_magic) bad_footer_magic
  ok (footer_of buf, rest)

unfoldable pub index_entry_write : MrrIndexEntry → List ℕ
index_entry_write e = to_le_bytes 8 e.timestamp_ms ++ to_le_bytes 8 e.file_offset

unfoldable pub index_entry_read : Read MrrIndexEntry
index_entry_read src = do
  (buf, rest) ← exactly index_entry_size src
  ok (
    record {
      timestamp_ms = from_le_bytes (slice 0 8 buf);
      file_offset = from_le_bytes (slice 8 8 buf);
    },
    rest,
  )

unfoldable pub frame_new : ℕ → List ℕ → MrrFrame
frame_new timestamp_ms payload = record {
  timestamp_ms = timestamp_ms;
  flags = 0;
  payload = payload;
  state_delta = none;
}

-- `self.flags | FRAME_FLAG_HAS_STATE` or `self.flags & !FRAME_FLAG_HAS_STATE`.
unfoldable pub written_flags : MrrFrame → ℕ
written_flags f = elim f.state_delta [
  | some state ↦ bit_or f.flags frame_flag_has_state
  | none ↦ bit_and f.flags (255 - frame_flag_has_state)
]

-- A length and the bytes, the length cast by `as u32`.
abbrev pub with_length : List ℕ → List ℕ
with_length bytes = to_le_bytes 4 (length bytes % 2 ^ 32) ++ bytes

unfoldable pub state_write : Option (List ℕ) → List ℕ
state_write none = []
state_write (some state) = with_length state

unfoldable pub frame_write : MrrFrame → List ℕ
frame_write f =
    to_le_bytes 8 f.timestamp_ms
    ++ (written_flags f ∷ (with_length f.payload ++ state_write f.state_delta))

-- `read_exact` of the length, its check against the maximum, and `read_exact` of the bytes.
unfoldable pub read_sized : (ℕ → IoError) → Read (List ℕ)
read_sized too_large src = do
  (len_buf, src₁) ← exactly 4 src
  let len = from_le_bytes len_buf
  guard (leb len max_frame_data_size) (too_large len)
  exactly len src₁

unfoldable pub state_read : ℕ → Read (Option (List ℕ))
state_read flags src =
    let sized = read_sized state_too_large src >>= λ p. ok (some p.0, p.1) in
    if bit_and flags frame_flag_has_state == 0 then ok (none, src) else sized

unfoldable pub frame_read : Read MrrFrame
frame_read src = do
  (ts_buf, src₁) ← exactly 8 src
  (flags_buf, src₂) ← exactly 1 src₁
  let flags = from_le_bytes flags_buf
  (payload, src₃) ← read_sized frame_too_large src₂
  (state_delta, src₄) ← state_read flags src₃
  ok (
    record {
      timestamp_ms = from_le_bytes ts_buf;
      flags = flags;
      payload = payload;
      state_delta = state_delta;
    },
    src₄,
  )

unfoldable pub frame_size : MrrFrame → ℕ
frame_size f = elim f.state_delta [
  | some state ↦ 8 + 1 + 4 + length f.payload + 4 + length state
  | none ↦ 8 + 1 + 4 + length f.payload
]
