-- ===== src/Recording/Writer.antt =====
-- `MrrWriter` of src/lib/recording/file_format.rs, over a sink that takes every write: `out` is
-- what the sink holds, and its position is the end of `out` until `finish`.
use mayara_server.Common.{ℕ, ◌+◌, ◌%◌, ◌^◌, List, [], ◌∷◌, ◌++◌, length, drop, leb, if◌then◌else◌}
use mathlib.Core.List.{foldl}
use mayara_server.Recording.Format.{
  MrrHeader, MrrFooter, MrrIndexEntry, MrrFrame, header_size, mrr_version, header_write,
  footer_write, index_entry_write, frame_write,
}

pub record MrrWriter : Type 0 where
  pub out : List ℕ
  pub header : MrrHeader
  pub frame_count : ℕ
  pub last_timestamp_ms : ℕ
  pub index : List MrrIndexEntry
  pub index_interval : ℕ
  pub frames_since_index : ℕ

abbrev pub u32 : ℕ → ℕ
u32 n = n % 2 ^ 32

abbrev pub u64 : ℕ → ℕ
u64 n = n % 2 ^ 64

-- What `new` is given: the clock's reading comes in as `start_time_ms`.
pub record RecordingSetup : Type 0 where
  pub start_time_ms : ℕ
  pub radar_brand : ℕ
  pub spokes_per_rev : ℕ
  pub max_spoke_len : ℕ
  pub pixel_values : ℕ
  pub capabilities_json : List ℕ
  pub initial_state_json : List ℕ

unfoldable pub new_header : RecordingSetup → MrrHeader
new_header s =
    let capabilities_end = header_size + length s.capabilities_json in
    record {
      version = mrr_version;
      flags = 0;
      radar_brand = s.radar_brand;
      spokes_per_rev = s.spokes_per_rev;
      max_spoke_len = s.max_spoke_len;
      pixel_values = s.pixel_values;
      start_time_ms = s.start_time_ms;
      capabilities_offset = header_size;
      capabilities_len = u32 (length s.capabilities_json);
      initial_state_offset = u64 capabilities_end;
      initial_state_len = u32 (length s.initial_state_json);
      frames_offset = u64 (capabilities_end + length s.initial_state_json);
    }

unfoldable pub writer_new : RecordingSetup → MrrWriter
writer_new s = record {
  out = header_write (new_header s) ++ (s.capabilities_json ++ s.initial_state_json);
  header = new_header s;
  frame_count = 0;
  last_timestamp_ms = 0;
  index = [];
  index_interval = 100;
  frames_since_index = 0;
}

-- The index entry, if one is due before this frame.
unfoldable pub mark_index : MrrFrame → MrrWriter → MrrWriter
mark_index f w =
    if leb w.index_interval w.frames_since_index
    then record w {
      index =
          w.index ++ (record { timestamp_ms = f.timestamp_ms; file_offset = length w.out } ∷ []);
      frames_since_index = 0;
    }
    else w

unfoldable pub write_frame : MrrWriter → MrrFrame → MrrWriter
unfolding mark_index
write_frame w₀ f =
    let w = mark_index f w₀ in
    record w {
      out = w.out ++ frame_write f;
      frame_count = u32 (w.frame_count + 1);
      last_timestamp_ms = f.timestamp_ms;
      frames_since_index = u32 (w.frames_since_index + 1);
    }

unfoldable pub index_write : List MrrIndexEntry → List ℕ
index_write [] = []
index_write (e ∷ es) = index_entry_write e ++ index_write es

unfoldable pub writer_footer : MrrWriter → MrrFooter
writer_footer w = record {
  index_offset = length w.out;
  index_count = u32 (length w.index);
  frame_count = w.frame_count;
  duration_ms = w.last_timestamp_ms;
}

-- A write at the start of what is there.
abbrev pub overwrite : List ℕ → List ℕ → List ℕ
overwrite bytes out = bytes ++ drop (length bytes) out

-- The index and the footer are appended, then the header is written over the one at the start.
unfoldable pub finish : MrrWriter → List ℕ
finish w =
    overwrite (header_write w.header)
      (w.out ++ (index_write w.index ++ footer_write (writer_footer w)))

-- A whole recording.
unfoldable pub record_file : RecordingSetup → List MrrFrame → List ℕ
record_file s fs = finish (foldl write_frame (writer_new s) fs)
