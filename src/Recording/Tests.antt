-- ===== src/Recording/Tests.antt =====
-- Runs of the recording subsystem on small inputs, and its theorems at such inputs.
use mayara_server.Common.{
  ◌+◌, ◌++◌, ◌≡◌, ◌≢◌, ◌≤◌, refl, arith, List, [], ◌∷◌, none, some, ok, err, length, drop, take,
  map, true,
}
use mayara_server.Bytes.{to_le_bytes, from_le_bytes, read_exact}
use mayara_server.Bytes.Laws.{are_bytes, are_bytes-All}
use mayara_server.Recording.Format.{
  MrrHeader, MrrFrame, header_write, header_read, header_of, footer_write, frame_write, frame_read,
  written_flags, state_write, bytes_eq, mrr_magic, unsupported_version,
}
use mayara_server.Recording.Format.Fixed.{HeaderFits, header_read-write, header_read_accepts}
use mayara_server.Recording.Format.Frames.{FrameFits, as_written, frame_read-write}
use mayara_server.Recording.Writer.{
  RecordingSetup, new_header, record_file, writer_new, write_frame, finish, index_write,
  writer_footer,
}
use mayara_server.Recording.Reader.{MrrReader, reader_open, seek_to_timestamp}
use mayara_server.Recording.File.Written.{Written, writer_after, writer_after-Written}
use mayara_server.Recording.File.Reads.{Reads}
use mayara_server.Recording.File.Open.{
  RecordingFits, final_footer, open-Reads, opened, open-record_file,
}
use mayara_server.Recording.File.Skip.{SoughtTo}
use mayara_server.Recording.File.Seek.{seek_to_timestamp-SoughtTo}
use mayara_server.Recording.File.Total.{seek_to_timestamp-ne-none}

abbrev setup : RecordingSetup
setup = record {
  start_time_ms = 1234567890123;
  radar_brand = 3;
  spokes_per_rev = 2048;
  max_spoke_len = 1024;
  pixel_values = 16;
  capabilities_json = b'{' ∷ b'}' ∷ [];
  initial_state_json = b'{' ∷ b'}' ∷ [];
}

abbrev first : MrrFrame
first = record { timestamp_ms = 5; flags = 0; payload = 1 ∷ 2 ∷ 3 ∷ []; state_delta = none }

abbrev second : MrrFrame
second = record { timestamp_ms = 9; flags = 0; payload = 4 ∷ []; state_delta = some (7 ∷ []) }

abbrev frames : List MrrFrame
frames = first ∷ second ∷ []

frame_bytes :
    frame_write second
    ≡ 9 ∷ 0 ∷ 0 ∷ 0 ∷ 0 ∷ 0 ∷ 0 ∷ 0 ∷ 1 ∷ 1 ∷ 0 ∷ 0 ∷ 0 ∷ 4 ∷ 1 ∷ 0 ∷ 0 ∷ 0 ∷ 7 ∷ []
unfolding frame_write state_write written_flags to_le_bytes
frame_bytes = refl

file_length : length (record_file setup frames) ≡ 256 + 4 + 16 + 19 + 32
unfolding record_file finish writer_new write_frame new_header index_write writer_footer frame_write
    header_write footer_write state_write written_flags to_le_bytes
file_length = refl

first_fits : FrameFits first
first_fits = omega arith

second_fits : FrameFits second
second_fits = omega arith

setup_fits : RecordingFits setup frames
unfolding header_write to_le_bytes frame_write state_write
setup_fits = record {
  start_fits = omega arith;
  brand_fits = omega arith;
  spokes_fits = omega arith;
  len_fits = omega arith;
  pixels_fits = omega arith;
  capabilities_fits = omega arith;
  state_fits = omega arith;
  frames_fit = (first_fits, (second_fits, tt));
  count_fits = omega arith;
  size_fits = omega arith;
}

abbrev future : MrrHeader
future = record {
  version = 2;
  flags = 0;
  radar_brand = 3;
  spokes_per_rev = 2048;
  max_spoke_len = 1024;
  pixel_values = 16;
  start_time_ms = 77;
  capabilities_offset = 256;
  capabilities_len = 2;
  initial_state_offset = 258;
  initial_state_len = 2;
  frames_offset = 260;
}

header_read-write_example :
    header_read (header_write future ++ (1 ∷ [])) ≡ err (unsupported_version 2)
header_read-write_example = header_read-write future (1 ∷ []) (omega arith)

frame_read-write_example :
    frame_read (frame_write second ++ (1 ∷ [])) ≡ ok (as_written second, 1 ∷ [])
frame_read-write_example = frame_read-write second (1 ∷ []) second_fits

open-Reads_example :
    (r : MrrReader) × (reader_open (record_file setup frames) ≡ ok r)
    × (r.header ≡ new_header setup)
    × (r.capabilities ≡ setup.capabilities_json)
    × (r.initial_state ≡ setup.initial_state_json)
    × (r.footer ≡ final_footer setup frames)
    × Reads r (map as_written frames)
open-Reads_example = open-Reads setup frames setup_fits

seek_to_timestamp-SoughtTo_example :
    SoughtTo 7 frames (seek_to_timestamp 7 (record (opened setup frames setup_fits) { pos = 0 }))
seek_to_timestamp-SoughtTo_example =
    seek_to_timestamp-SoughtTo setup frames 7 0 (opened setup frames setup_fits) setup_fits
      (omega arith) (open-record_file setup frames setup_fits)

seek_to_timestamp-ne-none_example : seek_to_timestamp 7 (opened setup frames setup_fits) ≢ none
seek_to_timestamp-ne-none_example = seek_to_timestamp-ne-none 7 (opened setup frames setup_fits)

writer_after-Written_example : Written setup frames (writer_after setup frames)
writer_after-Written_example = writer_after-Written setup frames

header_read_accepts_example :
    HeaderFits (new_header setup)
    × ((new_header setup).version ≤ 1)
    × (256 ≤ length (header_write (new_header setup)))
    × ([] ≡ drop 256 (header_write (new_header setup)))
    × (bytes_eq (take 4 (take 256 (header_write (new_header setup)))) mrr_magic ≡ true)
unfolding new_header header_write to_le_bytes header_read header_of from_le_bytes read_exact
    bytes_eq are_bytes
header_read_accepts_example =
    header_read_accepts (header_write (new_header setup)) [] (new_header setup)
      (are_bytes-All (header_write (new_header setup)) refl) refl
