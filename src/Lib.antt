-- ===== src/Lib.antt =====
-- Verification library of mayara-server, a server that receives marine radars (Furuno, Raymarine,
-- Garmin and others), records what they send and shows it.
--
-- Parts and files. A radar's UDP frames come to the receiver of its brand, which decodes them to
-- spokes and hands these on to the part that all brands share (CommonRadar); frames can be recorded to
-- a file and played back from it.
-- Bytes: little-endian integers, slices and `read_exact` of the Rust standard library, on lists of
-- numbers below 256; Common: Boolean tests, native lists, results with `do`, integers.
-- Recording (src/lib/recording/file_format.rs): Recording.Format has the encodings of MrrHeader,
-- MrrFooter, MrrIndexEntry and MrrFrame (`header_write` is MrrHeader::write, and so on);
-- Recording.Writer is MrrWriter (`writer_new`, `write_frame`, `finish`), Recording.Reader is MrrReader
-- (`reader_open`, `read_frame`, `seek_to_timestamp`, `rewind`). A file is its bytes and, for the
-- reader, a position. Recording.File has what holds of a whole recording. Recording.Recorder is
-- `recording_task` of recorder.rs, turn by turn; Recording.Player is `playback_task` of player.rs as
-- steps between which other tasks may act on the handle; Recording.EndToEnd puts the three together.
-- Furuno (src/lib/brand/furuno/report.rs and protocol.rs): Furuno.Frame is `process_frame` with
-- `process_tile_frame`, Furuno.Sweep the decoders of the four sweep encodings, Furuno.Stretch is
-- `stretch_spoke`, Furuno.Wire the tables of wire ranges. A panic is an error value (Fault).
-- Raymarine (src/lib/brand/raymarine/report/rd.rs and quantum.rs): Raymarine.Rd and
-- Raymarine.Quantum are `process_frame` of the two series, Raymarine.Spoke is `process_spoke` of both.
-- Radar (src/lib/radar): Radar.Range is Range and Ranges of range.rs, with i32 distances as integers;
-- Radar.Spokes is CommonRadar of mod.rs (`add_spoke` and what it calls) with `to_protobuf_spoke` of
-- spoke.rs, Radar.Exclusion the mask of exclusion.rs, Radar.Legend `default_legend` of mod.rs.
-- Pcap (src/lib/pcap.rs): `parse_bytes` of capture files for replay, and the bytes that `write_file`
-- of its tests writes.
-- Garmin (src/lib/brand/garmin/range_table.rs): `parse` of the range table.
-- Navico (src/lib/brand/navico/report.rs): `process_frame`, `process_spoke`, `validate_header` and
-- `wire_to_legend`, on the shared `CommonRadar` of Radar/Spokes; Navico.Headers has the fields of a
-- line's header. The true heading, which navdata.rs shares between all tasks, is a field of the radar.
--
-- Bounds. u32 and u64 fields wrap where the code narrows or adds (`% 2 ^ w`), as in a release build.
-- Loops that are not structural run on fuel: one round per byte of the file or frame and one more,
-- which is enough since each round reads a byte at least; `none` and `stuck` stand for a loop that has
-- not ended, and are no values of the program.
--
-- Parameters. What a Furuno receiver reads of its radars and of the navigation data is `Env`; what any
-- receiver hands on is a list of events, which Furuno.Frame.Deliver turns into the calls of its radars; the legend of a Quantum radar is a function on bytes.
-- `bincode` reads packed structs as little-endian fields. The clocks are lists of readings, the sink
-- under a recording says which write it refuses, and what the code works out in floating point (the
-- time of a frame at a speed, the shape of an exclusion zone, the true heading kept in radians, the range of a BR24) is a function that the theorems are
-- about.
--
-- Not modelled: sockets, task scheduling and timers (I/O); the reports that set controls; the web server, JSON
-- and the GUI; the target tracker and the emulator (floating point); Garmin spokes.
pub mod Common
pub mod Bytes
pub mod Recording
pub mod Furuno
pub mod Raymarine
pub mod Pcap
pub mod Garmin
pub mod Radar
pub mod Navico
