-- ===== src/Raymarine/Quantum.antt =====
-- `process_frame` of src/lib/brand/raymarine/report/quantum.rs, on the receiver of the RD series.
pub mod Frames
use mayara_server.Common.{
  ℕ, ◌+◌, ◌*◌, ◌/◌, ◌%◌, ◌^◌, Bool, true, false, not, ◌&&◌, List, Result, ok, err, ◌>>=◌, length,
  drop, take, ltb, leb, ◌==◌, if◌then◌else◌,
}
use mayara_server.Bytes.{from_le_bytes, slice}
use mayara_server.Raymarine.Spoke.{
  Fault, slice_out_of_range, division_by_zero, process_quantum_spoke,
}
use mayara_server.Raymarine.Rd.{
  RaymarineReportReceiver, ReceiverState, initial, info_request_received, fixed_request_received,
  status_request_received, Event, new_spoke_message, add_spoke, send_spoke_message, emit, rotated,
}

-- The fields that are used, of 20 bytes.
pub record FrameHeader : Type 0 where
  pub scan_len : ℕ
  pub num_spokes : ℕ
  pub returns_per_range : ℕ
  pub azimuth : ℕ
  pub data_len : ℕ

abbrev pub u16_at : ℕ → List ℕ → ℕ
u16_at i bytes = from_le_bytes (slice i 2 bytes)

unfoldable pub frame_header : List ℕ → FrameHeader
frame_header bytes = record {
  scan_len = u16_at 8 bytes;
  num_spokes = u16_at 10 bytes;
  returns_per_range = u16_at 14 bytes;
  azimuth = u16_at 16 bytes;
  data_len = u16_at 18 bytes;
}

abbrev pub has_all_reports : ReceiverState → Bool
has_all_reports initial = false
has_all_reports info_request_received = false
has_all_reports fixed_request_received = false
has_all_reports status_request_received = true

abbrev pub divided : ℕ → ℕ → Result Fault ℕ
divided a b = if b == 0 then err division_by_zero else ok (a / b)

-- Behind the check of the number of spokes. `legend` is `wire_to_legend[LookupDoppler::Doppler]`.
unfoldable pub take_spoke :
    (ℕ → ℕ)
    → FrameHeader
    → ℕ
    → List ℕ
    → RaymarineReportReceiver
    → Result Fault RaymarineReportReceiver
take_spoke legend h azimuth body r = do
  spoke ← if leb h.data_len (length body) then ok (take h.data_len body) else err slice_out_of_range
  range ← divided (r.range_meters * h.scan_len % 2 ^ 32) h.returns_per_range
  pixels ← process_quantum_spoke h.scan_len spoke legend
  ok (emit send_spoke_message (emit (add_spoke range azimuth pixels) (emit new_spoke_message r)))

unfoldable pub process_quantum_frame :
    (ℕ → ℕ) → List ℕ → RaymarineReportReceiver → Result Fault RaymarineReportReceiver
process_quantum_frame legend bytes r =
    let h = frame_header bytes in
    let scan = rotated h.azimuth r.spokes_per_revolution >>= λ azimuth.
    if h.num_spokes == r.spokes_per_revolution
    then take_spoke legend h azimuth (drop 20 bytes) r
    else ok r in
    if has_all_reports r.state && leb 20 (length bytes) then scan else ok r
