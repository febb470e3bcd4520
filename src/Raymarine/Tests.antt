-- ===== src/Raymarine/Tests.antt =====
-- Runs of the Raymarine spoke and frame decoding on small inputs, and its theorems at such inputs.
use mayara_server.Common.{
  ℕ, ◌≡◌, ◌≢◌, ◌↔◌, refl, arith, true, false, List, [], ◌∷◌, ◌++◌, none, some, ok, err, length, map,
}
use mayara_server.Bytes.{from_le_bytes}
use mayara_server.Bytes.Laws.{are_bytes, are_bytes-All}
use mayara_server.Raymarine.Spoke.{
  index_out_of_bounds, stuck, samples, push_run, unpack, process_spoke, process_quantum_spoke,
}
use mayara_server.Raymarine.Spoke.Ops.{
  literal, run, encode, IsSpoke, strengths, process_spoke-IsSpoke, process_quantum_spoke-IsSpoke,
}
use mayara_server.Raymarine.Rd.{
  RaymarineReportReceiver, status_request_received, new_spoke_message, send_spoke_message,
  process_frame,
}
use mayara_server.Raymarine.Rd.Total.{process_frame-ne-stuck}
use mayara_server.Raymarine.Rd.Lines.{Line, spoke_of}
use mayara_server.Raymarine.Rd.Frames.{FrameStart, frame_bytes, process_frame-frame}
use mayara_server.Raymarine.Quantum.{frame_header, process_quantum_frame, take_spoke}
use mayara_server.Raymarine.Quantum.Frames.{TakesFrame, one_spoke, process_quantum_frame-TakesFrame}

-- A literal, and a run of three.
abbrev spoke : List ℕ
spoke = 8 ∷ 0x5c ∷ 3 ∷ 6 ∷ []

hd_spoke : process_spoke true 4 spoke 4 ≡ ok (4 ∷ 3 ∷ 3 ∷ 3 ∷ [])
unfolding process_spoke unpack samples push_run
hd_spoke = refl

nibble_spoke : process_spoke false 512 (0x21 ∷ []) 1 ≡ ok (8 ∷ 16 ∷ [])
unfolding process_spoke unpack samples
nibble_spoke = refl

-- A marker at the end, as a truncated datagram leaves it.
cut_spoke : process_spoke true 4 (8 ∷ 0x5c ∷ []) 2 ≡ err index_out_of_bounds
unfolding process_spoke unpack samples
cut_spoke = refl

process_spoke-IsSpoke_example :
    (process_spoke true 3 spoke (length spoke) ≡ ok (4 ∷ 3 ∷ 3 ∷ []))
    ↔ IsSpoke (strengths true) 3 spoke (4 ∷ 3 ∷ 3 ∷ [])
unfolding are_bytes
process_spoke-IsSpoke_example =
    process_spoke-IsSpoke true 3 spoke (4 ∷ 3 ∷ 3 ∷ []) (are_bytes-All spoke refl)

process_quantum_spoke-IsSpoke_example :
    (process_quantum_spoke 3 spoke (λ b. b) ≡ ok (8 ∷ 6 ∷ 6 ∷ []))
    ↔ IsSpoke (λ b. b ∷ []) 3 spoke (8 ∷ 6 ∷ 6 ∷ [])
process_quantum_spoke-IsSpoke_example =
    process_quantum_spoke-IsSpoke (λ b. b) 3 spoke (8 ∷ 6 ∷ 6 ∷ [])

abbrev ready : RaymarineReportReceiver
ready = record {
  state = status_request_received;
  range_meters = 1000;
  spokes_per_revolution = 250;
  events = [];
}

process_frame-ne-stuck_example : process_frame (1 ∷ 2 ∷ []) ready ≢ err stuck
process_frame-ne-stuck_example = process_frame-ne-stuck (1 ∷ 2 ∷ []) ready

abbrev start : FrameStart
start = record { zero_1 = 0; nspokes = 8; spoke_count = 0; zero_3 = 0; fieldx_4 = 0 }

abbrev line : Line
line = record {
  azimuth = 7;
  hd_type = true;
  header2 = none;
  ops = literal 8 ∷ run 3 6 ∷ [];
  padding = 0 ∷ [];
}

abbrev second_line : Line
second_line = record {
  azimuth = 8;
  hd_type = false;
  header2 = some 8;
  ops = literal 0x21 ∷ [];
  padding = [];
}

process_frame-frame_example :
    process_frame (frame_bytes start (line ∷ second_line ∷ [])) ready
    ≡ ok (record ready {
      events =
          []
          ++ (new_spoke_message ∷ map (spoke_of ready) (line ∷ second_line ∷ []))
          ++ (send_spoke_message ∷ []);
    })
unfolding encode
process_frame-frame_example =
    process_frame-frame ready start line (second_line ∷ []) refl (λ e. omega (arith, e))
      (record {
        some_spokes = omega arith;
        few_spokes = omega arith;
        same_type = λ e. omega (arith, e);
        field_fits = omega arith;
      })
      (
        record { azimuth_fits = omega arith; len_fits = omega arith; are_ops = (refl, (tt, tt)) },
        (record { azimuth_fits = omega arith; len_fits = omega arith; are_ops = (refl, tt) }, tt),
      )

-- A Quantum frame of one spoke.
abbrev quantum_frame : List ℕ
quantum_frame =
    3 ∷ 0 ∷ 0x28 ∷ 0 ∷ 1 ∷ 0 ∷ 1 ∷ 1 ∷ 3 ∷ 0 ∷ 250 ∷ 0 ∷ 8 ∷ 0 ∷ 2 ∷ 0 ∷ 5 ∷ 0 ∷ 4 ∷ 0 ∷ spoke

process_quantum_frame-TakesFrame_example :
    (process_quantum_frame (λ b. b) quantum_frame ready
      ≡ ok (one_spoke (frame_header quantum_frame) (8 ∷ 6 ∷ 6 ∷ []) ready))
    ↔ ((pixels : List ℕ) × TakesFrame (λ b. b) quantum_frame pixels
        × (one_spoke (frame_header quantum_frame) (8 ∷ 6 ∷ 6 ∷ []) ready
            ≡ one_spoke (frame_header quantum_frame) pixels ready))
unfolding frame_header from_le_bytes
process_quantum_frame-TakesFrame_example =
    process_quantum_frame-TakesFrame (λ b. b) quantum_frame ready
      (one_spoke (frame_header quantum_frame) (8 ∷ 6 ∷ 6 ∷ []) ready) refl (λ e. omega (arith, e))
      (omega arith) refl

quantum_spoke :
    process_quantum_frame (λ b. b) quantum_frame ready
    ≡ ok (one_spoke (frame_header quantum_frame) (8 ∷ 6 ∷ 6 ∷ []) ready)
unfolding process_quantum_frame take_spoke frame_header from_le_bytes process_quantum_spoke unpack
    push_run
quantum_spoke = refl
