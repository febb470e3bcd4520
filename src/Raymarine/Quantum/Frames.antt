-- ===== src/Raymarine/Quantum/Frames.antt =====
-- Which frames `process_frame` of src/lib/brand/raymarine/report/quantum.rs takes, and to what end.
use mayara_server.Common.{
  ℕ, ◌+◌, ◌*◌, ◌/◌, ◌%◌, ◌^◌, ◌≤◌, ◌≡◌, ◌≢◌, refl, sym, ap, ◌↔◌, arith, true, false, ◌&&◌, List, [],
  ◌∷◌, ok, >>=-eq-ok, ok_injective, length, drop, take, leb, ◌==◌, Bool-cases, inl, inr, ==_iff,
  leb→le,
}
use mayara_server.Raymarine.Spoke.{process_quantum_spoke}
use mayara_server.Raymarine.Spoke.Ops.{IsSpoke, process_quantum_spoke-IsSpoke}
use mayara_server.Raymarine.Rd.{
  RaymarineReportReceiver, status_request_received, new_spoke_message, add_spoke,
  send_spoke_message, emit,
}
use mayara_server.Raymarine.Quantum.{
  FrameHeader, frame_header, take_spoke, process_quantum_frame, has_all_reports,
}

-- What a receiver has done with a frame: one message with one spoke, turned by half a circle.
abbrev pub one_spoke : FrameHeader → List ℕ → RaymarineReportReceiver → RaymarineReportReceiver
one_spoke h pixels r =
    let range = r.range_meters * h.scan_len % 2 ^ 32 / h.returns_per_range in
    let azimuth =
      (h.azimuth % 2 ^ 16 + r.spokes_per_revolution / 2) % 2 ^ 16 % r.spokes_per_revolution in
    emit send_spoke_message (emit (add_spoke range azimuth pixels) (emit new_spoke_message r))

-- The frame is complete, its ranges are not zero, and its data encodes the pixels.
abbrev pub TakesFrame : (ℕ → ℕ) → List ℕ → List ℕ → Type 0
TakesFrame legend bytes pixels =
    let h = frame_header bytes in
    (h.data_len ≤ length (drop 20 bytes))
    × (h.returns_per_range ≢ 0)
    × IsSpoke (λ b. legend b ∷ []) h.scan_len (take h.data_len (drop 20 bytes)) pixels

take_spoke-TakesFrame :
    (legend : ℕ → ℕ) (h : FrameHeader) (azimuth : ℕ) (body : List ℕ)
    (r r' : RaymarineReportReceiver)
    → (take_spoke legend h azimuth body r ≡ ok r') ↔ (
        (pixels : List ℕ) × ((h.data_len ≤ length body)
          × (h.returns_per_range ≢ 0)
          × IsSpoke (λ b. legend b ∷ []) h.scan_len (take h.data_len body) pixels)
        × (r'
            ≡ emit send_spoke_message (
                emit
                  (add_spoke
                    (r.range_meters * h.scan_len % 2 ^ 32 / h.returns_per_range)
                    azimuth
                    pixels)
                  (emit new_spoke_message r))))
unfolding take_spoke
take_spoke-TakesFrame legend h azimuth body r r' =
    let spoke = take h.data_len body in
    elim (Bool-cases (leb h.data_len (length body))) [
      | inr short ↦ rw short (
        (λ e. cc),
        λ (pixels, (enough, per, encoded), is). absurd (ground (arith, enough, short)),
      )
      | inl whole ↦ rw whole (elim (Bool-cases (h.returns_per_range == 0)) [
        | inl none_per ↦ rw none_per (
          (λ e. cc),
          λ (pixels, (enough, per, encoded), is). absurd (per ((==_iff _ _).0 none_per)),
        )
        | inr some_per ↦ rw some_per (
          λ e.
              let (pixels, decoded, is) =
                >>=-eq-ok (process_quantum_spoke h.scan_len spoke legend) _ e in
              (
                pixels,
                (
                  leb→le _ _ whole,
                  (λ z. absurd (ground (arith, some_per, z))),
                  (process_quantum_spoke-IsSpoke legend h.scan_len spoke pixels).0 decoded,
                ),
                sym (ok_injective is),
              ),
          λ (pixels, (enough, per, encoded), is).
              rw ((process_quantum_spoke-IsSpoke legend h.scan_len spoke pixels).1 encoded)
                (ap ok (sym is)),
        )
      ])
    ]

-- A receiver that has seen all reports takes a frame with its own number of spokes exactly if the
-- frame holds the data that it announces, its returns per range are not zero and its data encodes a
-- spoke; then it hands on that one spoke. On every other such frame it panics.
pub process_quantum_frame-TakesFrame :
    (legend : ℕ → ℕ) (bytes : List ℕ) (r r' : RaymarineReportReceiver)
    → r.state ≡ status_request_received
    → r.spokes_per_revolution ≢ 0
    → 20 ≤ length bytes
    → (frame_header bytes).num_spokes ≡ r.spokes_per_revolution
    → (process_quantum_frame legend bytes r ≡ ok r') ↔ (
        (pixels : List ℕ) × TakesFrame legend bytes pixels
        × (r' ≡ one_spoke (frame_header bytes) pixels r))
unfolding process_quantum_frame
process_quantum_frame-TakesFrame legend bytes r r' ready spokes long same =
    let enough : leb 20 (length bytes) ≡ true = ground (arith, long) in
    let turns : (r.spokes_per_revolution == 0) ≡ false = ground (arith, spokes) in
    let own : ((frame_header bytes).num_spokes == r.spokes_per_revolution) ≡ true =
      (==_iff _ _).1 same in
    let all : (has_all_reports r.state && leb 20 (length bytes)) ≡ true = rw (ready, enough) refl in
    rw all
      (rw turns (rw own (take_spoke-TakesFrame legend (frame_header bytes) _ (drop 20 bytes) r r')))
