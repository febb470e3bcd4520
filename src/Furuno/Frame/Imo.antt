-- ===== src/Furuno/Frame/Imo.antt =====
-- IMO echo frames of src/lib/brand/furuno/report.rs: which frames are decoded without a panic,
-- which are not, and what is handed on.
use Prim.Native.Nat.{bit_and}
use mayara_server.Common.{
  ℕ, zero, suc, ◌/◌, ◌%◌, ◌^◌, ◌≤◌, ◌<◌, ◌≡◌, ◌≢◌, refl, sym, ap, ◌∙◌, arith, Bool, true, false,
  ◌&&◌, List, [], ◌∷◌, ◌++◌, ok, err, length, length-drop, drop, get_or, ltb, leb, ◌==◌, Bool-cases,
  inl, inr, length-append,
}
use mayara_server.Bytes.{IsByte, All}
use mayara_server.Bytes.Bits.{bits_3_4}
use mayara_server.Bytes.Laws.{All-drop, drop-length_append}
use mayara_server.Furuno.Sweep.{
  decode_1_loop, decode_3_loop, decode_sweep_encoding_0, decode_sweep_encoding_1,
  decode_sweep_encoding_3,
}
use mayara_server.Furuno.Sweep.Bounds.{Decoded, decoders-Decoded}
use mayara_server.Furuno.Frame.{
  slice_out_of_range, FurunoSpokeMetadata, Env, new_spoke_message, send_spoke_message, Receiver,
  history, emit, angle_of, parse_metadata_header, decode_sweep, padded, take_sweep, process_sweeps,
  process_imo_frame, process_frame, header_word,
}
use mayara_server.Furuno.Frame.Tile.{process_tile_frame_ok}
use mayara_server.Furuno.Protocol.{frame_magic, tile_magic}

-- A decoded sweep that ends within the bytes, at a multiple of four.
abbrev Within : FurunoSpokeMetadata → Bool → List ℕ → List ℕ → Type 0
Within m first prev body =
    (spoke : List ℕ) × (used : ℕ) × (decode_sweep m first prev body ≡ ok (spoke, used))
    × (used ≤ length body)
    × (used % 4 ≡ 0)

Decoded-Within :
    (m : FurunoSpokeMetadata) (first : Bool) (prev body : List ℕ) (out : List ℕ × ℕ)
    → length body % 4 ≡ 0
    → Decoded m.sweep_len (length body) out
    → decode_sweep m first prev body ≡ ok out
    → Within m first prev body
Decoded-Within m first prev body out h d e = (out.0, out.1, e, omega arith, d.multiple)

decode_sweep-Within :
    (m : FurunoSpokeMetadata) (first : Bool) (prev body : List ℕ)
    → m.encoding ≤ 3
    → All IsByte body
    → length body % 4 ≡ 0
    → Within m first prev body
unfolding decode_sweep decode_sweep_encoding_0
decode_sweep-Within m first prev body small bytes h =
    let (one, two, three) = decoders-Decoded body prev m.sweep_len bytes in
    elim (Bool-cases (m.encoding == 0)) [
      | inl e ↦ (body, length body, rw e, omega arith, h)
      | inr e ↦ elim (Bool-cases (m.encoding == 1)) [
        | inl e₁ ↦ Decoded-Within m first prev body _ h one (rw (e, e₁))
        | inr e₁ ↦ elim (Bool-cases (m.encoding == 2)) [
          | inl e₂ ↦ elim (Bool-cases first) [
            | inl f ↦ Decoded-Within m first prev body _ h one (rw (e, e₁, e₂, f))
            | inr f ↦ Decoded-Within m first prev body _ h two (rw (e, e₁, e₂, f))
          ]
          | inr e₂ ↦
              let e₃ : (m.encoding == 3) ≡ true = ground arith in
              Decoded-Within m first prev body _ h three (rw (e, e₁, e₂, e₃))
        ]
      ]
    ]

process_sweeps_ok :
    (env : Env) (b : Bool) (m : FurunoSpokeMetadata) (left : ℕ) (first : Bool) (sweep : List ℕ)
    (r : Receiver)
    → m.encoding ≤ 3
    → All IsByte sweep
    → length sweep % 4 ≡ 0
    → (r' : Receiver) × (process_sweeps env b m left first sweep r ≡ ok r')
unfolding process_sweeps
process_sweeps_ok env b m zero first sweep r small bytes h = (r, refl)
process_sweeps_ok env b m (suc left) first sweep r small bytes h =
    elim (Bool-cases (ltb (length sweep) 5)) [
      | inl short ↦ (r, rw short)
      | inr long ↦
          let body = drop 4 sweep in
          let four : length body % 4 ≡ 0 = omega (arith, length-drop 4 sweep, h) in
          let (spoke, used, decoded, fits, multiple) =
            decode_sweep-Within m first (history b r).prev_spoke body small
              (All-drop IsByte 4 sweep bytes) four in
          let cut : leb used (length body) ≡ true = ground arith in
          let angle = angle_of (get_or sweep 1 0) (get_or sweep 0 0) in
          let heading = angle_of (get_or sweep 3 0) (get_or sweep 2 0) in
          let (r', rest) =
            process_sweeps_ok env b m left false (drop used body)
              (take_sweep env b m angle heading (padded m.sweep_len spoke) r) small
              (All-drop IsByte used body (All-drop IsByte 4 sweep bytes))
              (omega (arith, length-drop used body, four, multiple, fits)) in
          (r', rw long (rw decoded (rw cut rest)))
    ]

encoding-le : (x : ℕ) → x < 256 → bit_and x 0x18 / 8 ≤ 3
encoding-le x h = rw (bits_3_4 x h) (omega arith)

get_or-IsByte : (bytes : List ℕ) (i : ℕ) → All IsByte bytes → get_or bytes i 0 < 256
get_or-IsByte [] i h = omega arith
get_or-IsByte (b ∷ bs) zero h = h.0
get_or-IsByte (b ∷ bs) (suc i) h = get_or-IsByte bs i h.1

parse_metadata_header-encoding :
    (env : Env) (bytes : List ℕ) → All IsByte bytes → (parse_metadata_header env bytes).encoding ≤ 3
unfolding parse_metadata_header
parse_metadata_header-encoding env bytes h =
    encoding-le (get_or bytes 11 0) (get_or-IsByte bytes 11 h)

process_imo_frame_ok :
    (env : Env) (bytes : List ℕ) (r : Receiver)
    → All IsByte bytes
    → length bytes % 4 ≡ 0
    → (r' : Receiver) × (process_imo_frame env bytes r ≡ ok r')
unfolding process_imo_frame
process_imo_frame_ok env bytes r h four =
    let m = parse_metadata_header env bytes in
    let b = m.radar_no == 1 && env.has_range_b in
    let (r', done) =
      process_sweeps_ok env b m m.sweep_count true (drop 16 bytes)
        (emit (new_spoke_message b ∷ []) r) (parse_metadata_header-encoding env bytes h)
        (All-drop IsByte 16 bytes h) (omega (arith, length-drop 16 bytes, four)) in
    (emit (send_spoke_message b ∷ []) r', rw done)

-- A frame whose length is a multiple of four is processed without a panic, whatever it holds.
pub process_frame_ok :
    (env : Env) (bytes : List ℕ) (r : Receiver)
    → All IsByte bytes
    → length bytes % 4 ≡ 0
    → (r' : Receiver) × (process_frame env bytes r ≡ ok r')
unfolding process_frame
process_frame_ok env bytes r h four = elim (Bool-cases (ltb (length bytes) 16)) [
  | inl short ↦ (r, rw short)
  | inr long ↦ rw long (elim (Bool-cases (header_word bytes / 2 ^ 29 == tile_magic)) [
    | inl tile ↦ rw tile (process_tile_frame_ok env bytes r)
    | inr other ↦ rw other (elim (Bool-cases (get_or bytes 0 0 == frame_magic)) [
      | inl imo ↦ rw imo (process_imo_frame_ok env bytes r h four)
      | inr junk ↦ (r, rw junk)
    ])
  ])
]

-- One byte of echo data counts as four.
one_byte_1 : (sweep_len b : ℕ) → 1 ≤ sweep_len → (decode_sweep_encoding_1 (b ∷ []) sweep_len).1 ≡ 4
unfolding decode_sweep_encoding_1 decode_1_loop
one_byte_1 sweep_len b h = ground arith

one_byte_3 :
    (sweep_len b : ℕ) (prev : List ℕ)
    → 1 ≤ sweep_len
    → (decode_sweep_encoding_3 (b ∷ []) prev sweep_len).1 ≡ 4
unfolding decode_sweep_encoding_3 decode_3_loop
one_byte_3 sweep_len b prev h = ground arith

one_byte_decoded :
    (m : FurunoSpokeMetadata) (prev : List ℕ) (b : ℕ)
    → 1 ≤ m.encoding
    → m.encoding ≤ 3
    → 1 ≤ m.sweep_len
    → (spoke : List ℕ) × (decode_sweep m true prev (b ∷ []) ≡ ok (spoke, 4))
unfolding decode_sweep
one_byte_decoded m prev b lo hi long =
    let zero : (m.encoding == 0) ≡ false = ground arith in
    let one = one_byte_1 m.sweep_len b long in
    let three = one_byte_3 m.sweep_len b prev long in
    elim (Bool-cases (m.encoding == 1)) [
      | inl e ↦ (
        (decode_sweep_encoding_1 (b ∷ []) m.sweep_len).0,
        rw (zero, e) (λ i. ok ((decode_sweep_encoding_1 (b ∷ []) m.sweep_len).0, one i)),
      )
      | inr e ↦ elim (Bool-cases (m.encoding == 2)) [
        | inl e₂ ↦ (
          (decode_sweep_encoding_1 (b ∷ []) m.sweep_len).0,
          rw (zero, e, e₂) (λ i. ok ((decode_sweep_encoding_1 (b ∷ []) m.sweep_len).0, one i)),
        )
        | inr e₂ ↦
            let e₃ : (m.encoding == 3) ≡ true = ground arith in
            (
              (decode_sweep_encoding_3 (b ∷ []) prev m.sweep_len).0,
              rw (zero, e, e₂, e₃)
                  (λ i. ok ((decode_sweep_encoding_3 (b ∷ []) prev m.sweep_len).0, three i)),
            )
      ]
    ]

process_sweeps_panics :
    (env : Env) (is_b : Bool) (m : FurunoSpokeMetadata) (count a₀ a₁ h₀ h₁ b : ℕ) (r : Receiver)
    → 1 ≤ count
    → 1 ≤ m.encoding
    → m.encoding ≤ 3
    → 1 ≤ m.sweep_len
    → process_sweeps env is_b m count true (a₀ ∷ a₁ ∷ h₀ ∷ h₁ ∷ b ∷ []) r ≡ err slice_out_of_range
unfolding process_sweeps
process_sweeps_panics env is_b m zero a₀ a₁ h₀ h₁ b r some_left lo hi long = absurd (omega arith)
process_sweeps_panics env is_b m (suc left) a₀ a₁ h₀ h₁ b r some_left lo hi long =
    let (spoke, decoded) = one_byte_decoded m (history is_b r).prev_spoke b lo hi long in rw decoded

-- An IMO frame with one byte of echo data in its first sweep: a header of 16 bytes that is no Tile
-- header, announces a sweep of some length in encoding 1, 2 or 3, the sweep's four bytes and one
-- byte. The decoder rounds the one byte that it used up to four, and the slice panics.
pub process_frame_panics :
    (env : Env) (header : List ℕ) (a₀ a₁ h₀ h₁ b : ℕ) (r : Receiver)
    → length header ≡ 16
    → let bytes = header ++ (a₀ ∷ a₁ ∷ h₀ ∷ h₁ ∷ b ∷ []) in
      let m = parse_metadata_header env bytes in
      (header_word bytes / 2 ^ 29 ≢ tile_magic)
      → get_or bytes 0 0 ≡ frame_magic
      → 1 ≤ m.encoding
      → m.encoding ≤ 3
      → 1 ≤ m.sweep_count
      → 1 ≤ m.sweep_len
      → process_frame env bytes r ≡ err slice_out_of_range
unfolding process_frame process_imo_frame
process_frame_panics env header a₀ a₁ h₀ h₁ b r len not_tile magic lo hi count long =
    let bytes = header ++ (a₀ ∷ a₁ ∷ h₀ ∷ h₁ ∷ b ∷ []) in
    let m = parse_metadata_header env bytes in
    let is_b = m.radar_no == 1 && env.has_range_b in
    let enough : ltb (length bytes) 16 ≡ false =
      ground (arith, length-append header (a₀ ∷ a₁ ∷ h₀ ∷ h₁ ∷ b ∷ []), len) in
    let other : (header_word bytes / 2 ^ 29 == tile_magic) ≡ false = ground arith in
    let imo : (get_or bytes 0 0 == frame_magic) ≡ true = ground arith in
    let sweep : drop 16 bytes ≡ a₀ ∷ a₁ ∷ h₀ ∷ h₁ ∷ b ∷ [] =
      ap (λ (n : ℕ). drop n bytes) (sym len) ∙ drop-length_append header _ in
    rw enough (
      rw other (
        rw imo (
          rw sweep (
            rw (
              process_sweeps_panics env is_b m m.sweep_count a₀ a₁ h₀ h₁ b
                (emit (new_spoke_message is_b ∷ []) r) count lo hi long)))))
