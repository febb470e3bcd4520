-- ===== src/Recording/Format/Frames.antt =====
-- Frames, of src/lib/recording/file_format.rs: what is written is read back, with the state flag
-- set by the presence of a state delta, and takes `size` bytes.
use Prim.Native.Nat.{bit_and, bit_or}
use mayara_server.Common.{
  ℕ, ◌+◌, ◌*◌, ◌/◌, ◌%◌, ◌^◌, ◌≤◌, ◌<◌, ◌≡◌, refl, ◌∙◌, arith, List, [], ◌∷◌, ◌++◌, Option, none,
  some, ok, length, length-append, append_assoc, leb, true,
}
use mayara_server.Bytes.{to_le_bytes, from_le_bytes}
use mayara_server.Bytes.Laws.{from-to_le_bytes, length-to_le_bytes}
use mayara_server.Bytes.Bits.{bit0, set_bit0, clear_bit0}
use mayara_server.Recording.Format.{
  MrrFrame, IoError, frame_flag_has_state, max_frame_data_size, with_length, written_flags,
  state_write, frame_write, read_sized, state_read, frame_read, frame_size, state_too_large,
  frame_too_large,
}
use mayara_server.Recording.Format.Fixed.{exactly-append}

abbrev pub StateFits : Option (List ℕ) → Type 0
StateFits none = Unit {0}
StateFits (some state) = length state ≤ max_frame_data_size

-- What the widths and the reader's limits allow.
pub record FrameFits (f : MrrFrame) : Type 0 where
  pub timestamp_ms_fits : f.timestamp_ms < 2 ^ 64
  pub flags_fits : f.flags < 2 ^ 8
  pub payload_fits : length f.payload ≤ max_frame_data_size
  pub state_fits : StateFits f.state_delta

-- A frame as a reader sees it.
abbrev pub as_written : MrrFrame → MrrFrame
as_written f = record f { flags = written_flags f }

pub read_sized-with_length :
    (e : ℕ → IoError) (bytes rest : List ℕ)
    → length bytes ≤ max_frame_data_size
    → read_sized e (with_length bytes ++ rest) ≡ ok (bytes, rest)
unfolding read_sized
read_sized-with_length e bytes rest h =
    let cast : length bytes % 2 ^ 32 ≡ length bytes = omega arith in
    let value : from_le_bytes (to_le_bytes 4 (length bytes)) ≡ length bytes =
      from-to_le_bytes 4 (length bytes) (omega arith) in
    let small : leb (length bytes) max_frame_data_size ≡ true = ground arith in
    rw cast (
      rw (append_assoc (to_le_bytes 4 (length bytes)) bytes rest) (
        rw
          (exactly-append 4 (to_le_bytes 4 (length bytes)) (bytes ++ rest) (length-to_le_bytes 4 _))
          (rw value (rw small (exactly-append (length bytes) bytes rest refl)))))

-- The written flag tells whether a state delta follows.
written_flags-with :
    (b : ℕ) → b < 256 → bit_and (bit_or b frame_flag_has_state) frame_flag_has_state ≡ 1
written_flags-with b h = rw (set_bit0 b h) (bit0 (b / 2 * 2 + 1) (omega arith) ∙ omega arith)

written_flags-without : (b : ℕ) → b < 256 → bit_and (bit_and b 254) frame_flag_has_state ≡ 0
written_flags-without b h = rw (clear_bit0 b h) (bit0 (b / 2 * 2) (omega arith) ∙ omega arith)

written_flags-lt : (f : MrrFrame) → f.flags < 256 → written_flags f < 256
unfolding written_flags
written_flags-lt f h = go f.state_delta
  where
    go :
        (o : Option (List ℕ))
        → (elim o [ some state ↦ bit_or f.flags 1 | none ↦ bit_and f.flags 254 ]) < 256
    go none = rw (clear_bit0 f.flags h) (omega arith)
    go (some state) = rw (set_bit0 f.flags h) (omega arith)

state_read-write :
    (b : ℕ) (state : Option (List ℕ)) (rest : List ℕ)
    → b < 256
    → StateFits state
    → state_read
        (elim state [ some _ ↦ bit_or b 1 | none ↦ bit_and b 254 ])
        (state_write state ++ rest)
      ≡ ok (state, rest)
unfolding state_read state_write
state_read-write b none rest h fits = rw (written_flags-without b h)
state_read-write b (some state) rest h fits =
    rw (written_flags-with b h) (rw (read_sized-with_length state_too_large state rest fits))

frame_state :
    (f : MrrFrame) (rest : List ℕ)
    → FrameFits f
    → state_read (written_flags f) (state_write f.state_delta ++ rest) ≡ ok (f.state_delta, rest)
unfolding written_flags
frame_state f rest fits =
    state_read-write f.flags f.state_delta rest fits.flags_fits fits.state_fits

one_byte : (b : ℕ) → from_le_bytes (b ∷ []) ≡ b
unfolding from_le_bytes
one_byte b = omega arith

-- The tail of a written frame from the flags on, with the brackets to the right.
frame_write_regroup :
    (f : MrrFrame) (rest : List ℕ)
    → frame_write f ++ rest
      ≡ to_le_bytes 8 f.timestamp_ms
        ++ ((written_flags f ∷ [])
            ++ (with_length f.payload ++ (state_write f.state_delta ++ rest)))
unfolding frame_write
frame_write_regroup f rest = simp append_assoc

-- A frame that fits is read back as it was written, whatever follows it: only the state flag may
-- differ from the frame's own flags.
pub frame_read-write :
    (f : MrrFrame) (rest : List ℕ)
    → FrameFits f
    → frame_read (frame_write f ++ rest) ≡ ok (as_written f, rest)
unfolding frame_read
frame_read-write f rest fits = rw (frame_write_regroup f rest) (
    rw (exactly-append 8 (to_le_bytes 8 f.timestamp_ms) _ (length-to_le_bytes 8 _)) (
      rw (exactly-append 1 (written_flags f ∷ []) _ refl) (
        rw (read_sized-with_length frame_too_large f.payload _ fits.payload_fits) (
          rw (one_byte (written_flags f)) (
            rw (frame_state f rest fits)
              (rw (from-to_le_bytes 8 f.timestamp_ms fits.timestamp_ms_fits)))))))

-- `size` is the number of bytes that `write` appends.
pub length-frame_write : (f : MrrFrame) → length (frame_write f) ≡ frame_size f
unfolding frame_write frame_size state_write
length-frame_write f = go f.state_delta
  where
    front :
        (tail : List ℕ)
        → length
            (to_le_bytes 8 f.timestamp_ms ++ (written_flags f ∷ (with_length f.payload ++ tail)))
          ≡ 13 + length f.payload + length tail
    front tail =
        rw (length-append, length-to_le_bytes)
          (rw length-append (rw (length-append, length-to_le_bytes) (omega arith)))

    go :
        (o : Option (List ℕ))
        → length (
            to_le_bytes 8 f.timestamp_ms
            ++ (written_flags f ∷ (with_length f.payload ++ state_write o)))
          ≡ (elim o [
            | some state ↦ 8 + 1 + 4 + length f.payload + 4 + length state
            | none ↦ 8 + 1 + 4 + length f.payload
          ])
    go none = front [] ∙ omega arith
    go (some state) =
        front (with_length state) ∙ rw (length-append, length-to_le_bytes) (omega arith)
