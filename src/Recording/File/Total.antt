-- ===== src/Recording/File/Total.antt =====
-- Termination of the loops of `seek_to_timestamp`, and what any successful frame read consumes.
use Prim.Native.Nat.{bit_and}
use mayara_server.Common.{
  ℕ, zero, suc, ◌+◌, ◌-◌, ◌≤◌, ◌<◌, ◌≡◌, ◌≢◌, refl, arith, List, Option, none, some, Ensures, holds,
  Ensures-elim, Ensures-bind, Ensures-ok, Ensures-guard, Result-cases, Bool-cases, inl, inr, leb,
  ◌==◌, length, drop, length-drop, length-take, leb→le,
}
use mayara_server.Bytes.{from_le_bytes}
use mayara_server.Recording.Format.{
  IoError, MrrFrame, exactly, read_sized, state_read, frame_read, frame_too_large, state_too_large,
  max_frame_data_size, frame_flag_has_state,
}
use mayara_server.Recording.Format.Fixed.{exactly_parts}
use mayara_server.Recording.Reader.{
  MrrReader, next_frame, read_frame, best_entry, skip_frames, seek_to_timestamp,
}

-- What each read leaves, if it succeeds.
exactly_takes :
    (n : ℕ) (src : List ℕ)
    → Ensures (λ p. (length src ≡ n + length p.1) × (length p.0 ≡ n)) (exactly n src)
exactly_takes n src = holds λ p e.
    let (b, r, enough) = exactly_parts n src p.0 p.1 e in
    (rw r (omega (arith, length-drop n src)), rw b (omega (arith, length-take n src)))

read_sized_takes :
    (e : ℕ → IoError) (src : List ℕ)
    → Ensures
        (λ p. (length p.1 + 4 ≤ length src) × (length p.0 ≤ max_frame_data_size))
        (read_sized e src)
unfolding read_sized
read_sized_takes e src = Ensures-bind _ (exactly_takes 4 src) λ p h.
    Ensures-bind _ (Ensures-guard (leb (from_le_bytes p.0) max_frame_data_size) _) λ _ small.
      let q = exactly_takes (from_le_bytes p.0) p.1 in
      holds λ b e.
        let (took, long) = Ensures-elim q e in
        (omega arith, omega (arith, leb→le (from_le_bytes p.0) max_frame_data_size small))

abbrev pub StateBounded : Option (List ℕ) → Type 0
StateBounded none = Unit {0}
StateBounded (some state) = length state ≤ max_frame_data_size

state_read_takes :
    (flags : ℕ) (src : List ℕ)
    → Ensures (λ p. (length p.1 ≤ length src) × StateBounded p.0) (state_read flags src)
unfolding state_read
state_read_takes flags src = elim (Bool-cases (bit_and flags frame_flag_has_state == 0)) [
  | inl clear ↦ rw clear (Ensures-ok _ (omega arith, tt))
  | inr has ↦
      rw has (
        Ensures-bind _ (read_sized_takes state_too_large src)
          λ p h. Ensures-ok _ (omega arith, h.1))
]

-- A successful frame read takes 13 bytes at least, and its parts are within the limits.
frame_read_takes :
    (src : List ℕ)
    → Ensures
        (λ p.
          (length p.1 + 13 ≤ length src)
          × (length p.0.payload ≤ max_frame_data_size)
          × StateBounded p.0.state_delta)
        (frame_read src)
unfolding frame_read
frame_read_takes src = Ensures-bind _ (exactly_takes 8 src) λ a ha.
    Ensures-bind _ (exactly_takes 1 a.1) λ b hb.
      Ensures-bind _ (read_sized_takes frame_too_large b.1) λ c hc.
        Ensures-bind _ (state_read_takes (from_le_bytes b.0) c.1)
          λ d hd. Ensures-ok _ (omega arith, hc.1, hd.1)

-- How many bytes of the file are still ahead.
abbrev ahead : MrrReader → ℕ
ahead r = length r.content - r.pos

next_frame_advances :
    (r : MrrReader)
    → Ensures (λ p. (ahead p.1 < ahead r) × (p.1.content ≡ r.content)) (next_frame r)
unfolding next_frame
next_frame_advances r =
    Ensures-bind _ (frame_read_takes (drop r.pos r.content))
      λ p h. Ensures-ok _ (omega (arith, length-drop r.pos r.content), refl)

-- At the end the reader stays; otherwise the position moves on and the file stays.
abbrev Advances : MrrReader → Option MrrFrame → MrrReader → Type 0
Advances r none r' = r' ≡ r
Advances r (some f) r' = (ahead r' < ahead r) × (r'.content ≡ r.content)

read_frame-Advances : (r : MrrReader) → Ensures (λ p. Advances r p.0 p.1) (read_frame r)
unfolding read_frame
read_frame-Advances r = elim (Bool-cases (leb r.frames_end_offset r.pos)) [
  | inl done ↦ rw done (Ensures-ok _ refl)
  | inr more ↦
      rw more (Ensures-bind _ (next_frame_advances r) λ p h. Ensures-ok (λ q. Advances r q.0 q.1) h)
]

skip_frames-ne-none :
    (fuel target : ℕ) (r : MrrReader) → ahead r < fuel → skip_frames fuel target r ≢ none
unfolding skip_frames
skip_frames-ne-none zero target r h = λ e. absurd (omega arith)
skip_frames-ne-none (suc fuel) target r h = elim (Result-cases (read_frame r)) [
  | inl ((none, r'), e) ↦ rw (e, skip_frames) (λ p. cc)
  | inl ((some f, r'), e) ↦
      let later = skip_frames-ne-none fuel target r' in
      let fewer = (Ensures-elim (read_frame-Advances r) e).0 in
      rw (e, skip_frames) (ground (arith, later))
  | inr (x, e) ↦ rw (e, skip_frames) (λ p. cc)
]

-- `seek_to_timestamp` ends on every file, whatever its index and its offsets say.
pub seek_to_timestamp-ne-none : (target : ℕ) (r : MrrReader) → seek_to_timestamp target r ≢ none
unfolding seek_to_timestamp
seek_to_timestamp-ne-none target r =
    elim (Result-cases
      (best_entry r.footer.index_count target none (drop r.footer.index_offset r.content))) [
        | inl (best, e) ↦
            rw (e, seek_to_timestamp)
              (skip_frames-ne-none (suc (length r.content)) target _ (omega arith))
        | inr (x, e) ↦ rw (e, seek_to_timestamp) (λ p. cc)
      ]
