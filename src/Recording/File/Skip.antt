-- ===== src/Recording/File/Skip.antt =====
-- The two loops of `seek_to_timestamp` of src/lib/recording/file_format.rs: over the index, and over
-- the frames.
use mayara_server.Common.{
  ℕ, zero, suc, ◌≤◌, ◌<◌, ◌≡◌, ◌⊎◌, refl, ap, arith, List, [], ◌∷◌, ◌++◌, append_assoc, Option,
  some, Result, ok, length, map, leb, leb→le, Bool-cases, inl, inr,
}
use mayara_server.Bytes.{All}
use mayara_server.Bytes.Laws.{All-map}
use mayara_server.Recording.Format.{
  frame_write, MrrFrame, MrrIndexEntry, IoError, index_entry_write,
}
use mayara_server.Recording.Format.Fixed.{EntryFits, index_entry_read-write}
use mayara_server.Recording.Format.Frames.{FrameFits, as_written}
use mayara_server.Recording.Writer.{index_write}
use mayara_server.Recording.Reader.{MrrReader, best_entry, skip_frames}
use mayara_server.Recording.File.Reads.{
  At, Reads, Reads-At, forward, read_frame-At, read_frame-At_end, forward-At,
}

-- The frames' times never go back.
abbrev pub Ascending : List MrrFrame → Type 0
Ascending [] = Unit {0}
Ascending (f ∷ fs) = All (λ g. f.timestamp_ms ≤ g.timestamp_ms) fs × Ascending fs

-- Where a scan of index entries may end: where it began, or at an entry in time that meets `P`.
abbrev pub Best {κ} :
    (MrrIndexEntry → Type κ) → ℕ → Option MrrIndexEntry → Option MrrIndexEntry → Type κ
Best P target start best =
    (best ≡ start) ⊎ ((e : MrrIndexEntry) × (best ≡ some e) × (e.timestamp_ms ≤ target) × P e)

pub best_entry-index {κ} :
    (P : MrrIndexEntry → Type κ) (es : List MrrIndexEntry) (rest : List ℕ) (target : ℕ)
    (start : Option MrrIndexEntry)
    → All EntryFits es
    → All P es
    → (best : Option MrrIndexEntry) × (best_entry (length es) target start (index_write es ++ rest)
        ≡ ok best)
      × Best P target start best
unfolding best_entry index_write
best_entry-index P [] rest target start fits ps = (start, refl, inl refl)
best_entry-index P (e ∷ es) rest target start fits ps =
    let read = index_entry_read-write e (index_write es ++ rest) fits.0 in
    let (best, found, good) = best_entry-index P es rest target (some e) fits.1 ps.1 in
    elim (Bool-cases (leb e.timestamp_ms target)) [
      | inl early ↦ (
        best,
        rw (append_assoc (index_entry_write e)) (rw read (rw early found)),
        elim good [
          | inl same ↦ inr (e, same, leb→le e.timestamp_ms target early, ps.0)
          | inr other ↦ inr other
        ],
      )
      | inr late ↦ (start, rw (append_assoc (index_entry_write e)) (rw read (rw late)), inl refl)
    ]

-- What a seek leaves: a split of the frames at the target, and a reader before the second part.
abbrev pub SoughtTo : ℕ → List MrrFrame → Option (Result IoError MrrReader) → Type 0
SoughtTo target fs outcome =
    (r : MrrReader) × (outcome ≡ some (ok r))
    × (before : List MrrFrame) × (after : List MrrFrame) × (fs ≡ before ++ after)
    × All (λ f. f.timestamp_ms ≤ target) before
    × All (λ f. target ≤ f.timestamp_ms) after
    × Reads r (map as_written after)

pub skip_frames-At :
    (fuel target : ℕ) (r : MrrReader) (before : List ℕ) (fs : List MrrFrame) (after : List ℕ)
    → length fs < fuel
    → Ascending fs
    → All FrameFits fs
    → At r before fs after
    → SoughtTo target fs (skip_frames fuel target r)
unfolding skip_frames
skip_frames-At zero target r before fs after h asc fits at_ = absurd (omega arith)
skip_frames-At (suc fuel) target r before [] after h asc fits at_ = (
  r,
  rw (read_frame-At_end r before after at_, skip_frames),
  [],
  [],
  refl,
  tt,
  tt,
  read_frame-At_end r before after at_,
)
skip_frames-At (suc fuel) target r before (f ∷ fs) after h asc fits at_ =
    let read = read_frame-At r before f fs after fits.0 at_ in
    let (r', found, pre, post, split, low, high, reads) =
      skip_frames-At fuel target (forward r f) (before ++ frame_write f) fs after (omega arith)
        asc.1 fits.1 (forward-At r before f fs after at_) in
    elim (Bool-cases (leb target f.timestamp_ms)) [
      | inl here ↦ (
        r,
        rw (read, skip_frames) (rw here),
        [],
        f ∷ fs,
        refl,
        tt,
        (
          leb→le target f.timestamp_ms here,
          All-map _ _ fs (λ g le. omega (arith, leb→le target f.timestamp_ms here)) asc.0,
        ),
        Reads-At r before (f ∷ fs) after fits at_,
      )
      | inr early ↦ (
        r',
        rw (read, skip_frames) (rw early found),
        f ∷ pre,
        post,
        ap (λ gs. f ∷ gs) split,
        (ground arith, low),
        high,
        reads,
      )
    ]
