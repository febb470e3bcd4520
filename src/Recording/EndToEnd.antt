-- ===== src/Recording/EndToEnd.antt =====
-- src/lib/recording/ as a whole: recorder.rs writes a file that file_format.rs opens and player.rs
-- plays.
use mayara_server.Common.{
  ℕ, ◌≡◌, refl, ap, ◌∙◌, true, false, List, [], ◌∷◌, Option, none, some, map,
}
use mayara_server.Recording.Format.{frame_new, written_flags}
use mayara_server.Recording.Format.Frames.{as_written}
use mayara_server.Recording.Writer.{RecordingSetup, record_file}
use mayara_server.Recording.File.Reads.{Reads}
use mayara_server.Recording.File.Open.{RecordingFits, open-Reads}
use mayara_server.Recording.Recorder.{
  Turn, turn_of, message, lagged, closed, timed_out, takes_all, recording_task,
}
use mayara_server.Recording.Recorder.Task.{some_last, heard, recording_task-record_file}
use mayara_server.Recording.Player.{Surroundings}
use mayara_server.Recording.Player.Playing.{
  Punctual, Ended, position_after, payloads, run, resumed, resumed-Ended,
}

as_written-frame_new :
    (ms : ℕ) (payload : List ℕ) → as_written (frame_new ms payload) ≡ frame_new ms payload
unfolding frame_new written_flags
as_written-frame_new ms payload = refl

as_written-heard : (turns : List Turn) → map as_written (heard turns) ≡ heard turns
unfolding heard
as_written-heard [] = refl
as_written-heard (turn_of true received ms ∷ turns) = refl
as_written-heard (turn_of false closed ms ∷ turns) = refl
as_written-heard (turn_of false (lagged n) ms ∷ turns) = as_written-heard turns
as_written-heard (turn_of false timed_out ms ∷ turns) = as_written-heard turns
as_written-heard (turn_of false (message payload) ms ∷ turns) =
    rw (as_written-heard turns, as_written-frame_new) refl

-- The data of the messages before the turn at which the recording is stopped or its channel closed.
abbrev pub messages : List Turn → List (List ℕ)
messages [] = []
messages (turn_of true received ms ∷ turns) = []
messages (turn_of false closed ms ∷ turns) = []
messages (turn_of false (message payload) ms ∷ turns) = payload ∷ messages turns
messages (turn_of false received ms ∷ turns) = messages turns

payloads-heard : (turns : List Turn) → payloads (heard turns) ≡ messages turns
unfolding heard frame_new
payloads-heard [] = refl
payloads-heard (turn_of true received ms ∷ turns) = refl
payloads-heard (turn_of false closed ms ∷ turns) = refl
payloads-heard (turn_of false (lagged n) ms ∷ turns) = payloads-heard turns
payloads-heard (turn_of false timed_out ms ∷ turns) = payloads-heard turns
payloads-heard (turn_of false (message payload) ms ∷ turns) =
    ap (λ xs. payload ∷ xs) (payloads-heard turns)

-- The file that a recording leaves at its path.
abbrev pub recorded_file : RecordingSetup → List Turn → ℕ → Option (List ℕ)
recorded_file setup turns final_ms = elim (recording_task takes_all setup turns final_ms) [
  | none ↦ none
  | some recorded ↦ some recorded.file
]

-- A recording that fits its fields and is stopped leaves a file; a playback of that file which is
-- resumed, not disturbed, and reads each frame at most 100 ms before its time, sends again the data
-- of exactly the messages that were received before the stop, in order, and ends.
pub recorded-played :
    (setup : RecordingSetup) (turns : List Turn) (final_ms : ℕ) (s : Surroundings) (n₁ n₂ n₃ n₄ : ℕ)
    (nows : List ℕ)
    → some_last turns ≡ true
    → RecordingFits setup (heard turns)
    → s.open_file ≡ recorded_file setup turns final_ms
    → Punctual s 100 n₄ none (heard turns) nows
    → Ended
        (position_after 0 (heard turns))
        (messages turns)
        (run s (n₁ ∷ n₂ ∷ n₃ ∷ n₄ ∷ nows) resumed)
recorded-played setup turns final_ms s n₁ n₂ n₃ n₄ nows ends fits file on =
    let (r, opens, header, capabilities, state, footer, reads) =
      open-Reads setup (heard turns) fits in
    let again : Reads r (heard turns) = rw (as_written-heard turns) at reads in
    let left : recorded_file setup turns final_ms ≡ some (record_file setup (heard turns)) =
      rw (recording_task-record_file setup turns final_ms ends, recorded_file) refl in
    rw (payloads-heard turns) at (
      resumed-Ended s (record_file setup (heard turns)) r (heard turns) n₁ n₂ n₃ n₄ nows
        (file ∙ left) opens again on)
