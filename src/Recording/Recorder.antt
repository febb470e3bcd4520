-- ===== src/Recording/Recorder.antt =====
-- src/lib/recording/recorder.rs: the numbers of the brands, the handle of an active recording and
-- `recording_task`, which writes the messages of a radar to a file until it is stopped.
pub mod Task
use mayara_server.Common.{
  ℕ, ◌+◌, ◌%◌, Bool, true, false, not, List, [], ◌∷◌, Option, none, some, ◌==◌, if◌then◌else◌,
}
use mayara_server.Recording.Format.{MrrFrame, frame_new, frame_size}
use mayara_server.Recording.Writer.{
  MrrWriter, RecordingSetup, u32, u64, writer_new, write_frame, finish,
}

pub data Brand : Type 0 where
  furuno garmin navico raymarine emulator playback : Brand

unfoldable pub brand_to_id : Brand → ℕ
brand_to_id furuno = 1
brand_to_id garmin = 2
brand_to_id navico = 3
brand_to_id raymarine = 4
brand_to_id emulator = 5
brand_to_id playback = 6

unfoldable pub id_to_brand : ℕ → Option Brand
id_to_brand id =
    if id == 1
    then some furuno
    else if id == 2
    then some garmin
    else if id == 3
    then some navico
    else if id == 4
    then some raymarine
    else if id == 5
    then some emulator
    else if id == 6
    then some playback
    else none

-- The atomics that the task shares with the handle.
pub record ActiveRecording : Type 0 where
  pub stop_flag : Bool
  pub frame_count : ℕ
  pub duration_ms : ℕ
  pub size_bytes : ℕ

unfoldable pub stop : ActiveRecording → ActiveRecording
stop a = record a { stop_flag = true }

unfoldable pub is_running : ActiveRecording → Bool
is_running a = not a.stop_flag

-- What the receiver of the broadcast channel gives within 100 ms.
pub data Received : Type 0 where
  message : List ℕ → Received
  lagged : ℕ → Received
  closed timed_out : Received

-- One turn of the loop: whether the handle was stopped before it, what came, and the clock then.
pub data Turn : Type 0 where
  turn_of : Bool → Received → ℕ → Turn

pub record RecordingTask : Type 0 where
  pub writer : MrrWriter
  pub frames : ℕ
  pub approx_size : ℕ
  pub active : ActiveRecording

-- The sink under the writer: `some` is the writer that a refused write leaves behind.
abbrev pub Sink : Type 0
Sink = MrrWriter → MrrFrame → Option MrrWriter

abbrev pub takes_all : Sink
takes_all w f = none

unfoldable pub publish : ℕ → RecordingTask → RecordingTask
publish ms t = record t {
  active = record t.active { frame_count = t.frames; duration_ms = ms; size_bytes = t.approx_size };
}

-- A message that has come: whether the loop goes on, and the state after it.
unfoldable pub take_message : Sink → List ℕ → ℕ → RecordingTask → Bool × RecordingTask
take_message sink payload ms t =
    let frame = frame_new (u64 ms) payload in
    let size = u64 (t.approx_size + frame_size frame) in
    elim (sink t.writer frame) [
      | some w ↦ (false, record t { writer = w; approx_size = size })
      | none ↦
          let counted : RecordingTask = record t {
            writer = write_frame t.writer frame;
            frames = u32 (t.frames + 1);
            approx_size = size;
          } in
          (true, if counted.frames % 10 == 0 then publish (u64 ms) counted else counted)
    ]

-- The loop over the turns that are given: `none` is a loop that has not ended with the last.
unfoldable pub recording_loop : Sink → List Turn → RecordingTask → Option RecordingTask
recording_loop sink [] t = none
recording_loop sink (turn_of stopped received elapsed_ms ∷ turns) t₀ =
    let t : RecordingTask = elim stopped [
      | true ↦ record t₀ { active = stop t₀.active }
      | false ↦ t₀
    ] in
    elim t.active.stop_flag [
      | true ↦ some t
      | false ↦ elim received [
        | message payload ↦
            let (goes_on, t') = take_message sink payload elapsed_ms t in
            elim goes_on [ true ↦ recording_loop sink turns t' | false ↦ some t' ]
        | lagged n ↦ recording_loop sink turns t
        | closed ↦ some t
        | timed_out ↦ recording_loop sink turns t
      ]
    ]

-- What is left when the task is over: the file and the shared values.
pub record Recorded : Type 0 where
  pub file : List ℕ
  pub active : ActiveRecording

unfoldable pub new_active : ActiveRecording
new_active = record { stop_flag = false; frame_count = 0; duration_ms = 0; size_bytes = 0 }

-- The end of the task, at the time `final_ms`.
unfoldable pub end_recording : ℕ → RecordingTask → Recorded
end_recording final_ms t = record {
  file = finish t.writer;
  active = stop (publish (u64 final_ms) t).active;
}

unfoldable pub recording_task : Sink → RecordingSetup → List Turn → ℕ → Option Recorded
recording_task sink setup turns final_ms =
    elim (recording_loop sink turns
      (record { writer = writer_new setup; frames = 0; approx_size = 0; active = new_active })) [
        | none ↦ none
        | some t ↦ some (end_recording final_ms t)
      ]
