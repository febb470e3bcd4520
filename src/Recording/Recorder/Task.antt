-- ===== src/Recording/Recorder/Task.antt =====
-- `recording_task` of src/lib/recording/recorder.rs: that it ends when it is stopped, and the file
-- it leaves, as the file format describes it.
use mayara_server.Common.{
  ℕ, ◌+◌, ◌%◌, ◌≡◌, ◌≢◌, ◌↔◌, refl, ap, ◌∙◌, arith, Bool, true, false, List, [], ◌∷◌, Option, none,
  some, length, length-append, ◌==◌, Bool-cases, Option-cases, inl, inr,
}
use mathlib.Core.List.{foldl}
use mayara_server.Recording.Format.{MrrFrame, frame_new, frame_size, frame_write}
use mayara_server.Recording.Format.Frames.{length-frame_write}
use mayara_server.Recording.Writer.{RecordingSetup, u32, u64, writer_new, write_frame, record_file}
use mayara_server.Recording.File.Written.{body}
use mayara_server.Recording.Recorder.{
  Brand, furuno, garmin, navico, raymarine, emulator, playback, brand_to_id, id_to_brand, Turn,
  turn_of, message, lagged, closed, timed_out, Sink, takes_all, RecordingTask, publish, stop,
  take_message, recording_loop, recording_task, end_recording, new_active,
}

-- The number of a brand leads back to it, and a number leads to a brand only if it is its number.
pub id_to_brand_iff : (id : ℕ) (b : Brand) → (id_to_brand id ≡ some b) ↔ (brand_to_id b ≡ id)
unfolding id_to_brand brand_to_id
id_to_brand_iff id b = (λ e. ground (arith, e), back b)
  where
    back : (b : Brand) → brand_to_id b ≡ id → id_to_brand id ≡ some b
    back furuno e = rw (← e)
    back garmin e = rw (← e)
    back navico e = rw (← e)
    back raymarine e = rw (← e)
    back emulator e = rw (← e)
    back playback e = rw (← e)

-- The turn ends the loop, if no write fails: the handle is stopped, or the channel is closed.
abbrev pub is_last : Turn → Bool
is_last (turn_of true received ms) = true
is_last (turn_of false closed ms) = true
is_last (turn_of false received ms) = false

abbrev pub some_last : List Turn → Bool
some_last [] = false
some_last (turn ∷ turns) = elim (is_last turn) [ true ↦ true | false ↦ some_last turns ]

-- The frames of the messages that come before the turn that ends the loop.
unfoldable pub heard : List Turn → List MrrFrame
heard [] = []
heard (turn_of true received ms ∷ turns) = []
heard (turn_of false closed ms ∷ turns) = []
heard (turn_of false (message payload) ms ∷ turns) = frame_new (u64 ms) payload ∷ heard turns
heard (turn_of false received ms ∷ turns) = heard turns

-- A task whose writer has taken more frames, and whose counters follow.
record Took (t : RecordingTask) (n m : ℕ) (fs : List MrrFrame) (t' : RecordingTask) : Type 0 where
  writer_is : t'.writer ≡ foldl write_frame t.writer fs
  frames_is : t'.frames ≡ u32 (n + length fs)
  size_is : t'.approx_size ≡ u64 (m + length (body fs))

took : List ℕ → ℕ → RecordingTask → RecordingTask
took payload ms t = (take_message takes_all payload ms t).1

take_message-Took :
    (payload : List ℕ) (ms n m : ℕ) (t : RecordingTask)
    → t.frames ≡ u32 n
    → t.approx_size ≡ u64 m
    → t.active.stop_flag ≡ false
    → ((took payload ms t).active.stop_flag ≡ false)
      × Took t n m (frame_new (u64 ms) payload ∷ []) (took payload ms t)
unfolding take_message publish took
take_message-Took payload ms n m t hn hm run = elim (Bool-cases (u32 (t.frames + 1) % 10 == 0)) [
  | inl due ↦ rw due (run, record { writer_is = refl; frames_is = count; size_is = size })
  | inr early ↦ rw early (run, record { writer_is = refl; frames_is = count; size_is = size })
]
  where
    count : u32 (t.frames + 1) ≡ u32 (n + 1)
    count = omega (arith, hn)

    size :
        u64 (t.approx_size + frame_size (frame_new (u64 ms) payload))
        ≡ u64 (m + length (body (frame_new (u64 ms) payload ∷ [])))
    size = omega (
      arith,
      hm,
      length-frame_write (frame_new (u64 ms) payload),
      length-append (frame_write (frame_new (u64 ms) payload)) [],
    )

while_running :
    {A : Type 0} (x y : A) {stopped : Bool}
    → stopped ≡ false
    → ◌≡◌ {A = A} (elim stopped [ true ↦ x | false ↦ y ]) y
while_running x y h = rw h refl

loop_message :
    (payload : List ℕ) (ms : ℕ) (turns : List Turn) (t : RecordingTask)
    → t.active.stop_flag ≡ false
    → recording_loop takes_all (turn_of false (message payload) ms ∷ turns) t
      ≡ recording_loop takes_all turns (took payload ms t)
unfolding recording_loop took take_message
loop_message payload ms turns t run =
    while_running (some t) (recording_loop takes_all turns (took payload ms t)) run

-- What is left of the loop's turns, from a task that runs.
loop-Took :
    (turns : List Turn) (n m : ℕ) (t : RecordingTask)
    → t.frames ≡ u32 n
    → t.approx_size ≡ u64 m
    → t.active.stop_flag ≡ false
    → some_last turns ≡ true
    → (t' : RecordingTask) × (recording_loop takes_all turns t ≡ some t')
      × Took t n m (heard turns) t'
unfolding recording_loop heard stop
loop-Took [] n m t hn hm run ends = cc
loop-Took (turn_of true received ms ∷ turns) n m t hn hm run ends = (
  _,
  refl,
  record { writer_is = refl; frames_is = omega (arith, hn); size_is = omega (arith, hm) },
)
loop-Took (turn_of false closed ms ∷ turns) n m t hn hm run ends = (
  t,
  while_running (some t) (some t) run,
  record { writer_is = refl; frames_is = omega (arith, hn); size_is = omega (arith, hm) },
)
loop-Took (turn_of false (lagged k) ms ∷ turns) n m t hn hm run ends =
    let (t', ended, more) = loop-Took turns n m t hn hm run ends in
    (t', while_running (some t) (recording_loop takes_all turns t) run ∙ ended, more)
loop-Took (turn_of false timed_out ms ∷ turns) n m t hn hm run ends =
    let (t', ended, more) = loop-Took turns n m t hn hm run ends in
    (t', while_running (some t) (recording_loop takes_all turns t) run ∙ ended, more)
loop-Took (turn_of false (message payload) ms ∷ turns) n m t hn hm run ends =
    let (run', one) = take_message-Took payload ms n m t hn hm run in
    let (t', ended, more) =
      loop-Took turns _ _ (took payload ms t) one.frames_is one.size_is run' ends in
    (
      t',
      loop_message payload ms turns t run ∙ ended,
      record {
        writer_is = more.writer_is ∙ ap (λ w. foldl write_frame w (heard turns)) one.writer_is;
        frames_is = omega (arith, more.frames_is);
        size_is = omega (
          arith,
          more.size_is,
          length-append (frame_write (frame_new (u64 ms) payload)) [],
          length-append (frame_write (frame_new (u64 ms) payload)) (body (heard turns)),
        );
      },
    )

begun : RecordingSetup → RecordingTask
begun setup = record { writer = writer_new setup; frames = 0; approx_size = 0; active = new_active }

-- With a sink that takes every write, and turns of which one stops the task or finds the channel
-- closed, the task leaves exactly the file of the recording of the frames heard before that turn,
-- counts them and their bytes in the shared values, and has set the stop flag.
pub recording_task-record_file :
    (setup : RecordingSetup) (turns : List Turn) (final_ms : ℕ)
    → some_last turns ≡ true
    → recording_task takes_all setup turns final_ms
      ≡ some (record {
        file = record_file setup (heard turns);
        active = record {
          stop_flag = true;
          frame_count = u32 (length (heard turns));
          duration_ms = u64 final_ms;
          size_bytes = u64 (length (body (heard turns)));
        };
      })
unfolding recording_task end_recording publish stop record_file new_active begun
recording_task-record_file setup turns final_ms ends =
    let (t, ended, took) = loop-Took turns 0 0 (begun setup) refl refl refl ends in
    let frames : t.frames ≡ u32 (length (heard turns)) = omega (arith, took.frames_is) in
    let size : t.approx_size ≡ u64 (length (body (heard turns))) = omega (arith, took.size_is) in
    rw (ended, recording_task) (rw (took.writer_is, frames, size) refl)

ended_or_on :
    {A : Type 0} (x : A) (y : Option A) (stopped : Bool)
    → y ≢ none
    → ◌≢◌ {A = Option A} (elim stopped [ true ↦ some x | false ↦ y ]) none
ended_or_on x y true h = λ e. cc
ended_or_on x y false h = h

on_or_ended :
    {A : Type 0} (x : A) (y : Option A) (goes_on : Bool)
    → y ≢ none
    → ◌≢◌ {A = Option A} (elim goes_on [ true ↦ y | false ↦ some x ]) none
on_or_ended x y true h = h
on_or_ended x y false h = λ e. cc

loop-ne-none :
    (sink : Sink) (turns : List Turn) (t : RecordingTask)
    → some_last turns ≡ true
    → recording_loop sink turns t ≢ none
unfolding recording_loop stop
loop-ne-none sink [] t ends = cc
loop-ne-none sink (turn_of true received ms ∷ turns) t ends = λ e. cc
loop-ne-none sink (turn_of false closed ms ∷ turns) t ends =
    ended_or_on t (some t) t.active.stop_flag (λ e. cc)
loop-ne-none sink (turn_of false (lagged k) ms ∷ turns) t ends =
    ended_or_on t _ t.active.stop_flag (loop-ne-none sink turns t ends)
loop-ne-none sink (turn_of false timed_out ms ∷ turns) t ends =
    ended_or_on t _ t.active.stop_flag (loop-ne-none sink turns t ends)
loop-ne-none sink (turn_of false (message payload) ms ∷ turns) t ends =
    ended_or_on t _ t.active.stop_flag (
      on_or_ended (take_message sink payload ms t).1 _ (take_message sink payload ms t).0
        (loop-ne-none sink turns (take_message sink payload ms t).1 ends))

-- Whatever the sink refuses, the task ends by the turn at which it is stopped or the channel is
-- closed.
pub recording_task-ne-none :
    (sink : Sink) (setup : RecordingSetup) (turns : List Turn) (final_ms : ℕ)
    → some_last turns ≡ true
    → recording_task sink setup turns final_ms ≢ none
unfolding begun recording_task
recording_task-ne-none sink setup turns final_ms ends =
    elim (Option-cases (recording_loop sink turns (begun setup))) [
      | inl stuck ↦ absurd (loop-ne-none sink turns (begun setup) ends stuck)
      | inr (t, ended) ↦ rw (ended, recording_task) (λ e. cc)
    ]
