-- ===== src/Recording/PlayTests.antt =====
-- Runs of the recorder and of the playback on small inputs, and their theorems at such inputs.
use mayara_server.Common.{
  ℕ, ◌*◌, ◌/◌, ◌≡◌, ◌≢◌, ◌↔◌, refl, arith, true, false, List, [], ◌∷◌, none, some, ok, length,
}
use mayara_server.Recording.Format.{
  frame_new, frame_write, state_write, header_write, written_flags,
}
use mayara_server.Bytes.{to_le_bytes}
use mayara_server.Recording.Writer.{RecordingSetup, u32, u64, record_file}
use mayara_server.Recording.Reader.{MrrReader, read_frame}
use mayara_server.Recording.File.Written.{body}
use mayara_server.Recording.File.Open.{RecordingFits, open-Reads}
use mayara_server.Recording.Recorder.{
  Turn, turn_of, message, lagged, timed_out, Sink, takes_all, recording_task, navico, brand_to_id,
  id_to_brand,
}
use mayara_server.Recording.Recorder.Task.{
  heard, id_to_brand_iff, recording_task-record_file, recording_task-ne-none,
}
use mayara_server.Recording.Player.{
  Surroundings, by_task, by_command, Steps, done, and_then, start, stop, World, task_step, command,
  loaded_playback, ended, stopped, wait_time, ActivePlayback, playing, Player,
}
use mayara_server.Recording.Player.Inv.{IsPlayback, start-IsPlayback}
use mayara_server.Recording.Player.Stops.{stopped-ended}
use mayara_server.Recording.Player.Playing.{
  Undisturbed, Punctual, at_end, on_time, Ended, position_after, run, resumed,
}
use mayara_server.Recording.EndToEnd.{messages, recorded_file, recorded-played}

abbrev setup : RecordingSetup
setup = record {
  start_time_ms = 1234567890123;
  radar_brand = 3;
  spokes_per_rev = 2048;
  max_spoke_len = 1024;
  pixel_values = 16;
  capabilities_json = b'{' ∷ b'}' ∷ [];
  initial_state_json = b'{' ∷ b'}' ∷ [];
}

-- Two messages, then a stop; the third message comes too late.
abbrev turns : List Turn
turns =
    turn_of false (message (1 ∷ 2 ∷ [])) 5
    ∷ turn_of false timed_out 100
    ∷ turn_of false (lagged 3) 150
    ∷ turn_of false (message (3 ∷ [])) 160
    ∷ turn_of true timed_out 200
    ∷ turn_of false (message (4 ∷ [])) 300
    ∷ []

heard_two : heard turns ≡ frame_new 5 (1 ∷ 2 ∷ []) ∷ frame_new 160 (3 ∷ []) ∷ []
unfolding heard frame_new
heard_two = refl

turns_fit : RecordingFits setup (heard turns)
unfolding heard frame_new header_write to_le_bytes frame_write state_write written_flags
turns_fit = record {
  start_fits = omega arith;
  brand_fits = omega arith;
  spokes_fits = omega arith;
  len_fits = omega arith;
  pixels_fits = omega arith;
  capabilities_fits = omega arith;
  state_fits = omega arith;
  frames_fit = (omega arith, (omega arith, tt));
  count_fits = omega arith;
  size_fits = omega arith;
}

id_to_brand_iff_example : (id_to_brand 3 ≡ some navico) ↔ (brand_to_id navico ≡ 3)
id_to_brand_iff_example = id_to_brand_iff 3 navico

recording_task-record_file_example :
    recording_task takes_all setup turns 201
    ≡ some (record {
      file = record_file setup (heard turns);
      active = record {
        stop_flag = true;
        frame_count = u32 (length (heard turns));
        duration_ms = u64 201;
        size_bytes = u64 (length (body (heard turns)));
      };
    })
recording_task-record_file_example = recording_task-record_file setup turns 201 refl

-- A sink that refuses every write.
abbrev full_disk : Sink
full_disk w f = some w

recording_task-ne-none_example : recording_task full_disk setup turns 201 ≢ none
recording_task-ne-none_example = recording_task-ne-none full_disk setup turns 201 refl

-- The file that the recording leaves, and the quotient of the times as a whole number.
abbrev surroundings : Surroundings
surroundings = record {
  open_file = recorded_file setup turns 201;
  astray = λ r. r;
  scaled = λ relative speed. relative * 100 / speed;
}

abbrev frame_times : List ℕ
frame_times = 0 ∷ 0 ∷ 0 ∷ 0 ∷ 0 ∷ 1 ∷ 1 ∷ 1 ∷ 1 ∷ 60000000 ∷ 2 ∷ 2 ∷ 2 ∷ 2 ∷ 2 ∷ 2 ∷ 2 ∷ 2 ∷ 2 ∷ []

in_time : Punctual surroundings 100 0 none (heard turns) frame_times
unfolding heard frame_new wait_time
in_time =
    on_time 0 0 0 0 0 _ (omega arith)
      (on_time 1 1 1 1 60000000 _ (omega arith) (at_end 2 2 2 2 2 2 2 2 2 []))

recorded-played_example :
    Ended
      (position_after 0 (heard turns))
      (messages turns)
      (run surroundings (0 ∷ 0 ∷ 0 ∷ 0 ∷ frame_times) resumed)
recorded-played_example =
    recorded-played setup turns 201 surroundings 0 0 0 0 frame_times refl turns_fit refl in_time

-- Two steps, then a command that stops.
abbrev told : World
told = record (task_step surroundings 0 (task_step surroundings 0 start)) {
  active = command stop (task_step surroundings 0 (task_step surroundings 0 start)).active;
}

told_so : Steps surroundings start told
told_so = and_then (by_task 0 start) (
    and_then (by_task 0 (task_step surroundings 0 start))
      (and_then (by_command stop (task_step surroundings 0 (task_step surroundings 0 start))) done))

start-IsPlayback_example : IsPlayback told
start-IsPlayback_example = start-IsPlayback surroundings told told_so

-- Eight steps of the task after the command.
told_ended : Steps surroundings told (run surroundings (1 ∷ 1 ∷ 1 ∷ 1 ∷ 1 ∷ 1 ∷ 1 ∷ 1 ∷ []) told)
told_ended = and_then (by_task 1 _) (
    and_then (by_task 1 _) (
      and_then (by_task 1 _) (
        and_then (by_task 1 _) (
          and_then (by_task 1 _)
            (and_then (by_task 1 _) (and_then (by_task 1 _) (and_then (by_task 1 _) done)))))))

stopped-ended_example :
    let w = run surroundings (1 ∷ 1 ∷ 1 ∷ 1 ∷ 1 ∷ 1 ∷ 1 ∷ 1 ∷ []) told in
    (w.point ≡ ended) × (w.active.state ≡ stopped)
unfolding told_ended start loaded_playback task_step command
stopped-ended_example =
    stopped-ended surroundings told (run surroundings (1 ∷ 1 ∷ 1 ∷ 1 ∷ 1 ∷ 1 ∷ 1 ∷ 1 ∷ []) told)
      told_so told_ended refl (omega arith)

abbrev runs : ActivePlayback
runs = record loaded_playback { pause_flag = false; state = playing }

runs_calm : Undisturbed runs
unfolding loaded_playback
runs_calm = record { not_stopped = refl; not_paused = refl; not_looped = refl; not_sought = refl }

-- The reader before the second frame, which was recorded 155 ms after the first.
two_left :
    (r : MrrReader) × (r' : MrrReader) × (read_frame r ≡ ok (some (frame_new 160 (3 ∷ [])), r'))
unfolding heard frame_new written_flags
two_left =
    let (r, opens, header, capabilities, state, footer, (r₁, first, (r₂, second, end))) =
      open-Reads setup (heard turns) turns_fit in
    (r₁, r₂, second)

abbrev behind_first : Player
unfolding two_left
behind_first = record {
  mrr_reader = two_left.0;
  playback_start = 0;
  first_frame_ts = some 5;
  frames_played = 1;
}
