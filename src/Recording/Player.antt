-- ===== src/Recording/Player.antt =====
-- src/lib/recording/player.rs: the handle of an active playback and `playback_task`, one step for
-- each place at which the task reads or writes what it shares with the handle, so that other tasks
-- can act on the handle between any two of them.
pub mod Inv
pub mod Stops
pub mod Playing
use mayara_server.Common.{
  ℕ, ◌+◌, ◌-◌, ◌*◌, ◌%◌, ◌^◌, Bool, true, false, not, ◌&&◌, List, [], ◌∷◌, ◌++◌, Option, none, some,
  ok, err, ltb, if◌then◌else◌, min,
}
use mayara_server.Recording.Format.{MrrFrame}
use mayara_server.Recording.Writer.{u32, u64}
use mayara_server.Recording.Reader.{MrrReader, reader_open, read_frame, seek_to_timestamp, rewind}

pub data PlaybackState : Type 0 where
  idle loaded playing paused stopped : PlaybackState

-- What the handle and the task share. The speed is in hundredths.
pub record ActivePlayback : Type 0 where
  pub stop_flag : Bool
  pub pause_flag : Bool
  pub position_ms : ℕ
  pub frame : ℕ
  pub speed : ℕ
  pub loop_playback : Bool
  pub state : PlaybackState
  pub seek_target : Option ℕ

-- The handle that `load_recording` makes, which starts paused.
unfoldable pub loaded_playback : ActivePlayback
loaded_playback = record {
  stop_flag = false;
  pause_flag = true;
  position_ms = 0;
  frame = 0;
  speed = 100;
  loop_playback = false;
  state = loaded;
  seek_target = none;
}

unfoldable pub clamp : ℕ → ℕ → ℕ → ℕ
clamp low high n = if ltb n low then low else if ltb high n then high else n

-- The methods of the handle that change it.
pub data Command : Type 0 where
  stop pause resume : Command
  -- `(speed * 100.0) as u32`
  set_speed : ℕ → Command
  set_loop : Bool → Command
  seek : ℕ → Command

unfoldable pub command : Command → ActivePlayback → ActivePlayback
command stop a = record a { stop_flag = true }
command pause a = record a { pause_flag = true }
command resume a = record a { pause_flag = false }
command (set_speed speed_fixed) a = record a { speed = clamp 10 1000 speed_fixed }
command (set_loop loop_playback) a = record a { loop_playback = loop_playback }
command (seek position_ms) a = record a { seek_target = some position_ms }

-- The variables of the task while a file is open; times are in nanoseconds.
pub record Player : Type 0 where
  pub mrr_reader : MrrReader
  pub playback_start : ℕ
  pub first_frame_ts : Option ℕ
  pub frames_played : ℕ

-- Where the task stands.
pub data Point : Type 0 where
  -- the outer loop, up to the open file
  outer_stop outer_pause outer_open : Point
  outer_seek : MrrReader → Point
  -- the inner loop
  inner_stop inner_pause inner_seek inner_read : Player → Point
  inner_send : MrrFrame → Player → Point
  -- behind the inner loop, and behind the outer one
  after_stop after_pause after_loop finishing finished ended : Point

-- The task, with what it has sent.
pub record World : Type 0 where
  pub active : ActivePlayback
  pub point : Point
  pub sent : List (List ℕ)

-- What is not the program's: the file at the path, if it can be opened; where a seek that fails
-- leaves the reader; and the floating-point `(relative_ts as f64 / speed_factor) as u64`.
pub record Surroundings : Type 0 where
  pub open_file : Option (List ℕ)
  pub astray : MrrReader → MrrReader
  pub scaled : ℕ → ℕ → ℕ

abbrev pub ns_per_ms : ℕ
ns_per_ms = 1000000

abbrev pub max_wait : ℕ
max_wait = 100 * ns_per_ms

-- A failed seek is only logged. A loop that has not ended is none of the outcomes.
unfoldable pub sought : Surroundings → ℕ → MrrReader → MrrReader
sought s target r = elim (seek_to_timestamp target r) [
  | some (ok r') ↦ r'
  | some (err e) ↦ s.astray r
  | none ↦ r
]

unfoldable pub pause_state : PlaybackState → PlaybackState
pause_state playing = paused
pause_state state = state

unfoldable pub play_state : PlaybackState → PlaybackState
play_state loaded = playing
play_state paused = playing
play_state state = state

abbrev pub restarted : ℕ → MrrReader → Player → Player
restarted now r p = record p { mrr_reader = r; playback_start = now; first_frame_ts = none }

unfoldable pub opened_point : Option (List ℕ) → Point
opened_point none = finishing
opened_point (some content) = elim (reader_open content) [ err e ↦ finishing | ok r ↦ outer_seek r ]

-- The seek before the first frame: to the target, or else to the last position.
unfoldable pub seek_first : Surroundings → ActivePlayback → MrrReader → MrrReader
seek_first s a r =
    let seek_ms : ℕ = elim a.seek_target [ some target ↦ target | none ↦ a.position_ms ] in
    if ltb 0 seek_ms then sought s seek_ms r else r

unfoldable pub read_point : ℕ → Bool → Player → Point
read_point now loop_playback p = elim (read_frame p.mrr_reader) [
  | ok (some f, r) ↦ inner_send f (record p { mrr_reader = r })
  | ok (none, r) ↦ if loop_playback then inner_stop (restarted now (rewind r) p) else after_stop
  | err e ↦ after_stop
]

-- `frame_ts - first_frame_ts` wraps, as in a release build.
abbrev pub relative : ℕ → ℕ → ℕ
relative ts first = u64 (ts + (2 ^ 64 - first))

abbrev pub first_ts : MrrFrame → Option ℕ → ℕ
first_ts f (some first) = first
first_ts f none = f.timestamp_ms

-- How long the task has to wait before it sends the frame.
unfoldable pub wait_time : Surroundings → ℕ → ℕ → ℕ → Option ℕ → MrrFrame → ℕ
wait_time s speed now playback_start first f =
    let target_elapsed = s.scaled (relative f.timestamp_ms (first_ts f first)) speed * ns_per_ms in
    target_elapsed - (now - playback_start)

-- The frame is sent, unless its time is more than `max_wait` away.
unfoldable pub send_frame : Surroundings → ℕ → MrrFrame → Player → World → World
send_frame s now f p w =
    let timed : Player = record p { first_frame_ts = some (first_ts f p.first_frame_ts) } in
    let played = u32 (p.frames_played + 1) in
    if ltb max_wait (wait_time s w.active.speed now p.playback_start p.first_frame_ts f)
    then record w { point = inner_stop timed }
    else record w {
      active = record w.active { position_ms = f.timestamp_ms; frame = played };
      point = inner_stop (record timed { frames_played = played });
      sent = w.sent ++ (f.payload ∷ []);
    }

-- One step of the task at the time `now`.
unfoldable pub task_step : Surroundings → ℕ → World → World
task_step s now w =
    let a = w.active in
    elim w.point [
      | outer_stop ↦ record w { point = if a.stop_flag then finishing else outer_pause }
      | outer_pause ↦
          if a.pause_flag
          then record w { active = record a { state = pause_state a.state }; point = outer_stop }
          else record w { active = record a { state = play_state a.state }; point = outer_open }
      | outer_open ↦ record w { point = opened_point s.open_file }
      | outer_seek r ↦ record w {
        active = record a { seek_target = none };
        point = inner_stop (record {
          mrr_reader = seek_first s a r;
          playback_start = now;
          first_frame_ts = none;
          frames_played = 0;
        });
      }
      | inner_stop p ↦ record w { point = if a.stop_flag then after_stop else inner_pause p }
      | inner_pause p ↦ record w { point = if a.pause_flag then after_stop else inner_seek p }
      | inner_seek p ↦ elim a.seek_target [
        | none ↦ record w { point = inner_read p }
        | some target ↦ record w {
          active = record a { seek_target = none };
          point = inner_stop (restarted now (sought s target p.mrr_reader) p);
        }
      ]
      | inner_read p ↦ record w { point = read_point now a.loop_playback p }
      | inner_send f p ↦ send_frame s now f p w
      | after_stop ↦ record w { point = if a.stop_flag then finishing else after_pause }
      | after_pause ↦ record w { point = if a.pause_flag then outer_stop else after_loop }
      | after_loop ↦ record w { point = if a.loop_playback then outer_stop else finishing }
      | finishing ↦ record w { active = record a { stop_flag = true }; point = finished }
      | finished ↦ record w { active = record a { state = stopped }; point = ended }
      | ended ↦ w
    ]

-- A step of the whole: the task's, or a command of another task on the handle.
pub data Step (s : Surroundings) : World → World → Type 0 where
  by_task : (now : ℕ) (w : World) → Step s w (task_step s now w)
  by_command : (c : Command) (w : World) → Step s w (record w { active = command c w.active })

pub data Steps (s : Surroundings) : World → World → Type 0 where
  done : {w : World} → Steps s w w
  and_then : {w w' w'' : World} → Step s w w' → Steps s w' w'' → Steps s w w''

unfoldable pub start : World
start = record { active = loaded_playback; point = outer_stop; sent = [] }
