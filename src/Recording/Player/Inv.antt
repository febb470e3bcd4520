-- ===== src/Recording/Player/Inv.antt =====
-- What holds of the task of src/lib/recording/player.rs and of its handle at every moment.
use mayara_server.Common.{
  ℕ, ◌≤◌, ◌≡◌, refl, arith, Bool, true, false, List, Option, none, some, ok, ltb, if◌then◌else◌,
  Bool-cases, Option-cases, Result-cases, inl, inr,
}
use mayara_server.Recording.Format.{MrrFrame}
use mayara_server.Recording.Reader.{MrrReader, reader_open, read_frame}
use mayara_server.Recording.Player.{
  PlaybackState, idle, loaded, playing, paused, stopped, ActivePlayback, loaded_playback, clamp,
  Command, stop, pause, resume, set_speed, set_loop, seek, command, Player, Point, outer_stop,
  outer_pause, outer_open, outer_seek, inner_stop, inner_pause, inner_seek, inner_read, inner_send,
  after_stop, after_pause, after_loop, finishing, finished, ended, World, Surroundings, max_wait,
  pause_state, play_state, opened_point, read_point, wait_time, send_frame, task_step, Step,
  by_task, by_command, Steps, done, and_then, start,
}

-- A state that is neither idle nor stopped.
abbrev pub IsLive : PlaybackState → Type 0
IsLive idle = ⊥
IsLive stopped = ⊥
IsLive state = Unit

-- What the place of the task says of the handle.
abbrev pub Placed : Point → ActivePlayback → Type 0
Placed outer_stop a = IsLive a.state
Placed outer_pause a = IsLive a.state
Placed finishing a = IsLive a.state
Placed finished a = IsLive a.state × (a.stop_flag ≡ true)
Placed ended a = (a.state ≡ stopped) × (a.stop_flag ≡ true)
Placed point a = a.state ≡ playing

pub record IsPlayback (w : World) : Type 0 where
  pub speed_low : 10 ≤ w.active.speed
  pub speed_high : w.active.speed ≤ 1000
  pub placed : Placed w.point w.active

-- `Placed` reads the state and the stop flag alone.
Placed-same :
    (point : Point) (a a' : ActivePlayback)
    → a'.state ≡ a.state
    → (a.stop_flag ≡ true → a'.stop_flag ≡ true)
    → Placed point a
    → Placed point a'
Placed-same outer_stop a a' same kept h = rw same h
Placed-same outer_pause a a' same kept h = rw same h
Placed-same outer_open a a' same kept h = rw same h
Placed-same (outer_seek r) a a' same kept h = rw same h
Placed-same (inner_stop p) a a' same kept h = rw same h
Placed-same (inner_pause p) a a' same kept h = rw same h
Placed-same (inner_seek p) a a' same kept h = rw same h
Placed-same (inner_read p) a a' same kept h = rw same h
Placed-same (inner_send f p) a a' same kept h = rw same h
Placed-same after_stop a a' same kept h = rw same h
Placed-same after_pause a a' same kept h = rw same h
Placed-same after_loop a a' same kept h = rw same h
Placed-same finishing a a' same kept h = rw same h
Placed-same finished a a' same kept h = (rw same h.0, kept h.1)
Placed-same ended a a' same kept h = (rw same h.0, kept h.1)

command-Placed :
    (c : Command) (point : Point) (a : ActivePlayback) → Placed point a → Placed point (command c a)
unfolding command
command-Placed stop point a h = Placed-same point a _ refl (λ e. refl) h
command-Placed pause point a h = Placed-same point a _ refl (λ e. e) h
command-Placed resume point a h = Placed-same point a _ refl (λ e. e) h
command-Placed (set_speed n) point a h = Placed-same point a _ refl (λ e. e) h
command-Placed (set_loop b) point a h = Placed-same point a _ refl (λ e. e) h
command-Placed (seek ms) point a h = Placed-same point a _ refl (λ e. e) h

IsLive-playing : {state : PlaybackState} → state ≡ playing → IsLive state
IsLive-playing h = rw h tt

IsLive-pause_state : (state : PlaybackState) → IsLive state → IsLive (pause_state state)
unfolding pause_state
IsLive-pause_state idle h = elim h [ ]
IsLive-pause_state stopped h = elim h [ ]
IsLive-pause_state loaded h = tt
IsLive-pause_state playing h = tt
IsLive-pause_state paused h = tt

play_state_lem : (state : PlaybackState) → IsLive state → play_state state ≡ playing
unfolding play_state
play_state_lem idle h = elim h [ ]
play_state_lem stopped h = elim h [ ]
play_state_lem loaded h = refl
play_state_lem playing h = refl
play_state_lem paused h = refl

-- Wherever an open file leads, the state is that of playing.
opened_point-Placed :
    (file : Option (List ℕ)) (a : ActivePlayback) → a.state ≡ playing → Placed (opened_point file) a
unfolding opened_point
opened_point-Placed none a h = IsLive-playing h
opened_point-Placed (some content) a h = elim (Result-cases (reader_open content)) [
  | inl (r, opens) ↦ rw (opens, opened_point) h
  | inr (e, fails) ↦ rw (fails, opened_point) (IsLive-playing h)
]

read_point-Placed :
    (now : ℕ) (p : Player) (b : Bool) (a : ActivePlayback)
    → a.state ≡ playing
    → Placed (read_point now b p) a
unfolding read_point
read_point-Placed now p b a h = elim (Result-cases (read_frame p.mrr_reader)) [
  | inl ((some f, r), reads) ↦ rw (reads, read_point) h
  | inl ((none, r), reads) ↦ by_loop b r reads
  | inr (e, fails) ↦ rw (fails, read_point) h
]
  where
    by_loop :
        (b : Bool) (r : MrrReader)
        → read_frame p.mrr_reader ≡ ok (none, r)
        → Placed (read_point now b p) a
    by_loop true r reads = rw (reads, read_point) h
    by_loop false r reads = rw (reads, read_point) h

send_frame-Placed :
    (s : Surroundings) (now : ℕ) (f : MrrFrame) (p : Player) (w : World)
    → w.active.state ≡ playing
    → Placed (send_frame s now f p w).point (send_frame s now f p w).active
unfolding send_frame
send_frame-Placed s now f p w h =
    elim (Bool-cases
      (ltb max_wait (wait_time s w.active.speed now p.playback_start p.first_frame_ts f))) [
        | inl far ↦ rw far h
        | inr near ↦ rw near h
      ]

if-Placed :
    (b : Bool) (x y : Point) (a : ActivePlayback)
    → Placed x a
    → Placed y a
    → Placed (if b then x else y) a
if-Placed true x y a hx hy = hx
if-Placed false x y a hx hy = hy

task_step-Placed :
    (s : Surroundings) (now : ℕ) (a : ActivePlayback) (point : Point) (sent : List (List ℕ))
    → Placed point a
    → let w = task_step s now (record { active = a; point = point; sent = sent }) in
      Placed w.point w.active
unfolding task_step
task_step-Placed s now a outer_stop sent h = if-Placed a.stop_flag finishing outer_pause a h h
task_step-Placed s now a outer_pause sent h = elim (Bool-cases a.pause_flag) [
  | inl held ↦ rw held (IsLive-pause_state a.state h)
  | inr runs ↦ rw runs (play_state_lem a.state h)
]
task_step-Placed s now a outer_open sent h = opened_point-Placed s.open_file a h
task_step-Placed s now a (outer_seek r) sent h = h
task_step-Placed s now a (inner_stop p) sent h =
    if-Placed a.stop_flag after_stop (inner_pause p) a h h
task_step-Placed s now a (inner_pause p) sent h =
    if-Placed a.pause_flag after_stop (inner_seek p) a h h
task_step-Placed s now a (inner_seek p) sent h = elim (Option-cases a.seek_target) [
  | inl absent ↦ rw absent h
  | inr (target, found) ↦ rw found h
]
task_step-Placed s now a (inner_read p) sent h = read_point-Placed now p a.loop_playback a h
task_step-Placed s now a (inner_send f p) sent h = send_frame-Placed s now f p _ h
task_step-Placed s now a after_stop sent h =
    if-Placed a.stop_flag finishing after_pause a (IsLive-playing h) h
task_step-Placed s now a after_pause sent h =
    if-Placed a.pause_flag outer_stop after_loop a (IsLive-playing h) h
task_step-Placed s now a after_loop sent h =
    if-Placed a.loop_playback outer_stop finishing a (IsLive-playing h) (IsLive-playing h)
task_step-Placed s now a finishing sent h = (h, refl)
task_step-Placed s now a finished sent h = (refl, h.1)
task_step-Placed s now a ended sent h = h

-- No step of the task changes the speed, nor takes the stop flag back.
pub record Keeps (a a' : ActivePlayback) : Type 0 where
  pub speed_same : a'.speed ≡ a.speed
  pub stop_kept : a.stop_flag ≡ true → a'.stop_flag ≡ true

Keeps-refl : (a : ActivePlayback) → Keeps a a
Keeps-refl a = record { speed_same = refl; stop_kept = λ e. e }

pub task_step-Keeps :
    (s : Surroundings) (now : ℕ) (a : ActivePlayback) (point : Point) (sent : List (List ℕ))
    → Keeps a (task_step s now (record { active = a; point = point; sent = sent })).active
unfolding task_step send_frame
task_step-Keeps s now a outer_stop sent = Keeps-refl a
task_step-Keeps s now a outer_pause sent = elim (Bool-cases a.pause_flag) [
  | inl held ↦ rw held (record { speed_same = refl; stop_kept = λ e. e })
  | inr runs ↦ rw runs (record { speed_same = refl; stop_kept = λ e. e })
]
task_step-Keeps s now a outer_open sent = Keeps-refl a
task_step-Keeps s now a (outer_seek r) sent = record { speed_same = refl; stop_kept = λ e. e }
task_step-Keeps s now a (inner_stop p) sent = Keeps-refl a
task_step-Keeps s now a (inner_pause p) sent = Keeps-refl a
task_step-Keeps s now a (inner_seek p) sent = elim (Option-cases a.seek_target) [
  | inl absent ↦ rw absent (record { speed_same = refl; stop_kept = λ e. e })
  | inr (target, found) ↦ rw found (record { speed_same = refl; stop_kept = λ e. e })
]
task_step-Keeps s now a (inner_read p) sent = Keeps-refl a
task_step-Keeps s now a (inner_send f p) sent =
    elim (Bool-cases (ltb max_wait (wait_time s a.speed now p.playback_start p.first_frame_ts f))) [
      | inl far ↦ rw far (Keeps-refl a)
      | inr near ↦ rw near (record { speed_same = refl; stop_kept = λ e. e })
    ]
task_step-Keeps s now a after_stop sent = Keeps-refl a
task_step-Keeps s now a after_pause sent = Keeps-refl a
task_step-Keeps s now a after_loop sent = Keeps-refl a
task_step-Keeps s now a finishing sent = record { speed_same = refl; stop_kept = λ e. refl }
task_step-Keeps s now a finished sent = record { speed_same = refl; stop_kept = λ e. e }
task_step-Keeps s now a ended sent = Keeps-refl a

clamp-bounds : (n : ℕ) → (10 ≤ clamp 10 1000 n) × (clamp 10 1000 n ≤ 1000)
unfolding clamp
clamp-bounds n = ground arith

command-speed :
    (c : Command) (a : ActivePlayback)
    → (10 ≤ a.speed) × (a.speed ≤ 1000)
    → (10 ≤ (command c a).speed) × ((command c a).speed ≤ 1000)
unfolding command
command-speed stop a h = h
command-speed pause a h = h
command-speed resume a h = h
command-speed (set_speed n) a h = clamp-bounds n
command-speed (set_loop b) a h = h
command-speed (seek ms) a h = h

Step-IsPlayback : (s : Surroundings) {w w' : World} → Step s w w' → IsPlayback w → IsPlayback w'
Step-IsPlayback s (by_task now w) h =
    let kept = task_step-Keeps s now w.active w.point w.sent in
    record {
      speed_low = rw kept.speed_same h.speed_low;
      speed_high = rw kept.speed_same h.speed_high;
      placed = task_step-Placed s now w.active w.point w.sent h.placed;
    }
Step-IsPlayback s (by_command c w) h =
    let (low, high) = command-speed c w.active (h.speed_low, h.speed_high) in
    record {
      speed_low = low;
      speed_high = high;
      placed = command-Placed c w.point w.active h.placed;
    }

pub Steps-IsPlayback :
    (s : Surroundings) {w w' : World} → Steps s w w' → IsPlayback w → IsPlayback w'
Steps-IsPlayback s done h = h
Steps-IsPlayback s (and_then step steps) h = Steps-IsPlayback s steps (Step-IsPlayback s step h)

-- From its start, whatever commands come between its steps, a playback has a speed of 10 to 1000
-- hundredths; its state is that of playing wherever a file is open; it is stopped exactly when
-- the task has ended, and then the stop flag is set.
pub start-IsPlayback : (s : Surroundings) (w : World) → Steps s start w → IsPlayback w
unfolding start loaded_playback
start-IsPlayback s w steps =
    Steps-IsPlayback s steps
      (record { speed_low = omega arith; speed_high = omega arith; placed = tt })
