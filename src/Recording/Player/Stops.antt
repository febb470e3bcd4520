-- ===== src/Recording/Player/Stops.antt =====
-- The task of src/lib/recording/player.rs ends soon after it is told to stop.
use mayara_server.Common.{
  ℕ, suc, ◌-◌, ◌≤◌, ◌≡◌, refl, arith, Bool, true, false, List, Option, none, some, ok, ltb,
  Bool-cases, Option-cases, Result-cases, inl, inr,
}
use mathlib.Core.Path.{subst}
use mayara_server.Recording.Reader.{MrrReader, reader_open, read_frame}
use mayara_server.Recording.Player.{
  stopped, ActivePlayback, Command, stop, pause, resume, set_speed, set_loop, seek, command, Player,
  Point, outer_stop, outer_pause, outer_open, outer_seek, inner_stop, inner_pause, inner_seek,
  inner_read, inner_send, after_stop, after_pause, after_loop, finishing, finished, ended, World,
  Surroundings, max_wait, opened_point, read_point, wait_time, send_frame, task_step, by_task,
  by_command, Steps, done, and_then, start,
}
use mayara_server.Recording.Player.Inv.{Placed, task_step-Keeps, start-IsPlayback, Steps-IsPlayback}

-- How many steps the task takes at most, once the stop flag is set.
abbrev pub steps_left : Point → ℕ
steps_left (inner_pause p) = 8
steps_left (inner_seek p) = 7
steps_left outer_pause = 7
steps_left (inner_read p) = 6
steps_left outer_open = 6
steps_left (inner_send f p) = 5
steps_left (outer_seek r) = 5
steps_left after_pause = 5
steps_left (inner_stop p) = 4
steps_left after_loop = 4
steps_left outer_stop = 3
steps_left after_stop = 3
steps_left finishing = 2
steps_left finished = 1
steps_left ended = 0

-- The steps among these that the task took.
abbrev pub task_steps : {s : Surroundings} {w w' : World} → Steps s w w' → ℕ
task_steps done = 0
task_steps (and_then (by_task now w) steps) = suc (task_steps steps)
task_steps (and_then (by_command c w) steps) = task_steps steps

opened_point-left : (file : Option (List ℕ)) → steps_left (opened_point file) ≤ 5
unfolding opened_point
opened_point-left none = omega arith
opened_point-left (some content) = elim (Result-cases (reader_open content)) [
  | inl (r, opens) ↦ rw (opens, opened_point) (omega arith)
  | inr (e, fails) ↦ rw (fails, opened_point) (omega arith)
]

read_point-left : (now : ℕ) (p : Player) (b : Bool) → steps_left (read_point now b p) ≤ 5
unfolding read_point
read_point-left now p b = elim (Result-cases (read_frame p.mrr_reader)) [
  | inl ((some f, r), reads) ↦ rw (reads, read_point) (omega arith)
  | inl ((none, r), reads) ↦ by_loop b r reads
  | inr (e, fails) ↦ rw (fails, read_point) (omega arith)
]
  where
    by_loop :
        (b : Bool) (r : MrrReader)
        → read_frame p.mrr_reader ≡ ok (none, r)
        → steps_left (read_point now b p) ≤ 5
    by_loop true r reads = rw (reads, read_point) (omega arith)
    by_loop false r reads = rw (reads, read_point) (omega arith)

task_step-left :
    (s : Surroundings) (now : ℕ) (a : ActivePlayback) (point : Point) (sent : List (List ℕ))
    → a.stop_flag ≡ true
    → steps_left (task_step s now (record { active = a; point = point; sent = sent })).point
      ≤ steps_left point - 1
unfolding task_step send_frame
task_step-left s now a outer_stop sent h = rw h (omega arith)
task_step-left s now a outer_pause sent h = elim (Bool-cases a.pause_flag) [
  | inl held ↦ rw held (omega arith)
  | inr runs ↦ rw runs (omega arith)
]
task_step-left s now a outer_open sent h = omega (arith, opened_point-left s.open_file)
task_step-left s now a (outer_seek r) sent h = omega arith
task_step-left s now a (inner_stop p) sent h = rw h (omega arith)
task_step-left s now a (inner_pause p) sent h = elim (Bool-cases a.pause_flag) [
  | inl held ↦ rw held (omega arith)
  | inr runs ↦ rw runs (omega arith)
]
task_step-left s now a (inner_seek p) sent h = elim (Option-cases a.seek_target) [
  | inl absent ↦ rw absent (omega arith)
  | inr (target, found) ↦ rw found (omega arith)
]
task_step-left s now a (inner_read p) sent h = omega (arith, read_point-left now p a.loop_playback)
task_step-left s now a (inner_send f p) sent h =
    elim (Bool-cases (ltb max_wait (wait_time s a.speed now p.playback_start p.first_frame_ts f))) [
      | inl far ↦ rw far (omega arith)
      | inr near ↦ rw near (omega arith)
    ]
task_step-left s now a after_stop sent h = rw h (omega arith)
task_step-left s now a after_pause sent h = elim (Bool-cases a.pause_flag) [
  | inl held ↦ rw held (omega arith)
  | inr runs ↦ rw runs (omega arith)
]
task_step-left s now a after_loop sent h = elim (Bool-cases a.loop_playback) [
  | inl again ↦ rw again (omega arith)
  | inr once ↦ rw once (omega arith)
]
task_step-left s now a finishing sent h = omega arith
task_step-left s now a finished sent h = omega arith
task_step-left s now a ended sent h = omega arith

command-stop_flag :
    (c : Command) (a : ActivePlayback) → a.stop_flag ≡ true → (command c a).stop_flag ≡ true
unfolding command
command-stop_flag stop a h = refl
command-stop_flag pause a h = h
command-stop_flag resume a h = h
command-stop_flag (set_speed n) a h = h
command-stop_flag (set_loop b) a h = h
command-stop_flag (seek ms) a h = h

Steps-left :
    (s : Surroundings) {w w' : World} (steps : Steps s w w')
    → w.active.stop_flag ≡ true
    → steps_left w'.point ≤ steps_left w.point - task_steps steps
Steps-left s done h = omega arith
Steps-left s (and_then (by_task now w) steps) h =
    let one = task_step-left s now w.active w.point w.sent h in
    let kept = (task_step-Keeps s now w.active w.point w.sent).stop_kept h in
    let rest = Steps-left s steps kept in omega (arith, one, rest)
Steps-left s (and_then (by_command c w) steps) h =
    Steps-left s steps (command-stop_flag c w.active h)

steps_left-high : (point : Point) → steps_left point ≤ 8
steps_left-high outer_stop = omega arith
steps_left-high outer_pause = omega arith
steps_left-high outer_open = omega arith
steps_left-high (outer_seek r) = omega arith
steps_left-high (inner_stop p) = omega arith
steps_left-high (inner_pause p) = omega arith
steps_left-high (inner_seek p) = omega arith
steps_left-high (inner_read p) = omega arith
steps_left-high (inner_send f p) = omega arith
steps_left-high after_stop = omega arith
steps_left-high after_pause = omega arith
steps_left-high after_loop = omega arith
steps_left-high finishing = omega arith
steps_left-high finished = omega arith
steps_left-high ended = omega arith

-- A point with no step left is the end.
none_left : (point : Point) → steps_left point ≡ 0 → point ≡ ended
none_left ended h = refl
none_left outer_stop h = absurd (omega (arith, h))
none_left outer_pause h = absurd (omega (arith, h))
none_left outer_open h = absurd (omega (arith, h))
none_left (outer_seek r) h = absurd (omega (arith, h))
none_left (inner_stop p) h = absurd (omega (arith, h))
none_left (inner_pause p) h = absurd (omega (arith, h))
none_left (inner_seek p) h = absurd (omega (arith, h))
none_left (inner_read p) h = absurd (omega (arith, h))
none_left (inner_send f p) h = absurd (omega (arith, h))
none_left after_stop h = absurd (omega (arith, h))
none_left after_pause h = absurd (omega (arith, h))
none_left after_loop h = absurd (omega (arith, h))
none_left finishing h = absurd (omega (arith, h))
none_left finished h = absurd (omega (arith, h))

-- A playback whose stop flag is set has ended after eight more steps of its task, whatever commands
-- come between them, and its state is then that of one that is stopped.
pub stopped-ended :
    (s : Surroundings) (w w' : World) (before : Steps s start w) (steps : Steps s w w')
    → w.active.stop_flag ≡ true
    → 8 ≤ task_steps steps
    → (w'.point ≡ ended) × (w'.active.state ≡ stopped)
stopped-ended s w w' before steps stops enough =
    let h = Steps-IsPlayback s steps (start-IsPlayback s w before) in
    let left : steps_left w'.point ≡ 0 =
      omega (arith, Steps-left s steps stops, steps_left-high w.point) in
    let at_end = none_left w'.point left in
    let there = subst (λ point. Placed point w'.active) at_end h.placed in (at_end, there.0)
