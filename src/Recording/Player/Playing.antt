-- ===== src/Recording/Player/Playing.antt =====
-- What the task of src/lib/recording/player.rs sends when nobody disturbs it.
use mathlib.Core.List.{foldl}
use mathlib.Core.Path.{subst}
use mayara_server.Common.{
  ℕ, ◌+◌, ◌≤◌, ◌<◌, ◌≡◌, refl, sym, ap, ◌∙◌, arith, Bool, true, false, List, [], ◌∷◌, ◌++◌,
  append_assoc, append-nil, map, Option, none, some, ok, ltb, if◌then◌else◌,
}
use mayara_server.Recording.Format.{MrrFrame}
use mayara_server.Recording.Writer.{u32}
use mayara_server.Recording.Reader.{MrrReader, reader_open, read_frame}
use mayara_server.Recording.File.Reads.{Reads}
use mayara_server.Recording.Player.{
  stopped, playing, ActivePlayback, loaded_playback, resume, command, Player, Point, outer_stop,
  outer_seek, inner_stop, inner_pause, inner_seek, inner_read, inner_send, after_stop, after_pause,
  after_loop, finishing, ended, World, Surroundings, max_wait, opened_point, seek_first, play_state,
  read_point, first_ts, wait_time, send_frame, task_step, start,
}

-- Steps of the task alone, at these times.
abbrev pub run : Surroundings → List ℕ → World → World
run s nows w = foldl (λ w' now. task_step s now w') w nows

-- Nobody stops, pauses, seeks or loops.
pub record Undisturbed (a : ActivePlayback) : Type 0 where
  pub not_stopped : a.stop_flag ≡ false
  pub not_paused : a.pause_flag ≡ false
  pub not_looped : a.loop_playback ≡ false
  pub not_sought : a.seek_target ≡ none

-- The variables behind a frame, if it is not sent and if it is.
abbrev pub timed : MrrFrame → MrrReader → Player → Player
timed f r p = record p { mrr_reader = r; first_frame_ts = some (first_ts f p.first_frame_ts) }

abbrev pub played : MrrFrame → MrrReader → Player → Player
played f r p = record (timed f r p) { frames_played = u32 (p.frames_played + 1) }

abbrev pub sent_state : MrrFrame → Player → ActivePlayback → ActivePlayback
sent_state f p a = record a { position_ms = f.timestamp_ms; frame = u32 (p.frames_played + 1) }

-- A world by its parts.
abbrev pub world : ActivePlayback → Point → List (List ℕ) → World
world a point sent = record { active = a; point = point; sent = sent }

from_none :
    {A : Type 0} {B : Type 0} (x : B) (f : A → B) {t : Option A}
    → t ≡ none
    → ◌≡◌ {A = B} (elim t [ none ↦ x | some v ↦ f v ]) x
from_none x f e = rw e refl

module _ (s : Surroundings) where
  run_step :
      (n : ℕ) (ns : List ℕ) (w : World) {w' : World}
      → task_step s n w ≡ w'
      → run s (n ∷ ns) w ≡ run s ns w'
  run_step n ns w e = ap (run s ns) e

  run_ended :
      (ns : List ℕ) (a : ActivePlayback) (sent : List (List ℕ))
      → run s ns (world a ended sent) ≡ world a ended sent
  unfolding task_step
  run_ended [] a sent = refl
  run_ended (n ∷ ns) a sent = run_ended ns a sent

module _ (s : Surroundings) (a : ActivePlayback) (h : Undisturbed a) (sent : List (List ℕ)) where
  chosen : (x y : Point) (b : Bool) → b ≡ false → world a (if b then x else y) sent ≡ world a y sent
  chosen x y b e = ap (λ (c : Bool). world a (if c then x else y) sent) e

  abbrev waited : Player → MrrFrame → ℕ → ℕ
  waited p f now = wait_time s a.speed now p.playback_start p.first_frame_ts f

  -- The three steps up to a read.
  run_to_read :
      (p : Player) (n₁ n₂ n₃ : ℕ) (ns : List ℕ)
      → run s (n₁ ∷ n₂ ∷ n₃ ∷ ns) (world a (inner_stop p) sent)
        ≡ run s ns (world a (inner_read p) sent)
  unfolding task_step
  run_to_read p n₁ n₂ n₃ ns =
      run_step s n₁ (n₂ ∷ n₃ ∷ ns) (world a (inner_stop p) sent)
        (chosen after_stop (inner_pause p) a.stop_flag h.not_stopped)
      ∙ run_step s n₂ (n₃ ∷ ns) (world a (inner_pause p) sent)
          (chosen after_stop (inner_seek p) a.pause_flag h.not_paused)
      ∙ run_step s n₃ ns (world a (inner_seek p) sent) (from_none _ _ h.not_sought)

  -- The four steps up to a frame that is read.
  run_read :
      (p : Player) (f : MrrFrame) (r : MrrReader) (n₁ n₂ n₃ n₄ : ℕ) (ns : List ℕ)
      → read_frame p.mrr_reader ≡ ok (some f, r)
      → run s (n₁ ∷ n₂ ∷ n₃ ∷ n₄ ∷ ns) (world a (inner_stop p) sent)
        ≡ run s ns (world a (inner_send f (record p { mrr_reader = r })) sent)
  unfolding task_step read_point
  run_read p f r n₁ n₂ n₃ n₄ ns reads =
      run_to_read p n₁ n₂ n₃ (n₄ ∷ ns)
      ∙ run_step s n₄ ns (world a (inner_read p) sent)
          (ap (λ q. world a q sent) (rw (reads, read_point) refl))

  -- A frame whose time is near enough is sent.
  run_sent :
      (p : Player) (f : MrrFrame) (r : MrrReader) (n₁ n₂ n₃ n₄ now : ℕ) (ns : List ℕ)
      → read_frame p.mrr_reader ≡ ok (some f, r)
      → waited p f now ≤ max_wait
      → run s (n₁ ∷ n₂ ∷ n₃ ∷ n₄ ∷ now ∷ ns) (world a (inner_stop p) sent)
        ≡ run s ns (world (sent_state f p a) (inner_stop (played f r p)) (sent ++ (f.payload ∷ [])))
  unfolding task_step send_frame wait_time
  run_sent p f r n₁ n₂ n₃ n₄ now ns reads near =
      let e : ltb max_wait (waited p f now) ≡ false = ground (arith, near) in
      run_read p f r n₁ n₂ n₃ n₄ (now ∷ ns) reads
      ∙ run_step s now ns (world a (inner_send f (record p { mrr_reader = r })) sent) (
          ap
            (λ (b : Bool).
              if b
              then world a (inner_stop (timed f r p)) sent
              else world (sent_state f p a) (inner_stop (played f r p)) (sent ++ (f.payload ∷ [])))
            e)

  -- A frame whose time is more than 100 ms away is not sent, and the task goes on behind it.
  run_lost :
      (p : Player) (f : MrrFrame) (r : MrrReader) (n₁ n₂ n₃ n₄ now : ℕ) (ns : List ℕ)
      → read_frame p.mrr_reader ≡ ok (some f, r)
      → max_wait < waited p f now
      → run s (n₁ ∷ n₂ ∷ n₃ ∷ n₄ ∷ now ∷ ns) (world a (inner_stop p) sent)
        ≡ run s ns (world a (inner_stop (timed f r p)) sent)
  unfolding task_step send_frame wait_time
  run_lost p f r n₁ n₂ n₃ n₄ now ns reads far =
      let e : ltb max_wait (waited p f now) ≡ true = ground (arith, far) in
      run_read p f r n₁ n₂ n₃ n₄ (now ∷ ns) reads
      ∙ run_step s now ns (world a (inner_send f (record p { mrr_reader = r })) sent) (
          ap
            (λ (b : Bool).
              if b
              then world a (inner_stop (timed f r p)) sent
              else world (sent_state f p a) (inner_stop (played f r p)) (sent ++ (f.payload ∷ [])))
            e)

  -- At the end of the file, nine steps lead to the end of the task.
  run_end :
      (p : Player) (r : MrrReader) (n₁ n₂ n₃ n₄ n₅ n₆ n₇ n₈ n₉ : ℕ) (ns : List ℕ)
      → read_frame p.mrr_reader ≡ ok (none, r)
      → run s (n₁ ∷ n₂ ∷ n₃ ∷ n₄ ∷ n₅ ∷ n₆ ∷ n₇ ∷ n₈ ∷ n₉ ∷ ns) (world a (inner_stop p) sent)
        ≡ world (record a { stop_flag = true; state = stopped }) ended sent
  unfolding task_step read_point
  run_end p r n₁ n₂ n₃ n₄ n₅ n₆ n₇ n₈ n₉ ns reads =
      run_to_read p n₁ n₂ n₃ (n₄ ∷ n₅ ∷ n₆ ∷ n₇ ∷ n₈ ∷ n₉ ∷ ns)
      ∙ run_step s n₄ (n₅ ∷ n₆ ∷ n₇ ∷ n₈ ∷ n₉ ∷ ns) (world a (inner_read p) sent) (
          ap (λ q. world a q sent) {y = after_stop} (rw (reads, read_point) (rw h.not_looped refl)))
      ∙ run_step s n₅ (n₆ ∷ n₇ ∷ n₈ ∷ n₉ ∷ ns) (world a after_stop sent)
          (chosen finishing after_pause a.stop_flag h.not_stopped)
      ∙ run_step s n₆ (n₇ ∷ n₈ ∷ n₉ ∷ ns) (world a after_pause sent)
          (chosen outer_stop after_loop a.pause_flag h.not_paused)
      ∙ run_step s n₇ (n₈ ∷ n₉ ∷ ns) (world a after_loop sent)
          (chosen outer_stop finishing a.loop_playback h.not_looped)
      ∙ run_ended s ns (record a { stop_flag = true; state = stopped }) sent

-- Where nobody disturbs, the round of a frame whose time is more than 100 ms away when the task is
-- about to send it sends nothing, and the task goes on with the reader behind that frame.
pub far_frame-lost :
    (s : Surroundings) (a : ActivePlayback) (sent : List (List ℕ)) (p : Player) (f : MrrFrame)
    (r : MrrReader) (n₁ n₂ n₃ n₄ now : ℕ)
    → Undisturbed a
    → read_frame p.mrr_reader ≡ ok (some f, r)
    → max_wait < wait_time s a.speed now p.playback_start p.first_frame_ts f
    → run s (n₁ ∷ n₂ ∷ n₃ ∷ n₄ ∷ now ∷ []) (world a (inner_stop p) sent)
      ≡ world a (inner_stop (timed f r p)) sent
far_frame-lost s a sent p f r n₁ n₂ n₃ n₄ now h reads far =
    run_lost s a h sent p f r n₁ n₂ n₃ n₄ now [] reads far

-- Each frame is read at most 100 ms before its time: the fifth step of its round is timed so.
pub data Punctual (s : Surroundings) (speed playback_start : ℕ)
    : Option ℕ → List MrrFrame → List ℕ → Type 0 where
  at_end :
      {first : Option ℕ} (n₁ n₂ n₃ n₄ n₅ n₆ n₇ n₈ n₉ : ℕ) (ns : List ℕ)
      → Punctual s speed playback_start first [] (n₁ ∷ n₂ ∷ n₃ ∷ n₄ ∷ n₅ ∷ n₆ ∷ n₇ ∷ n₈ ∷ n₉ ∷ ns)
  on_time :
      {first : Option ℕ} {f : MrrFrame} {fs : List MrrFrame} (n₁ n₂ n₃ n₄ now : ℕ) (ns : List ℕ)
      → wait_time s speed now playback_start first f ≤ max_wait
      → Punctual s speed playback_start (some (first_ts f first)) fs ns
      → Punctual s speed playback_start first (f ∷ fs) (n₁ ∷ n₂ ∷ n₃ ∷ n₄ ∷ now ∷ ns)

abbrev pub position_after : ℕ → List MrrFrame → ℕ
position_after ms [] = ms
position_after ms (f ∷ fs) = position_after f.timestamp_ms fs

abbrev pub payloads : List MrrFrame → List (List ℕ)
payloads fs = map (λ f. f.payload) fs

-- The task has ended, stopped at this position, having sent these.
pub record Ended (position : ℕ) (sent : List (List ℕ)) (w : World) : Type 0 where
  pub point_is : w.point ≡ ended
  pub state_is : w.active.state ≡ stopped
  pub position_is : w.active.position_ms ≡ position
  pub sent_is : w.sent ≡ sent

-- From the inner loop on, nobody disturbing, frames that are read punctually are all sent, in order.
pub run-Ended :
    (s : Surroundings) (fs : List MrrFrame) (a : ActivePlayback) (p : Player) (nows : List ℕ)
    (sent : List (List ℕ))
    → Undisturbed a
    → Reads p.mrr_reader fs
    → Punctual s a.speed p.playback_start p.first_frame_ts fs nows
    → Ended
        (position_after a.position_ms fs)
        (sent ++ payloads fs)
        (run s nows (world a (inner_stop p) sent))
run-Ended s [] a p nows sent h reads (at_end n₁ n₂ n₃ n₄ n₅ n₆ n₇ n₈ n₉ ns) =
    subst (Ended a.position_ms (sent ++ []))
      (sym (run_end s a h sent p p.mrr_reader n₁ n₂ n₃ n₄ n₅ n₆ n₇ n₈ n₉ ns reads))
      (record {
        point_is = refl;
        state_is = refl;
        position_is = refl;
        sent_is = sym (append-nil sent);
      })
run-Ended s (f ∷ fs) a p nows sent h (r, read, reads) (on_time n₁ n₂ n₃ n₄ now ns near on) =
    let here = run_sent s a h sent p f r n₁ n₂ n₃ n₄ now ns read near in
    let h' : Undisturbed (sent_state f p a) = record {
      not_stopped = h.not_stopped;
      not_paused = h.not_paused;
      not_looped = h.not_looped;
      not_sought = h.not_sought;
    } in
    let rest =
      run-Ended s fs (sent_state f p a) (played f r p) ns (sent ++ (f.payload ∷ [])) h' reads on in
    let position = position_after f.timestamp_ms fs in
    let all : (sent ++ (f.payload ∷ [])) ++ payloads fs ≡ sent ++ payloads (f ∷ fs) =
      append_assoc sent (f.payload ∷ []) (payloads fs) in
    subst (Ended position (sent ++ payloads (f ∷ fs))) (sym here) (
      subst
        (λ xs. Ended position xs (
          run s ns
            (world (sent_state f p a) (inner_stop (played f r p)) (sent ++ (f.payload ∷ [])))))
        all rest)

abbrev pub resumed : World
unfolding start
resumed = record start { active = command resume loaded_playback }

-- The player of a file that was just opened at its first frame.
abbrev pub fresh : MrrReader → ℕ → Player
fresh r now = record {
  mrr_reader = r;
  playback_start = now;
  first_frame_ts = none;
  frames_played = 0;
}

-- A playback that is resumed and not disturbed opens its file and, if each frame of it is read at
-- most 100 ms before its time, sends the data of all its frames in order; then it ends, stopped at
-- the last frame's time.
pub resumed-Ended :
    (s : Surroundings) (content : List ℕ) (r : MrrReader) (fs : List MrrFrame) (n₁ n₂ n₃ n₄ : ℕ)
    (nows : List ℕ)
    → s.open_file ≡ some content
    → reader_open content ≡ ok r
    → Reads r fs
    → Punctual s 100 n₄ none fs nows
    → Ended (position_after 0 fs) (payloads fs) (run s (n₁ ∷ n₂ ∷ n₃ ∷ n₄ ∷ nows) resumed)
unfolding start loaded_playback command task_step play_state opened_point seek_first
resumed-Ended s content r fs n₁ n₂ n₃ n₄ nows file opens reads on =
    subst
      (λ q.
        Ended (position_after 0 fs) (payloads fs) (run s nows (task_step s n₄ (world runs q []))))
      (sym at_reader) (run-Ended s fs runs (fresh r n₄) nows [] calm reads on)
  where
    at_reader : opened_point s.open_file ≡ outer_seek r
    at_reader = rw file (rw (opens, opened_point) refl)

    runs : ActivePlayback
    runs = record (command resume loaded_playback) { state = playing }

    calm : Undisturbed runs
    calm = record { not_stopped = refl; not_paused = refl; not_looped = refl; not_sought = refl }
