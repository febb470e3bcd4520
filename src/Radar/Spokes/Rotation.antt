-- ===== src/Radar/Spokes/Rotation.antt =====
-- The counters and the mask of `CommonRadar` of src/lib/radar/mod.rs over any sequence of calls.
use mathlib.Core.Path.{subst}
use mayara_server.Common.{
  ==_iff, ◌&&◌, ◌⊎◌, ℕ, ◌+◌, ◌≡◌, refl, sym, ap, ◌∙◌, arith, Bool, true, false, not, ◌||◌, List, [],
  ◌∷◌, ◌++◌, Option, none, some, Result, ok, ◌>>=◌, ◌>>◌, guard, length, ltb, ◌==◌, if◌then◌else◌,
  Bool-cases, inl, inr, Ensures, holds, Ensures-elim, Ensures-bind, Ensures-ok, Ensures-any,
}
use mayara_server.Radar.Exclusion.{Fault, division_by_zero}
use mayara_server.Radar.Spokes.{
  Spoke, ExclusionZone, ExclusionRect, broadcast, CommonRadar, common_radar_new, Env, u32,
  new_spoke_message, send_spoke_message, is_current, rebuild_mask, refresh_exclusion_mask,
  set_exclusion_zone, set_exclusion_rect, mark_end, apply_mask, to_protobuf_spoke, counted,
  count_rotation, push_spoke, add_spoke, heading_events, set_heading_true,
}
use mayara_server.Radar.Spokes.Tally.{tally, tally-append, on_true}
use mayara_server.Radar.Spokes.Cleared.{MaskFor, zones_at, rects_at, &&-true}

-- The mask that is kept belongs to the zones at the range and spoke length noted with it, unless
-- they have changed: then the range noted is zero.
abbrev pub IsKept : Bool → CommonRadar → Type 0
IsKept changed c =
    (c.exclusion_mask ≡ none)
    ⊎ ((changed ≡ true) × (c.current_exclusion_range ≡ 0))
    ⊎ MaskFor (zones_at c.current_exclusion_range c.current_exclusion_spoke_len c)
        (rects_at c.current_exclusion_range c.current_exclusion_spoke_len c) c.spokes_per_revolution
        c.current_exclusion_spoke_len c.exclusion_mask

-- `changed` says whether a zone or rectangle was changed since the last spoke with a range.
pub record IsRadar (changed : Bool) (c : CommonRadar) : Type 0 where
  pub kept : IsKept changed c
  pub moving : c.stationary ≡ false → c.exclusion_mask ≡ none
  pub tallied : tally 0 c.events ≡ some c.spoke_count

-- The calls of a receiver, of the handler of its controls, and of the navigation data.
pub data Call : Type 0 where
  begin_message : ℕ → Call
  add : Env → ℕ → ℕ → Option ℕ → List ℕ → Call
  send_message : Call
  change_zone : ℕ → Option ExclusionZone → Call
  change_rect : ℕ → Option ExclusionRect → Call
  hear_heading : Option ℕ → Call

abbrev pub call : Call → CommonRadar → Result Fault CommonRadar
call (begin_message now) c = ok (new_spoke_message now c)
call (add env range angle heading ps) c = add_spoke env range angle heading ps c
call send_message c = ok (send_spoke_message c)
call (change_zone i z) c = ok (set_exclusion_zone i z c)
call (change_rect i rect) c = ok (set_exclusion_rect i rect c)
call (hear_heading heading) c = ok (set_heading_true heading c)

abbrev pub calls : List Call → CommonRadar → Result Fault CommonRadar
calls [] c = ok c
calls (k ∷ ks) c = call k c >>= calls ks

-- Whether the zones have changed since the last spoke with a range, after one call more.
abbrev pub changed_by : Call → Bool → Bool
changed_by (change_zone i z) changed = true
changed_by (change_rect i rect) changed = true
changed_by (add env range angle heading ps) changed = not (ltb 0 range) && changed
changed_by k changed = changed

abbrev pub changed_after : List Call → Bool → Bool
changed_after [] changed = changed
changed_after (k ∷ ks) changed = changed_after ks (changed_by k changed)

-- A mask that is current for a spoke with a range was made after the last change.
current-IsKept :
    (range spoke_len : ℕ) (changed : Bool) (c : CommonRadar)
    → is_current range spoke_len c ≡ true
    → IsKept changed c
    → IsKept (not (ltb 0 range) && changed) c
unfolding is_current
current-IsKept range spoke_len changed c current (inl absent) = inl absent
current-IsKept range spoke_len changed c current (inr (inr made)) = inr (inr made)
current-IsKept range spoke_len changed c current (inr (inl (was, zeroed))) =
    let same : range ≡ c.current_exclusion_range =
      (==_iff _ _).0 (&&-true (range == c.current_exclusion_range) _ current).0 in
    let none_left : ltb 0 range ≡ false = ground (arith, same, zeroed) in
    inr (inl (rw none_left was, zeroed))

-- What a refresh of the mask keeps.
refresh-Keeps :
    (range spoke_len : ℕ) (changed : Bool) (c : CommonRadar)
    → IsRadar changed c
    → Ensures (IsRadar (not (ltb 0 range) && changed)) (refresh_exclusion_mask range spoke_len c)
unfolding refresh_exclusion_mask rebuild_mask
refresh-Keeps range spoke_len changed c h = elim (Bool-cases c.stationary) [
  | inr moves ↦
      let test : (not c.stationary || is_current range spoke_len c) ≡ true =
        ap (λ b. not b || is_current range spoke_len c) moves in
      chosen test (record { kept = inl (h.moving moves); moving = h.moving; tallied = h.tallied })
  | inl fixed ↦ elim (Bool-cases (is_current range spoke_len c)) [
    | inl current ↦
        let test : (not c.stationary || is_current range spoke_len c) ≡ true =
          ap (λ b. not b || is_current range spoke_len c) fixed ∙ current in
        chosen test (record {
          kept = current-IsKept range spoke_len changed c current h.kept;
          moving = h.moving;
          tallied = h.tallied;
        })
    | inr stale ↦
        let test : (not c.stationary || is_current range spoke_len c) ≡ false =
          ap (λ b. not b || is_current range spoke_len c) fixed ∙ stale in
        subst
          (λ (b : Bool).
            Ensures (IsRadar (not (ltb 0 range) && changed))
              (if b then ok c else rebuild_mask range spoke_len c))
          (sym test) (rebuilt fixed)
  ]
]
  where
    chosen :
        (not c.stationary || is_current range spoke_len c) ≡ true
        → IsRadar (not (ltb 0 range) && changed) c
        → Ensures (IsRadar (not (ltb 0 range) && changed)) (
            if not c.stationary || is_current range spoke_len c
            then ok c
            else rebuild_mask range spoke_len c)
    chosen test k =
        subst
          (λ (b : Bool).
            Ensures (IsRadar (not (ltb 0 range) && changed))
              (if b then ok c else rebuild_mask range spoke_len c))
          (sym test) (Ensures-ok _ k)

    fixed_moves : {X : Type 0} {b : Bool} → b ≡ true → b ≡ false → X
    fixed_moves {b = true} e f = cc
    fixed_moves {b = false} e f = cc

    rebuilt :
        c.stationary ≡ true
        → Ensures (IsRadar (not (ltb 0 range) && changed)) (rebuild_mask range spoke_len c)
    rebuilt fixed =
        Ensures-bind
          (λ mask.
            MaskFor (zones_at range spoke_len c) (rects_at range spoke_len c)
              c.spokes_per_revolution spoke_len mask)
          (holds λ mask made. made)
          λ mask made. Ensures-ok _ (record {
            kept = inr (inr made);
            moving = λ moves. fixed_moves fixed moves;
            tallied = h.tallied;
          })

count_rotation-IsRadar :
    (angle : ℕ) (changed : Bool) (c : CommonRadar)
    → IsRadar changed c
    → IsRadar changed (count_rotation angle c)
unfolding count_rotation tally
count_rotation-IsRadar angle changed c h = elim (Bool-cases (ltb angle c.prev_angle)) [
  | inl turned ↦ rw turned (record {
    kept = h.kept;
    moving = h.moving;
    tallied =
        tally-append 0 c.spoke_count c.events _ h.tallied ∙ on_true (some 0) (self c.spoke_count);
  })
  | inr onward ↦ rw onward h
]
  where
    self : (n : ℕ) → (n == n) ≡ true
    self n = ground arith

counted-IsRadar :
    (env : Env) (spoke : Spoke) (spokes : List Spoke) (changed : Bool) (c : CommonRadar)
    → IsRadar changed c
    → IsRadar changed (counted env spoke spokes c)
unfolding counted tally
counted-IsRadar env spoke spokes changed c h = record {
  kept = h.kept;
  moving = h.moving;
  tallied = tally-append 0 c.spoke_count c.events _ h.tallied ∙ heading spoke.bearing;
}
  where
    heading :
        (b : Option ℕ)
        → tally
            (u32 (c.spoke_count + 1))
            (heading_events c.spokes_per_revolution (record spoke { bearing = b }))
          ≡ some (u32 (c.spoke_count + 1))
    heading none = refl
    heading (some b) = refl

Ensures-guarded :
    {A : Type 0} {P : A → Type 0} (b : Bool) (e : Fault) {r : Result Fault A}
    → Ensures P r
    → Ensures P (guard b e >> r)
Ensures-guarded true e h = h
Ensures-guarded false e h = holds λ a eq. cc

Ensures-option :
    {A B : Type 0} (P : A → Type 0) (x : Result Fault A) (f : B → Result Fault A) (o : Option B)
    → Ensures P x
    → ((v : B) → Ensures P (f v))
    → Ensures P (elim o [ none ↦ x | some v ↦ f v ])
Ensures-option P x f none hx hf = hx
Ensures-option P x f (some v) hx hf = hf v

push_spoke-IsRadar :
    (env : Env) (spoke : Spoke) (spokes : List Spoke) (changed : Bool) (c : CommonRadar)
    → IsRadar changed c
    → Ensures (IsRadar changed) (push_spoke env spoke spokes c)
unfolding push_spoke
push_spoke-IsRadar env spoke spokes changed c h =
    let turned =
      count_rotation-IsRadar spoke.angle changed (counted env spoke spokes c)
        (counted-IsRadar env spoke spokes changed c h) in
    Ensures-guarded _ division_by_zero (
      Ensures-ok (IsRadar changed)
        (record { kept = turned.kept; moving = turned.moving; tallied = turned.tallied }))

add_spoke-IsRadar :
    (env : Env) (range angle : ℕ) (heading : Option ℕ) (ps : List ℕ) (changed : Bool)
    (c : CommonRadar)
    → IsRadar changed c
    → Ensures (IsRadar (not (ltb 0 range) && changed)) (add_spoke env range angle heading ps c)
unfolding add_spoke
add_spoke-IsRadar env range angle heading ps changed c h =
    let left = not (ltb 0 range) && changed in
    Ensures-bind (IsRadar left) (refresh-Keeps range (length ps) changed c h) λ d hd.
      Ensures-option (IsRadar left) (ok d) _ d.spoke_message (Ensures-ok (IsRadar left) hd)
        λ spokes.
          Ensures-bind (λ _. Unit {0})
            (Ensures-any (apply_mask d.exclusion_mask angle (mark_end d ps)))
            λ shown _.
              Ensures-bind (λ _. Unit {0})
                (Ensures-any (to_protobuf_spoke d.nav_heading _ range angle heading _ _))
                λ spoke _. push_spoke-IsRadar env spoke spokes left d hd

send_spoke_message-IsRadar :
    (changed : Bool) (c : CommonRadar) → IsRadar changed c → IsRadar changed (send_spoke_message c)
unfolding send_spoke_message tally
send_spoke_message-IsRadar changed c h = by_message c.spoke_message
  where
    by_message :
        (message : Option (List Spoke))
        → IsRadar changed (elim message [
          | none ↦ c
          | some [] ↦ record c { spoke_message = none }
          | some (spoke ∷ spokes) ↦ record c {
            spoke_message = none;
            events = c.events ++ (broadcast (spoke ∷ spokes) ∷ []);
          }
        ])
    by_message none = h
    by_message (some []) = record { kept = h.kept; moving = h.moving; tallied = h.tallied }
    by_message (some (spoke ∷ spokes)) = record {
      kept = h.kept;
      moving = h.moving;
      tallied = tally-append 0 c.spoke_count c.events _ h.tallied;
    }

call-IsRadar :
    (k : Call) (changed : Bool) (c : CommonRadar)
    → IsRadar changed c
    → Ensures (IsRadar (changed_by k changed)) (call k c)
unfolding new_spoke_message set_exclusion_zone set_exclusion_rect set_heading_true
call-IsRadar (begin_message now) changed c h =
    Ensures-ok _ (record { kept = h.kept; moving = h.moving; tallied = h.tallied })
call-IsRadar (add env range angle heading ps) changed c h =
    add_spoke-IsRadar env range angle heading ps changed c h
call-IsRadar send_message changed c h = Ensures-ok _ (send_spoke_message-IsRadar changed c h)
call-IsRadar (change_zone i z) changed c h =
    Ensures-ok _ (record { kept = inr (inl (refl, refl)); moving = h.moving; tallied = h.tallied })
call-IsRadar (change_rect i rect) changed c h =
    Ensures-ok _ (record { kept = inr (inl (refl, refl)); moving = h.moving; tallied = h.tallied })
call-IsRadar (hear_heading heading) changed c h =
    Ensures-ok _ (record { kept = h.kept; moving = h.moving; tallied = h.tallied })

calls-IsRadar :
    (ks : List Call) (changed : Bool) (c : CommonRadar)
    → IsRadar changed c
    → Ensures (IsRadar (changed_after ks changed)) (calls ks c)
calls-IsRadar [] changed c h = Ensures-ok _ h
calls-IsRadar (k ∷ ks) changed c h =
    Ensures-bind (IsRadar (changed_by k changed)) (call-IsRadar k changed c h)
      λ d hd. calls-IsRadar ks (changed_by k changed) d hd

-- Whatever calls follow on a new radar, if they return: the mask that is kept belongs to the zones
-- at the range and spoke length noted with it, except from a change of a zone or rectangle to the
-- next spoke of a range that is not zero, when the range noted may be zero instead; a radar that is
-- not stationary has no mask; each number of spokes that was handed on at the end of a rotation is
-- the number of spokes counted since the last one, modulo 2^32, and the counter is what has come
-- since; and no message without a spoke was sent.
pub calls-IsRadar_new :
    (ks : List Call) (c : CommonRadar) (spokes_per_revolution pixel_colors legend_len : ℕ)
    (stationary replay : Bool) (zones : List (Option ExclusionZone))
    (rects : List (Option ExclusionRect))
    → calls ks (
        common_radar_new spokes_per_revolution pixel_colors legend_len stationary replay zones
          rects)
      ≡ ok c
    → IsRadar (changed_after ks false) c
unfolding common_radar_new tally
calls-IsRadar_new ks c spokes_per_revolution pixel_colors legend_len stationary replay zones rects
      e =
    Ensures-elim
      (calls-IsRadar ks false _
        (record { kept = inl refl; moving = λ moves. refl; tallied = refl }))
      e
