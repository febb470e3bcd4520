-- ===== src/Radar/Spokes/Plain.antt =====
-- `add_spoke` of src/lib/radar/mod.rs for a radar that is not stationary, where no mask is made, and
-- what is sent of it.
use mayara_server.Common.{
  ℕ, ◌+◌, ◌-◌, ◌/◌, ◌%◌, ◌≡◌, refl, ap, ◌∙◌, arith, false, not, ◌||◌, List, [], ◌∷◌, ◌++◌,
  append-nil, Option, none, some, ok, length, ltb, if◌then◌else◌, Bool-cases, inl, inr,
}
use mayara_server.Radar.Spokes.{
  Spoke, Event, set_heading, process_spoke, full_rotation, set_spokes, set_spoke_length, broadcast,
  CommonRadar, Env, bearing_of, is_current, refresh_exclusion_mask, rebuild_mask, counted,
  count_rotation, add_spoke, apply_mask, heading_events, heading_spokes, heading_after, u16,
}
use mayara_server.Radar.Spokes.Cleared.{
  add_spoke_steps, mark_end-live, verify_pixels-quiet, pushed, push_spoke-pushed,
}

-- The messages among the events.
unfoldable pub messages : List Event → List (List Spoke)
messages [] = []
messages (broadcast spokes ∷ es) = spokes ∷ messages es
messages (set_heading h ∷ es) = messages es
messages (process_spoke s ∷ es) = messages es
messages (full_rotation ∷ es) = messages es
messages (set_spokes n ∷ es) = messages es
messages (set_spoke_length n ∷ es) = messages es

pub messages-append : (es more : List Event) → messages (es ++ more) ≡ messages es ++ messages more
unfolding messages
messages-append [] more = refl
messages-append (broadcast spokes ∷ es) more = ap (λ ms. spokes ∷ ms) (messages-append es more)
messages-append (set_heading h ∷ es) more = messages-append es more
messages-append (process_spoke s ∷ es) more = messages-append es more
messages-append (full_rotation ∷ es) more = messages-append es more
messages-append (set_spokes n ∷ es) more = messages-append es more
messages-append (set_spoke_length n ∷ es) more = messages-append es more

-- A radar that moves with its ship, is not replayed, and has 2048 spokes to a revolution.
pub record IsPlain (c : CommonRadar) : Type 0 where
  pub moves : c.stationary ≡ false
  pub live : c.replay ≡ false
  pub no_mask : c.exclusion_mask ≡ none
  pub spokes : c.spokes_per_revolution ≡ 2048

-- The bearing: from the heading that comes with a spoke, in steps of a 4096th, else from the true
-- heading in spokes, if that is known.
unfoldable pub bearing : Option ℕ → ℕ → Option ℕ → Option ℕ
bearing nav_heading angle (some h) = some ((h / 2 + angle) % 2048)
bearing none angle none = none
bearing (some h) angle none = some ((h + angle) % 2048)

-- The true heading after a spoke: a bearing tells it, as it comes back from being kept.
unfoldable pub heading_from : Env → ℕ → Option ℕ → Option ℕ → Option ℕ
heading_from env angle none nav_heading = nav_heading
heading_from env angle (some b) nav_heading =
    some (env.kept_heading 2048 ((b + (2048 - angle % 2048)) % 2048))

-- The spoke that is sent, with the trails drawn.
unfoldable pub sent : Env → ℕ → Option ℕ → ℕ → ℕ → List ℕ → Spoke
sent env time b range angle ps =
    let spoke : Spoke = record {
      angle = angle;
      bearing = b;
      range = range;
      time = some time;
      pixels = ps;
    } in
    record spoke { pixels = env.update_trails spoke }

wrap : (n : ℕ) → u16 n % 2048 ≡ n % 2048
wrap n = omega arith

bearing_of-bearing :
    (nav_heading : Option ℕ) (angle : ℕ) (heading : Option ℕ)
    → bearing_of nav_heading 2048 angle heading ≡ ok (bearing nav_heading angle heading)
unfolding bearing_of bearing
bearing_of-bearing nav_heading angle (some h) = ap (λ b. ok (some b)) (wrap (h / 2 + angle))
bearing_of-bearing none angle none = refl
bearing_of-bearing (some h) angle none = ap (λ b. ok (some b)) (wrap (h + angle))

turned_back : (b angle : ℕ) → heading_spokes 2048 b angle ≡ (b + (2048 - angle % 2048)) % 2048
turned_back b angle = omega arith

heading_after-from :
    (env : Env) (n : ℕ) (spoke : Spoke) (nav_heading : Option ℕ)
    → n ≡ 2048
    → heading_after env n spoke nav_heading ≡ heading_from env spoke.angle spoke.bearing nav_heading
unfolding heading_after heading_from
heading_after-from env n spoke nav_heading e = rw e (by_bearing spoke.bearing)
  where
    by_bearing :
        (bearing : Option ℕ)
        → heading_after env 2048 (record spoke { bearing = bearing }) nav_heading
          ≡ heading_from env spoke.angle bearing nav_heading
    by_bearing none = refl
    by_bearing (some b) = ap (λ k. some (env.kept_heading 2048 k)) (turned_back b spoke.angle)

-- What `pushed` does to the messages and to what `IsPlain` reads.
pushed-IsPlain :
    (env : Env) (spoke : Spoke) (spokes : List Spoke) (c : CommonRadar)
    → IsPlain c
    → IsPlain (pushed env spoke spokes c)
      × (messages (pushed env spoke spokes c).events ≡ messages c.events)
      × ((pushed env spoke spokes c).spoke_time ≡ c.spoke_time)
      × ((pushed env spoke spokes c).nav_heading
          ≡ heading_from env spoke.angle spoke.bearing c.nav_heading)
unfolding pushed count_rotation counted messages
pushed-IsPlain env spoke spokes c h = elim (Bool-cases (ltb spoke.angle c.prev_angle)) [
  | inl turned ↦ rw turned (
    record { moves = h.moves; live = h.live; no_mask = h.no_mask; spokes = h.spokes },
    messages-append (counted env spoke spokes c).events _ ∙ append-nil _ ∙ one,
    refl,
    told,
  )
  | inr onward ↦ rw onward (
    record { moves = h.moves; live = h.live; no_mask = h.no_mask; spokes = h.spokes },
    one,
    refl,
    told,
  )
]
  where
    told :
        heading_after env c.spokes_per_revolution spoke c.nav_heading
        ≡ heading_from env spoke.angle spoke.bearing c.nav_heading
    told = heading_after-from env c.spokes_per_revolution spoke c.nav_heading h.spokes

    by_bearing :
        (b : Option ℕ)
        → messages (heading_events c.spokes_per_revolution (record spoke { bearing = b })) ≡ []
    by_bearing none = refl
    by_bearing (some b) = refl

    one : messages (counted env spoke spokes c).events ≡ messages c.events
    one =
        messages-append c.events _
        ∙ ap (λ (ms : List (List Spoke)). messages c.events ++ ms) (by_bearing spoke.bearing)
        ∙ append-nil _

pub refresh_moving :
    (range spoke_len : ℕ) (c : CommonRadar)
    → c.stationary ≡ false
    → refresh_exclusion_mask range spoke_len c ≡ ok c
unfolding refresh_exclusion_mask
refresh_moving range spoke_len c moves =
    ap (λ b. if not b || is_current range spoke_len c then ok c else rebuild_mask range spoke_len c)
      moves

-- What a spoke does to a radar that has begun a message.
pub record Added (env : Env) (range angle : ℕ) (heading : Option ℕ) (ps : List ℕ) (c : CommonRadar)
    (spokes : List Spoke) (c' : CommonRadar) : Type 0 where
  pub plain : IsPlain c'
  pub message :
      c'.spoke_message
      ≡ some (
          spokes
          ++ (sent env c.spoke_time (bearing c.nav_heading angle heading) range angle ps ∷ []))
  pub same_messages : messages c'.events ≡ messages c.events
  pub same_time : c'.spoke_time ≡ c.spoke_time
  pub told :
      c'.nav_heading ≡ heading_from env angle (bearing c.nav_heading angle heading) c.nav_heading

pub add_spoke-sent :
    (env : Env) (range angle : ℕ) (heading : Option ℕ) (ps : List ℕ) (c : CommonRadar)
    (spokes : List Spoke)
    → IsPlain c
    → env.trace ≡ false
    → c.spoke_message ≡ some spokes
    → (c' : CommonRadar) × (add_spoke env range angle heading ps c ≡ ok c')
      × Added env range angle heading ps c spokes c'
unfolding sent
add_spoke-sent env range angle heading ps c spokes h quiet begun =
    let b = bearing c.nav_heading angle heading in
    let spoke : Spoke = record {
      angle = angle;
      bearing = b;
      range = range;
      time = some c.spoke_time;
      pixels = ps;
    } in
    let (done, message, _) = push_spoke-pushed env spoke spokes c (omega (arith, h.spokes)) in
    let (plain, same_messages, same_time, told) = pushed-IsPlain env spoke spokes c h in
    (
      pushed env spoke spokes c,
      add_spoke_steps env range angle heading ps ps c c (pushed env spoke spokes c) spokes b
          (refresh_moving range (length ps) c h.moves) begun (mark_end-live c ps h.live)
          (ap (λ m. apply_mask m angle ps) h.no_mask)
          (ap (λ n. bearing_of c.nav_heading n angle heading) h.spokes
            ∙ bearing_of-bearing c.nav_heading angle heading)
          (verify_pixels-quiet env c.legend_len ps quiet) done,
      record {
        plain = plain;
        message = message;
        same_messages = same_messages;
        same_time = same_time;
        told = told;
      },
    )
