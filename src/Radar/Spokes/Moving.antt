-- ===== src/Radar/Spokes/Moving.antt =====
-- `CommonRadar` of src/lib/radar/mod.rs on a radar that is not stationary takes any spoke.
use mayara_server.Common.{
  ℕ, ◌<◌, ◌≡◌, refl, ap, ◌∙◌, false, List, [], ◌∷◌, ◌++◌, Option, none, some, ok, length, ltb,
  Bool-cases, Option-cases, inl, inr,
}
use mayara_server.Radar.Spokes.{
  Spoke, broadcast, CommonRadar, Env, to_protobuf_spoke, mark_end, verify_pixels, apply_mask,
  counted, count_rotation, add_spoke, new_spoke_message, send_spoke_message,
}
use mayara_server.Radar.Spokes.Cleared.{bearing_of-ok, pushed, push_spoke-pushed}
use mayara_server.Radar.Spokes.Plain.{refresh_moving}

-- A radar that moves with its ship has no mask.
pub record IsMoving (c : CommonRadar) : Type 0 where
  pub moves : c.stationary ≡ false
  pub no_mask : c.exclusion_mask ≡ none
  pub some_spokes : 0 < c.spokes_per_revolution

pushed-IsMoving :
    (env : Env) (spoke : Spoke) (spokes : List Spoke) (c : CommonRadar)
    → IsMoving c
    → IsMoving (pushed env spoke spokes c)
unfolding pushed count_rotation counted
pushed-IsMoving env spoke spokes c h = elim (Bool-cases (ltb spoke.angle c.prev_angle)) [
  | inl turned ↦
      rw turned (record { moves = h.moves; no_mask = h.no_mask; some_spokes = h.some_spokes })
  | inr onward ↦
      rw onward (record { moves = h.moves; no_mask = h.no_mask; some_spokes = h.some_spokes })
]

pub add_spoke-IsMoving :
    (env : Env) (range angle : ℕ) (heading : Option ℕ) (ps : List ℕ) (c : CommonRadar)
    → IsMoving c
    → (c' : CommonRadar) × (add_spoke env range angle heading ps c ≡ ok c') × IsMoving c'
unfolding add_spoke to_protobuf_spoke
add_spoke-IsMoving env range angle heading ps c h =
    let refreshed = refresh_moving range (length ps) c h.moves in
    let (b, bearing) =
      bearing_of-ok c.nav_heading c.spokes_per_revolution angle heading h.some_spokes in
    elim (Option-cases c.spoke_message) [
      | inl idle ↦ (c, rw refreshed (from_none _ _ idle), h)
      | inr (spokes, begun) ↦
          let spoke : Spoke = record {
            angle = angle;
            bearing = b;
            range = range;
            time = some c.spoke_time;
            pixels = verify_pixels env c.legend_len (mark_end c ps);
          } in
          (
            pushed env spoke spokes c,
            rw refreshed (
                from_some _ _ spokes begun
                ∙ rw (ap (λ m. apply_mask m angle (mark_end c ps)) h.no_mask)
                    (rw bearing (push_spoke-pushed env spoke spokes c h.some_spokes).0)),
            pushed-IsMoving env spoke spokes c h,
          )
    ]
  where
    from_none :
        {A : Type 0} {B : Type 0} (x : B) (f : A → B) {t : Option A}
        → t ≡ none
        → ◌≡◌ {A = B} (elim t [ none ↦ x | some w ↦ f w ]) x
    from_none x f e = rw e refl

    from_some :
        {A : Type 0} {B : Type 0} (x : B) (f : A → B) {t : Option A} (v : A)
        → t ≡ some v
        → ◌≡◌ {A = B} (elim t [ none ↦ x | some w ↦ f w ]) (f v)
    from_some x f v e = rw e refl

pub new_spoke_message-IsMoving :
    (now : ℕ) (c : CommonRadar) → IsMoving c → IsMoving (new_spoke_message now c)
unfolding new_spoke_message
new_spoke_message-IsMoving now c h = record {
  moves = h.moves;
  no_mask = h.no_mask;
  some_spokes = h.some_spokes;
}

pub send_spoke_message-IsMoving : (c : CommonRadar) → IsMoving c → IsMoving (send_spoke_message c)
unfolding send_spoke_message
send_spoke_message-IsMoving c h = by_message c.spoke_message
  where
    by_message :
        (message : Option (List Spoke))
        → IsMoving (elim message [
          | none ↦ c
          | some [] ↦ record c { spoke_message = none }
          | some (spoke ∷ more) ↦ record c {
            spoke_message = none;
            events = c.events ++ (broadcast (spoke ∷ more) ∷ []);
          }
        ])
    by_message none = h
    by_message (some []) = record {
      moves = h.moves;
      no_mask = h.no_mask;
      some_spokes = h.some_spokes;
    }
    by_message (some (spoke ∷ more)) = record {
      moves = h.moves;
      no_mask = h.no_mask;
      some_spokes = h.some_spokes;
    }
