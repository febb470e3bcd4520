-- ===== src/Furuno/Frame/Deliver.antt =====
-- The frames of src/lib/brand/furuno/report.rs on the two radars (`CommonRadar` of
-- src/lib/radar/mod.rs) of the receiver: the events are the calls that it makes of them, in order.
use mayara_server.Common.{ℕ, ◌≡◌, Bool, true, false, List, [], ◌∷◌, ◌++◌, Result, ok, ◌>>=◌}
use mayara_server.Radar.Exclusion
use mayara_server.Radar.Spokes
use mayara_server.Radar.Spokes.{CommonRadar}
use mayara_server.Radar.Spokes.Moving.{IsMoving}
use mayara_server.Furuno.Frame.{
  Env, Event, new_spoke_message, set_range_and_transmit, add_spoke, send_spoke_message, Receiver,
}

-- The radars of Range A and Range B.
pub record Radars : Type 0 where
  pub common : CommonRadar
  pub common_b : CommonRadar

abbrev radar_of : Bool → Radars → CommonRadar
radar_of true rs = rs.common_b
radar_of false rs = rs.common

abbrev with_radar : Bool → CommonRadar → Radars → Radars
with_radar true c rs = record rs { common_b = c }
with_radar false c rs = record rs { common = c }

-- One call. The controls that are set in replay are not part of a `CommonRadar` here.
unfoldable pub deliver_one : Spokes.Env → ℕ → Event → Radars → Result Exclusion.Fault Radars
deliver_one env now (new_spoke_message b) rs =
    ok (with_radar b (Spokes.new_spoke_message now (radar_of b rs)) rs)
deliver_one env now (set_range_and_transmit b range) rs = ok rs
deliver_one env now (add_spoke b range angle heading pixels) rs =
    Spokes.add_spoke env range angle heading pixels (radar_of b rs) >>= λ c. ok (with_radar b c rs)
deliver_one env now (send_spoke_message b) rs =
    ok (with_radar b (Spokes.send_spoke_message (radar_of b rs)) rs)

unfoldable pub deliver : Spokes.Env → ℕ → List Event → Radars → Result Exclusion.Fault Radars
deliver env now [] rs = ok rs
deliver env now (e ∷ es) rs = deliver_one env now e rs >>= deliver env now es

-- Both radars move with the ship.
pub record AreMoving (rs : Radars) : Type 0 where
  pub a_moves : IsMoving rs.common
  pub b_moves : IsMoving rs.common_b

-- The receiver and its radars after a frame: what was handed on has reached the radars.
pub record Delivered (shared : Spokes.Env) (now : ℕ) (r : Receiver) (rs : Radars) (r' : Receiver)
    : Type 0 where
  pub calls : List Event
  pub events_are : r'.events ≡ r.events ++ calls
  pub radars : Radars
  pub delivered : deliver shared now calls rs ≡ ok radars
  pub still_moving : AreMoving radars
