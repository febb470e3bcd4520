-- ===== src/Navico/Frames.antt =====
-- Whole frames of src/lib/brand/navico/report.rs: from the datagram to the message that is sent.
use mayara_server.Common.{ℕ, ◌≡◌, List, [], ◌∷◌, ◌++◌, Option, none, some}
use mayara_server.Radar.Legend.{Legend}
use mayara_server.Radar.Spokes.{Spoke, CommonRadar}
use mayara_server.Radar.Spokes.Plain.{messages, IsPlain}

-- No message is sent without a spoke.
unfoldable pub message_with : List Spoke → List (List Spoke)
message_with [] = []
message_with (s ∷ ss) = (s ∷ ss) ∷ []

begun_message : Option (List Spoke) → List (List Spoke)
unfolding message_with
begun_message none = []
begun_message (some spokes) = message_with spokes

pub record Sent (before : List (List Spoke)) (spokes : List Spoke) (nav_heading : Option ℕ)
    (c : CommonRadar) : Type 0 where
  pub plain : IsPlain c
  pub nothing_left : c.spoke_message ≡ none
  pub sent_messages : messages c.events ≡ before ++ message_with spokes
  pub told : c.nav_heading ≡ nav_heading
