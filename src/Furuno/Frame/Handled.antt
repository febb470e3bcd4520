-- ===== src/Furuno/Frame/Handled.antt =====
-- What `process_frame` of src/lib/brand/furuno/report.rs hands on, and what it leaves alone.
use Prim.Native.Nat.{bit_and}
use mayara_server.Common.{
  ℕ, zero, suc, ◌+◌, ◌/◌, ◌%◌, ◌^◌, ◌<◌, ◌≡◌, arith, refl, sym, ◌∙◌, Bool, true, false, not, ◌&&◌,
  List, [], ◌∷◌, ◌++◌, ok, Ensures, Ensures-elim, Ensures-bind, Ensures-ok, Ensures-any, holds,
  length, drop, take, get_or, ltb, ◌==◌, if◌then◌else◌, Bool-cases, inl, inr, append_assoc,
  append-nil, length-map, min,
}
use mayara_server.Bytes.Laws.{All-append}
use mayara_server.Bytes.{All, IsByte}
use mayara_server.Bytes.Bits.{bit0, agree_below, agree_below→eq}
use mayara_server.Furuno.Stretch.{stretch_spoke, length-stretch_spoke}
use mayara_server.Furuno.Protocol.{frame_magic, tile_magic, tile_scale, spoke_len}
use mayara_server.Furuno.Frame.{
  FurunoSpokeMetadata, Env, Event, new_spoke_message, set_range_and_transmit, add_spoke,
  send_spoke_message, History, Receiver, history, set_history, emit, angle_of,
  parse_metadata_header, spoke_events, decode_sweep, padded, slice_from, take_sweep, process_sweeps,
  process_imo_frame, tile_literal, tile_pixels, tile_metadata, tile_spokes, process_tile_frame,
  process_frame, header_word,
}

-- The event is for this range, and a spoke has 1024 samples.
abbrev pub IsFor : Bool → Event → Type 0
IsFor b (new_spoke_message b') = b' ≡ b
IsFor b (set_range_and_transmit b' range) = b' ≡ b
IsFor b (add_spoke b' range angle heading pixels) = (b' ≡ b) × (length pixels ≡ spoke_len)
IsFor b (send_spoke_message b') = b' ≡ b

-- From `r` to `r'` events of one range were added, and the other range's history is as it was.
pub record Handled (b : Bool) (r r' : Receiver) : Type 0 where
  pub added : List Event
  pub events_are : r'.events ≡ r.events ++ added
  pub for_range : All (IsFor b) added
  pub other_kept : history (not b) r' ≡ history (not b) r

Handled-refl : (b : Bool) (r : Receiver) → Handled b r r
Handled-refl b r = record {
  added = [];
  events_are = sym (append-nil r.events);
  for_range = tt;
  other_kept = refl;
}

Handled-trans : (b : Bool) (r s t : Receiver) → Handled b r s → Handled b s t → Handled b r t
Handled-trans b r s t h k = record {
  added = h.added ++ k.added;
  events_are = k.events_are ∙ rw h.events_are (append_assoc r.events h.added k.added);
  for_range = All-append (IsFor b) h.added k.added h.for_range k.for_range;
  other_kept = k.other_kept ∙ h.other_kept;
}

Handled-emit :
    (b : Bool) (es : List Event) (r : Receiver) → All (IsFor b) es → Handled b r (emit es r)
Handled-emit true es r h = record {
  added = es;
  events_are = refl;
  for_range = h;
  other_kept = refl;
}
Handled-emit false es r h = record {
  added = es;
  events_are = refl;
  for_range = h;
  other_kept = refl;
}

Handled-set_history : (b : Bool) (h : History) (r : Receiver) → Handled b r (set_history b h r)
Handled-set_history true h r = record {
  added = [];
  events_are = sym (append-nil r.events);
  for_range = tt;
  other_kept = refl;
}
Handled-set_history false h r = record {
  added = [];
  events_are = sym (append-nil r.events);
  for_range = tt;
  other_kept = refl;
}

-- One spoke handed on, and the history of its range set.
spoke_events-IsFor :
    (env : Env) (earlier : List Event) (b : Bool) (m : FurunoSpokeMetadata) (angle heading : ℕ)
    (src : List ℕ) (effective : ℕ)
    → All
        (IsFor b)
        (spoke_events env earlier b m angle heading (stretch_spoke src effective spoke_len))
unfolding spoke_events
spoke_events-IsFor env earlier b m angle heading src effective =
    let long =
      length-map (stretch_spoke src effective spoke_len) (λ x. get_or (env.wire_to_legend b) x 0)
      ∙ length-stretch_spoke src effective spoke_len in
    elim (Bool-cases (env.replay b)) [
      | inl e ↦ rw e (refl, ((refl, long), tt))
      | inr e ↦ rw e ((refl, long), tt)
    ]

Handled-spoke :
    (env : Env) (b : Bool) (m : FurunoSpokeMetadata) (angle heading : ℕ) (src : List ℕ)
    (effective : ℕ) (h : History) (r : Receiver)
    → Handled b r (
        set_history b h (
          emit
            (spoke_events env r.events b m angle heading (stretch_spoke src effective spoke_len))
            r))
Handled-spoke env b m angle heading src effective h r =
    let es = spoke_events env r.events b m angle heading (stretch_spoke src effective spoke_len) in
    Handled-trans b r (emit es r) _
      (Handled-emit b es r (spoke_events-IsFor env r.events b m angle heading src effective))
      (Handled-set_history b h (emit es r))

process_sweeps-Handled :
    (env : Env) (b : Bool) (m : FurunoSpokeMetadata) (left : ℕ) (first : Bool) (sweep : List ℕ)
    (r : Receiver)
    → Ensures (Handled b r) (process_sweeps env b m left first sweep r)
unfolding process_sweeps take_sweep
process_sweeps-Handled env b m zero first sweep r = Ensures-ok _ (Handled-refl b r)
process_sweeps-Handled env b m (suc left) first sweep r = elim (Bool-cases (ltb (length sweep) 5)) [
  | inl short ↦ rw short (Ensures-ok _ (Handled-refl b r))
  | inr long ↦ rw long (
      Ensures-bind _ (Ensures-any (decode_sweep m first (history b r).prev_spoke (drop 4 sweep)))
        λ out _. Ensures-bind _ (Ensures-any (slice_from out.1 (drop 4 sweep))) λ after _.
          holds λ r' e.
            let h : History = record {
              prev_spoke = padded m.sweep_len out.0;
              prev_angle = angle_of (get_or sweep 1 0) (get_or sweep 0 0);
            } in
            Handled-trans b r _ r'
              (Handled-spoke env b m (angle_of (get_or sweep 1 0) (get_or sweep 0 0))
                (angle_of (get_or sweep 3 0) (get_or sweep 2 0)) (padded m.sweep_len out.0) m.scale
                h r)
              (Ensures-elim (process_sweeps-Handled env b m left false after _) e))
]

tile_spokes-Handled :
    (fuel : ℕ) (env : Env) (b : Bool) (radar_no : ℕ) (bytes : List ℕ) (r : Receiver)
    → Ensures (Handled b r) (tile_spokes fuel env b radar_no bytes r)
unfolding tile_spokes
tile_spokes-Handled zero env b radar_no bytes r = holds (λ a e. cc)
tile_spokes-Handled (suc fuel) env b radar_no (a₀ ∷ a₁ ∷ h₀ ∷ h₁ ∷ flag ∷ bytes) r =
    let count : ℕ = if bit_and flag 0x80 == 0 then 64 else 256 in
    let strip = tile_pixels count (tile_literal flag ∷ []) (tile_literal flag) bytes in
    let m = tile_metadata env b radar_no count in
    let h : History = record {
      prev_spoke = (history b r).prev_spoke;
      prev_angle = angle_of a₁ a₀;
    } in
    holds λ r' e.
      Handled-trans b r _ r'
        (Handled-spoke env b m (angle_of a₁ a₀) (angle_of h₁ h₀) (padded tile_scale strip.0)
          tile_scale h r)
        (Ensures-elim (tile_spokes-Handled fuel env b radar_no strip.1 _) e)
tile_spokes-Handled (suc fuel) env b radar_no [] r = Ensures-ok _ (Handled-refl b r)
tile_spokes-Handled (suc fuel) env b radar_no (a₀ ∷ []) r = Ensures-ok _ (Handled-refl b r)
tile_spokes-Handled (suc fuel) env b radar_no (a₀ ∷ a₁ ∷ []) r = Ensures-ok _ (Handled-refl b r)
tile_spokes-Handled (suc fuel) env b radar_no (a₀ ∷ a₁ ∷ h₀ ∷ []) r =
    Ensures-ok _ (Handled-refl b r)
tile_spokes-Handled (suc fuel) env b radar_no (a₀ ∷ a₁ ∷ h₀ ∷ h₁ ∷ []) r =
    Ensures-ok _ (Handled-refl b r)

-- The message is opened, filled and sent for one range.
framed :
    (b : Bool) (r start r' : Receiver)
    → Handled b r start
    → Handled b (emit (new_spoke_message b ∷ []) start) r'
    → Handled b r (emit (send_spoke_message b ∷ []) r')
framed b r start r' h k =
    let opened = emit (new_spoke_message b ∷ []) start in
    Handled-trans b r start _ h (
      Handled-trans b start opened _ (Handled-emit b _ start (refl, tt))
        (Handled-trans b opened r' _ k (Handled-emit b _ r' (refl, tt))))

-- The range that a frame is for: bit 6 of its byte 15 says B, where the receiver has a Range B.
abbrev pub for_range_b : Env → List ℕ → Bool
for_range_b env bytes = (get_or bytes 15 0 / 64 % 2 == 1) && env.has_range_b

abbrev pub ForOneRange : Env → List ℕ → Receiver → Receiver → Type 0
ForOneRange env bytes r r' = Handled (for_range_b env bytes) r r'

radar_bit : (b : ℕ) → b < 256 → bit_and b 0x40 / 64 ≡ b / 64 % 2
unfolding agree_below
radar_bit = agree_below→eq _ _ 256 refl

get_or-IsByte : (bytes : List ℕ) (i : ℕ) → All IsByte bytes → get_or bytes i 0 < 256
get_or-IsByte [] i h = omega arith
get_or-IsByte (b ∷ bytes) zero h = h.0
get_or-IsByte (b ∷ bytes) (suc i) h = get_or-IsByte bytes i h.1

process_imo_frame-ForOneRange :
    (env : Env) (bytes : List ℕ) (r : Receiver)
    → All IsByte bytes
    → Ensures (ForOneRange env bytes r) (process_imo_frame env bytes r)
unfolding process_imo_frame parse_metadata_header
process_imo_frame-ForOneRange env bytes r h =
    let m = parse_metadata_header env bytes in
    let b = for_range_b env bytes in
    let start = emit (new_spoke_message b ∷ []) r in
    let bit = radar_bit (get_or bytes 15 0) (get_or-IsByte bytes 15 h) in
    rw bit (
      Ensures-bind _ (process_sweeps-Handled env b _ _ true (drop 16 bytes) start)
        λ r' k. Ensures-ok _ (framed b r r r' (Handled-refl b r) k))

pub process_tile_frame-ForOneRange :
    (env : Env) (bytes : List ℕ) (r : Receiver)
    → All IsByte bytes
    → Ensures (ForOneRange env bytes r) (process_tile_frame env bytes r)
unfolding process_tile_frame
process_tile_frame-ForOneRange env bytes r h = elim (Bool-cases (ltb (length bytes) 24)) [
  | inl short ↦ rw short (Ensures-ok _ (Handled-refl (for_range_b env bytes) r))
  | inr long ↦
      let b = for_range_b env bytes in
      let frame_end = min (bit_and (header_word bytes) 0x7FF + 7) (length bytes) in
      let emptied : History = record { prev_spoke = []; prev_angle = (history b r).prev_angle } in
      let start = set_history b emptied r in
      let byte = get_or-IsByte bytes 15 h in
      let bit = bit0 (get_or bytes 15 0 / 64) (omega (arith, byte)) in
      rw long (
        rw bit (
          Ensures-bind _
            (tile_spokes-Handled (suc (length bytes)) env b _ (drop 24 (take frame_end bytes))
              (emit (new_spoke_message b ∷ []) start))
            λ r' k. Ensures-ok _ (framed b r start r' (Handled-set_history b emptied r) k)))
]

pub process_frame-Ensures :
    (env : Env) (bytes : List ℕ) (r : Receiver)
    → All IsByte bytes
    → Ensures (ForOneRange env bytes r) (process_frame env bytes r)
unfolding process_frame
process_frame-Ensures env bytes r h = elim (Bool-cases (ltb (length bytes) 16)) [
  | inl short ↦ rw short (Ensures-ok _ (Handled-refl (for_range_b env bytes) r))
  | inr long ↦ rw long (elim (Bool-cases (header_word bytes / 2 ^ 29 == tile_magic)) [
    | inl tile ↦ rw tile (process_tile_frame-ForOneRange env bytes r h)
    | inr other ↦ rw other (elim (Bool-cases (get_or bytes 0 0 == frame_magic)) [
      | inl imo ↦ rw imo (process_imo_frame-ForOneRange env bytes r h)
      | inr junk ↦ rw junk (Ensures-ok _ (Handled-refl (for_range_b env bytes) r))
    ])
  ])
]

-- A frame of bytes that is processed is for one range, B exactly if bit 6 of its byte 15 says so and
-- the receiver has a Range B: the events added are for that range, each spoke handed on has 1024
-- samples, and the delta history of the other range stays.
pub process_frame-ForOneRange :
    (env : Env) (bytes : List ℕ) (r r' : Receiver)
    → All IsByte bytes
    → process_frame env bytes r ≡ ok r'
    → ForOneRange env bytes r r'
process_frame-ForOneRange env bytes r r' h e = Ensures-elim (process_frame-Ensures env bytes r h) e
