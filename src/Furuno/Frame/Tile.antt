-- ===== src/Furuno/Frame/Tile.antt =====
-- Tile echo frames of src/lib/brand/furuno/report.rs are decoded to the end, whatever they hold.
use Prim.Native.Nat.{bit_and}
use mayara_server.Common.{
  ℕ, zero, suc, ◌+◌, ◌-◌, ◌/◌, ◌≤◌, ◌<◌, ◌≡◌, refl, arith, Bool, ◌&&◌, List, [], ◌∷◌, ◌++◌, min, ok,
  length, length-drop, length-take, drop, take, replicate, get_or, ltb, ◌==◌, if◌then◌else◌,
  Bool-cases, inl, inr,
}
use mayara_server.Furuno.Protocol.{tile_repeat_default}
use mayara_server.Furuno.Frame.{
  Env, Receiver, History, history, set_history, emit, tile_literal, tile_pixels, tile_spokes,
  process_tile_frame, header_word, new_spoke_message, send_spoke_message,
}

tile_pixels_rest :
    (pixel_count : ℕ) (spoke : List ℕ) (last : ℕ) (bytes : List ℕ)
    → length (tile_pixels pixel_count spoke last bytes).1 ≤ length bytes
unfolding tile_pixels
tile_pixels_rest pixel_count spoke last [] = omega arith
tile_pixels_rest pixel_count spoke last (byte ∷ bytes) =
    let literal = bit_and byte 0x80 == 0 in
    let low = bit_and byte 0x7F in
    let count = if low == 0 then tile_repeat_default else low in
    let last' = if literal then tile_literal byte else last in
    let spoke' =
      if literal
      then spoke ++ (tile_literal byte ∷ [])
      else spoke ++ replicate (min count (pixel_count - length spoke)) last in
    let ih = tile_pixels_rest pixel_count spoke' last' bytes in
    elim (Bool-cases (ltb (length spoke) pixel_count)) [
      | inl more ↦ rw more (omega (arith, ih))
      | inr done ↦ rw done (omega arith)
    ]

tile_spokes_ok :
    (fuel : ℕ) (env : Env) (b : Bool) (radar_no : ℕ) (bytes : List ℕ) (r : Receiver)
    → length bytes < fuel
    → (r' : Receiver) × (tile_spokes fuel env b radar_no bytes r ≡ ok r')
unfolding tile_spokes
tile_spokes_ok zero env b radar_no bytes r h = absurd (omega arith)
tile_spokes_ok (suc fuel) env b radar_no (a₀ ∷ a₁ ∷ h₀ ∷ h₁ ∷ flag ∷ bytes) r h =
    let count : ℕ = if bit_and flag 0x80 == 0 then 64 else 256 in
    tile_spokes_ok fuel env b radar_no _ _
      (omega (arith, tile_pixels_rest count (tile_literal flag ∷ []) (tile_literal flag) bytes))
tile_spokes_ok (suc fuel) env b radar_no [] r h = (r, refl)
tile_spokes_ok (suc fuel) env b radar_no (a₀ ∷ []) r h = (r, refl)
tile_spokes_ok (suc fuel) env b radar_no (a₀ ∷ a₁ ∷ []) r h = (r, refl)
tile_spokes_ok (suc fuel) env b radar_no (a₀ ∷ a₁ ∷ h₀ ∷ []) r h = (r, refl)
tile_spokes_ok (suc fuel) env b radar_no (a₀ ∷ a₁ ∷ h₀ ∷ h₁ ∷ []) r h = (r, refl)

-- A Tile frame of any length and content is decoded without a panic, and the loop over its strips
-- ends.
pub process_tile_frame_ok :
    (env : Env) (bytes : List ℕ) (r : Receiver)
    → (r' : Receiver) × (process_tile_frame env bytes r ≡ ok r')
unfolding process_tile_frame
process_tile_frame_ok env bytes r = elim (Bool-cases (ltb (length bytes) 24)) [
  | inl short ↦ (r, rw short)
  | inr long ↦
      let radar_no = bit_and (get_or bytes 15 0 / 64) 1 in
      let b = radar_no == 1 && env.has_range_b in
      let frame_end = min (bit_and (header_word bytes) 0x7FF + 7) (length bytes) in
      let h : History = record { prev_spoke = []; prev_angle = (history b r).prev_angle } in
      let start = emit (new_spoke_message b ∷ []) (set_history b h r) in
      let (r', done) =
        tile_spokes_ok (suc (length bytes)) env b radar_no (drop 24 (take frame_end bytes)) start
          (omega (arith, length-drop 24 (take frame_end bytes), length-take frame_end bytes)) in
      (emit (send_spoke_message b ∷ []) r', rw long (rw done))
]
