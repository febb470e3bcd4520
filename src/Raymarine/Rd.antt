-- ===== src/Raymarine/Rd.antt =====
-- `process_frame` of src/lib/brand/raymarine/report/rd.rs. `bincode` reads the packed structs as
-- little-endian fields. Arithmetic wraps, as it does in a release build. What the receiver hands on
-- (`CommonRadar`) is the list of events.
pub mod Total
pub mod Lines
pub mod Encode
pub mod Frames
use Prim.Native.Nat.{bit_and}
use mayara_server.Common.{
  ℕ, zero, suc, ◌+◌, ◌-◌, ◌*◌, ◌/◌, ◌%◌, ◌^◌, Bool, true, false, not, ◌&&◌, ◌||◌, List, [], ◌∷◌,
  ◌++◌, Option, none, some, Result, ok, err, ◌>>=◌, length, drop, take, ltb, leb, ◌==◌,
  if◌then◌else◌,
}
use mayara_server.Bytes.{from_le_bytes, slice}
use mayara_server.Raymarine.Spoke.{
  Fault, slice_out_of_range, division_by_zero, stuck, process_spoke,
}

pub data ReceiverState : Type 0 where
  initial info_request_received fixed_request_received status_request_received : ReceiverState

pub data Event : Type 0 where
  new_spoke_message send_spoke_message : Event
  add_spoke : ℕ → ℕ → List ℕ → Event

pub record RaymarineReportReceiver : Type 0 where
  pub state : ReceiverState
  pub range_meters : ℕ
  pub spokes_per_revolution : ℕ
  pub events : List Event

abbrev pub emit : Event → RaymarineReportReceiver → RaymarineReportReceiver
emit e r = record r { events = r.events ++ (e ∷ []) }

abbrev pub u32_at : ℕ → List ℕ → ℕ
u32_at i bytes = from_le_bytes (slice i 4 bytes)

-- `&data[..n]`, which panics where the data is shorter.
abbrev pub slice_to : ℕ → List ℕ → Result Fault (List ℕ)
slice_to n bytes = if leb n (length bytes) then ok (take n bytes) else err slice_out_of_range

-- `(azimuth as u16 + spokes / 2) % spokes`
abbrev pub rotated : ℕ → ℕ → Result Fault ℕ
rotated azimuth spokes =
    if spokes == 0
    then err division_by_zero
    else ok ((azimuth % 2 ^ 16 + spokes / 2) % 2 ^ 16 % spokes)

-- `(hd_type, returns_per_line)` of a first spoke header.
unfoldable pub line_type : List ℕ → Option (Bool × ℕ)
line_type header =
    let f2 = u32_at 12 header in
    let f3 = u32_at 16 header in
    let f4 = u32_at 20 header in
    let f5 = u32_at 24 header in
    let f6 = u32_at 28 header in
    let f7 = u32_at 36 header in
    if f2 == 1 && f3 == 2 && f4 == 1 && f5 == 1 && f6 == 0x01f4 && f7 == 1
    then some (false, 512)
    else if f2 == 3 && f3 == 2 && f4 == 3 && f5 == 1 && f6 == 0 && f7 == 1
    then some (true, 1024)
    else none

-- Behind the optional second header, whose marker is looked for.
unfoldable pub skip_header2 : List ℕ → Result Fault ℕ
skip_header2 rest = do
  header2 ← slice_to 8 (drop 40 rest)
  ok (if u32_at 0 header2 == 2 then 48 else 40)

-- One round of the loop at `data[next_offset..]`: the spoke, and how far `next_offset` goes;
-- `none` is a `break`.
unfoldable pub read_line :
    RaymarineReportReceiver → Bool → ℕ → List ℕ → Result Fault (Option (Event × ℕ))
read_line r hd_type returns_per_line rest = do
  start ← skip_header2 rest
  header3 ← slice_to 12 (drop start rest)
  let len = u32_at 4 header3
  let data_len = u32_at 8 header3
  let spoke = take data_len (drop (start + 12) rest)
  let line = rotated (u32_at 8 rest) r.spokes_per_revolution >>= λ angle.
      process_spoke hd_type returns_per_line spoke (length spoke) >>= λ pixels.
      ok (some (add_spoke (r.range_meters * 4 % 2 ^ 32) angle pixels, start + len))
  if not (bit_and (u32_at 0 header3) 0x7fffffff == 3) || ltb len ((data_len + 8) % 2 ^ 32)
      then ok none
      else line

unfoldable pub read_spoke : RaymarineReportReceiver → List ℕ → Result Fault (Option (Event × ℕ))
read_spoke r rest =
    if not (u32_at 0 rest == 1) || not (u32_at 4 rest == 0x28)
    then ok none
    else elim (line_type rest) [
      | none ↦ ok none
      | some (hd_type, returns_per_line) ↦ read_line r hd_type returns_per_line rest
    ]

-- The loop at `data[next_offset..]`, on fuel.
unfoldable pub read_spokes :
    ℕ → RaymarineReportReceiver → List ℕ → Result Fault RaymarineReportReceiver
read_spokes zero r rest = err stuck
read_spokes (suc fuel) r rest =
    let round = read_spoke r rest >>= λ s. elim s [
      | none ↦ ok r
      | some (e, n) ↦ read_spokes fuel (emit e r) (drop n rest)
    ] in
    if leb (length rest) 40 then ok r else round

-- The checks before the loop.
unfoldable pub is_frame : RaymarineReportReceiver → List ℕ → Bool
is_frame r bytes =
    let ready : Bool = elim r.state [
      | status_request_received ↦ true
      | initial ↦ false
      | info_request_received ↦ false
      | fixed_request_received ↦ false
    ] in
    ready
    && leb 72 (length bytes)
    && u32_at 0 bytes == 0x00010003
    && u32_at 8 bytes == 0x0000001c
    && u32_at 24 bytes == 0x00000001
    && not (u32_at 28 bytes == 0x400)
    && ltb 0 (u32_at 12 bytes)
    && leb (u32_at 12 bytes) 360

-- Each round goes on by 40 bytes at least, so the length of the frame bounds the rounds.
unfoldable pub process_frame :
    List ℕ → RaymarineReportReceiver → Result Fault RaymarineReportReceiver
process_frame bytes r =
    let loop = read_spokes (suc (length bytes)) (emit new_spoke_message r) (drop 32 bytes) >>= λ r'.
    ok (emit send_spoke_message r') in
    if is_frame r bytes then loop else ok r
