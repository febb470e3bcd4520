-- ===== src/Furuno/Sweep.antt =====
-- `decode_sweep_encoding_0` to `decode_sweep_encoding_3` of src/lib/brand/furuno/report.rs.
-- A loop's list is what it has not read; `used` counts the bytes read.
pub mod Bounds
pub mod Ops
use Prim.Native.Nat.{bit_and, pred}
use mayara_server.Common.{
  ℕ, ◌+◌, ◌*◌, ◌/◌, Bool, List, [], ◌∷◌, ◌++◌, length, replicate, get_or, ltb, ◌==◌, if◌then◌else◌,
  zero, suc,
}
use mayara_server.Furuno.Protocol.{encoding_1_repeat_default, encoding_3_repeat_default}

-- `(used + 3) & SPOKE_ALIGNMENT_MASK`: up to the next multiple of four.
abbrev pub aligned : ℕ → ℕ
aligned used = (used + 3) / 4 * 4

-- `byte >> 1` or `byte >> 2`, where zero stands for the default.
abbrev pub repeat_count : ℕ → ℕ → ℕ
repeat_count shifted default = if shifted == 0 then default else shifted

-- `repeat` times the sample of the previous spoke at the place that is written, or zero.
unfoldable pub push_prev : List ℕ → ℕ → List ℕ → List ℕ
push_prev prev zero spoke = spoke
push_prev prev (suc k) spoke = push_prev prev k (spoke ++ (get_or prev (length spoke) 0 ∷ []))

unfoldable pub decode_sweep_encoding_0 : List ℕ → List ℕ × ℕ
decode_sweep_encoding_0 sweep = (sweep, length sweep)

unfoldable pub decode_1_loop : ℕ → ℕ → List ℕ → ℕ → List ℕ → List ℕ × ℕ
decode_1_loop sweep_len strength spoke used [] = (spoke, used)
decode_1_loop sweep_len strength spoke used (b ∷ bs) =
    let literal = bit_and b 1 == 0 in
    let repeat = repeat_count (b / 2) encoding_1_repeat_default in
    let strength' = if literal then b else strength in
    let spoke' = if literal then spoke ++ (b ∷ []) else spoke ++ replicate repeat strength in
    let rest = decode_1_loop sweep_len strength' spoke' (used + 1) bs in
    if ltb (length spoke) sweep_len then rest else (spoke, used)

unfoldable pub decode_sweep_encoding_1 : List ℕ → ℕ → List ℕ × ℕ
decode_sweep_encoding_1 sweep sweep_len =
    let (spoke, used) = decode_1_loop sweep_len 0 [] 0 sweep in (spoke, aligned used)

unfoldable pub decode_2_loop : ℕ → List ℕ → List ℕ → ℕ → List ℕ → List ℕ × ℕ
decode_2_loop sweep_len prev spoke used [] = (spoke, used)
decode_2_loop sweep_len prev spoke used (b ∷ bs) =
    let literal = bit_and b 1 == 0 in
    let repeat = repeat_count (b / 2) encoding_1_repeat_default in
    let spoke' = if literal then spoke ++ (b ∷ []) else push_prev prev repeat spoke in
    let rest = decode_2_loop sweep_len prev spoke' (used + 1) bs in
    if ltb (length spoke) sweep_len then rest else (spoke, used)

unfoldable pub decode_sweep_encoding_2 : List ℕ → List ℕ → ℕ → List ℕ × ℕ
decode_sweep_encoding_2 sweep prev sweep_len =
    let (spoke, used) = decode_2_loop sweep_len prev [] 0 sweep in (spoke, aligned used)

-- The strength that the loop over `prev_spoke` leaves: that of the last sample pushed.
abbrev pub last_prev : List ℕ → ℕ → ℕ → ℕ
last_prev prev k len = get_or prev (len + pred k) 0

unfoldable pub decode_3_loop : ℕ → List ℕ → ℕ → List ℕ → ℕ → List ℕ → List ℕ × ℕ
decode_3_loop sweep_len prev strength spoke used [] = (spoke, used)
decode_3_loop sweep_len prev strength spoke used (b ∷ bs) =
    let literal = bit_and b 3 == 0 in
    let from_prev = bit_and b 1 == 0 in
    let repeat = repeat_count (b / 4) encoding_3_repeat_default in
    let strength' =
      if literal then b else if from_prev then last_prev prev repeat (length spoke) else strength in
    let spoke' =
      if literal
      then spoke ++ (b ∷ [])
      else if from_prev
      then push_prev prev repeat spoke
      else spoke ++ replicate repeat strength in
    let rest = decode_3_loop sweep_len prev strength' spoke' (used + 1) bs in
    if ltb (length spoke) sweep_len then rest else (spoke, used)

unfoldable pub decode_sweep_encoding_3 : List ℕ → List ℕ → ℕ → List ℕ × ℕ
decode_sweep_encoding_3 sweep prev sweep_len =
    let (spoke, used) = decode_3_loop sweep_len prev 0 [] 0 sweep in (spoke, aligned used)
