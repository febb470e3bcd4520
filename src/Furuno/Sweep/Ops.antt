-- ===== src/Furuno/Sweep/Ops.antt =====
-- Encoding 3 of src/lib/brand/furuno/report.rs against a description of its operations: literal
-- samples, repeats of the last sample, and runs of the previous spoke.
use Prim.Native.Nat.{pred}
use mayara_server.Common.{
  ℕ, zero, suc, ◌+◌, ◌*◌, ◌/◌, ◌%◌, ◌≤◌, ◌<◌, ◌≡◌, refl, sym, ap, ◌∙◌, arith, false, List, [], ◌∷◌,
  ◌++◌, length, replicate, get_or, map, append_assoc, append-nil, length-append, length-replicate,
  ltb, lt→ltb,
}
use mayara_server.Bytes.{All}
use mayara_server.Bytes.Bits.{bit0, low2}
use mayara_server.Furuno.Protocol.{encoding_3_repeat_default}
use mayara_server.Furuno.Sweep.{
  aligned, repeat_count, push_prev, last_prev, decode_3_loop, decode_sweep_encoding_3,
}

pub data Op : Type 0 where
  literal again from_prev : ℕ → Op

-- A literal is a byte with its low bits clear, and a run has 1 to 64 samples.
abbrev pub IsOp : Op → Type 0
IsOp (literal v) = (v < 256) × (v % 4 ≡ 0)
IsOp (again k) = (1 ≤ k) × (k ≤ 64)
IsOp (from_prev k) = (1 ≤ k) × (k ≤ 64)

-- The byte on the wire: 64 is written as 0.
unfoldable pub op_byte : Op → ℕ
op_byte (literal v) = v
op_byte (again k) = k % 64 * 4 + 1
op_byte (from_prev k) = k % 64 * 4 + 2

-- `k` samples of the previous spoke from place `n` on, zero where it has none.
unfoldable pub window : List ℕ → ℕ → ℕ → List ℕ
window prev n zero = []
window prev n (suc k) = get_or prev n 0 ∷ window prev (n + 1) k

-- The samples that the operations stand for, from place `n` on.
unfoldable pub expand : List ℕ → ℕ → ℕ → List Op → List ℕ
expand prev strength n [] = []
expand prev strength n (literal v ∷ ops) = v ∷ expand prev v (n + 1) ops
expand prev strength n (again k ∷ ops) = replicate k strength ++ expand prev strength (n + k) ops
expand prev strength n (from_prev k ∷ ops) =
    window prev n k ++ expand prev (get_or prev (n + pred k) 0) (n + k) ops

push_prev-window :
    (prev : List ℕ) (k : ℕ) (spoke : List ℕ)
    → push_prev prev k spoke ≡ spoke ++ window prev (length spoke) k
unfolding push_prev window
push_prev-window prev zero spoke = sym (append-nil spoke)
push_prev-window prev (suc k) spoke =
    let x = get_or prev (length spoke) 0 in
    push_prev-window prev k (spoke ++ (x ∷ []))
    ∙ rw (length-append spoke (x ∷ []))
        (append_assoc spoke (x ∷ []) (window prev (length spoke + 1) k))

length-window : (prev : List ℕ) (n k : ℕ) → length (window prev n k) ≡ k
unfolding window
length-window prev n zero = refl
length-window prev n (suc k) = ap suc (length-window prev (n + 1) k)

-- One round of the loop on each operation.
module _ (sweep_len : ℕ) (prev : List ℕ) (strength : ℕ) (spoke : List ℕ) (used : ℕ)
    (rest : List ℕ) where
  round_literal :
      (v : ℕ)
      → IsOp (literal v)
      → length spoke < sweep_len
      → decode_3_loop sweep_len prev strength spoke used (v ∷ rest)
        ≡ decode_3_loop sweep_len prev v (spoke ++ (v ∷ [])) (used + 1) rest
  unfolding decode_3_loop
  round_literal v h room = rw (low2 v h.0, h.1, lt→ltb _ _ room)

  run_count :
      (k low : ℕ)
      → 1 ≤ k
      → k ≤ 64
      → low < 4
      → repeat_count ((k % 64 * 4 + low) / 4) encoding_3_repeat_default ≡ k
  run_count k low lo hi small = ground arith

  round_again :
      (k : ℕ)
      → IsOp (again k)
      → length spoke < sweep_len
      → decode_3_loop sweep_len prev strength spoke used (op_byte (again k) ∷ rest)
        ≡ decode_3_loop sweep_len prev strength (spoke ++ replicate k strength) (used + 1) rest
  unfolding decode_3_loop op_byte
  round_again k h room =
      let b : k % 64 * 4 + 1 < 256 = omega arith in
      let low : (k % 64 * 4 + 1) % 4 ≡ 1 = omega arith in
      let odd : (k % 64 * 4 + 1) % 2 ≡ 1 = omega arith in
      rw (low2 _ b, low, bit0 _ b, odd, run_count k 1 h.0 h.1 (omega arith), lt→ltb _ _ room)

  round_from_prev :
      (k : ℕ)
      → IsOp (from_prev k)
      → length spoke < sweep_len
      → decode_3_loop sweep_len prev strength spoke used (op_byte (from_prev k) ∷ rest)
        ≡ decode_3_loop sweep_len prev
            (last_prev prev k (length spoke))
            (push_prev prev k spoke)
            (used + 1)
            rest
  unfolding decode_3_loop op_byte
  round_from_prev k h room =
      let b : k % 64 * 4 + 2 < 256 = omega arith in
      let low : (k % 64 * 4 + 2) % 4 ≡ 2 = omega arith in
      let even : (k % 64 * 4 + 2) % 2 ≡ 0 = omega arith in
      rw (low2 _ b, low, bit0 _ b, even, run_count k 2 h.0 h.1 (omega arith), lt→ltb _ _ room)

-- The loop stops where the spoke is complete.
decode_3_loop_full :
    (sweep_len : ℕ) (prev : List ℕ) (strength : ℕ) (spoke : List ℕ) (used : ℕ) (rest : List ℕ)
    → length spoke ≡ sweep_len
    → decode_3_loop sweep_len prev strength spoke used rest ≡ (spoke, used)
unfolding decode_3_loop
decode_3_loop_full sweep_len prev strength spoke used [] h = refl
decode_3_loop_full sweep_len prev strength spoke used (b ∷ bs) h =
    let full : ltb (length spoke) sweep_len ≡ false = ground arith in rw full

-- A spoke with a run of `n` samples behind it.
module _ (prev spoke run : List ℕ) (strength n : ℕ) (ops : List Op) (long : length run ≡ n) where
  run_place : length (spoke ++ run) ≡ length spoke + n
  run_place = length-append spoke run ∙ omega arith

  run_total :
      (sweep_len : ℕ)
      → length spoke + length (run ++ expand prev strength (length spoke + n) ops) ≡ sweep_len
      → length (spoke ++ run) + length (expand prev strength (length (spoke ++ run)) ops)
        ≡ sweep_len
  run_total sweep_len e =
      rw run_place (omega (arith, length-append run (expand prev strength (length spoke + n) ops)))

  run_regroup :
      (used : ℕ)
      → ◌≡◌ {A = List ℕ × ℕ}
          (
            (spoke ++ run) ++ expand prev strength (length (spoke ++ run)) ops,
            used + 1 + length ops,
          )
          (spoke ++ (run ++ expand prev strength (length spoke + n) ops), used + suc (length ops))
  run_regroup used =
      let count : used + 1 + length ops ≡ used + suc (length ops) = omega arith in
      rw (run_place, append_assoc, count)

decode_3_loop-expand :
    (sweep_len : ℕ) (prev : List ℕ) (strength : ℕ) (spoke : List ℕ) (used : ℕ) (ops : List Op)
    (rest : List ℕ)
    → All IsOp ops
    → length spoke + length (expand prev strength (length spoke) ops) ≡ sweep_len
    → decode_3_loop sweep_len prev strength spoke used (map op_byte ops ++ rest)
      ≡ (spoke ++ expand prev strength (length spoke) ops, used + length ops)
unfolding expand op_byte
decode_3_loop-expand sweep_len prev strength spoke used [] rest h e =
    let zero_more : used ≡ used + 0 = omega arith in
    decode_3_loop_full sweep_len prev strength spoke used rest (omega arith) ∙ λ i.
    (sym (append-nil spoke) i, zero_more i)
decode_3_loop-expand sweep_len prev strength spoke used (literal v ∷ ops) rest h e =
    round_literal sweep_len prev strength spoke used (map op_byte ops ++ rest) v h.0 (omega arith)
    ∙ decode_3_loop-expand sweep_len prev v (spoke ++ (v ∷ [])) (used + 1) ops rest h.1
        (run_total prev spoke (v ∷ []) v 1 ops refl sweep_len e)
    ∙ run_regroup prev spoke (v ∷ []) v 1 ops refl used
decode_3_loop-expand sweep_len prev strength spoke used (again k ∷ ops) rest h e =
    let run = replicate k strength in
    let long = length-replicate k strength in
    round_again sweep_len prev strength spoke used (map op_byte ops ++ rest) k h.0
      (omega (arith, length-append run (expand prev strength (length spoke + k) ops), long, h.0.0))
    ∙ decode_3_loop-expand sweep_len prev strength (spoke ++ run) (used + 1) ops rest h.1
        (run_total prev spoke run strength k ops long sweep_len e)
    ∙ run_regroup prev spoke run strength k ops long used
decode_3_loop-expand sweep_len prev strength spoke used (from_prev k ∷ ops) rest h e =
    let run = window prev (length spoke) k in
    let long = length-window prev (length spoke) k in
    let last = last_prev prev k (length spoke) in
    round_from_prev sweep_len prev strength spoke used (map op_byte ops ++ rest) k h.0
      (omega (arith, length-append run (expand prev last (length spoke + k) ops), long, h.0.0))
    ∙ ap (λ xs. decode_3_loop sweep_len prev last xs (used + 1) (map op_byte ops ++ rest))
        (push_prev-window prev k spoke)
    ∙ decode_3_loop-expand sweep_len prev last (spoke ++ run) (used + 1) ops rest h.1
        (run_total prev spoke run last k ops long sweep_len e)
    ∙ run_regroup prev spoke run last k ops long used

-- Operations that stand for `sweep_len` samples decode to those samples, whatever bytes follow, and
-- take one byte each, rounded up to a multiple of four.
pub decode_sweep_encoding_3-expand :
    (prev : List ℕ) (ops : List Op) (rest : List ℕ) (sweep_len : ℕ)
    → All IsOp ops
    → length (expand prev 0 0 ops) ≡ sweep_len
    → decode_sweep_encoding_3 (map op_byte ops ++ rest) prev sweep_len
      ≡ (expand prev 0 0 ops, aligned (length ops))
unfolding decode_sweep_encoding_3
decode_sweep_encoding_3-expand prev ops rest sweep_len h e =
    let zero_front : 0 + length ops ≡ length ops = omega arith in
    rw (decode_3_loop-expand sweep_len prev 0 [] 0 ops rest h (omega arith)) (rw zero_front)
