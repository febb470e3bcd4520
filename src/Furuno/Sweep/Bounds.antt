-- ===== src/Furuno/Sweep/Bounds.antt =====
-- What the sweep decoders of src/lib/brand/furuno/report.rs consume and produce, on any input.
use Prim.Native.Nat.{bit_and}
use mayara_server.Common.{
  ℕ, zero, suc, ◌+◌, ◌/◌, ◌%◌, ◌≤◌, ◌<◌, ◌≡◌, ◌⊎◌, inl, inr, arith, List, [], ◌∷◌, ◌++◌, length,
  replicate, get_or, length-append, length-replicate, ltb, ltb→lt, Bool-cases, ◌==◌, if◌then◌else◌,
}
use mayara_server.Bytes.{IsByte, All}
use mayara_server.Furuno.Protocol.{encoding_1_repeat_default, encoding_3_repeat_default}
use mayara_server.Furuno.Sweep.{
  aligned, repeat_count, push_prev, last_prev, decode_1_loop, decode_sweep_encoding_1,
  decode_2_loop, decode_sweep_encoding_2, decode_3_loop, decode_sweep_encoding_3,
}

pub length-push_prev :
    (prev : List ℕ) (k : ℕ) (spoke : List ℕ) → length (push_prev prev k spoke) ≡ length spoke + k
unfolding push_prev
length-push_prev prev zero spoke = omega arith
length-push_prev prev (suc k) spoke =
    let x = get_or prev (length spoke) 0 in
    omega (arith, length-push_prev prev k (spoke ++ (x ∷ [])), length-append spoke (x ∷ []))

-- What a loop leaves, from `used` bytes read, `left` to read and a spoke of `len` samples: it stops
-- only with enough samples or with no byte left, and the last byte adds 128 samples at most.
pub record Outcome (sweep_len len used left : ℕ) (out : List ℕ × ℕ) : Type 0 where
  pub reads_on : used ≤ out.1
  pub within : out.1 ≤ used + left
  pub stops : (sweep_len ≤ length out.0) ⊎ (out.1 ≡ used + left)
  pub grows : len ≤ length out.0
  pub short_of : (length out.0 < sweep_len + 128) ⊎ (length out.0 ≡ len)

-- One round, whatever the byte adds.
round-Outcome :
    (sweep_len used left added : ℕ) (spoke : List ℕ) (out : List ℕ × ℕ)
    → added ≤ 128
    → Outcome sweep_len (length spoke + added) (used + 1) left out
    → Outcome sweep_len
        (length spoke)
        used
        (suc left)
        (if ltb (length spoke) sweep_len then out else (spoke, used))
round-Outcome sweep_len used left added spoke out small h =
    elim (Bool-cases (ltb (length spoke) sweep_len)) [
      | inl more ↦ rw more (omega (arith, ltb→lt (length spoke) sweep_len more))
      | inr done ↦ rw done (ground (arith, done))
    ]

repeat_count-le : (b : ℕ) → b < 256 → repeat_count (b / 2) encoding_1_repeat_default ≤ 128
repeat_count-le b h = ground arith

repeat_count-le_3 : (b : ℕ) → b < 256 → repeat_count (b / 4) encoding_3_repeat_default ≤ 128
repeat_count-le_3 b h = ground arith

decode_1_loop-Outcome :
    (sweep_len strength : ℕ) (spoke : List ℕ) (used : ℕ) (rest : List ℕ)
    → All IsByte rest
    → Outcome sweep_len
        (length spoke)
        used
        (length rest)
        (decode_1_loop sweep_len strength spoke used rest)
unfolding decode_1_loop
decode_1_loop-Outcome sweep_len strength spoke used [] h = omega arith
decode_1_loop-Outcome sweep_len strength spoke used (b ∷ bs) h =
    elim (Bool-cases (bit_and b 1 == 0)) [
      | inl literal ↦ rw literal (
          round-Outcome sweep_len used (length bs) 1 spoke _ (omega arith) (
            rw (← length-append spoke (b ∷ []))
              (decode_1_loop-Outcome sweep_len b (spoke ++ (b ∷ [])) (used + 1) bs h.1)))
      | inr repeated ↦
          let k = repeat_count (b / 2) encoding_1_repeat_default in
          let e : length (spoke ++ replicate k strength) ≡ length spoke + k =
            rw (length-append, length-replicate) in
          rw repeated (
            round-Outcome sweep_len used (length bs) k spoke _ (repeat_count-le b h.0) (
              rw (← e) (
                decode_1_loop-Outcome sweep_len strength (spoke ++ replicate k strength) (used + 1)
                  bs h.1)))
    ]

decode_2_loop-Outcome :
    (sweep_len : ℕ) (prev spoke : List ℕ) (used : ℕ) (rest : List ℕ)
    → All IsByte rest
    → Outcome sweep_len
        (length spoke)
        used
        (length rest)
        (decode_2_loop sweep_len prev spoke used rest)
unfolding decode_2_loop
decode_2_loop-Outcome sweep_len prev spoke used [] h = omega arith
decode_2_loop-Outcome sweep_len prev spoke used (b ∷ bs) h = elim (Bool-cases (bit_and b 1 == 0)) [
  | inl literal ↦ rw literal (
      round-Outcome sweep_len used (length bs) 1 spoke _ (omega arith) (
        rw (← length-append spoke (b ∷ []))
          (decode_2_loop-Outcome sweep_len prev (spoke ++ (b ∷ [])) (used + 1) bs h.1)))
  | inr copied ↦
      let k = repeat_count (b / 2) encoding_1_repeat_default in
      rw copied (
        round-Outcome sweep_len used (length bs) k spoke _ (repeat_count-le b h.0) (
          rw (← length-push_prev prev k spoke)
            (decode_2_loop-Outcome sweep_len prev (push_prev prev k spoke) (used + 1) bs h.1)))
]

decode_3_loop-Outcome :
    (sweep_len : ℕ) (prev : List ℕ) (strength : ℕ) (spoke : List ℕ) (used : ℕ) (rest : List ℕ)
    → All IsByte rest
    → Outcome sweep_len
        (length spoke)
        used
        (length rest)
        (decode_3_loop sweep_len prev strength spoke used rest)
unfolding decode_3_loop
decode_3_loop-Outcome sweep_len prev strength spoke used [] h = omega arith
decode_3_loop-Outcome sweep_len prev strength spoke used (b ∷ bs) h =
    let k = repeat_count (b / 4) encoding_3_repeat_default in
    elim (Bool-cases (bit_and b 3 == 0)) [
      | inl literal ↦ rw literal (
          round-Outcome sweep_len used (length bs) 1 spoke _ (omega arith) (
            rw (← length-append spoke (b ∷ []))
              (decode_3_loop-Outcome sweep_len prev b (spoke ++ (b ∷ [])) (used + 1) bs h.1)))
      | inr repeated ↦ rw repeated (elim (Bool-cases (bit_and b 1 == 0)) [
        | inl copied ↦ rw copied (
            round-Outcome sweep_len used (length bs) k spoke _ (repeat_count-le_3 b h.0) (
              rw (← length-push_prev prev k spoke) (
                decode_3_loop-Outcome sweep_len prev (last_prev prev k (length spoke))
                  (push_prev prev k spoke) (used + 1) bs h.1)))
        | inr same ↦
            let e : length (spoke ++ replicate k strength) ≡ length spoke + k =
              rw (length-append, length-replicate) in
            rw same (
              round-Outcome sweep_len used (length bs) k spoke _ (repeat_count-le_3 b h.0) (
                rw (← e) (
                  decode_3_loop-Outcome sweep_len prev strength (spoke ++ replicate k strength)
                    (used + 1) bs h.1)))
      ])
    ]

-- What a decoder leaves of `n` bytes: `used` is a multiple of four and passes the end by at most
-- three; the spoke is complete or the bytes are used up; and it passes its length by at most 127.
pub record Decoded (sweep_len n : ℕ) (out : List ℕ × ℕ) : Type 0 where
  pub multiple : out.1 % 4 ≡ 0
  pub near_end : out.1 < n + 4
  pub complete : (sweep_len ≤ length out.0) ⊎ (n ≤ out.1)
  pub bounded : length out.0 < sweep_len + 128

Outcome-Decoded :
    (sweep_len n : ℕ) (out : List ℕ × ℕ)
    → Outcome sweep_len 0 0 n out
    → Decoded sweep_len n (out.0, aligned out.1)
Outcome-Decoded sweep_len n out h = omega arith

-- On any bytes and after any spoke, encodings 1, 2 and 3 use a multiple of four bytes that passes
-- the end of the input by at most three, and give a complete spoke of at most 127 samples too many,
-- or have used all bytes.
pub decoders-Decoded :
    (sweep prev : List ℕ) (sweep_len : ℕ)
    → All IsByte sweep
    → Decoded sweep_len (length sweep) (decode_sweep_encoding_1 sweep sweep_len)
      × Decoded sweep_len (length sweep) (decode_sweep_encoding_2 sweep prev sweep_len)
      × Decoded sweep_len (length sweep) (decode_sweep_encoding_3 sweep prev sweep_len)
unfolding decode_sweep_encoding_1 decode_sweep_encoding_2 decode_sweep_encoding_3
decoders-Decoded sweep prev sweep_len h = (
  Outcome-Decoded sweep_len _ _ (decode_1_loop-Outcome sweep_len 0 [] 0 sweep h),
  Outcome-Decoded sweep_len _ _ (decode_2_loop-Outcome sweep_len prev [] 0 sweep h),
  Outcome-Decoded sweep_len _ _ (decode_3_loop-Outcome sweep_len prev 0 [] 0 sweep h),
)
