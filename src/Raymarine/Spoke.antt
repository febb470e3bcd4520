-- ===== src/Raymarine/Spoke.antt =====
-- The run-length decoding of spokes, `process_spoke` of src/lib/brand/raymarine/report/rd.rs and of
-- src/lib/brand/raymarine/report/quantum.rs.
pub mod Ops
use Prim.Native.Nat.{bit_and}
use mayara_server.Common.{
  ℕ, zero, suc, ◌+◌, ◌-◌, ◌*◌, ◌/◌, Bool, true, false, List, [], ◌∷◌, ◌++◌, Result, ok, err, ◌>>=◌,
  length, take, ◌==◌, if◌then◌else◌,
}

-- A panic; `stuck` is no Rust value: a loop ran out of fuel.
pub data Fault : Type 0 where
  slice_out_of_range index_out_of_bounds division_by_zero stuck : Fault

abbrev pub marker : ℕ
marker = 0x5c

-- The samples of a byte: one in the HD format, and two nibbles otherwise.
unfoldable pub samples : Bool → ℕ → List ℕ
samples true value = value / 2 ∷ []
samples false value = bit_and value 0x0f * 8 ∷ bit_and value 0xf0 / 2 ∷ []

-- `for _ in 0..count`.
unfoldable pub push_run : ℕ → List ℕ → List ℕ
push_run zero run = []
push_run (suc count) run = run ++ push_run count run

-- The loop over `spoke[src_offset..]`, with the bytes left up to `data_len`. A marker is followed by
-- a count and a value, which are read whether or not they are there.
unfoldable pub unpack : (ℕ → List ℕ) → List ℕ → ℕ → List ℕ → Result Fault (List ℕ)
unpack pixels out zero bytes = ok out
unpack pixels out (suc left) [] = err index_out_of_bounds
unpack pixels out (suc left) (b ∷ []) =
    let literal = unpack pixels (out ++ pixels b) left [] in
    if b == marker then err index_out_of_bounds else literal
unpack pixels out (suc left) (b ∷ count ∷ []) =
    let literal = unpack pixels (out ++ pixels b) left (count ∷ []) in
    if b == marker then err index_out_of_bounds else literal
unpack pixels out (suc left) (b ∷ count ∷ value ∷ bytes) =
    let run = unpack pixels (out ++ push_run count (pixels value)) (left - 2) bytes in
    let literal = unpack pixels (out ++ pixels b) left (count ∷ value ∷ bytes) in
    if b == marker then run else literal

-- Of the RD series.
unfoldable pub process_spoke : Bool → ℕ → List ℕ → ℕ → Result Fault (List ℕ)
process_spoke hd_type returns_per_line spoke data_len =
    unpack (samples hd_type) [] data_len spoke >>= λ unpacked. ok (take returns_per_line unpacked)

-- Of the Quantum series: `legend` is the row `wire_to_legend[doppler]`, of 256 entries.
unfoldable pub process_quantum_spoke : ℕ → List ℕ → (ℕ → ℕ) → Result Fault (List ℕ)
process_quantum_spoke returns_per_line spoke legend =
    unpack (λ b. legend b ∷ []) [] (length spoke) spoke >>= λ unpacked.
    ok (take returns_per_line unpacked)
