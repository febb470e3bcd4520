-- ===== src/Navico/Pixels.antt =====
-- The pixels of a spoke of src/lib/brand/navico/report.rs: two to a byte, the low half first, each
-- through the row of the table for the Doppler mode.
use mayara_server.Common.{
  ℕ, ◌+◌, ◌*◌, ◌<◌, ◌≡◌, refl, ap, arith, List, [], ◌∷◌, length, suc, zero, Option, none, some,
  get_or,
}
use mayara_server.Bytes.{All}
use mayara_server.Bytes.Bits.{low_half, high_half}
use mayara_server.Radar.Legend.{Legend}
use mayara_server.Navico.{
  DopplerMode, doppler_off, both, approaching, low_of, high_of, match_both, match_approaching,
  both_entry, approaching_entry, wire_to_legend, process_spoke,
}

-- Two strengths of echo, from 0 to 15.
abbrev pub Pair : Type 0
Pair = ℕ × ℕ

abbrev pub IsPair : Pair → Type 0
IsPair (low, high) = (low < 16) × (high < 16)

-- A byte for each pair, and the pairs in turn.
unfoldable pub packed : List Pair → List ℕ
packed [] = []
packed ((low, high) ∷ ps) = (low + 16 * high) ∷ packed ps

-- What is drawn for the strengths 0 to 15: in the mode for both, the values 1 to 8, six of the Doppler
-- grades from 10, and the indices for receding and approaching; in the other, 1 to 15 and the index.
abbrev both_row : ℕ → ℕ → List ℕ
both_row a r = 1 ∷ 2 ∷ 3 ∷ 4 ∷ 5 ∷ 6 ∷ 7 ∷ 8 ∷ 10 ∷ 11 ∷ 12 ∷ 13 ∷ 14 ∷ 15 ∷ r ∷ a ∷ []

abbrev approaching_row : ℕ → List ℕ
approaching_row a = 1 ∷ 2 ∷ 3 ∷ 4 ∷ 5 ∷ 6 ∷ 7 ∷ 8 ∷ 9 ∷ 10 ∷ 11 ∷ 12 ∷ 13 ∷ 14 ∷ 15 ∷ a ∷ []

-- A legend without the parts for the mode draws nothing.
unfoldable pub drawn_both : Option (ℕ × ℕ) → Option (ℕ × ℕ) → ℕ → ℕ
drawn_both (some (a, _)) (some (r, _)) v = get_or (both_row a r) v 0
drawn_both (some (a, _)) none v = 0
drawn_both none receding v = 0

unfoldable pub drawn_approaching : Option (ℕ × ℕ) → ℕ → ℕ
drawn_approaching (some (a, _)) v = get_or (approaching_row a) v 0
drawn_approaching none v = 0

unfoldable pub drawn : Legend → DopplerMode → ℕ → ℕ
drawn legend doppler_off v = v
drawn legend both v = drawn_both legend.doppler_approaching_range legend.doppler_receding_range v
drawn legend approaching v = drawn_approaching legend.doppler_approaching_range v

-- What holds of the sixteen strengths.
sixteen :
    (P : ℕ → Type 0)
    → P 0
    → P 1
    → P 2
    → P 3
    → P 4
    → P 5
    → P 6
    → P 7
    → P 8
    → P 9
    → P 10
    → P 11
    → P 12
    → P 13
    → P 14
    → P 15
    → (v : ℕ) → v < 16
    → P v
sixteen P p0 p1 p2 p3 p4 p5 p6 p7 p8 p9 p10 p11 p12 p13 p14 p15 zero h = p0
sixteen P p0 p1 p2 p3 p4 p5 p6 p7 p8 p9 p10 p11 p12 p13 p14 p15 (suc zero) h = p1
sixteen P p0 p1 p2 p3 p4 p5 p6 p7 p8 p9 p10 p11 p12 p13 p14 p15 (suc (suc zero)) h = p2
sixteen P p0 p1 p2 p3 p4 p5 p6 p7 p8 p9 p10 p11 p12 p13 p14 p15 (suc (suc (suc zero))) h = p3
sixteen P p0 p1 p2 p3 p4 p5 p6 p7 p8 p9 p10 p11 p12 p13 p14 p15 (suc (suc (suc (suc zero)))) h = p4
sixteen P p0 p1 p2 p3 p4 p5 p6 p7 p8 p9 p10 p11 p12 p13 p14 p15 (suc (suc (suc (suc (suc zero)))))
      h =
    p5
sixteen P p0 p1 p2 p3 p4 p5 p6 p7 p8 p9 p10 p11 p12 p13 p14 p15
      (suc (suc (suc (suc (suc (suc zero)))))) h =
    p6
sixteen P p0 p1 p2 p3 p4 p5 p6 p7 p8 p9 p10 p11 p12 p13 p14 p15
      (suc (suc (suc (suc (suc (suc (suc zero))))))) h =
    p7
sixteen P p0 p1 p2 p3 p4 p5 p6 p7 p8 p9 p10 p11 p12 p13 p14 p15
      (suc (suc (suc (suc (suc (suc (suc (suc zero)))))))) h =
    p8
sixteen P p0 p1 p2 p3 p4 p5 p6 p7 p8 p9 p10 p11 p12 p13 p14 p15
      (suc (suc (suc (suc (suc (suc (suc (suc (suc zero))))))))) h =
    p9
sixteen P p0 p1 p2 p3 p4 p5 p6 p7 p8 p9 p10 p11 p12 p13 p14 p15
      (suc (suc (suc (suc (suc (suc (suc (suc (suc (suc zero)))))))))) h =
    p10
sixteen P p0 p1 p2 p3 p4 p5 p6 p7 p8 p9 p10 p11 p12 p13 p14 p15
      (suc (suc (suc (suc (suc (suc (suc (suc (suc (suc (suc zero))))))))))) h =
    p11
sixteen P p0 p1 p2 p3 p4 p5 p6 p7 p8 p9 p10 p11 p12 p13 p14 p15
      (suc (suc (suc (suc (suc (suc (suc (suc (suc (suc (suc (suc zero)))))))))))) h =
    p12
sixteen P p0 p1 p2 p3 p4 p5 p6 p7 p8 p9 p10 p11 p12 p13 p14 p15
      (suc (suc (suc (suc (suc (suc (suc (suc (suc (suc (suc (suc (suc zero))))))))))))) h =
    p13
sixteen P p0 p1 p2 p3 p4 p5 p6 p7 p8 p9 p10 p11 p12 p13 p14 p15
      (suc (suc (suc (suc (suc (suc (suc (suc (suc (suc (suc (suc (suc (suc zero)))))))))))))) h =
    p14
sixteen P p0 p1 p2 p3 p4 p5 p6 p7 p8 p9 p10 p11 p12 p13 p14 p15
      (suc (suc (suc (suc (suc (suc (suc (suc (suc (suc (suc (suc (suc (suc (suc zero)))))))))))))))
      h =
    p15
sixteen P p0 p1 p2 p3 p4 p5 p6 p7 p8 p9 p10 p11 p12 p13 p14 p15
      (suc
        (suc (suc (suc (suc (suc (suc (suc (suc (suc (suc (suc (suc (suc (suc (suc n))))))))))))))))
      h =
    absurd (omega arith)

both_entry-drawn :
    (legend : Legend) (v : ℕ)
    → v < 16
    → both_entry legend v
      ≡ drawn_both legend.doppler_approaching_range legend.doppler_receding_range v
unfolding both_entry drawn_both match_both
both_entry-drawn legend v h =
    by_parts legend.doppler_approaching_range legend.doppler_receding_range
  where
    by_parts :
        (a r : Option (ℕ × ℕ))
        → both_entry (record legend { doppler_approaching_range = a; doppler_receding_range = r }) v
          ≡ drawn_both a r v
    by_parts none r = refl
    by_parts (some (a, _)) none = refl
    by_parts (some (a, _)) (some (r, _)) =
        sixteen (λ v. match_both a r v ≡ get_or (both_row a r) v 0) refl refl refl refl refl refl
          refl refl refl refl refl refl refl refl refl refl v h

approaching_entry-drawn :
    (legend : Legend) (v : ℕ)
    → v < 16
    → approaching_entry legend v ≡ drawn_approaching legend.doppler_approaching_range v
unfolding approaching_entry drawn_approaching match_approaching
approaching_entry-drawn legend v h = by_part legend.doppler_approaching_range
  where
    by_part :
        (a : Option (ℕ × ℕ))
        → approaching_entry (record legend { doppler_approaching_range = a }) v
          ≡ drawn_approaching a v
    by_part none = refl
    by_part (some (a, _)) =
        sixteen (λ v. match_approaching a v ≡ get_or (approaching_row a) v 0) refl refl refl refl
          refl refl refl refl refl refl refl refl refl refl refl refl v h

unfoldable pub all_drawn : Legend → DopplerMode → List Pair → List ℕ
all_drawn legend mode [] = []
all_drawn legend mode ((low, high) ∷ ps) =
    drawn legend mode low ∷ drawn legend mode high ∷ all_drawn legend mode ps

low_packed : (low high : ℕ) → low < 16 → high < 16 → low_of (low + 16 * high) ≡ low
low_packed low high hl hh = omega (arith, low_half (low + 16 * high) (omega arith))

high_packed : (low high : ℕ) → low < 16 → high < 16 → high_of (low + 16 * high) ≡ high
high_packed low high hl hh = omega (arith, high_half (low + 16 * high) (omega arith))

pub length-packed : (ps : List Pair) → length (packed ps) ≡ length ps
unfolding packed
length-packed [] = refl
length-packed ((low, high) ∷ ps) = ap suc (length-packed ps)

pub process_spoke-packed :
    (legend : Legend) (mode : DopplerMode) (ps : List Pair)
    → All IsPair ps
    → process_spoke (wire_to_legend legend) mode (packed ps) ≡ all_drawn legend mode ps
unfolding packed process_spoke all_drawn wire_to_legend drawn
process_spoke-packed legend mode [] h = refl
process_spoke-packed legend doppler_off ((low, high) ∷ ps) h =
    rw
      (
        low_packed low high h.0.0 h.0.1,
        high_packed low high h.0.0 h.0.1,
        process_spoke-packed legend doppler_off ps h.1,
      )
      refl
process_spoke-packed legend both ((low, high) ∷ ps) h =
    rw (low_packed low high h.0.0 h.0.1, high_packed low high h.0.0 h.0.1)
      (rw (both_entry-drawn legend low h.0.0, both_entry-drawn legend high h.0.1)
        (rw (process_spoke-packed legend both ps h.1) refl))
process_spoke-packed legend approaching ((low, high) ∷ ps) h =
    rw (low_packed low high h.0.0 h.0.1, high_packed low high h.0.0 h.0.1)
      (rw (approaching_entry-drawn legend low h.0.0, approaching_entry-drawn legend high h.0.1)
        (rw (process_spoke-packed legend approaching ps h.1) refl))
