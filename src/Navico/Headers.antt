-- ===== src/Navico/Headers.antt =====
-- The headers of lines of src/lib/brand/navico/report.rs: what their fields say.
use mayara_server.Common.{
  ℕ, suc, ◌+◌, ◌-◌, ◌*◌, ◌/◌, ◌%◌, ◌^◌, ◌≤◌, ◌<◌, ◌≡◌, refl, sym, ap, ◌∙◌, arith, Bool, true, false,
  not, ◌&&◌, ◌||◌, List, ◌∷◌, ◌++◌, Option, none, some, length, ltb, leb, ◌==◌, if◌then◌else◌,
  Bool-cases, inl, inr,
}
use Prim.Native.Nat.{bit_and}
use mayara_server.Bytes.{to_le_bytes, from_le_bytes}
use mayara_server.Bytes.Laws.{from-to_le_bytes}
use mayara_server.Bytes.Digits.{heading_bits, flag_bit, other_bits, low_24}
use mayara_server.Navico.{
  Model, br24, gen3, Env, gen3_plus_header, gen_br24_header, validate_4g_header,
  validate_br24_header, validate_header, is_heading_true, is_valid_heading_value,
  extract_heading_value,
}

-- A header as the radar sends it. The BR24 and 3G have their range in `small_range` and `rotation`.
pub record Header : Type 0 where
  pub header_len : ℕ
  pub status : ℕ
  pub scan_number : ℕ
  pub mark : ℕ
  pub large_range : ℕ
  pub angle : ℕ
  pub heading : ℕ
  pub small_range : ℕ
  pub rotation : ℕ
  pub unknown : List ℕ

pub record IsHeader (h : Header) : Type 0 where
  pub large_range_fits : h.large_range < 2 ^ 16
  pub angle_fits : h.angle < 2 ^ 16
  pub heading_fits : h.heading < 2 ^ 16
  pub small_range_fits : h.small_range < 2 ^ 16
  pub rotation_fits : h.rotation < 2 ^ 16
  pub unknown_length : length h.unknown ≡ 8

unfoldable pub header_bytes : Header → List ℕ
header_bytes h =
    h.header_len
    ∷ h.status
    ∷ (to_le_bytes 2 h.scan_number
        ++ (to_le_bytes 2 h.mark
            ++ (to_le_bytes 2 h.large_range
                ++ (to_le_bytes 2 h.angle
                    ++ (to_le_bytes 2 h.heading
                        ++ (to_le_bytes 2 h.small_range
                            ++ (to_le_bytes 2 h.rotation ++ h.unknown)))))))

-- The header is 24 bytes long by its own account, and has one of the three statuses of a spoke.
unfoldable pub is_good : Header → Bool
is_good h =
    (h.header_len == 24) && ((h.status == 0x02) || ((h.status == 0x12) || (h.status == 0xC2)))

-- A true heading has the flag 0x4000 and no other bit above the twelve of its value.
unfoldable pub true_heading : ℕ → Option ℕ
true_heading raw = if leb 0x4000 raw && ltb raw 0x5000 then some (raw - 0x4000) else none

abbrev is_older : Model → Bool
is_older br24 = true
is_older gen3 = true
is_older m = false

-- The range in meters.
unfoldable pub range_of : Env → Model → Header → ℕ
range_of env m h =
    if is_older m
    then env.br24_range (h.small_range + 65536 * (h.rotation % 256))
    else if h.large_range == 128
    then (if h.small_range == 65535 then 0 else h.small_range / 4)
    else h.large_range * h.small_range / 512

-- What a header says: the range, the angle and the heading, if it is good.
unfoldable pub reading : Env → Model → Header → Option (ℕ × ℕ × Option ℕ)
reading env m h =
    if is_good h then some (range_of env m h, h.angle / 2, true_heading h.heading) else none

-- The two tests and the mask of the code, as tests of the size.
extract_heading_value-true : (x : ℕ) → x < 2 ^ 16 → extract_heading_value x ≡ true_heading x
unfolding extract_heading_value true_heading is_heading_true is_valid_heading_value
extract_heading_value-true x h = elim (Bool-cases (leb 0x4000 x && ltb x 0x5000)) [
  | inl inside ↦
      let small : (0x4000 ≤ x) × (x < 0x5000) = ground (arith, inside) in
      let a : (bit_and x 0xB000 == 0) ≡ true = ground (arith, other_bits x h, small.0, small.1) in
      let b : (bit_and x 0x4000 == 0) ≡ false = ground (arith, flag_bit x h, small.0, small.1) in
      let v : bit_and x 0xfff ≡ x - 0x4000 = omega (arith, heading_bits x h, small.0, small.1) in
      rw (inside, a, b, v) refl
  | inr outside ↦
      let far : ((bit_and x 0xB000 == 0) && not (bit_and x 0x4000 == 0)) ≡ false =
        ground (arith, other_bits x h, flag_bit x h, outside) in
      ap (λ b. if b then some (bit_and x 0xfff) else none) far
      ∙ ap (λ b. if b then some (x - 0x4000) else none) (sym outside)
]

pub length-header_bytes : (h : Header) → IsHeader h → length (header_bytes h) ≡ 24
unfolding header_bytes to_le_bytes
length-header_bytes h is = omega (arith, is.unknown_length)

-- The fields as the code reads them.
read_newer :
    (h : Header)
    → IsHeader h
    → gen3_plus_header (header_bytes h)
      ≡ some (record {
        header_len = h.header_len;
        status = h.status;
        large_range = to_le_bytes 2 h.large_range;
        angle = to_le_bytes 2 h.angle;
        heading = to_le_bytes 2 h.heading;
        small_range = to_le_bytes 2 h.small_range;
      })
unfolding gen3_plus_header header_bytes to_le_bytes
read_newer h is =
    let long : leb 10 (suc (suc (length h.unknown))) ≡ true = ground (arith, is.unknown_length) in
    rw long refl

read_older :
    (h : Header)
    → IsHeader h
    → gen_br24_header (header_bytes h)
      ≡ some (record {
        header_len = h.header_len;
        status = h.status;
        angle = to_le_bytes 2 h.angle;
        heading = to_le_bytes 2 h.heading;
        range = to_le_bytes 2 h.small_range ++ to_le_bytes 2 h.rotation;
      })
unfolding gen_br24_header header_bytes to_le_bytes
read_older h is =
    let long : leb 8 (length h.unknown) ≡ true = ground (arith, is.unknown_length) in rw long refl

older_range :
    (h : Header)
    → IsHeader h
    → bit_and (from_le_bytes (to_le_bytes 2 h.small_range ++ to_le_bytes 2 h.rotation)) 0xffffff
      ≡ h.small_range + 65536 * (h.rotation % 256)
unfolding to_le_bytes from_le_bytes
older_range h is =
    let raw : from_le_bytes (to_le_bytes 2 h.small_range ++ to_le_bytes 2 h.rotation)
        ≡ h.small_range + 65536 * h.rotation =
      omega (arith, is.small_range_fits, is.rotation_fits) in
    rw raw (
      omega (
        arith,
        low_24 (h.small_range + 65536 * h.rotation)
            (omega (arith, is.small_range_fits, is.rotation_fits)),
        is.small_range_fits,
      ))

tests_in_turn :
    {A : Type 0} (a b : Bool) (x : Option A)
    → (if not a then none else if not b then none else x) ≡ (if a && b then x else none)
tests_in_turn true true x = refl
tests_in_turn true false x = refl
tests_in_turn false b x = refl

-- The bytes of a header of fields of 16 bits are read as the fields say, by the models with either
-- header: with a length of 24 and one of the three statuses as the range for the model, half the
-- angle, and the heading if it is from 0x4000 on and below 0x5000, less that flag; else as nothing.
pub validate_header-reading :
    (env : Env) (m : Model) (h : Header)
    → IsHeader h
    → validate_header env m (header_bytes h) ≡ reading env m h
unfolding validate_header reading range_of is_good validate_4g_header validate_br24_header
validate_header-reading env m h is = by_kind (is_older m)
  where
    angle : from_le_bytes (to_le_bytes 2 h.angle) ≡ h.angle
    angle = from-to_le_bytes 2 h.angle is.angle_fits

    told : extract_heading_value (from_le_bytes (to_le_bytes 2 h.heading)) ≡ true_heading h.heading
    told =
        ap extract_heading_value (from-to_le_bytes 2 h.heading is.heading_fits)
        ∙ extract_heading_value-true h.heading is.heading_fits

    valid : Bool
    valid = (h.status == 0x02) || ((h.status == 0x12) || (h.status == 0xC2))

    by_kind :
        (b : Bool)
        → (if b
            then elim (gen_br24_header (header_bytes h)) [
              | none ↦ none
              | some header ↦ validate_br24_header env header
            ]
            else elim (gen3_plus_header (header_bytes h)) [
              | none ↦ none
              | some header ↦ validate_4g_header header
            ])
          ≡ (if (h.header_len == 24) && valid
              then some (
                (if b
                    then env.br24_range (h.small_range + 65536 * (h.rotation % 256))
                    else if h.large_range == 128
                    then (if h.small_range == 65535 then 0 else h.small_range / 4)
                    else h.large_range * h.small_range / 512),
                h.angle / 2,
                true_heading h.heading,
              )
              else none)
    by_kind true =
        rw (read_older h is)
          (rw (angle, told, older_range h is) (tests_in_turn (h.header_len == 24) valid _))
    by_kind false = rw (read_newer h is) (
        rw
          (
            angle,
            told,
            from-to_le_bytes 2 h.large_range is.large_range_fits,
            from-to_le_bytes 2 h.small_range is.small_range_fits,
          )
          (tests_in_turn (h.header_len == 24) valid _))
