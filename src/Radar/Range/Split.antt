-- ===== src/Radar/Range/Split.antt =====
-- The lists by unit of src/lib/radar/range.rs, as parts of the whole list.
use mayara_server.Common.{
  ℕ, suc, ◌+◌, ◌≡◌, refl, sym, ap, ◌∙◌, arith, Bool, not, List, [], ◌∷◌, ◌++◌, length,
  length-append, append_assoc, append-nil, if◌then◌else◌, Bool-cases, inl, inr,
}
use mayara_server.Common.Int.{ℤ, pos, ltb_ℤ}
use mayara_server.Radar.Range.{
  Range, Ranges, is_metric_distance, add_range, sort, empty, add_ranges, ranges_new,
}

-- The ranges whose distance passes a test, each with its place in the list, counted from `i`.
unfoldable pub places : (ℤ → Bool) → ℕ → List Range → List Range
places p i [] = []
places p i (r ∷ rs) =
    let rest = places p (suc i) rs in
    if p r.distance then record { distance = r.distance; index = i } ∷ rest else rest

abbrev pub is_mixed : ℤ → Bool
is_mixed d = if is_metric_distance d then not (ltb_ℤ (pos 1000) d) else ltb_ℤ (pos 1500) d

-- The lists by unit hold the places in a whole list: of the metric ranges, of the others, and of
-- the short metric and long other ones.
pub record SplitOf (all : List Range) (rs : Ranges) : Type 0 where
  pub metric_is : rs.metric ≡ places is_metric_distance 0 all
  pub nautical_is : rs.nautical ≡ places (λ d. not (is_metric_distance d)) 0 all
  pub mixed_is : rs.mixed ≡ places is_mixed 0 all

places-append :
    (p : ℤ → Bool) (i : ℕ) (xs : List Range) (r : Range)
    → places p i (xs ++ (r ∷ [])) ≡ places p i xs ++ places p (i + length xs) (r ∷ [])
unfolding places
places-append p i [] r =
    let e : i + 0 ≡ i = omega arith in ap (λ (k : ℕ). places p k (r ∷ [])) (sym e)
places-append p i (x ∷ xs) r =
    let e : suc i + length xs ≡ i + suc (length xs) = omega arith in
    let ih =
      places-append p (suc i) xs r ∙ ap (λ (k : ℕ). places p (suc i) xs ++ places p k (r ∷ [])) e in
    elim (Bool-cases (p x.distance)) [
      | inl passes ↦ rw passes (ap (λ ys. record { distance = x.distance; index = i } ∷ ys) ih)
      | inr fails ↦ rw fails ih
    ]

-- One more range at the end of the list: each list by unit gains its place, if it belongs there.
add_range-places :
    (i : ℕ) (rs : Ranges) (r : Range)
    → ((add_range r.distance i rs).metric ≡ rs.metric ++ places is_metric_distance i (r ∷ []))
      × ((add_range r.distance i rs).nautical
          ≡ rs.nautical ++ places (λ x. not (is_metric_distance x)) i (r ∷ []))
      × ((add_range r.distance i rs).mixed ≡ rs.mixed ++ places is_mixed i (r ∷ []))
unfolding add_range places
add_range-places i rs r = elim (Bool-cases (is_metric_distance r.distance)) [
  | inl metric ↦ elim (Bool-cases (ltb_ℤ (pos 1000) r.distance)) [
    | inl long ↦ rw metric (rw long (refl, sym (append-nil rs.nautical), sym (append-nil rs.mixed)))
    | inr short ↦ rw metric (rw short (refl, sym (append-nil rs.nautical), refl))
  ]
  | inr nautical ↦ elim (Bool-cases (ltb_ℤ (pos 1500) r.distance)) [
    | inl long ↦ rw nautical (rw long (sym (append-nil rs.metric), refl, refl))
    | inr short ↦
        rw nautical (rw short (sym (append-nil rs.metric), refl, sym (append-nil rs.mixed)))
  ]
]

add_range-SplitOf :
    (xs : List Range) (r : Range) (rs : Ranges)
    → SplitOf xs rs
    → SplitOf (xs ++ (r ∷ [])) (add_range r.distance (length xs) rs)
add_range-SplitOf xs r rs h =
    let (metric, nautical, mixed) = add_range-places (length xs) rs r in
    let zero_front : 0 + length xs ≡ length xs = omega arith in
    let joined = λ (p : ℤ → Bool).
      sym (
        places-append p 0 xs r ∙ ap (λ (k : ℕ). places p 0 xs ++ places p k (r ∷ [])) zero_front) in
    record {
      metric_is = metric ∙ rw h.metric_is (joined is_metric_distance);
      nautical_is = nautical ∙ rw h.nautical_is (joined (λ d. not (is_metric_distance d)));
      mixed_is = mixed ∙ rw h.mixed_is (joined is_mixed);
    }

add_ranges-SplitOf :
    (xs more : List Range) (rs : Ranges)
    → SplitOf xs rs
    → SplitOf (xs ++ more) (add_ranges (length xs) more rs)
unfolding add_ranges
add_ranges-SplitOf xs [] rs h = rw append-nil h
add_ranges-SplitOf xs (r ∷ more) rs h =
    let longer : length (xs ++ (r ∷ [])) ≡ suc (length xs) =
      omega (arith, length-append xs (r ∷ [])) in
    rw (← append_assoc xs (r ∷ []) more) (
      rw (← longer) (
        add_ranges-SplitOf (xs ++ (r ∷ [])) more (add_range r.distance (length xs) rs)
          (add_range-SplitOf xs r rs h)))

-- The lists by unit are those of `all`.
abbrev pub IsSplit : Ranges → Type 0
IsSplit rs = SplitOf rs.all rs

-- `new` leaves the sorted ranges in `all`, and in the lists by unit the places in it of the metric
-- ranges, of the others, and of the mixed ones.
pub ranges_new-IsSplit :
    (ranges : List Range) → IsSplit (ranges_new ranges) × ((ranges_new ranges).all ≡ sort ranges)
unfolding ranges_new empty places
ranges_new-IsSplit ranges =
    let h =
      add_ranges-SplitOf [] (sort ranges) empty
        (record { metric_is = refl; nautical_is = refl; mixed_is = refl }) in
    (record { metric_is = h.metric_is; nautical_is = h.nautical_is; mixed_is = h.mixed_is }, refl)
