-- ===== src/Radar/Range/Order.antt =====
-- The order of the ranges of src/lib/radar/range.rs, and what a place in a list by unit leads to.
use mathlib.Core.List.{Perm}
use mathlib.Core.List.Perm
use mayara_server.Common.{
  ℕ, suc, ◌-◌, ◌≤◌, ◌≡◌, refl, ap, ◌∙◌, arith, Bool, true, not, List, [], ◌∷◌, some, get_elem?,
  Bool-cases, inl, inr,
}
use mayara_server.Common.Int.{ℤ, ◌≤ℤ◌, ltb_ℤ}
use mayara_server.Bytes.{All}
use mayara_server.Bytes.Laws.{All-map}
use mayara_server.Radar.Range.{
  Range, Ranges, is_metric_distance, insert, sort, ranges_new, get_distance,
}
use mayara_server.Radar.Range.Split.{places, is_mixed, IsSplit, ranges_new-IsSplit}

abbrev pub IsSorted : List Range → Type 0
IsSorted [] = Unit
IsSorted (r ∷ rs) = All (λ x. r.distance ≤ℤ x.distance) rs × IsSorted rs

insert-All :
    (P : Range → Type 0) (r : Range) (xs : List Range) → P r → All P xs → All P (insert r xs)
unfolding insert
insert-All P r [] h k = (h, tt)
insert-All P r (x ∷ xs) h k = elim (Bool-cases (ltb_ℤ x.distance r.distance)) [
  | inl less ↦ rw less (k.0, insert-All P r xs h k.1)
  | inr more ↦ rw more (h, k)
]

insert-IsSorted : (r : Range) (xs : List Range) → IsSorted xs → IsSorted (insert r xs)
unfolding insert
insert-IsSorted r [] h = (tt, tt)
insert-IsSorted r (x ∷ xs) h = elim (Bool-cases (ltb_ℤ x.distance r.distance)) [
  | inl less ↦ rw less (insert-All _ r xs (ground (arith, less)) h.0, insert-IsSorted r xs h.1)
  | inr more ↦
      let first : r.distance ≤ℤ x.distance = ground (arith, more) in
      rw more ((first, All-map _ _ xs (λ y k. omega (arith, first, k)) h.0), h)
]

sort-IsSorted : (rs : List Range) → IsSorted (sort rs)
unfolding sort
sort-IsSorted [] = tt
sort-IsSorted (r ∷ rs) = insert-IsSorted r (sort rs) (sort-IsSorted rs)

insert-Perm : (r : Range) (xs : List Range) → Perm (insert r xs) (r ∷ xs)
unfolding insert
insert-Perm r [] = Perm.refl (r ∷ [])
insert-Perm r (x ∷ xs) = elim (Bool-cases (ltb_ℤ x.distance r.distance)) [
  | inl less ↦ rw less (Perm.trans (Perm.cons x (insert-Perm r xs)) (Perm.swap r x xs))
  | inr more ↦ rw more (Perm.refl (r ∷ x ∷ xs))
]

sort-Perm : (rs : List Range) → Perm (sort rs) rs
unfolding sort
sort-Perm [] = Perm.refl []
sort-Perm (r ∷ rs) = Perm.trans (insert-Perm r (sort rs)) (Perm.cons r (sort-Perm rs))

-- `new` leaves the given ranges in `all`, each as often as before, by rising distance.
pub ranges_new-IsSorted :
    (ranges : List Range) → IsSorted (ranges_new ranges).all × Perm (ranges_new ranges).all ranges
ranges_new-IsSorted ranges =
    let all_is = (ranges_new-IsSplit ranges).1 in rw all_is (sort-IsSorted ranges, sort-Perm ranges)

-- An entry of a list by unit: it passes the test, and its index leads to its distance.
abbrev pub LeadsTo : (ℤ → Bool) → ℕ → List Range → Range → Type 0
LeadsTo p i all e =
    (p e.distance ≡ true)
    × (i ≤ e.index)
    × ((r : Range) × (get_elem? all (e.index - i) ≡ some r) × (r.distance ≡ e.distance))

places-LeadsTo : (p : ℤ → Bool) (i : ℕ) (all : List Range) → All (LeadsTo p i all) (places p i all)
unfolding places
places-LeadsTo p i [] = tt
places-LeadsTo p i (x ∷ xs) =
    let rest =
      All-map _ (LeadsTo p i (x ∷ xs)) (places p (suc i) xs) (later p i x xs)
        (places-LeadsTo p (suc i) xs) in
    let here : i - i ≡ 0 = omega arith in
    elim (Bool-cases (p x.distance)) [
      | inl passes ↦
          rw passes
            ((passes, omega arith, (x, ap (λ (k : ℕ). get_elem? (x ∷ xs) k) here, refl)), rest)
      | inr fails ↦ rw fails rest
    ]
  where
    later :
        (p : ℤ → Bool) (i : ℕ) (x : Range) (xs : List Range) (e : Range)
        → LeadsTo p (suc i) xs e
        → LeadsTo p i (x ∷ xs) e
    later p i x xs e (passes, after, (r, there, same)) =
        let step : e.index - i ≡ suc (e.index - suc i) = omega (arith, after) in
        (passes, omega (arith, after), (r, ap (λ (k : ℕ). get_elem? (x ∷ xs) k) step ∙ there, same))

-- The index of an entry leads, through `get_distance`, to its distance.
abbrev pub Leads : (ℤ → Bool) → Ranges → Range → Type 0
Leads p rs e = (p e.distance ≡ true) × (get_distance rs e.index ≡ e.distance)

places-Leads :
    (p : ℤ → Bool) (rs : Ranges) (entries : List Range)
    → entries ≡ places p 0 rs.all
    → All (Leads p rs) entries
unfolding get_distance
places-Leads p rs entries is =
    rw is (
      All-map (LeadsTo p 0 rs.all) (Leads p rs) (places p 0 rs.all) lead
        (places-LeadsTo p 0 rs.all))
  where
    lead : (e : Range) → LeadsTo p 0 rs.all e → Leads p rs e
    lead e (passes, after, (r, there, same)) =
        let whole : e.index ≡ e.index - 0 = omega arith in
        (passes, rw (ap (λ (k : ℕ). get_elem? rs.all k) whole ∙ there, get_distance) same)

-- In ranges whose lists by unit are those of `all`, each entry of a list by unit has a distance of
-- that unit, and its index leads through `get_distance` to that distance.
pub get_distance-Leads :
    (rs : Ranges)
    → IsSplit rs
    → All (Leads is_metric_distance rs) rs.metric
      × All (Leads (λ d. not (is_metric_distance d)) rs) rs.nautical
      × All (Leads is_mixed rs) rs.mixed
get_distance-Leads rs h = (
  places-Leads is_metric_distance rs rs.metric h.metric_is,
  places-Leads (λ d. not (is_metric_distance d)) rs rs.nautical h.nautical_is,
  places-Leads is_mixed rs rs.mixed h.mixed_is,
)
