-- ===== src/Harness/Merging/Difference.antt =====
-- The difference of two cumulative histograms: the population of what was recorded in between.
use robotics_runtime.Base.{
  length-append, ℕ, ◌+◌, ◌-◌, ◌≤◌, ◌≡◌, refl, ap, ◌∙◌, ◌⊎◌, inl, Bool, true, false, not, ◌&&◌, ◌||◌,
  none, some, List, [], ◌∷◌, ◌++◌, map, arith, str_eq, ltb, ◌==◌, if_ind, ok, length, any,
}
use robotics_runtime.Base.Float.{Float, Finite}
use robotics_runtime.Harness.Samples.{HistogramSample, not_increasing, given_infinite}
use robotics_runtime.Harness.HistogramEstimates.Events.{tally, IsLeast, IsGreatest}
use robotics_runtime.Harness.Merging.{
  subtracted, zip_strict, subtract_histograms, sum_between, attributes_equal, bounds_equal, differ,
  is_none,
}
use robotics_runtime.Harness.Merging.Tallies.{added, tally-append, length-tally}
use robotics_runtime.Harness.Merging.Population.{
  HasPopulation, histogram_sample-ok, bounds_equal_refl,
}

-- Counts that grew are zipped with the counts before, and the differences are what was added.
differences :
    (old new : List ℕ)
    → length old ≡ length new
    → (pairs : List (ℕ × ℕ)) × (zip_strict (added old new) old ≡ ok pairs)
      × (any (λ (current, previous). ltb current previous) pairs ≡ false)
      × (map (λ (current, previous). current - previous) pairs ≡ new)
differences [] [] h = ([], refl, refl, refl)
differences [] (y ∷ ys) h = absurd (ground arith)
differences (x ∷ xs) [] h = absurd (ground arith)
differences (x ∷ xs) (y ∷ ys) h =
    let (pairs, zipped, grew, left) = differences xs ys (ground arith) in
    ((x + y, x) ∷ pairs, rw zipped refl, ground (arith, grew), ground (arith, left))

all_true : {a b c : Bool} → a ≡ true → b ≡ true → c ≡ true → (not a || (not b || not c)) ≡ false
all_true p q r = rw (p, q, r) refl

or_false : {a b : Bool} → a ≡ false → b ≡ false → (a || b) ≡ false
or_false p q = rw (p, q) refl

module _ {F : Type 0} ⦃finites : Finite F⦄ where
  between_extremum {κ} :
      (P : List F → Type κ) (old new : List F) (n : ℕ)
      → n ≡ length old
      → (n == 0) ≡ true
      → P (old ++ new)
      → P new
  between_extremum P [] new n h z p = p
  between_extremum P (x ∷ xs) new n h z p = absurd (ground arith)

  between_population :
      (latest baseline : HistogramSample F) (bounds old new : List F) (pairs : List (ℕ × ℕ))
      → HasPopulation latest bounds (old ++ new)
      → HasPopulation baseline bounds old
      → map (λ (current, previous). current - previous) pairs ≡ tally bounds new
      → HasPopulation (subtracted latest baseline pairs) bounds new
  between_population latest baseline bounds old new pairs p q left = record {
    explicit_bounds = p.explicit_bounds;
    bucket_counts = left;
    count = omega (arith, p.count, q.count, length-append old new);
    min =
        if_ind (λ o. (o ≡ none) ⊎ ((m : F) × (o ≡ some (Float.finite m)) × IsLeast m new))
          (baseline.count == 0)
          (λ z.
            between_extremum
              (λ es.
                (latest.min ≡ none)
                ⊎ ((m : F) × (latest.min ≡ some (Float.finite m)) × IsLeast m es))
              old new baseline.count q.count z p.min)
          (λ _. inl refl);
    max =
        if_ind (λ o. (o ≡ none) ⊎ ((m : F) × (o ≡ some (Float.finite m)) × IsGreatest m new))
          (baseline.count == 0)
          (λ z.
            between_extremum
              (λ es.
                (latest.max ≡ none)
                ⊎ ((m : F) × (latest.max ≡ some (Float.finite m)) × IsGreatest m es))
              old new baseline.count q.count z p.max)
          (λ _. inl refl);
  }

  not_fewer :
      (latest baseline : HistogramSample F) (old new : List F)
      → latest.count ≡ length (old ++ new)
      → baseline.count ≡ length old
      → ltb latest.count baseline.count ≡ false
  not_fewer latest baseline old new e f = ground (arith, length-append old new)

  -- A later histogram of a series with increasing bounds, whose population extends that of the
  -- baseline, less the baseline is a histogram without an error that has the events recorded in
  -- between as its population, if the two agree in name, unit and attributes, a sum is missing in
  -- both or in neither unless the baseline is empty, and the difference of the sums is finite or
  -- missing.
  pub subtract_histograms-HasPopulation :
      (latest baseline : HistogramSample F) (bounds old new : List F)
      → HasPopulation latest bounds (old ++ new)
      → HasPopulation baseline bounds old
      → str_eq latest.name baseline.name ≡ true
      → str_eq latest.unit baseline.unit ≡ true
      → attributes_equal latest.attributes baseline.attributes ≡ true
      → not_increasing (map Float.finite bounds) ≡ false
      → (not (baseline.count == 0) && differ (is_none latest.sum) (is_none baseline.sum)) ≡ false
      → given_infinite (sum_between latest baseline) ≡ false
      → baseline.observed_at_ns ≤ latest.observed_at_ns
      → (m : HistogramSample F) × (subtract_histograms latest baseline ≡ ok m)
        × HasPopulation m bounds new
  unfolding subtract_histograms
  subtract_histograms-HasPopulation latest baseline bounds old new p q name unit attributes
        increasing available sum later =
      let (pairs, zipped, grew, left) =
        differences (tally bounds old) (tally bounds new)
          (ground (arith, length-tally bounds old, length-tally bounds new)) in
      let kept = between_population latest baseline bounds old new pairs p q left in
      (
        subtracted latest baseline pairs,
        rw
            (
              all_true name unit attributes,
              ap not (ap_bounds p.explicit_bounds q.explicit_bounds),
              ap (λ xs. zip_strict xs baseline.bucket_counts)
                    (p.bucket_counts ∙ tally-append bounds old new)
                  ∙ (ap (zip_strict (added (tally bounds old) (tally bounds new))) q.bucket_counts
                      ∙ zipped),
              or_false (not_fewer latest baseline old new p.count q.count) grew,
              available,
            )
            (histogram_sample-ok (subtracted latest baseline pairs) bounds new kept increasing sum
              (ground arith)),
        kept,
      )
    where
      ap_bounds :
          latest.explicit_bounds ≡ map Float.finite bounds
          → baseline.explicit_bounds ≡ map Float.finite bounds
          → bounds_equal latest.explicit_bounds baseline.explicit_bounds ≡ true
      ap_bounds e f = rw (e, f) (bounds_equal_refl bounds)
