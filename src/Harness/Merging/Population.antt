-- ===== src/Harness/Merging/Population.antt =====
-- The populations behind histograms that are put together: the merged histogram is that of all the
-- events.
use robotics_runtime.Base.{
  suc, ◌≡◌, refl, ap, ◌∙◌, ◌⊎◌, inl, inr, true, false, not, ◌&&◌, ◌||◌, Option, none, some, List,
  [], ◌∷◌, map, arith, ltb, ◌==◌, ok, length, any, All-at,
}
use robotics_runtime.Base.Float
use robotics_runtime.Base.Float.{Float, Finite}
use robotics_runtime.Harness.Samples.{
  HistogramSample, histogram_sample, not_increasing, total, given_infinite, min_exceeds_max,
}
use robotics_runtime.Harness.HistogramEstimates.Events.{tally, IsLeast, IsGreatest}
use robotics_runtime.Harness.Merging.{bounds_equal}
use robotics_runtime.Harness.Merging.Tallies.{length-tally, total-tally}

module _ {F : Type 0} ⦃finites : Finite F⦄ where
  -- The buckets, the count and the extrema of a histogram are those of its events; the extrema may
  -- be missing.
  pub record HasPopulation (h : HistogramSample F) (bounds events : List F) : Type 0 where
    pub explicit_bounds : h.explicit_bounds ≡ map Float.finite bounds
    pub bucket_counts : h.bucket_counts ≡ tally bounds events
    pub count : h.count ≡ length events
    pub min : (h.min ≡ none) ⊎ ((m : F) × (h.min ≡ some (Float.finite m)) × IsLeast m events)
    pub max : (h.max ≡ none) ⊎ ((m : F) × (h.max ≡ some (Float.finite m)) × IsGreatest m events)

  le_refl : (a : F) → finites.le a a ≡ true
  le_refl a = ground (arith, finites.le_total a a)

  finite_bounds :
      (bounds : List F) → any (λ b. not (Float.is_finite b)) (map Float.finite bounds) ≡ false
  finite_bounds [] = refl
  finite_bounds (b ∷ bs) = finite_bounds bs

  pub bounds_equal_refl :
      (bounds : List F) → bounds_equal (map Float.finite bounds) (map Float.finite bounds) ≡ true
  bounds_equal_refl [] = refl
  bounds_equal_refl (b ∷ bs) = ground (arith, le_refl b, bounds_equal_refl bs)

  pub length-map : (bounds : List F) → length (map Float.finite bounds) ≡ length bounds
  length-map [] = refl
  length-map (b ∷ bs) = ap suc (length-map bs)

  extremum_finite {κ} :
      {P : F → Type κ} (o : Option (Float F))
      → (o ≡ none) ⊎ ((m : F) × (o ≡ some (Float.finite m)) × P m)
      → given_infinite o ≡ false
  extremum_finite o (inl e) = rw e refl
  extremum_finite o (inr (m, e, _)) = rw e refl

  extrema_ordered :
      (low high : Option (Float F)) (events : List F)
      → (low ≡ none) ⊎ ((m : F) × (low ≡ some (Float.finite m)) × IsLeast m events)
      → (high ≡ none) ⊎ ((m : F) × (high ≡ some (Float.finite m)) × IsGreatest m events)
      → min_exceeds_max low high ≡ false
  extrema_ordered low high events (inl e) h = rw e refl
  extrema_ordered low high events (inr (m, e, _)) (inl f) = rw (e, f) refl
  extrema_ordered low high events (inr (m, e, (member, _))) (inr (n, f, (_, greatest))) =
      rw (e, f, All-at (λ x. finites.le x n ≡ true) m events greatest member) refl

  -- A histogram with a population passes the checks of `HistogramSample`.
  pub histogram_sample-ok :
      (h : HistogramSample F) (bounds events : List F)
      → HasPopulation h bounds events
      → not_increasing (map Float.finite bounds) ≡ false
      → given_infinite h.sum ≡ false
      → (ltb 0 h.start_time_ns && ltb h.observed_at_ns h.start_time_ns) ≡ false
      → histogram_sample h ≡ ok h
  unfolding histogram_sample
  histogram_sample-ok h bounds events p increasing sum started =
      rw
        (
          started,
          arity,
          sums,
          finite,
          ap not_increasing p.explicit_bounds ∙ increasing,
          extrema,
          ordered,
        )
        refl
    where
      arity : not (length h.bucket_counts == suc (length h.explicit_bounds)) ≡ false
      arity = ground (
        arith,
        ap length p.bucket_counts,
        length-tally bounds events,
        ap length p.explicit_bounds,
        length-map bounds,
      )

      sums : not (total h.bucket_counts == h.count) ≡ false
      sums = ground (arith, ap total p.bucket_counts, total-tally bounds events, p.count)

      finite : any (λ b. not (Float.is_finite b)) h.explicit_bounds ≡ false
      finite = ap (any (λ b. not (Float.is_finite b))) p.explicit_bounds ∙ finite_bounds bounds

      extrema : (given_infinite h.sum || (given_infinite h.min || given_infinite h.max)) ≡ false
      extrema = rw (sum, extremum_finite h.min p.min, extremum_finite h.max p.max) refl

      ordered : min_exceeds_max h.min h.max ≡ false
      ordered = extrema_ordered h.min h.max events p.min p.max
