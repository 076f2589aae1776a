-- ===== src/Harness/Merging/Tests.antt =====
-- Small histograms that are put together and taken from each other.
use robotics_runtime.Base.{
  ℕ, ◌≡◌, refl, inl, inr, Option, none, some, List, [], ◌∷◌, arith, ok, err, count_if,
}
use robotics_runtime.Base.Float.{Float, naturals}
use robotics_runtime.Harness.Samples.{
  aggregation_error, moved_backwards, HistogramSample, not_increasing, cumulative,
}
use robotics_runtime.Harness.HistogramEstimates.Events.{tally}
use robotics_runtime.Harness.Merging.{subtract_histograms}
use robotics_runtime.Harness.Merging.Population.{HasPopulation}
use robotics_runtime.Harness.Merging.Difference.{subtract_histograms-HasPopulation}

abbrev bounds : List ℕ
bounds = 5 ∷ 10 ∷ []

abbrev histogram : ℕ → ℕ → List ℕ → Option (Float ℕ) → Option (Float ℕ) → HistogramSample ℕ
histogram at count counts sum max = record {
  name = "robotics.message.age";
  unit = "ms";
  observed_at_ns = at;
  count = count;
  bucket_counts = counts;
  explicit_bounds = Float.finite 5 ∷ Float.finite 10 ∷ [];
  attributes = [];
  temporality = cumulative;
  start_time_ns = 0;
  sum = sum;
  min = none;
  max = max;
}

abbrev early : HistogramSample ℕ
early = histogram 3 2 (1 ∷ 1 ∷ 0 ∷ []) (some (Float.finite 10)) (some (Float.finite 7))

abbrev late : HistogramSample ℕ
late = histogram 9 3 (1 ∷ 1 ∷ 1 ∷ []) (some (Float.finite 22)) (some (Float.finite 12))

early-HasPopulation : HasPopulation early bounds (3 ∷ 7 ∷ [])
unfolding tally count_if
early-HasPopulation = record {
  explicit_bounds = refl;
  bucket_counts = refl;
  count = refl;
  min = inl refl;
  max = inr (7, refl, (inr (inl refl), (refl, (refl, tt))));
}

late-HasPopulation : HasPopulation late bounds (3 ∷ 7 ∷ 12 ∷ [])
unfolding tally count_if
late-HasPopulation = record {
  explicit_bounds = refl;
  bucket_counts = refl;
  count = refl;
  min = inl refl;
  max = inr (12, refl, (inr (inr (inl refl)), (refl, (refl, (refl, tt)))));
}

backwards : subtract_histograms early late ≡ err (aggregation_error moved_backwards)
unfolding subtract_histograms
backwards = refl

subtract_histograms-HasPopulation_example :
    (m : HistogramSample ℕ) × (subtract_histograms late early ≡ ok m)
    × HasPopulation m bounds (12 ∷ [])
unfolding not_increasing
subtract_histograms-HasPopulation_example =
    subtract_histograms-HasPopulation late early bounds (3 ∷ 7 ∷ []) (12 ∷ []) late-HasPopulation
      early-HasPopulation refl refl refl refl refl refl (omega arith)
