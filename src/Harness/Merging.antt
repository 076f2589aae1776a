-- ===== src/Harness/Merging.antt =====
-- packages/harness/src/robotics_acceptance_harness/metrics.py: the difference of two cumulative
-- histograms, and the sum of the histograms that contribute to a window.
pub mod Tallies
mod Extrema
pub mod Population
pub mod Difference
mod Tests
use robotics_runtime.Base.{
  ℕ, zero, suc, ◌+◌, ◌-◌, String, Bool, true, false, not, ◌&&◌, ◌||◌, Option, none, some, List, [],
  ◌∷◌, map, str_eq, ltb, ◌==◌, if◌then◌else◌, Result, ok, err, ◌>>=◌, ◌>>◌, raise_if, length,
  get_elem?, any, all, keep,
}
use Prim.Native.Nat
use robotics_runtime.Base.Float
use robotics_runtime.Base.Float.{Float, Finite}
use robotics_runtime.Harness.Samples.{
  MetricError, aggregation_error, insufficient_data, index_error, zip_error, identity_changed,
  bounds_changed, moved_backwards, sum_availability, no_samples, incompatible_samples,
  MetricAttribute, text, flag, whole, real, Attributes, HistogramSample, delta, histogram_sample,
  total,
}

-- `zip(xs, ys, strict=True)`
abbrev pub zip_strict {ℓ κ} :
    {A : Type ℓ} {B : Type κ} → List A → List B → Result MetricError (List (A × B))
zip_strict [] [] = ok []
zip_strict (x ∷ xs) (y ∷ ys) = zip_strict xs ys >>= λ rest. ok ((x, y) ∷ rest)
zip_strict _ _ = err zip_error

-- `all(value is not None for value in values)`, with the values
abbrev pub all_given {ℓ} : {A : Type ℓ} → List (Option A) → Option (List A)
all_given [] = some []
all_given (none ∷ rest) = none
all_given (some x ∷ rest) = elim (all_given rest) [ none ↦ none | some xs ↦ some (x ∷ xs) ]

abbrev pub is_none {ℓ} : {A : Type ℓ} → Option A → Bool
is_none none = true
is_none (some x) = false

-- `!=` on truth values
abbrev pub differ : Bool → Bool → Bool
differ true b = not b
differ false b = b

abbrev pub lookup {ℓ} : {A : Type ℓ} → String → List (String × A) → Option A
lookup k [] = none
lookup k ((j, a) ∷ rest) = let found = lookup k rest in if str_eq j k then some a else found

-- `max(…)` of natural numbers, after the first one
abbrev pub latest_of : ℕ → List ℕ → ℕ
latest_of t [] = t
latest_of t (u ∷ us) = latest_of (Prim.Native.Nat.max t u) us

module _ {F : Type 0} ⦃finites : Finite F⦄ where
  -- Python's `==` on attributes: a bool is a number.
  abbrev pub number : MetricAttribute F → Option (Float F)
  number (text s) = none
  number (flag true) = some (Float.finite (finites.of_count 1))
  number (flag false) = some (Float.finite (finites.of_count 0))
  number (whole z) = some (Float.finite (finites.of_int z))
  number (real x) = some x

  abbrev pub numbers_equal : Option (Float F) → Option (Float F) → Bool
  numbers_equal (some x) (some y) = Float.eq x y
  numbers_equal _ _ = false

  abbrev pub attribute_equals : MetricAttribute F → MetricAttribute F → Bool
  attribute_equals (text a) (text b) = str_eq a b
  attribute_equals a b = numbers_equal (number a) (number b)

  abbrev pub attribute_kept : Attributes F → String × MetricAttribute F → Bool
  attribute_kept other (k, a) = elim (lookup k other) [
    | none ↦ false
    | some b ↦ attribute_equals a b
  ]

  -- `==` on mappings of attributes
  abbrev pub attributes_equal : Attributes F → Attributes F → Bool
  attributes_equal xs ys = (length xs == length ys) && all (attribute_kept ys) xs

  -- `==` on tuples of bounds
  abbrev pub bounds_equal : List (Float F) → List (Float F) → Bool
  bounds_equal [] [] = true
  bounds_equal (x ∷ xs) (y ∷ ys) = Float.eq x y && bounds_equal xs ys
  bounds_equal _ _ = false

  -- `min(…)` and `max(…)`, after the first value
  abbrev pub extremum_of : (Float F → Float F → Float F) → Float F → List (Float F) → Float F
  extremum_of pick x [] = x
  extremum_of pick x (y ∷ ys) = extremum_of pick (pick x y) ys

  -- `sum_value` of `_subtract_histograms`
  abbrev pub sum_between : HistogramSample F → HistogramSample F → Option (Float F)
  sum_between latest baseline = elim latest.sum [
    | none ↦ none
    | some s ↦ elim (if baseline.count == 0 then some Float.zero_float else baseline.sum) [
      | none ↦ none
      | some t ↦ some (Float.minus s t)
    ]
  ]

  -- the arguments of the `HistogramSample` that is returned
  abbrev pub subtracted : HistogramSample F → HistogramSample F → List (ℕ × ℕ) → HistogramSample F
  subtracted latest baseline pairs = record {
    name = latest.name;
    unit = latest.unit;
    observed_at_ns = latest.observed_at_ns;
    count = latest.count - baseline.count;
    bucket_counts = map (λ (current, previous). current - previous) pairs;
    explicit_bounds = latest.explicit_bounds;
    attributes = latest.attributes;
    temporality = delta;
    start_time_ns = baseline.observed_at_ns;
    sum = sum_between latest baseline;
    min = if baseline.count == 0 then latest.min else none;
    max = if baseline.count == 0 then latest.max else none;
  }

  -- `_subtract_histograms`
  unfoldable pub subtract_histograms :
      HistogramSample F → HistogramSample F → Result MetricError (HistogramSample F)
  unfolding histogram_sample
  subtract_histograms latest baseline = do
    raise_if
        (not (str_eq latest.name baseline.name)
          || (not (str_eq latest.unit baseline.unit)
              || not (attributes_equal latest.attributes baseline.attributes)))
        (aggregation_error identity_changed)
    raise_if (not (bounds_equal latest.explicit_bounds baseline.explicit_bounds))
        (aggregation_error bounds_changed)
    pairs ← zip_strict latest.bucket_counts baseline.bucket_counts
    raise_if
        (ltb latest.count baseline.count || any (λ (current, previous). ltb current previous) pairs)
        (aggregation_error moved_backwards)
    raise_if (not (baseline.count == 0) && differ (is_none latest.sum) (is_none baseline.sum))
        (aggregation_error sum_availability)
    histogram_sample (subtracted latest baseline pairs)

  -- `sum(sample.bucket_counts[index] for sample in samples)`
  unfoldable pub bucket_sum : ℕ → List (HistogramSample F) → Result MetricError ℕ
  bucket_sum index [] = ok 0
  bucket_sum index (h ∷ rest) = elim (get_elem? h.bucket_counts index) [
    | none ↦ err index_error
    | some c ↦ bucket_sum index rest >>= λ s. ok (c + s)
  ]

  -- `bucket_counts`, for `count` indices from `index` on
  unfoldable pub bucket_sums : ℕ → ℕ → List (HistogramSample F) → Result MetricError (List ℕ)
  unfolding bucket_sum
  bucket_sums zero index samples = ok []
  bucket_sums (suc count) index samples = bucket_sum index samples >>= λ s.
      (bucket_sums count (suc index) samples >>= λ rest. ok (s ∷ rest))

  -- `[value(sample) for sample in samples if sample.count]`
  abbrev pub recorded {ℓ} :
      {A : Type ℓ} → (HistogramSample F → A) → List (HistogramSample F) → List A
  recorded value samples = map value (keep (λ h. not (h.count == 0)) samples)

  abbrev pub merged_sum : List (Option (Float F)) → Option (Float F)
  merged_sum sums = elim (all_given sums) [ none ↦ none | some xs ↦ some (finites.sum_of xs) ]

  abbrev pub merged_extremum :
      (Float F → Float F → Float F) → List (Option (Float F)) → Option (Float F)
  merged_extremum pick values = elim (all_given values) [
    | none ↦ none
    | some [] ↦ none
    | some (x ∷ xs) ↦ some (extremum_of pick x xs)
  ]

  -- the arguments of the merged `HistogramSample`
  abbrev pub merged_sample :
      HistogramSample F → List (HistogramSample F) → List ℕ → HistogramSample F
  merged_sample first rest bucket_counts =
      let samples = first ∷ rest in
      record {
        name = first.name;
        unit = first.unit;
        observed_at_ns = latest_of first.observed_at_ns (map (λ h. h.observed_at_ns) rest);
        count = total (map (λ h. h.count) samples);
        bucket_counts = bucket_counts;
        explicit_bounds = first.explicit_bounds;
        attributes = [];
        temporality = delta;
        start_time_ns = 0;
        sum = merged_sum (recorded (λ h. h.sum) samples);
        min = merged_extremum Float.min_of (recorded (λ h. h.min) samples);
        max = merged_extremum Float.max_of (recorded (λ h. h.max) samples);
      }

  -- `_merge_histograms`
  unfoldable pub merge_histograms :
      List (HistogramSample F) → Result MetricError (HistogramSample F)
  unfolding bucket_sums histogram_sample total
  merge_histograms [] = err (insufficient_data no_samples)
  merge_histograms (first ∷ rest) = do
    raise_if (any (λ h. not (str_eq h.name first.name) || not (str_eq h.unit first.unit)) rest)
        (aggregation_error incompatible_samples)
    raise_if (any (λ h. not (bounds_equal h.explicit_bounds first.explicit_bounds)) rest)
        (aggregation_error bounds_changed)
    bucket_counts ← bucket_sums (suc (length first.explicit_bounds)) 0 (first ∷ rest)
    histogram_sample (merged_sample first rest bucket_counts)
