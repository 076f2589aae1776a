-- ===== src/Harness/HistogramEstimates.antt =====
-- packages/harness/src/robotics_acceptance_harness/_histogram_estimates.py
--
-- `bisect_left` on increasing bounds is the first index whose bound is not below the value. The
-- aggregation and the operator names of the contract are data types, so no lookup of them fails.
pub mod Events
mod Ranks
mod Extrema
mod Bounds
pub mod Soundness
pub mod Verdicts
mod Tests
use robotics_runtime.Base.{
  ℕ, zero, suc, ◌+◌, ◌-◌, ◌*◌, ◌/◌, Bool, true, false, not, ◌&&◌, ◌||◌, Option, none, some, List,
  [], ◌∷◌, leb, ltb, ◌==◌, if◌then◌else◌, Result, ok, err, ◌>>=◌, ◌>>◌, raise_if, get_elem?,
}
use robotics_runtime.Base.Float
use robotics_runtime.Base.Float.{Float, Finite}
use robotics_runtime.Harness.Samples.{
  MetricError, input_error, index_error, HistogramSample, nan_estimate, inconsistent_estimate,
  infinite_threshold, extremum_contradiction, rank_not_covered, no_events, negative_event, no_sum,
}

pub data Comparison : Type 0 where
  passed failed skipped : Comparison

pub data Operator : Type 0 where
  lt lte gt gte eq : Operator

pub data Aggregation : Type 0 where
  count mean min max p50 p95 p99 : Aggregation

pub record Estimate (F : Type 0) : Type 0 where
  pub lower : Float F
  pub upper : Float F
  pub lower_exclusive : Bool

-- `occupied`, from an index on
unfoldable pub occupied_from : ℕ → List ℕ → List ℕ
occupied_from index [] = []
occupied_from index (c ∷ cs) =
    let rest = occupied_from (suc index) cs in if c == 0 then rest else index ∷ rest

-- `occupied[-1]`
unfoldable pub last : List ℕ → Option ℕ
last [] = none
last (x ∷ []) = some x
last (x ∷ y ∷ rest) = last (y ∷ rest)

-- the loop of `_rank_bucket`
unfoldable pub rank_from : ℕ → ℕ → List ℕ → ℕ → Result MetricError ℕ
rank_from index cumulative [] rank = err (input_error rank_not_covered)
rank_from index cumulative (c ∷ cs) rank =
    let rest = rank_from (suc index) (cumulative + c) cs rank in
    if leb rank (cumulative + c) then ok index else rest

-- `bool(index)`
abbrev pub is_inner : ℕ → Bool
is_inner zero = false
is_inner (suc i) = true

-- The rank that an aggregation asks for: `ceil(p * count)` in integer arithmetic.
unfoldable pub rank_of : Aggregation → ℕ → ℕ
rank_of min n = 1
rank_of max n = n
rank_of p50 n = (n * 1 + 2 - 1) / 2
rank_of p95 n = (n * 19 + 20 - 1) / 20
rank_of p99 n = (n * 99 + 100 - 1) / 100
rank_of _ n = 0

module _ {F : Type 0} ⦃finites : Finite F⦄ where
  -- `Estimate.__post_init__`
  unfoldable pub estimate : Float F → Float F → Bool → Result MetricError (Estimate F)
  estimate lower upper lower_exclusive = do
    raise_if (Float.is_nan lower || Float.is_nan upper) (input_error nan_estimate)
    raise_if (Float.lt upper lower || (lower_exclusive && Float.eq lower upper))
        (input_error inconsistent_estimate)
    ok (record { lower = lower; upper = upper; lower_exclusive = lower_exclusive })

  unfoldable pub strictly_above : Estimate F → Float F → Bool
  strictly_above e threshold =
      Float.lt threshold e.lower || (e.lower_exclusive && Float.eq e.lower threshold)

  -- `outcomes[operator]`: whether the comparison passed, and whether it failed
  unfoldable pub outcomes : Estimate F → Operator → Float F → Bool × Bool
  outcomes e lt threshold = (Float.lt e.upper threshold, Float.le threshold e.lower)
  outcomes e lte threshold = (Float.le e.upper threshold, strictly_above e threshold)
  outcomes e gt threshold = (strictly_above e threshold, Float.le e.upper threshold)
  outcomes e gte threshold = (Float.le threshold e.lower, Float.lt e.upper threshold)
  outcomes e eq threshold = (
    Float.eq e.lower e.upper && Float.eq e.upper threshold,
    strictly_above e threshold || Float.lt e.upper threshold,
  )

  unfoldable pub compare : Estimate F → Operator → Float F → Result MetricError Comparison
  compare e operator threshold = do
    raise_if (not (Float.is_finite threshold)) (input_error infinite_threshold)
    let (did_pass, did_fail) = outcomes e operator threshold
    ok (if did_pass then passed else if did_fail then failed else skipped)

  -- `bisect_left(bounds, value)`
  unfoldable pub bisect_left : List (Float F) → Float F → ℕ
  bisect_left [] value = 0
  bisect_left (b ∷ bs) value = if Float.lt b value then suc (bisect_left bs value) else 0

  -- `histogram.explicit_bounds[index - 1] if index else -math.inf`
  unfoldable pub bucket_lower : List (Float F) → ℕ → Result MetricError (Float F)
  bucket_lower bounds zero = ok Float.neg_inf
  bucket_lower bounds (suc i) = elim (get_elem? bounds i) [ none ↦ err index_error | some b ↦ ok b ]

  -- `histogram.explicit_bounds[index] if index < len(histogram.explicit_bounds) else math.inf`
  unfoldable pub bucket_upper : List (Float F) → ℕ → Float F
  bucket_upper bounds index = elim (get_elem? bounds index) [ none ↦ Float.pos_inf | some b ↦ b ]

  abbrev pub raised : Option (Float F) → Float F → Float F
  raised none lower = lower
  raised (some m) lower = Float.max_of m lower

  abbrev pub lowered : Option (Float F) → Float F → Float F
  lowered none upper = upper
  lowered (some m) upper = Float.min_of m upper

  -- `_bucket_estimate`
  unfoldable pub bucket_estimate : HistogramSample F → ℕ → Bool → Result MetricError (Estimate F)
  bucket_estimate h index nonnegative = do
    below ← bucket_lower h.explicit_bounds index
    let floor = if nonnegative then Float.max_of Float.zero_float below else below
    let lower = raised h.min floor
    let upper = lowered h.max (bucket_upper h.explicit_bounds index)
    estimate lower upper (is_inner index && Float.eq lower below)

  -- one round of the loop of `_validate_extrema`; a missing bucket is the `IndexError` of `occupied`
  unfoldable pub validate_extremum :
      HistogramSample F → Option (Float F) → Option ℕ → Result MetricError (Unit {0})
  validate_extremum h none bucket = ok tt
  validate_extremum h (some value) none = err index_error
  validate_extremum h (some value) (some bucket) =
      raise_if (not (bisect_left h.explicit_bounds value == bucket))
        (input_error extremum_contradiction)

  -- `_validate_extrema`
  unfoldable pub validate_extrema : HistogramSample F → Result MetricError (Unit {0})
  validate_extrema h =
      let occupied = occupied_from 0 h.bucket_counts in
      do validate_extremum h h.min (get_elem? occupied 0); validate_extremum h h.max (last occupied)

  -- `_rank_bucket`
  abbrev pub rank_bucket : HistogramSample F → ℕ → Result MetricError ℕ
  rank_bucket h rank = rank_from 0 0 h.bucket_counts rank

  -- `value is not None and value < 0`
  abbrev pub given_negative : Option (Float F) → Bool
  given_negative none = false
  given_negative (some x) = Float.lt x Float.zero_float

  -- `any(upper < 0 and count > 0 for upper, count in zip(bounds, counts, strict=False))`
  unfoldable pub negative_bucket : List (Float F) → List ℕ → Bool
  negative_bucket [] counts = false
  negative_bucket (b ∷ bs) [] = false
  negative_bucket (b ∷ bs) (c ∷ cs) =
      (Float.lt b Float.zero_float && ltb 0 c) || negative_bucket bs cs

  -- `_has_negative_event`
  unfoldable pub has_negative_event : HistogramSample F → Bool
  has_negative_event h =
      given_negative h.min
      || (given_negative h.sum || negative_bucket h.explicit_bounds h.bucket_counts)

  unfoldable pub by_rank : HistogramSample F → Aggregation → Bool → Result MetricError (Estimate F)
  by_rank h aggregation nonnegative = do
    index ← rank_bucket h (rank_of aggregation h.count)
    bucket_estimate h index nonnegative

  -- a recorded extremum is exact
  abbrev pub exact_or :
      Option (Float F) → Result MetricError (Estimate F) → Result MetricError (Estimate F)
  exact_or none otherwise = otherwise
  exact_or (some m) otherwise = estimate m m false

  -- `_rank_estimate`
  unfoldable pub rank_estimate :
      HistogramSample F → Aggregation → Bool → Result MetricError (Estimate F)
  rank_estimate h min nonnegative = exact_or h.min (by_rank h min nonnegative)
  rank_estimate h max nonnegative = exact_or h.max (by_rank h max nonnegative)
  rank_estimate h aggregation nonnegative = by_rank h aggregation nonnegative

  abbrev pub divide : Float F → ℕ → Float F
  divide (Float.finite x) n = Float.finite (finites.quotient x n)
  divide x n = x

  unfoldable pub mean_estimate : HistogramSample F → Result MetricError (Estimate F)
  mean_estimate h = elim h.sum [
    | none ↦ err (input_error no_sum)
    | some s ↦ estimate (divide s h.count) (divide s h.count) false
  ]

  -- the statements of `estimate_statistic` after the exact count was returned
  unfoldable pub estimate_events :
      HistogramSample F → Aggregation → Bool → Result MetricError (Estimate F)
  estimate_events h aggregation nonnegative = do
    raise_if (h.count == 0) (input_error no_events)
    raise_if (nonnegative && has_negative_event h) (input_error negative_event)
    elim aggregation [ mean ↦ mean_estimate h | other ↦ rank_estimate h other nonnegative ]

  unfoldable pub estimate_statistic :
      HistogramSample F → Aggregation → Bool → Result MetricError (Estimate F)
  estimate_statistic h aggregation nonnegative = do
    if h.count == 0 then ok tt else validate_extrema h
    elim aggregation [
      | count ↦ (let n = Float.finite (finites.of_count h.count) in estimate n n false)
      | other ↦ estimate_events h other nonnegative
    ]

  -- `_compare` of metrics.py: the comparison of one observed number
  unfoldable pub compare_values : Operator → Float F → Float F → Bool
  compare_values lt observed threshold = Float.lt observed threshold
  compare_values lte observed threshold = Float.le observed threshold
  compare_values gt observed threshold = Float.lt threshold observed
  compare_values gte observed threshold = Float.le threshold observed
  compare_values eq observed threshold = Float.eq observed threshold
