-- ===== src/Harness/Durations/Measured.antt =====
-- packages/harness/src/robotics_acceptance_harness/metrics.py: what a duration that is reported says
-- of the values of the gauge in the window.
use robotics_runtime.Base.{
  ℕ, ◌-◌, ◌≤◌, ◌≡◌, refl, subst, Bool, true, false, not, ◌||◌, List, [], ◌∷◌, map, ok_injective,
  bind-ok, arith, ltb, ◌==◌, if_ind, ok, raise_if, length, any, All-imp, All,
}
use robotics_runtime.Base.Float.{Finite}
use robotics_runtime.Harness.Samples.{
  aggregation_error, gauges_required, one_series_required, uncovered_sample_gap, MetricSample,
}
use robotics_runtime.Harness.Series.{sorted, insert_sorted, All-sorted}
use robotics_runtime.Harness.Points.{MetricPoint, scalar, histogram, point_time, is_sum}
use robotics_runtime.Harness.Durations.{
  RequirementKind, minimum_contiguous, maximum_contiguous_violation, DurationAssertion, Sweep,
  start_sweep, sweep, has_gap, gauges_of, gauge_before, same_as, judged, seconds_of, required,
  evaluate_gauges, duration_evaluation,
}
use robotics_runtime.Harness.Durations.Runs.{IsLongest}
use robotics_runtime.Harness.Durations.Longest.{held, IsOrdered, longest_ns, sweep-IsLongest}

-- the value whose stretches a requirement measures, and its test of the longest one
abbrev pub measured_value : RequirementKind → Bool
measured_value minimum_contiguous = true
measured_value maximum_contiguous_violation = false

module _ {F : Type 0} ⦃finites : Finite F⦄ where
  abbrev pub meets : RequirementKind → F → F → Bool
  meets minimum_contiguous duration_sec observed_sec = finites.le duration_sec observed_sec
  meets maximum_contiguous_violation duration_sec observed_sec =
      finites.le observed_sec duration_sec

  abbrev IsSortedFrom : ℕ → List (MetricSample F) → Type 0
  IsSortedFrom t [] = Unit
  IsSortedFrom t (s ∷ ss) = (t ≤ s.observed_at_ns) × IsSortedFrom s.observed_at_ns ss

  insert_sorted-IsSortedFrom :
      (t : ℕ) (s : MetricSample F) (ss : List (MetricSample F))
      → t ≤ s.observed_at_ns
      → IsSortedFrom t ss
      → IsSortedFrom t (insert_sorted gauge_before s ss)
  unfolding insert_sorted
  insert_sorted-IsSortedFrom t s [] l o = (l, tt)
  insert_sorted-IsSortedFrom t s (u ∷ us) l (h, o) =
      if_ind (IsSortedFrom t) (gauge_before u s)
        (λ e. (h, insert_sorted-IsSortedFrom u.observed_at_ns s us (ground (arith, e)) o))
        (λ e. (l, (ground (arith, e), o)))

  sorted-IsSortedFrom : (ss : List (MetricSample F)) → IsSortedFrom 0 (sorted gauge_before ss)
  unfolding sorted
  sorted-IsSortedFrom [] = tt
  sorted-IsSortedFrom (s ∷ ss) =
      insert_sorted-IsSortedFrom 0 s (sorted gauge_before ss) (omega arith) (sorted-IsSortedFrom ss)

  IsOrdered-times :
      (a : DurationAssertion F) (end t : ℕ) (ss : List (MetricSample F))
      → t ≤ end
      → IsSortedFrom t ss
      → All (λ s. s.observed_at_ns ≤ end) ss
      → IsOrdered end t (map (judged a) ss)
  IsOrdered-times a end t [] l o h = l
  IsOrdered-times a end t (s ∷ ss) l (q, o) (b, h) =
      (q, IsOrdered-times a end s.observed_at_ns ss b o h)

  gauges_within :
      (start_ns end_ns : ℕ) (samples : List (MetricPoint F))
      → All (λ p. (start_ns ≤ point_time p) × (point_time p ≤ end_ns)) samples
      → All (λ s. (start_ns ≤ s.observed_at_ns) × (s.observed_at_ns ≤ end_ns)) (gauges_of samples)
  gauges_within start_ns end_ns [] h = tt
  gauges_within start_ns end_ns (scalar s ∷ rest) (p, h) =
      if_ind (All (λ s. (start_ns ≤ s.observed_at_ns) × (s.observed_at_ns ≤ end_ns)))
        (is_sum s.instrument_kind) (λ _. gauges_within start_ns end_ns rest h)
        (λ _. (p, gauges_within start_ns end_ns rest h))
  gauges_within start_ns end_ns (histogram s ∷ rest) (p, h) = gauges_within start_ns end_ns rest h

  -- The reported seconds are those of the longest stretch, from the first gauge to the end of the
  -- window, on which the last value satisfies the predicate, or on which it violates it.
  pub record IsMeasured (a : DurationAssertion F) (end_ns : ℕ) (samples : List (MetricPoint F))
      (observed_sec : F) (met : Bool) : Type 0 where
    first : MetricSample F
    rest : List (MetricSample F)
    in_order : sorted gauge_before (gauges_of samples) ≡ first ∷ rest
    stretch_ns : ℕ
    observed : observed_sec ≡ seconds_of stretch_ns
    decided : met ≡ meets a.kind a.duration_sec observed_sec
    longest :
        IsLongest
          (held (judged a first).1 (map (judged a) rest))
          (measured_value a.kind)
          first.observed_at_ns
          end_ns
          stretch_ns

  required_parts :
      (kind : RequirementKind) (duration_sec : F) (st : Sweep)
      → ((required kind duration_sec st).0 ≡ seconds_of (longest_ns (measured_value kind) st))
        × ((required kind duration_sec st).1
            ≡ meets kind duration_sec (required kind duration_sec st).0)
  unfolding required
  required_parts minimum_contiguous duration_sec st = (refl, refl)
  required_parts maximum_contiguous_violation duration_sec st = (refl, refl)

  module _ (nanoseconds : F → ℕ) (a : DurationAssertion F) (start_ns end_ns : ℕ)
      (samples : List (MetricPoint F)) where
    gauges-IsMeasured :
        (ss : List (MetricSample F)) (found : F × Bool)
        → sorted gauge_before (gauges_of samples) ≡ ss
        → IsSortedFrom 0 ss
        → All (λ s. (start_ns ≤ s.observed_at_ns) × (s.observed_at_ns ≤ end_ns)) ss
        → evaluate_gauges nanoseconds a start_ns end_ns ss ≡ ok found
        → IsMeasured a end_ns samples found.0 found.1
    unfolding evaluate_gauges
    gauges-IsMeasured [] found e o within h = absurd (cc)
    gauges-IsMeasured (first ∷ rest) found e (_, o) ((l, below), within) h =
        let (_, _, k) =
          bind-ok
            (raise_if (any (λ s. not (same_as first s)) rest)
              (aggregation_error one_series_required))
            _ found h in
        let (_, _, j) =
          bind-ok
            (raise_if
              (ltb (nanoseconds a.max_sample_gap_sec) (first.observed_at_ns - start_ns)
                || has_gap (nanoseconds a.max_sample_gap_sec) end_ns first.observed_at_ns
                    (map (λ s. s.observed_at_ns) rest))
              (aggregation_error uncovered_sample_gap))
            _ found k in
        let swept = sweep start_ns end_ns (map (judged a) (first ∷ rest)) start_sweep in
        let (seconds, decision) = required_parts a.kind a.duration_sec swept in
        subst (λ r. IsMeasured a end_ns samples r.0 r.1) (ok_injective j)
          (record {
            first = first;
            rest = rest;
            in_order = e;
            stretch_ns = longest_ns (measured_value a.kind) swept;
            observed = seconds;
            decided = decision;
            longest =
                sweep-IsLongest start_ns end_ns first.observed_at_ns (judged a first).1
                  (map (judged a) rest) (measured_value a.kind) l
                  (IsOrdered-times a end_ns first.observed_at_ns rest below o (
                    All-imp (λ s. (start_ns ≤ s.observed_at_ns) × (s.observed_at_ns ≤ end_ns))
                      (λ s. s.observed_at_ns ≤ end_ns) rest (λ s b. b.1) within));
          })

    -- If the samples lie in the window and a duration is evaluated, the reported seconds are
    -- those of the longest stretch of time, from the first gauge to the end of the window, on
    -- which the last value satisfies the predicate (for a minimum) or violates it (for a
    -- maximum): a stretch of that length is there, and no longer one; and the verdict compares
    -- these seconds with the requirement.
    pub duration_evaluation-IsMeasured :
        (observed_sec : F) (met : Bool)
        → All (λ p. (start_ns ≤ point_time p) × (point_time p ≤ end_ns)) samples
        → duration_evaluation nanoseconds a start_ns end_ns samples ≡ ok (observed_sec, met)
        → IsMeasured a end_ns samples observed_sec met
    unfolding duration_evaluation
    duration_evaluation-IsMeasured observed_sec met within h =
        let (_, _, k) =
          bind-ok
            (raise_if (not (length (gauges_of samples) == length samples))
              (aggregation_error gauges_required))
            _ (observed_sec, met) h in
        gauges-IsMeasured (sorted gauge_before (gauges_of samples)) (observed_sec, met) refl
          (sorted-IsSortedFrom (gauges_of samples))
          (All-sorted (λ s. (start_ns ≤ s.observed_at_ns) × (s.observed_at_ns ≤ end_ns))
            gauge_before (gauges_of samples) (gauges_within start_ns end_ns samples within))
          k
