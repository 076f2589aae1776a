-- ===== src/Harness/Assertions/Answers.antt =====
-- packages/harness/src/robotics_acceptance_harness/metrics.py: what a verdict on an assertion says of
-- the samples of its window.
use robotics_runtime.Base.{
  ℕ, ◌≤◌, ◌≡◌, refl, sym, ◌∙◌, subst, ◌≢◌, ◌⊎◌, inl, inr, Bool, true, false, ◌&&◌, some, List, [],
  ◌∷◌, ok_injective, bind-ok, arith, leb, if◌then◌else◌, ok, ◌>>=◌, any, keep_ind, All,
}
use robotics_runtime.Base.Float.{Float, Finite}
use robotics_runtime.Harness.Samples.{HistogramSample}
use robotics_runtime.Harness.HistogramEstimates.{
  Aggregation, Comparison, Operator, Estimate, compare, compare_values,
}
use robotics_runtime.Harness.HistogramEstimates.Events.{Contains}
use robotics_runtime.Harness.HistogramEstimates.Verdicts.{did_pass, compare-right}
use robotics_runtime.Harness.Windows.{histogram_window_aggregate, histogram_statistic}
use robotics_runtime.Harness.Durations.{DurationAssertion, duration_evaluation}
use robotics_runtime.Harness.Durations.Measured.{IsMeasured, duration_evaluation-IsMeasured}
use robotics_runtime.Harness.Points.{
  MetricPoint, point_time, is_scalar, histograms, matching_window, aggregate_metric_points,
}
use robotics_runtime.Harness.Assertions.{
  EvaluationStatus, passed, failed, AssertionEvaluation, Question, threshold_question,
  duration_question, MetricAssertion, verdict_of, status_of, evaluation, histogram_assertion,
  answered,
}

-- a status that says whether the assertion holds, and what it says
abbrev pub is_verdict : EvaluationStatus → Bool
is_verdict passed = true
is_verdict failed = true
is_verdict _ = false

abbrev pub says_passed : EvaluationStatus → Bool
says_passed passed = true
says_passed _ = false

says_passed-verdict_of : (b : Bool) → says_passed (verdict_of b) ≡ b
says_passed-verdict_of true = refl
says_passed-verdict_of false = refl

says_passed-status_of : (c : Comparison) → says_passed (status_of c) ≡ did_pass c
says_passed-status_of Comparison.passed = refl
says_passed-status_of Comparison.failed = refl
says_passed-status_of Comparison.skipped = refl

decided-status_of : (c : Comparison) → is_verdict (status_of c) ≡ true → c ≢ Comparison.skipped
decided-status_of Comparison.passed v e = cc
decided-status_of Comparison.failed v e = cc
decided-status_of Comparison.skipped v e = cc

module _ {F : Type 0} ⦃finites : Finite F⦄ where
  -- A duration is that of the longest stretch in the window, and the status says whether it meets
  -- the requirement.
  abbrev pub AnswersDuration :
      DurationAssertion F → ℕ → ℕ → List (MetricPoint F) → AssertionEvaluation F → Type 0
  AnswersDuration d start_ns end_ns points e =
      (observed : F) × (met : Bool) × IsMeasured d end_ns (matching_window start_ns end_ns points)
        observed met
      × (e.observed_value ≡ some (Float.finite observed))
      × (says_passed e.status ≡ met)

  -- Of scalars, the status says how their aggregate compares with the threshold.
  abbrev pub AnswersScalars :
      Aggregation
      → Operator
      → Float F
      → ℕ
      → ℕ
      → List (MetricPoint F)
      → AssertionEvaluation F
      → Type 0
  AnswersScalars aggregation operator threshold start_ns end_ns points e =
      (v : Float F) × (aggregate_metric_points aggregation start_ns end_ns points ≡ ok v)
      × (e.observed_value ≡ some v)
      × (says_passed e.status ≡ compare_values operator v threshold)

  -- Of histograms, the status says how every number that their statistic may be compares with it.
  abbrev pub AnswersHistograms :
      Aggregation
      → Operator
      → Float F
      → ℕ
      → ℕ
      → List (MetricPoint F)
      → AssertionEvaluation F
      → Type 0
  AnswersHistograms aggregation operator threshold start_ns end_ns points e =
      (m : HistogramSample F) × (t : Estimate F) × (histogram_window_aggregate start_ns end_ns
          (histograms points)
        ≡ ok m)
      × (histogram_statistic m aggregation false ≡ ok t)
      × ((x : F)
          → Contains t x
          → compare_values operator (Float.finite x) threshold ≡ says_passed e.status)

  abbrev pub Answers : Question F → ℕ → ℕ → List (MetricPoint F) → AssertionEvaluation F → Type 0
  Answers (duration_question d) start_ns end_ns points e =
      AnswersDuration d start_ns end_ns points e
  Answers (threshold_question aggregation operator threshold) start_ns end_ns points e =
      ((any is_scalar points ≡ true)
        × AnswersScalars aggregation operator threshold start_ns end_ns points e)
      ⊎ ((any is_scalar points ≡ false)
          × AnswersHistograms aggregation operator threshold start_ns end_ns points e)

  matching_window-inside :
      (start_ns end_ns : ℕ) (points : List (MetricPoint F))
      → All
          (λ p. (start_ns ≤ point_time p) × (point_time p ≤ end_ns))
          (matching_window start_ns end_ns points)
  matching_window-inside start_ns end_ns [] = tt
  matching_window-inside start_ns end_ns (p ∷ ps) =
      let rest = matching_window-inside start_ns end_ns ps in
      keep_ind (All (λ p. (start_ns ≤ point_time p) × (point_time p ≤ end_ns)))
        (λ p. leb start_ns (point_time p) && leb (point_time p) end_ns) p ps
        (λ e. ((ground (arith, e), ground (arith, e)), rest)) (λ _. rest)

  histogram_assertion-Answers :
      (a : MetricAssertion F) (aggregation : Aggregation) (operator : Operator)
      (threshold : Float F) (start_ns end_ns : ℕ) (points : List (MetricPoint F))
      (e : AssertionEvaluation F)
      → histogram_assertion a aggregation operator threshold start_ns end_ns (histograms points)
        ≡ ok e
      → (e.assertion_id ≡ a.assertion_id)
        × (is_verdict e.status ≡ true
            → AnswersHistograms aggregation operator threshold start_ns end_ns points e)
  unfolding histogram_assertion
  histogram_assertion-Answers a aggregation operator threshold start_ns end_ns points e h =
      let (m, merged, h1) =
        bind-ok (histogram_window_aggregate start_ns end_ns (histograms points)) _ e h in
      let (t, estimated, h2) = bind-ok (histogram_statistic m aggregation false) _ e h1 in
      let (c, compared, k) = bind-ok (compare t operator threshold) _ e h2 in
      subst
        (λ e.
          (e.assertion_id ≡ a.assertion_id)
          × (is_verdict e.status ≡ true
              → AnswersHistograms aggregation operator threshold start_ns end_ns points e))
        (ok_injective k)
        (
          refl,
          λ v. (
            m,
            t,
            merged,
            estimated,
            λ x inside.
                compare-right t operator threshold x c inside compared (decided-status_of c v)
                ∙ sym (says_passed-status_of c),
          ),
        )

  -- An answer has the id of the assertion, and where it is a verdict, it is right.
  pub answered-Answers :
      (nanoseconds : F → ℕ) (a : MetricAssertion F) (q : Question F) (start_ns end_ns : ℕ)
      (points : List (MetricPoint F)) (e : AssertionEvaluation F)
      → answered nanoseconds a q start_ns end_ns points ≡ ok e
      → (e.assertion_id ≡ a.assertion_id)
        × (is_verdict e.status ≡ true → Answers q start_ns end_ns points e)
  unfolding answered
  answered-Answers nanoseconds a (duration_question d) start_ns end_ns points e h =
      let inside = matching_window start_ns end_ns points in
      let ((observed, met), found, k) =
        bind-ok (duration_evaluation nanoseconds d start_ns end_ns inside) _ e h in
      subst
        (λ e.
          (e.assertion_id ≡ a.assertion_id)
          × (is_verdict e.status ≡ true → AnswersDuration d start_ns end_ns points e))
        (ok_injective k)
        (
          refl,
          λ _. (
            observed,
            met,
            duration_evaluation-IsMeasured nanoseconds d start_ns end_ns inside observed met
                (matching_window-inside start_ns end_ns points) found,
            refl,
            says_passed-verdict_of met,
          ),
        )
  answered-Answers nanoseconds a (threshold_question aggregation operator threshold) start_ns end_ns
        points e h =
      by_points (any is_scalar points) refl h
    where
      by_points :
          (b : Bool)
          → any is_scalar points ≡ b
          → (if b
              then (aggregate_metric_points aggregation start_ns end_ns points >>= λ observed. ok (
                  evaluation a
                    (verdict_of (compare_values operator observed threshold))
                    (some observed)
                    a.unit))
              else histogram_assertion a aggregation operator threshold start_ns end_ns
                  (histograms points))
            ≡ ok e
          → (e.assertion_id ≡ a.assertion_id)
            × (is_verdict e.status ≡ true
                → Answers
                    (threshold_question aggregation operator threshold)
                    start_ns
                    end_ns
                    points
                    e)
      by_points true s h =
          let (v, found, k) =
            bind-ok (aggregate_metric_points aggregation start_ns end_ns points) _ e h in
          subst
            (λ e.
              (e.assertion_id ≡ a.assertion_id)
              × (is_verdict e.status ≡ true
                  → Answers (threshold_question aggregation operator threshold) start_ns end_ns
                      points e))
            (ok_injective k)
            (
              refl,
              λ _. inl (
                s,
                (v, found, refl, says_passed-verdict_of (compare_values operator v threshold)),
              ),
            )
      by_points false s h =
          let (id, answers) =
            histogram_assertion-Answers a aggregation operator threshold start_ns end_ns points e
              h in
          (id, λ v. inr (s, answers v))
