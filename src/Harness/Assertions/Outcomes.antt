-- ===== src/Harness/Assertions/Outcomes.antt =====
-- packages/harness/src/robotics_acceptance_harness/metrics.py: each assertion has one evaluation, and
-- what decides it.
use robotics_runtime.Base.{
  ℕ, ◌+◌, ◌-◌, ◌≤◌, ◌<◌, ◌≡◌, refl, String, sym, ap, subst, ◌⊎◌, inl, inr, Bool, true, false, not,
  ◌||◌, none, some, List, [], ◌∷◌, ok_injective, bind-ok, raise_if-ok, arith, str_eq, eq_iff, ltb,
  ◌==◌, if◌then◌else◌, le-of-not-ltb, Result, ok, err, raise_if, length, any, All,
}
use Prim.Native.Nat
use native.Mathlib.Decide.{dec_le}
use robotics_runtime.Base.Float.{Finite}
use robotics_runtime.Harness.Samples.{
  MetricError, input_error, aggregation_error, insufficient_data, index_error, zip_error,
  stop_iteration, empty_window,
}
use robotics_runtime.Harness.Points.{MetricPoint, point_unit, matching_window}
use robotics_runtime.Harness.Assertions.{
  error, AssertionEvaluation, MetricAssertion, evaluation, answered, reported_error,
  metric_samples_of, evaluate_window, evaluate_matching, evaluate_each, evaluate_metric_assertions,
}
use robotics_runtime.Harness.Assertions.Answers.{is_verdict, Answers, answered-Answers}

-- The window of an assertion reaches back from the end of the given one for the length that the
-- assertion says, but not behind its start.
pub record ReachesBack (window_start_ns window_end_ns window_ns start_ns : ℕ) : Type 0 where
  after_start : window_start_ns ≤ start_ns
  in_reach : window_end_ns ≤ start_ns + window_ns
  exact : (start_ns ≡ window_start_ns) ⊎ (start_ns + window_ns ≡ window_end_ns)

start_of-ReachesBack :
    (window_start_ns window_end_ns window_ns : ℕ)
    → window_start_ns ≤ window_end_ns
    → ReachesBack window_start_ns window_end_ns window_ns
        (Nat.max (window_end_ns - window_ns) window_start_ns)
start_of-ReachesBack window_start_ns window_end_ns window_ns proper = record {
  after_start = omega arith;
  in_reach = omega arith;
  exact = elim (dec_le (window_end_ns - window_ns) window_start_ns) [
    | yes short ↦ inl (omega (arith, short))
    | no long ↦ inr (omega (arith, long))
  ];
}

module _ {F : Type 0} ⦃finites : Finite F⦄ (nanoseconds : F → ℕ)
    (window_start_ns window_end_ns : ℕ) where
  -- A verdict: the window has samples of the assertion, all in its unit, and the verdict on them is
  -- right.
  pub record IsRight (a : MetricAssertion F) (points : List (MetricPoint F))
      (e : AssertionEvaluation F) : Type 0 where
    start_ns : ℕ
    starts : ReachesBack window_start_ns window_end_ns (nanoseconds a.window_sec) start_ns
    sampled : 0 < length (matching_window start_ns window_end_ns points)
    units : All (λ p. point_unit p ≡ a.unit) (matching_window start_ns window_end_ns points)
    answers : Answers a.question start_ns window_end_ns points e

  -- The evaluation is that of the assertion, and a verdict is right.
  pub record IsOutcome (a : MetricAssertion F) (points : List (MetricPoint F))
      (e : AssertionEvaluation F) : Type 0 where
    same_id : e.assertion_id ≡ a.assertion_id
    decided : is_verdict e.status ≡ true → IsRight a points e

  -- each assertion with an evaluation, over the samples that match it
  abbrev pub Paired :
      List (MetricPoint F) → List (MetricAssertion F) → List (AssertionEvaluation F) → Type 0
  Paired samples [] [] = Unit
  Paired samples (a ∷ rest) (e ∷ es) =
      IsOutcome a (metric_samples_of a samples) e × Paired samples rest es
  Paired samples _ _ = Unit → ⊥

module _ {F : Type 0} ⦃finites : Finite F⦄ where
  -- What the `try` statement gives: an answer, or an error that is reported.
  reported :
      (a : MetricAssertion F) (r : Result MetricError (AssertionEvaluation F))
      (e : AssertionEvaluation F)
      → reported_error a r ≡ ok e
      → (r ≡ ok e) ⊎ ((e.assertion_id ≡ a.assertion_id) × (is_verdict e.status ≡ false))
  reported a (ok x) e h = inl h
  reported a (err (insufficient_data c)) e h = inr (
    sym (ap (λ x. x.assertion_id) (ok_injective h)),
    sym (ap (λ x. is_verdict x.status) (ok_injective h)),
  )
  reported a (err (aggregation_error c)) e h = inr (
    sym (ap (λ x. x.assertion_id) (ok_injective h)),
    sym (ap (λ x. is_verdict x.status) (ok_injective h)),
  )
  reported a (err (input_error c)) e h = absurd (cc)
  reported a (err index_error) e h = absurd (cc)
  reported a (err zip_error) e h = absurd (cc)
  reported a (err stop_iteration) e h = absurd (cc)

  -- No unit differs.
  same_units :
      (unit : String) (points : List (MetricPoint F))
      → any (λ p. not (str_eq (point_unit p) unit)) points ≡ false
      → All (λ p. point_unit p ≡ unit) points
  same_units unit [] h = tt
  same_units unit (p ∷ ps) h =
      ((eq_iff (point_unit p) unit).0 (ground (arith, h)), same_units unit ps (ground (arith, h)))

module _ {F : Type 0} ⦃finites : Finite F⦄ (nanoseconds : F → ℕ)
    (window_start_ns window_end_ns : ℕ) where
  -- An error over some points is an outcome.
  error-IsOutcome :
      (a : MetricAssertion F) (points : List (MetricPoint F)) (e : AssertionEvaluation F)
      → evaluation a error none a.unit ≡ e
      → IsOutcome nanoseconds window_start_ns window_end_ns a points e
  error-IsOutcome a points e h =
      subst (IsOutcome nanoseconds window_start_ns window_end_ns a points) h
        (record { same_id = refl; decided = λ v. absurd (cc) })

  window-IsOutcome :
      (a : MetricAssertion F) (points : List (MetricPoint F)) (start_ns : ℕ)
      (e : AssertionEvaluation F)
      → ReachesBack window_start_ns window_end_ns (nanoseconds a.window_sec) start_ns
      → evaluate_window nanoseconds a start_ns window_end_ns points ≡ ok e
      → IsOutcome nanoseconds window_start_ns window_end_ns a points e
  unfolding evaluate_window
  window-IsOutcome a points start_ns e starts h =
      by_test (length inside == 0) (any (λ p. not (str_eq (point_unit p) a.unit)) inside) refl refl
        h
    where
      inside : List (MetricPoint F)
      inside = matching_window start_ns window_end_ns points

      result : Result MetricError (AssertionEvaluation F)
      result = answered nanoseconds a a.question start_ns window_end_ns points

      outcome :
          0 < length inside
          → All (λ p. point_unit p ≡ a.unit) inside
          → (result ≡ ok e) ⊎ ((e.assertion_id ≡ a.assertion_id) × (is_verdict e.status ≡ false))
          → IsOutcome nanoseconds window_start_ns window_end_ns a points e
      outcome sampled units (inl r) =
          let (id, answers) =
            answered-Answers nanoseconds a a.question start_ns window_end_ns points e r in
          record {
            same_id = id;
            decided = λ v. record {
              start_ns = start_ns;
              starts = starts;
              sampled = sampled;
              units = units;
              answers = answers v;
            };
          }
      outcome sampled units (inr (i, v)) = record { same_id = i; decided = λ w. absurd (cc) }

      by_test :
          (empty wrong : Bool)
          → (length inside == 0) ≡ empty
          → any (λ p. not (str_eq (point_unit p) a.unit)) inside ≡ wrong
          → (if empty || wrong
              then ok (evaluation a error none a.unit)
              else reported_error a result)
            ≡ ok e
          → IsOutcome nanoseconds window_start_ns window_end_ns a points e
      by_test true wrong z w h = error-IsOutcome a points e (ok_injective h)
      by_test false true z w h = error-IsOutcome a points e (ok_injective h)
      by_test false false z w h =
          outcome (ground (arith, z)) (same_units a.unit inside w) (reported a result e h)

  matching-IsOutcome :
      (a : MetricAssertion F) (points : List (MetricPoint F)) (e : AssertionEvaluation F)
      → window_start_ns ≤ window_end_ns
      → evaluate_matching nanoseconds (some (window_start_ns, window_end_ns)) a points ≡ ok e
      → IsOutcome nanoseconds window_start_ns window_end_ns a points e
  unfolding evaluate_matching
  matching-IsOutcome a [] e proper h = error-IsOutcome a [] e (ok_injective h)
  matching-IsOutcome a (p ∷ ps) e proper h =
      window-IsOutcome a (p ∷ ps) _ e
        (start_of-ReachesBack window_start_ns window_end_ns (nanoseconds a.window_sec) proper) h

  evaluate_each-Paired :
      (assertions : List (MetricAssertion F)) (samples : List (MetricPoint F))
      (es : List (AssertionEvaluation F))
      → window_start_ns ≤ window_end_ns
      → evaluate_each nanoseconds (some (window_start_ns, window_end_ns)) assertions samples ≡ ok es
      → Paired nanoseconds window_start_ns window_end_ns samples assertions es
  unfolding evaluate_each
  evaluate_each-Paired [] samples es proper h =
      subst (Paired nanoseconds window_start_ns window_end_ns samples []) (ok_injective h) tt
  evaluate_each-Paired (a ∷ rest) samples es proper h =
      let window = some (window_start_ns, window_end_ns) in
      let (e, first, k) =
        bind-ok (evaluate_matching nanoseconds window a (metric_samples_of a samples)) _ es h in
      let (others, tail, j) = bind-ok (evaluate_each nanoseconds window rest samples) _ es k in
      subst (Paired nanoseconds window_start_ns window_end_ns samples (a ∷ rest)) (ok_injective j) (
        matching-IsOutcome a (metric_samples_of a samples) e proper first,
        evaluate_each-Paired rest samples others proper tail,
      )

module _ {F : Type 0} ⦃finites : Finite F⦄ (nanoseconds : F → ℕ) where
  -- If assertions are evaluated over a given window, it does not end before it starts, and each
  -- assertion has one evaluation, in their order and with its id. Where the status says passed or
  -- failed, the window of the assertion reaches back from the end for the length that the
  -- assertion says, but not behind the start of the given one, it has samples of the assertion,
  -- all in its unit, and the verdict on them is right: of a duration, the longest stretch is
  -- measured and passed says that it meets the requirement; of scalars, passed says that their
  -- aggregate compares so with the threshold; of histograms, passed says that every number in the
  -- interval of their statistic does, and failed that none does.
  pub evaluate_metric_assertions-Paired :
      (window_start_ns window_end_ns : ℕ) (assertions : List (MetricAssertion F))
      (samples : List (MetricPoint F)) (es : List (AssertionEvaluation F))
      → evaluate_metric_assertions nanoseconds
          (some window_start_ns)
          (some window_end_ns)
          assertions
          samples
        ≡ ok es
      → (window_start_ns ≤ window_end_ns)
        × Paired nanoseconds window_start_ns window_end_ns samples assertions es
  unfolding evaluate_metric_assertions
  evaluate_metric_assertions-Paired window_start_ns window_end_ns assertions samples es h =
      let (u, proper, k) =
        bind-ok (raise_if (ltb window_end_ns window_start_ns) (input_error empty_window)) _ es h in
      let order = le-of-not-ltb window_start_ns window_end_ns (raise_if-ok _ _ u proper) in
      (
        order,
        evaluate_each-Paired nanoseconds window_start_ns window_end_ns assertions samples es order
            k,
      )
