-- ===== src/Harness/TimeAuthority/Sound.antt =====
-- packages/harness/src/robotics_acceptance_harness/time_authority.py: what a verdict on the bounds
-- says of the latencies themselves.
use robotics_runtime.Base.{
  ◌≤◌, ◌<◌, ◌≡◌, refl, sym, ap, ◌∙◌, subst, inl, inr, Bool, true, false, not, ◌&&◌, List, [], ◌∷◌,
  ok_injective, bind-ok, arith, leb, ◌==◌, if◌then◌else◌, ok, raise_if, length, All, Any,
}
use robotics_runtime.Base.Float
use robotics_runtime.Base.Float.{Float, Finite}
use robotics_runtime.Harness.Samples.{HistogramSample, insufficient_data, no_events, no_sum}
use robotics_runtime.Harness.HistogramEstimates.{
  Aggregation, Comparison, Operator, Estimate, rank_of, compare, compare_values,
}
use robotics_runtime.Harness.HistogramEstimates.Events.{Describes, IsRank, Contains}
use robotics_runtime.Harness.HistogramEstimates.Soundness.{estimate_statistic-Contains}
use robotics_runtime.Harness.HistogramEstimates.Verdicts.{compare-right}
use robotics_runtime.Harness.Merging.{is_none}
use robotics_runtime.Harness.Windows.{is_count, is_mean, as_aggregation_error, histogram_statistic}
use robotics_runtime.Harness.TimeAuthority.{
  passed, failed, Evaluation, LatencyLimits, status_among, latency_verdict, latency_policy,
}

-- A list of outcomes passes when each does, and fails when one does.
status_among-passed :
    (outcomes : List Comparison)
    → status_among outcomes ≡ passed
    → All (λ o. o ≡ Comparison.passed) outcomes
status_among-passed [] h = tt
status_among-passed (Comparison.passed ∷ rest) h = (refl, status_among-passed rest h)
status_among-passed (Comparison.failed ∷ rest) h = absurd (cc)
status_among-passed (Comparison.skipped ∷ rest) h = absurd (ground (arith, h))

status_among-failed :
    (outcomes : List Comparison)
    → status_among outcomes ≡ failed
    → Any (λ o. o ≡ Comparison.failed) outcomes
status_among-failed [] h = absurd (cc)
status_among-failed (Comparison.passed ∷ rest) h = inr (status_among-failed rest h)
status_among-failed (Comparison.failed ∷ rest) h = inl refl
status_among-failed (Comparison.skipped ∷ rest) h =
    inr (status_among-failed rest (ground (arith, h)))

at_false :
    {A : Type 0} (b : Bool) (x y : A) → b ≡ false → elim b as (λ _. A) [ true ↦ x | false ↦ y ] ≡ y
at_false true x y h = absurd (cc)
at_false false x y h = refl

module _ {F : Type 0} ⦃finites : Finite F⦄ where
  -- The three ranked latencies keep their limits, and there are enough latencies.
  pub record KeepsLimits (policy : LatencyLimits F) (events : List F) (x50 x95 most : F)
      : Type 0 where
    pub p50 : Float.le (Float.finite x50) policy.max_p50_ms ≡ true
    pub p95 : Float.le (Float.finite x95) policy.max_p95_ms ≡ true
    pub maximum : Float.le (Float.finite most) policy.max_ms ≡ true
    pub enough : policy.min_samples ≤ length events

  module _ (h : HistogramSample F) (bounds events : List F) (d : Describes h bounds events)
      (domain : All (λ e. finites.le finites.origin e ≡ true) events) where
    statistic-Contains :
        (aggregation : Aggregation) (x : F) (e : Estimate F)
        → IsRank (rank_of aggregation (length events)) x events
        → histogram_statistic h aggregation true ≡ ok e
        → Contains e x
    unfolding histogram_statistic
    statistic-Contains aggregation x e r made =
        let (u, _, k) =
          bind-ok
            (raise_if (not (is_count aggregation) && (h.count == 0)) (insufficient_data no_events))
            _ e made in
        let (v, _, j) =
          bind-ok (raise_if (is_mean aggregation && is_none h.sum) (insufficient_data no_sum)) _ e
            k in
        let (e', given, inside) =
          estimate_statistic-Contains h bounds events aggregation true x d (inr domain) r in
        subst (λ t. Contains t x) (ok_injective (sym (ap as_aggregation_error given) ∙ j)) inside

    judged :
        (aggregation : Aggregation) (x : F) (e : Estimate F) (limit : Float F)
        (verdict : Comparison)
        → IsRank (rank_of aggregation (length events)) x events
        → histogram_statistic h aggregation true ≡ ok e
        → compare e Operator.lte limit ≡ ok verdict
        → (verdict ≡ Comparison.passed → Float.le (Float.finite x) limit ≡ true)
          × (verdict ≡ Comparison.failed → Float.le (Float.finite x) limit ≡ false)
    unfolding compare_values
    judged aggregation x e limit Comparison.passed r made c = (
      λ _.
          compare-right e Operator.lte limit x Comparison.passed
            (statistic-Contains aggregation x e r made) c (λ q. cc),
      λ q. absurd (cc),
    )
    judged aggregation x e limit Comparison.failed r made c = (
      λ q. absurd (cc),
      λ _.
          compare-right e Operator.lte limit x Comparison.failed
            (statistic-Contains aggregation x e r made) c (λ q. cc),
    )
    judged aggregation x e limit Comparison.skipped r made c = (λ q. absurd (cc), λ q. absurd (cc))

    counted : (x : F) → Any (λ e. e ≡ x) events → (h.count == 0) ≡ false
    counted x m = rw d.count (nonempty events m)
      where
        nonempty : (xs : List F) → Any (λ e. e ≡ x) xs → (length xs == 0) ≡ false
        nonempty [] m = absurd (m tt)
        nonempty (y ∷ ys) m = ground arith

    module _ (policy : LatencyLimits F) (x50 x95 most : F)
        (r50 : IsRank (rank_of Aggregation.p50 (length events)) x50 events)
        (r95 : IsRank (rank_of Aggregation.p95 (length events)) x95 events)
        (r100 : IsRank (rank_of Aggregation.max (length events)) most events) where
      enough_outcome : Comparison
      enough_outcome =
          if leb policy.min_samples h.count then Comparison.passed else Comparison.failed

      enough_right :
          (enough_outcome ≡ Comparison.passed → policy.min_samples ≤ length events)
          × (enough_outcome ≡ Comparison.failed → length events < policy.min_samples)
      unfolding enough_outcome
      enough_right = (λ q. ground (arith, q, d.count), λ q. ground (arith, q, d.count))

      -- what the four outcomes say together
      verdict_right :
          (e50 e95 e100 : Estimate F) (a b c : Comparison)
          → histogram_statistic h Aggregation.p50 true ≡ ok e50
          → histogram_statistic h Aggregation.p95 true ≡ ok e95
          → histogram_statistic h Aggregation.max true ≡ ok e100
          → compare e50 Operator.lte policy.max_p50_ms ≡ ok a
          → compare e95 Operator.lte policy.max_p95_ms ≡ ok b
          → compare e100 Operator.lte policy.max_ms ≡ ok c
          → (status_among (a ∷ b ∷ c ∷ enough_outcome ∷ []) ≡ passed
              → KeepsLimits policy events x50 x95 most)
            × (status_among (a ∷ b ∷ c ∷ enough_outcome ∷ []) ≡ failed
                → KeepsLimits policy events x50 x95 most
                → ⊥)
      verdict_right e50 e95 e100 a b c m50 m95 m100 k50 k95 k100 = (
        λ q.
            let (pa, (pb, (pc, (pd, _)))) =
              status_among-passed (a ∷ b ∷ c ∷ enough_outcome ∷ []) q in
            record {
              p50 = (j50).0 pa;
              p95 = (j95).0 pb;
              maximum = (j100).0 pc;
              enough = (enough_right).0 pd;
            },
        λ q keeps. elim (status_among-failed (a ∷ b ∷ c ∷ enough_outcome ∷ []) q) [
          | inl fa ↦ cc (keeps.p50, (j50).1 fa)
          | inr (inl fb) ↦ cc (keeps.p95, (j95).1 fb)
          | inr (inr (inl fc)) ↦ cc (keeps.maximum, (j100).1 fc)
          | inr (inr (inr (inl fd))) ↦ omega (arith, keeps.enough, (enough_right).1 fd)
          | inr (inr (inr (inr z))) ↦ z tt
        ],
      )
        where
          j50 :
              (a ≡ Comparison.passed → Float.le (Float.finite x50) policy.max_p50_ms ≡ true)
              × (a ≡ Comparison.failed → Float.le (Float.finite x50) policy.max_p50_ms ≡ false)
          j50 = judged Aggregation.p50 x50 e50 policy.max_p50_ms a r50 m50 k50

          j95 :
              (b ≡ Comparison.passed → Float.le (Float.finite x95) policy.max_p95_ms ≡ true)
              × (b ≡ Comparison.failed → Float.le (Float.finite x95) policy.max_p95_ms ≡ false)
          j95 = judged Aggregation.p95 x95 e95 policy.max_p95_ms b r95 m95 k95

          j100 :
              (c ≡ Comparison.passed → Float.le (Float.finite most) policy.max_ms ≡ true)
              × (c ≡ Comparison.failed → Float.le (Float.finite most) policy.max_ms ≡ false)
          j100 = judged Aggregation.max most e100 policy.max_ms c r100 m100 k100

      latency_verdict-right :
          (shown : Float F × Float F × Float F) (evaluation : Evaluation)
          → latency_verdict h policy ≡ ok (shown, evaluation)
          → (evaluation.status ≡ passed → KeepsLimits policy events x50 x95 most)
            × (evaluation.status ≡ failed → KeepsLimits policy events x50 x95 most → ⊥)
      unfolding latency_verdict enough_outcome
      latency_verdict-right shown evaluation given =
          let (e50, m50, g1) =
            bind-ok (histogram_statistic h Aggregation.p50 true) _ (shown, evaluation) given in
          let (e95, m95, g2) =
            bind-ok (histogram_statistic h Aggregation.p95 true) _ (shown, evaluation) g1 in
          let (e100, m100, g3) =
            bind-ok (histogram_statistic h Aggregation.max true) _ (shown, evaluation) g2 in
          let (a, k50, g4) =
            bind-ok (compare e50 Operator.lte policy.max_p50_ms) _ (shown, evaluation) g3 in
          let (b, k95, g5) =
            bind-ok (compare e95 Operator.lte policy.max_p95_ms) _ (shown, evaluation) g4 in
          let (c, k100, g6) =
            bind-ok (compare e100 Operator.lte policy.max_ms) _ (shown, evaluation) g5 in
          let same : status_among (a ∷ b ∷ c ∷ enough_outcome ∷ []) ≡ evaluation.status =
            ap (λ r. r.1.status) (ok_injective g6) in
          subst
            (λ s.
              (s ≡ passed → KeepsLimits policy events x50 x95 most)
              × (s ≡ failed → KeepsLimits policy events x50 x95 most → ⊥))
            same (verdict_right e50 e95 e100 a b c m50 m95 m100 k50 k95 k100)

      -- For a histogram that describes some nonnegative latencies, with the latencies that stand
      -- at the ranks of p50, p95 and the maximum: if the policy passes, there are enough
      -- latencies and the three keep their limits, and if it fails, they do not all keep them or
      -- there are too few.
      pub latency_policy-right :
          (shown : Float F × Float F × Float F) (evaluation : Evaluation)
          → latency_policy h policy ≡ ok (shown, evaluation)
          → (evaluation.status ≡ passed → KeepsLimits policy events x50 x95 most)
            × (evaluation.status ≡ failed → KeepsLimits policy events x50 x95 most → ⊥)
      unfolding latency_policy
      latency_policy-right shown evaluation given =
          latency_verdict-right shown evaluation
            (sym (at_false (h.count == 0) _ _ (counted x50 r50.member)) ∙ given)
