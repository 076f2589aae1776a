-- ===== src/Harness/HistogramEstimates/Soundness.antt =====
-- The estimate of a rank statistic holds the statistic, and is always given.
use robotics_runtime.Base.{
  ℕ, ◌≡◌, ap, ◌∙◌, ◌⊎◌, inl, inr, Bool, true, false, not, ◌&&◌, none, some, List, [], ◌∷◌, map,
  arith, ◌==◌, if◌then◌else◌, Bool-cases, if_ind, ok, length, get_elem?, count_if_pos, count_if-not,
  All-at, All, Any,
}
use mathlib.Core.Path.{ap₂}
use native.Mathlib.Nat.{zero-add}
use robotics_runtime.Base.Float
use robotics_runtime.Base.Float.{Float, Finite}
use robotics_runtime.Harness.Samples.{HistogramSample}
use robotics_runtime.Harness.HistogramEstimates.{
  Aggregation, count, mean, min, max, Estimate, occupied_from, last, rank_from, estimate,
  bucket_upper, raised, lowered, is_inner, bucket_estimate, validate_extremum, validate_extrema,
  rank_bucket, given_negative, negative_bucket, has_negative_event, rank_of, by_rank, exact_or,
  rank_estimate, estimate_events, estimate_statistic,
}
use robotics_runtime.Harness.HistogramEstimates.Events.{
  IsLeast, IsGreatest, Describes, IsRank, Contains,
}
use robotics_runtime.Harness.HistogramEstimates.Ranks.{IsPlaced, rank_from-IsPlaced}
use robotics_runtime.Harness.HistogramEstimates.Extrema.{
  Any-length, head-occupied, last-occupied, negative_bucket-false,
}
use robotics_runtime.Harness.HistogramEstimates.Bounds.{
  estimate-Contains, le-of-lt, bound_holds, raised-le, le-lowered,
}

All-Any-absurd {ℓ} :
    {A : Type ℓ} (p : A → Bool) (xs : List A)
    → All (λ x. p x ≡ true) xs
    → Any (λ x. p x ≡ false) xs
    → ⊥
All-Any-absurd p [] h m = m tt
All-Any-absurd p (x ∷ xs) (h, hs) (inl e) = ground arith
All-Any-absurd p (x ∷ xs) (h, hs) (inr m) = All-Any-absurd p xs hs m

module _ {F : Type 0} ⦃finites : Finite F⦄ where
  module _ (h : HistogramSample F) (bounds events : List F) (d : Describes h bounds events) (x : F)
      (member : Any (λ e. e ≡ x) events) where
    min_at : (h.min ≡ none) ⊎ ((m : F) × (h.min ≡ some (Float.finite m)) × (finites.le m x ≡ true))
    min_at = elim d.min [
      | inl absent ↦ inl absent
      | inr (m, e, (_, least)) ↦
          inr (m, e, All-at (λ y. finites.le m y ≡ true) x events least member)
    ]

    max_at : (h.max ≡ none) ⊎ ((m : F) × (h.max ≡ some (Float.finite m)) × (finites.le x m ≡ true))
    max_at = elim d.max [
      | inl absent ↦ inl absent
      | inr (m, e, (_, most)) ↦ inr (m, e, All-at (λ y. finites.le y m ≡ true) x events most member)
    ]

    module _ (nonnegative : Bool)
        (domain : (nonnegative ≡ false)
          ⊎ All (λ e. finites.le finites.origin e ≡ true) events) where
      floored :
          (below : Float F)
          → Float.le below (Float.finite x) ≡ true
          → Float.le
              (if nonnegative then Float.max_of Float.zero_float below else below)
              (Float.finite x)
            ≡ true
      floored below h = elim domain [
        | inl e ↦ rw e h
        | inr above ↦
            if_ind (λ v. Float.le v (Float.finite x) ≡ true) nonnegative
              (λ _.
                if_ind (λ v. Float.le v (Float.finite x) ≡ true) (Float.lt Float.zero_float below)
                  (λ _. h)
                  (λ _. All-at (λ y. finites.le finites.origin y ≡ true) x events above member))
              (λ _. h)
      ]

      bucket_estimate-Contains :
          (index : ℕ)
          → IsPlaced bounds index x
          → (e : Estimate F) × (bucket_estimate h index nonnegative ≡ ok e) × Contains e x
      unfolding bucket_estimate
      bucket_estimate-Contains index p =
          let lower =
            raised h.min (if nonnegative then Float.max_of Float.zero_float p.floor else p.floor) in
          let low = raised-le h.min _ x min_at (floored p.floor (le-of-lt p.floor x p.above)) in
          let high =
            le-lowered h.max (bucket_upper (map Float.finite bounds) index) x max_at p.below in
          let (e, made, inside) =
            estimate-Contains lower (lowered h.max (bucket_upper (map Float.finite bounds) index))
              (is_inner index && Float.eq lower p.floor) x
              (bound_holds lower p.floor (is_inner index) x low p.above) high in
          (e, rw (d.explicit_bounds, p.found) made, inside)

    no_negative_event :
        All (λ e. finites.le finites.origin e ≡ true) events → has_negative_event h ≡ false
    unfolding has_negative_event
    no_negative_event above = rw (of_min, of_sum, of_buckets)
      where
        of_min : given_negative h.min ≡ false
        of_min = elim d.min [
          | inl e ↦ rw e
          | inr (m, e, (m_in, _)) ↦
              rw e (
                ground
                  (arith, All-at (λ y. finites.le finites.origin y ≡ true) m events above m_in))
        ]

        of_sum : given_negative h.sum ≡ false
        of_sum = elim d.sum [
          | inl e ↦ e
          | inr neg ↦ absurd (All-Any-absurd (finites.le finites.origin) events above neg)
        ]

        of_buckets : negative_bucket h.explicit_bounds h.bucket_counts ≡ false
        of_buckets =
            rw (d.explicit_bounds, d.bucket_counts) (negative_bucket-false bounds events above)

    min_consistent :
        validate_extremum h h.min (get_elem? (occupied_from 0 h.bucket_counts) 0) ≡ ok tt
    unfolding validate_extremum
    min_consistent = elim d.min [
      | inl e ↦ rw e
      | inr (m, e, least) ↦
          rw (e, d.bucket_counts, head-occupied bounds events 0 m least)
            (rw d.explicit_bounds (ground arith))
    ]

    max_consistent : validate_extremum h h.max (last (occupied_from 0 h.bucket_counts)) ≡ ok tt
    unfolding validate_extremum
    max_consistent = elim d.max [
      | inl e ↦ rw e
      | inr (m, e, most) ↦
          rw (e, d.bucket_counts, last-occupied bounds events 0 m most)
            (rw d.explicit_bounds (ground arith))
    ]

    extrema_consistent : validate_extrema h ≡ ok tt
    unfolding validate_extrema
    extrema_consistent = rw (min_consistent, max_consistent)

    count_pos : (h.count == 0) ≡ false
    count_pos = ground (arith, d.count, Any-length (λ e. e ≡ x) events member)

    module _ (nonnegative : Bool)
        (domain : (nonnegative ≡ false)
          ⊎ All (λ e. finites.le finites.origin e ≡ true) events) where
      domain_consistent : (nonnegative && has_negative_event h) ≡ false
      domain_consistent = elim domain [
        | inl e ↦ rw e
        | inr above ↦ ground (arith, no_negative_event above)
      ]

      estimate_events-rank :
          (aggregation : Aggregation) (rank : ℕ)
          → IsRank (rank_of aggregation rank) x events
          → estimate_statistic h aggregation nonnegative ≡ rank_estimate h aggregation nonnegative
      unfolding estimate_statistic estimate_events rank_of
      estimate_events-rank count rank r = absurd (omega (arith, r.below))
      estimate_events-rank mean rank r = absurd (omega (arith, r.below))
      estimate_events-rank _ rank r = rw (count_pos, extrema_consistent, domain_consistent)

      by_rank-Contains :
          (aggregation : Aggregation)
          → IsRank (rank_of aggregation (length events)) x events
          → (e : Estimate F) × (by_rank h aggregation nonnegative ≡ ok e) × Contains e x
      unfolding by_rank
      by_rank-Contains aggregation r =
          let (index, stops, placed) =
            rank_from-IsPlaced bounds events 0 0 (rank_of aggregation (length events)) x r in
          let (e, made, inside) = bucket_estimate-Contains nonnegative domain index placed in
          let finds : rank_bucket h (rank_of aggregation h.count) ≡ ok index =
            ap₂ (λ cs n. rank_from 0 0 cs (rank_of aggregation n)) d.bucket_counts d.count
            ∙ simp zero-add at stops in
          (e, rw finds made, inside)

      exact_min :
          (m : F)
          → IsLeast m events
          → IsRank 1 x events
          → (e : Estimate F) × (estimate (Float.finite m) (Float.finite m) false ≡ ok e)
            × Contains e x
      exact_min m (m_in, least) r =
          estimate-Contains (Float.finite m) (Float.finite m) false x
            (All-at (λ y. finites.le m y ≡ true) x events least member)
            (elim (Bool-cases (finites.le x m)) [
              | inl low ↦ low
              | inr over ↦ absurd (
                  omega (
                    arith,
                    r.below,
                    count_if_pos (λ e. not (finites.le x e)) m events (ground arith) m_in,
                  ))
            ])

      exact_max :
          (m : F)
          → IsGreatest m events
          → IsRank (length events) x events
          → (e : Estimate F) × (estimate (Float.finite m) (Float.finite m) false ≡ ok e)
            × Contains e x
      exact_max m (m_in, most) r =
          estimate-Contains (Float.finite m) (Float.finite m) false x
            (elim (Bool-cases (finites.le m x)) [
              | inl high ↦ high
              | inr under ↦ absurd (
                  omega (
                    arith,
                    r.upto,
                    count_if-not (λ e. finites.le e x) events,
                    count_if_pos (λ e. not (finites.le e x)) m events (ground arith) m_in,
                  ))
            ])
            (All-at (λ y. finites.le y m ≡ true) x events most member)

      rank_estimate-Contains :
          (aggregation : Aggregation)
          → IsRank (rank_of aggregation (length events)) x events
          → (e : Estimate F) × (rank_estimate h aggregation nonnegative ≡ ok e) × Contains e x
      unfolding rank_estimate rank_of
      rank_estimate-Contains min r = elim d.min [
        | inl e ↦
            let (est, made, inside) = by_rank-Contains min r in
            (est, ap (λ o. exact_or o (by_rank h min nonnegative)) e ∙ made, inside)
        | inr (m, e, least) ↦
            let (est, made, inside) = exact_min m least r in
            (est, ap (λ o. exact_or o (by_rank h min nonnegative)) e ∙ made, inside)
      ]
      rank_estimate-Contains max r = elim d.max [
        | inl e ↦
            let (est, made, inside) = by_rank-Contains max r in
            (est, ap (λ o. exact_or o (by_rank h max nonnegative)) e ∙ made, inside)
        | inr (m, e, most) ↦
            let (est, made, inside) = exact_max m most r in
            (est, ap (λ o. exact_or o (by_rank h max nonnegative)) e ∙ made, inside)
      ]
      rank_estimate-Contains aggregation r = by_rank-Contains aggregation r

-- For a histogram that describes some finite events, and a domain that is declared nonnegative
-- only where no event is negative, the estimate of a rank statistic (minimum, maximum, p50, p95,
-- p99) is given, without an error, and its interval holds the event of that rank.
pub estimate_statistic-Contains :
    {F : Type 0} ⦃finites : Finite F⦄ (h : HistogramSample F) (bounds events : List F)
    (aggregation : Aggregation) (nonnegative : Bool) (x : F)
    → Describes h bounds events
    → (nonnegative ≡ false) ⊎ All (λ e. finites.le finites.origin e ≡ true) events
    → IsRank (rank_of aggregation (length events)) x events
    → (e : Estimate F) × (estimate_statistic h aggregation nonnegative ≡ ok e) × Contains e x
estimate_statistic-Contains h bounds events aggregation nonnegative x d domain r =
    let (e, made, inside) =
      rank_estimate-Contains h bounds events d x r.member nonnegative domain aggregation r in
    (
      e,
      estimate_events-rank h bounds events d x r.member nonnegative domain aggregation
            (length events) r
          ∙ made,
      inside,
    )
