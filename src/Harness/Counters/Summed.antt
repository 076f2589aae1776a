-- ===== src/Harness/Counters/Summed.antt =====
-- packages/harness/src/robotics_acceptance_harness/metrics.py: the loop over the series adds one
-- increase for each.
use robotics_runtime.Base.{
  ℕ, ◌≤◌, ◌<◌, ◌≡◌, refl, sym, ◌∙◌, subst, inl, inr, Bool, true, false, none, some, List, [], ◌∷◌,
  ◌++◌, ok_injective, bind-ok, raise_if-ok, arith, ltb, leb, ◌==◌, if◌then◌else◌, Result, ok, ◌>>=◌,
  raise_if, keep, All-imp, append_assoc, append_nil,
}
use robotics_runtime.Base.Float
use robotics_runtime.Base.Float.{Float, Finite}
use robotics_runtime.Harness.Samples.{
  MetricError, MetricSample, aggregation_error, duplicate_observations, moved_backwards,
  empty_interval,
}
use robotics_runtime.Harness.Series.{sorted, MetricSeriesKey}
use robotics_runtime.Harness.Series.Permuted.{sorted-permᴰ, All-permᴰ, Any-permᴰ}
use robotics_runtime.Harness.Cumulative.{last_of}
use robotics_runtime.Harness.Cumulative.Checked.{Linked}
use robotics_runtime.Harness.Windows.{SeriesInterval}
use robotics_runtime.Harness.Counters.{
  check_steps, increase_since, is_baseline, checked_increase, series_increase, scalar_before, added,
  sum_series,
}
use robotics_runtime.Harness.Counters.Latest.{
  InTime, IsLatest, sorted-InTime, kept-IsLatest, last_of-IsLatest, sorted-IsLatest,
}
use robotics_runtime.Harness.Counters.Increase.{
  Increase, Group, Rises, Rising, IsNewest, IsBaseline, CountsFrom, Adds, Increases, amounts,
  float_sum, intervals,
}

module _ {F : Type 0} ⦃finites : Finite F⦄ where
  check_steps-Rising :
      (x : MetricSample F) (xs : List (MetricSample F)) (u : Unit {0})
      → InTime (λ s. s.observed_at_ns) (x ∷ xs)
      → check_steps x xs ≡ ok u
      → Linked Rises x xs
  unfolding check_steps
  check_steps-Rising x [] u o h = tt
  check_steps-Rising x (y ∷ ys) u ((xy, _), o) h =
      let (w, distinct, k) =
        bind-ok
          (raise_if (y.observed_at_ns == x.observed_at_ns)
            (aggregation_error duplicate_observations))
          _ u h in
      let (v, rises, j) =
        bind-ok (raise_if (Float.lt y.value x.value) (aggregation_error moved_backwards)) _ u k in
      ((later (raise_if-ok _ _ w distinct), raise_if-ok _ _ v rises), check_steps-Rising y ys u o j)
    where
      later : (y.observed_at_ns == x.observed_at_ns) ≡ false → x.observed_at_ns < y.observed_at_ns
      later d = ground (arith, xy, d)

  IsLatest-IsBaseline :
      (window_start_ns : ℕ) (series : List (MetricSample F)) (l b : MetricSample F)
      → IsLatest (λ s. s.observed_at_ns) (is_baseline window_start_ns l) series b
      → IsBaseline window_start_ns series l b
  IsLatest-IsBaseline window_start_ns series l b r = record {
    given = r.given;
    same_start = ground (arith, r.passes);
    not_inside = ground (arith, r.passes);
    before = ground (arith, r.passes);
    newest =
        All-imp (λ s. is_baseline window_start_ns l s ≡ true → s.observed_at_ns ≤ b.observed_at_ns)
          (λ s.
            s.start_time_ns ≡ l.start_time_ns
            → s.observed_at_ns ≤ window_start_ns
            → s.observed_at_ns < l.observed_at_ns
            → s.observed_at_ns ≤ b.observed_at_ns)
          series (λ s f same not_inside before. f (ground arith)) r.latest;
  }

  checked_increase-Adds :
      (window_start_ns : ℕ) (series : List (MetricSample F)) (l : MetricSample F)
      (found : Float F × ℕ) (o : Increase F)
      → IsNewest series l
      → window_start_ns ≤ l.observed_at_ns
      → CountsFrom window_start_ns series l found.0 found.1
      → checked_increase l found ≡ ok o
      → Adds window_start_ns series o
  checked_increase-Adds window_start_ns series l (x, start_ns) o newest inside counts h =
      let (v, positive, k) =
        bind-ok (raise_if (Float.lt x Float.zero_float) (aggregation_error moved_backwards)) _ o
          h in
      let (_, _, j) =
        bind-ok (raise_if (leb l.observed_at_ns start_ns) (aggregation_error empty_interval)) _ o
          k in
      subst (Adds window_start_ns series) (ok_injective j)
        (l, newest, inside, refl, raise_if-ok _ _ v positive, counts)

  increase_since-CountsFrom :
      (window_start_ns : ℕ) (series : List (MetricSample F)) (l : MetricSample F)
      (baselines : List (MetricSample F)) (found : Float F × ℕ)
      → InTime (λ s. s.observed_at_ns) series
      → keep (is_baseline window_start_ns l) series ≡ baselines
      → l.start_time_ns < window_start_ns
      → increase_since l baselines ≡ ok found
      → CountsFrom window_start_ns series l found.0 found.1
  unfolding increase_since
  increase_since-CountsFrom window_start_ns series l [] found o e before h = absurd (cc)
  increase_since-CountsFrom window_start_ns series l (b ∷ bs) found o e before h =
      subst (λ f. CountsFrom window_start_ns series l f.0 f.1) (ok_injective h)
        (inr (
          before,
          last_of b bs,
          IsLatest-IsBaseline window_start_ns series l (last_of b bs) (
              kept-IsLatest (λ s. s.observed_at_ns) (is_baseline window_start_ns l) series b bs o
                e),
          refl,
          refl,
        ))

  series_increase-Adds :
      (window_start_ns : ℕ) (series : List (MetricSample F)) (o : Increase F)
      → InTime (λ s. s.observed_at_ns) series
      → series_increase window_start_ns series ≡ ok o
      → Rising series × Adds window_start_ns series o
  unfolding series_increase
  series_increase-Adds window_start_ns [] o order h =
      (tt, subst (Adds window_start_ns []) (ok_injective h) tt)
  series_increase-Adds window_start_ns (first ∷ rest) o order h =
      let (u, steps, k) = bind-ok (check_steps first rest) _ o h in
      (
        check_steps-Rising first rest u order steps,
        by_latest (ltb l.observed_at_ns window_start_ns) refl k,
      )
    where
      l : MetricSample F
      l = last_of first rest

      newest : IsNewest (first ∷ rest) l
      newest = last_of-IsLatest (λ s. s.observed_at_ns) first rest order

      found : Bool → Result MetricError (Float F × ℕ)
      found inside =
          if inside
          then ok (l.value, l.start_time_ns)
          else increase_since l (keep (is_baseline window_start_ns l) (first ∷ rest))

      by_start :
          (inside : Bool)
          → leb window_start_ns l.start_time_ns ≡ inside
          → (pair : Float F × ℕ) → found inside ≡ ok pair
          → CountsFrom window_start_ns (first ∷ rest) l pair.0 pair.1
      by_start true e pair h =
          subst (λ f. CountsFrom window_start_ns (first ∷ rest) l f.0 f.1) (ok_injective h)
            (inl (ground (arith, e), refl, refl))
      by_start false e pair h =
          increase_since-CountsFrom window_start_ns (first ∷ rest) l _ pair order refl
            (ground (arith, e)) h

      by_latest :
          (before : Bool)
          → ltb l.observed_at_ns window_start_ns ≡ before
          → (if before
              then ok none
              else (found (leb window_start_ns l.start_time_ns) >>= checked_increase l))
            ≡ ok o
          → Adds window_start_ns (first ∷ rest) o
      by_latest true e k = subst (Adds window_start_ns (first ∷ rest)) (ok_injective k) (
          All-imp (λ s. true ≡ true → s.observed_at_ns ≤ l.observed_at_ns)
            (λ s. s.observed_at_ns < window_start_ns) (first ∷ rest)
            (λ s le. let b = le refl in ground (arith, b, e)) newest.latest)
      by_latest false e k =
          let (pair, counts, j) =
            bind-ok (found (leb window_start_ns l.start_time_ns)) (checked_increase l) o k in
          checked_increase-Adds window_start_ns (first ∷ rest) l pair o newest (ground (arith, e))
            (by_start (leb window_start_ns l.start_time_ns) refl pair counts) j

  -- What the series adds in order, it adds in any order.
  sorted-Adds :
      (window_start_ns : ℕ) (series : List (MetricSample F)) (o : Increase F)
      → Adds window_start_ns (sorted scalar_before series) o
      → Adds window_start_ns series o
  sorted-Adds window_start_ns series none h =
      All-permᴰ (λ s. s.observed_at_ns < window_start_ns) (sorted-permᴰ scalar_before series) h
  sorted-Adds window_start_ns series (some (x, (start_ns, end_ns)))
        (l, newest, inside, e, positive, counts) =
      (
        l,
        sorted-IsLatest (λ s. s.observed_at_ns) (λ _. true) series l newest,
        inside,
        e,
        positive,
        elim counts [
          | inl whole ↦ inl whole
          | inr (before, b, base, d, f) ↦ inr (before, b, of_series b base, d, f)
        ],
      )
    where
      of_series :
          (b : MetricSample F)
          → IsBaseline window_start_ns (sorted scalar_before series) l b
          → IsBaseline window_start_ns series l b
      of_series b base = record {
        given = Any-permᴰ (λ s. s ≡ b) (sorted-permᴰ scalar_before series) base.given;
        same_start = base.same_start;
        not_inside = base.not_inside;
        before = base.before;
        newest =
            All-permᴰ
              (λ s.
                s.start_time_ns ≡ l.start_time_ns
                → s.observed_at_ns ≤ window_start_ns
                → s.observed_at_ns < l.observed_at_ns
                → s.observed_at_ns ≤ b.observed_at_ns)
              (sorted-permᴰ scalar_before series) base.newest;
      }

  -- The total and the intervals, from some on, are those of the series one after another.
  abbrev IsSummed :
      ℕ
      → List (Group F)
      → Float F × List (SeriesInterval F)
      → Float F × List (SeriesInterval F)
      → Type 0
  IsSummed window_start_ns groups (total, coverage) (t, c) =
      (os : List (Increase F)) × Increases window_start_ns groups os
      × (t ≡ float_sum total (amounts os))
      × (c ≡ coverage ++ intervals groups os)

  IsSummed-cons :
      (window_start_ns : ℕ) (key : MetricSeriesKey F) (start_ns : ℕ)
      (series : List (MetricSample F)) (rest : List (Group F)) (o : Increase F)
      (state after : Float F × List (SeriesInterval F))
      → Rising (sorted scalar_before series) × Adds window_start_ns series o
      → IsSummed window_start_ns rest (added key o state) after
      → IsSummed window_start_ns (((key, start_ns), series) ∷ rest) state after
  IsSummed-cons window_start_ns key start_ns series rest none (total, coverage) (t, c) a
        (os, increases, e, f) =
      (none ∷ os, (a, increases), e, f)
  IsSummed-cons window_start_ns key start_ns series rest (some (x, i)) (total, coverage) (t, c) a
        (os, increases, e, f) =
      (
        some (x, i) ∷ os,
        (a, increases),
        e,
        f ∙ append_assoc coverage ((key, i) ∷ []) (intervals rest os),
      )

  pub sum_series-IsSummed :
      (window_start_ns : ℕ) (groups : List (Group F))
      (state after : Float F × List (SeriesInterval F))
      → sum_series window_start_ns groups state ≡ ok after
      → IsSummed window_start_ns groups state after
  unfolding sum_series
  sum_series-IsSummed window_start_ns [] state after h =
      subst (IsSummed window_start_ns [] state) (ok_injective h)
        ([], tt, refl, sym (append_nil state.1))
  sum_series-IsSummed window_start_ns (((key, start_ns), series) ∷ rest) state after h =
      let (o, increased, k) =
        bind-ok (series_increase window_start_ns (sorted scalar_before series)) _ after h in
      let (rising, adds) =
        series_increase-Adds window_start_ns (sorted scalar_before series) o
          (sorted-InTime (λ s. s.observed_at_ns) series) increased in
      IsSummed-cons window_start_ns key start_ns series rest o state after
        (rising, sorted-Adds window_start_ns series o adds)
        (sum_series-IsSummed window_start_ns rest (added key o state) after k)
