-- ===== src/Harness/Cumulative/Checked.antt =====
-- packages/harness/src/robotics_acceptance_harness/metrics.py: an accepted cumulative series runs
-- forward in time, and no bucket shrinks.
use robotics_runtime.Base.{
  ℕ, ◌≤◌, ◌<◌, ◌≡◌, sym, subst, true, false, not, ◌||◌, List, [], ◌∷◌, bind-ok, ok_injective,
  raise_if-ok, arith, str_eq, eq_iff, ltb, ◌==◌, if_ind, ok, raise_if, any,
}
use robotics_runtime.Harness.Samples.{HistogramSample}
use robotics_runtime.Base.Float.{Finite}
use robotics_runtime.Harness.Series.{sorted, insert_sorted}
use robotics_runtime.Harness.Series.Permuted.{sorted-permᴰ}
use mathlib.Core.List.{Perm}
use robotics_runtime.Harness.Merging.{zip_strict, bounds_equal}
use robotics_runtime.Harness.Cumulative.{
  by_time, check_pair, check_pairs, check_series, checked_cumulative_series,
}

-- The counts of one list are at most those of the other, place by place.
abbrev pub AtMost : List ℕ → List ℕ → Type 0
AtMost [] [] = Unit
AtMost (x ∷ xs) (y ∷ ys) = (x ≤ y) × AtMost xs ys
AtMost _ _ = ⊥

-- Each element is related to the next one.
abbrev pub Linked {ℓ κ} : {A : Type ℓ} → (A → A → Type κ) → A → List A → Type κ
Linked R x [] = Unit
Linked R x (y ∷ ys) = R x y × Linked R y ys

zip_strict-AtMost :
    (xs ys : List ℕ) (pairs : List (ℕ × ℕ))
    → zip_strict xs ys ≡ ok pairs
    → any (λ (left, right). ltb right left) pairs ≡ false
    → AtMost xs ys
zip_strict-AtMost [] [] pairs h k = tt
zip_strict-AtMost [] (y ∷ ys) pairs h k = absurd (ground (arith, h))
zip_strict-AtMost (x ∷ xs) [] pairs h k = absurd (ground (arith, h))
zip_strict-AtMost (x ∷ xs) (y ∷ ys) pairs h k =
    let (rest, zipped, e) = bind-ok (zip_strict xs ys) _ pairs h in
    let grew : any (λ (left, right). ltb right left) ((x, y) ∷ rest) ≡ false =
      subst (λ ps. any (λ (left, right). ltb right left) ps ≡ false) (sym (ok_injective e)) k in
    (ground arith, zip_strict-AtMost xs ys rest zipped (ground arith))

module _ {F : Type 0} ⦃finites : Finite F⦄ where
  abbrev NotLater : HistogramSample F → HistogramSample F → Type 0
  NotLater a b = a.observed_at_ns ≤ b.observed_at_ns

  -- The second histogram of a series follows the first one.
  abbrev pub Follows : HistogramSample F → HistogramSample F → Type 0
  Follows previous current =
      (current.name ≡ previous.name)
      × (current.unit ≡ previous.unit)
      × (previous.observed_at_ns < current.observed_at_ns)
      × (bounds_equal current.explicit_bounds previous.explicit_bounds ≡ true)
      × AtMost previous.bucket_counts current.bucket_counts

  abbrev pub InOrder :
      (HistogramSample F → HistogramSample F → Type 0) → List (HistogramSample F) → Type 0
  InOrder R [] = Unit
  InOrder R (x ∷ xs) = Linked R x xs

  insert_sorted-Linked :
      (y x : HistogramSample F) (ys : List (HistogramSample F))
      → NotLater y x
      → Linked NotLater y ys
      → Linked NotLater y (insert_sorted by_time x ys)
  unfolding insert_sorted
  insert_sorted-Linked y x [] h k = (h, tt)
  insert_sorted-Linked y x (z ∷ zs) h (yz, k) =
      if_ind (Linked NotLater y) (by_time z x)
        (λ e. (yz, insert_sorted-Linked z x zs (ground arith) k)) (λ e. (h, (ground arith, k)))

  sorted-InOrder : (xs : List (HistogramSample F)) → InOrder NotLater (sorted by_time xs)
  unfolding sorted insert_sorted
  sorted-InOrder [] = tt
  sorted-InOrder (x ∷ xs) = onto (sorted by_time xs) (sorted-InOrder xs)
    where
      onto :
          (ys : List (HistogramSample F))
          → InOrder NotLater ys
          → InOrder NotLater (insert_sorted by_time x ys)
      onto [] h = tt
      onto (y ∷ ys) h =
          if_ind (InOrder NotLater) (by_time y x)
            (λ e. insert_sorted-Linked y x ys (ground arith) h) (λ e. (ground arith, h))

  check_pair-Follows :
      (previous current : HistogramSample F) (u : Unit {0})
      → NotLater previous current
      → check_pair previous current ≡ ok u
      → Follows previous current
  unfolding check_pair
  check_pair-Follows previous current u order h =
      let (w, known, a) =
        bind-ok
          (raise_if
            (not (str_eq current.name previous.name) || not (str_eq current.unit previous.unit)) _)
          _ u h in
      let (x, distinct, b) =
        bind-ok (raise_if (current.observed_at_ns == previous.observed_at_ns) _) _ u a in
      let (y, bounds, c) =
        bind-ok (raise_if (not (bounds_equal current.explicit_bounds previous.explicit_bounds)) _) _
          u b in
      let (pairs, zipped, grew) =
        bind-ok (zip_strict previous.bucket_counts current.bucket_counts) _ u c in
      let same =
        raise_if-ok
          (not (str_eq current.name previous.name) || not (str_eq current.unit previous.unit)) _ w
          known in
      (
        (eq_iff current.name previous.name).0 (ground (arith, same)),
        (eq_iff current.unit previous.unit).0 (ground (arith, same)),
        ground
            (arith, raise_if-ok (current.observed_at_ns == previous.observed_at_ns) _ x distinct),
        ground (
          arith,
          raise_if-ok (not (bounds_equal current.explicit_bounds previous.explicit_bounds)) _ y
              bounds,
        ),
        zip_strict-AtMost previous.bucket_counts current.bucket_counts pairs zipped
            (raise_if-ok (any (λ (left, right). ltb right left) pairs) _ u grew),
      )

  check_pairs-Linked :
      (previous : HistogramSample F) (rest : List (HistogramSample F)) (u : Unit {0})
      → Linked NotLater previous rest
      → check_pairs previous rest ≡ ok u
      → Linked Follows previous rest
  unfolding check_pairs
  check_pairs-Linked previous [] u order h = tt
  check_pairs-Linked previous (current ∷ rest) u (here, order) h =
      let (v, first, others) = bind-ok (check_pair previous current) _ u h in
      (
        check_pair-Follows previous current v here first,
        check_pairs-Linked current rest u order others,
      )

  check_series-InOrder :
      (ordered : List (HistogramSample F)) (u : Unit {0})
      → InOrder NotLater ordered
      → check_series ordered ≡ ok u
      → InOrder Follows ordered
  check_series-InOrder [] u order h = tt
  check_series-InOrder (x ∷ xs) u order h = check_pairs-Linked x xs u order h

  -- If a cumulative series is accepted, exactly its histograms are returned, each as often as it
  -- is given, in strictly increasing order of observation: each has the name, the unit and the
  -- bucket boundaries of the one before it, and no bucket of it counts less.
  pub checked_cumulative_series-InOrder :
      (samples ordered : List (HistogramSample F))
      → checked_cumulative_series samples ≡ ok ordered
      → Perm ordered samples × InOrder Follows ordered
  unfolding checked_cumulative_series
  checked_cumulative_series-InOrder samples ordered h =
      let (u, checked, same) = bind-ok (check_series (sorted by_time samples)) _ ordered h in
      subst (λ r. Perm r samples × InOrder Follows r) (ok_injective same)
        (
          ∣ sorted-permᴰ by_time samples ∣₁,
          check_series-InOrder (sorted by_time samples) u (sorted-InOrder samples) checked,
        )
