-- ===== src/Harness/HistogramEstimates/Ranks.antt =====
-- The bucket of a rank holds the event of that rank.
use robotics_runtime.Base.{
  ℕ, zero, suc, ◌+◌, ◌-◌, ◌≤◌, ◌<◌, ◌≡◌, refl, inl, inr, true, false, not, List, [], ◌∷◌, map,
  arith, leb, Bool-cases, le_of_leb, ok, keep, count_if, count_if-le-length, count_if_mono,
  count_if_split, Any-keep, All-of,
}
use robotics_runtime.Base.Float
use robotics_runtime.Base.Float.{Float, Finite}
use robotics_runtime.Harness.HistogramEstimates.{rank_from, bucket_lower, bucket_upper}
use robotics_runtime.Harness.HistogramEstimates.Events.{tally, IsRank}

module _ {F : Type 0} ⦃finites : Finite F⦄ where
  -- The number lies in the bucket: above its lower bound, and not above its upper one.
  pub record IsPlaced (bounds : List F) (index : ℕ) (x : F) : Type 0 where
    pub floor : Float F
    pub found : bucket_lower (map Float.finite bounds) index ≡ ok floor
    pub above : Float.lt floor (Float.finite x) ≡ true
    pub below : Float.le (Float.finite x) (bucket_upper (map Float.finite bounds) index) ≡ true

  module _ (b x : F) where
    -- In the first bucket: otherwise all of its events are strictly below the number.
    first_bucket :
        {rank : ℕ} (events : List F)
        → IsRank rank x events
        → rank ≤ count_if (λ e. finites.le e b) events
        → finites.le x b ≡ true
    first_bucket events r h = elim (Bool-cases (finites.le x b)) [
      | inl fits ↦ fits
      | inr over ↦ absurd (
          omega (
            arith,
            r.below,
            h,
            count_if_mono (λ e. finites.le e b) (λ e. not (finites.le x e)) events
                (All-of _ events (λ e in_b. ground (arith, finites.le_trans x e b))),
          ))
    ]

    -- Behind the first bucket: otherwise all events up to the number are in it.
    later_bucket :
        {rank : ℕ} (events : List F)
        → IsRank rank x events
        → count_if (λ e. finites.le e b) events < rank
        → finites.le x b ≡ false
    later_bucket events r h = elim (Bool-cases (finites.le x b)) [
      | inr over ↦ over
      | inl fits ↦ absurd (
          omega (
            arith,
            r.upto,
            h,
            count_if_mono (λ e. finites.le e x) (λ e. finites.le e b) events
                (All-of _ events (λ e up. finites.le_trans e x b up fits)),
          ))
    ]

    -- Without the events of the first bucket the number has a rank that is as much smaller.
    IsRank-behind :
        {rank : ℕ} (events : List F)
        → IsRank rank x events
        → finites.le x b ≡ false
        → IsRank
            (rank - count_if (λ e. finites.le e b) events)
            x
            (keep (λ e. not (finites.le e b)) events)
    IsRank-behind events r over = record {
      member = Any-keep _ x events (ground arith) r.member;
      below = omega (arith, r.below, r.upto, split_below, split_upto);
      upto = omega (arith, r.upto, split_upto);
    }
      where
        split_below :
            count_if (λ e. not (finites.le x e)) events
            ≡ count_if (λ e. finites.le e b) events
              + count_if (λ e. not (finites.le x e)) (keep (λ e. not (finites.le e b)) events)
        split_below =
            count_if_split _ _ events
              (All-of _ events (λ e in_b. ground (arith, finites.le_trans x e b)))

        split_upto :
            count_if (λ e. finites.le e x) events
            ≡ count_if (λ e. finites.le e b) events
              + count_if (λ e. finites.le e x) (keep (λ e. not (finites.le e b)) events)
        split_upto = count_if_split _ _ events (
            All-of _ events
              (λ e in_b. ground (arith, finites.le_total x b, finites.le_trans e b x)))

  IsPlaced-cons :
      (b x : F) (bs : List F) (index : ℕ)
      → finites.le x b ≡ false
      → IsPlaced bs index x
      → IsPlaced (b ∷ bs) (suc index) x
  unfolding bucket_lower bucket_upper
  IsPlaced-cons b x bs zero over p = record {
    floor = Float.finite b;
    found = refl;
    above = rw over;
    below = p.below;
  }
  IsPlaced-cons b x bs (suc i) over p = record {
    floor = p.floor;
    found = p.found;
    above = p.above;
    below = p.below;
  }

  -- The loop stops at the bucket of the rank.
  pub rank_from-IsPlaced :
      (bs events : List F) (start seen rank : ℕ) (x : F)
      → IsRank rank x events
      → (index : ℕ) × (rank_from start seen (tally bs events) (seen + rank) ≡ ok (start + index))
        × IsPlaced bs index x
  unfolding rank_from tally bucket_lower bucket_upper
  rank_from-IsPlaced [] events start seen rank x r = (
    0,
    ground (arith, r.upto, count_if-le-length (λ e. finites.le e x) events),
    record { floor = Float.neg_inf; found = refl; above = refl; below = refl },
  )
  rank_from-IsPlaced (b ∷ bs) events start seen rank x r =
      elim (Bool-cases (leb rank (count_if (λ e. finites.le e b) events))) [
        | inl here ↦ (
          0,
          ground arith,
          record {
            floor = Float.neg_inf;
            found = refl;
            above = refl;
            below = first_bucket b x events r (le_of_leb here);
          },
        )
        | inr later ↦
            let c = count_if (λ e. finites.le e b) events in
            let more : c < rank = ground arith in
            let over = later_bucket b x events r more in
            let (index, stops, placed) =
              rank_from-IsPlaced bs (keep (λ e. not (finites.le e b)) events) (suc start) (seen + c)
                (rank - c) x (IsRank-behind b x events r over) in
            let same : seen + c + (rank - c) ≡ seen + rank = omega arith in
            (suc index, ground (arith, rw same at stops), IsPlaced-cons b x bs index over placed)
      ]
