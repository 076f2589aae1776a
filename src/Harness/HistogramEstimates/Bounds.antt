-- ===== src/Harness/HistogramEstimates/Bounds.antt =====
-- Bounds of an interval around a number.
use robotics_runtime.Base.{
  ◌≡◌, refl, ◌⊎◌, inl, inr, Bool, true, ◌&&◌, Option, none, some, arith, if◌then◌else◌, if_ind,
  and_parts, ok,
}
use robotics_runtime.Base.Float
use robotics_runtime.Base.Float.{Float, Finite}
use robotics_runtime.Harness.HistogramEstimates.{Estimate, estimate, raised, lowered}
use robotics_runtime.Harness.HistogramEstimates.Events.{Contains}

module _ {F : Type 0} ⦃finites : Finite F⦄ where
  -- Bounds on both sides of a number are consistent.
  pub estimate-Contains :
      (lower upper : Float F) (exclusive : Bool) (x : F)
      → (if exclusive then Float.lt lower (Float.finite x) else Float.le lower (Float.finite x))
        ≡ true
      → Float.le (Float.finite x) upper ≡ true
      → (e : Estimate F) × (estimate lower upper exclusive ≡ ok e) × Contains e x
  unfolding estimate
  estimate-Contains lower upper exclusive x above below = (
    record { lower = lower; upper = upper; lower_exclusive = exclusive },
    consistent lower upper exclusive above below,
    record { above = above; below = below },
  )
    where
      consistent :
          (lower upper : Float F) (exclusive : Bool)
          → (if exclusive then Float.lt lower (Float.finite x) else Float.le lower (Float.finite x))
            ≡ true
          → Float.le (Float.finite x) upper ≡ true
          → estimate lower upper exclusive
            ≡ ok (record { lower = lower; upper = upper; lower_exclusive = exclusive })
      consistent Float.neg_inf (Float.finite u) exclusive p q = ground arith
      consistent Float.neg_inf Float.pos_inf exclusive p q = ground arith
      consistent (Float.finite l) (Float.finite u) exclusive p q =
          ground (arith, finites.le_trans l x u, finites.le_trans x u l, finites.le_total l x)
      consistent (Float.finite l) Float.pos_inf exclusive p q = ground arith
      consistent _ _ exclusive p q = ground arith

  pub lt-of-eq-lt :
      (a b : Float F) (x : F)
      → Float.eq a b ≡ true
      → Float.lt b (Float.finite x) ≡ true
      → Float.lt a (Float.finite x) ≡ true
  lt-of-eq-lt (Float.finite a) (Float.finite b) x e h = ground (arith, finites.le_trans x a b)
  lt-of-eq-lt (Float.finite a) b x e h = ground arith
  lt-of-eq-lt Float.neg_inf b x e h = refl
  lt-of-eq-lt a b x e h = ground arith

  pub le-of-lt :
      (a : Float F) (x : F)
      → Float.lt a (Float.finite x) ≡ true
      → Float.le a (Float.finite x) ≡ true
  le-of-lt (Float.finite a) x h = ground (arith, finites.le_total a x)
  le-of-lt _ x h = ground arith

  pub bound_holds :
      (lower floor : Float F) (inner : Bool) (x : F)
      → Float.le lower (Float.finite x) ≡ true
      → Float.lt floor (Float.finite x) ≡ true
      → (if inner && Float.eq lower floor
          then Float.lt lower (Float.finite x)
          else Float.le lower (Float.finite x))
        ≡ true
  bound_holds lower floor inner x low above =
      if_ind (λ v. v ≡ true) (inner && Float.eq lower floor)
        (λ same. lt-of-eq-lt lower floor x ((and_parts inner (Float.eq lower floor) same).1) above)
        (λ _. low)

  pub raised-le :
      (o : Option (Float F)) (lower : Float F) (x : F)
      → (o ≡ none) ⊎ ((m : F) × (o ≡ some (Float.finite m)) × (finites.le m x ≡ true))
      → Float.le lower (Float.finite x) ≡ true
      → Float.le (raised o lower) (Float.finite x) ≡ true
  raised-le o lower x (inl e) h = rw e h
  raised-le o lower x (inr (m, e, low)) h = rw e (
      if_ind (λ v. Float.le v (Float.finite x) ≡ true) (Float.lt (Float.finite m) lower) (λ _. h)
        (λ _. low))

  pub le-lowered :
      (o : Option (Float F)) (upper : Float F) (x : F)
      → (o ≡ none) ⊎ ((m : F) × (o ≡ some (Float.finite m)) × (finites.le x m ≡ true))
      → Float.le (Float.finite x) upper ≡ true
      → Float.le (Float.finite x) (lowered o upper) ≡ true
  le-lowered o upper x (inl e) h = rw e h
  le-lowered o upper x (inr (m, e, high)) h = rw e (
      if_ind (λ v. Float.le (Float.finite x) v ≡ true) (Float.lt upper (Float.finite m)) (λ _. h)
        (λ _. high))
