-- ===== src/Harness/HistogramEstimates/Extrema.antt =====
-- A recorded extremum stands in the first or the last occupied bucket.
use robotics_runtime.Base.{
  ℕ, suc, ◌+◌, ◌<◌, ◌≡◌, refl, inl, inr, true, false, not, some, List, [], ◌∷◌, map, arith,
  Bool-cases, length, get_elem?, keep, count_if, count_if_pos, count_if_zero, keep-nil, All-keep,
  Any-keep, All-imp, All, Any,
}
use robotics_runtime.Base.Float.{Float, Finite}
use robotics_runtime.Harness.HistogramEstimates.{occupied_from, last, bisect_left, negative_bucket}
use robotics_runtime.Harness.HistogramEstimates.Events.{tally, IsLeast, IsGreatest}

pub Any-length {ℓ κ} : {A : Type ℓ} (P : A → Type κ) (xs : List A) → Any P xs → 0 < length xs
Any-length P [] h = absurd (h tt)
Any-length P (x ∷ xs) h = omega arith

last-cons : (i j : ℕ) (xs : List ℕ) → last xs ≡ some j → last (i ∷ xs) ≡ some j
unfolding last
last-cons i j [] e = cc
last-cons i j (x ∷ xs) e = e

module _ {F : Type 0} ⦃finites : Finite F⦄ where
  -- No bucket is occupied where there are no events.
  occupied_from-nil : (bs : List F) (start : ℕ) → occupied_from start (tally bs []) ≡ []
  unfolding occupied_from tally
  occupied_from-nil [] start = ground arith
  occupied_from-nil (b ∷ bs) start =
      ground (arith, occupied_from-nil bs (suc start), count_if_zero (λ e. finites.le e b) [] tt)

  pub head-occupied :
      (bs events : List F) (start : ℕ) (m : F)
      → IsLeast m events
      → get_elem? (occupied_from start (tally bs events)) 0
        ≡ some (start + bisect_left (map Float.finite bs) (Float.finite m))
  unfolding occupied_from tally bisect_left
  head-occupied [] events start m (member, least) = ground (arith, Any-length _ events member)
  head-occupied (b ∷ bs) events start m (member, least) = elim (Bool-cases (finites.le m b)) [
    | inl fits ↦ ground (arith, count_if_pos (λ e. finites.le e b) m events fits member)
    | inr over ↦
        let none_here : count_if (λ e. finites.le e b) events ≡ 0 =
          count_if_zero _ events
            (All-imp _ _ events (λ e low. ground (arith, finites.le_trans m e b)) least) in
        let rest =
          head-occupied bs (keep (λ e. not (finites.le e b)) events) (suc start) m
            (Any-keep _ m events (ground arith) member, All-keep _ _ events least) in
        ground (arith, rest)
  ]

  pub last-occupied :
      (bs events : List F) (start : ℕ) (m : F)
      → IsGreatest m events
      → last (occupied_from start (tally bs events))
        ≡ some (start + bisect_left (map Float.finite bs) (Float.finite m))
  unfolding occupied_from tally bisect_left last
  last-occupied [] events start m (member, greatest) = ground (arith, Any-length _ events member)
  last-occupied (b ∷ bs) events start m (member, greatest) = elim (Bool-cases (finites.le m b)) [
    | inl fits ↦
        let empty : keep (λ e. not (finites.le e b)) events ≡ [] =
          keep-nil _ events
            (All-imp _ _ events (λ e low. finites.le_trans e m b low fits) greatest) in
        let nothing : occupied_from (suc start) (tally bs (keep (λ e. not (finites.le e b)) events))
            ≡ [] =
          rw empty (occupied_from-nil bs (suc start)) in
        ground (arith, nothing, count_if_pos (λ e. finites.le e b) m events fits member)
    | inr over ↦
        let rest =
          last-occupied bs (keep (λ e. not (finites.le e b)) events) (suc start) m
            (Any-keep _ m events (ground arith) member, All-keep _ _ events greatest) in
        ground (
          arith,
          rest,
          last-cons start _
              (occupied_from (suc start) (tally bs (keep (λ e. not (finites.le e b)) events))) rest,
        )
  ]

  -- A bucket below zero holds no event where there is no negative one.
  pub negative_bucket-false :
      (bs events : List F)
      → All (λ e. finites.le finites.origin e ≡ true) events
      → negative_bucket (map Float.finite bs) (tally bs events) ≡ false
  unfolding negative_bucket tally
  negative_bucket-false [] events h = refl
  negative_bucket-false (b ∷ bs) events h = elim (Bool-cases (finites.le finites.origin b)) [
    | inl above ↦
        ground (arith, negative_bucket-false bs _ (All-keep _ (λ e. not (finites.le e b)) events h))
    | inr below ↦
        let none_here : count_if (λ e. finites.le e b) events ≡ 0 =
          count_if_zero _ events
            (All-imp _ _ events (λ e low. ground (arith, finites.le_trans finites.origin e b)) h) in
        ground (
          arith,
          none_here,
          negative_bucket-false bs _ (All-keep _ (λ e. not (finites.le e b)) events h),
        )
  ]
