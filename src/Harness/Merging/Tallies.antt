-- ===== src/Harness/Merging/Tallies.antt =====
-- The bucket counts of events that are put together, and of those that are taken away.
use robotics_runtime.Base.{
  length-append, ℕ, zero, suc, ◌+◌, ◌≡◌, refl, ap, subst, Bool, not, some, List, [], ◌∷◌, ◌++◌,
  arith, ok, length, get_elem?, keep, count_if,
}
use robotics_runtime.Base.Float.{Finite}
use robotics_runtime.Harness.Samples.{HistogramSample, total}
use robotics_runtime.Harness.HistogramEstimates.Events.{tally}
use robotics_runtime.Harness.Merging.{bucket_sum, bucket_sums}

-- Counts added place by place.
abbrev pub added : List ℕ → List ℕ → List ℕ
added (x ∷ xs) (y ∷ ys) = (x + y) ∷ added xs ys
added _ _ = []

add_zero : (n : ℕ) → n + 0 ≡ n
add_zero n = omega arith

add_suc : (n j : ℕ) → n + suc j ≡ suc n + j
add_suc n j = omega arith

module _ {ℓ} {A : Type ℓ} where
  count_if-append :
      (p : A → Bool) (xs ys : List A) → count_if p (xs ++ ys) ≡ count_if p xs + count_if p ys
  unfolding count_if
  count_if-append p [] ys = omega arith
  count_if-append p (x ∷ xs) ys = ground (arith, count_if-append p xs ys)

  keep-append : (p : A → Bool) (xs ys : List A) → keep p (xs ++ ys) ≡ keep p xs ++ keep p ys
  keep-append p [] ys = refl
  keep-append p (x ∷ xs) ys = ground (arith, keep-append p xs ys)

  length-keep :
      (p : A → Bool) (xs : List A) → count_if p xs + length (keep (λ e. not (p e)) xs) ≡ length xs
  unfolding count_if
  length-keep p [] = omega arith
  length-keep p (x ∷ xs) = ground (arith, length-keep p xs)

module _ {F : Type 0} ⦃finites : Finite F⦄ where
  pub tally-append :
      (bounds xs ys : List F) → tally bounds (xs ++ ys) ≡ added (tally bounds xs) (tally bounds ys)
  unfolding tally
  tally-append [] xs ys = rw (length-append xs ys) refl
  tally-append (b ∷ bs) xs ys =
      rw
        (
          count_if-append (λ e. finites.le e b) xs ys,
          keep-append (λ e. not (finites.le e b)) xs ys,
          tally-append bs (keep (λ e. not (finites.le e b)) xs)
              (keep (λ e. not (finites.le e b)) ys),
        )
        refl

  pub length-tally : (bounds events : List F) → length (tally bounds events) ≡ suc (length bounds)
  unfolding tally
  length-tally [] events = refl
  length-tally (b ∷ bs) events = ap suc (length-tally bs (keep (λ e. not (finites.le e b)) events))

  pub total-tally : (bounds events : List F) → total (tally bounds events) ≡ length events
  unfolding tally total
  total-tally [] events = omega arith
  total-tally (b ∷ bs) events = omega (
    arith,
    total-tally bs (keep (λ e. not (finites.le e b)) events),
    length-keep (λ e. finites.le e b) events,
  )

  -- No events leave only empty buckets.
  pub tally-nil : (bounds : List F) (j c : ℕ) → get_elem? (tally bounds []) j ≡ some c → c ≡ 0
  unfolding tally count_if
  tally-nil [] zero c h = ground arith
  tally-nil [] (suc j) c h = cc
  tally-nil (b ∷ bs) zero c h = ground arith
  tally-nil (b ∷ bs) (suc j) c h = tally-nil bs j c h

  -- If each column sums to the entry of a list, the sums are that list.
  pub bucket_sums-list :
      (samples : List (HistogramSample F)) (counts : List ℕ) (index : ℕ)
      → ((j c : ℕ) → get_elem? counts j ≡ some c → bucket_sum (index + j) samples ≡ ok c)
      → bucket_sums (length counts) index samples ≡ ok counts
  unfolding bucket_sums
  bucket_sums-list samples [] index h = refl
  bucket_sums-list samples (c ∷ cs) index h =
      rw
        (
          subst (λ k. bucket_sum k samples ≡ ok c) (add_zero index) (h 0 c refl),
          bucket_sums-list samples cs (suc index)
              (λ j d e. subst (λ k. bucket_sum k samples ≡ ok d) (add_suc index j) (h (suc j) d e)),
        )
        refl

pub get-added :
    (xs ys : List ℕ) (j c : ℕ)
    → get_elem? (added xs ys) j ≡ some c
    → (a : ℕ) × (b : ℕ) × (get_elem? xs j ≡ some a) × (get_elem? ys j ≡ some b) × (c ≡ a + b)
get-added (x ∷ xs) (y ∷ ys) zero c h = (x, y, refl, refl, ground arith)
get-added (x ∷ xs) (y ∷ ys) (suc j) c h = get-added xs ys j c h
get-added [] ys j c h = absurd (ground arith)
get-added (x ∷ xs) [] j c h = absurd (ground arith)
