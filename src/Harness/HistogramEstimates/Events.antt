-- ===== src/Harness/HistogramEstimates/Events.antt =====
-- The events behind a histogram, and what it means that a histogram describes them.
use robotics_runtime.Base.{
  ℕ, ◌≤◌, ◌<◌, ◌≡◌, ◌⊎◌, true, false, not, none, some, List, [], ◌∷◌, map, if◌then◌else◌, length,
  keep, count_if, All, Any,
}
use robotics_runtime.Base.Float
use robotics_runtime.Base.Float.{Float, Finite}
use robotics_runtime.Harness.Samples.{HistogramSample}
use robotics_runtime.Harness.HistogramEstimates.{Estimate, given_negative}

module _ {F : Type 0} ⦃finites : Finite F⦄ where
  -- An event falls into the first bucket whose bound it does not exceed, or into the last one.
  unfoldable pub tally : List F → List F → List ℕ
  tally [] events = length events ∷ []
  tally (b ∷ bs) events =
      count_if (λ e. finites.le e b) events ∷ tally bs (keep (λ e. not (finites.le e b)) events)

  abbrev pub IsLeast : F → List F → Type 0
  IsLeast m events = Any (λ e. e ≡ m) events × All (λ e. finites.le m e ≡ true) events

  abbrev pub IsGreatest : F → List F → Type 0
  IsGreatest m events = Any (λ e. e ≡ m) events × All (λ e. finites.le e m ≡ true) events

  -- The histogram that a list of finite events leaves behind: its extrema may be missing, and a
  -- negative sum needs a negative event.
  pub record Describes (h : HistogramSample F) (bounds events : List F) : Type 0 where
    pub explicit_bounds : h.explicit_bounds ≡ map Float.finite bounds
    pub bucket_counts : h.bucket_counts ≡ tally bounds events
    pub count : h.count ≡ length events
    pub sum : (given_negative h.sum ≡ false) ⊎ Any (λ e. finites.le finites.origin e ≡ false) events
    pub min : (h.min ≡ none) ⊎ ((m : F) × (h.min ≡ some (Float.finite m)) × IsLeast m events)
    pub max : (h.max ≡ none) ⊎ ((m : F) × (h.max ≡ some (Float.finite m)) × IsGreatest m events)

  -- `x` is an event that stands at the place `rank`, counted from 1, in the order of the events.
  pub record IsRank (rank : ℕ) (x : F) (events : List F) : Type 0 where
    pub member : Any (λ e. e ≡ x) events
    pub below : count_if (λ e. not (finites.le x e)) events < rank
    pub upto : rank ≤ count_if (λ e. finites.le e x) events

  -- The interval of an estimate holds the number.
  pub record Contains (e : Estimate F) (x : F) : Type 0 where
    pub above :
        (if e.lower_exclusive
          then Float.lt e.lower (Float.finite x)
          else Float.le e.lower (Float.finite x))
        ≡ true
    pub below : Float.le (Float.finite x) e.upper ≡ true
