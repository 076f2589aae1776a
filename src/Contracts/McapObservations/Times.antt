-- ===== src/Contracts/McapObservations/Times.antt =====
-- The least and the greatest log time of the messages among some records.
use robotics_runtime.Base.{
  ℕ, ◌≤◌, min, max, ◌≡◌, refl, ◌∙◌, subst, ◌⊎◌, inl, inr, Option, none, some, List, [], ◌∷◌, arith,
  All, Any,
}
use robotics_runtime.Contracts.McapObservations.{
  McapRecord, schema, channel, message, attachment, metadata, data_end, other, earliest,
}

module _ {Body : Type 0} where
  -- The least and the greatest log time of the messages, after a first one.
  abbrev pub least_time : Option ℕ → List (McapRecord Body) → Option ℕ
  least_time t [] = t
  least_time t (message c u ∷ rs) = least_time (some (earliest t u)) rs
  least_time t (_ ∷ rs) = least_time t rs

  abbrev pub greatest_time : ℕ → List (McapRecord Body) → ℕ
  greatest_time t [] = t
  greatest_time t (message c u ∷ rs) = greatest_time (max t u) rs
  greatest_time t (_ ∷ rs) = greatest_time t rs

pub least_time-cons :
    {Body : Type 0} (t : Option ℕ) (r : McapRecord Body) (rs : List (McapRecord Body))
    → least_time t (r ∷ rs) ≡ least_time (least_time t (r ∷ [])) rs
least_time-cons t (message c u) rs = refl
least_time-cons t _ rs = refl

pub greatest_time-cons :
    {Body : Type 0} (t : ℕ) (r : McapRecord Body) (rs : List (McapRecord Body))
    → greatest_time t (r ∷ rs) ≡ greatest_time (greatest_time t (r ∷ [])) rs
greatest_time-cons t (message c u) rs = refl
greatest_time-cons t _ rs = refl

-- The log times of the messages.
abbrev pub log_times : {Body : Type 0} → List (McapRecord Body) → List ℕ
log_times [] = []
log_times (message c t ∷ rs) = t ∷ log_times rs
log_times (_ ∷ rs) = log_times rs

-- the time that stands for a start
abbrev pub start_ns : Option ℕ → ℕ
start_ns none = 0
start_ns (some t) = t

pub greatest_time-bound :
    {Body : Type 0} (t : ℕ) (rs : List (McapRecord Body))
    → (t ≤ greatest_time t rs) × All (λ u. u ≤ greatest_time t rs) (log_times rs)
greatest_time-bound t [] = (omega arith, tt)
greatest_time-bound t (message c u ∷ rs) =
    let (l, h) = greatest_time-bound (max t u) rs in (omega (arith, l), (omega (arith, l), h))
greatest_time-bound t (schema _ ∷ rs) = greatest_time-bound t rs
greatest_time-bound t (channel _ ∷ rs) = greatest_time-bound t rs
greatest_time-bound t (attachment ∷ rs) = greatest_time-bound t rs
greatest_time-bound t (metadata ∷ rs) = greatest_time-bound t rs
greatest_time-bound t (data_end ∷ rs) = greatest_time-bound t rs
greatest_time-bound t (other ∷ rs) = greatest_time-bound t rs

pub least_time-bound :
    {Body : Type 0} (t : ℕ) (rs : List (McapRecord Body))
    → (start_ns (least_time (some t) rs) ≤ t)
      × All (λ u. start_ns (least_time (some t) rs) ≤ u) (log_times rs)
least_time-bound t [] = (omega arith, tt)
least_time-bound t (message c u ∷ rs) =
    let (l, h) = least_time-bound (min t u) rs in (omega (arith, l), (omega (arith, l), h))
least_time-bound t (schema _ ∷ rs) = least_time-bound t rs
least_time-bound t (channel _ ∷ rs) = least_time-bound t rs
least_time-bound t (attachment ∷ rs) = least_time-bound t rs
least_time-bound t (metadata ∷ rs) = least_time-bound t rs
least_time-bound t (data_end ∷ rs) = least_time-bound t rs
least_time-bound t (other ∷ rs) = least_time-bound t rs

pub first_time-bound :
    {Body : Type 0} (rs : List (McapRecord Body))
    → All (λ u. start_ns (least_time none rs) ≤ u) (log_times rs)
first_time-bound [] = tt
first_time-bound (message c u ∷ rs) = least_time-bound u rs
first_time-bound (schema _ ∷ rs) = first_time-bound rs
first_time-bound (channel _ ∷ rs) = first_time-bound rs
first_time-bound (attachment ∷ rs) = first_time-bound rs
first_time-bound (metadata ∷ rs) = first_time-bound rs
first_time-bound (data_end ∷ rs) = first_time-bound rs
first_time-bound (other ∷ rs) = first_time-bound rs

pub min_cases : (t u : ℕ) → (t ≡ min t u) ⊎ (u ≡ min t u)
min_cases t u = ground arith

pub max_cases : (t u : ℕ) → (t ≡ max t u) ⊎ (u ≡ max t u)
max_cases t u = ground arith

-- A bound that is one of two times is one of the times.
pub one_of :
    (t u m x : ℕ) (us : List ℕ)
    → (t ≡ m) ⊎ (u ≡ m)
    → Any (λ v. v ≡ x) (m ∷ us)
    → Any (λ v. v ≡ x) (t ∷ u ∷ us)
one_of t u m x us (inl e) (inl f) = inl (e ∙ f)
one_of t u m x us (inr e) (inl f) = inr (inl (e ∙ f))
one_of t u m x us side (inr rest) = inr (inr rest)

pub least_time-member :
    {Body : Type 0} (t : ℕ) (rs : List (McapRecord Body))
    → Any (λ u. u ≡ start_ns (least_time (some t) rs)) (t ∷ log_times rs)
least_time-member t [] = inl refl
least_time-member t (message c u ∷ rs) =
    one_of t u (min t u) _ (log_times rs) (min_cases t u) (least_time-member (min t u) rs)
least_time-member t (schema _ ∷ rs) = least_time-member t rs
least_time-member t (channel _ ∷ rs) = least_time-member t rs
least_time-member t (attachment ∷ rs) = least_time-member t rs
least_time-member t (metadata ∷ rs) = least_time-member t rs
least_time-member t (data_end ∷ rs) = least_time-member t rs
least_time-member t (other ∷ rs) = least_time-member t rs

pub greatest_time-member :
    {Body : Type 0} (t : ℕ) (rs : List (McapRecord Body))
    → Any (λ u. u ≡ greatest_time t rs) (t ∷ log_times rs)
greatest_time-member t [] = inl refl
greatest_time-member t (message c u ∷ rs) =
    one_of t u (max t u) _ (log_times rs) (max_cases t u) (greatest_time-member (max t u) rs)
greatest_time-member t (schema _ ∷ rs) = greatest_time-member t rs
greatest_time-member t (channel _ ∷ rs) = greatest_time-member t rs
greatest_time-member t (attachment ∷ rs) = greatest_time-member t rs
greatest_time-member t (metadata ∷ rs) = greatest_time-member t rs
greatest_time-member t (data_end ∷ rs) = greatest_time-member t rs
greatest_time-member t (other ∷ rs) = greatest_time-member t rs

-- A time that is reached is 0 where there are no messages, and the log time of one otherwise.
abbrev pub IsReached : ℕ → List ℕ → Type 0
IsReached t [] = t ≡ 0
IsReached t (u ∷ us) = Any (λ v. v ≡ t) (u ∷ us)

pub start-IsReached :
    {Body : Type 0} (rs : List (McapRecord Body))
    → IsReached (start_ns (least_time none rs)) (log_times rs)
start-IsReached [] = refl
start-IsReached (message c u ∷ rs) = least_time-member u rs
start-IsReached (schema _ ∷ rs) = start-IsReached rs
start-IsReached (channel _ ∷ rs) = start-IsReached rs
start-IsReached (attachment ∷ rs) = start-IsReached rs
start-IsReached (metadata ∷ rs) = start-IsReached rs
start-IsReached (data_end ∷ rs) = start-IsReached rs
start-IsReached (other ∷ rs) = start-IsReached rs

pub end-IsReached :
    {Body : Type 0} (rs : List (McapRecord Body)) → IsReached (greatest_time 0 rs) (log_times rs)
end-IsReached [] = refl
end-IsReached (message c u ∷ rs) =
    subst (λ t. Any (λ v. v ≡ greatest_time t rs) (u ∷ log_times rs)) (omega arith)
      (greatest_time-member u rs)
end-IsReached (schema _ ∷ rs) = end-IsReached rs
end-IsReached (channel _ ∷ rs) = end-IsReached rs
end-IsReached (attachment ∷ rs) = end-IsReached rs
end-IsReached (metadata ∷ rs) = end-IsReached rs
end-IsReached (data_end ∷ rs) = end-IsReached rs
end-IsReached (other ∷ rs) = end-IsReached rs
