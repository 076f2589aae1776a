-- ===== src/Contracts/Status/Laws.antt =====
-- What the worst status of a run is, whatever the order of the statuses.
use robotics_runtime.Base.{
  ℕ, zero, suc, ◌≤◌, ◌<◌, max, String, ◌≡◌, refl, sym, ap, ◌∙◌, subst, ◌⊎◌, inl, inr, Bool, true,
  false, ◌&&◌, none, some, List, [], ◌∷◌, map, arith, str_eq, ltb, if◌then◌else◌, Bool-cases,
  Option-cases, Result, ok, err, ◌>>=◌, Result-cases, All, Any,
}
use mathlib.Core.List.{Perm, Permᴰ}
use mathlib.Core.List.Permᴰ.{nil, cons, swap, trans}
use mathlib.Core.Logic.{∥∥₁_elim}
use native.Mathlib.Nat.{ℕ_set}
use robotics_runtime.Contracts.Status.{
  OutcomeStatus, passed, skipped, cancelled, incomplete, failed, error, StatusError, unknown_status,
  no_status, value, outcome_status, priority, parse_all, greatest, is_cancelled, worst_of,
  worst_status,
}

outcome_status-value : (v : OutcomeStatus) → outcome_status (value v) ≡ some v
unfolding outcome_status value
outcome_status-value passed = refl
outcome_status-value skipped = refl
outcome_status-value cancelled = refl
outcome_status-value incomplete = refl
outcome_status-value failed = refl
outcome_status-value error = refl

parse_all-map-value : (vs : List OutcomeStatus) → parse_all (map value vs) ≡ ok vs
unfolding parse_all
parse_all-map-value [] = refl
parse_all-map-value (v ∷ vs) = ground (arith, outcome_status-value v, parse_all-map-value vs)

-- One step keeps the best status so far or moves to the next one, which is strictly worse.
greatest-cons :
    (best v : OutcomeStatus) (vs : List OutcomeStatus)
    → (greatest best (v ∷ vs) ≡ greatest v vs) × (priority best < priority v)
      ⊎ (greatest best (v ∷ vs) ≡ greatest best vs) × (priority v ≤ priority best)
unfolding greatest
greatest-cons best v vs = elim (Bool-cases (ltb (priority best) (priority v))) [
  | inl more ↦ inl (rw more, ground arith)
  | inr less ↦ inr (rw less, ground arith)
]

greatest-mem :
    (best : OutcomeStatus) (vs : List OutcomeStatus) → Any (λ x. x ≡ greatest best vs) (best ∷ vs)
unfolding greatest
greatest-mem best [] = inl refl
greatest-mem best (v ∷ vs) = elim (greatest-cons best v vs) [
  | inl (e, _) ↦ subst (λ g. Any (λ x. x ≡ g) (best ∷ v ∷ vs)) (sym e) (inr (greatest-mem v vs))
  | inr (e, _) ↦
      subst (λ g. Any (λ x. x ≡ g) (best ∷ v ∷ vs)) (sym e)
        (elim (greatest-mem best vs) [ inl h ↦ inl h | inr h ↦ inr (inr h) ])
]

greatest-le :
    (best : OutcomeStatus) (vs : List OutcomeStatus)
    → All (λ x. priority x ≤ priority (greatest best vs)) (best ∷ vs)
unfolding greatest
greatest-le best [] = (omega arith, tt)
greatest-le best (v ∷ vs) = elim (greatest-cons best v vs) [
  | inl (e, more) ↦
      subst (λ g. All (λ x. priority x ≤ priority g) (best ∷ v ∷ vs)) (sym e)
        (let (h, t) = greatest-le v vs in (omega arith, (h, t)))
  | inr (e, less) ↦
      subst (λ g. All (λ x. priority x ≤ priority g) (best ∷ v ∷ vs)) (sym e)
        (let (h, t) = greatest-le best vs in (h, (omega arith, t)))
]

-- From the values of statuses, at least one, the result is the value of one of them that no other
-- exceeds in priority.
pub worst_status_greatest :
    (v : OutcomeStatus) (vs : List OutcomeStatus)
    → (w : OutcomeStatus) × (worst_status (map value (v ∷ vs)) false ≡ ok (value w))
      × Any (λ x. x ≡ w) (v ∷ vs)
      × All (λ x. priority x ≤ priority w) (v ∷ vs)
unfolding worst_status
worst_status_greatest v vs = (
  greatest v vs,
  ap (λ r. r >>= λ values. worst_of values false) (parse_all-map-value (v ∷ vs)),
  greatest-mem v vs,
  greatest-le v vs,
)

collapse_value :
    (w : OutcomeStatus)
    → (if◌then◌else◌ {A = Result StatusError String}
        (is_cancelled w)
        (ok (value incomplete))
        (ok (value w)))
      ≡ (ok (value w) >>= λ s. ok (if str_eq s "cancelled" then "incomplete" else s))
unfolding is_cancelled value
collapse_value passed = refl
collapse_value _ = refl

worst_of_collapse :
    (vs : List OutcomeStatus)
    → worst_of vs true
      ≡ (worst_of vs false >>= λ s. ok (if str_eq s "cancelled" then "incomplete" else s))
unfolding worst_of
worst_of_collapse [] = refl
worst_of_collapse (v ∷ vs) = collapse_value (greatest v vs)

-- Collapsing cancellation turns the result "cancelled" into "incomplete" and changes nothing
-- else.
pub worst_status_collapse :
    (statuses : List String)
    → worst_status statuses true
      ≡ (do s ← worst_status statuses false; ok (if str_eq s "cancelled" then "incomplete" else s))
unfolding worst_status
worst_status_collapse statuses = elim (Result-cases (parse_all statuses)) [
  | inl (vs, e) ↦ rw e (worst_of_collapse vs)
  | inr (x, e) ↦ rw e
]

-- The place of a string in the order: 7 for what is no status at all, and 0 is left for "no string".
place : String → ℕ
place s = elim (outcome_status s) [ none ↦ 7 | some v ↦ suc (priority v) ]

top_place : List String → ℕ
top_place [] = 0
top_place (s ∷ rest) = max (place s) (top_place rest)

at_place : ℕ → Bool → Result StatusError String
at_place zero c = err no_status
at_place (suc zero) c = ok (value passed)
at_place (suc (suc zero)) c = ok (value skipped)
at_place (suc (suc (suc zero))) c = ok (if c then value incomplete else value cancelled)
at_place (suc (suc (suc (suc zero)))) c = ok (value incomplete)
at_place (suc (suc (suc (suc (suc zero))))) c = ok (value failed)
at_place (suc (suc (suc (suc (suc (suc zero)))))) c = ok (value error)
at_place _ c = err unknown_status

abbrev top_priority : List OutcomeStatus → ℕ
top_priority [] = 0
top_priority (v ∷ vs) = max (suc (priority v)) (top_priority vs)

priority-greatest :
    (v : OutcomeStatus) (vs : List OutcomeStatus)
    → top_priority (v ∷ vs) ≡ suc (priority (greatest v vs))
unfolding greatest
priority-greatest v [] = omega arith
priority-greatest v (w ∷ vs) = elim (greatest-cons v w vs) [
  | inl (e, more) ↦ rw e (omega (arith, priority-greatest w vs))
  | inr (e, less) ↦ rw e (omega (arith, priority-greatest v vs))
]

place_value :
    (w : OutcomeStatus) (c : Bool)
    → (if c && is_cancelled w then ok (value incomplete) else ok (value w))
      ≡ at_place (suc (priority w)) c
unfolding is_cancelled value priority at_place
place_value passed true = refl
place_value passed false = refl
place_value _ true = refl
place_value _ false = refl

worst_of-at_place :
    (vs : List OutcomeStatus) (c : Bool) → worst_of vs c ≡ at_place (top_priority vs) c
unfolding worst_of at_place
worst_of-at_place [] c = refl
worst_of-at_place (v ∷ vs) c = rw (priority-greatest v vs) (place_value (greatest v vs) c)

place_le : (s : String) → place s ≤ 7
unfolding place priority
place_le s = ground arith

top_place_le : (ss : List String) → top_place ss ≤ 7
unfolding top_place
top_place_le [] = omega arith
top_place_le (s ∷ rest) = omega (arith, place_le s, top_place_le rest)

parse_all_places :
    (ss : List String)
    → ((vs : List OutcomeStatus) × (parse_all ss ≡ ok vs) × (top_place ss ≡ top_priority vs))
      ⊎ ((parse_all ss ≡ err unknown_status) × (top_place ss ≡ 7))
unfolding parse_all top_place place
parse_all_places [] = inl ([], refl, refl)
parse_all_places (s ∷ rest) = elim (Option-cases (outcome_status s)) [
  | inl unknown ↦ inr (ground arith, ground (arith, top_place_le rest))
  | inr (v, known) ↦ elim (parse_all_places rest) [
    | inl (vs, e, p) ↦ inl (v ∷ vs, ground arith, ground (arith, p))
    | inr (e, p) ↦ inr (ground arith, ground (arith, p, place_le s))
  ]
]

worst_status-at_place :
    (ss : List String) (c : Bool) → worst_status ss c ≡ at_place (top_place ss) c
unfolding worst_status
worst_status-at_place ss c = elim (parse_all_places ss) [
  | inl (vs, e, p) ↦ rw (e, p) (worst_of-at_place vs c)
  | inr (e, p) ↦ rw (e, p) (unfold at_place in refl)
]

top_place-permᴰ : {xs ys : List String} → Permᴰ xs ys → top_place xs ≡ top_place ys
unfolding top_place
top_place-permᴰ nil = refl
top_place-permᴰ (cons e p) = rw (e, top_place-permᴰ p)
top_place-permᴰ (swap e f) = rw (e, f) (omega arith)
top_place-permᴰ (trans p q) = top_place-permᴰ p ∙ top_place-permᴰ q

-- Statuses in any other order, valid or not, give the same result or the same error.
pub worst_status-perm :
    (c : Bool) (xs ys : List String) → Perm xs ys → worst_status xs c ≡ worst_status ys c
worst_status-perm c xs ys p =
    worst_status-at_place xs c
    ∙ ap (λ n. at_place n c) (∥∥₁_elim p (ℕ_set _ _) top_place-permᴰ)
    ∙ sym (worst_status-at_place ys c)
