-- ===== src/Contracts/Status.antt =====
-- packages/contracts/src/robotics_runtime_contracts/status.py
pub mod Laws
mod Tests
use robotics_runtime.Base.{
  ℕ, String, Bool, true, false, ◌&&◌, Option, none, some, List, [], ◌∷◌, str_eq, ltb, if◌then◌else◌,
  Result, ok, err, ◌>>=◌,
}

pub data OutcomeStatus : Type 0 where
  passed skipped cancelled incomplete failed error : OutcomeStatus

-- `status.value`
pub value : OutcomeStatus → String
value passed = "passed"
value skipped = "skipped"
value cancelled = "cancelled"
value incomplete = "incomplete"
value failed = "failed"
value error = "error"

-- `OutcomeStatus(status)`; `none` is the `ValueError`
outcome_status : String → Option OutcomeStatus
outcome_status s =
    if str_eq s "passed"
    then some passed
    else if str_eq s "skipped"
    then some skipped
    else if str_eq s "cancelled"
    then some cancelled
    else if str_eq s "incomplete"
    then some incomplete
    else if str_eq s "failed"
    then some failed
    else if str_eq s "error"
    then some error
    else none

-- `_PRIORITY`
pub priority : OutcomeStatus → ℕ
priority passed = 0
priority skipped = 1
priority cancelled = 2
priority incomplete = 3
priority failed = 4
priority error = 5

-- The two causes of `ContractError(error_id="status.invalid")`.
pub data StatusError : Type 0 where
  unknown_status no_status : StatusError

-- `tuple(OutcomeStatus(status) for status in statuses)`
parse_all : List String → Result StatusError (List OutcomeStatus)
parse_all [] = ok []
parse_all (s ∷ rest) = elim (outcome_status s) [
  | none ↦ err unknown_status
  | some v ↦ (do vs ← parse_all rest; ok (v ∷ vs))
]

-- `max(values, key=_PRIORITY.__getitem__)`, from the first value on: the first greatest one
greatest : OutcomeStatus → List OutcomeStatus → OutcomeStatus
greatest best [] = best
greatest best (v ∷ rest) = greatest (if ltb (priority best) (priority v) then v else best) rest

is_cancelled : OutcomeStatus → Bool
is_cancelled cancelled = true
is_cancelled _ = false

-- the statements behind the conversion of the statuses
worst_of : List OutcomeStatus → Bool → Result StatusError String
worst_of [] collapse_cancelled = err no_status
worst_of (v ∷ vs) collapse_cancelled =
    let status = greatest v vs in
    if collapse_cancelled && is_cancelled status then ok (value incomplete) else ok (value status)

pub worst_status : List String → Bool → Result StatusError String
unfolding parse_all worst_of
worst_status statuses collapse_cancelled = do
  values ← parse_all statuses
  worst_of values collapse_cancelled
