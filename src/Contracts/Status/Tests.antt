-- ===== src/Contracts/Status/Tests.antt =====
-- Lists of statuses, and the theorems at them.
use robotics_runtime.Base.{
  ◌≤◌, ◌≡◌, refl, true, false, [], ◌∷◌, map, str_eq, if◌then◌else◌, ok, err, ◌>>=◌, All, Any,
}
use mathlib.Core.List.Perm
use robotics_runtime.Contracts.Status.{
  OutcomeStatus, passed, skipped, failed, unknown_status, no_status, value, outcome_status,
  priority, greatest, is_cancelled, worst_status,
}
use robotics_runtime.Contracts.Status.Laws.{
  worst_status_greatest, worst_status_collapse, worst_status-perm,
}

worst_status_runs :
    (worst_status ("passed" ∷ "failed" ∷ "skipped" ∷ []) false ≡ ok "failed")
    × (worst_status ("cancelled" ∷ "passed" ∷ []) true ≡ ok "incomplete")
    × (worst_status ("passed" ∷ "PASSED" ∷ []) true ≡ err unknown_status)
    × (worst_status [] true ≡ err no_status)
unfolding worst_status value outcome_status greatest priority is_cancelled
worst_status_runs = (refl, refl, refl, refl)

worst_status_greatest_example :
    (w : OutcomeStatus) × (worst_status (map value (passed ∷ failed ∷ skipped ∷ [])) false
      ≡ ok (value w))
    × Any (λ x. x ≡ w) (passed ∷ failed ∷ skipped ∷ [])
    × All (λ x. priority x ≤ priority w) (passed ∷ failed ∷ skipped ∷ [])
worst_status_greatest_example = worst_status_greatest passed (failed ∷ skipped ∷ [])

worst_status_collapse_example : worst_status ("cancelled" ∷ "passed" ∷ []) true ≡ (
    worst_status ("cancelled" ∷ "passed" ∷ []) false >>= λ s.
    ok (if str_eq s "cancelled" then "incomplete" else s))
worst_status_collapse_example = worst_status_collapse ("cancelled" ∷ "passed" ∷ [])

worst_status-perm_example :
    worst_status ("failed" ∷ "error" ∷ []) true ≡ worst_status ("error" ∷ "failed" ∷ []) true
worst_status-perm_example =
    worst_status-perm true ("failed" ∷ "error" ∷ []) ("error" ∷ "failed" ∷ [])
      (Perm.swap "error" "failed" [])
