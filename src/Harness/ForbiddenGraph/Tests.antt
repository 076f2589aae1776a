-- ===== src/Harness/ForbiddenGraph/Tests.antt =====
-- A window of two snapshots, one with a forbidden publisher.
use robotics_runtime.Base.{ℕ, ◌≡◌, refl, ◌↔◌, true, false, none, [], ◌∷◌, any}
use robotics_runtime.Harness.ForbiddenGraph.{
  GraphSnapshot, ForbiddenNames, topic, ForbiddenGraphViolation, violation_eq, passed, monitor_of,
  observe_all, result,
}
use robotics_runtime.Harness.ForbiddenGraph.Observed.{exhibits, any-result, passed_iff}

abbrev forbidden : ForbiddenNames
forbidden = record { topics = "/cmd_vel" ∷ []; services = "/arm" ∷ []; actions = [] }

abbrev snapshot : ℕ → ℕ → GraphSnapshot
snapshot at publishers = record {
  observed_at_ns = at;
  topics =
      (
        "/cmd_vel",
        record {
          types = [];
          publishers = publishers;
          subscribers = 1;
          first_message_at_ns = none;
          qos_compatible = true;
        },
      )
      ∷ [];
  services = [];
  actions = [];
  lifecycle_nodes = [];
  node_names = none;
}

reported :
    (result (
      observe_all
        (monitor_of forbidden)
        (snapshot 1 0 ∷ snapshot 2 1 ∷ snapshot 3 0 ∷ []))).violations
    ≡ (topic, "/cmd_vel") ∷ []
unfolding observe_all result
reported = refl

any-result_example :
    any
      (violation_eq (topic, "/cmd_vel"))
      (result (observe_all (monitor_of forbidden) (snapshot 1 0 ∷ snapshot 2 1 ∷ []))).violations
    ≡ any (exhibits forbidden (topic, "/cmd_vel")) (snapshot 1 0 ∷ snapshot 2 1 ∷ [])
any-result_example = any-result forbidden (snapshot 1 0 ∷ snapshot 2 1 ∷ []) (topic, "/cmd_vel")

passed_iff_example :
    (passed (result (observe_all (monitor_of forbidden) (snapshot 1 0 ∷ []))) ≡ true)
    ↔ ((v : ForbiddenGraphViolation) → any (exhibits forbidden v) (snapshot 1 0 ∷ []) ≡ false)
passed_iff_example = passed_iff forbidden (snapshot 1 0 ∷ [])
