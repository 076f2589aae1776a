-- ===== src/Contracts/QualificationPolicy/Tests.antt =====
-- Small deliveries and clock relations, and the theorems at them.
use robotics_runtime.Base.{ℕ, String, ◌≡◌, refl, ◌≢◌, ◌↔◌, ◌⊎◌, true, false, some, [], ◌∷◌, ok, any}
use robotics_runtime.Base.Float
use robotics_runtime.Base.Float.{Float, Finite, naturals}
use robotics_runtime.Contracts.QualificationPolicy.{
  contains, passed, failed, incomplete, error, error_violations, incomplete_violations,
  channel_observation_status, Delivery, Measured, failing, checks, derive_channel_violations,
  SharedClockIdentity, ClockRelation, EvidenceByDomain, validate_clock_relation_evidence,
  domain_evidence, retained_by, retained, check_owners,
}
use robotics_runtime.Contracts.QualificationPolicy.Channels.{
  WithinLimits, derive-passed_iff, derive-error_iff,
}
use robotics_runtime.Contracts.QualificationPolicy.Clocks.{IsRetained, Owns, validate-ok_iff}

abbrev delivery : Delivery ℕ
delivery = record {
  minimum_source_messages = 10;
  max_loss_ratio = Float.finite 2;
  max_duplicate_count = 0;
  max_out_of_order_count = 1;
  max_message_age_ms = Float.finite 50;
  observation_window_sec = Float.finite 30;
}

abbrev measured : Measured ℕ
measured = record {
  sent_count = 4;
  loss_ratio = Float.finite 1;
  duplicate_count = 0;
  out_of_order_count = 0;
  max_message_age_ms = Float.finite 20;
  observation_duration_sec = Float.finite 10;
}

channel_runs :
    (channel_observation_status (derive_channel_violations delivery measured []) ≡ incomplete)
    × (channel_observation_status
          (derive_channel_violations delivery measured ("invalid_observation" ∷ []))
        ≡ error)
    × (channel_observation_status
          (derive_channel_violations delivery (record measured { duplicate_count = 1 }) [])
        ≡ failed)
unfolding channel_observation_status derive_channel_violations failing checks error_violations
    incomplete_violations
channel_runs = (refl, refl, refl)

derive-passed_iff_example :
    (channel_observation_status (derive_channel_violations delivery measured ("x" ∷ [])) ≡ passed)
    ↔ (WithinLimits delivery measured × (any (λ c. contains c error_violations) ("x" ∷ []) ≡ false))
derive-passed_iff_example = derive-passed_iff delivery measured ("x" ∷ [])

derive-error_iff_example :
    (channel_observation_status (derive_channel_violations delivery measured ("x" ∷ [])) ≡ error)
    ↔ ((Float.le {F = ℕ} (Float.finite 10) (Float.finite 30) ≡ false)
        ⊎ (any (λ c. contains c error_violations) ("x" ∷ []) ≡ true))
derive-error_iff_example = derive-error_iff delivery measured ("x" ∷ [])

abbrev relation : ClockRelation
relation = record {
  evidence_sha256 = "e1";
  method = "shared_clock_identity";
  source_domain_id = "robot";
  destination_domain_id = "base";
  shared_clock_identity =
      some (record { source_observation_sha256 = "e2"; destination_observation_sha256 = "e3" });
}

abbrev evidence : EvidenceByDomain
evidence = ("robot", "e1" ∷ "e2" ∷ []) ∷ ("base", "e3" ∷ []) ∷ []

relation_runs : validate_clock_relation_evidence relation evidence ≡ ok tt
unfolding validate_clock_relation_evidence check_owners retained retained_by domain_evidence
relation_runs = refl

validate-ok_iff_example : (validate_clock_relation_evidence relation evidence ≡ ok tt) ↔ (
    IsRetained evidence "e1"
    × ((◌≢◌ {A = String} "shared_clock_identity" "shared_clock_identity")
        ⊎ ((identity : SharedClockIdentity) × (relation.shared_clock_identity ≡ some identity)
            × Owns evidence "robot" identity.source_observation_sha256
            × Owns evidence "base" identity.destination_observation_sha256)))
validate-ok_iff_example = validate-ok_iff relation evidence
