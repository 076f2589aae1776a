-- ===== src/Contracts/QualificationPolicy.antt =====
-- packages/contracts/src/robotics_runtime_contracts/qualification_policy.py
--
-- A frozenset of codes is the list of its codes: only membership and emptiness are read.
pub mod Channels
pub mod Clocks
mod Tests
use robotics_runtime.Base.{
  ℕ, String, Bool, false, not, ◌&&◌, Option, none, some, List, [], ◌∷◌, ◌++◌, str_eq, leb,
  if◌then◌else◌, Result, ok, err, ◌>>=◌, ◌>>◌, raise_if, any, all, keep,
}
use robotics_runtime.Base.Float
use robotics_runtime.Base.Float.{Float, Finite}

-- `x in xs`
abbrev pub contains : String → List String → Bool
contains x xs = any (λ y. str_eq x y) xs

pub data ChannelObservationStatus : Type 0 where
  passed failed incomplete error : ChannelObservationStatus

-- `CHANNEL_ERROR_VIOLATIONS`
unfoldable pub error_violations : List String
error_violations =
    "ambiguous_message_id" ∷ "invalid_observation" ∷ "observation_window_exceeded" ∷ []

-- `CHANNEL_INCOMPLETE_VIOLATIONS`
unfoldable pub incomplete_violations : List String
incomplete_violations = "insufficient_messages" ∷ []

pub channel_observation_status : List String → ChannelObservationStatus
channel_observation_status [] = passed
channel_observation_status (c ∷ cs) =
    let codes = c ∷ cs in
    if any (λ x. contains x error_violations) codes
    then error
    else if all (λ x. contains x incomplete_violations) codes
    then incomplete
    else failed

-- The members of `delivery` that are read.
pub record Delivery (F : Type 0) : Type 0 where
  pub minimum_source_messages : ℕ
  pub max_loss_ratio : Float F
  pub max_duplicate_count : ℕ
  pub max_out_of_order_count : ℕ
  pub max_message_age_ms : Float F
  pub observation_window_sec : Float F

-- The measured counters of `derive_channel_violations`.
pub record Measured (F : Type 0) : Type 0 where
  pub sent_count : ℕ
  pub loss_ratio : Float F
  pub duplicate_count : ℕ
  pub out_of_order_count : ℕ
  pub max_message_age_ms : Float F
  pub observation_duration_sec : Float F

-- The members of the time policy and of the observation that a hardware clock is held to.
pub record ClockLimits (F : Type 0) : Type 0 where
  pub time_authority_min_samples : ℕ
  pub max_clock_offset_ms : Float F
  pub max_clock_drift_ppm : Float F
  pub max_message_age_ms : Float F

pub record ClockObservation (F : Type 0) : Type 0 where
  pub sample_count : ℕ
  pub offset_ms : Float F
  pub drift_ppm : Float F
  pub max_sample_age_ms : Float F

-- `{code for code, passed in checks if not passed}`
unfoldable pub failing : List (String × Bool) → List String
failing [] = []
failing ((code, fits) ∷ rest) = let codes = failing rest in if fits then codes else code ∷ codes

module _ {F : Type 0} ⦃finites : Finite F⦄ where
  -- the pairs of a code and of what the code is missing for
  unfoldable pub checks : Delivery F → Measured F → List (String × Bool)
  checks delivery m =
      ("insufficient_messages", leb delivery.minimum_source_messages m.sent_count)
      ∷ ("loss_ratio_exceeded", Float.le m.loss_ratio delivery.max_loss_ratio)
      ∷ ("duplicate_count_exceeded", leb m.duplicate_count delivery.max_duplicate_count)
      ∷ ("out_of_order_count_exceeded", leb m.out_of_order_count delivery.max_out_of_order_count)
      ∷ ("message_age_exceeded", Float.le m.max_message_age_ms delivery.max_message_age_ms)
      ∷ (
        "observation_window_exceeded",
        Float.le m.observation_duration_sec delivery.observation_window_sec,
      )
      ∷ []

  pub derive_channel_violations : Delivery F → Measured F → List String → List String
  derive_channel_violations delivery measured reported =
      failing (checks delivery measured) ++ keep (λ c. contains c error_violations) reported

  unfoldable pub hardware_clock_within_policy : ClockLimits F → ClockObservation F → Bool → Bool
  hardware_clock_within_policy time_policy observation monotonic =
      monotonic
      && (leb time_policy.time_authority_min_samples observation.sample_count
          && (Float.le (Float.abs observation.offset_ms) time_policy.max_clock_offset_ms
              && (Float.le (Float.abs observation.drift_ppm) time_policy.max_clock_drift_ppm
                  && Float.le observation.max_sample_age_ms time_policy.max_message_age_ms)))

-- `relation["shared_clock_identity"]`
pub record SharedClockIdentity : Type 0 where
  pub source_observation_sha256 : String
  pub destination_observation_sha256 : String

pub record ClockRelation : Type 0 where
  pub evidence_sha256 : String
  pub method : String
  pub source_domain_id : String
  pub destination_domain_id : String
  pub shared_clock_identity : Option SharedClockIdentity

-- `evidence_sha256_by_domain`
abbrev pub EvidenceByDomain : Type 0
EvidenceByDomain = List (String × List String)

pub data EvidenceError : Type 0 where
  unretained_evidence source_not_retained destination_not_retained : EvidenceError
  -- the `KeyError` of `relation["shared_clock_identity"]`
  missing_identity : EvidenceError

-- `evidence_sha256_by_domain.get(domain_id)`
pub domain_evidence : EvidenceByDomain → String → Option (List String)
domain_evidence [] domain = none
domain_evidence ((d, digests) ∷ rest) domain =
    if str_eq d domain then some digests else domain_evidence rest domain

-- `domain_evidence is None or identity[field] not in domain_evidence`, negated
pub retained_by : EvidenceByDomain → String → String → Bool
retained_by evidence domain digest = elim (domain_evidence evidence domain) [
  | none ↦ false
  | some ds ↦ contains digest ds
]

-- `set().union(*evidence_sha256_by_domain.values())`, asked for one digest
retained : EvidenceByDomain → String → Bool
retained evidence digest = any (λ entry. contains digest entry.1) evidence

-- the loop over the two endpoints
check_owners :
    ClockRelation → EvidenceByDomain → SharedClockIdentity → Result EvidenceError (Unit {0})
check_owners relation evidence identity = do
  raise_if (not (retained_by evidence relation.source_domain_id identity.source_observation_sha256))
      source_not_retained
  raise_if
      (not (
        retained_by evidence relation.destination_domain_id
          identity.destination_observation_sha256))
      destination_not_retained

pub validate_clock_relation_evidence :
    ClockRelation → EvidenceByDomain → Result EvidenceError (Unit {0})
validate_clock_relation_evidence relation evidence = do
  raise_if (not (retained evidence relation.evidence_sha256)) unretained_evidence
  if not (str_eq relation.method "shared_clock_identity")
      then ok tt
      else elim relation.shared_clock_identity [
        | none ↦ err missing_identity
        | some identity ↦ check_owners relation evidence identity
      ]
