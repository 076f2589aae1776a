-- ===== src/Contracts/QualificationPolicy/Clocks.antt =====
-- When a clock relation rests on retained evidence, and when a hardware clock is within policy.
use robotics_runtime.Base.{
  String, ◌≡◌, ◌≢◌, ◌↔◌, ◌⊎◌, inl, inr, true, false, some, List, arith, str_eq, eq_iff,
  Option-cases, ok, Any, any_iff,
}
use robotics_runtime.Contracts.QualificationPolicy.{
  contains, SharedClockIdentity, ClockRelation, EvidenceByDomain, domain_evidence, retained_by,
  retained, check_owners, validate_clock_relation_evidence,
}

-- Some domain retains the digest.
abbrev pub IsRetained : EvidenceByDomain → String → Type 0
IsRetained evidence digest = Any (λ entry. Any (λ d. digest ≡ d) entry.1) evidence

-- The domain's own evidence, its first entry, retains the digest.
pub record Owns (evidence : EvidenceByDomain) (domain digest : String) : Type 0 where
  pub digests : List String
  pub listed : domain_evidence evidence domain ≡ some digests
  pub member : Any (λ d. digest ≡ d) digests

contains-Any : (x : String) (xs : List String) → (contains x xs ≡ true) ↔ Any (λ d. x ≡ d) xs
contains-Any x xs = any_iff (λ d. x ≡ d) (str_eq x) (eq_iff x) xs

retained-IsRetained : (e : EvidenceByDomain) (x : String) → (retained e x ≡ true) ↔ IsRetained e x
unfolding retained
retained-IsRetained e x = any_iff _ _ (λ entry. contains-Any x entry.1) e

Owns-of : (e : EvidenceByDomain) (d x : String) → retained_by e d x ≡ true → Owns e d x
unfolding retained_by
Owns-of e d x h = elim (Option-cases (domain_evidence e d)) [
  | inl absent ↦ absurd (ground arith)
  | inr (ds, listed) ↦ record {
    digests = ds;
    listed = listed;
    member = (contains-Any x ds).0 (ground arith);
  }
]

retained_by-of-Owns : (e : EvidenceByDomain) (d x : String) → Owns e d x → retained_by e d x ≡ true
unfolding retained_by
retained_by-of-Owns e d x o = rw (o.listed, retained_by) ((contains-Any x o.digests).1 o.member)

-- What the tests of an accepted relation say.
abbrev Tests : ClockRelation → EvidenceByDomain → Type 0
Tests r e =
    (retained e r.evidence_sha256 ≡ true)
    × ((str_eq r.method "shared_clock_identity" ≡ false)
        ⊎ ((identity : SharedClockIdentity) × (r.shared_clock_identity ≡ some identity)
            × (retained_by e r.source_domain_id identity.source_observation_sha256 ≡ true)
            × (retained_by e r.destination_domain_id identity.destination_observation_sha256
                ≡ true)))

Tests-of-ok :
    (r : ClockRelation) (e : EvidenceByDomain)
    → validate_clock_relation_evidence r e ≡ ok tt
    → Tests r e
unfolding validate_clock_relation_evidence check_owners
Tests-of-ok r e h = ground arith

ok-of-Tests :
    (r : ClockRelation) (e : EvidenceByDomain)
    → Tests r e
    → validate_clock_relation_evidence r e ≡ ok tt
unfolding validate_clock_relation_evidence check_owners
ok-of-Tests r e h = ground arith

-- A relation is accepted exactly when its own evidence is retained and, if it claims one shared
-- clock, it names an identity whose two observations are retained by their own domains.
pub validate-ok_iff :
    (relation : ClockRelation) (evidence : EvidenceByDomain)
    → (validate_clock_relation_evidence relation evidence ≡ ok tt) ↔ (
        IsRetained evidence relation.evidence_sha256
        × ((relation.method ≢ "shared_clock_identity")
            ⊎ ((identity : SharedClockIdentity) × (relation.shared_clock_identity ≡ some identity)
                × Owns evidence relation.source_domain_id identity.source_observation_sha256
                × Owns evidence relation.destination_domain_id
                    identity.destination_observation_sha256)))
validate-ok_iff r e = (
  λ h.
      let (kept, rest) = Tests-of-ok r e h in
      (
        (retained-IsRetained e _).0 kept,
        elim rest [
          | inl other ↦ inl (λ same. ground (arith, eq_iff r.method "shared_clock_identity"))
          | inr (i, known, s, d) ↦ inr (i, known, Owns-of e _ _ s, Owns-of e _ _ d)
        ],
      ),
  λ (kept, rest). ok-of-Tests r e (
    (retained-IsRetained e _).1 kept,
    elim rest [
      | inl other ↦ inl (ground (arith, eq_iff r.method "shared_clock_identity"))
      | inr (i, known, s, d) ↦
          inr (i, known, retained_by-of-Owns e _ _ s, retained_by-of-Owns e _ _ d)
    ],
  ),
)
