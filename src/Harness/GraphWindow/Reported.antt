-- ===== src/Harness/GraphWindow/Reported.antt =====
-- packages/harness/src/robotics_acceptance_harness/graph_window.py: when a measurement has nothing
-- to report.
use robotics_runtime.Base.{
  ℕ, ◌≤◌, ◌<◌, String, ◌≡◌, refl, sym, ◌∙◌, subst, ◌≢◌, ◌↔◌, inl, inr, Bool, true, false, ◌&&◌,
  List, [], ◌∷◌, ◌++◌, ok_injective, bind-ok, arith, leb, ◌==◌, if◌then◌else◌, Bool-cases, if_ind,
  ok, raise_if, any, All, Any,
}
use robotics_runtime.Harness.ForbiddenGraph.{GraphSnapshot}
use robotics_runtime.Harness.Readiness.{
  ExpectedGraph, ReadinessIssue, evaluate_graph, failed, error,
}
use robotics_runtime.Harness.GraphWindow.{
  ExpectedGraphMonitor, GraphAssertion, Detail, no_samples, assertion_id_among, is_error,
  detail_status, monitor_for, expects_something, is_inside, details_of, retain, observe,
  observe_all, reported, assertions, window_duration,
}

append-nil_iff : {A : Type 0} (xs ys : List A) → ((xs ++ ys) ≡ []) ↔ ((xs ≡ []) × (ys ≡ []))
append-nil_iff [] ys = (λ h. (refl, h), λ (_, h). h)
append-nil_iff (x ∷ xs) ys = (λ h. absurd (cc), λ (h, _). absurd (cc))

retained_nonempty :
    {A : Type 0} (p : A → Bool) (held : List A) (x : A)
    → (if any p held then held else held ++ (x ∷ [])) ≢ []
retained_nonempty p [] x = λ h. cc
retained_nonempty p (y ∷ ys) x = if_ind (λ t. t ≢ []) (any p (y ∷ ys)) (λ _ h. cc) (λ _ h. cc)

-- A snapshot of the window has no issue.
pub record IsClean {F : Type 0} (expected : ExpectedGraph F) (start_ns end_ns : ℕ)
    (sn : GraphSnapshot) : Type 0 where
  pub clean :
      start_ns ≤ sn.observed_at_ns → sn.observed_at_ns < end_ns → evaluate_graph expected sn ≡ []

-- A snapshot belongs to the window, whose end is not part of it.
abbrev pub IsSample : ℕ → ℕ → GraphSnapshot → Type 0
IsSample start_ns end_ns sn = (start_ns ≤ sn.observed_at_ns) × (sn.observed_at_ns < end_ns)

module _ {F : Type 0} (same : ReadinessIssue F → ReadinessIssue F → Bool) where
  retain-nil_iff :
      (held : List (ReadinessIssue F × ℕ)) (at : ℕ) (is : List (ReadinessIssue F))
      → (retain same held at is ≡ []) ↔ ((held ≡ []) × (is ≡ []))
  unfolding retain
  retain-nil_iff held at [] = (λ h. (h, refl), λ (h, _). h)
  retain-nil_iff held at (i ∷ is) = (
    λ h. absurd (
        retained_nonempty (λ e. same i e.0) held (i, at)
          ((retain-nil_iff
              (if any (λ entry. same i entry.0) held then held else held ++ ((i, at) ∷ [])) at is).0
            h).0),
    λ (_, h). absurd (cc),
  )

  -- What a snapshot changes, and what it leaves.
  pub record IsStep (m n : ExpectedGraphMonitor F) (sns : List GraphSnapshot) : Type 0 where
    expected : n.expected_graph ≡ m.expected_graph
    start : n.start_ns ≡ m.start_ns
    end : n.end_ns ≡ m.end_ns
    issues :
        (n.issues ≡ []) ↔ ((m.issues ≡ []) × All (IsClean m.expected_graph m.start_ns m.end_ns) sns)
    samples : (n.samples ≡ 0) ↔ ((m.samples ≡ 0) × (Any (IsSample m.start_ns m.end_ns) sns → ⊥))

  inside_parts :
      (m : ExpectedGraphMonitor F) (sn : GraphSnapshot)
      → is_inside m sn ≡ true
      → IsSample m.start_ns m.end_ns sn
  inside_parts m sn h = (ground (arith, h), ground (arith, h))

  observe-IsStep :
      (m : ExpectedGraphMonitor F) (sn : GraphSnapshot) → IsStep m (observe same m sn) (sn ∷ [])
  unfolding observe
  observe-IsStep m sn =
      if_ind (λ n. IsStep m n (sn ∷ [])) (is_inside m sn)
        (λ e.
          let (a, b) = inside_parts m sn e in
          record {
            expected = refl;
            start = refl;
            end = refl;
            issues = (
              λ h.
                  let (c, d) =
                    (retain-nil_iff m.issues sn.observed_at_ns
                        (evaluate_graph m.expected_graph sn)).0
                      h in
                  (c, (record { clean = λ _ _. d }, tt)),
              λ (c, (d, _)).
                  (retain-nil_iff m.issues sn.observed_at_ns (evaluate_graph m.expected_graph sn)).1
                    (c, d.clean a b),
            );
            samples = (λ h. absurd (omega (arith, h)), λ (_, h). absurd (h (inl (a, b))));
          })
        (λ e. record {
          expected = refl;
          start = refl;
          end = refl;
          issues = (
            λ h. (h, (record { clean = λ a b. absurd (ground (arith, e, a, b)) }, tt)),
            λ (h, _). h,
          );
          samples = (
            λ h. (h, λ s. elim s [ inl (a, b) ↦ ground (arith, e, a, b) | inr f ↦ f tt ]),
            λ (h, _). h,
          );
        })

  -- The steps of some snapshots follow on that of one.
  joined :
      {m n k : ExpectedGraphMonitor F} (sn : GraphSnapshot) (sns : List GraphSnapshot)
      → IsStep m n (sn ∷ [])
      → IsStep n k sns
      → IsStep m k (sn ∷ sns)
  joined {m} {n} {k} sn sns a b = record {
    expected = b.expected ∙ a.expected;
    start = b.start ∙ a.start;
    end = b.end ∙ a.end;
    issues = (
      λ h.
          let (c, d) = b.issues.0 h in
          let (e, (f, _)) = a.issues.0 c in (e, (f, subst (λ t. t) cleans d)),
      λ (c, (d, e)). b.issues.1 (a.issues.1 (c, (d, tt)), subst (λ t. t) (sym cleans) e),
    );
    samples = (
      λ h.
          let (c, d) = b.samples.0 h in
          let (e, f) = a.samples.0 c in
          (e, λ s. elim s [ inl x ↦ f (inl x) | inr y ↦ d (subst (λ t. t) (sym inside) y) ]),
      λ (c, d). b.samples.1 (
        a.samples.1 (c, λ s. elim s [ inl x ↦ d (inl x) | inr f ↦ f tt ]),
        λ y. d (inr (subst (λ t. t) inside y)),
      ),
    );
  }
    where
      cleans :
          All (IsClean n.expected_graph n.start_ns n.end_ns) sns
          ≡ All (IsClean m.expected_graph m.start_ns m.end_ns) sns
      cleans i = All (IsClean (a.expected i) (a.start i) (a.end i)) sns

      inside : Any (IsSample n.start_ns n.end_ns) sns ≡ Any (IsSample m.start_ns m.end_ns) sns
      inside i = Any (IsSample (a.start i) (a.end i)) sns

  observe_all-IsStep :
      (m : ExpectedGraphMonitor F) (sns : List GraphSnapshot)
      → IsStep m (observe_all same m sns) sns
  unfolding observe_all
  observe_all-IsStep m [] = record {
    expected = refl;
    start = refl;
    end = refl;
    issues = (λ h. (h, tt), λ (h, _). h);
    samples = (λ h. (h, λ f. f tt), λ (h, _). h);
  }
  observe_all-IsStep m (sn ∷ sns) =
      joined sn sns (observe-IsStep m sn) (observe_all-IsStep (observe same m sn) sns)

details_of-nil_iff :
    {F : Type 0} (start_ns : ℕ) (issues : List (ReadinessIssue F × ℕ))
    → (details_of start_ns issues ≡ []) ↔ (issues ≡ [])
details_of-nil_iff start_ns [] = (λ h. refl, λ h. refl)
details_of-nil_iff start_ns ((i, t) ∷ rest) = (λ h. absurd (cc), λ h. absurd (cc))

if-nil_iff : {A : Type 0} (b : Bool) (x : A) → ((if b then x ∷ [] else []) ≡ []) ↔ (b ≡ false)
if-nil_iff true x = (λ h. absurd (cc), λ h. absurd (cc))
if-nil_iff false x = (λ h. refl, λ h. refl)

unsampled_iff : (n : ℕ) (b : Bool) → (((n == 0) && b) ≡ false) ↔ (n ≡ 0 → b ≡ false)
unsampled_iff n b = (
  λ h e. ground arith,
  λ h. elim (Bool-cases (n == 0)) [
    | inl e ↦ ground (arith, h (ground (arith, e)))
    | inr e ↦ rw e refl
  ],
)

module _ {F : Type 0} (numbered : ℕ → String) where
  assertions-reported_iff :
      (m : ExpectedGraphMonitor F) (used : List String)
      → (assertions numbered m used ≡ []) ↔ (reported m ≡ [])
  unfolding assertions
  assertions-reported_iff m used = by_details (reported m)
    where
      by_details :
          (details : List (Detail F))
          → (elim details as (λ _. List (GraphAssertion F)) [
            | [] ↦ []
            | d ∷ ds ↦
                record {
                  assertion_id = assertion_id_among numbered used;
                  status =
                      if any (λ detail. is_error (detail_status detail)) (d ∷ ds)
                      then error
                      else failed;
                  details = d ∷ ds;
                }
                ∷ []
          ]
              ≡ [])
            ↔ (details ≡ [])
      by_details [] = (λ h. refl, λ h. refl)
      by_details (d ∷ ds) = (λ h. absurd (cc), λ h. absurd (cc))

module _ {F : Type 0} (same : ReadinessIssue F → ReadinessIssue F → Bool)
    (numbered : ℕ → String) where
  -- With a window of positive duration, a measurement reports no assertion exactly when every
  -- snapshot of the window, whose end is excluded, has no issue of the expected graph and, if no
  -- snapshot lies in the window, nothing is expected of the graph.
  pub assertions-nil_iff :
      (expected : ExpectedGraph F) (start_ns end_ns : ℕ) (m : ExpectedGraphMonitor F)
      (sns : List GraphSnapshot) (used : List String)
      → monitor_for expected start_ns end_ns ≡ ok m
      → (assertions numbered (observe_all same m sns) used ≡ []) ↔ (
          All (IsClean expected start_ns end_ns) sns
          × ((Any (IsSample start_ns end_ns) sns → ⊥) → expects_something expected ≡ false))
  unfolding monitor_for
  assertions-nil_iff expected start_ns end_ns m sns used h =
      let (_, _, e) = bind-ok (raise_if (leb end_ns start_ns) window_duration) _ m h in
      subst
        (λ m. (assertions numbered (observe_all same m sns) used ≡ []) ↔ (
          All (IsClean expected start_ns end_ns) sns
          × ((Any (IsSample start_ns end_ns) sns → ⊥) → expects_something expected ≡ false)))
        (ok_injective e) (from_empty)
    where
      empty : ExpectedGraphMonitor F
      empty = record {
        expected_graph = expected;
        start_ns = start_ns;
        end_ns = end_ns;
        samples = 0;
        issues = [];
      }

      last : ExpectedGraphMonitor F
      last = observe_all same empty sns

      steps : IsStep same empty last sns
      steps = observe_all-IsStep same empty sns

      unsampled : Bool
      unsampled = (last.samples == 0) && expects_something last.expected_graph

      gap : List (Detail F)
      gap = if unsampled then no_samples ∷ [] else []

      parts : (reported last ≡ []) ↔ ((details_of last.start_ns last.issues ≡ []) × (gap ≡ []))
      parts = append-nil_iff (details_of last.start_ns last.issues) gap

      from_empty : (assertions numbered last used ≡ []) ↔ (
          All (IsClean expected start_ns end_ns) sns
          × ((Any (IsSample start_ns end_ns) sns → ⊥) → expects_something expected ≡ false))
      from_empty = (
        λ h.
            let (a, b) = parts.0 ((assertions-reported_iff numbered last used).0 h) in
            (
              (steps.issues.0 ((details_of-nil_iff last.start_ns last.issues).0 a)).1,
              λ none_inside.
                  subst (λ g. expects_something g ≡ false) steps.expected
                    ((unsampled_iff last.samples (expects_something last.expected_graph)).0
                      ((if-nil_iff unsampled no_samples).0 b)
                      (steps.samples.1 (refl, none_inside))),
            ),
        λ (a, b). (assertions-reported_iff numbered last used).1 (
            parts.1 (
              (details_of-nil_iff last.start_ns last.issues).1 (steps.issues.1 (refl, a)),
              (if-nil_iff unsampled no_samples).1 (
                  (unsampled_iff last.samples (expects_something last.expected_graph)).1 (λ z.
                    subst (λ g. expects_something g ≡ false) (sym steps.expected)
                      (b (steps.samples.0 z).1))),
            )),
      )
