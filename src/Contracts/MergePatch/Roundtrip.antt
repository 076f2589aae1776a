-- ===== src/Contracts/MergePatch/Roundtrip.antt =====
-- A patch made from two objects turns the first into the second.
use robotics_runtime.Base.{
  String, ◌≡◌, refl, sym, ap, ◌∙◌, subst, ◌≢◌, ◌⊎◌, inl, inr, Bool, true, false, Option, none, some,
  arith, str_eq, if◌then◌else◌, if_ind,
}
use robotics_runtime.Base.Float.{Finite}
use robotics_runtime.Contracts.MergePatch.{
  Value, null, obj, Members, end, member, get, has, members_of, get_or_null, merge_patch,
  merge_members, json_equal, unchanged, create_value, create_patch,
}
use robotics_runtime.Contracts.MergePatch.Keys.{HasUniqueKeys}
use robotics_runtime.Contracts.MergePatch.Equality.{AgreeAt, json_equal-of-agree}
use robotics_runtime.Contracts.MergePatch.Apply.{
  merged, or_null, get-merge_members, merge_members-HasUniqueKeys,
}
use robotics_runtime.Contracts.MergePatch.Creation.{
  plan, get-removals, removals-HasUniqueKeys, get-create_members, create_members-HasUniqueKeys,
}

module _ {F : Type 0} ⦃finites : Finite F⦄ where
  -- What a patch can say: no member of an object is `null`, each key of an object stands once, and
  -- what is no object equals itself (a tree with NaN does not).
  unfoldable mutual
    pub IsRepresentable : Value F → Type 0
    IsRepresentable (obj m) = AreRepresentable m
    IsRepresentable v = json_equal v v ≡ true

    pub AreRepresentable : Members F → Type 0
    AreRepresentable end = Unit
    AreRepresentable (member k v rest) =
        (v ≢ null) × IsRepresentable v × (get rest k ≡ none) × AreRepresentable rest

  -- Each key stands once, in an object and in the objects that are its members.
  unfoldable mutual
    pub IsDict : Value F → Type 0
    IsDict (obj m) = AreDicts m
    IsDict v = Unit

    pub AreDicts : Members F → Type 0
    AreDicts end = Unit
    AreDicts (member k v rest) = IsDict v × (get rest k ≡ none) × AreDicts rest

  AreDicts-HasUniqueKeys : (m : Members F) → AreDicts m → HasUniqueKeys m
  unfolding AreDicts
  AreDicts-HasUniqueKeys end d = tt
  AreDicts-HasUniqueKeys (member k v rest) (_, fresh, d) = (fresh, AreDicts-HasUniqueKeys rest d)

  AreRepresentable-HasUniqueKeys : (m : Members F) → AreRepresentable m → HasUniqueKeys m
  unfolding AreRepresentable
  AreRepresentable-HasUniqueKeys end d = tt
  AreRepresentable-HasUniqueKeys (member k v rest) (_, _, fresh, d) =
      (fresh, AreRepresentable-HasUniqueKeys rest d)

  members_of-AreDicts : (v : Value F) → IsDict v → AreDicts (members_of v)
  unfolding IsDict
  members_of-AreDicts (obj m) d = d
  members_of-AreDicts _ d = tt

  get_or_null-IsDict : (m : Members F) (j : String) → AreDicts m → IsDict (get_or_null m j)
  unfolding IsDict get
  get_or_null-IsDict end j d = tt
  get_or_null-IsDict (member k v rest) j (dv, _, d) =
      if_ind (λ o. IsDict (or_null o)) (str_eq k j) (λ _. dv) (λ _. get_or_null-IsDict rest j d)

  create_value-ne-null : (p v : Value F) → v ≢ null → create_value p v ≢ null
  unfolding create_value
  create_value-ne-null p (obj m) h e = cc
  create_value-ne-null p v h e = h e

  merged-some :
      (old : Option (Value F)) (v : Value F)
      → v ≢ null
      → merged old (some v) ≡ some (merge_patch (or_null old) v)
  merged-some old null h = absurd (h refl)
  merged-some old v h = refl

  module _ (source : Members F) (j : String) where
    abbrev present : Option (Value F) → Bool
    present o = elim o [ none ↦ false | some v ↦ true ]

    removed : Option (Value F) → Option (Value F)
    removed next = if present next then none else if has source j then some null else none

    unchanged_agrees : (w : Value F) → unchanged source j w ≡ true → AgreeAt (get source j) (some w)
    unfolding unchanged
    unchanged_agrees w = of_option (get source j)
      where
        of_option :
            (o : Option (Value F))
            → (elim o as (λ _. Bool) [ none ↦ false | some old ↦ json_equal old w ]) ≡ true
            → AgreeAt o (some w)
        of_option none h = cc
        of_option (some old) h = h

    agree_at :
        (next : Option (Value F))
        → ((w : Value F)
            → next ≡ some w
            → (w ≢ null)
              × (json_equal
                    (merge_patch (get_or_null source j) (create_value (get_or_null source j) w))
                    w
                  ≡ true))
        → AgreeAt (merged (get source j) (plan source j next (removed next))) next
    unfolding removed
    agree_at none ih = of_option (get source j)
      where
        of_option :
            (o : Option (Value F)) → AgreeAt (merged o (if present o then some null else none)) none
        of_option none = tt
        of_option (some v) = tt
    agree_at (some w) ih =
        if_ind (λ p. AgreeAt (merged (get source j) p) (some w)) (unchanged source j w)
          (unchanged_agrees w)
          (λ _.
            subst (λ o. AgreeAt o (some w))
              (sym (merged-some (get source j) _ (create_value-ne-null _ w (ih w refl).0)))
              (ih w refl).1)

  get-patched :
      (source target : Members F) (j : String)
      → HasUniqueKeys source
      → HasUniqueKeys target
      → get (merge_members source (create_patch source target)) j
        ≡ merged (get source j) (plan source j (get target j) (removed source j (get target j)))
  unfolding create_patch removed
  get-patched source target j us ut =
      get-merge_members _ source j
        (create_members-HasUniqueKeys source target _ (removals-HasUniqueKeys source target us))
      ∙ ap (merged (get source j)) (
          get-create_members source target _ j ut
          ∙ ap (plan source j (get target j)) (get-removals source target j))

  get-member :
      (k j : String) (v w : Value F) (rest : Members F)
      → get (member k v rest) j ≡ some w
      → (v ≡ w) ⊎ (get rest j ≡ some w)
  unfolding get
  get-member k j v w rest e = ground arith

  mutual
    unfolding IsRepresentable get merge_patch json_equal create_value create_patch

    patched_value :
        (v p : Value F)
        → IsDict p
        → IsRepresentable v
        → v ≢ null
        → json_equal (merge_patch p (create_value p v)) v ≡ true
    patched_value null p d r h = absurd (h refl)
    patched_value (obj target) p d r h =
        let source = members_of p in
        let us = AreDicts-HasUniqueKeys source (members_of-AreDicts p d) in
        let ut = AreRepresentable-HasUniqueKeys target r in
        json_equal-of-agree (merge_members source (create_patch source target)) target
          (merge_members-HasUniqueKeys (create_patch source target) source us)
          (λ j.
            subst (λ o. AgreeAt o (get target j)) (sym (get-patched source target j us ut))
              (agree_at source j (get target j) (λ w e.
                patched_members target r j w e (get_or_null source j)
                  (get_or_null-IsDict source j (members_of-AreDicts p d)))))
    patched_value v p d r h = r

    patched_members :
        (target : Members F)
        → AreRepresentable target
        → (j : String) (w : Value F) → get target j ≡ some w
        → (p : Value F) → IsDict p
        → (w ≢ null) × (json_equal (merge_patch p (create_value p w)) w ≡ true)
    patched_members end r j w e p d = cc
    patched_members (member k v rest) (nonnull, rv, _, r) j w e p d =
        elim (get-member k j v w rest e) [
          | inl same ↦
              subst (λ x. (x ≢ null) × (json_equal (merge_patch p (create_value p x)) x ≡ true))
                same (nonnull, patched_value v p d rv nonnull)
          | inr later ↦ patched_members rest r j w later p d
        ]

  -- For two objects whose keys stand once, where no member of an object in the target is null and
  -- the target holds no NaN, the patch made from the two turns the source into an equal of the
  -- target.
  pub merge_patch-create_patch :
      (source target : Members F)
      → IsDict (obj source)
      → IsRepresentable (obj target)
      → json_equal (merge_patch (obj source) (obj (create_patch source target))) (obj target) ≡ true
  unfolding create_patch create_value
  merge_patch-create_patch source target d r = patched_value (obj target) (obj source) d r (λ e. cc)
