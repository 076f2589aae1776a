-- ===== src/Contracts/MergePatch/Apply.antt =====
-- What a merge does to each key.
use robotics_runtime.Base.{
  String, ◌≡◌, refl, sym, ap, ◌∙◌, Bool, true, false, Option, none, some, str_eq, eq_iff,
  if◌then◌else◌,
}
use robotics_runtime.Contracts.MergePatch.{
  Value, null, Members, end, member, get, get_or_null, store, merge_patch, merge_members,
}
use robotics_runtime.Contracts.MergePatch.Keys.{
  HasUniqueKeys, get-put, get-pop, store-HasUniqueKeys,
}

module _ {F : Type 0} where
  abbrev pub or_null : Option (Value F) → Value F
  or_null none = null
  or_null (some v) = v

  -- RFC 7396: a key that the patch does not name stays, `null` removes it, and any other value is
  -- merged into what stood there.
  abbrev pub merged : Option (Value F) → Option (Value F) → Option (Value F)
  merged old none = old
  merged old (some null) = none
  merged old (some v) = some (merge_patch (or_null old) v)

  pub merge_members-HasUniqueKeys :
      (patch m : Members F) → HasUniqueKeys m → HasUniqueKeys (merge_members m patch)
  unfolding merge_members
  merge_members-HasUniqueKeys end m h = h
  merge_members-HasUniqueKeys (member k v rest) m h =
      merge_members-HasUniqueKeys rest _ (store-HasUniqueKeys m k v _ h)

  get-store :
      (m : Members F) (k j : String) (v : Value F)
      → get (store m k v (merge_patch (get_or_null m k) v)) j
        ≡ (if str_eq k j then merged (get m k) (some v) else get m j)
  get-store m k j null = get-pop m k j
  get-store m k j v = get-put m k j (merge_patch (get_or_null m k) v)

  merged_if :
      (b : Bool) (at_k at_j : Option (Value F)) (v : Value F) (next : Option (Value F))
      → (b ≡ true → at_k ≡ at_j)
      → (b ≡ true → next ≡ none)
      → merged (if b then merged at_k (some v) else at_j) next
        ≡ merged at_j (if b then some v else next)
  merged_if true at_k at_j v next p q = rw (q refl) (ap (λ o. merged o (some v)) (p refl))
  merged_if false at_k at_j v next p q = refl

  -- With a patch whose keys stand once, what a merge leaves at a key depends only on what stood
  -- there and on what the patch says of the key: a key that the patch does not name stays, null
  -- removes it, and any other value is merged into what stood there.
  pub get-merge_members :
      (patch m : Members F) (j : String)
      → HasUniqueKeys patch
      → get (merge_members m patch) j ≡ merged (get m j) (get patch j)
  unfolding merge_members get
  get-merge_members end m j u = refl
  get-merge_members (member k v rest) m j (fresh, u) =
      get-merge_members rest _ j u
      ∙ ap (λ o. merged o (get rest j)) (get-store m k j v)
      ∙ merged_if (str_eq k j) (get m k) (get m j) v (get rest j)
          (λ same. ap (get m) ((eq_iff k j).0 same))
          (λ same. ap (get rest) (sym ((eq_iff k j).0 same)) ∙ fresh)
