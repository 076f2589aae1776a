-- ===== src/Contracts/MergePatch/Creation.antt =====
-- What a created patch says of each key.
use robotics_runtime.Base.{
  String, ◌≡◌, refl, sym, ap, ◌∙◌, Bool, true, false, Option, none, some, arith, str_eq, eq_iff,
  if◌then◌else◌, if_ind,
}
use robotics_runtime.Base.Float.{Finite}
use robotics_runtime.Contracts.MergePatch.{
  Value, null, Members, end, member, get, has, put, get_or_null, removals, unchanged, create_value,
  create_members,
}
use robotics_runtime.Contracts.MergePatch.Keys.{HasUniqueKeys, get-put, put-HasUniqueKeys}

module _ {F : Type 0} ⦃finites : Finite F⦄ where
  pub get-removals :
      (source target : Members F) (j : String)
      → get (removals source target) j
        ≡ (if has target j then none else if has source j then some null else none)
  unfolding removals get
  get-removals end target j = ground arith
  get-removals (member k v rest) target j = ground (arith, get-removals rest target j, eq_iff k j)

  pub removals-HasUniqueKeys :
      (source target : Members F) → HasUniqueKeys source → HasUniqueKeys (removals source target)
  unfolding removals get
  removals-HasUniqueKeys end target u = tt
  removals-HasUniqueKeys (member k v rest) target (fresh, u) =
      if_ind HasUniqueKeys (has target k) (λ _. removals-HasUniqueKeys rest target u)
        (λ _. (ground (arith, get-removals rest target k), removals-HasUniqueKeys rest target u))

  -- What the patch says of a key that the target has.
  abbrev pub planned : Members F → String → Value F → Option (Value F) → Option (Value F)
  planned source j v earlier =
      if unchanged source j v then earlier else some (create_value (get_or_null source j) v)

  abbrev pub plan : Members F → String → Option (Value F) → Option (Value F) → Option (Value F)
  plan source j none earlier = earlier
  plan source j (some v) earlier = planned source j v earlier

  get-if-put :
      (b : Bool) (m : Members F) (k j : String) (v : Value F)
      → get (if b then m else put m k v) j
        ≡ (if str_eq k j then if b then get m j else some v else get m j)
  get-if-put true m k j v = ground arith
  get-if-put false m k j v = get-put m k j v

  plan_if :
      (b : Bool) (source : Members F) (k j : String) (v : Value F) (next earlier : Option (Value F))
      → (b ≡ true → k ≡ j)
      → (b ≡ true → next ≡ none)
      → plan source j next (if b then planned source k v earlier else earlier)
        ≡ plan source j (if b then some v else next) earlier
  plan_if true source k j v next earlier p q =
      rw (q refl) (ap (λ i. planned source i v earlier) (p refl))
  plan_if false source k j v next earlier p q = refl

  pub get-create_members :
      (source target patch : Members F) (j : String)
      → HasUniqueKeys target
      → get (create_members source target patch) j ≡ plan source j (get target j) (get patch j)
  unfolding create_members get
  get-create_members source end patch j u = refl
  get-create_members source (member k v rest) patch j (fresh, u) =
      get-create_members source rest _ j u
      ∙ ap (plan source j (get rest j)) (get-if-put (unchanged source k v) patch k j _)
      ∙ plan_if (str_eq k j) source k j v (get rest j) (get patch j) ((eq_iff k j).0)
          (λ same. ap (get rest) (sym ((eq_iff k j).0 same)) ∙ fresh)

  pub create_members-HasUniqueKeys :
      (source target patch : Members F)
      → HasUniqueKeys patch
      → HasUniqueKeys (create_members source target patch)
  unfolding create_members
  create_members-HasUniqueKeys source end patch u = u
  create_members-HasUniqueKeys source (member k v rest) patch u =
      create_members-HasUniqueKeys source rest _
        (if_ind HasUniqueKeys (unchanged source k v) (λ _. u) (λ _. put-HasUniqueKeys patch k _ u))
