-- ===== src/Contracts/MergePatch/Equality.antt =====
-- Two objects are equal where their lookups are.
use robotics_runtime.Base.{
  String, ◌≡◌, refl, sym, ◌∙◌, subst, Bool, true, false, Option, none, some, arith, eq_iff,
  and_true,
}
use robotics_runtime.Base.Float.{Finite}
use robotics_runtime.Contracts.MergePatch.{
  Value, obj, Members, end, member, get, has, keys_in, json_equal, equal_members,
}
use robotics_runtime.Contracts.MergePatch.Keys.{HasUniqueKeys}

module _ {F : Type 0} ⦃finites : Finite F⦄ where
  abbrev pub AgreeAt : Option (Value F) → Option (Value F) → Type 0
  AgreeAt none none = Unit
  AgreeAt (some v) (some w) = json_equal v w ≡ true
  AgreeAt _ _ = ⊥

  keys_in-of-has :
      (l r : Members F) → ((j : String) → has l j ≡ true → has r j ≡ true) → keys_in l r ≡ true
  unfolding keys_in get
  keys_in-of-has end r h = refl
  keys_in-of-has (member k v rest) r h =
      ground (arith, h k, eq_iff k k, keys_in-of-has rest r (λ j e. h j (ground arith)))

  has-of-agree : (l r : Members F) (j : String) → AgreeAt (get l j) (get r j) → has l j ≡ has r j
  has-of-agree l r j = of_options (get l j) (get r j)
    where
      of_options :
          (o p : Option (Value F))
          → AgreeAt o p
          → (elim o as (λ _. Bool) [ none ↦ false | some v ↦ true ])
            ≡ (elim p as (λ _. Bool) [ none ↦ false | some v ↦ true ])
      of_options none none h = refl
      of_options (some v) (some w) h = refl
      of_options none (some w) h = absurd h
      of_options (some v) none h = absurd h

  equal_at :
      (v : Value F) (p : Option (Value F))
      → AgreeAt (some v) p
      → elim p [ none ↦ false | some w ↦ json_equal v w ] ≡ true
  equal_at v none h = absurd h
  equal_at v (some w) h = h

  equal_members-of-agree :
      (l r : Members F)
      → HasUniqueKeys l
      → ((j : String) (v : Value F) → get l j ≡ some v → AgreeAt (some v) (get r j))
      → equal_members l r ≡ true
  unfolding equal_members get
  equal_members-of-agree end r u h = refl
  equal_members-of-agree (member k v rest) r (fresh, u) h =
      and_true (equal_at v (get r k) (h k v (ground (arith, eq_iff k k))))
        (equal_members-of-agree rest r u (λ j w e. h j w (ground (arith, eq_iff k j))))

  pub json_equal-of-agree :
      (l r : Members F)
      → HasUniqueKeys l
      → ((j : String) → AgreeAt (get l j) (get r j))
      → json_equal (obj l) (obj r) ≡ true
  unfolding json_equal
  json_equal-of-agree l r u h =
      and_true
        (and_true (keys_in-of-has l r (λ j e. sym (has-of-agree l r j (h j)) ∙ e))
          (keys_in-of-has r l (λ j e. has-of-agree l r j (h j) ∙ e)))
        (equal_members-of-agree l r u (λ j v e. subst (λ o. AgreeAt o (get r j)) e (h j)))
