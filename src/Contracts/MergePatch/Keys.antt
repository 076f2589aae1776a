-- ===== src/Contracts/MergePatch/Keys.antt =====
-- The entries of a dict: lookups after a write or a removal, and keys that stand once.
use robotics_runtime.Base.{
  String, ◌≡◌, refl, none, some, arith, str_eq, eq_iff, if◌then◌else◌, if_ind,
}
use robotics_runtime.Contracts.MergePatch.{Value, null, Members, end, member, get, put, pop, store}

module _ {F : Type 0} where
  -- Each key stands once.
  abbrev pub HasUniqueKeys : Members F → Type 0
  HasUniqueKeys end = Unit
  HasUniqueKeys (member k v rest) = (get rest k ≡ none) × HasUniqueKeys rest

  pub get-put :
      (m : Members F) (k j : String) (v : Value F)
      → get (put m k v) j ≡ (if str_eq k j then some v else get m j)
  unfolding get put
  get-put end k j v = refl
  get-put (member i w rest) k j v =
      ground (arith, eq_iff k j, eq_iff i k, eq_iff i j, get-put rest k j v)

  pub get-pop :
      (m : Members F) (k j : String) → get (pop m k) j ≡ (if str_eq k j then none else get m j)
  unfolding get pop
  get-pop end k j = ground arith
  get-pop (member i w rest) k j =
      ground (arith, eq_iff k j, eq_iff i k, eq_iff i j, get-pop rest k j)

  pub put-HasUniqueKeys :
      (m : Members F) (k : String) (v : Value F) → HasUniqueKeys m → HasUniqueKeys (put m k v)
  unfolding put get
  put-HasUniqueKeys end k v h = (refl, tt)
  put-HasUniqueKeys (member i w rest) k v (fresh, h) =
      if_ind HasUniqueKeys (str_eq i k) (λ same. (fresh, h))
        (λ other. (
          ground (arith, get-put rest k i v, eq_iff i k, eq_iff k i),
          put-HasUniqueKeys rest k v h,
        ))

  pub pop-HasUniqueKeys : (m : Members F) (k : String) → HasUniqueKeys m → HasUniqueKeys (pop m k)
  unfolding pop get
  pop-HasUniqueKeys end k h = tt
  pop-HasUniqueKeys (member i w rest) k (fresh, h) =
      if_ind HasUniqueKeys (str_eq i k) (λ same. pop-HasUniqueKeys rest k h)
        (λ other. (ground (arith, get-pop rest k i), pop-HasUniqueKeys rest k h))

  pub store-HasUniqueKeys :
      (m : Members F) (k : String) (v w : Value F) → HasUniqueKeys m → HasUniqueKeys (store m k v w)
  store-HasUniqueKeys m k null w h = pop-HasUniqueKeys m k h
  store-HasUniqueKeys m k _ w h = put-HasUniqueKeys m k w h
