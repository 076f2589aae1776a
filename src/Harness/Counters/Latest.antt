-- ===== src/Harness/Counters/Latest.antt =====
-- The last element of a list in order of time, and the last one that passes a test.
use robotics_runtime.Base.{
  ℕ, ◌≤◌, ◌≡◌, refl, Bool, true, arith, List, [], ◌∷◌, inl, inr, ltb, if_ind, subst, keep, keep_ind,
  All-keep, All-imp, All-at, All, Any, sym,
}
use robotics_runtime.Harness.Series.{sorted, insert_sorted, All-insert_sorted}
use robotics_runtime.Harness.Series.Permuted.{sorted-permᴰ, All-permᴰ, Any-permᴰ}
use robotics_runtime.Harness.Cumulative.{last_of}

module _ {A : Type 0} (time : A → ℕ) where
  abbrev pub earlier : A → A → Bool
  earlier a b = ltb (time a) (time b)

  -- no element is later than one behind it
  abbrev pub InTime : List A → Type 0
  InTime [] = Unit
  InTime (x ∷ xs) = All (λ y. time x ≤ time y) xs × InTime xs

  -- an element of the list that passes the test, and none that passes it is later
  pub record IsLatest (p : A → Bool) (xs : List A) (l : A) : Type 0 where
    pub passes : p l ≡ true
    pub given : Any (λ x. x ≡ l) xs
    pub latest : All (λ x. p x ≡ true → time x ≤ time l) xs

  insert_sorted-InTime : (x : A) (xs : List A) → InTime xs → InTime (insert_sorted earlier x xs)
  unfolding insert_sorted
  insert_sorted-InTime x [] h = (tt, tt)
  insert_sorted-InTime x (y ∷ ys) (later, h) =
      if_ind InTime (earlier y x)
        (λ e. (
          All-insert_sorted (λ z. time y ≤ time z) earlier x ys (ground (arith, e)) later,
          insert_sorted-InTime x ys h,
        ))
        (λ e. (
          (
            ground (arith, e),
            All-imp (λ z. time y ≤ time z) (λ z. time x ≤ time z) ys (λ z le. ground (arith, e, le))
                later,
          ),
          (later, h),
        ))

  pub sorted-InTime : (xs : List A) → InTime (sorted earlier xs)
  unfolding sorted
  sorted-InTime [] = tt
  sorted-InTime (x ∷ xs) = insert_sorted-InTime x (sorted earlier xs) (sorted-InTime xs)

  last_of-given : (x : A) (xs : List A) → Any (λ y. y ≡ last_of x xs) (x ∷ xs)
  last_of-given x [] = inl refl
  last_of-given x (y ∷ ys) = inr (last_of-given y ys)

  last_of-bound :
      (x : A) (xs : List A) → InTime (x ∷ xs) → All (λ y. time y ≤ time (last_of x xs)) (x ∷ xs)
  last_of-bound x [] h = (omega arith, tt)
  last_of-bound x (y ∷ ys) ((xy, _), h) =
      let (l, ls) = last_of-bound y ys h in (omega (arith, xy, l), (l, ls))

  keep-InTime : (p : A → Bool) (xs : List A) → InTime xs → InTime (keep p xs)
  keep-InTime p [] h = tt
  keep-InTime p (x ∷ xs) (later, h) =
      let rest = keep-InTime p xs h in
      keep_ind InTime p x xs (λ _. (All-keep (λ y. time x ≤ time y) p xs later, rest)) (λ _. rest)

  All-kept :
      (Q : A → Type 0) (p : A → Bool) (xs : List A)
      → All Q (keep p xs)
      → All (λ x. p x ≡ true → Q x) xs
  All-kept Q p [] h = tt
  All-kept Q p (x ∷ xs) h =
      keep_ind (λ zs. All Q zs → All (λ x. p x ≡ true → Q x) (x ∷ xs)) p x xs
        (λ _ (q, rest). ((λ _. q), All-kept Q p xs rest))
        (λ f rest. ((λ t. absurd (cc (f, t))), All-kept Q p xs rest)) h

  Any-kept : (Q : A → Type 0) (p : A → Bool) (xs : List A) → Any Q (keep p xs) → Any Q xs
  Any-kept Q p [] h = h
  Any-kept Q p (x ∷ xs) h =
      keep_ind (λ zs. Any Q zs → Any Q (x ∷ xs)) p x xs
        (λ _ k. elim k [ inl q ↦ inl q | inr rest ↦ inr (Any-kept Q p xs rest) ])
        (λ _ rest. inr (Any-kept Q p xs rest)) h

  kept-passes : (p : A → Bool) (xs : List A) → All (λ x. p x ≡ true) (keep p xs)
  kept-passes p [] = tt
  kept-passes p (x ∷ xs) =
      let rest = kept-passes p xs in
      keep_ind (All (λ y. p y ≡ true)) p x xs (λ t. (t, rest)) (λ _. rest)

  -- The last of the elements that pass is the latest one.
  pub kept-IsLatest :
      (p : A → Bool) (xs : List A) (b : A) (bs : List A)
      → InTime xs
      → keep p xs ≡ b ∷ bs
      → IsLatest p xs (last_of b bs)
  kept-IsLatest p xs b bs h e = record {
    passes =
        All-at (λ x. p x ≡ true) (last_of b bs) (b ∷ bs)
          (subst (All (λ x. p x ≡ true)) e (kept-passes p xs)) (last_of-given b bs);
    given =
        Any-kept (λ x. x ≡ last_of b bs) p xs
          (subst (Any (λ x. x ≡ last_of b bs)) (sym e) (last_of-given b bs));
    latest =
        All-kept (λ x. time x ≤ time (last_of b bs)) p xs
          (subst (All (λ x. time x ≤ time (last_of b bs))) (sym e)
            (last_of-bound b bs (subst InTime e (keep-InTime p xs h))));
  }

  -- The last element of all is the latest one.
  pub last_of-IsLatest :
      (x : A) (xs : List A) → InTime (x ∷ xs) → IsLatest (λ _. true) (x ∷ xs) (last_of x xs)
  last_of-IsLatest x xs h = record {
    passes = refl;
    given = last_of-given x xs;
    latest =
        All-imp (λ y. time y ≤ time (last_of x xs))
          (λ y. true ≡ true → time y ≤ time (last_of x xs)) (x ∷ xs) (λ y le _. le)
          (last_of-bound x xs h);
  }

  -- What is the latest of a sorted list is the latest of the list.
  pub sorted-IsLatest :
      (p : A → Bool) (xs : List A) (l : A) → IsLatest p (sorted earlier xs) l → IsLatest p xs l
  sorted-IsLatest p xs l r = record {
    passes = r.passes;
    given = Any-permᴰ (λ x. x ≡ l) (sorted-permᴰ earlier xs) r.given;
    latest = All-permᴰ (λ x. p x ≡ true → time x ≤ time l) (sorted-permᴰ earlier xs) r.latest;
  }
