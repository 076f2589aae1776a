-- ===== src/Harness/Merging/Extrema.antt =====
-- The extrema of histograms that are put together.
use robotics_runtime.Base.{
  keep_ind, ℕ, ◌≡◌, refl, sym, ap, ◌∙◌, subst, ◌⊎◌, inl, inr, Bool, true, not, Option, none, some,
  List, [], ◌∷◌, ◌++◌, map, arith, ◌==◌, length, All-at, All-imp, All, Any,
}
use robotics_runtime.Base.Float.{Float, Finite}
use robotics_runtime.Harness.Samples.{HistogramSample}
use robotics_runtime.Harness.Merging.{all_given, recorded, merged_extremum, extremum_of}

module _ {ℓ} {A : Type ℓ} where
  Any-left {κ} : (P : A → Type κ) (xs ys : List A) → Any P xs → Any P (xs ++ ys)
  Any-left P [] ys h = absurd (h tt)
  Any-left P (x ∷ xs) ys (inl p) = inl p
  Any-left P (x ∷ xs) ys (inr h) = inr (Any-left P xs ys h)

  Any-right {κ} : (P : A → Type κ) (xs ys : List A) → Any P ys → Any P (xs ++ ys)
  Any-right P [] ys h = h
  Any-right P (x ∷ xs) ys h = inr (Any-right P xs ys h)

  All-append {κ} : (P : A → Type κ) (xs ys : List A) → All P xs → All P ys → All P (xs ++ ys)
  All-append P [] ys h k = k
  All-append P (x ∷ xs) ys (p, h) k = (p, All-append P xs ys h k)

  nil-of-length : (n : ℕ) (xs : List A) → n ≡ length xs → (n == 0) ≡ true → xs ≡ []
  nil-of-length n [] h z = refl
  nil-of-length n (x ∷ xs) h z = absurd (ground arith)

-- The events of histograms, in the order of the histograms.
abbrev pub all_events : {F : Type 0} → List (HistogramSample F × List F) → List F
all_events [] = []
all_events ((h, events) ∷ rest) = events ++ all_events rest

module _ {F : Type 0} ⦃finites : Finite F⦄ (rel : F → F → Bool) (pick : Float F → Float F → Float F)
    (rel_trans : (a b c : F) → rel a b ≡ true → rel b c ≡ true → rel a c ≡ true)
    (rel_refl : (a : F) → rel a a ≡ true)
    (picked : (a b : F)
      → (m : F) × (pick (Float.finite a) (Float.finite b) ≡ Float.finite m)
        × (((a ≡ m) ⊎ (b ≡ m)) × ((rel m a ≡ true) × (rel m b ≡ true)))) where
  abbrev pub IsExtreme : F → List F → Type 0
  IsExtreme m events = Any (λ e. e ≡ m) events × All (λ e. rel m e ≡ true) events

  -- A histogram has no extremum, or that of its events.
  abbrev pub HasExtremum : Option (Float F) → List F → Type 0
  HasExtremum value events =
      (value ≡ none) ⊎ ((m : F) × (value ≡ some (Float.finite m)) × IsExtreme m events)

  extremum_of-IsExtreme :
      (x : F) (xs : List F)
      → (m : F) × (extremum_of pick (Float.finite x) (map Float.finite xs) ≡ Float.finite m)
        × IsExtreme m (x ∷ xs)
  extremum_of-IsExtreme x [] = (x, refl, (inl refl, (rel_refl x, tt)))
  extremum_of-IsExtreme x (y ∷ ys) =
      let (p, e, (side, (left, right))) = picked x y in
      let (m, f, (member, (first, rest))) = extremum_of-IsExtreme p ys in
      (
        m,
        ap (λ z. extremum_of pick z (map Float.finite ys)) e ∙ f,
        (
          place x y p m ys side member,
          (rel_trans m p x first left, (rel_trans m p y first right, rest)),
        ),
      )
    where
      place :
          (x y p m : F) (ys : List F)
          → (x ≡ p) ⊎ (y ≡ p)
          → Any (λ e. e ≡ m) (p ∷ ys)
          → Any (λ e. e ≡ m) (x ∷ y ∷ ys)
      place x y p m ys (inl a) (inl b) = inl (a ∙ b)
      place x y p m ys (inr a) (inl b) = inr (inl (a ∙ b))
      place x y p m ys side (inr rest) = inr (inr rest)

  -- Each of the numbers is an event, and each event has one of the numbers beyond it.
  abbrev Spans : List F → List F → Type 0
  Spans ms events =
      All (λ m. Any (λ e. e ≡ m) events) ms × All (λ e. Any (λ m. rel m e ≡ true) ms) events

  Spans-IsExtreme :
      (m : F) (ms events : List F) → IsExtreme m ms → Spans ms events → IsExtreme m events
  Spans-IsExtreme m ms events (member, beyond) (inside, cover) = (
    All-at (λ k. Any (λ e. e ≡ k) events) m ms inside member,
    All-imp (λ e. Any (λ k. rel k e ≡ true) ms) (λ e. rel m e ≡ true) events
        (λ e h. through e ms beyond h) cover,
  )
    where
      through :
          (e : F) (ms : List F)
          → All (λ k. rel m k ≡ true) ms
          → Any (λ k. rel k e ≡ true) ms
          → rel m e ≡ true
      through e [] b h = absurd (h tt)
      through e (k ∷ ks) (b, bs) (inl h) = rel_trans m k e b h
      through e (k ∷ ks) (b, bs) (inr h) = through e ks bs h

  -- Some value is missing, or the values are finite and span the events.
  abbrev Gathered : List (Option (Float F)) → List F → Type 0
  Gathered values events =
      (all_given values ≡ none)
      ⊎ ((ms : List F) × (all_given values ≡ some (map Float.finite ms)) × Spans ms events)

  Gathered-cons :
      (value : Option (Float F)) (values : List (Option (Float F))) (events others : List F)
      → HasExtremum value events
      → Gathered values others
      → Gathered (value ∷ values) (events ++ others)
  Gathered-cons value values events others (inl missing) _ = inl (rw missing refl)
  Gathered-cons value values events others (inr (m, e, _)) (inl missing) =
      inl (rw (e, missing) refl)
  Gathered-cons value values events others (inr (m, e, (member, beyond)))
        (inr (ms, f, (inside, cover))) =
      inr (
        m ∷ ms,
        rw (e, f) refl,
        (
          (
            Any-left (λ z. z ≡ m) events others member,
            All-imp _ _ ms (λ k. Any-right (λ z. z ≡ k) events others) inside,
          ),
          All-append (λ z. Any (λ k. rel k z ≡ true) (m ∷ ms)) events others
              (All-imp _ _ events (λ z b. inl b) beyond) (All-imp _ _ others (λ z b. inr b) cover),
        ),
      )

  gathered :
      (value : HistogramSample F → Option (Float F)) (entries : List (HistogramSample F × List F))
      → All (λ e. (e.0.count ≡ length e.1) × HasExtremum (value e.0) e.1) entries
      → Gathered (recorded value (map (λ e. e.0) entries)) (all_events entries)
  gathered value [] h = inr ([], refl, (tt, tt))
  gathered value ((h, events) ∷ rest) ((counted, extremum), others) =
      let tail = gathered value rest others in
      keep_ind (λ hs. Gathered (map value hs) (events ++ all_events rest)) (λ k. not (k.count == 0))
        h (map (λ e. e.0) rest)
        (λ nonzero.
          Gathered-cons (value h) (recorded value (map (λ e. e.0) rest)) events (all_events rest)
            extremum tail)
        (λ is_zero.
          subst (λ xs. Gathered (recorded value (map (λ e. e.0) rest)) (xs ++ all_events rest))
            (sym (nil-of-length h.count events counted (ground arith))) tail)

  pub merged_extremum-HasExtremum :
      (value : HistogramSample F → Option (Float F)) (entries : List (HistogramSample F × List F))
      → All (λ e. (e.0.count ≡ length e.1) × HasExtremum (value e.0) e.1) entries
      → HasExtremum
          (merged_extremum pick (recorded value (map (λ e. e.0) entries)))
          (all_events entries)
  merged_extremum-HasExtremum value entries h = elim (gathered value entries h) [
    | inl missing ↦ inl (rw (merged_extremum, missing) refl)
    | inr ([], e, _) ↦ inl (rw (merged_extremum, e) refl)
    | inr (m ∷ ms, e, spans) ↦
        let (k, f, extreme) = extremum_of-IsExtreme m ms in
        inr (
          k,
          rw (merged_extremum, e) (ap some f),
          Spans-IsExtreme k (m ∷ ms) (all_events entries) extreme spans,
        )
  ]
