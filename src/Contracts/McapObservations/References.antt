-- ===== src/Contracts/McapObservations/References.antt =====
-- What refers to what: every channel to a defined schema, every counted message to a defined
-- channel, and every definition has an id of its own.
use robotics_runtime.Base.{
  ℕ, ◌+◌, ◌≡◌, refl, sym, subst, ◌⊎◌, inl, inr, Bool, true, false, not, ◌||◌, Option, none, some,
  List, [], ◌∷◌, ◌++◌, ok_injective, bind-ok, raise_if-ok, arith, ◌==◌, if_ind, Result, ok, ◌>>◌,
  raise_if, All-imp, All,
}
use robotics_runtime.Contracts.McapObservations.{
  WriterError, Schema, Channel, McapRecord, schema, channel, message, attachment, metadata,
  data_end, other, Observations, increment, zero_schema_id, missing_schema, undefined_schema,
  conflicting_definition, summary_only_definition, message_after_data_end, undefined_channel,
  auxiliary_after_data_end, duplicate_data_end, find, is_defined, definition, same_schema,
  same_channel, define_schema, define_channel, count_message, observe, observe_all,
}

is_true : {b : Bool} → not b ≡ false → b ≡ true
is_true {b} h = ground arith

module _ {A : Type 0} (key : A → ℕ) where
  -- No two definitions have the same id.
  abbrev pub HasDistinctIds : List A → Type 0
  HasDistinctIds [] = Unit
  HasDistinctIds (r ∷ rest) = (is_defined key (key r) rest ≡ false) × HasDistinctIds rest

  is_defined-append :
      (id : ℕ) (defs : List A) (r : A)
      → is_defined key id (defs ++ (r ∷ [])) ≡ (is_defined key id defs || (key r == id))
  unfolding find
  is_defined-append id [] r = ground arith
  is_defined-append id (d ∷ defs) r = ground (arith, is_defined-append id defs r)

  append-HasDistinctIds :
      (defs : List A) (r : A)
      → is_defined key (key r) defs ≡ false
      → HasDistinctIds defs
      → HasDistinctIds (defs ++ (r ∷ []))
  unfolding find
  append-HasDistinctIds [] r new h = (refl, tt)
  append-HasDistinctIds (d ∷ defs) r new (own, h) = (
    ground (arith, is_defined-append (key d) defs r, own, new),
    append-HasDistinctIds defs r (ground (arith, new)) h,
  )

  -- What a definition does to the definitions: it keeps them, or adds one with a new id.
  definition-cases :
      (same : A → A → Bool) (defs : List A) (r : A) (in_summary : Bool) (new : List A)
      → definition key same defs r in_summary ≡ ok new
      → (new ≡ defs) ⊎ ((is_defined key (key r) defs ≡ false) × (new ≡ defs ++ (r ∷ [])))
  unfolding definition
  definition-cases same defs r in_summary new h = go (find key (key r) defs) h
    where
      go :
          (found : Option A)
          → (elim found as (λ _. Result WriterError (List A)) [
            | some previous ↦ raise_if (not (same r previous)) conflicting_definition >> ok defs
            | none ↦ raise_if in_summary summary_only_definition >> ok (defs ++ (r ∷ []))
          ])
            ≡ ok new
          → (new ≡ defs)
            ⊎ ((elim found as (λ _. Bool) [ none ↦ false | some _ ↦ true ] ≡ false)
                × (new ≡ defs ++ (r ∷ [])))
      go (some previous) h =
          let (_, _, k) =
            bind-ok (raise_if (not (same r previous)) conflicting_definition) _ new h in
          inl (sym (ok_injective k))
      go none h =
          let (_, _, k) = bind-ok (raise_if in_summary summary_only_definition) _ new h in
          inr (refl, sym (ok_injective k))

  -- Definitions that were there are still there, and ids stay distinct.
  definition-keeps :
      (same : A → A → Bool) (defs : List A) (r : A) (in_summary : Bool) (new : List A)
      → definition key same defs r in_summary ≡ ok new
      → HasDistinctIds defs
      → HasDistinctIds new
        × ((id : ℕ) → is_defined key id defs ≡ true → is_defined key id new ≡ true)
  definition-keeps same defs r in_summary new h distinct =
      elim (definition-cases same defs r in_summary new h) [
        | inl e ↦ (
          subst HasDistinctIds (sym e) distinct,
          λ id d. subst (λ ds. is_defined key id ds ≡ true) (sym e) d,
        )
        | inr (fresh, e) ↦ (
          subst HasDistinctIds (sym e) (append-HasDistinctIds defs r fresh distinct),
          λ id d.
              subst (λ ds. is_defined key id ds ≡ true) (sym e)
                (ground (arith, is_defined-append id defs r, d)),
        )
      ]

-- A property of the elements that held before, and holds of the one that may be added.
definition-All :
    {A : Type 0} (key : A → ℕ) (P : A → Type 0) (same : A → A → Bool) (defs : List A) (r : A)
    (in_summary : Bool) (new : List A)
    → definition key same defs r in_summary ≡ ok new
    → P r
    → All P defs
    → All P new
definition-All {A = A} key P same defs r in_summary new h p all_hold =
    elim (definition-cases key same defs r in_summary new h) [
      | inl e ↦ subst (All P) (sym e) all_hold
      | inr (_, e) ↦ subst (All P) (sym e) (extended defs all_hold)
    ]
  where
    extended : (ds : List A) → All P ds → All P (ds ++ (r ∷ []))
    extended [] h = (p, tt)
    extended (d ∷ ds) (q, h) = (q, extended ds h)

increment-All :
    (P : ℕ × ℕ → Type 0) (k : ℕ) (counter : List (ℕ × ℕ))
    → ((n : ℕ) → P (k, n))
    → ((j n : ℕ) → P (j, n) → P (j, n + 1))
    → All P counter
    → All P (increment k counter)
unfolding increment
increment-All P k [] f g h = (f 1, tt)
increment-All P k ((j, n) ∷ rest) f g (p, h) =
    if_ind (All P) (j == k) (λ _. (g j n p, h)) (λ _. (p, increment-All P k rest f g h))

module _ {Body : Type 0} where
  abbrev schema_id : Schema Body → ℕ
  schema_id s = s.id

  abbrev channel_id : Channel Body → ℕ
  channel_id c = c.id

  abbrev HasSchemaIn : List (Schema Body) → Channel Body → Type 0
  HasSchemaIn schemas c = is_defined schema_id c.schema_id schemas ≡ true

  abbrev HasChannelIn : List (Channel Body) → ℕ × ℕ → Type 0
  HasChannelIn channels (k, _) = is_defined channel_id k channels ≡ true

-- The references of the observations are closed.
pub record IsClosed {Body : Type 0} (o : Observations Body) : Type 0 where
  pub schemas : HasDistinctIds (λ (s : Schema Body). s.id) o.schemas
  pub channels : HasDistinctIds (λ (c : Channel Body). c.id) o.channels
  pub refer :
      All
        (λ (c : Channel Body). is_defined (λ (s : Schema Body). s.id) c.schema_id o.schemas ≡ true)
        o.channels
  pub counted :
      All (λ (m : ℕ × ℕ). is_defined (λ (c : Channel Body). c.id) m.0 o.channels ≡ true) o.messages

module _ {Body : Type 0} (same_body : Body → Body → Bool) where
  define_schema-IsClosed :
      (o p : Observations Body) (s : Schema Body)
      → IsClosed o
      → define_schema same_body o s ≡ ok p
      → IsClosed p
  unfolding define_schema
  define_schema-IsClosed o p s c h =
      let (_, _, k) = bind-ok (raise_if (s.id == 0) zero_schema_id) _ p h in
      let (defs, e, l) =
        bind-ok (definition schema_id (same_schema same_body) o.schemas s o.in_summary) _ p k in
      let (distinct, kept) =
        definition-keeps schema_id (same_schema same_body) o.schemas s o.in_summary defs e
          c.schemas in
      subst IsClosed (ok_injective l) (record {
        schemas = distinct;
        channels = c.channels;
        refer =
            All-imp (HasSchemaIn o.schemas) (HasSchemaIn defs) o.channels
              (λ ch d. kept ch.schema_id d) c.refer;
        counted = c.counted;
      })

  define_channel-IsClosed :
      (o p : Observations Body) (ch : Channel Body)
      → IsClosed o
      → define_channel same_body o ch ≡ ok p
      → IsClosed p
  unfolding define_channel
  define_channel-IsClosed o p ch c h =
      let (_, _, j) = bind-ok (raise_if (ch.schema_id == 0) missing_schema) _ p h in
      let (u, r, k) =
        bind-ok (raise_if (not (is_defined schema_id ch.schema_id o.schemas)) undefined_schema) _ p
          j in
      let (defs, e, l) =
        bind-ok (definition channel_id (same_channel same_body) o.channels ch o.in_summary) _ p k in
      let (distinct, kept) =
        definition-keeps channel_id (same_channel same_body) o.channels ch o.in_summary defs e
          c.channels in
      let known = raise_if-ok (not (is_defined schema_id ch.schema_id o.schemas)) _ u r in
      subst IsClosed (ok_injective l) (record {
        schemas = c.schemas;
        channels = distinct;
        refer =
            definition-All channel_id (HasSchemaIn o.schemas) (same_channel same_body) o.channels ch
              o.in_summary defs e (is_true known) c.refer;
        counted =
            All-imp (HasChannelIn o.channels) (HasChannelIn defs) o.messages (λ m d. kept m.0 d)
              c.counted;
      })

  count_message-IsClosed :
      (o p : Observations Body) (k t : ℕ)
      → IsClosed o
      → count_message same_body o k t ≡ ok p
      → IsClosed p
  unfolding count_message
  count_message-IsClosed o p k t c h =
      let (_, _, j) = bind-ok (raise_if o.in_summary message_after_data_end) _ p h in
      let (u, r, l) =
        bind-ok (raise_if (not (is_defined channel_id k o.channels)) undefined_channel) _ p j in
      let known = is_true (raise_if-ok (not (is_defined channel_id k o.channels)) _ u r) in
      subst IsClosed (ok_injective l) (record {
        schemas = c.schemas;
        channels = c.channels;
        refer = c.refer;
        counted =
            increment-All (HasChannelIn o.channels) k o.messages (λ n. known) (λ i n d. d)
              c.counted;
      })

  -- The fields that hold references are as they were.
  unchanged-IsClosed :
      (o p : Observations Body)
      → IsClosed o
      → p.schemas ≡ o.schemas
      → p.channels ≡ o.channels
      → p.messages ≡ o.messages
      → IsClosed p
  unchanged-IsClosed o p c e f g = record {
    schemas = subst (HasDistinctIds schema_id) (sym e) c.schemas;
    channels = subst (HasDistinctIds channel_id) (sym f) c.channels;
    refer =
        subst (All (HasSchemaIn p.schemas)) (sym f)
          (subst (λ ss. All (HasSchemaIn ss) o.channels) (sym e) c.refer);
    counted =
        subst (All (HasChannelIn p.channels)) (sym g)
          (subst (λ cs. All (HasChannelIn cs) o.messages) (sym f) c.counted);
  }

  observe-IsClosed :
      (o p : Observations Body) (r : McapRecord Body)
      → IsClosed o
      → observe same_body o r ≡ ok p
      → IsClosed p
  unfolding observe
  observe-IsClosed o p (schema s) c h = define_schema-IsClosed o p s c h
  observe-IsClosed o p (channel ch) c h = define_channel-IsClosed o p ch c h
  observe-IsClosed o p (message k t) c h = count_message-IsClosed o p k t c h
  observe-IsClosed o p attachment c h =
      let (_, _, k) = bind-ok (raise_if o.in_summary auxiliary_after_data_end) _ p h in
      subst IsClosed (ok_injective k)
        (unchanged-IsClosed o (record o { attachments = o.attachments + 1 }) c refl refl refl)
  observe-IsClosed o p metadata c h =
      let (_, _, k) = bind-ok (raise_if o.in_summary auxiliary_after_data_end) _ p h in
      subst IsClosed (ok_injective k)
        (unchanged-IsClosed o (record o { metadata = o.metadata + 1 }) c refl refl refl)
  observe-IsClosed o p data_end c h =
      let (_, _, k) = bind-ok (raise_if o.in_summary duplicate_data_end) _ p h in
      subst IsClosed (ok_injective k)
        (unchanged-IsClosed o (record o { in_summary = true }) c refl refl refl)
  observe-IsClosed o p other c h = subst IsClosed (ok_injective h) c

  -- Observing records keeps the references closed: no two schemas and no two channels share an
  -- id, every channel refers to a defined schema, and every counted message to a defined channel.
  pub observe_all-IsClosed :
      (o p : Observations Body) (rs : List (McapRecord Body))
      → IsClosed o
      → observe_all same_body o rs ≡ ok p
      → IsClosed p
  unfolding observe_all
  observe_all-IsClosed o p [] c h = subst IsClosed (ok_injective h) c
  observe_all-IsClosed o p (r ∷ rs) c h =
      let (q, e, k) = bind-ok (observe same_body o r) _ p h in
      observe_all-IsClosed q p rs (observe-IsClosed o q r c e) k
