-- ===== src/Contracts/McapObservations.antt =====
-- packages/contracts/src/robotics_runtime_contracts/_mcap_observations.py: the facts observed while
-- the records of an MCAP file are read in order.
--
-- The record classes are those of the MCAP library: of a schema, a channel and a message the model
-- has the fields that the source reads, and `Body`, with its `==`, for the others.
mod Times
pub mod Counts
pub mod References
mod Tests
use robotics_runtime.Base.{
  ℕ, ◌+◌, min, max, Bool, true, false, not, ◌&&◌, Option, none, some, List, [], ◌∷◌, ◌++◌, ◌==◌,
  if◌then◌else◌, Result, ok, ◌>>=◌, ◌>>◌, raise_if, length,
}

pub data WriterError : Type 0 where
  zero_schema_id missing_schema undefined_schema conflicting_definition summary_only_definition
        message_after_data_end undefined_channel auxiliary_after_data_end duplicate_data_end
        missing_data_end :
      WriterError

pub record Schema (Body : Type 0) : Type 0 where
  pub id : ℕ
  pub body : Body

pub record Channel (Body : Type 0) : Type 0 where
  pub id : ℕ
  pub schema_id : ℕ
  pub body : Body

-- `McapRecord`; `other` is a record that the source passes over.
pub data McapRecord (Body : Type 0) : Type 0 where
  schema : Schema Body → McapRecord Body
  channel : Channel Body → McapRecord Body
  message : ℕ → ℕ → McapRecord Body
  attachment metadata data_end other : McapRecord Body

pub record Observations (Body : Type 0) : Type 0 where
  pub schemas : List (Schema Body)
  pub channels : List (Channel Body)
  pub messages : List (ℕ × ℕ)
  pub attachments : ℕ
  pub metadata : ℕ
  pub start : Option ℕ
  pub end : ℕ
  pub in_summary : Bool

-- `Observations()`
abbrev pub nothing_observed : (Body : Type 0) → Observations Body
nothing_observed Body = record {
  schemas = [];
  channels = [];
  messages = [];
  attachments = 0;
  metadata = 0;
  start = none;
  end = 0;
  in_summary = false;
}

-- `messages[key] += 1` of a `Counter`
unfoldable pub increment : ℕ → List (ℕ × ℕ) → List (ℕ × ℕ)
increment key [] = (key, 1) ∷ []
increment key ((k, n) ∷ rest) =
    let later = increment key rest in if k == key then (k, n + 1) ∷ rest else (k, n) ∷ later

-- `sum(counter.values())`
unfoldable pub sum_values : List (ℕ × ℕ) → ℕ
sum_values [] = 0
sum_values ((k, n) ∷ rest) = n + sum_values rest

-- `start` after another time
abbrev pub earliest : Option ℕ → ℕ → ℕ
earliest none time = time
earliest (some start) time = min start time

-- The dictionaries by `id` are lists of their values: `definitions.get(id)`, where `key` is the id.
unfoldable pub find {ℓ} : {A : Type ℓ} → (A → ℕ) → ℕ → List A → Option A
find key id [] = none
find key id (r ∷ rest) = let later = find key id rest in if key r == id then some r else later

abbrev pub is_defined {ℓ} : {A : Type ℓ} → (A → ℕ) → ℕ → List A → Bool
is_defined key id definitions = elim (find key id definitions) [ none ↦ false | some r ↦ true ]

-- `_definition`
unfoldable pub definition :
    {A : Type 0} → (A → ℕ) → (A → A → Bool) → List A → A → Bool → Result WriterError (List A)
unfolding find
definition key same definitions r in_summary = elim (find key (key r) definitions) [
  | some previous ↦ raise_if (not (same r previous)) conflicting_definition >> ok definitions
  | none ↦ raise_if in_summary summary_only_definition >> ok (definitions ++ (r ∷ []))
]

module _ {Body : Type 0} (same_body : Body → Body → Bool) where
  abbrev pub same_schema : Schema Body → Schema Body → Bool
  same_schema a b = (a.id == b.id) && same_body a.body b.body

  abbrev pub same_channel : Channel Body → Channel Body → Bool
  same_channel a b = (a.id == b.id) && ((a.schema_id == b.schema_id) && same_body a.body b.body)

  -- `Observations.definition`, of a schema and of a channel
  unfoldable pub define_schema :
      Observations Body → Schema Body → Result WriterError (Observations Body)
  unfolding definition
  define_schema o s = do
    raise_if (s.id == 0) zero_schema_id
    schemas ← definition (λ (r : Schema Body). r.id) same_schema o.schemas s o.in_summary
    ok (record o { schemas = schemas })

  unfoldable pub define_channel :
      Observations Body → Channel Body → Result WriterError (Observations Body)
  unfolding definition
  define_channel o c = do
    raise_if (c.schema_id == 0) missing_schema
    raise_if (not (is_defined (λ (r : Schema Body). r.id) c.schema_id o.schemas)) undefined_schema
    channels ← definition (λ (r : Channel Body). r.id) same_channel o.channels c o.in_summary
    ok (record o { channels = channels })

  -- `Observations.message`
  unfoldable pub count_message : Observations Body → ℕ → ℕ → Result WriterError (Observations Body)
  unfolding increment find
  count_message o channel_id log_time = do
    raise_if o.in_summary message_after_data_end
    raise_if (not (is_defined (λ (r : Channel Body). r.id) channel_id o.channels)) undefined_channel
    ok (record o {
      messages = increment channel_id o.messages;
      start = some (earliest o.start log_time);
      end = max o.end log_time;
    })

  -- `Observations.auxiliary`, of an attachment and of metadata
  unfoldable pub count_attachment : Observations Body → Result WriterError (Observations Body)
  count_attachment o =
      raise_if o.in_summary auxiliary_after_data_end
      >> ok (record o { attachments = o.attachments + 1 })

  unfoldable pub count_metadata : Observations Body → Result WriterError (Observations Body)
  count_metadata o =
      raise_if o.in_summary auxiliary_after_data_end >> ok (record o { metadata = o.metadata + 1 })

  -- `Observations.observe`
  unfoldable pub observe :
      Observations Body → McapRecord Body → Result WriterError (Observations Body)
  unfolding define_schema define_channel count_message count_attachment count_metadata
  observe o data_end =
      raise_if o.in_summary duplicate_data_end >> ok (record o { in_summary = true })
  observe o (schema s) = define_schema o s
  observe o (channel c) = define_channel o c
  observe o (message channel_id log_time) = count_message o channel_id log_time
  observe o attachment = count_attachment o
  observe o metadata = count_metadata o
  observe o other = ok o

  -- the loop over the records of a file
  unfoldable pub observe_all :
      Observations Body → List (McapRecord Body) → Result WriterError (Observations Body)
  unfolding observe
  observe_all o [] = ok o
  observe_all o (r ∷ rs) = observe o r >>= λ p. observe_all p rs

-- the dictionary that `Observations.statistics` returns
pub record Statistics : Type 0 where
  pub message_count : ℕ
  pub schema_count : ℕ
  pub channel_count : ℕ
  pub attachment_count : ℕ
  pub metadata_count : ℕ
  pub message_start_time_ns : ℕ
  pub message_end_time_ns : ℕ

-- `Observations.statistics`
unfoldable pub statistics : {Body : Type 0} → Observations Body → Result WriterError Statistics
unfolding sum_values
statistics o = do
  raise_if (not o.in_summary) missing_data_end
  ok (record {
    message_count = sum_values o.messages;
    schema_count = length o.schemas;
    channel_count = length o.channels;
    attachment_count = o.attachments;
    metadata_count = o.metadata;
    message_start_time_ns = elim o.start [ none ↦ 0 | some t ↦ t ];
    message_end_time_ns = o.end;
  })
