-- ===== src/Contracts/McapObservations/Tests.antt =====
-- A file with one schema, one channel and two messages.
use robotics_runtime.Base.{ℕ, ◌≡◌, refl, Bool, true, some, List, [], ◌∷◌, ◌==◌, ok, err}
use robotics_runtime.Contracts.McapObservations.{
  McapRecord, schema, channel, message, attachment, data_end, Observations, nothing_observed,
  observe_all, Statistics, statistics,
}
use robotics_runtime.Contracts.McapObservations.{undefined_channel, message_after_data_end}
use robotics_runtime.Contracts.McapObservations.Counts.{AreStatisticsOf, statistics-AreStatisticsOf}
use robotics_runtime.Contracts.McapObservations.References.{IsClosed, observe_all-IsClosed}

abbrev records : List (McapRecord ℕ)
records =
    schema (record { id = 1; body = 40 })
    ∷ channel (record { id = 7; schema_id = 1; body = 50 })
    ∷ message 7 30
    ∷ attachment
    ∷ message 7 20
    ∷ data_end
    ∷ schema (record { id = 1; body = 40 })
    ∷ []

abbrev observed : Observations ℕ
observed = record {
  schemas = record { id = 1; body = 40 } ∷ [];
  channels = record { id = 7; schema_id = 1; body = 50 } ∷ [];
  messages = (7, 2) ∷ [];
  attachments = 1;
  metadata = 0;
  start = some 20;
  end = 30;
  in_summary = true;
}

abbrev same : ℕ → ℕ → Bool
same a b = a == b

runs : observe_all same (nothing_observed ℕ) records ≡ ok observed
unfolding observe_all
runs = refl

undefined : observe_all same (nothing_observed ℕ) (message 7 30 ∷ records) ≡ err undefined_channel
unfolding observe_all
undefined = refl

late : observe_all same observed (message 7 30 ∷ []) ≡ err message_after_data_end
unfolding observe_all
late = refl

abbrev totals : Statistics
totals = record {
  message_count = 2;
  schema_count = 1;
  channel_count = 1;
  attachment_count = 1;
  metadata_count = 0;
  message_start_time_ns = 20;
  message_end_time_ns = 30;
}

totalled : statistics observed ≡ ok totals
unfolding statistics
totalled = refl

statistics-AreStatisticsOf_example : AreStatisticsOf totals records
statistics-AreStatisticsOf_example =
    statistics-AreStatisticsOf same records observed totals runs totalled

nothing-IsClosed : IsClosed (nothing_observed ℕ)
nothing-IsClosed = record { schemas = tt; channels = tt; refer = tt; counted = tt }

observe_all-IsClosed_example : IsClosed observed
observe_all-IsClosed_example =
    observe_all-IsClosed same (nothing_observed ℕ) observed records nothing-IsClosed runs
