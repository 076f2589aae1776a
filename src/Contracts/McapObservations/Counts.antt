-- ===== src/Contracts/McapObservations/Counts.antt =====
-- The counters of the observations are counts over the records, and the times their extrema.
use robotics_runtime.Base.{
  ℕ, ◌+◌, ◌≤◌, ◌≡◌, refl, sym, ap, ◌∙◌, subst, Bool, true, false, not, List, [], ◌∷◌, ok_injective,
  bind-ok, raise_if-ok, arith, ◌==◌, ok, raise_if, count_if, All,
}
use robotics_runtime.Contracts.McapObservations.{
  Schema, Channel, McapRecord, schema, channel, message, attachment, metadata, data_end, other,
  Observations, nothing_observed, increment, sum_values, zero_schema_id, missing_schema,
  undefined_schema, message_after_data_end, undefined_channel, auxiliary_after_data_end,
  duplicate_data_end, missing_data_end, is_defined, definition, same_schema, same_channel, observe,
  observe_all, Statistics, statistics,
}
use robotics_runtime.Contracts.McapObservations.Times.{
  IsReached, end-IsReached, first_time-bound, greatest_time, greatest_time-bound,
  greatest_time-cons, least_time, least_time-cons, log_times, start-IsReached, start_ns,
}

module _ {Body : Type 0} where
  abbrev pub is_message : McapRecord Body → Bool
  is_message (message c t) = true
  is_message _ = false

  abbrev pub is_attachment : McapRecord Body → Bool
  is_attachment attachment = true
  is_attachment _ = false

  abbrev pub is_metadata : McapRecord Body → Bool
  is_metadata metadata = true
  is_metadata _ = false

  abbrev pub is_data_end : McapRecord Body → Bool
  is_data_end data_end = true
  is_data_end _ = false

sum_values-increment :
    (key : ℕ) (counter : List (ℕ × ℕ)) → sum_values (increment key counter) ≡ sum_values counter + 1
unfolding sum_values increment
sum_values-increment key [] = omega arith
sum_values-increment key ((k, n) ∷ rest) = ground (arith, sum_values-increment key rest)

abbrev flag : Bool → ℕ
flag true = 1
flag false = 0

-- What the observations have gained.
record HasGained {Body : Type 0} (o p : Observations Body) (rs : List (McapRecord Body))
    : Type 0 where
  pub messages : sum_values p.messages ≡ sum_values o.messages + count_if is_message rs
  pub attachments : p.attachments ≡ o.attachments + count_if is_attachment rs
  pub metadata : p.metadata ≡ o.metadata + count_if is_metadata rs
  pub ends : flag p.in_summary ≡ flag o.in_summary + count_if is_data_end rs
  pub start : p.start ≡ least_time o.start rs
  pub end : p.end ≡ greatest_time o.end rs

count_if-cons {ℓ} :
    {A : Type ℓ} (p : A → Bool) (x : A) (xs : List A)
    → count_if p (x ∷ xs) ≡ count_if p (x ∷ []) + count_if p xs
unfolding count_if
count_if-cons p x xs = ground arith

-- Nothing that is counted has changed.
same-HasGained :
    {Body : Type 0} (o p : Observations Body) (r : McapRecord Body)
    → count_if is_message (r ∷ []) ≡ 0
    → count_if is_attachment (r ∷ []) ≡ 0
    → count_if is_metadata (r ∷ []) ≡ 0
    → count_if is_data_end (r ∷ []) ≡ 0
    → least_time o.start (r ∷ []) ≡ o.start
    → greatest_time o.end (r ∷ []) ≡ o.end
    → p.messages ≡ o.messages
    → (p.attachments ≡ o.attachments)
      × (p.metadata ≡ o.metadata)
      × (p.in_summary ≡ o.in_summary)
      × (p.start ≡ o.start)
      × (p.end ≡ o.end)
    → HasGained o p (r ∷ [])
same-HasGained o p r a b c d e f messages (attached, described, in_summary, start, end) = record {
  messages = omega (arith, a, ap sum_values messages);
  attachments = omega (arith, b, attached);
  metadata = omega (arith, c, described);
  ends = omega (arith, d, ap flag in_summary);
  start = start ∙ sym e;
  end = end ∙ sym f;
}

module _ {Body : Type 0} (same_body : Body → Body → Bool) where
  -- one record
  observe-HasGained :
      (o p : Observations Body) (r : McapRecord Body)
      → observe same_body o r ≡ ok p
      → HasGained o p (r ∷ [])
  unfolding observe count_if
  observe-HasGained o p (schema s) h =
      let (_, _, k) = bind-ok (raise_if (s.id == 0) zero_schema_id) _ p h in
      let (defs, _, l) =
        bind-ok
          (definition (λ (r : Schema Body). r.id) (same_schema same_body) o.schemas s o.in_summary)
          _ p k in
      subst (λ q. HasGained o q (schema s ∷ [])) (ok_injective l)
        (same-HasGained o (record o { schemas = defs }) (schema s) refl refl refl refl refl refl
          refl (refl, refl, refl, refl, refl))
  observe-HasGained o p (channel c) h =
      let (_, _, j) = bind-ok (raise_if (c.schema_id == 0) missing_schema) _ p h in
      let (_, _, k) =
        bind-ok
          (raise_if (not (is_defined (λ (r : Schema Body). r.id) c.schema_id o.schemas))
            undefined_schema)
          _ p j in
      let (defs, _, l) =
        bind-ok
          (definition (λ (r : Channel Body). r.id) (same_channel same_body) o.channels c
            o.in_summary)
          _ p k in
      subst (λ q. HasGained o q (channel c ∷ [])) (ok_injective l)
        (same-HasGained o (record o { channels = defs }) (channel c) refl refl refl refl refl refl
          refl (refl, refl, refl, refl, refl))
  observe-HasGained o p (message c t) h =
      let (_, _, j) = bind-ok (raise_if o.in_summary message_after_data_end) _ p h in
      let (_, _, k) =
        bind-ok
          (raise_if (not (is_defined (λ (r : Channel Body). r.id) c o.channels)) undefined_channel)
          _ p j in
      subst (λ q. HasGained o q (message c t ∷ [])) (ok_injective k)
        (record {
          messages = sum_values-increment c o.messages;
          attachments = omega arith;
          metadata = omega arith;
          ends = omega arith;
          start = refl;
          end = refl;
        })
  observe-HasGained o p attachment h =
      let (_, _, k) = bind-ok (raise_if o.in_summary auxiliary_after_data_end) _ p h in
      subst (λ q. HasGained o q (attachment ∷ [])) (ok_injective k)
        (record {
          messages = omega arith;
          attachments = refl;
          metadata = omega arith;
          ends = omega arith;
          start = refl;
          end = refl;
        })
  observe-HasGained o p metadata h =
      let (_, _, k) = bind-ok (raise_if o.in_summary auxiliary_after_data_end) _ p h in
      subst (λ q. HasGained o q (metadata ∷ [])) (ok_injective k)
        (record {
          messages = omega arith;
          attachments = omega arith;
          metadata = refl;
          ends = omega arith;
          start = refl;
          end = refl;
        })
  observe-HasGained o p data_end h =
      let (u, e, k) = bind-ok (raise_if o.in_summary duplicate_data_end) _ p h in
      let fresh = raise_if-ok o.in_summary _ u e in
      subst (λ q. HasGained o q (data_end ∷ [])) (ok_injective k)
        (record {
          messages = omega arith;
          attachments = omega arith;
          metadata = omega arith;
          ends = omega (arith, ap flag fresh);
          start = refl;
          end = refl;
        })
  observe-HasGained o p other h =
      subst (λ q. HasGained o q (other ∷ [])) (ok_injective h)
        (same-HasGained o o other refl refl refl refl refl refl refl (refl, refl, refl, refl, refl))

  joined :
      (o q p : Observations Body) (r : McapRecord Body) (rs : List (McapRecord Body))
      → HasGained o q (r ∷ [])
      → HasGained q p rs
      → HasGained o p (r ∷ rs)
  unfolding count_if
  joined o q p r rs a b = record {
    messages = omega (arith, a.messages, b.messages, count_if-cons is_message r rs);
    attachments = omega (arith, a.attachments, b.attachments, count_if-cons is_attachment r rs);
    metadata = omega (arith, a.metadata, b.metadata, count_if-cons is_metadata r rs);
    ends = omega (arith, a.ends, b.ends, count_if-cons is_data_end r rs);
    start = b.start ∙ (ap (λ t. least_time t rs) a.start ∙ sym (least_time-cons o.start r rs));
    end = b.end ∙ (ap (λ t. greatest_time t rs) a.end ∙ sym (greatest_time-cons o.end r rs));
  }

  observe_all-HasGained :
      (o p : Observations Body) (rs : List (McapRecord Body))
      → observe_all same_body o rs ≡ ok p
      → HasGained o p rs
  unfolding observe_all count_if
  observe_all-HasGained o p [] h =
      subst (λ q. HasGained o q []) (ok_injective h)
        (record {
          messages = omega arith;
          attachments = omega arith;
          metadata = omega arith;
          ends = omega arith;
          start = refl;
          end = refl;
        })
  observe_all-HasGained o p (r ∷ rs) h =
      let (q, e, k) = bind-ok (observe same_body o r) _ p h in
      joined o q p r rs (observe-HasGained o q r e) (observe_all-HasGained q p rs k)

-- The statistics are those of the records: their numbers, one end of the data, and the least and
-- the greatest log time of the messages, or 0.
pub record AreStatisticsOf {Body : Type 0} (s : Statistics) (rs : List (McapRecord Body))
    : Type 0 where
  pub messages : s.message_count ≡ count_if is_message rs
  pub attachments : s.attachment_count ≡ count_if is_attachment rs
  pub metadata : s.metadata_count ≡ count_if is_metadata rs
  pub ends : count_if is_data_end rs ≡ 1
  pub start : All (λ t. s.message_start_time_ns ≤ t) (log_times rs)
  pub start_reached : IsReached s.message_start_time_ns (log_times rs)
  pub end_reached : IsReached s.message_end_time_ns (log_times rs)
  pub end : All (λ t. t ≤ s.message_end_time_ns) (log_times rs)

-- If the records of a file are observed without an error, from nothing, and have statistics,
-- these are those of the records: the numbers of messages, attachments and metadata records, one
-- end of the data, and the least and the greatest log time of the messages, or 0 where there are
-- none.
pub statistics-AreStatisticsOf :
    {Body : Type 0} (same_body : Body → Body → Bool) (rs : List (McapRecord Body))
    (o : Observations Body) (s : Statistics)
    → observe_all same_body (nothing_observed Body) rs ≡ ok o
    → statistics o ≡ ok s
    → AreStatisticsOf s rs
unfolding statistics sum_values
statistics-AreStatisticsOf {Body} same_body rs o s h k =
    let gained = observe_all-HasGained same_body (nothing_observed Body) o rs h in
    let (u, e, l) = bind-ok (raise_if (not o.in_summary) missing_data_end) _ s k in
    let closed = raise_if-ok (not o.in_summary) _ u e in
    subst (λ t. AreStatisticsOf t rs) (ok_injective l)
      (record {
        messages = omega (arith, gained.messages);
        attachments = omega (arith, gained.attachments);
        metadata = omega (arith, gained.metadata);
        ends = omega (arith, gained.ends, closed_flag o.in_summary closed);
        start_reached =
            subst (λ t. IsReached (start_ns t) (log_times rs)) (sym gained.start)
              (start-IsReached rs);
        end_reached = subst (λ t. IsReached t (log_times rs)) (sym gained.end) (end-IsReached rs);
        start =
            subst (λ t. All (λ u. start_ns t ≤ u) (log_times rs)) (sym gained.start)
              (first_time-bound rs);
        end =
            subst (λ t. All (λ u. u ≤ t) (log_times rs)) (sym gained.end)
              (greatest_time-bound 0 rs).1;
      })
  where
    closed_flag : (b : Bool) → not b ≡ false → flag b ≡ 1
    closed_flag true e = refl
    closed_flag false e = cc
