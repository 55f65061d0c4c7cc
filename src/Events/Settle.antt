-- ===== src/Events/Settle.antt =====
-- The methods of `PostgresEventStore` that end or give back a claim: `complete`,
-- `markReplyUncertain`, `retry` and `recoverExpiredLeases`.
use minori.Common.{
  ℕ, ◌+◌, String, List, Option, none, some, Bool, ◌&&◌, ◌||◌, min, max, not, ltb, ◌==◌,
  if◌then◌else◌, or_default, or_else, opt_leb, take, sort_by,
}
use minori.Common.Table.{select, count, exists, find, update}
use minori.Domain.{Ident, Time}
use minori.Database.{queued, completed, failed, EventOutcome, EventRow, is_processing}
use minori.Events.{EventStoreOptions, Fenced, done, stale_event_claim, holds}

-- `{ replyMessageId?, errorCode? }`
pub record Settlement : Type 0 where
  pub reply_message_id : Option Ident
  pub error_code : Option String

abbrev pub empty_outcome : EventOutcome
empty_outcome = record {
  reply_message_id = none;
  error_code = none;
  prepared_reply_text = none;
  prepared_reply_kind = none;
}

-- A column that is set to `undefined` keeps its value.
abbrev pub completed_row : Settlement → Time → EventRow → EventRow
completed_row o now e = record e {
  status = completed;
  leased_until = none;
  processing_reaction_id = none;
  reply_message_id = or_else o.reply_message_id e.reply_message_id;
  outcome =
      some
        (record empty_outcome { reply_message_id = o.reply_message_id; error_code = o.error_code });
  updated_at = now;
}

abbrev pub uncertain_row : Time → EventRow → EventRow
uncertain_row now e = record e {
  status = failed;
  leased_until = none;
  processing_reaction_id = none;
  outcome = some (record empty_outcome { error_code = some "reply_uncertain" });
  updated_at = now;
}

-- `select … for update` of the held row, then the update of that event. The result is the
-- reaction that the row carried.
unfoldable pub settle :
    (EventRow → EventRow) → Ident → ℕ → List EventRow → List EventRow × Fenced (Option Ident)
settle f event_id claim_attempt es = elim (find (holds event_id claim_attempt) es) [
  | none ↦ (es, stale_event_claim)
  | some current ↦ (update (λ e. e.event_id == event_id) f es, done current.processing_reaction_id)
]

unfoldable pub complete :
    Ident → ℕ → Settlement → Time → List EventRow → List EventRow × Fenced (Option Ident)
unfolding settle
complete event_id claim_attempt o now es = settle (completed_row o now) event_id claim_attempt es

unfoldable pub mark_reply_uncertain :
    Ident → ℕ → Time → List EventRow → List EventRow × Fenced (Option Ident)
unfolding settle
mark_reply_uncertain event_id claim_attempt now es =
    settle (uncertain_row now) event_id claim_attempt es

-- `least(greatest(nextAttemptAt, now + min), now + max)`
unfoldable pub retry_at : EventStoreOptions → Time → Time → Time
retry_at o next_attempt_at now =
    min (max next_attempt_at (now + o.min_retry_delay_ms)) (now + o.max_retry_delay_ms)

-- `coalesce(outcome, '{}') || { errorCode }`: the other entries stay.
abbrev pub with_error : Option EventOutcome → String → EventOutcome
with_error none code = record empty_outcome { error_code = some code }
with_error (some o) code = record o { error_code = some code }

abbrev pub retried_row : EventStoreOptions → String → Time → Time → EventRow → EventRow
retried_row o code next_attempt_at now e = record e {
  status = queued;
  leased_until = none;
  next_attempt_at = retry_at o next_attempt_at now;
  outcome = some (with_error e.outcome code);
  updated_at = now;
}

-- An update by `where`, refused unless it changed one row.
unfoldable pub fenced_update :
    (EventRow → Bool) → (EventRow → EventRow) → List EventRow → List EventRow × Fenced (Unit {0})
fenced_update p f es = (update p f es, if count p es == 1 then done tt else stale_event_claim)

unfoldable pub retry :
    EventStoreOptions
    → Ident
    → ℕ
    → String
    → Time
    → Time
    → List EventRow
    → List EventRow × Fenced (Unit {0})
unfolding fenced_update
retry o event_id claim_attempt code next_attempt_at now es =
    fenced_update (holds event_id claim_attempt) (retried_row o code next_attempt_at now) es

-- `order by leased_until, event_id`
abbrev pub lease_earlier : EventRow → EventRow → Bool
lease_earlier a b =
    let s = or_default a.leased_until 0 in
    let t = or_default b.leased_until 0 in ltb s t || (s == t && ltb a.event_id b.event_id)

abbrev pub recovered_row : Time → EventRow → EventRow
recovered_row now e = record e {
  status = queued;
  leased_until = none;
  next_attempt_at = now;
  updated_at = now;
}

-- The rows that `recoverExpiredLeases` selects; `locked` are those that `skip locked` passes over.
unfoldable pub expired_leases : (EventRow → Bool) → Time → ℕ → List EventRow → List EventRow
expired_leases locked deadline limit es = take limit (
    sort_by lease_earlier (
      select (λ e. (is_processing e.status && opt_leb e.leased_until deadline) && not (locked e))
        es))

-- `deadline` is the caller's clock, `now` the database's.
unfoldable pub recover_expired_leases :
    (EventRow → Bool) → Time → ℕ → Time → List EventRow → List EventRow × ℕ
unfolding expired_leases
recover_expired_leases locked deadline limit now es =
    let expired = expired_leases locked deadline limit es in
    let hit = λ (e : EventRow). exists (λ c. c.event_id == e.event_id) expired in
    if limit == 0 then (es, 0) else (update hit (recovered_row now) es, count hit es)
