-- ===== src/Events/Progress.antt =====
-- The methods of `PostgresEventStore` that a claim's holder calls while it works:
-- `markReplyStarted`, `markProgressAttempted` and `confirmProgressSent`.
use minori.Common.{
  ℕ, String, List, Option, none, some, Bool, ◌&&◌, ◌==◌, is_some, is_none, or_default,
}
use minori.Common.Table.{count, update}
use minori.Domain.{Ident, Time}
use minori.Database.{PreparedReplyKind, EventOutcome, EventRow}
use minori.Events.{Fenced, holds}
use minori.Events.Settle.{empty_outcome, fenced_update}

-- `preparedReply === undefined ? {} : { outcome: … }`
abbrev pub prepared_outcome :
    Option (String × PreparedReplyKind) → Option EventOutcome → Option EventOutcome
prepared_outcome none old = old
prepared_outcome (some (text, kind)) old =
    some (record empty_outcome { prepared_reply_text = some text; prepared_reply_kind = some kind })

abbrev pub reply_started_row :
    String → Time → Option (String × PreparedReplyKind) → Time → EventRow → EventRow
reply_started_row key attempted_at prepared now e = record e {
  reply_idempotency_key = some key;
  reply_attempted_at = some attempted_at;
  outcome = prepared_outcome prepared e.outcome;
  updated_at = now;
}

unfoldable pub mark_reply_started :
    Ident
    → ℕ
    → String
    → Time
    → Option (String × PreparedReplyKind)
    → Time
    → List EventRow
    → List EventRow × Fenced (Unit {0})
unfolding fenced_update
mark_reply_started event_id claim_attempt key attempted_at prepared now es =
    fenced_update (holds event_id claim_attempt) (reply_started_row key attempted_at prepared now)
      es

abbrev pub may_attempt_progress : Ident → ℕ → EventRow → Bool
may_attempt_progress event_id claim_attempt e =
    holds event_id claim_attempt e
    && (is_none e.reply_attempted_at && is_none e.progress_attempted_at)

abbrev pub progress_row : Time → Time → EventRow → EventRow
progress_row attempted_at now e = record e {
  progress_attempted_at = some attempted_at;
  updated_at = now;
}

unfoldable pub mark_progress_attempted :
    Ident → ℕ → Time → Time → List EventRow → List EventRow × Bool
mark_progress_attempted event_id claim_attempt attempted_at now es =
    let hit = may_attempt_progress event_id claim_attempt in
    (update hit (progress_row attempted_at now) es, count hit es == 1)

abbrev pub progress_sent_row : Ident → Time → EventRow → EventRow
progress_sent_row message_id now e = record e {
  progress_message_id = some message_id;
  updated_at = now;
}

abbrev pub may_confirm_progress : Ident → ℕ → EventRow → Bool
may_confirm_progress event_id claim_attempt e =
    holds event_id claim_attempt e
    && (is_some e.progress_attempted_at
        && (is_none e.progress_message_id && is_none e.reply_attempted_at))

unfoldable pub confirm_progress_sent :
    Ident → ℕ → Ident → Time → List EventRow → List EventRow × Bool
confirm_progress_sent event_id claim_attempt message_id now es =
    let hit = may_confirm_progress event_id claim_attempt in
    (update hit (progress_sent_row message_id now) es, count hit es == 1)

-- The mark that `beginWrite` of src/storage/agent-run-store.ts sets before a write is sent.
abbrev pub writing_row : Time → EventRow → EventRow
writing_row now e = record e {
  write_started_at = some (or_default e.write_started_at now);
  updated_at = now;
}

unfoldable pub mark_write_started :
    Ident → ℕ → Time → List EventRow → List EventRow × Fenced (Unit {0})
unfolding fenced_update
mark_write_started event_id claim_attempt now es =
    fenced_update (holds event_id claim_attempt) (writing_row now) es
