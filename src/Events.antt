-- ===== src/Events.antt =====
-- The durable message queue: `PostgresEventStore` of src/storage/event-store.ts.
-- Each method is one transaction: a function from the rows before it to the rows after it and
-- its result. `now` is the transaction's clock reading.
pub mod Reported
pub mod Settle
pub mod Progress
pub mod Calls
pub mod Rows
pub mod Lives
pub mod Fencing
pub mod Capacity
pub mod Serial
pub mod Turns
pub mod Once
pub mod Tests
use text.Mathlib.Text.{◌==◌ as str_eq}
use minori.Common.{
  ℕ, ◌+◌, ◌-◌, String, List, [], ◌∷◌, ◌++◌, map, Option, none, some, Bool, ◌&&◌, ◌||◌, not, min,
  ltb, leb, ◌==◌, if◌then◌else◌, is_none, take, sort_by,
}
use minori.Common.Table.{select, count, exists, update}
use minori.Domain.{Ident, Time, NormalizedMessage}
use minori.Database.{
  queued, processing, PreparedReplyKind, EventOutcome, EventRow, RunRow, is_queued, is_processing,
  is_active, run_is_processing,
}

abbrev pub agent_admission_concurrency : ℕ
agent_admission_concurrency = 4

pub record EventStoreOptions : Type 0 where
  pub min_retry_delay_ms : ℕ
  pub max_retry_delay_ms : ℕ

pub data EnqueueStatus : Type 0 where
  enqueued duplicate : EnqueueStatus

pub record StoredEvent : Type 0 where
  pub event_id : Ident
  pub payload : NormalizedMessage
  pub attempts : ℕ
  pub received_at : Time
  pub processing_reaction_id : Option Ident
  pub progress_attempted_at : Option Time
  pub progress_message_id : Option Ident
  pub write_started_at : Option Time
  pub reply_idempotency_key : Option String
  pub reply_attempted_at : Option Time
  pub prepared_reply_text : Option String
  pub prepared_reply_kind : Option PreparedReplyKind

-- A fenced method throws `StaleEventClaimError` when its claim is not the current one.
pub data Fenced {ℓ} (A : Type ℓ) : Type ℓ where
  done : A → Fenced A
  stale_event_claim : Fenced A

-- The constructor's check of its options.
unfoldable pub valid_options : EventStoreOptions → Bool
valid_options o = leb o.min_retry_delay_ms o.max_retry_delay_ms

unfoldable pub new_row : NormalizedMessage → Time → EventRow
new_row m now = record {
  event_id = m.event_id;
  message_id = m.message_id;
  payload = m;
  conversation_key = m.conversation_key;
  status = queued;
  attempts = 0;
  next_attempt_at = now;
  leased_until = none;
  processing_reaction_id = none;
  progress_attempted_at = none;
  progress_message_id = none;
  write_started_at = none;
  reply_idempotency_key = none;
  reply_attempted_at = none;
  reply_message_id = none;
  outcome = none;
  received_at = now;
  updated_at = now;
}

unfoldable pub enqueue : NormalizedMessage → Time → List EventRow → List EventRow × EnqueueStatus
unfolding new_row
enqueue m now es =
    if exists (λ e. e.event_id == m.event_id) es
    then (es, duplicate)
    else (es ++ new_row m now ∷ [], enqueued)

-- `order by received_at, event_id`
abbrev pub earlier : EventRow → EventRow → Bool
earlier a b =
    ltb a.received_at b.received_at || (a.received_at == b.received_at && ltb a.event_id b.event_id)

-- An active event of the same conversation that comes before `e`.
abbrev pub precedes : EventRow → EventRow → Bool
precedes e o = is_active o.status && (o.conversation_key == e.conversation_key && earlier o e)

-- `conversation_position = 1` among the active events.
unfoldable pub is_head : List EventRow → EventRow → Bool
is_head es e = not (exists (precedes e) es)

-- The conditions on a candidate. `locked` are the rows that `skip locked` passes over.
unfoldable pub eligible : List RunRow → List EventRow → Time → EventRow → Bool
unfolding is_head
eligible runs es now e =
    is_queued e.status
    && (is_head es e
        && (leb e.next_attempt_at now
            && not (
                exists
                  (λ r. run_is_processing r.status && r.result_target.chat_id == e.conversation_key)
                  runs)))

-- `greatest(0, concurrency - processing events - processing runs)`
unfoldable pub slots : List RunRow → List EventRow → ℕ
slots runs es =
    agent_admission_concurrency
    - count (λ e. is_processing e.status) es
    - count (λ r. run_is_processing r.status) runs

unfoldable pub candidates :
    (EventRow → Bool) → ℕ → Time → List RunRow → List EventRow → List EventRow
unfolding eligible slots
candidates locked limit now runs es =
    take (min (slots runs es) limit)
      (sort_by earlier (select (λ e. eligible runs es now e && not (locked e)) es))

abbrev pub claimed_row : Time → Time → EventRow → EventRow
claimed_row lease_until now e = record e {
  status = processing;
  attempts = e.attempts + 1;
  leased_until = some lease_until;
  updated_at = now;
}

abbrev pub prepared_text : Option EventOutcome → Option String
prepared_text none = none
prepared_text (some o) = o.prepared_reply_text

abbrev pub prepared_kind : Option EventOutcome → Option PreparedReplyKind
prepared_kind none = none
prepared_kind (some o) = o.prepared_reply_kind

-- `...(x ? { x } : {})`: an empty text is left out as a missing one is.
abbrev pub truthy : Option String → Option String
truthy none = none
truthy (some s) = if str_eq s "" then none else some s

unfoldable pub stored_event : EventRow → StoredEvent
stored_event e = record {
  event_id = e.event_id;
  payload = e.payload;
  attempts = e.attempts;
  received_at = e.received_at;
  processing_reaction_id = e.processing_reaction_id;
  progress_attempted_at = e.progress_attempted_at;
  progress_message_id = e.progress_message_id;
  write_started_at = e.write_started_at;
  reply_idempotency_key = truthy e.reply_idempotency_key;
  reply_attempted_at = e.reply_attempted_at;
  prepared_reply_text = truthy (prepared_text e.outcome);
  prepared_reply_kind = prepared_kind e.outcome;
}

unfoldable pub claim_ready :
    (EventRow → Bool)
    → ℕ
    → Time
    → Time
    → List RunRow
    → List EventRow
    → List EventRow × List StoredEvent
unfolding candidates stored_event
claim_ready locked limit lease_until now runs es =
    let chosen = candidates locked limit now runs es in
    let hit = λ (e : EventRow). exists (λ c. c.event_id == e.event_id) chosen in
    if limit == 0 then (es, []) else (
      update hit (claimed_row lease_until now) es,
      map (λ e. stored_event (claimed_row lease_until now e)) (select hit es),
    )

-- The fence of every method that a claim's holder calls.
abbrev pub holds : Ident → ℕ → EventRow → Bool
holds event_id claim_attempt e =
    e.event_id == event_id && (is_processing e.status && e.attempts == claim_attempt)

abbrev pub attached_row : Ident → Time → EventRow → EventRow
attached_row reaction_id now e = record e {
  processing_reaction_id = some reaction_id;
  updated_at = now;
}

unfoldable pub attach_processing_reaction :
    Ident → Ident → Time → List EventRow → List EventRow × Bool
attach_processing_reaction event_id reaction_id now es =
    let hit = λ (e : EventRow).
      e.event_id == event_id && (is_active e.status && is_none e.processing_reaction_id) in
    (update hit (attached_row reaction_id now) es, count hit es == 1)
