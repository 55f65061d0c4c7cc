-- ===== src/Database.antt =====
-- The tables of src/storage/schema.ts that the stores read and write, one record for a row.
-- A table is the list of its rows; a nullable column is an `Option`.
use minori.Common.{ℕ, String, List, Option, Bool, true, false, ◌||◌}
use minori.Domain.{
  Ident, Time, NormalizedMessage, CalendarSchedule, ScheduleState, RunStatus, ScheduleTarget,
  ScheduledContext,
}

pub data EventStatus : Type 0 where
  queued processing completed failed : EventStatus

pub data PreparedReplyKind : Type 0 where
  rich control : PreparedReplyKind

-- The JSON column `outcome`.
pub record EventOutcome : Type 0 where
  pub reply_message_id : Option Ident
  pub error_code : Option String
  pub prepared_reply_text : Option String
  pub prepared_reply_kind : Option PreparedReplyKind

-- A row of `processed_events`.
pub record EventRow : Type 0 where
  pub event_id : Ident
  pub message_id : Ident
  pub payload : NormalizedMessage
  pub conversation_key : Ident
  pub status : EventStatus
  pub attempts : ℕ
  pub next_attempt_at : Time
  pub leased_until : Option Time
  pub processing_reaction_id : Option Ident
  pub progress_attempted_at : Option Time
  pub progress_message_id : Option Ident
  pub write_started_at : Option Time
  pub reply_idempotency_key : Option String
  pub reply_attempted_at : Option Time
  pub reply_message_id : Option Ident
  pub outcome : Option EventOutcome
  pub received_at : Time
  pub updated_at : Time

abbrev pub is_queued : EventStatus → Bool
is_queued queued = true
is_queued _ = false

abbrev pub is_processing : EventStatus → Bool
is_processing processing = true
is_processing _ = false

-- `status in ('queued', 'processing')`
abbrev pub is_active : EventStatus → Bool
is_active s = is_queued s || is_processing s

-- The text of an idempotency key: `s:${id}:result` and `s:${id}:fallback`.
pub data DeliveryKey : Type 0 where
  result_key fallback_key : Ident → DeliveryKey

-- A row of `scheduled_runs`.
pub record RunRow : Type 0 where
  pub id : Ident
  pub schedule_id : Ident
  pub scheduled_for : Time
  pub task_version : ℕ
  pub instruction : String
  pub result_target : ScheduleTarget
  pub scheduled_context : Option ScheduledContext
  pub status : RunStatus
  pub claim_attempt : ℕ
  pub leased_until : Option Time
  pub write_started_at : Option Time
  pub delivery_idempotency_key : Option DeliveryKey
  pub prepared_result_text : Option String
  pub delivery_attempted_at : Option Time
  pub delivery_message_id : Option Ident
  pub fallback_attempted_at : Option Time
  pub fallback_message_id : Option Ident
  pub fallback_outcome_category : Option String
  pub outcome_category : Option String
  pub created_at : Time
  pub updated_at : Time

abbrev pub run_is_queued : RunStatus → Bool
run_is_queued RunStatus.queued = true
run_is_queued _ = false

abbrev pub run_is_processing : RunStatus → Bool
run_is_processing RunStatus.processing = true
run_is_processing _ = false

abbrev pub run_is_cancelled : RunStatus → Bool
run_is_cancelled RunStatus.cancelled = true
run_is_cancelled _ = false

abbrev pub run_is_active : RunStatus → Bool
run_is_active s = run_is_queued s || run_is_processing s

-- A row of `scheduled_tasks`. Its columns `schedule_kind`, `once_at`, `cron_expression` and
-- `timezone` are the schedule that `asSchedule` reads from them.
pub record TaskRow : Type 0 where
  pub id : Ident
  pub name : String
  pub creator_open_id : Ident
  pub origin : ScheduleTarget
  pub current_version : ℕ
  pub schedule : CalendarSchedule
  pub result_target : ScheduleTarget
  pub scheduled_context : Option ScheduledContext
  pub state : ScheduleState
  pub name_reserved : Bool
  pub next_due_at : Option Time
  pub latest_missed_at : Option Time
  pub latest_run_status : Option RunStatus
  pub completed_at : Option Time
  pub deleted_at : Option Time
  pub body_purged_at : Option Time
  pub created_at : Time
  pub updated_at : Time

-- A row of `scheduled_task_revisions`.
pub record RevisionRow : Type 0 where
  pub schedule_id : Ident
  pub version : ℕ
  pub actor_open_id : Ident
  pub instruction : Option String
  pub schedule : CalendarSchedule
  pub result_target : ScheduleTarget
  pub scheduled_context : Option ScheduledContext
  pub body_purged_at : Option Time

-- What one transaction reads and writes.
pub record Database : Type 0 where
  pub events : List EventRow
  pub tasks : List TaskRow
  pub revisions : List RevisionRow
  pub runs : List RunRow
