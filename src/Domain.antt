-- ===== src/Domain.antt =====
-- The data that the components exchange: src/contracts/messages.ts and src/schedule/types.ts.
-- An identifier (event, message, chat, task or run id) is a number: the code compares
-- identifiers for equality, and the database orders them. A `Date` is its count of milliseconds.
use minori.Common.{ℕ, String, List, Bool, true, false}

abbrev pub Ident : Type 0
Ident = ℕ

abbrev pub Time : Type 0
Time = ℕ

pub data ChatType : Type 0 where
  group p2p : ChatType

pub data Content : Type 0 where
  text : String → List String → Content
  unsupported : String → Content

pub record NormalizedMessage : Type 0 where
  pub event_id : Ident
  pub message_id : Ident
  pub chat_id : Ident
  pub conversation_key : Ident
  pub sender_open_id : Ident
  pub chat_type : ChatType
  pub content : Content
  pub occurred_at : Time

pub data CalendarSchedule : Type 0 where
  once : Time → String → CalendarSchedule
  cron : String → String → CalendarSchedule

abbrev pub is_once : CalendarSchedule → Bool
is_once (once at timezone) = true
is_once (cron expression timezone) = false

pub data ScheduleState : Type 0 where
  active paused in_flight completed deleted : ScheduleState

-- `ScheduledRunStatus`; its `completed` is written `RunStatus.done` here.
pub data RunStatus : Type 0 where
  queued processing done failed cancelled delivery_uncertain : RunStatus

pub record ScheduleTarget : Type 0 where
  pub chat_id : Ident
  pub display_name : String
  pub chat_type : ChatType

pub record ScheduledContext : Type 0 where
  pub chat_id : Ident
  pub display_name : String
