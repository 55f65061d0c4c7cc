-- ===== src/Scheduled.antt =====
-- One scheduled run from claim to end: `processOne` of src/schedule/worker.ts on the shared
-- database. Between any two of its transactions others commit theirs, the heartbeat's `extendLease`
-- among them. The texts of notices are not read by anything, and left out.
pub mod Steps
pub mod Process
pub mod Ends
pub mod Endings
pub mod Undisturbed
pub mod Tests
use minori.Common.{
  ℕ, ◌+◌, String, List, [], ◌∷◌, ◌++◌, Option, none, some, Bool, true, false, ◌||◌, not, max,
  if◌then◌else◌,
}
use minori.Domain.{Ident, Time}
use minori.Database.{RunRow, TaskRow, Database, DeliveryKey, PreparedReplyKind, rich, control}
use minori.Runs.Claim.{claim_next, extend_lease}
use minori.Runs.Deliver.{
  Outcome, ok, prepare_delivery, mark_delivered, begin_fallback, finish_fallback,
}
use minori.Runs.Finish.{
  FinishOutcome, completed, failed, delivery_uncertain, FinishResult, finished, claim_stale,
  task_missing, finish,
}
use minori.Schedules.{get}
use minori.Admission.{Move, with_runs}
use minori.Admission.History.{history}

abbrev pub delivery_lease_ms : ℕ
delivery_lease_ms = 900_000

-- `runScheduled`: a reply with its outcome `completed` or not, or an error.
pub data AgentResult : Type 0 where
  replied : String → Bool → AgentResult
  agent_threw : AgentResult

pub data Delivery : Type 0 where
  delivered : Ident → Delivery
  scheduled_delivery_rejected delivery_threw : Delivery

-- What happens outside: the transactions of others before the worker's with a number, the clock at
-- each, whether the lease was lost at each of the checks, and the answers of the agent and the chat
-- platform. `failure_text` is the text for a task's name.
pub record Outside : Type 0 where
  pub others : ℕ → List Move
  pub clock : ℕ → Time
  pub lease_lost : ℕ → Bool
  pub agent : AgentResult
  pub result_delivery : Delivery
  pub notice_delivery : Option Ident
  pub failure_text : String → String

pub data Sent : Type 0 where
  result_sent : PreparedReplyKind → Ident → String → DeliveryKey → Sent
  notice_sent : Ident → DeliveryKey → Sent

-- The boolean result, or an error.
pub data Ended : Type 0 where
  no_run returned threw : Ended

pub record Processed : Type 0 where
  pub database : Database
  pub sent : List Sent
  pub ended : Ended

abbrev pub stopped : Database → Processed
stopped db = record { database = db; sent = []; ended = returned }

abbrev pub before : Outside → ℕ → Database → Database
before o k db = history (o.others k) db

abbrev pub ended_by : FinishResult → Ended
ended_by finished = returned
ended_by claim_stale = threw
ended_by task_missing = threw

unfoldable pub end_run : Outside → ℕ → RunRow → FinishOutcome → Option String → Database → Processed
end_run o k run outcome category db =
    let (db', result) =
      finish run.id run.claim_attempt outcome category (o.clock k) (before o k db) in
    record { database = db'; sent = []; ended = ended_by result }

abbrev pub also_sent : Sent → Processed → Processed
also_sent s p = record p { sent = s ∷ p.sent }

-- `deliveryCategory`: whether the platform rejected the message.
abbrev pub category_text : Bool → String
category_text true = "scheduled_delivery_rejected"
category_text false = "delivery_uncertain"

abbrev pub end_after_fallback : Outside → RunRow → Bool → Database → Processed
unfolding end_run
end_after_fallback o run rejected db =
    end_run o 8 run (if rejected then failed else delivery_uncertain)
      (some (category_text rejected)) db

abbrev pub note_fallback : Outside → RunRow → Option Ident → Option String → Database → Database
note_fallback o run message_id category db =
    let db' = before o 7 db in
    with_runs db' (finish_fallback run.id message_id category (o.clock 7) db'.runs)

-- The notice is sent, and its outcome noted.
unfoldable pub notice_answered : Outside → RunRow → Bool → Database → Option Ident → Processed
unfolding end_run
notice_answered o run rejected db (some message_id) =
    end_after_fallback o run rejected (note_fallback o run (some message_id) none db)
notice_answered o run rejected db none =
    end_after_fallback o run rejected
      (note_fallback o run none (some "schedule_origin_delivery_failed") db)

unfoldable pub fallback_begun :
    Outside → TaskRow → RunRow → Bool → Database → Outcome DeliveryKey → Processed
unfolding notice_answered
fallback_begun o t run rejected db (ok key) =
    also_sent (notice_sent t.origin.chat_id key)
      (notice_answered o run rejected db o.notice_delivery)
fallback_begun o t run rejected db _ = notice_answered o run rejected db none

-- The branch of an error in the delivery.
unfoldable pub fall_back : Outside → TaskRow → RunRow → Bool → Database → Processed
unfolding fallback_begun
fall_back o t run rejected db =
    let db' = before o 6 db in
    let (rs, key) = begin_fallback run.id run.claim_attempt (o.clock 6) db'.runs in
    fallback_begun o t run rejected (with_runs db' rs) key

abbrev pub outcome_category : FinishOutcome → Option String
outcome_category failed = some "scheduled_run_failed"
outcome_category _ = none

-- The end of a run whose result was delivered; an error of `finish` leads to the fallback.
unfoldable pub finish_answered : Outside → TaskRow → RunRow → Processed → Ended → Processed
unfolding fall_back
finish_answered o t run p threw = fall_back o t run false p.database
finish_answered o t run p _ = p

unfoldable pub delivery_marked :
    Outside → TaskRow → RunRow → FinishOutcome → Database → Outcome (Unit {0}) → Processed
unfolding finish_answered fall_back end_run
delivery_marked o t run outcome db (ok u) =
    let p = end_run o 5 run outcome (outcome_category outcome) db in
    finish_answered o t run p p.ended
delivery_marked o t run outcome db _ = fall_back o t run false db

unfoldable pub result_answered :
    Outside → TaskRow → RunRow → FinishOutcome → Database → Delivery → Processed
unfolding delivery_marked fall_back
result_answered o t run outcome db (delivered message_id) =
    let db' = before o 4 db in
    let (rs, marked) = mark_delivered run.id run.claim_attempt message_id (o.clock 4) db'.runs in
    delivery_marked o t run outcome (with_runs db' rs) marked
result_answered o t run outcome db scheduled_delivery_rejected = fall_back o t run true db
result_answered o t run outcome db delivery_threw = fall_back o t run false db

unfoldable pub delivery_prepared :
    Outside
    → TaskRow
    → RunRow
    → FinishOutcome
    → PreparedReplyKind
    → String
    → Database
    → Outcome DeliveryKey
    → Processed
unfolding result_answered fall_back
delivery_prepared o t run outcome kind text db (ok key) =
    also_sent (result_sent kind run.result_target.chat_id text key)
      (result_answered o t run outcome db o.result_delivery)
delivery_prepared o t run outcome kind text db _ = fall_back o t run false db

-- The lease of the delivery, then the delivery.
unfoldable pub deliver :
    ℕ
    → Outside
    → TaskRow
    → RunRow
    → FinishOutcome
    → PreparedReplyKind
    → String
    → Database
    → Processed
unfolding delivery_prepared
deliver lease_ms o t run outcome kind text db =
    let db' = before o 2 db in
    let (rs, owned) =
      extend_lease run.id run.claim_attempt (max lease_ms delivery_lease_ms) (o.clock 2) (o.clock 2)
        db'.runs in
    let db'' = before o 3 (with_runs db' rs) in
    let (rs', key) = prepare_delivery run.id run.claim_attempt text (o.clock 3) db''.runs in
    if owned
    then delivery_prepared o t run outcome kind text (with_runs db'' rs') key
    else stopped (with_runs db' rs)

unfoldable pub agent_ended : ℕ → Outside → TaskRow → RunRow → Database → AgentResult → Processed
unfolding deliver
agent_ended lease_ms o t run db (replied text is_completed) =
    deliver lease_ms o t run (if is_completed then completed else failed) rich text db
agent_ended lease_ms o t run db agent_threw =
    deliver lease_ms o t run failed control (o.failure_text t.name) db

unfoldable pub task_found : ℕ → Outside → RunRow → Database → Option TaskRow → Processed
unfolding agent_ended end_run
task_found lease_ms o run db none = end_run o 1 run failed (some "scheduled_task_missing") db
task_found lease_ms o run db (some t) =
    if o.lease_lost 0 || (o.lease_lost 1 || o.lease_lost 2)
    then stopped db
    else agent_ended lease_ms o t run db o.agent

unfoldable pub run_claimed : ℕ → Outside → Database → Option RunRow → Processed
unfolding task_found
run_claimed lease_ms o db none = record { database = db; sent = []; ended = no_run }
run_claimed lease_ms o db (some run) =
    let db' = before o 0 db in task_found lease_ms o run db' (get run.schedule_id db')

unfoldable pub process_one : ℕ → Outside → Database → Processed
unfolding run_claimed
process_one lease_ms o db =
    let (db', run) = claim_next lease_ms (o.clock 0) (o.clock 0) db in
    run_claimed lease_ms o db' run
