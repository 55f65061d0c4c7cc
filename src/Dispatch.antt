-- ===== src/Dispatch.antt =====
-- Which occurrence of a task is due, and the poll that stores its run: src/schedule/calendar.ts
-- and src/schedule/dispatcher.ts. The iterator of the package cron-parser is a parameter. Dates lie
-- after 1970, so that the millisecond before a due time is a date of the model.
pub mod Calendar
pub mod Normalize
pub mod Written
pub mod Occurrences
pub mod Listed
pub mod Followed
pub mod Polls
pub mod Tests
use minori.Common.{
  ℕ, suc, ◌+◌, ◌-◌, String, List, [], ◌∷◌, Option, none, some, Bool, true, false, ◌||◌, not, ltb,
  leb, ◌==◌, if◌then◌else◌, or_default,
}
use minori.Domain.{Ident, Time, CalendarSchedule, once, cron}
use minori.Database.{TaskRow, Database}
use minori.Runs.{CreateDueInput, CreateDueResult, create_due}
use minori.Schedules.{list_dispatchable}
use minori.Admission.{Move}
use minori.Admission.History.{history}
use minori.Dispatch.Calendar.{Cron, Checked, ok, calendar_fail, next, latest_at_or_before}

pub record Due : Type 0 where
  pub scheduled_for : Time
  pub next_due_at : Option Time
  pub folded : Bool

abbrev pub recurring_due :
    Time → Checked (Option Time) → Checked (Option Time) → Checked (Option Due)
recurring_due next_due (calendar_fail c) following = calendar_fail c
recurring_due next_due (ok latest) (calendar_fail c) = calendar_fail c
recurring_due next_due (ok latest) (ok following) =
    let at = or_default latest next_due in
    ok
      (some (record { scheduled_for = at; next_due_at = following; folded = not (at == next_due) }))

unfoldable pub reached_due : Cron → CalendarSchedule → Time → Time → Checked (Option Due)
reached_due c (once at timezone) next_due now =
    ok (some (record { scheduled_for = next_due; next_due_at = none; folded = false }))
reached_due c (cron expression timezone) next_due now =
    recurring_due next_due (latest_at_or_before c (cron expression timezone) (next_due - 1) now)
      (next c (cron expression timezone) now)

-- The first two arguments after the calendar are `nextDueAt` and `latestMissedAt`.
unfoldable pub due_at :
    Cron → Option Time → Option Time → CalendarSchedule → Time → Checked (Option Due)
unfolding reached_due
due_at c none missed schedule now = ok none
due_at c (some next_due) none schedule now =
    if ltb now next_due then ok none else reached_due c schedule next_due now
due_at c (some next_due) (some missed) schedule now =
    if ltb now next_due
    then ok (some (record { scheduled_for = missed; next_due_at = some next_due; folded = true }))
    else reached_due c schedule next_due now

unfoldable pub due_occurrence : Cron → TaskRow → Time → Checked (Option Due)
unfolding due_at
due_occurrence c t now = due_at c t.next_due_at t.latest_missed_at t.schedule now

-- What happens outside of a poll: whether its first reads answer, with the clock of the database; for
-- each task of the list by its number, the transactions of others before that of the task, the start
-- of that one, whether it answers, and the random id of a run that it stores.
pub record Outside : Type 0 where
  pub reads_answer : Bool
  pub database_now : Time
  pub others : ℕ → List Move
  pub clock : ℕ → Time
  pub answers : ℕ → Bool
  pub ids : ℕ → Ident

-- What one poll has done so far; `failed` is that it ends with an error.
pub record Polled : Type 0 where
  pub database : Database
  pub created : ℕ
  pub folded : ℕ
  pub failed : Bool

abbrev pub counts_created : CreateDueResult → ℕ
counts_created (CreateDueResult.created run) = 1
counts_created _ = 0

abbrev pub counts_folded : Bool → CreateDueResult → ℕ
counts_folded folded CreateDueResult.active_run = 1
counts_folded folded _ = if folded then 1 else 0

-- `createDue` throws: the poll is over.
abbrev pub is_thrown : CreateDueResult → Bool
is_thrown CreateDueResult.body_unavailable = true
is_thrown CreateDueResult.unique_violation = true
is_thrown _ = false

abbrev pub due_input : TaskRow → Due → CreateDueInput
due_input t d = record {
  schedule_id = t.id;
  expected_due_at = or_default t.next_due_at 0;
  scheduled_for = d.scheduled_for;
  next_due_at = d.next_due_at;
}

-- The transaction of the task with number `k`, on the database that it meets.
unfoldable pub create_one : Outside → ℕ → TaskRow → Due → Polled → Database → Polled
create_one o k t d p db =
    if o.answers k
    then (let (after, result) = create_due (o.ids k) (due_input t d) (o.clock k) db in
        record {
          database = after;
          created = p.created + counts_created result;
          folded = p.folded + (if is_thrown result then 0 else counts_folded d.folded result);
          failed = is_thrown result;
        })
    else record p { database = db; failed = true }

-- One task of the list. A task that is not due costs no transaction.
unfoldable pub poll_task : Outside → ℕ → TaskRow → Checked (Option Due) → Polled → Polled
unfolding create_one
poll_task o k t (calendar_fail c) p = record p { failed = true }
poll_task o k t (ok none) p = p
poll_task o k t (ok (some d)) p = create_one o k t d p (history (o.others k) p.database)

-- The tasks in order, up to the first error.
unfoldable pub poll_each : Cron → Outside → ℕ → List TaskRow → Polled → Polled
unfolding poll_task due_occurrence
poll_each c o k [] p = p
poll_each c o k (t ∷ ts) p =
    let after = poll_task o k t (due_occurrence c t o.database_now) p in
    let rest = poll_each c o (suc k) ts after in if after.failed then after else rest

abbrev pub starts_at : Database → Polled
starts_at db = record { database = db; created = 0; folded = 0; failed = false }

unfoldable pub poll : Cron → Outside → Database → Polled
unfolding poll_each
poll c o db =
    if o.reads_answer
    then poll_each c o 0 (list_dispatchable o.database_now 50 db) (starts_at db)
    else record (starts_at db) { failed = true }

pub data Health : Type 0 where
  healthy degraded disabled : Health

-- `createScheduleDispatcher`: the options and what it keeps. `ticking` is that the timer is set.
pub record Dispatcher : Type 0 where
  pub enabled : Bool
  pub health : Health
  pub ticking : Bool

unfoldable pub create_dispatcher : Bool → Dispatcher
create_dispatcher enabled = record {
  enabled = enabled;
  health = if enabled then healthy else disabled;
  ticking = false;
}

-- `poll` of the dispatcher.
unfoldable pub dispatcher_poll : Cron → Outside → Dispatcher → Database → Dispatcher × Polled
unfolding poll
dispatcher_poll c o d db =
    if d.enabled
    then (let polled = poll c o db in
        (record d { health = if polled.failed then degraded else healthy }, polled))
    else (d, starts_at db)

-- What happens to a dispatcher: the timer's ticks poll, as long as it is set; `poll` is called.
pub data DispatcherEvent : Type 0 where
  starts stops : DispatcherEvent
  ticks polls : Outside → DispatcherEvent

unfoldable pub dispatcher_step :
    Cron → DispatcherEvent → Dispatcher × Database → Dispatcher × Database
unfolding dispatcher_poll
dispatcher_step c starts (d, db) = (record d { ticking = d.enabled || d.ticking }, db)
dispatcher_step c stops (d, db) = (record d { ticking = false }, db)
dispatcher_step c (ticks o) (d, db) =
    let (after, polled) = dispatcher_poll c o d db in
    if d.ticking then (after, polled.database) else (d, db)
dispatcher_step c (polls o) (d, db) =
    let (after, polled) = dispatcher_poll c o d db in (after, polled.database)
