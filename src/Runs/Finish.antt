-- ===== src/Runs/Finish.antt =====
-- The end of a run: `cancelQueuedForTask`, `finish` and `recoverExpired`.
use minori.Common.{
  ℕ, ◌+◌, String, List, [], ◌∷◌, Option, none, some, Bool, true, false, ◌&&◌, ◌||◌, not, ltb, ◌==◌,
  if◌then◌else◌, or_default, opt_ltb, sort_by,
}
use minori.Common.Table.{select, count, find, update}
use minori.Domain.{Ident, Time, is_once, ScheduleState, RunStatus, cancelled}
use minori.Database.{RunRow, TaskRow, Database, run_is_queued, run_is_processing}
use minori.Runs.{task_is, run_is}
use minori.Runs.Claim.{run_held}

abbrev pub queued_of_task : Ident → RunRow → Bool
queued_of_task schedule_id r = r.schedule_id == schedule_id && run_is_queued r.status

unfoldable pub cancel_queued_for_task : Ident → Time → List RunRow → List RunRow × Bool
cancel_queued_for_task schedule_id now rs =
    let hit = queued_of_task schedule_id in
    (
      update hit (λ r. record r { status = cancelled; updated_at = now }) rs,
      not (count hit rs == 0),
    )

-- `Extract<ScheduledRunStatus, 'completed' | 'failed' | 'delivery_uncertain'>`
pub data FinishOutcome : Type 0 where
  completed failed delivery_uncertain : FinishOutcome

abbrev pub status_of : FinishOutcome → RunStatus
status_of completed = RunStatus.done
status_of failed = RunStatus.failed
status_of delivery_uncertain = RunStatus.delivery_uncertain

pub data FinishResult : Type 0 where
  finished claim_stale task_missing : FinishResult

abbrev pub is_deleted : ScheduleState → Bool
is_deleted ScheduleState.deleted = true
is_deleted _ = false

-- A one-time task is over with its run, unless it was deleted before.
abbrev pub terminal_one_time : TaskRow → Bool
terminal_one_time t = is_once t.schedule && not (is_deleted t.state)

abbrev pub finished_task : TaskRow → RunStatus → Time → TaskRow → TaskRow
finished_task t outcome now row = record row {
  state = if terminal_one_time t then ScheduleState.completed else t.state;
  name_reserved = not (is_deleted t.state || terminal_one_time t);
  completed_at = if terminal_one_time t then some now else none;
  latest_run_status = some outcome;
  updated_at = now;
}

abbrev pub finished_run : RunStatus → Option String → Time → RunRow → RunRow
finished_run outcome category now r = record r {
  status = outcome;
  outcome_category = category;
  leased_until = none;
  updated_at = now;
}

unfoldable pub finish_with :
    Ident
    → ℕ
    → FinishOutcome
    → Option String
    → Time
    → Ident
    → Option TaskRow
    → Database
    → Database × FinishResult
finish_with id n outcome category now schedule_id none db =
    if count (run_held id n) db.runs == 1 then (db, task_missing) else (db, claim_stale)
finish_with id n outcome category now schedule_id (some t) db =
    if count (run_held id n) db.runs == 1
    then (
      record db {
        runs = update (run_held id n) (finished_run (status_of outcome) category now) db.runs;
        tasks = update (task_is schedule_id) (finished_task t (status_of outcome) now) db.tasks;
      },
      finished,
    )
    else (db, claim_stale)

unfoldable pub finish_run :
    Ident
    → ℕ
    → FinishOutcome
    → Option String
    → Time
    → Option RunRow
    → Database
    → Database × FinishResult
unfolding finish_with
finish_run id n outcome category now none db = (db, claim_stale)
finish_run id n outcome category now (some r) db =
    finish_with id n outcome category now r.schedule_id (find (task_is r.schedule_id) db.tasks) db

unfoldable pub finish :
    Ident → ℕ → FinishOutcome → Option String → Time → Database → Database × FinishResult
unfolding finish_run
finish id claim_attempt outcome category now db =
    finish_run id claim_attempt outcome category now (find (run_is id) db.runs) db

-- `status = 'processing' and leased_until < clock_timestamp()`
abbrev pub run_expired : Time → RunRow → Bool
run_expired clock r = run_is_processing r.status && opt_ltb r.leased_until clock

abbrev pub expired_run : Time → RunRow → RunRow
expired_run now r = record r {
  status = RunStatus.failed;
  leased_until = none;
  outcome_category = some "scheduled_run_claim_expired";
  updated_at = now;
}

abbrev pub expired_task : Time → Time → TaskRow → TaskRow
expired_task now clock t = record t {
  state = if terminal_one_time t then ScheduleState.completed else t.state;
  name_reserved = if is_once t.schedule || is_deleted t.state then false else t.name_reserved;
  completed_at = if terminal_one_time t then some clock else t.completed_at;
  latest_run_status = some RunStatus.failed;
  updated_at = now;
}

-- One candidate, in its own transaction: it is looked at again.
unfoldable pub recover_one : Time → Time → RunRow → Database × ℕ → Database × ℕ
recover_one now clock r (db, recovered) =
    let hit = λ (x : RunRow). x.id == r.id && run_expired clock x in
    if count hit db.runs == 1
    then (
      record db {
        runs = update hit (expired_run now) db.runs;
        tasks = update (task_is r.schedule_id) (expired_task now clock) db.tasks;
      },
      recovered + 1,
    )
    else (db, recovered)

unfoldable pub recover_each : Time → Time → List RunRow → Database × ℕ → Database × ℕ
unfolding recover_one
recover_each now clock [] out = out
recover_each now clock (r ∷ rs) out = recover_each now clock rs (recover_one now clock r out)

-- `order by leased_until, id`
abbrev pub run_lease_earlier : RunRow → RunRow → Bool
run_lease_earlier a b =
    let s = or_default a.leased_until 0 in
    let t = or_default b.leased_until 0 in ltb s t || (s == t && ltb a.id b.id)

unfoldable pub recover_expired : Time → Time → Database → Database × ℕ
unfolding recover_each
recover_expired now clock db =
    recover_each now clock (sort_by run_lease_earlier (select (run_expired clock) db.runs)) (db, 0)
