-- ===== src/Schedules/Purge.antt =====
-- `purgeTerminalBodies`: the texts of tasks and runs that ended 30 days ago are removed.
use text.Mathlib.Text.{◌==◌ as str_eq}
use minori.Common.{
  ℕ, ◌-◌, String, none, some, Bool, true, false, ◌&&◌, ◌||◌, not, ltb, ◌==◌, opt_ltb, or_else,
  is_some, is_none,
}
use minori.Common.Table.{select, count, exists, update}
use minori.Domain.{Ident, Time, ScheduleTarget, RunStatus}
use minori.Database.{RunRow, TaskRow, RevisionRow, Database}
use minori.Schedules.Change.{is_over}

abbrev pub retention_ms : ℕ
retention_ms = 2_592_000_000

abbrev pub purgeable : Time → TaskRow → Bool
purgeable cutoff t =
    is_over t.state
    && (is_none t.body_purged_at && opt_ltb (or_else t.completed_at t.deleted_at) cutoff)

abbrev pub unnamed : ScheduleTarget → ScheduleTarget
unnamed t = record t { display_name = "" }

-- `purged_name id` is the text `purged-${id}`. A context without its name is read as none.
abbrev pub purged_task : (Ident → String) → Time → Time → TaskRow → TaskRow
purged_task purged_name at now t = record t {
  name = purged_name t.id;
  origin = unnamed t.origin;
  result_target = unnamed t.result_target;
  scheduled_context = none;
  body_purged_at = some at;
  updated_at = now;
}

abbrev pub purged_revision : Time → RevisionRow → RevisionRow
purged_revision at r = record r {
  instruction = none;
  result_target = unnamed r.result_target;
  scheduled_context = none;
  body_purged_at = some at;
}

abbrev pub is_terminal_run : RunStatus → Bool
is_terminal_run RunStatus.queued = false
is_terminal_run RunStatus.processing = false
is_terminal_run _ = true

abbrev pub run_purgeable : Time → RunRow → Bool
run_purgeable cutoff r =
    is_terminal_run r.status
    && (ltb r.updated_at cutoff
        && (not (str_eq r.instruction "") || is_some r.prepared_result_text))

abbrev pub purged_run : Time → RunRow → RunRow
purged_run now r = record r {
  instruction = "";
  prepared_result_text = none;
  result_target = unnamed r.result_target;
  scheduled_context = none;
  updated_at = now;
}

unfoldable pub purge_terminal_bodies : (Ident → String) → Time → Time → Database → Database × ℕ
purge_terminal_bodies purged_name at now db =
    let cutoff = at - retention_ms in
    let gone = select (purgeable cutoff) db.tasks in
    (
      record db {
        tasks = update (purgeable cutoff) (purged_task purged_name at now) db.tasks;
        revisions =
            update (λ r. exists (λ t. t.id == r.schedule_id) gone) (purged_revision at)
              db.revisions;
        runs = update (run_purgeable cutoff) (purged_run now) db.runs;
      },
      count (purgeable cutoff) db.tasks,
    )
