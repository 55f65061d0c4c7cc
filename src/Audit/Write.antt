-- ===== src/Audit/Write.antt =====
-- `beginWrite` and `finishWrite` of src/storage/agent-run-store.ts. `beginWrite` also marks the message
-- or the scheduled run, so it is a function on the database of the other stores too.
use minori.Common.{
  ℕ, ◌+◌, String, Option, none, some, Bool, true, false, ◌&&◌, ◌==◌, if◌then◌else◌, is_some,
  is_none, or_default, or_else, opt_eqb,
}
use minori.Common.Table.{count, find, update}
use minori.Domain.{Ident, Time}
use minori.Database.{EventRow, RunRow, Database, is_processing, run_is_processing}
use minori.Events.Progress.{writing_row}
use minori.Audit.{
  WriteOutcome, succeeded, failed, unknown, Identifiers, AgentRunRow, ToolRunRow, Audit,
}
use minori.Audit.Tools.{add_tool_run}

pub record WriteInput : Type 0 where
  pub tool_name : String
  pub target_identifiers : Identifiers
  pub sanitized_summary : String

abbrev pub begun_row : Ident → Ident → WriteInput → Time → ToolRunRow
begun_row id agent_run_id input now = record {
  id = id;
  agent_run_id = agent_run_id;
  tool_name = input.tool_name;
  target_identifiers = some input.target_identifiers;
  success = none;
  error_category = none;
  sanitized_summary = some input.sanitized_summary;
  result_identifiers = none;
  started_at = now;
  finished_at = none;
}

-- The claim of the message or of the scheduled run that the agent run works for.
abbrev pub marks_message : AgentRunRow → EventRow → Bool
marks_message run e =
    is_none run.scheduled_run_id
    && (opt_eqb run.event_id e.event_id
        && (is_processing e.status && e.attempts == run.claim_attempt))

abbrev pub marks_scheduled : AgentRunRow → RunRow → Bool
marks_scheduled run r =
    is_none run.event_id
    && (opt_eqb run.scheduled_run_id r.id
        && (run_is_processing r.status && r.claim_attempt == run.claim_attempt))

abbrev pub scheduled_writing_row : Time → RunRow → RunRow
scheduled_writing_row now r = record r {
  write_started_at = some (or_default r.write_started_at now);
  updated_at = now;
}

unfoldable pub mark_write : AgentRunRow → Time → Database → Database × ℕ
mark_write run now db = (
  record db {
    events = update (marks_message run) (writing_row now) db.events;
    runs = update (marks_scheduled run) (scheduled_writing_row now) db.runs;
  },
  count (marks_scheduled run) db.runs + count (marks_message run) db.events,
)

-- The transaction is rolled back (`none`) unless it has marked one row.
unfoldable pub begin_write_of :
    Ident
    → WriteInput
    → Time
    → Database
    → Audit
    → Option AgentRunRow
    → (Database × Audit) × Option Ident
unfolding mark_write
begin_write_of id input now db a none = ((db, a), none)
begin_write_of id input now db a (some run) =
    let (marked, n) = mark_write run now db in
    if n == 1
    then ((marked, add_tool_run (begun_row id run.id input now) a), some id)
    else ((db, a), none)

unfoldable pub begin_write :
    Ident → Ident → WriteInput → Time → Database → Audit → (Database × Audit) × Option Ident
unfolding begin_write_of
begin_write id agent_run_id input now db a =
    begin_write_of id input now db a (find (λ r. r.id == agent_run_id) a.agent_runs)

pub record WriteResult : Type 0 where
  pub outcome : WriteOutcome
  pub error_category : Option String
  pub result_identifiers : Option Identifiers

abbrev pub success_of : WriteOutcome → Option Bool
success_of succeeded = some true
success_of failed = some false
success_of unknown = none

abbrev pub unknown_category : WriteOutcome → Option String
unknown_category unknown = some "write_result_unknown"
unknown_category _ = none

abbrev pub finished_row : WriteResult → Time → ToolRunRow → ToolRunRow
finished_row result now t = record t {
  success = success_of result.outcome;
  error_category = or_else result.error_category (unknown_category result.outcome);
  result_identifiers = result.result_identifiers;
  finished_at = some now;
}

-- `false` is `tool_run_not_found`.
unfoldable pub finish_write : Ident → WriteResult → Time → Audit → Audit × Bool
finish_write tool_run_id result now a =
    let hit = λ (t : ToolRunRow). t.id == tool_run_id in
    (
      record a { tool_runs = update hit (finished_row result now) a.tool_runs },
      is_some (find hit a.tool_runs),
    )
