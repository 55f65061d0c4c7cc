-- ===== src/Audit.antt =====
-- The records of agent runs and of their tool calls: `PostgresAgentRunStore` of
-- src/storage/agent-run-store.ts, on the tables `agent_runs` and `tool_runs`. Writes are in Audit/Write,
-- the list of write attempts in Audit/Receipts.
pub mod Tools
pub mod Write
pub mod Receipts
pub mod Listed
pub mod Boundary
pub mod Tests
use package.text.Mathlib.Text.{◌==◌ as str_eq}
use minori.Common.{
  ℕ, ◌+◌, String, List, [], ◌∷◌, ◌++◌, Option, none, some, Bool, true, false, ◌&&◌, ◌||◌, ltb, ◌==◌,
  if◌then◌else◌, is_some, is_none, or_default, or_else, opt_eqb, opt_ltb, sort_by,
}
use minori.Common.Table.{select, count, find, update}
use minori.Common.Text.{append, join, decimal}
use minori.Domain.{Ident, Time}
use minori.TeamContext.Source.{TeamContextStatus, ErrorCategory, LoadedContext, TeamContextLoad}
use minori.Database.{EventRow, RunRow, Database, is_processing, run_is_processing}
use minori.Events.Progress.{writing_row}

pub data RunOutcome : Type 0 where
  running completed failed aborted step_limit_reached timeout_reached interrupted_after_write :
      RunOutcome

pub data WriteOutcome : Type 0 where
  succeeded failed unknown : WriteOutcome

abbrev pub Identifiers : Type 0
Identifiers = List (String × String)

pub data Source : Type 0 where
  event scheduled : Ident → Source

-- `GroupHistoryAudit`: the columns `group_history_*`, which are set together.
pub record GroupHistoryAudit : Type 0 where
  pub is_loaded : Bool
  pub message_count : ℕ
  pub page_count : ℕ
  pub cutoff : Time
  pub error_category : Option String

-- The columns `team_context_*`, which are set together too.
pub record TeamContextAudit : Type 0 where
  pub status : TeamContextStatus
  pub revision : Option ℕ
  pub token_count : Option ℕ
  pub fetched_at : Option Time
  pub error_category : Option ErrorCategory

-- A row of `agent_runs`. The columns of a group's history and of the team's context are null (`none`)
-- until they are recorded.
pub record AgentRunRow : Type 0 where
  pub id : Ident
  pub event_id : Option Ident
  pub scheduled_run_id : Option Ident
  pub claim_attempt : ℕ
  pub model : String
  pub input_tokens : Option ℕ
  pub output_tokens : Option ℕ
  pub tool_call_count : ℕ
  pub outcome : RunOutcome
  pub group_history : Option GroupHistoryAudit
  pub team_context : Option TeamContextAudit
  pub error_message : Option String
  pub started_at : Time
  pub finished_at : Option Time

-- A row of `tool_runs`.
pub record ToolRunRow : Type 0 where
  pub id : Ident
  pub agent_run_id : Ident
  pub tool_name : String
  pub target_identifiers : Option Identifiers
  pub success : Option Bool
  pub error_category : Option String
  pub sanitized_summary : Option String
  pub result_identifiers : Option Identifiers
  pub started_at : Time
  pub finished_at : Option Time

pub record Audit : Type 0 where
  pub agent_runs : List AgentRunRow
  pub tool_runs : List ToolRunRow

abbrev pub event_of : Source → Option Ident
event_of (event i) = some i
event_of (scheduled i) = none

abbrev pub scheduled_of : Source → Option Ident
scheduled_of (event i) = none
scheduled_of (scheduled i) = some i

-- `id` is the random one of the new row.
unfoldable pub start : Ident → Source → ℕ → String → Time → Audit → Audit × Ident
start id source claim_attempt model now a = (
  record a {
    agent_runs =
        a.agent_runs
        ++ record {
          id = id;
          event_id = event_of source;
          scheduled_run_id = scheduled_of source;
          claim_attempt = claim_attempt;
          model = model;
          input_tokens = none;
          output_tokens = none;
          tool_call_count = 0;
          outcome = running;
          group_history = none;
          team_context = none;
          error_message = none;
          started_at = now;
          finished_at = none;
        }
          ∷ [];
  },
  id,
)

pub record RunResult : Type 0 where
  pub input_tokens : Option ℕ
  pub output_tokens : Option ℕ
  pub tool_call_count : ℕ
  pub outcome : RunOutcome
  pub error_message : Option String

-- An update of one run. `false` is `agent_run_not_found`.
abbrev pub update_run : Ident → (AgentRunRow → AgentRunRow) → Audit → Audit × Bool
update_run agent_run_id f a =
    let hit = λ (r : AgentRunRow). r.id == agent_run_id in
    (record a { agent_runs = update hit f a.agent_runs }, is_some (find hit a.agent_runs))

-- A column that is set to `undefined` keeps its value.
abbrev pub ended_run : RunResult → Time → AgentRunRow → AgentRunRow
ended_run result now r = record r {
  input_tokens = or_else result.input_tokens r.input_tokens;
  output_tokens = or_else result.output_tokens r.output_tokens;
  tool_call_count = result.tool_call_count;
  outcome = result.outcome;
  error_message = result.error_message;
  finished_at = some now;
}

unfoldable pub finish : Ident → RunResult → Time → Audit → Audit × Bool
finish agent_run_id result now a = update_run agent_run_id (ended_run result now) a

unfoldable pub record_group_history : Ident → GroupHistoryAudit → Audit → Audit × Bool
record_group_history agent_run_id audit a =
    update_run agent_run_id (λ r. record r { group_history = some audit }) a

abbrev pub context_audit :
    TeamContextStatus → Option ErrorCategory → Option LoadedContext → TeamContextAudit
context_audit status category none = record {
  status = status;
  revision = none;
  token_count = none;
  fetched_at = none;
  error_category = category;
}
context_audit status category (some c) = record {
  status = status;
  revision = some c.source_revision;
  token_count = some c.estimated_tokens;
  fetched_at = some c.fetched_at;
  error_category = category;
}

unfoldable pub record_team_context : Ident → TeamContextLoad → Audit → Audit × Bool
record_team_context agent_run_id l a =
    update_run agent_run_id
      (λ r. record r { team_context = some (context_audit l.status l.error_category l.context) }) a

unfoldable pub purge_failure_details : Time → Audit → Audit × ℕ
purge_failure_details before a =
    let hit = λ (r : AgentRunRow). opt_ltb r.finished_at before && is_some r.error_message in
    (
      record a { agent_runs = update hit (λ r. record r { error_message = none }) a.agent_runs },
      count hit a.agent_runs,
    )
