-- ===== src/Audit/Receipts.antt =====
-- `listWriteAttempts` and `listScheduledWriteAttempts` of src/storage/agent-run-store.ts.
use package.text.Mathlib.Text.{◌==◌ as str_eq}
use minori.Common.{
  String, List, [], ◌∷◌, ◌++◌, Option, none, some, Bool, true, false, ◌&&◌, ltb, ◌==◌,
  if◌then◌else◌, is_some, or_default, opt_eqb, sort_by,
}
use minori.Common.Table.{select, find}
use minori.Common.Text.{any_text}
use minori.Domain.{Ident}
use minori.Audit.{
  WriteOutcome, succeeded, failed, unknown, Identifiers, AgentRunRow, ToolRunRow, Audit,
}

pub record WriteAttemptReceipt : Type 0 where
  pub tool_name : String
  pub outcome : WriteOutcome
  pub sanitized_summary : String
  pub target_identifiers : Identifiers
  pub result_identifiers : Option Identifiers
  pub error_category : Option String

abbrev pub write_names : List String
write_names =
    "createDocument" ∷ "appendDocument" ∷ "patchDocument" ∷ "updateTeamContext" ∷ "createSchedule"
    ∷ "updateSchedule" ∷ "pauseSchedule" ∷ "resumeSchedule" ∷ "deleteSchedule" ∷ []

abbrev pub outcome_of : Option Bool → WriteOutcome
outcome_of none = unknown
outcome_of (some true) = succeeded
outcome_of (some false) = failed

-- A text that is empty counts as missing.
abbrev pub filled : Option String → Option String
filled none = none
filled (some s) = if str_eq s "" then none else some s

abbrev pub receipt : ToolRunRow → String → WriteAttemptReceipt
receipt t summary = record {
  tool_name = t.tool_name;
  outcome = outcome_of t.success;
  sanitized_summary = summary;
  target_identifiers = or_default t.target_identifiers [];
  result_identifiers = t.result_identifiers;
  error_category = filled t.error_category;
}

abbrev pub receipt_of : ToolRunRow → Option String → List WriteAttemptReceipt
receipt_of t none = []
receipt_of t (some summary) =
    if any_text t.tool_name write_names then receipt t summary ∷ [] else []

unfoldable pub receipts : List ToolRunRow → List WriteAttemptReceipt
receipts [] = []
receipts (t ∷ ts) = receipt_of t (filled t.sanitized_summary) ++ receipts ts

-- The tool runs of the agent runs that `p` selects.
abbrev pub belongs : (AgentRunRow → Bool) → List AgentRunRow → ToolRunRow → Bool
belongs p rs t = is_some (find (λ r. r.id == t.agent_run_id && p r) rs)

unfoldable pub list_write_attempts_where : (AgentRunRow → Bool) → Audit → List WriteAttemptReceipt
unfolding receipts
list_write_attempts_where p a =
    receipts
      (sort_by (λ t u. ltb t.started_at u.started_at) (select (belongs p a.agent_runs) a.tool_runs))

unfoldable pub list_write_attempts : Ident → Audit → List WriteAttemptReceipt
unfolding list_write_attempts_where
list_write_attempts event_id a = list_write_attempts_where (λ r. opt_eqb r.event_id event_id) a

unfoldable pub list_scheduled_write_attempts : Ident → Audit → List WriteAttemptReceipt
unfolding list_write_attempts_where
list_scheduled_write_attempts run_id a =
    list_write_attempts_where (λ r. opt_eqb r.scheduled_run_id run_id) a
