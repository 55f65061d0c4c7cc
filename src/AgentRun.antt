-- ===== src/AgentRun.antt =====
-- A run of the agent: the audit of its writes and its end, `createWriteAudit` and
-- `runKnowledgeAgent` of src/agent/run.ts. The stores, the model and its tools answer from outside.
pub mod Run
pub mod Receipts
pub mod Reports
pub mod Tests
use package.text.Mathlib.Text.{◌==◌ as str_eq}
use minori.Common.{
  ℕ, ◌+◌, String, List, [], ◌∷◌, ◌++◌, map, Option, none, some, Bool, true, false, ◌&&◌, ◌||◌, not,
  ◌==◌, if◌then◌else◌, is_some, is_none, or_default, or_else,
}
use minori.Common.Table.{select, find}
use minori.Domain.{Ident, Time}
use minori.Audit.{RunOutcome, WriteOutcome, succeeded, failed, unknown, Identifiers, RunResult}
use minori.Audit.Write.{WriteInput, WriteResult}
use minori.Audit.Receipts.{WriteAttemptReceipt}

-- How the store answers the beginning of a write: with its id, with an error, or so late that the
-- run was aborted meanwhile.
pub data BeginAnswer : Type 0 where
  begun late : Ident → BeginAnswer
  begin_failed : BeginAnswer

pub data WriteError : Type 0 where
  team_context_error : String → WriteError
  write_conflict other_error : WriteError

-- What the operation of a tool comes to, with the identifiers of its result.
pub data Operation : Type 0 where
  performed : Option Identifiers → Operation
  refused : WriteError → Operation

-- When the signal of the run is aborted, as far as one write sees it.
pub data Abort : Type 0 where
  before_operation in_operation in_finish never : Abort

pub record WriteOutside : Type 0 where
  pub input : WriteInput
  pub begin_answer : BeginAnswer
  pub abort : Abort
  pub operation : Operation
  pub finish_acknowledged : Bool

abbrev pub is_update_team_context : WriteInput → Bool
is_update_team_context input = str_eq input.tool_name "updateTeamContext"

unfoldable pub stable_write_error_category : WriteError → WriteInput → String
stable_write_error_category (team_context_error code) input = code
stable_write_error_category write_conflict input =
    if is_update_team_context input then "team_context_conflict" else "knowledge_write_conflict"
stable_write_error_category other_error input =
    if is_update_team_context input then "team_context_update_failed" else "knowledge_write_failed"

-- The calls of `finishWrite`.
pub data Action : Type 0 where
  finishes_write : Ident → WriteResult → Action

pub data WriteEnd : Type 0 where
  write_returned write_audit_unavailable : WriteEnd
  write_threw : WriteError → WriteEnd
  write_aborted : WriteEnd

-- The receipt, if the write was begun: then the replay boundary is crossed.
pub record Written : Type 0 where
  pub receipt : Option WriteAttemptReceipt
  pub actions : List Action
  pub ended : WriteEnd

abbrev pub first_receipt : WriteInput → WriteAttemptReceipt
first_receipt input = record {
  tool_name = input.tool_name;
  outcome = unknown;
  sanitized_summary = input.sanitized_summary;
  target_identifiers = input.target_identifiers;
  result_identifiers = none;
  error_category = none;
}

abbrev pub success_result : Option Identifiers → WriteResult
success_result identifiers = record {
  outcome = succeeded;
  error_category = none;
  result_identifiers = identifiers;
}

-- The operation has returned; the last argument says whether the store acknowledged its success.
unfoldable pub succeed : Ident → WriteInput → Option Identifiers → Bool → Written
succeed id input identifiers true = record {
  receipt =
      some (record (first_receipt input) { outcome = succeeded; result_identifiers = identifiers });
  actions = finishes_write id (success_result identifiers) ∷ [];
  ended = write_returned;
}
succeed id input identifiers false = record {
  receipt = some (first_receipt input);
  actions = finishes_write id (success_result identifiers) ∷ [];
  ended = write_audit_unavailable;
}

-- Whether the signal is aborted when the error is caught, and when its record is stored.
abbrev pub aborted_at_catch : Abort → Bool
aborted_at_catch before_operation = true
aborted_at_catch in_operation = true
aborted_at_catch _ = false

abbrev pub aborted_after_finish : Abort → Bool
aborted_after_finish never = false
aborted_after_finish _ = true

abbrev pub failure_outcome : Bool → WriteOutcome
failure_outcome aborted = if aborted then unknown else failed

abbrev pub failure_result : Bool → String → WriteResult
failure_result aborted stable_category = record {
  outcome = failure_outcome aborted;
  error_category = some (if aborted then "agent_run_aborted" else stable_category);
  result_identifiers = none;
}

-- An error was caught, of the operation or of the aborted signal.
unfoldable pub fail : Ident → WriteInput → Abort → String → WriteEnd → Bool → Written
fail id input abort stable_category ended true =
    let told = failure_result (aborted_at_catch abort) stable_category in
    record {
      receipt = some (record (first_receipt input) {
        outcome = failure_outcome (aborted_after_finish abort);
        error_category = told.error_category;
      });
      actions = finishes_write id told ∷ [];
      ended = ended;
    }
fail id input abort stable_category ended false = record {
  receipt = some (first_receipt input);
  actions = finishes_write id (failure_result (aborted_at_catch abort) stable_category) ∷ [];
  ended = write_audit_unavailable;
}

abbrev pub is_before : Abort → Bool
is_before before_operation = true
is_before _ = false

unfoldable pub operate : Ident → WriteOutside → Operation → Written
unfolding succeed fail stable_write_error_category
operate id o (performed identifiers) = succeed id o.input identifiers o.finish_acknowledged
operate id o (refused e) =
    fail id o.input o.abort (stable_write_error_category e o.input) (write_threw e)
      o.finish_acknowledged

-- `run` of the write audit.
unfoldable pub write_audit_run : WriteOutside → BeginAnswer → Written
unfolding operate fail stable_write_error_category
write_audit_run o begin_failed = record {
  receipt = none;
  actions = [];
  ended = write_audit_unavailable;
}
write_audit_run o (late id) = record {
  receipt = none;
  actions =
      finishes_write id (record {
        outcome = unknown;
        error_category = some "agent_run_aborted";
        result_identifiers = none;
      })
      ∷ [];
  ended = write_audit_unavailable;
}
write_audit_run o (begun id) =
    if is_before o.abort
    then fail id o.input o.abort (stable_write_error_category other_error o.input) write_aborted
        o.finish_acknowledged
    else operate id o o.operation

abbrev pub add_receipt :
    Option WriteAttemptReceipt → List WriteAttemptReceipt → List WriteAttemptReceipt
add_receipt none rs = rs
add_receipt (some r) rs = r ∷ rs

-- The receipts of the writes that were begun, in their order.
unfoldable pub write_attempts : List WriteOutside → List WriteAttemptReceipt
unfolding write_audit_run
write_attempts [] = []
write_attempts (o ∷ os) = add_receipt (write_audit_run o o.begin_answer).receipt (write_attempts os)
