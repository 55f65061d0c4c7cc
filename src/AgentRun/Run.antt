-- ===== src/AgentRun/Run.antt =====
-- `runKnowledgeAgent`: the checks and records before the model is asked, and the outcome. What the
-- model is shown is left out.
use package.text.Mathlib.Text.{◌==◌ as str_eq}
use minori.Common.{
  ℕ, zero, suc, String, List, [], ◌∷◌, map, Option, none, some, Bool, true, false, ◌&&◌, not, ◌==◌,
  if◌then◌else◌,
}
use minori.Common.Table.{find}
use minori.Domain.{Ident}
use minori.Audit.{
  RunOutcome, completed, failed, aborted, step_limit_reached, timeout_reached,
  interrupted_after_write, RunResult,
}
use minori.Audit.Receipts.{WriteAttemptReceipt}
use minori.AgentRun.{BeginAnswer, begun, late, begin_failed, WriteOutside, write_attempts}

-- A stored message of the conversation, and one that the caller gives.
pub record HistoryMessage : Type 0 where
  pub is_user : Bool
  pub content : String

pub record StoredHistoryMessage : Type 0 where
  pub message_id : Ident
  pub message : HistoryMessage

pub record RunInput : Type 0 where
  pub prompt : String
  pub history : List HistoryMessage
  pub trigger_message_id : Ident
  pub is_group : Bool

-- A step that may be left out.
pub data Step : Type 0 where
  left_out fulfilled rejected : Step

pub data AbortSource : Type 0 where
  external timeout : AbortSource

pub data RunError : Type 0 where
  trigger_prompt_mismatch conversation_history_mismatch agent_audit_unavailable aborted_by_signal :
      RunError
  provider_error : String → RunError

-- What the model and its tools come to.
pub data Generated : Type 0 where
  answered budget_exhausted : Generated
  generation_failed : RunError → Generated

-- `abort_source` is the first one, where the signal was aborted when the error that ends the run was
-- caught; `aborted_at_group` says whether it was aborted when the group's history was read; `rejection` is the error of a store or a source that rejects; the usage is what was counted at the end.
pub record Outside : Type 0 where
  pub start_answer : BeginAnswer
  pub stored_history : Option (List StoredHistoryMessage)
  pub team_context : Step
  pub team_context_recorded : Bool
  pub group_context : Step
  pub aborted_at_group : Bool
  pub group_history_recorded : Bool
  pub writes : List WriteOutside
  pub generated : Generated
  pub rejection : RunError
  pub abort_source : Option AbortSource
  pub error_text : RunError → String
  pub input_tokens : Option ℕ
  pub output_tokens : Option ℕ
  pub tool_call_count : ℕ
  pub finish_acknowledged : Bool

pub data Ended : Type 0 where
  replied : RunOutcome → List WriteAttemptReceipt → Ended
  threw : RunError → Ended

-- The calls of `finish`, and the end of the run.
pub record Ran : Type 0 where
  pub finishes : List (Ident × RunResult)
  pub ended : Ended

abbrev pub bool_eq : Bool → Bool → Bool
bool_eq true c = c
bool_eq false c = not c

abbrev pub message_eq : HistoryMessage → HistoryMessage → Bool
message_eq a b = bool_eq a.is_user b.is_user && str_eq a.content b.content

abbrev pub history_eq : List HistoryMessage → List HistoryMessage → Bool
history_eq [] [] = true
history_eq [] (y ∷ ys) = false
history_eq (x ∷ xs) [] = false
history_eq (x ∷ xs) (y ∷ ys) = message_eq x y && history_eq xs ys

abbrev pub is_trigger : RunInput → Option StoredHistoryMessage → Bool
is_trigger i none = false
is_trigger i (some m) = m.message.is_user && str_eq m.message.content i.prompt

-- `input.history.length > 0` and it differs from the stored one.
abbrev pub is_other_history : List HistoryMessage → List HistoryMessage → Bool
is_other_history [] stored = false
is_other_history (x ∷ xs) stored = not (history_eq (x ∷ xs) stored)

-- An error that stays the signal's if the run was aborted.
abbrev pub unless_aborted : Option AbortSource → RunError
unless_aborted none = agent_audit_unavailable
unless_aborted (some source) = aborted_by_signal

-- How the awaited part ended, and the writes that the tools have done.
pub data Body : Type 0 where
  done exhausted : Body
  failed_with : RunError → Body

abbrev pub record_step :
    Option AbortSource → Bool → Body × List WriteOutside → Body × List WriteOutside
record_step source true rest = rest
record_step source false rest = (failed_with (unless_aborted source), [])

abbrev pub generated_body : Generated → Body
generated_body answered = done
generated_body budget_exhausted = exhausted
generated_body (generation_failed e) = failed_with e

abbrev pub generate : Outside → Body × List WriteOutside
generate o = (generated_body o.generated, o.writes)

-- A group's history that cannot be read is replaced by the mark that it is unavailable, if the run was
-- not aborted meanwhile.
unfoldable pub group_read : Outside → Step → Bool → Body × List WriteOutside
group_read o rejected true = (failed_with o.rejection, [])
group_read o step was_aborted = record_step o.abort_source o.group_history_recorded (generate o)

unfoldable pub with_group : RunInput → Outside → Body × List WriteOutside
unfolding group_read
with_group i o = if i.is_group then group_read o o.group_context o.aborted_at_group else generate o

unfoldable pub with_team_context : RunInput → Outside → Step → Body × List WriteOutside
unfolding with_group
with_team_context i o left_out = with_group i o
with_team_context i o fulfilled =
    record_step o.abort_source o.team_context_recorded (with_group i o)
with_team_context i o rejected = (failed_with o.rejection, [])

unfoldable pub with_history :
    RunInput → Outside → Option (List StoredHistoryMessage) → Body × List WriteOutside
unfolding with_team_context
with_history i o none = (failed_with o.rejection, [])
with_history i o (some stored) =
    if not (is_trigger i (find (λ m. m.message_id == i.trigger_message_id) stored))
    then (failed_with trigger_prompt_mismatch, [])
    else if is_other_history i.history (map (λ m. m.message) stored)
    then (failed_with conversation_history_mismatch, [])
    else with_team_context i o o.team_context

abbrev pub limit_of_failure_detail : ℕ
limit_of_failure_detail = 2_000

abbrev pub take_chars : ℕ → String → String
take_chars zero s = ""
take_chars (suc n) String.[] = ""
take_chars (suc n) (String.◌∷◌ c s) = String.◌∷◌ c (take_chars n s)

-- `agentFailureDetail` of src/agent/failure-detail.ts, of an `Error` with that message.
unfoldable pub agent_failure_detail : String → String
agent_failure_detail message = take_chars limit_of_failure_detail message

-- The end of the awaited part: the outcome that is recorded, with the message of an error, and the
-- end of the run. The replay boundary is crossed if a write was begun.
abbrev pub caught :
    Outside → RunError → List WriteAttemptReceipt → Option AbortSource → RunOutcome × Ended
caught o e attempts (some timeout) = (timeout_reached, replied timeout_reached attempts)
caught o e (r ∷ rs) source = (interrupted_after_write, replied interrupted_after_write (r ∷ rs))
caught o e [] none = (failed, threw e)
caught o e [] (some external) = (aborted, threw e)

unfoldable pub outcome_of_body :
    Outside → Body → List WriteAttemptReceipt → RunOutcome × Option String × Ended
unfolding agent_failure_detail
outcome_of_body o done attempts = (completed, none, replied completed attempts)
outcome_of_body o exhausted attempts =
    (step_limit_reached, none, replied step_limit_reached attempts)
outcome_of_body o (failed_with e) attempts =
    let (outcome, ended) = caught o e attempts o.abort_source in
    (outcome, some (agent_failure_detail (o.error_text e)), ended)

abbrev pub run_result : Outside → RunOutcome → Option String → RunResult
run_result o outcome message = record {
  input_tokens = o.input_tokens;
  output_tokens = o.output_tokens;
  tool_call_count = o.tool_call_count;
  outcome = outcome;
  error_message = message;
}

unfoldable pub finish_run : Ident → Outside → RunOutcome × Option String × Ended → Ran
finish_run id o (outcome, message, ended) = record {
  finishes = (id, run_result o outcome message) ∷ [];
  ended = if o.finish_acknowledged then ended else threw agent_audit_unavailable;
}

unfoldable pub started : RunInput → Outside → BeginAnswer → Ran
unfolding finish_run outcome_of_body with_history write_attempts agent_failure_detail
started i o begin_failed = record { finishes = []; ended = threw agent_audit_unavailable }
started i o (late id) = record {
  finishes =
      (
        id,
        record {
          input_tokens = none;
          output_tokens = none;
          tool_call_count = 0;
          outcome = aborted;
          error_message = some (agent_failure_detail (o.error_text aborted_by_signal));
        },
      )
      ∷ [];
  ended = threw agent_audit_unavailable;
}
started i o (begun id) =
    let (body, writes) = with_history i o o.stored_history in
    finish_run id o (outcome_of_body o body (write_attempts writes))

unfoldable pub run_knowledge_agent : RunInput → Outside → Ran
unfolding started
run_knowledge_agent i o = started i o o.start_answer
