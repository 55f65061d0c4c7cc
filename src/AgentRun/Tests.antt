-- ===== src/AgentRun/Tests.antt =====
-- A run that creates a document, fails at a second write, and is then interrupted.
use minori.Common.{◌≡◌, refl, String, [], ◌∷◌, none, some, true, false}
use minori.Audit.{succeeded, failed, interrupted_after_write}
use minori.Audit.Write.{WriteInput}
use minori.Audit.Receipts.{WriteAttemptReceipt}
use minori.AgentRun.{begun, performed, refused, write_conflict, never, WriteOutside, write_attempts}
use minori.AgentRun.Run.{
  RunInput, Outside, RunError, provider_error, generation_failed, left_out, replied, with_history,
  with_team_context, with_group, run_knowledge_agent,
}
use minori.AgentRun.Receipts.{AreReceiptsOf}
use minori.AgentRun.Reports.{Replied, begun_writes_are_reported}

abbrev create : WriteInput
create = record {
  tool_name = "createDocument";
  target_identifiers = [];
  sanitized_summary = "plan";
}

abbrev patch : WriteInput
patch = record { tool_name = "patchDocument"; target_identifiers = []; sanitized_summary = "date" }

abbrev created : WriteOutside
created = record {
  input = create;
  begin_answer = begun 60;
  abort = never;
  operation = performed (some (("token", "doc") ∷ []));
  finish_acknowledged = true;
}

abbrev conflict : WriteOutside
conflict = record {
  input = patch;
  begin_answer = begun 61;
  abort = never;
  operation = refused write_conflict;
  finish_acknowledged = true;
}

abbrev prompt : RunInput
prompt = record { prompt = "write"; history = []; trigger_message_id = 20; is_group = true }

abbrev no_text : RunError → String
no_text e = "interrupted"

abbrev outside : Outside
outside = record {
  start_answer = begun 50;
  stored_history =
      some
        (record { message_id = 20; message = record { is_user = true; content = "write" } } ∷ []);
  team_context = left_out;
  team_context_recorded = true;
  group_context = left_out;
  aborted_at_group = false;
  group_history_recorded = true;
  writes = created ∷ conflict ∷ [];
  generated = generation_failed (provider_error "connection lost");
  rejection = provider_error "rejected";
  abort_source = none;
  error_text = no_text;
  input_tokens = some 10;
  output_tokens = none;
  tool_call_count = 2;
  finish_acknowledged = true;
}

abbrev first : WriteAttemptReceipt
first = record {
  tool_name = "createDocument";
  outcome = succeeded;
  sanitized_summary = "plan";
  target_identifiers = [];
  result_identifiers = some (("token", "doc") ∷ []);
  error_category = none;
}

abbrev second : WriteAttemptReceipt
second = record {
  tool_name = "patchDocument";
  outcome = failed;
  sanitized_summary = "date";
  target_identifiers = [];
  result_identifiers = none;
  error_category = some "knowledge_write_conflict";
}

interrupted :
    (run_knowledge_agent prompt outside).ended
    ≡ replied interrupted_after_write (first ∷ second ∷ [])
unfolding run_knowledge_agent
interrupted = refl

begun_writes_are_reported_example :
    Replied 50 (first ∷ second ∷ []) (run_knowledge_agent prompt outside)
    × AreReceiptsOf (created ∷ conflict ∷ []) (first ∷ second ∷ [])
unfolding with_history with_team_context with_group write_attempts
begun_writes_are_reported_example =
    begun_writes_are_reported prompt outside 50 first (second ∷ []) refl refl refl
