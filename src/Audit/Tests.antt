-- ===== src/Audit/Tests.antt =====
-- A write of an agent run for a message that is in its first processing.
use mathlib.Core.List.{Memᴰ}
use minori.Common.{◌≡◌, refl, String, List, [], ◌∷◌, none, some, Bool, false, arith, ◌==◌, ◌&&◌}
use minori.Common.Table.{exists}
use minori.Domain.{Ident, NormalizedMessage, Content, group}
use minori.Database.{EventRow, Database}
use minori.Events.{enqueue, new_row, claim_ready, candidates, eligible, is_head, slots}
use minori.Events.Calls.{Call, apply, run}
use minori.Worker.{Answers, answered, refused}
use minori.Worker.Process.{process}
use minori.Worker.Endings.{is_ask}
use minori.Audit.{Audit, AgentRunRow, RunOutcome, Source, succeeded, start}
use minori.Audit.Write.{
  WriteInput, WriteResult, begin_write, begin_write_of, mark_write, finish_write,
}
use minori.Audit.Receipts.{list_write_attempts}
use minori.Audit.Listed.{entry, finished_write_is_listed}
use minori.Audit.Boundary.{begun_write_is_not_repeated}

abbrev message : NormalizedMessage
message = record {
  event_id = 1;
  message_id = 1;
  chat_id = 7;
  conversation_key = 7;
  sender_open_id = 9;
  chat_type = group;
  content = Content.text "hello" [];
  occurred_at = 0;
}

abbrev unlocked : EventRow → Bool
unlocked e = false

abbrev claimed : List EventRow
claimed = run (Call.enqueues message 100 ∷ Call.claims unlocked 2 2000 400 [] ∷ []) []

abbrev database : Database
database = record { events = claimed; tasks = []; revisions = []; runs = [] }

abbrev agent_run : AgentRunRow
agent_run = record {
  id = 50;
  event_id = some 1;
  scheduled_run_id = none;
  claim_attempt = 1;
  model = "model";
  input_tokens = none;
  output_tokens = none;
  tool_call_count = 0;
  outcome = RunOutcome.running;
  group_history = none;
  team_context = none;
  error_message = none;
  started_at = 450;
  finished_at = none;
}

abbrev audit : Audit
audit = (start 50 (Source.event 1) 1 "model" 450 (record { agent_runs = []; tool_runs = [] })).0

abbrev input : WriteInput
input = record { tool_name = "createDocument"; target_identifiers = []; sanitized_summary = "plan" }

abbrev result : WriteResult
result = record {
  outcome = succeeded;
  error_category = none;
  result_identifiers = some (("token", "doc") ∷ []);
}

abbrev all_fails : Answers
all_fails = record {
  started_at = 100;
  conversation = answered tt;
  attempts_text = answered "two writes";
  agent = refused;
  mark = answered tt;
  delivery = refused;
  reply_append = answered tt;
  settlement = answered none;
  drain = answered none;
  ended_at = 200;
}

abbrev key_of : Ident → String
key_of i = "key"

finished_write_is_listed_example : Memᴰ (entry input result) (
    list_write_attempts 1
      (finish_write 60 result 600 (begin_write 60 50 input 500 database audit).0.1).0)
unfolding start begin_write begin_write_of mark_write run apply enqueue new_row claim_ready
    candidates eligible is_head slots
finished_write_is_listed_example =
    finished_write_is_listed 60 50 1 input result 500 600 database audit agent_run refl refl refl
      refl (Memᴰ.head refl)

begun_write_is_not_repeated_example :
    exists
      (λ s. s.event_id == 1 && exists is_ask (process key_of 1000 s all_fails).0)
      (claim_ready unlocked 1 9000 8000 [] (
        run
          (Call.recovers unlocked 5000 10 5000 ∷ [])
          (begin_write 60 50 input 500 database audit).0.0.events)).1
    ≡ false
unfolding start begin_write begin_write_of mark_write run apply enqueue new_row claim_ready
    candidates eligible is_head slots
begun_write_is_not_repeated_example =
    begun_write_is_not_repeated 60 50 1 input 500 database audit agent_run
      (Call.recovers unlocked 5000 10 5000 ∷ []) unlocked 1 9000 8000 [] key_of 1000 all_fails
      (λ i. ground arith) refl refl refl
