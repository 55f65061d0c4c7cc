-- ===== src/Worker/Tests.antt =====
-- Processings of one message, with the answers written out.
use minori.Common.{◌≡◌, refl, String, [], ◌∷◌, ◌==◌, if◌then◌else◌, none, some, true, false, arith}
use minori.Common.Table.{exists}
use minori.Domain.{Ident, NormalizedMessage, Content, group}
use minori.Events.{StoredEvent, EventStoreOptions, new_row}
use minori.Database.{EventRow, processing}
use minori.Worker.{
  Answers, answered, refused, prepare_reply, agent_answered, persist_prepared_reply, send_reply,
  retry_action,
}
use minori.Worker.Process.{
  process_within_deadline, process_attempt, converse, answer, drain_deadline, process,
}
use minori.Worker.Endings.{is_mark}
use minori.Worker.Tries.{late_retry_is_marked}
use minori.Worker.Calls.{Around, all_calls}
use minori.Events.Calls.{Call, run}
use minori.Events.Rows.{row}
use minori.Worker.Released.{IsReleased, returned_claim-IsReleased}

abbrev message : NormalizedMessage
message = record {
  event_id = 1;
  message_id = 1;
  chat_id = 7;
  conversation_key = 7;
  sender_open_id = 9;
  chat_type = group;
  content = Content.text "hello" [];
  occurred_at = 0;
}

-- A message at its third attempt.
abbrev third_try : StoredEvent
third_try = record {
  event_id = 1;
  payload = message;
  attempts = 3;
  received_at = 0;
  processing_reaction_id = none;
  progress_attempted_at = none;
  progress_message_id = none;
  write_started_at = none;
  reply_idempotency_key = none;
  reply_attempted_at = none;
  prepared_reply_text = none;
  prepared_reply_kind = none;
}

abbrev after_write : StoredEvent
after_write = record third_try { write_started_at = some 50 }

-- The agent fails, and the reply that says so is not delivered.
abbrev all_fails : Answers
all_fails = record {
  started_at = 100;
  conversation = answered tt;
  attempts_text = answered "two writes";
  agent = refused;
  mark = answered tt;
  delivery = refused;
  reply_append = answered tt;
  settlement = answered none;
  drain = answered none;
  ended_at = 200;
}

abbrev key_of : Ident → String
key_of i = "key"

late_retry_is_marked_example : exists is_mark (process key_of 1000 third_try all_fails).0 ≡ true
unfolding process process_within_deadline process_attempt converse answer prepare_reply
    agent_answered persist_prepared_reply send_reply retry_action drain_deadline
late_retry_is_marked_example =
    late_retry_is_marked key_of 1000 third_try all_fails (omega arith) refl refl

abbrev bounds : EventStoreOptions
bounds = record { min_retry_delay_ms = 10; max_retry_delay_ms = 1000 }

-- The message was claimed a fourth time meanwhile.
abbrev taken_over : EventRow
taken_over = record (new_row message 100) { status = processing; attempts = 4 }

abbrev around : Around
around = record {
  options = record { min_retry_delay_ms = 5_000; max_retry_delay_ms = 300_000 };
  others = λ k. if k == 2 then Call.recovers (λ r. false) 900 10 900 ∷ [] else [];
  clock = λ k. 500;
  database_clock = λ k. 510;
}

abbrev claimed : EventRow
claimed = record taken_over { attempts = 3 }

returned_claim-IsReleased_example :
    (r : EventRow) × (row 1 (
        run
          (all_calls around third_try 0 (process key_of 1000 third_try all_fails).0)
          (claimed ∷ []))
      ≡ some r)
    × IsReleased 3 r
unfolding new_row process process_within_deadline process_attempt converse answer prepare_reply
    agent_answered persist_prepared_reply send_reply retry_action drain_deadline
returned_claim-IsReleased_example =
    returned_claim-IsReleased around key_of 1000 third_try all_fails (claimed ∷ []) claimed
      (λ i. ground arith) refl (omega arith) refl
