-- ===== src/Admission/Tests.antt =====
-- Runs of the stores on one database: a message, a daily task, and its run.
use minori.Common.{◌≡◌, refl, [], ◌∷◌, none, some, false, arith, String}
use minori.Common.Table.{find}
use minori.Domain.{NormalizedMessage, Content, group, cron, deleted, ScheduleTarget}
use minori.Database.{RunRow, TaskRow, Database, result_key}
use minori.Events.Calls.{Call}
use minori.Runs.{
  CreateDueInput, task_is, create_due, create_for, insert_run, current_instruction, new_run,
}
use minori.Runs.Claim.{claim_next, claim_candidate, next_run, admissible}
use minori.Runs.Deliver.{prepare_delivery, delivery_already_attempted}
use minori.Schedules.{CreateScheduleInput, create, new_task, first_revision}
use minori.Schedules.Change.{ScheduleChanges, keep, stored_instruction}
use minori.Schedules.Transition.{
  moved_task, to_deleted, transition, move_task, write_move, cancelled_once_run, rebind_run,
}
use minori.Admission.{Move, advance, with_runs}
use minori.Admission.Shared.{IsAdmitted}
use minori.Admission.History.{history, slots_are_shared}
use minori.Admission.Delivery.{delivered_at_most_once}
use minori.Admission.Versions.{over_is_forever}

abbrev empty : Database
empty = record { events = []; tasks = []; revisions = []; runs = [] }

empty-IsAdmitted : IsAdmitted empty
empty-IsAdmitted = record {
  event_ids = λ i. omega arith;
  run_ids = λ i. omega arith;
  capacity = omega arith;
  single_run = omega arith;
  apart = λ e r me mr. elim me [ ];
}

abbrev chat : ScheduleTarget
chat = record { chat_id = 7; display_name = "team"; chat_type = group }

abbrev same_text : String → String
same_text s = s

abbrev report : CreateScheduleInput
report = record {
  name = "report";
  creator_open_id = 9;
  actor_open_id = 9;
  origin = chat;
  instruction = "write the report";
  schedule = cron "0 9 * * *" "UTC";
  result_target = chat;
  scheduled_context = none;
  next_due_at = 1000;
}

abbrev first_due : CreateDueInput
first_due = record {
  schedule_id = 30;
  expected_due_at = 1000;
  scheduled_for = 1000;
  next_due_at = some 2000;
}

abbrev daily : Move
daily = Move.creates_task same_text 30 report 10

abbrev due : Move
due = Move.creates_due 40 first_due 1000

abbrev report_task : TaskRow
report_task = new_task 30 report 10

abbrev pub first_run : RunRow
first_run = new_run 40 first_due report_task "write the report" 1000

abbrev with_task : Database
with_task = history (daily ∷ []) empty

-- The run is queued.
abbrev pub with_run : Database
with_run = history (daily ∷ due ∷ []) empty

abbrev with_claim : Database
with_claim = history (daily ∷ due ∷ Move.claims_next 500 1000 1000 ∷ []) empty

pub with_run-IsAdmitted : IsAdmitted with_run
with_run-IsAdmitted = slots_are_shared (daily ∷ due ∷ []) empty empty-IsAdmitted

with_claim-IsAdmitted : IsAdmitted with_claim
with_claim-IsAdmitted =
    slots_are_shared (daily ∷ due ∷ Move.claims_next 500 1000 1000 ∷ []) empty empty-IsAdmitted

abbrev message : NormalizedMessage
message = record {
  event_id = 1;
  message_id = 1;
  chat_id = 7;
  conversation_key = 7;
  sender_open_id = 9;
  chat_type = group;
  content = Content.text "hello" [];
  occurred_at = 0;
}

abbrev arrives : Move
arrives = Move.event_call (Call.enqueues message 1100)

abbrev claims_message : Move
claims_message = Move.event_call (Call.claims (λ e. false) 4 2000 1200 [])

slots_are_shared_example : IsAdmitted (history (arrives ∷ claims_message ∷ []) with_claim)
slots_are_shared_example =
    slots_are_shared (arrives ∷ claims_message ∷ []) with_claim with_claim-IsAdmitted

delivered_at_most_once_example :
    let later =
      (history
        (daily ∷ due ∷ [])
        (with_runs with_claim (prepare_delivery 40 1 "text" 1100 with_claim.runs).0)).runs in
    prepare_delivery 40 1 "again" 1200 later ≡ (later, delivery_already_attempted)
unfolding advance create create_due create_for insert_run current_instruction new_run new_task
    first_revision claim_next claim_candidate next_run admissible prepare_delivery
delivered_at_most_once_example =
    delivered_at_most_once (daily ∷ due ∷ []) with_claim 40 1 1 "text" "again" 1100 1200
      (result_key 40) with_claim-IsAdmitted.run_ids refl

abbrev with_deleted : Database
with_deleted = history (daily ∷ Move.moves_task 30 1 9 to_deleted none 50 50 ∷ []) empty

abbrev deleted_row : TaskRow
deleted_row = moved_task to_deleted none false false 50 report_task

over_is_forever_example :
    (t' : TaskRow) × (find (task_is 30) (history (due ∷ []) with_deleted).tasks ≡ some t')
    × (t'.state ≡ deleted)
    × (t'.current_version ≡ 2)
unfolding advance create new_task first_revision transition move_task write_move cancelled_once_run
    stored_instruction rebind_run
over_is_forever_example = over_is_forever (due ∷ []) with_deleted 30 deleted_row refl refl

abbrev renamed : ScheduleChanges
renamed = record {
  name = some "summary";
  instruction = none;
  schedule = none;
  result_target = none;
  scheduled_context = keep;
  next_due_at = none;
}
