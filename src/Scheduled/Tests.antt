-- ===== src/Scheduled/Tests.antt =====
-- The run of a daily task is processed: the agent replies, the result is delivered.
use minori.Common.{◌+◌, ◌≤◌, ◌≡◌, List, [], none, true, false, refl, arith}
use minori.Common.Table.{count}
use minori.Runs.{create_due, create_for, insert_run, current_instruction, new_run}
use minori.Runs.Claim.{claim_next, claim_candidate, next_run, admissible, claimed_run}
use minori.Schedules.{create, new_task, first_revision}
use minori.Admission.{Move, advance}
use minori.Admission.History.{history}
use minori.Admission.Tests.{with_run, first_run, with_run-IsAdmitted}
use minori.Scheduled.{Outside, replied, delivered, process_one}
use minori.Scheduled.Steps.{is_result, is_notice}
use minori.Scheduled.Process.{process_is_history}
use minori.Scheduled.Ends.{undisturbed, IsOver}
use minori.Scheduled.Undisturbed.{undisturbed_run_ends}

abbrev all_well : Outside
all_well = record {
  others = λ k. [];
  clock = λ k. 1_100 + k;
  lease_lost = λ k. false;
  agent = replied "the report" true;
  result_delivery = delivered 60;
  notice_delivery = none;
  failure_text = λ name. "failed";
}

process_is_history_example :
    (ms : List Move) × ((process_one 500 all_well with_run).database ≡ history ms with_run)
    × (count is_result (process_one 500 all_well with_run).sent ≤ 1)
    × (count is_notice (process_one 500 all_well with_run).sent ≤ 1)
process_is_history_example = process_is_history 500 all_well with_run

undisturbed_run_ends_example :
    IsOver (claimed_run 500 1_100 1_100 first_run) (process_one 500 (undisturbed all_well) with_run)
unfolding advance create create_due create_for insert_run current_instruction new_run new_task
    first_revision claim_next claim_candidate next_run admissible
undisturbed_run_ends_example =
    undisturbed_run_ends 500 all_well with_run (claimed_run 500 1_100 1_100 first_run)
      with_run-IsAdmitted.run_ids refl (omega arith)
