-- ===== src/AgentRun/Reports.antt =====
-- A run that has begun a write reports on it.
use minori.Common.{◌≡◌, refl, sym, subst, String, List, [], ◌∷◌, Option, none, some, true}
use minori.Domain.{Ident}
use minori.Audit.{
  RunOutcome, completed, step_limit_reached, interrupted_after_write, timeout_reached, RunResult,
}
use minori.Audit.Receipts.{WriteAttemptReceipt}
use minori.AgentRun.{begun, write_attempts}
use minori.AgentRun.Run.{
  RunInput, AbortSource, timeout, external, Outside, replied, Ran, Body, done, exhausted,
  failed_with, with_history, outcome_of_body, finish_run, run_result, caught, agent_failure_detail,
  started, run_knowledge_agent,
}
use minori.AgentRun.Receipts.{AreReceiptsOf, attempts-AreReceiptsOf}

-- The run has replied with the write attempts, and the store was told the same outcome for the run.
pub record Replied (id : Ident) (attempts : List WriteAttemptReceipt) (ran : Ran) : Type 0 where
  pub outcome : RunOutcome
  pub result : RunResult
  pub answer : ran.ended ≡ replied outcome attempts
  pub told : ran.finishes ≡ (id, result) ∷ []
  pub recorded : result.outcome ≡ outcome

finish-Replied :
    (id : Ident) (o : Outside) (attempts : List WriteAttemptReceipt) (outcome : RunOutcome)
    (message : Option String)
    → o.finish_acknowledged ≡ true
    → Replied id attempts (finish_run id o (outcome, message, replied outcome attempts))
unfolding finish_run
finish-Replied id o attempts outcome message ack = record {
  outcome = outcome;
  result = run_result o outcome message;
  answer = rw ack refl;
  told = refl;
  recorded = refl;
}

body-Replied :
    (id : Ident) (o : Outside) (body : Body) (r : WriteAttemptReceipt)
    (rs : List WriteAttemptReceipt)
    → o.finish_acknowledged ≡ true
    → Replied id (r ∷ rs) (finish_run id o (outcome_of_body o body (r ∷ rs)))
unfolding outcome_of_body
body-Replied id o done r rs ack = finish-Replied id o (r ∷ rs) completed none ack
body-Replied id o exhausted r rs ack = finish-Replied id o (r ∷ rs) step_limit_reached none ack
body-Replied id o (failed_with e) r rs ack =
    caught-Replied o.abort_source (some (agent_failure_detail (o.error_text e)))
  where
    caught-Replied :
        (source : Option AbortSource) (message : Option String)
        → let (outcome, ended) = caught o e (r ∷ rs) source in
          Replied id (r ∷ rs) (finish_run id o (outcome, message, ended))
    caught-Replied none message = finish-Replied id o (r ∷ rs) interrupted_after_write message ack
    caught-Replied (some timeout) message = finish-Replied id o (r ∷ rs) timeout_reached message ack
    caught-Replied (some external) message =
        finish-Replied id o (r ∷ rs) interrupted_after_write message ack

-- A run of the agent whose start was stored and in which a write was begun does not end with an error,
-- whatever fails or is aborted later, if the store acknowledges its end: it replies, with the outcome
-- that was stored, and with one receipt for each of its writes that was begun, in their order, and no
-- other. A receipt names the tool of its write, and says that the write succeeded only if its operation
-- returned and the store has acknowledged that, with the identifiers of the result, and that it failed
-- only if its operation failed, the run was not aborted and the store has acknowledged the failure; that
-- this is unknown, only if the store has not acknowledged its end or the run was aborted.
pub begun_writes_are_reported :
    (i : RunInput) (o : Outside) (id : Ident) (r : WriteAttemptReceipt)
    (rs : List WriteAttemptReceipt)
    → o.start_answer ≡ begun id
    → write_attempts (with_history i o o.stored_history).1 ≡ r ∷ rs
    → o.finish_acknowledged ≡ true
    → Replied id (r ∷ rs) (run_knowledge_agent i o)
      × AreReceiptsOf (with_history i o o.stored_history).1 (r ∷ rs)
unfolding run_knowledge_agent started
begun_writes_are_reported i o id r rs s w ack =
    let (body, writes) = with_history i o o.stored_history in
    (
      subst (λ b. Replied id (r ∷ rs) (started i o b)) (sym s)
          (subst (λ rs'. Replied id (r ∷ rs) (finish_run id o (outcome_of_body o body rs'))) (sym w)
            (body-Replied id o body r rs ack)),
      subst (AreReceiptsOf writes) w (attempts-AreReceiptsOf writes),
    )
