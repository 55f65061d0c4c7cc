-- ===== src/Scheduled/Process.antt =====
-- One processing of a run as a whole.
use minori.Common.{
  ℕ, ◌≤◌, ◌≡◌, refl, inl, inr, String, List, [], ◌∷◌, Option, none, some, ◌||◌, arith, max,
  Bool-cases,
}
use minori.Common.Table.{count}
use minori.Database.{RunRow, TaskRow, Database, PreparedReplyKind, rich, control}
use minori.Runs.Claim.{claim_next, extend_lease}
use minori.Runs.Finish.{FinishOutcome, failed}
use minori.Admission.{Move, advance}
use minori.Admission.History.{history}
use minori.Scheduled.{
  Outside, AgentResult, replied, agent_threw, Ended, before, deliver, agent_ended, task_found,
  run_claimed, process_one, delivery_lease_ms,
}
use minori.Scheduled.Steps.{
  Works, Works-before, Works-others, end_run-Works, delivery_prepared-Works, is_result, is_notice,
}

stopped-Works :
    (db : Database) → Works 1 1 db (record { database = db; sent = []; ended = Ended.returned })
stopped-Works db = record {
  moves = [];
  same = refl;
  few_results = omega arith;
  few_notices = omega arith;
}

deliver-Works :
    (lease_ms : ℕ) (o : Outside) (t : TaskRow) (run : RunRow) (outcome : FinishOutcome)
    (kind : PreparedReplyKind) (text : String) (db : Database)
    → Works 1 1 db (deliver lease_ms o t run outcome kind text db)
unfolding deliver advance
deliver-Works lease_ms o t run outcome kind text db =
    let m =
      Move.extends_lease run.id run.claim_attempt (max lease_ms delivery_lease_ms) (o.clock 2)
        (o.clock 2) in
    let db' = before o 2 db in
    let owned =
      (extend_lease run.id run.claim_attempt (max lease_ms delivery_lease_ms) (o.clock 2)
        (o.clock 2) db'.runs).1 in
    Works-before 1 1 o 2 m db _ (elim (Bool-cases owned) [
      | inl has ↦ rw has (
          Works-before 1 1 o 3 (Move.prepares_delivery run.id run.claim_attempt text (o.clock 3))
            (advance m db') _ (delivery_prepared-Works o t run outcome kind text _ _))
      | inr lost ↦ rw lost (stopped-Works (advance m db'))
    ])

agent_ended-Works :
    (lease_ms : ℕ) (o : Outside) (t : TaskRow) (run : RunRow) (db : Database) (a : AgentResult)
    → Works 1 1 db (agent_ended lease_ms o t run db a)
unfolding agent_ended
agent_ended-Works lease_ms o t run db (replied text is_completed) =
    deliver-Works lease_ms o t run _ rich text db
agent_ended-Works lease_ms o t run db agent_threw =
    deliver-Works lease_ms o t run failed control _ db

task_found-Works :
    (lease_ms : ℕ) (o : Outside) (run : RunRow) (db : Database) (t : Option TaskRow)
    → Works 1 1 db (task_found lease_ms o run db t)
unfolding task_found
task_found-Works lease_ms o run db none = end_run-Works 1 1 o 1 run failed _ db
task_found-Works lease_ms o run db (some t) =
    elim (Bool-cases (o.lease_lost 0 || (o.lease_lost 1 || o.lease_lost 2))) [
      | inl lost ↦ rw lost (stopped-Works db)
      | inr kept ↦ rw kept (agent_ended-Works lease_ms o t run db o.agent)
    ]

run_claimed-Works :
    (lease_ms : ℕ) (o : Outside) (db : Database) (run : Option RunRow)
    → Works 1 1 db (run_claimed lease_ms o db run)
unfolding run_claimed
run_claimed-Works lease_ms o db none = record {
  moves = [];
  same = refl;
  few_results = omega arith;
  few_notices = omega arith;
}
run_claimed-Works lease_ms o db (some run) =
    Works-others 1 1 o 0 db _ (task_found-Works lease_ms o run (before o 0 db) _)

process_one-Works :
    (lease_ms : ℕ) (o : Outside) (db : Database) → Works 1 1 db (process_one lease_ms o db)
unfolding process_one advance
process_one-Works lease_ms o db =
    let w =
      run_claimed-Works lease_ms o (claim_next lease_ms (o.clock 0) (o.clock 0) db).0
        (claim_next lease_ms (o.clock 0) (o.clock 0) db).1 in
    record {
      moves = Move.claims_next lease_ms (o.clock 0) (o.clock 0) ∷ w.moves;
      same = w.same;
      few_results = w.few_results;
      few_notices = w.few_notices;
    }

-- Whatever the agent and the platform answer, whatever leases are lost and whatever others commit in
-- between, the processing of one run leads to the database of a history of moves, and it sends at
-- most one result and at most one notice of failure.
pub process_is_history :
    (lease_ms : ℕ) (o : Outside) (db : Database)
    → (ms : List Move) × ((process_one lease_ms o db).database ≡ history ms db)
      × (count is_result (process_one lease_ms o db).sent ≤ 1)
      × (count is_notice (process_one lease_ms o db).sent ≤ 1)
process_is_history lease_ms o db =
    let w = process_one-Works lease_ms o db in (w.moves, w.same, w.few_results, w.few_notices)
