-- ===== src/Scheduled/Undisturbed.antt =====
-- The whole of an undisturbed processing.
use minori.Common.{
  ℕ, ◌+◌, ◌≤◌, ◌≡◌, refl, sym, ap, subst, ◌∙◌, inl, inr, String, Option, none, some, true, ◌&&◌,
  arith, max, if◌then◌else◌, Bool-cases, ◌==◌, le→leb,
}
use minori.Common.Table.{find, update}
use minori.Common.Table.Counts.{count-update-eq}
use minori.Common.Table.Keys.{count-and-and, find-update, map_some}
use minori.Common.Sorting.{find-mem}
use minori.Domain.{Time, processing}
use minori.Database.{
  RunRow, TaskRow, Database, PreparedReplyKind, rich, control, run_is_processing, run_is_queued,
}
use minori.Runs.{run_is, task_is}
use minori.Runs.Claim.{
  claim_next, claim_candidate, next_run, claimed_run, queued_run, task_may_run, with_run_status,
  extend_lease, lease_holds,
}
use minori.Runs.Deliver.{prepare_delivery, may_prepare, prepared_run}
use minori.Runs.Finish.{FinishOutcome, failed}
use minori.Admission.{with_runs}
use minori.Admission.Quiet.{HasUniqueRuns, run-update}
use minori.Scheduled.{
  Outside, AgentResult, replied, agent_threw, deliver, agent_ended, task_found, run_claimed,
  process_one, delivery_lease_ms,
}
use minori.Admission.Claims.{admissible_facts, next_run_facts}
use minori.Scheduled.Ends.{undisturbed, Holds, IsOver, marked-Holds, end_run-IsOver}
use minori.Scheduled.Endings.{delivery_prepared-IsOver}

owned :
    (run : RunRow) (lease_ms : ℕ) (clock : Time) (db : Database) (h : Holds run db)
    → lease_holds h.current.leased_until clock ≡ true
    → (extend_lease run.id run.claim_attempt lease_ms clock clock db.runs).1 ≡ true
unfolding extend_lease
owned run lease_ms clock db h lease = ground (
  arith,
  h.held,
  count-and-and (run_is run.id)
      (λ x. run_is_processing x.status && x.claim_attempt == run.claim_attempt)
      (λ x. lease_holds x.leased_until clock) db.runs h.current (h.unique run.id) h.found,
)

extended-Holds :
    (run : RunRow) (lease_ms : ℕ) (clock : Time) (db : Database)
    → Holds run db
    → Holds run
        (with_runs db (extend_lease run.id run.claim_attempt lease_ms clock clock db.runs).0)
unfolding extend_lease
extended-Holds run lease_ms clock db h =
    marked-Holds run _
      (λ r. record r { leased_until = some (clock + lease_ms); updated_at = clock }) db
      (ground arith) h

prepared-Holds :
    (run : RunRow) (text : String) (now : Time) (db : Database)
    → Holds run db
    → Holds run (with_runs db (prepare_delivery run.id run.claim_attempt text now db.runs).0)
unfolding prepare_delivery
prepared-Holds run text now db h =
    marked-Holds run (may_prepare run.id run.claim_attempt) (prepared_run text now) db
      (ground arith) h

deliver-IsOver :
    (lease_ms : ℕ) (o : Outside) (t : TaskRow) (run : RunRow) (outcome : FinishOutcome)
    (kind : PreparedReplyKind) (text : String) (db : Database) (h : Holds run db)
    → lease_holds h.current.leased_until (o.clock 2) ≡ true
    → IsOver run (deliver lease_ms (undisturbed o) t run outcome kind text db)
unfolding deliver
deliver-IsOver lease_ms o t run outcome kind text db h lease =
    rw (owned run (max lease_ms delivery_lease_ms) (o.clock 2) db h lease) (
      delivery_prepared-IsOver o t run outcome kind text _ _ (
        prepared-Holds run text (o.clock 3) _
          (extended-Holds run (max lease_ms delivery_lease_ms) (o.clock 2) db h)))

agent_ended-IsOver :
    (lease_ms : ℕ) (o : Outside) (t : TaskRow) (run : RunRow) (db : Database) (a : AgentResult)
    (h : Holds run db)
    → lease_holds h.current.leased_until (o.clock 2) ≡ true
    → IsOver run (agent_ended lease_ms (undisturbed o) t run db a)
unfolding agent_ended
agent_ended-IsOver lease_ms o t run db (replied text is_completed) h lease =
    deliver-IsOver lease_ms o t run _ rich text db h lease
agent_ended-IsOver lease_ms o t run db agent_threw h lease =
    deliver-IsOver lease_ms o t run failed control _ db h lease

task_found-IsOver :
    (lease_ms : ℕ) (o : Outside) (run : RunRow) (db : Database) (t : Option TaskRow)
    (h : Holds run db)
    → lease_holds h.current.leased_until (o.clock 2) ≡ true
    → IsOver run (task_found lease_ms (undisturbed o) run db t)
unfolding task_found
task_found-IsOver lease_ms o run db none h lease = end_run-IsOver o 1 run failed _ db h
task_found-IsOver lease_ms o run db (some t) h lease =
    agent_ended-IsOver lease_ms o t run db o.agent h lease

claimed-Holds :
    (lease_ms now clock : Time) (db : Database) (r : RunRow) (t : TaskRow)
    → HasUniqueRuns db.runs
    → find (run_is r.id) db.runs ≡ some r
    → run_is_queued r.status ≡ true
    → find (task_is r.schedule_id) db.tasks ≡ some t
    → (h : Holds (claimed_run lease_ms now clock r) (record db {
      runs = update (queued_run r.id) (claimed_run lease_ms now clock) db.runs;
      tasks = update (task_is r.schedule_id) (with_run_status processing now) db.tasks;
    }))
      × (h.current.leased_until ≡ some (clock + lease_ms))
claimed-Holds lease_ms now clock db r t u found q has = (
  record {
    unique = λ i.
        subst (λ n. n ≤ 1)
          (sym (
            count-update-eq (run_is i) (queued_run r.id) (claimed_run lease_ms now clock) db.runs
              (λ x. refl)))
          (u i);
    current = claimed_run lease_ms now clock r;
    found =
        run-update r.id (queued_run r.id) (claimed_run lease_ms now clock) db.runs r (λ x. refl)
          found
        ∙ ground arith;
    held = ground arith;
    same_task = refl;
    task = if task_is r.schedule_id t then with_run_status processing now t else t;
    has_task =
        find-update (task_is r.schedule_id) (task_is r.schedule_id) (with_run_status processing now)
          db.tasks (λ x. refl)
        ∙ ap
            (map_some (λ (x : TaskRow).
              if task_is r.schedule_id x then with_run_status processing now x else x))
            has;
  },
  refl,
)

claimed_task : (o : Option TaskRow) → task_may_run o ≡ true → (t : TaskRow) × (o ≡ some t)
claimed_task none h = absurd (cc)
claimed_task (some t) h = (t, refl)

run_claimed-IsOver :
    (lease_ms : ℕ) (o : Outside) (run : RunRow) (db : Database) (h : Holds run db)
    → lease_holds h.current.leased_until (o.clock 2) ≡ true
    → IsOver run (run_claimed lease_ms (undisturbed o) db (some run))
unfolding run_claimed
run_claimed-IsOver lease_ms o run db h lease = task_found-IsOver lease_ms o run db _ h lease

candidate-IsOver :
    (lease_ms : ℕ) (o : Outside) (db : Database) (q : Option RunRow) (c : RunRow)
    → next_run db (o.clock 0) ≡ q
    → HasUniqueRuns db.runs
    → (claim_candidate lease_ms (o.clock 0) (o.clock 0) q db).1 ≡ some c
    → o.clock 2 ≤ o.clock 0 + lease_ms
    → let out = claim_candidate lease_ms (o.clock 0) (o.clock 0) q db in
      IsOver c (run_claimed lease_ms (undisturbed o) out.0 out.1)
unfolding claim_candidate
candidate-IsOver lease_ms o db none c next u h soon = absurd (cc)
candidate-IsOver lease_ms o db (some r) c next u h soon =
    elim (Bool-cases (task_may_run (find (task_is r.schedule_id) db.tasks))) [
      | inl may ↦
          let (t, has) = claimed_task (find (task_is r.schedule_id) db.tasks) may in
          let (m, adm) = next_run_facts db (o.clock 0) r next in
          let (was_queued, idle, room, alone) = admissible_facts db (o.clock 0) r adm in
          let found = find-mem (run_is r.id) db.runs r (u r.id) m (ground arith) in
          let same : claimed_run lease_ms (o.clock 0) (o.clock 0) r ≡ c = ground arith in
          let after : Database = record db {
            runs = update (queued_run r.id) (claimed_run lease_ms (o.clock 0) (o.clock 0)) db.runs;
            tasks =
                update (task_is r.schedule_id) (with_run_status processing (o.clock 0)) db.tasks;
          } in
          let (holds, lease) =
            claimed-Holds lease_ms (o.clock 0) (o.clock 0) db r t u found was_queued has in
          rw may (
            subst
              (λ x. IsOver x (
                run_claimed lease_ms (undisturbed o) after
                  (some (claimed_run lease_ms (o.clock 0) (o.clock 0) r))))
              same
              (run_claimed-IsOver lease_ms o (claimed_run lease_ms (o.clock 0) (o.clock 0) r) _
                holds (rw lease (le→leb (o.clock 2) (o.clock 0 + lease_ms) soon))))
      | inr may_not ↦ absurd (ground arith)
    ]

-- If a run is claimed, no other transaction comes in between, the lease is not lost, and the
-- agent replies before it runs out, then the processing returns and the run is no longer in
-- processing, whether the agent fails or not and whatever the platform answers.
pub undisturbed_run_ends :
    (lease_ms : ℕ) (o : Outside) (db : Database) (c : RunRow)
    → HasUniqueRuns db.runs
    → (claim_next lease_ms (o.clock 0) (o.clock 0) db).1 ≡ some c
    → o.clock 2 ≤ o.clock 0 + lease_ms
    → IsOver c (process_one lease_ms (undisturbed o) db)
unfolding process_one claim_next
undisturbed_run_ends lease_ms o db c u h soon =
    candidate-IsOver lease_ms o db (next_run db (o.clock 0)) c refl u h soon
