-- ===== src/Runs/Claim.antt =====
-- Claiming a queued run: `claim`, `claimNext` and `extendLease`.
use minori.Common.{
  ℕ, ◌+◌, List, Option, none, some, Bool, true, false, ◌&&◌, ◌||◌, not, ltb, leb, ◌==◌,
  if◌then◌else◌, sort_by, first,
}
use minori.Common.Table.{select, count, exists, find, update}
use minori.Domain.{Ident, Time, ScheduleState, RunStatus, processing}
use minori.Database.{
  RunRow, TaskRow, Database, is_queued, is_processing, run_is_queued, run_is_processing,
}
use minori.Events.{agent_admission_concurrency}
use minori.Runs.{task_is}

-- The states of a task whose run may be claimed.
abbrev pub may_run : ScheduleState → Bool
may_run ScheduleState.active = true
may_run ScheduleState.in_flight = true
may_run _ = false

abbrev pub task_may_run : Option TaskRow → Bool
task_may_run none = false
task_may_run (some t) = may_run t.state

-- `leb clock leased_until` where the lease is set.
abbrev pub lease_holds : Option Time → Time → Bool
lease_holds none clock = false
lease_holds (some lease) clock = leb clock lease

abbrev pub claimed_run : ℕ → Time → Time → RunRow → RunRow
claimed_run lease_ms now clock r = record r {
  status = processing;
  claim_attempt = r.claim_attempt + 1;
  leased_until = some (clock + lease_ms);
  updated_at = now;
}

abbrev pub with_run_status : RunStatus → Time → TaskRow → TaskRow
with_run_status s now t = record t { latest_run_status = some s; updated_at = now }

-- `status = 'queued'` and the id: the update of a claim.
abbrev pub queued_run : Ident → RunRow → Bool
queued_run i r = r.id == i && run_is_queued r.status

-- The task is checked, then the run is claimed and the task told so.
unfoldable pub claim_candidate :
    ℕ → Time → Time → Option RunRow → Database → Database × Option RunRow
claim_candidate lease_ms now clock none db = (db, none)
claim_candidate lease_ms now clock (some r) db =
    if task_may_run (find (task_is r.schedule_id) db.tasks)
    then (
      record db {
        runs = update (queued_run r.id) (claimed_run lease_ms now clock) db.runs;
        tasks = update (task_is r.schedule_id) (with_run_status processing now) db.tasks;
      },
      some (claimed_run lease_ms now clock r),
    )
    else (db, none)

unfoldable pub claim : Ident → ℕ → Time → Time → Database → Database × Option RunRow
unfolding claim_candidate
claim id lease_ms now clock db =
    claim_candidate lease_ms now clock (find (queued_run id) db.runs) db

-- The conditions of `claimNext` on a run.
unfoldable pub admissible : Database → Time → RunRow → Bool
admissible db clock r =
    run_is_queued r.status
    && (not (exists (λ a. run_is_processing a.status) db.runs)
        && (ltb
              (count (λ e. is_processing e.status) db.events
                + count (λ a. run_is_processing a.status) db.runs)
              agent_admission_concurrency
            && (not (exists (λ e. is_queued e.status && leb e.next_attempt_at clock) db.events)
                && not (
                    exists
                      (λ e. is_processing e.status && e.conversation_key == r.result_target.chat_id)
                      db.events))))

-- `order by scheduled_for, created_at`
abbrev pub due_earlier : RunRow → RunRow → Bool
due_earlier a b =
    ltb a.scheduled_for b.scheduled_for
    || (a.scheduled_for == b.scheduled_for && ltb a.created_at b.created_at)

unfoldable pub next_run : Database → Time → Option RunRow
unfolding admissible
next_run db clock = first (sort_by due_earlier (select (admissible db clock) db.runs))

unfoldable pub claim_next : ℕ → Time → Time → Database → Database × Option RunRow
unfolding claim_candidate next_run
claim_next lease_ms now clock db = claim_candidate lease_ms now clock (next_run db clock) db

-- The fence of the methods that a run's claimer calls.
abbrev pub run_held : Ident → ℕ → RunRow → Bool
run_held id claim_attempt r =
    r.id == id && (run_is_processing r.status && r.claim_attempt == claim_attempt)

unfoldable pub extend_lease : Ident → ℕ → ℕ → Time → Time → List RunRow → List RunRow × Bool
extend_lease id claim_attempt lease_ms now clock rs =
    let hit = λ (r : RunRow). run_held id claim_attempt r && lease_holds r.leased_until clock in
    (
      update hit (λ r. record r { leased_until = some (clock + lease_ms); updated_at = now }) rs,
      count hit rs == 1,
    )
