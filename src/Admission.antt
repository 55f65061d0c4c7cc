-- ===== src/Admission.antt =====
-- Message events and scheduled runs compete for the same slots: the two stores on one database, as
-- src/storage/event-store.ts and src/storage/scheduled-run-store.ts share the admission lock. Each
-- transaction of a store is one move; a history is any interleaving of moves. The claim of a run by
-- its id, `claim`, is no move: the program takes its runs by `claimNext` alone.
pub mod Calm
pub mod Quiet
pub mod Peaceful
pub mod Registry
pub mod Shared
pub mod Claims
pub mod Moves
pub mod History
pub mod Delivery
pub mod Lifetimes
pub mod KeptRuns
pub mod Kept
pub mod Versions
pub mod Tests
use minori.Common.{ℕ, String, List, [], ◌∷◌, Option, Bool}
use minori.Domain.{Ident, Time}
use minori.Database.{EventRow, RunRow, Database}
use minori.Events.{claim_ready}
use minori.Events.Calls.{Call, apply}
use minori.Runs.{CreateDueInput, create_due}
use minori.Runs.Claim.{claim_next, extend_lease}
use minori.Runs.Deliver.{prepare_delivery, mark_delivered, begin_fallback, finish_fallback}
use minori.Runs.Finish.{FinishOutcome, cancel_queued_for_task, finish, recover_expired}
use minori.Schedules.{CreateScheduleInput, create}
use minori.Schedules.Change.{ScheduleChanges, change}
use minori.Schedules.Transition.{Target, transition}
use minori.Schedules.Purge.{purge_terminal_bodies}

pub data Move : Type 0 where
  event_call : Call → Move
  claims_next : ℕ → Time → Time → Move
  creates_due : Ident → CreateDueInput → Time → Move
  extends_lease : Ident → ℕ → ℕ → Time → Time → Move
  prepares_delivery : Ident → ℕ → String → Time → Move
  marks_delivered : Ident → ℕ → Ident → Time → Move
  begins_fallback : Ident → ℕ → Time → Move
  finishes_fallback : Ident → Option Ident → Option String → Time → Move
  cancels_queued : Ident → Time → Move
  finishes : Ident → ℕ → FinishOutcome → Option String → Time → Move
  recovers_expired : Time → Time → Move
  creates_task : (String → String) → Ident → CreateScheduleInput → Time → Move
  changes_task : (String → String) → Ident → ℕ → Ident → ScheduleChanges → Time → Move
  moves_task : Ident → ℕ → Ident → Target → Option Time → Time → Time → Move
  purges : (Ident → String) → Time → Time → Move

-- A claim reads the runs of the database that it runs on.
abbrev pub on_runs : List RunRow → Call → Call
on_runs runs (Call.claims locked limit lease now _) = Call.claims locked limit lease now runs
on_runs runs c = c

abbrev pub with_events : Database → List EventRow → Database
with_events db es = record db { events = es }

abbrev pub with_runs : Database → List RunRow → Database
with_runs db rs = record db { runs = rs }

-- The database after a move.
unfoldable pub advance : Move → Database → Database
advance (event_call c) db = with_events db (apply (on_runs db.runs c) db.events)
advance (claims_next lease_ms now clock) db = (claim_next lease_ms now clock db).0
advance (creates_due id input now) db = (create_due id input now db).0
advance (extends_lease id n lease_ms now clock) db =
    with_runs db (extend_lease id n lease_ms now clock db.runs).0
advance (prepares_delivery id n text now) db =
    with_runs db (prepare_delivery id n text now db.runs).0
advance (marks_delivered id n m now) db = with_runs db (mark_delivered id n m now db.runs).0
advance (begins_fallback id n now) db = with_runs db (begin_fallback id n now db.runs).0
advance (finishes_fallback id m category now) db =
    with_runs db (finish_fallback id m category now db.runs)
advance (cancels_queued id now) db = with_runs db (cancel_queued_for_task id now db.runs).0
advance (finishes id n outcome category now) db = (finish id n outcome category now db).0
advance (recovers_expired now clock) db = (recover_expired now clock db).0
advance (creates_task lower id input now) db = (create lower id input now db).0
advance (changes_task lower id v actor c now) db = (change lower id v actor c now db).0
advance (moves_task id v actor target due now clock) db =
    (transition id v actor target due now clock db).0
advance (purges name at now) db = (purge_terminal_bodies name at now db).0
