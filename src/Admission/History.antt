-- ===== src/Admission/History.antt =====
-- Any history of moves of the two stores on one database.
use minori.Common.{◌≡◌, refl, List, [], ◌∷◌, ◌++◌}
use minori.Database.{Database}
use minori.Events.Calls.{Call, apply}
use minori.Events.Lives.{apply-HasUniqueIds}
use minori.Admission.{Move, advance, on_runs, with_events}
use minori.Admission.Calm.{apply-Calm}
use minori.Admission.Moves.{move-Peaceful}
use minori.Admission.Shared.{IsAdmitted, Peaceful-IsAdmitted, Calm-IsAdmitted, claim_events}
use minori.Admission.Claims.{claim_next-IsAdmitted}

call-IsAdmitted :
    (c : Call) (db : Database)
    → IsAdmitted db
    → IsAdmitted (with_events db (apply (on_runs db.runs c) db.events))
unfolding apply
call-IsAdmitted (Call.claims locked limit lease now runs) db a =
    claim_events locked limit lease now db a
call-IsAdmitted c db a =
    Calm-IsAdmitted db _ (apply-Calm (on_runs db.runs c) db.events refl)
      (apply-HasUniqueIds (on_runs db.runs c) db.events a.event_ids) a

advance-IsAdmitted : (m : Move) (db : Database) → IsAdmitted db → IsAdmitted (advance m db)
unfolding advance
advance-IsAdmitted (Move.event_call c) db a = call-IsAdmitted c db a
advance-IsAdmitted (Move.claims_next lease_ms now clock) db a =
    claim_next-IsAdmitted lease_ms now clock db a
advance-IsAdmitted m db a = Peaceful-IsAdmitted db (advance m db) (move-Peaceful m db refl) a

-- The database after a list of moves, in their order.
abbrev pub history : List Move → Database → Database
history [] db = db
history (m ∷ ms) db = history ms (advance m db)

-- From a database whose event and run ids are unique, that has at most four invocations in
-- processing, at most one of them a run, and none of them for the same chat, every history of
-- moves, in any order, leads to a database of which the same holds. The moves are the transactions
-- of the event store, the run store and the schedule store, all but the claim of a run by its id.
pub slots_are_shared : (ms : List Move) (db : Database) → IsAdmitted db → IsAdmitted (history ms db)
slots_are_shared [] db a = a
slots_are_shared (m ∷ ms) db a = slots_are_shared ms (advance m db) (advance-IsAdmitted m db a)

pub history-append :
    (ms ns : List Move) (db : Database) → history (ms ++ ns) db ≡ history ns (history ms db)
history-append [] ns db = refl
history-append (m ∷ ms) ns db = history-append ms ns (advance m db)
