-- ===== src/Admission/Versions.antt =====
-- Versions guard the changes of a task: what a caller that read an old version may still do, and
-- what becomes of a task that is over.
use minori.Common.{◌≡◌, List, [], ◌∷◌, some, true}
use minori.Common.Table.{find}
use minori.Domain.{Ident}
use minori.Database.{TaskRow, Database}
use minori.Runs.{task_is}
use minori.Schedules.Change.{is_over}
use minori.Admission.{Move, advance}
use minori.Admission.History.{history}
use minori.Admission.Lifetimes.{KeepsTasks, KeepsTasks-refl, KeepsTasks-trans}
use minori.Admission.Kept.{advance-KeepsTasks}

pub history-KeepsTasks :
    (ms : List Move) (db : Database) → KeepsTasks db.tasks (history ms db).tasks
history-KeepsTasks [] db = KeepsTasks-refl db.tasks
history-KeepsTasks (m ∷ ms) db =
    KeepsTasks-trans db.tasks (advance m db).tasks _ (advance-KeepsTasks m db)
      (history-KeepsTasks ms (advance m db))

-- A task that is completed or deleted is still there after every history of moves, in the same
-- state and at the same version.
pub over_is_forever :
    (ms : List Move) (db : Database) (id : Ident) (t : TaskRow)
    → find (task_is id) db.tasks ≡ some t
    → is_over t.state ≡ true
    → (t' : TaskRow) × (find (task_is id) (history ms db).tasks ≡ some t')
      × (t'.state ≡ t.state)
      × (t'.current_version ≡ t.current_version)
over_is_forever ms db id t h over =
    let (t', h', k) = history-KeepsTasks ms db id t h in
    (t', h', k.over_state over, k.over_version over)
