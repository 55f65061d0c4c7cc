-- ===== src/Scheduled/Steps.antt =====
-- What one processing of a run does to the database and to the chats.
use minori.Common.{
  ℕ, ◌≤◌, ◌≡◌, refl, sym, ap, ◌∙◌, String, List, [], ◌∷◌, ◌++◌, Option, none, some, Bool, true,
  false, arith,
}
use minori.Common.Table.{count}
use minori.Domain.{Ident}
use minori.Database.{RunRow, TaskRow, Database, DeliveryKey, PreparedReplyKind}
use minori.Runs.Deliver.{
  Outcome, ok, delivery_already_attempted, delivery_state_stale, fallback_already_attempted,
}
use minori.Runs.Finish.{FinishOutcome}
use minori.Admission.{Move, advance}
use minori.Admission.History.{history, history-append}
use minori.Scheduled.{
  Outside, Delivery, delivered, scheduled_delivery_rejected, delivery_threw, Sent, result_sent,
  notice_sent, Ended, Processed, before, end_run, end_after_fallback, note_fallback,
  notice_answered, fallback_begun, fall_back, finish_answered, delivery_marked, result_answered,
  delivery_prepared,
}

abbrev pub is_result : Sent → Bool
is_result (result_sent kind chat text key) = true
is_result (notice_sent chat key) = false

abbrev pub is_notice : Sent → Bool
is_notice (result_sent kind chat text key) = false
is_notice (notice_sent chat key) = true

-- The database follows by moves; at most so many results and notices were sent.
pub record Works (results notices : ℕ) (db : Database) (p : Processed) : Type 0 where
  pub moves : List Move
  pub same : p.database ≡ history moves db
  pub few_results : count is_result p.sent ≤ results
  pub few_notices : count is_notice p.sent ≤ notices

-- The moves of others, and one of the worker.
pub Works-before :
    (r n : ℕ) (o : Outside) (k : ℕ) (m : Move) (db : Database) (p : Processed)
    → Works r n (advance m (before o k db)) p
    → Works r n db p
Works-before r n o k m db p w = record {
  moves = o.others k ++ m ∷ w.moves;
  same = w.same ∙ sym (history-append (o.others k) (m ∷ w.moves) db);
  few_results = w.few_results;
  few_notices = w.few_notices;
}

pub Works-others :
    (r n : ℕ) (o : Outside) (k : ℕ) (db : Database) (p : Processed)
    → Works r n (before o k db) p
    → Works r n db p
Works-others r n o k db p w = record {
  moves = o.others k ++ w.moves;
  same = w.same ∙ sym (history-append (o.others k) w.moves db);
  few_results = w.few_results;
  few_notices = w.few_notices;
}

pub end_run-Works :
    (r n : ℕ) (o : Outside) (k : ℕ) (run : RunRow) (outcome : FinishOutcome) (c : Option String)
    (db : Database)
    → Works r n db (end_run o k run outcome c db)
unfolding end_run advance
end_run-Works r n o k run outcome c db =
    Works-before r n o k (Move.finishes run.id run.claim_attempt outcome c (o.clock k)) db _
      (record { moves = []; same = refl; few_results = omega arith; few_notices = omega arith })

end_after_fallback-Works :
    (r n : ℕ) (o : Outside) (run : RunRow) (rejected : Bool) (db : Database)
    → Works r n db (end_after_fallback o run rejected db)
unfolding end_after_fallback
end_after_fallback-Works r n o run rejected db = end_run-Works r n o 8 run _ _ db

note-Works :
    (r n : ℕ) (o : Outside) (run : RunRow) (m : Option Ident) (c : Option String) (db : Database)
    (p : Processed)
    → Works r n (note_fallback o run m c db) p
    → Works r n db p
unfolding advance
note-Works r n o run m c db p w =
    Works-before r n o 7 (Move.finishes_fallback run.id m c (o.clock 7)) db p w

notice-Works :
    (r n : ℕ) (o : Outside) (run : RunRow) (rejected : Bool) (db : Database) (m : Option Ident)
    → Works r n db (notice_answered o run rejected db m)
unfolding notice_answered
notice-Works r n o run rejected db (some m) =
    note-Works r n o run (some m) none db _ (end_after_fallback-Works r n o run rejected _)
notice-Works r n o run rejected db none =
    note-Works r n o run none (some "schedule_origin_delivery_failed") db _
      (end_after_fallback-Works r n o run rejected _)

fallback_begun-Works :
    (o : Outside) (t : TaskRow) (run : RunRow) (rejected : Bool) (db : Database)
    (key : Outcome DeliveryKey)
    → Works 0 1 db (fallback_begun o t run rejected db key)
unfolding fallback_begun
fallback_begun-Works o t run rejected db (ok key) =
    let w = notice-Works 0 0 o run rejected db o.notice_delivery in
    record {
      moves = w.moves;
      same = w.same;
      few_results = omega (arith, w.few_results);
      few_notices = omega (arith, w.few_notices);
    }
fallback_begun-Works o t run rejected db delivery_already_attempted =
    notice-Works 0 1 o run rejected db none
fallback_begun-Works o t run rejected db delivery_state_stale =
    notice-Works 0 1 o run rejected db none
fallback_begun-Works o t run rejected db fallback_already_attempted =
    notice-Works 0 1 o run rejected db none

fall_back-Works :
    (o : Outside) (t : TaskRow) (run : RunRow) (rejected : Bool) (db : Database)
    → Works 0 1 db (fall_back o t run rejected db)
unfolding fall_back advance
fall_back-Works o t run rejected db =
    Works-before 0 1 o 6 (Move.begins_fallback run.id run.claim_attempt (o.clock 6)) db _
      (fallback_begun-Works o t run rejected _ _)

finish_answered-Works :
    (o : Outside) (t : TaskRow) (run : RunRow) (db : Database) (p : Processed) (e : Ended)
    → Works 0 0 db p
    → Works 0 1 db (finish_answered o t run p e)
unfolding finish_answered
finish_answered-Works o t run db p Ended.no_run w = record {
  moves = w.moves;
  same = w.same;
  few_results = w.few_results;
  few_notices = omega (arith, w.few_notices);
}
finish_answered-Works o t run db p Ended.returned w = record {
  moves = w.moves;
  same = w.same;
  few_results = w.few_results;
  few_notices = omega (arith, w.few_notices);
}
finish_answered-Works o t run db p Ended.threw w =
    let v = fall_back-Works o t run false p.database in
    record {
      moves = w.moves ++ v.moves;
      same = v.same ∙ ap (history v.moves) w.same ∙ sym (history-append w.moves v.moves db);
      few_results = v.few_results;
      few_notices = v.few_notices;
    }

delivery_marked-Works :
    (o : Outside) (t : TaskRow) (run : RunRow) (outcome : FinishOutcome) (db : Database)
    (marked : Outcome (Unit {0}))
    → Works 0 1 db (delivery_marked o t run outcome db marked)
unfolding delivery_marked
delivery_marked-Works o t run outcome db (ok u) =
    finish_answered-Works o t run db _ _ (end_run-Works 0 0 o 5 run outcome _ db)
delivery_marked-Works o t run outcome db delivery_already_attempted =
    fall_back-Works o t run false db
delivery_marked-Works o t run outcome db delivery_state_stale = fall_back-Works o t run false db
delivery_marked-Works o t run outcome db fallback_already_attempted =
    fall_back-Works o t run false db

result_answered-Works :
    (o : Outside) (t : TaskRow) (run : RunRow) (outcome : FinishOutcome) (db : Database)
    (d : Delivery)
    → Works 0 1 db (result_answered o t run outcome db d)
unfolding result_answered advance
result_answered-Works o t run outcome db (delivered m) =
    Works-before 0 1 o 4 (Move.marks_delivered run.id run.claim_attempt m (o.clock 4)) db _
      (delivery_marked-Works o t run outcome _ _)
result_answered-Works o t run outcome db scheduled_delivery_rejected =
    fall_back-Works o t run true db
result_answered-Works o t run outcome db delivery_threw = fall_back-Works o t run false db

more_results : (db : Database) (p : Processed) → Works 0 1 db p → Works 1 1 db p
more_results db p w = record {
  moves = w.moves;
  same = w.same;
  few_results = omega (arith, w.few_results);
  few_notices = w.few_notices;
}

pub delivery_prepared-Works :
    (o : Outside) (t : TaskRow) (run : RunRow) (outcome : FinishOutcome) (kind : PreparedReplyKind)
    (text : String) (db : Database) (key : Outcome DeliveryKey)
    → Works 1 1 db (delivery_prepared o t run outcome kind text db key)
unfolding delivery_prepared
delivery_prepared-Works o t run outcome kind text db (ok key) =
    let w = result_answered-Works o t run outcome db o.result_delivery in
    record {
      moves = w.moves;
      same = w.same;
      few_results = omega (arith, w.few_results);
      few_notices = omega (arith, w.few_notices);
    }
delivery_prepared-Works o t run outcome kind text db delivery_already_attempted =
    more_results db _ (fall_back-Works o t run false db)
delivery_prepared-Works o t run outcome kind text db delivery_state_stale =
    more_results db _ (fall_back-Works o t run false db)
delivery_prepared-Works o t run outcome kind text db fallback_already_attempted =
    more_results db _ (fall_back-Works o t run false db)
