-- ===== src/Scheduled/Endings.antt =====
-- The end of an undisturbed processing from the delivery on.
use minori.Common.{◌≡◌, String, Option, none, some, Bool, true, false, arith}
use minori.Domain.{Ident}
use minori.Database.{RunRow, TaskRow, Database, DeliveryKey, PreparedReplyKind}
use minori.Runs.Deliver.{
  Outcome, ok, delivery_already_attempted, delivery_state_stale, fallback_already_attempted,
  mark_delivered, begin_fallback, finish_fallback, fallback_ended, may_fall_back, fallback_run,
  may_mark_delivered, delivered_run,
}
use minori.Runs.Finish.{FinishOutcome}
use minori.Scheduled.{
  Outside, Delivery, delivered, scheduled_delivery_rejected, delivery_threw, Ended, Processed,
  end_after_fallback, note_fallback, notice_answered, fallback_begun, fall_back, finish_answered,
  delivery_marked, result_answered, delivery_prepared, outcome_category,
}
use minori.Scheduled.Ends.{undisturbed, Holds, IsOver, marked-Holds, end_run-IsOver}

end_after_fallback-IsOver :
    (o : Outside) (run : RunRow) (rejected : Bool) (db : Database)
    → Holds run db
    → IsOver run (end_after_fallback (undisturbed o) run rejected db)
unfolding end_after_fallback
end_after_fallback-IsOver o run rejected db h = end_run-IsOver o 8 run _ _ db h

note-Holds :
    (o : Outside) (run : RunRow) (m : Option Ident) (c : Option String) (db : Database)
    → Holds run db
    → Holds run (note_fallback (undisturbed o) run m c db)
unfolding finish_fallback
note-Holds o run m c db h = marked-Holds run _ (fallback_ended m c (o.clock 7)) db (ground arith) h

notice-IsOver :
    (o : Outside) (run : RunRow) (rejected : Bool) (db : Database) (m : Option Ident)
    → Holds run db
    → IsOver run (notice_answered (undisturbed o) run rejected db m)
unfolding notice_answered
notice-IsOver o run rejected db (some m) h =
    end_after_fallback-IsOver o run rejected _ (note-Holds o run (some m) none db h)
notice-IsOver o run rejected db none h =
    end_after_fallback-IsOver o run rejected _
      (note-Holds o run none (some "schedule_origin_delivery_failed") db h)

fallback_begun-IsOver :
    (o : Outside) (t : TaskRow) (run : RunRow) (rejected : Bool) (db : Database)
    (key : Outcome DeliveryKey)
    → Holds run db
    → IsOver run (fallback_begun (undisturbed o) t run rejected db key)
unfolding fallback_begun
fallback_begun-IsOver o t run rejected db (ok key) h =
    notice-IsOver o run rejected db o.notice_delivery h
fallback_begun-IsOver o t run rejected db delivery_already_attempted h =
    notice-IsOver o run rejected db none h
fallback_begun-IsOver o t run rejected db delivery_state_stale h =
    notice-IsOver o run rejected db none h
fallback_begun-IsOver o t run rejected db fallback_already_attempted h =
    notice-IsOver o run rejected db none h

fall_back-IsOver :
    (o : Outside) (t : TaskRow) (run : RunRow) (rejected : Bool) (db : Database)
    → Holds run db
    → IsOver run (fall_back (undisturbed o) t run rejected db)
unfolding fall_back begin_fallback
fall_back-IsOver o t run rejected db h = fallback_begun-IsOver o t run rejected _ _ (
    marked-Holds run (may_fall_back run.id run.claim_attempt) (fallback_run (o.clock 6)) db
      (ground arith) h)

finish_answered-IsOver :
    (o : Outside) (t : TaskRow) (run : RunRow) (p : Processed) (e : Ended)
    → e ≡ Ended.returned
    → IsOver run p
    → IsOver run (finish_answered (undisturbed o) t run p e)
unfolding finish_answered
finish_answered-IsOver o t run p Ended.no_run q h = h
finish_answered-IsOver o t run p Ended.returned q h = h
finish_answered-IsOver o t run p Ended.threw q h = absurd (cc)

delivery_marked-IsOver :
    (o : Outside) (t : TaskRow) (run : RunRow) (outcome : FinishOutcome) (db : Database)
    (marked : Outcome (Unit {0}))
    → Holds run db
    → IsOver run (delivery_marked (undisturbed o) t run outcome db marked)
unfolding delivery_marked
delivery_marked-IsOver o t run outcome db (ok u) h =
    let over = end_run-IsOver o 5 run outcome (outcome_category outcome) db h in
    finish_answered-IsOver o t run _ _ over.0 over
delivery_marked-IsOver o t run outcome db delivery_already_attempted h =
    fall_back-IsOver o t run false db h
delivery_marked-IsOver o t run outcome db delivery_state_stale h =
    fall_back-IsOver o t run false db h
delivery_marked-IsOver o t run outcome db fallback_already_attempted h =
    fall_back-IsOver o t run false db h

result_answered-IsOver :
    (o : Outside) (t : TaskRow) (run : RunRow) (outcome : FinishOutcome) (db : Database)
    (d : Delivery)
    → Holds run db
    → IsOver run (result_answered (undisturbed o) t run outcome db d)
unfolding result_answered mark_delivered
result_answered-IsOver o t run outcome db (delivered m) h =
    delivery_marked-IsOver o t run outcome _ _ (
      marked-Holds run (may_mark_delivered run.id run.claim_attempt) (delivered_run m (o.clock 4))
        db (ground arith) h)
result_answered-IsOver o t run outcome db scheduled_delivery_rejected h =
    fall_back-IsOver o t run true db h
result_answered-IsOver o t run outcome db delivery_threw h = fall_back-IsOver o t run false db h

pub delivery_prepared-IsOver :
    (o : Outside) (t : TaskRow) (run : RunRow) (outcome : FinishOutcome) (kind : PreparedReplyKind)
    (text : String) (db : Database) (key : Outcome DeliveryKey)
    → Holds run db
    → IsOver run (delivery_prepared (undisturbed o) t run outcome kind text db key)
unfolding delivery_prepared
delivery_prepared-IsOver o t run outcome kind text db (ok key) h =
    result_answered-IsOver o t run outcome db o.result_delivery h
delivery_prepared-IsOver o t run outcome kind text db delivery_already_attempted h =
    fall_back-IsOver o t run false db h
delivery_prepared-IsOver o t run outcome kind text db delivery_state_stale h =
    fall_back-IsOver o t run false db h
delivery_prepared-IsOver o t run outcome kind text db fallback_already_attempted h =
    fall_back-IsOver o t run false db h
