-- ===== src/Admission/Moves.antt =====
-- The moves that put no event and no run in processing.
use minori.Common.{◌≡◌, refl, ap, Bool, true, false, arith}
use minori.Common.Table.{update}
use minori.Database.{RunRow, Database}
use minori.Runs.Claim.{extend_lease}
use minori.Runs.Deliver.{prepare_delivery, mark_delivered, begin_fallback, finish_fallback}
use minori.Runs.Finish.{cancel_queued_for_task}
use minori.Admission.{Move, advance, with_runs}
use minori.Admission.Quiet.{IsQuiet, RunKeeps, Quiet-update, Peaceful}
use minori.Admission.Peaceful.{create_due-Peaceful, finish-Peaceful, recover_expired-Peaceful}
use minori.Admission.Registry.{
  create-Peaceful, cancelling-IsQuiet, change-Peaceful, transition-Peaceful, purge-Peaceful,
}

-- An update that changes no id and no chat, and puts no run in processing.
marked-Peaceful :
    (p : RunRow → Bool) (f : RunRow → RunRow) (db : Database)
    → ((r : RunRow) → IsQuiet r (f r))
    → Peaceful db (with_runs db (update p f db.runs))
marked-Peaceful p f db quiet = record {
  same_events = refl;
  quiet_runs = Quiet-update p f db.runs quiet;
}

marking-IsQuiet :
    {r r' : RunRow}
    → r'.id ≡ r.id
    → r'.status ≡ r.status
    → r.result_target ≡ r'.result_target
    → RunKeeps r r'
    → IsQuiet r r'
marking-IsQuiet i s t k = record {
  same_id = i;
  was_processing = λ b. cc;
  same_chat = λ b. ap (λ x. x.chat_id) t;
  keeps = k;
}

abbrev pub is_peaceful : Move → Bool
is_peaceful (Move.event_call c) = false
is_peaceful (Move.claims_next lease_ms now clock) = false
is_peaceful _ = true

pub move-Peaceful : (m : Move) (db : Database) → is_peaceful m ≡ true → Peaceful db (advance m db)
unfolding advance prepare_delivery mark_delivered begin_fallback finish_fallback extend_lease
    cancel_queued_for_task
move-Peaceful (Move.event_call c) db h = absurd (cc)
move-Peaceful (Move.claims_next lease_ms now clock) db h = absurd (cc)
move-Peaceful (Move.creates_due id input now) db h = create_due-Peaceful id input now db
move-Peaceful (Move.extends_lease id n lease_ms now clock) db h =
    marked-Peaceful _ _ db (λ r. marking-IsQuiet refl refl refl (ground arith))
move-Peaceful (Move.prepares_delivery id n text now) db h =
    marked-Peaceful _ _ db (λ r. marking-IsQuiet refl refl refl (ground arith))
move-Peaceful (Move.marks_delivered id n m now) db h =
    marked-Peaceful _ _ db (λ r. marking-IsQuiet refl refl refl (ground arith))
move-Peaceful (Move.begins_fallback id n now) db h =
    marked-Peaceful _ _ db (λ r. marking-IsQuiet refl refl refl (ground arith))
move-Peaceful (Move.finishes_fallback id m category now) db h =
    marked-Peaceful _ _ db (λ r. marking-IsQuiet refl refl refl (ground arith))
move-Peaceful (Move.cancels_queued id now) db h = marked-Peaceful _ _ db (cancelling-IsQuiet now)
move-Peaceful (Move.finishes id n outcome category now) db h =
    finish-Peaceful id n outcome category now db
move-Peaceful (Move.recovers_expired now clock) db h = recover_expired-Peaceful now clock db
move-Peaceful (Move.creates_task lower id input now) db h = create-Peaceful lower id input now db
move-Peaceful (Move.changes_task lower id v actor c now) db h =
    change-Peaceful lower id v actor c now db
move-Peaceful (Move.moves_task id v actor target due now clock) db h =
    transition-Peaceful id v actor target due now clock db
move-Peaceful (Move.purges name at now) db h = purge-Peaceful name at now db
