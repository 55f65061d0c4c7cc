-- ===== src/Admission/Delivery.antt =====
-- The result of a run is delivered at most once, over any history of moves.
use minori.Common.{
  ℕ, ◌≤◌, ◌≡◌, refl, sym, ap, subst, ◌∙◌, inl, inr, List, [], ◌∷◌, Option, none, some, Bool, true,
  false, ◌&&◌, arith, Bool-cases, Option-cases, ◌==◌, String, is_none,
}
use minori.Common.Table.{count, find, update}
use minori.Common.Table.Counts.{count-update-eq, update-eq_of_count, find-none, find-some}
use minori.Common.Table.Keys.{count-and-and, find-eq_none}
use minori.Common.Sorting.{find-mem}
use minori.Domain.{Ident, Time}
use minori.Database.{RunRow, Database, DeliveryKey, run_is_processing}
use minori.Runs.{run_is, task_is}
use minori.Runs.Claim.{
  claim_next, claim_candidate, claimed_run, queued_run, next_run, task_may_run, run_held,
}
use minori.Runs.Deliver.{
  ok, delivery_already_attempted, fallback_already_attempted, may_prepare, prepared_run,
  prepare_delivery, may_fall_back, fallback_run, begin_fallback, key_or_throw, returned_key,
}
use minori.Admission.{Move, advance, with_runs}
use minori.Admission.Quiet.{
  HasUniqueRuns, KeepsRows, KeepsRows-refl, KeepsRows-trans, KeepsRows-update, RunKeeps, run-update,
}
use minori.Admission.Moves.{move-Peaceful}
use minori.Admission.History.{history}

-- The ids stay unique, and each run keeps what was begun.
record Lasts (rs rs' : List RunRow) : Type 0 where
  ids : HasUniqueRuns rs → HasUniqueRuns rs'
  rows : KeepsRows rs rs'

Lasts-refl : (rs : List RunRow) → Lasts rs rs
Lasts-refl rs = record { ids = λ u. u; rows = KeepsRows-refl rs }

candidate-Lasts :
    (lease_ms now clock : Time) (o : Option RunRow) (db : Database)
    → Lasts db.runs (claim_candidate lease_ms now clock o db).0.runs
unfolding claim_candidate
candidate-Lasts lease_ms now clock none db = Lasts-refl db.runs
candidate-Lasts lease_ms now clock (some r) db =
    elim (Bool-cases (task_may_run (find (task_is r.schedule_id) db.tasks))) [
      | inl may ↦ rw may (record {
        ids = λ u i.
            subst (λ n. n ≤ 1)
              (sym (
                count-update-eq (run_is i) (queued_run r.id) (claimed_run lease_ms now clock)
                  db.runs (λ x. refl)))
              (u i);
        rows =
            KeepsRows-update (queued_run r.id) (claimed_run lease_ms now clock) db.runs (λ x. refl)
              (λ x. ground arith);
      })
      | inr may_not ↦ rw may_not (Lasts-refl db.runs)
    ]

advance-Lasts : (m : Move) (db : Database) → Lasts db.runs (advance m db).runs
unfolding advance claim_next
advance-Lasts (Move.event_call c) db = Lasts-refl db.runs
advance-Lasts (Move.claims_next lease_ms now clock) db =
    candidate-Lasts lease_ms now clock (next_run db clock) db
advance-Lasts m db =
    let p = move-Peaceful m db refl in record { ids = p.quiet_runs.ids; rows = p.quiet_runs.rows }

history-Lasts : (ms : List Move) (db : Database) → Lasts db.runs (history ms db).runs
history-Lasts [] db = Lasts-refl db.runs
history-Lasts (m ∷ ms) db =
    let p = advance-Lasts m db in
    let q = history-Lasts ms (advance m db) in
    record {
      ids = λ u. q.ids (p.ids u);
      rows = KeepsRows-trans db.runs (advance m db).runs _ p.rows q.rows;
    }

-- A test that includes an id picks nothing where it fails for the run of that id.
none_picked :
    (i : Ident) (n : ℕ) (q : RunRow → Bool) (rs : List RunRow) (r : RunRow)
    → HasUniqueRuns rs
    → find (run_is i) rs ≡ some r
    → q r ≡ false
    → count (λ x. run_held i n x && q x) rs ≡ 0
none_picked i n q rs r u h bad =
    count-and-and (run_is i) (λ x. run_is_processing x.status && x.claim_attempt == n) q rs r (u i)
      h
    ∙ ground arith

picked_row :
    (i : Ident) (n : ℕ) (q : RunRow → Bool) (rs : List RunRow) (x : RunRow)
    → HasUniqueRuns rs
    → find (λ x. run_held i n x && q x) rs ≡ some x
    → (find (run_is i) rs ≡ some x) × ((run_held i n x && q x) ≡ true)
picked_row i n q rs x u h =
    let (good, there) = find-some (λ x. run_held i n x && q x) rs x h in
    (find-mem (run_is i) rs x (u i) there (ground arith), good)

-- What a run that was picked and marked looks like after any history.
marked_later :
    (ms : List Move) (db : Database) (id : Ident) (n : ℕ) (q : RunRow → Bool) (f : RunRow → RunRow)
    (x : RunRow)
    → HasUniqueRuns db.runs
    → ((r : RunRow) → (f r).id ≡ r.id)
    → find (λ x. run_held id n x && q x) db.runs ≡ some x
    → let marked = with_runs db (update (λ x. run_held id n x && q x) f db.runs) in
      (r : RunRow) × (find (run_is id) (history ms marked).runs ≡ some r)
      × RunKeeps (f x) r
      × HasUniqueRuns (history ms marked).runs
marked_later ms db id n q f x u same h =
    let hit : RunRow → Bool = λ x. run_held id n x && q x in
    let (found, good) = picked_row id n q db.runs x u h in
    let after = run-update id hit f db.runs x same found ∙ rw good in
    let l = history-Lasts ms (with_runs db (update hit f db.runs)) in
    let (r, h', k) = l.rows id (f x) after in
    (
      r,
      h',
      k,
      l.ids (λ i.
          subst (λ n. n ≤ 1)
            (sym (count-update-eq (run_is i) hit f db.runs (λ x. ap (λ (n : ℕ). n == i) (same x))))
            (u i)),
    )

prepared_row :
    (id : Ident) (n : ℕ) (rs : List RunRow) (key : DeliveryKey)
    → key_or_throw (returned_key (find (may_prepare id n) rs)) ≡ ok key
    → (x : RunRow) × (find (may_prepare id n) rs ≡ some x)
prepared_row id n rs key h = elim (Option-cases (find (may_prepare id n) rs)) [
  | inl gone ↦ absurd (ground arith)
  | inr found ↦ found
]

refused_prepare :
    (id : Ident) (m : ℕ) (text : String) (now : Time) (rs : List RunRow)
    → count (may_prepare id m) rs ≡ 0
    → prepare_delivery id m text now rs ≡ (rs, delivery_already_attempted)
unfolding prepare_delivery
refused_prepare id m text now rs h =
    rw
      (
        update-eq_of_count (may_prepare id m) (prepared_run text now) rs h,
        find-eq_none (may_prepare id m) rs h,
      )
      refl

refused_fallback :
    (id : Ident) (m : ℕ) (now : Time) (rs : List RunRow)
    → count (may_fall_back id m) rs ≡ 0
    → begin_fallback id m now rs ≡ (rs, fallback_already_attempted)
unfolding begin_fallback
refused_fallback id m now rs h =
    rw (update-eq_of_count (may_fall_back id m) (fallback_run now) rs h, h) refl

-- If run ids are unique and the delivery of a run was prepared, then after every history of moves
-- each claim of the run is refused another delivery with an error, and the refusal changes no row.
pub delivered_at_most_once :
    (ms : List Move) (db : Database) (id : Ident) (n m : ℕ) (text text' : String) (now now' : Time)
    (key : DeliveryKey)
    → HasUniqueRuns db.runs
    → (prepare_delivery id n text now db.runs).1 ≡ ok key
    → let later = (history ms (with_runs db (prepare_delivery id n text now db.runs).0)).runs in
      prepare_delivery id m text' now' later ≡ (later, delivery_already_attempted)
unfolding prepare_delivery
delivered_at_most_once ms db id n m text text' now now' key u h =
    let (x, hit) = prepared_row id n db.runs key h in
    let (r, found, k, v) =
      marked_later ms db id n (λ x. is_none x.delivery_attempted_at) (prepared_run text now) x u
        (λ r. refl) hit in
    refused_prepare id m text' now' _
      (none_picked id m (λ x. is_none x.delivery_attempted_at) _ r v found (ground arith))

fallback_row :
    (id : Ident) (n : ℕ) (now : Time) (rs : List RunRow) (key : DeliveryKey)
    → (begin_fallback id n now rs).1 ≡ ok key
    → (x : RunRow) × (find (may_fall_back id n) rs ≡ some x)
unfolding begin_fallback
fallback_row id n now rs key h = elim (Option-cases (find (may_fall_back id n) rs)) [
  | inl gone ↦ absurd (ground (arith, find-none (may_fall_back id n) rs gone))
  | inr found ↦ found
]

-- If run ids are unique and the fallback of a run was begun, then after every history of moves
-- each claim of the run is refused another fallback with an error, and the refusal changes no row.
pub fallback_at_most_once :
    (ms : List Move) (db : Database) (id : Ident) (n m : ℕ) (now now' : Time) (key : DeliveryKey)
    → HasUniqueRuns db.runs
    → (begin_fallback id n now db.runs).1 ≡ ok key
    → let later = (history ms (with_runs db (begin_fallback id n now db.runs).0)).runs in
      begin_fallback id m now' later ≡ (later, fallback_already_attempted)
unfolding begin_fallback
fallback_at_most_once ms db id n m now now' key u h =
    let (x, hit) = fallback_row id n now db.runs key h in
    let (r, found, k, v) =
      marked_later ms db id n (λ x. is_none x.fallback_attempted_at) (fallback_run now) x u
        (λ r. refl) hit in
    refused_fallback id m now' _
      (none_picked id m (λ x. is_none x.fallback_attempted_at) _ r v found (ground arith))
