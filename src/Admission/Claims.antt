-- ===== src/Admission/Claims.antt =====
-- The claim of a run: `claimNext` of src/storage/scheduled-run-store.ts on the shared slots.
use mathlib.Core.List.{Memᴰ}
use minori.Common.{
  ◌≤◌, ◌<◌, ◌≡◌, ◌≢◌, refl, sym, ap, subst, ◌∙◌, inl, inr, List, [], ◌∷◌, Option, none, some, true,
  ◌&&◌, arith, Bool-cases, ◌==◌, first, sort_by,
}
use minori.Common.Table.{count, find, update, select}
use minori.Common.Table.Counts.{
  count-zero_of_exists, count-pos_of_mem, count-update-le, count-update-eq,
}
use minori.Common.Table.Keys.{count-and-le}
use minori.Common.Sorting.{mem-select, mem-sort_by, find-mem}
use minori.Domain.{Time}
use minori.Database.{
  EventRow, RunRow, TaskRow, Database, is_processing, run_is_processing, run_is_queued,
}
use minori.Events.{agent_admission_concurrency}
use minori.Events.Capacity.{processing_events, processing_runs}
use minori.Runs.{run_is, task_is}
use minori.Runs.Claim.{
  claim_next, claim_candidate, next_run, admissible, due_earlier, claimed_run, queued_run,
  task_may_run,
}
use minori.Admission.Quiet.{HasUniqueRuns, mem-update}
use minori.Admission.Shared.{IsAdmitted}

pub admissible_facts :
    (db : Database) (clock : Time) (r : RunRow)
    → admissible db clock r ≡ true
    → (run_is_queued r.status ≡ true)
      × (processing_runs db.runs ≡ 0)
      × (processing_events db.events < agent_admission_concurrency)
      × (count
            (λ e. is_processing e.status && e.conversation_key == r.result_target.chat_id)
            db.events
          ≡ 0)
unfolding admissible
admissible_facts db clock r h = ground (
  arith,
  count-zero_of_exists (λ a. run_is_processing a.status) db.runs,
  count-zero_of_exists
      (λ e. is_processing e.status && e.conversation_key == r.result_target.chat_id) db.events,
)

first_mem : {A : Type 0} (xs : List A) (x : A) → first xs ≡ some x → Memᴰ x xs
first_mem [] x h = absurd (cc)
first_mem (y ∷ ys) x h = Memᴰ.head (cc)

pub next_run_facts :
    (db : Database) (clock : Time) (r : RunRow)
    → next_run db clock ≡ some r
    → Memᴰ r db.runs × (admissible db clock r ≡ true)
unfolding next_run
next_run_facts db clock r h = mem-select (admissible db clock) db.runs r (
    mem-sort_by due_earlier (select (admissible db clock) db.runs) r
      (first_mem (sort_by due_earlier (select (admissible db clock) db.runs)) r h))

-- The run that is claimed is the only one with its id.
claimed_only :
    (rs : List RunRow) (r x : RunRow)
    → HasUniqueRuns rs
    → Memᴰ r rs
    → Memᴰ x rs
    → x.id ≡ r.id
    → x ≡ r
claimed_only rs r x u mr mx same =
    let by_r : find (run_is r.id) rs ≡ some r =
      find-mem (run_is r.id) rs r (u r.id) mr (ground arith) in
    let by_x : find (run_is r.id) rs ≡ some x =
      find-mem (run_is r.id) rs x (u r.id) mx (ground arith) in
    cc

claimed-IsApart :
    (lease_ms now clock : Time) (db : Database) (r : RunRow)
    → HasUniqueRuns db.runs
    → next_run db clock ≡ some r
    → (e : EventRow) (r' : RunRow) → Memᴰ e db.events
    → Memᴰ r' (update (queued_run r.id) (claimed_run lease_ms now clock) db.runs)
    → is_processing e.status ≡ true
    → run_is_processing r'.status ≡ true
    → e.conversation_key ≢ r'.result_target.chat_id
claimed-IsApart lease_ms now clock db r u h e r' me mr be br clash =
    let (x, k, q) = mem-update (queued_run r.id) (claimed_run lease_ms now clock) db.runs r' mr in
    let (mem, adm) = next_run_facts db clock r h in
    let (was_queued, idle, room, alone) = admissible_facts db clock r adm in
    elim (Bool-cases (queued_run r.id x)) [
      | inl hit ↦
          let q' : r' ≡ claimed_run lease_ms now clock x = q ∙ rw hit in
          let same : x ≡ r = claimed_only db.runs r x u mem k (ground arith) in
          let chat : e.conversation_key ≡ r.result_target.chat_id =
            clash ∙ ap (λ y. y.result_target.chat_id) q' ∙ ap (λ y. y.result_target.chat_id) same in
          absurd (
            ground (
              arith,
              count-pos_of_mem
                  (λ e. is_processing e.status && e.conversation_key == r.result_target.chat_id)
                  db.events e me,
            ))
      | inr miss ↦
          let q' : r' ≡ x = q ∙ rw miss in
          let was : run_is_processing x.status ≡ true = rw q' at br in
          absurd (ground (arith, count-pos_of_mem (λ a. run_is_processing a.status) db.runs x k))
    ]

claimed-IsAdmitted :
    (lease_ms now clock : Time) (db : Database) (r : RunRow) (ts : List TaskRow)
    → next_run db clock ≡ some r
    → IsAdmitted db
    → IsAdmitted (record db {
      runs = update (queued_run r.id) (claimed_run lease_ms now clock) db.runs;
      tasks = ts;
    })
claimed-IsAdmitted lease_ms now clock db r ts h a =
    let (mem, adm) = next_run_facts db clock r h in
    let (was_queued, idle, room, alone) = admissible_facts db clock r adm in
    let more =
      count-update-le (λ x. run_is_processing x.status) (queued_run r.id)
        (claimed_run lease_ms now clock) db.runs in
    let few = count-and-le (run_is r.id) (λ x. run_is_queued x.status) db.runs in
    let one = a.run_ids r.id in
    record {
      event_ids = a.event_ids;
      run_ids = λ i.
          subst (λ n. n ≤ 1)
            (sym (
              count-update-eq (run_is i) (queued_run r.id) (claimed_run lease_ms now clock) db.runs
                (λ x. refl)))
            (a.run_ids i);
      capacity = omega (arith, more, few, one, idle, room);
      single_run = omega (arith, more, few, one, idle);
      apart = claimed-IsApart lease_ms now clock db r a.run_ids h;
    }

candidate-IsAdmitted :
    (lease_ms now clock : Time) (db : Database) (o : Option RunRow)
    → next_run db clock ≡ o
    → IsAdmitted db
    → IsAdmitted (claim_candidate lease_ms now clock o db).0
unfolding claim_candidate
candidate-IsAdmitted lease_ms now clock db none h a = a
candidate-IsAdmitted lease_ms now clock db (some r) h a =
    elim (Bool-cases (task_may_run (find (task_is r.schedule_id) db.tasks))) [
      | inl may ↦ rw may (claimed-IsAdmitted lease_ms now clock db r _ h a)
      | inr may_not ↦ rw may_not a
    ]

pub claim_next-IsAdmitted :
    (lease_ms now clock : Time) (db : Database)
    → IsAdmitted db
    → IsAdmitted (claim_next lease_ms now clock db).0
unfolding claim_next
claim_next-IsAdmitted lease_ms now clock db a =
    candidate-IsAdmitted lease_ms now clock db (next_run db clock) refl a
