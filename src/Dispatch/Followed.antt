-- ===== src/Dispatch/Followed.antt =====
-- What a poll does with a list of tasks, one after another.
use mathlib.Core.List.{Memᴰ}
use minori.Common.{
  ℕ, suc, ◌+◌, ◌≡◌, ◌⊎◌, refl, sym, ap, subst, List, [], ◌∷◌, Option, none, some, Bool, true, false,
  if◌then◌else◌, arith, or_default, Bool-cases, Option-cases, inl, inr,
}
use minori.Domain.{Time}
use minori.Database.{TaskRow, RunRow, Database}
use minori.Runs.{CreateDueResult, create_due}
use minori.Admission.History.{history}
use minori.Dispatch.{
  Due, Outside, Polled, counts_created, counts_folded, is_thrown, create_one, poll_each, poll_task,
  due_occurrence,
}
use minori.Dispatch.Calendar.{Cron, Checked, ok, calendar_fail}

-- The transaction for an occurrence of a task: the task's due time as the code has read it, the time of
-- the occurrence, and the following due time. It meets what others have committed before it.
abbrev pub stored_due : Outside → ℕ → TaskRow → Time → Due → Database → Database × CreateDueResult
stored_due o k t expected d db =
    create_due (o.ids k)
      (record {
        schedule_id = t.id;
        expected_due_at = expected;
        scheduled_for = d.scheduled_for;
        next_due_at = d.next_due_at;
      })
      (o.clock k) (history (o.others k) db)

-- From one database to another by the tasks of a list in their order, the first with the number k, so
-- many created runs, and whether the rest is given up. For each task what others commit before its
-- transaction is what `Outside` says.
pub data Follows (c : Cron) (o : Outside)
    : ℕ → List TaskRow → Database → Database → ℕ → Bool → Type 0 where
  done : (k : ℕ) (db : Database) → Follows c o k [] db db 0 false
  not_due :
      (k : ℕ) (t : TaskRow) (ts : List TaskRow) (db db' : Database) (n : ℕ) (failed : Bool)
      → due_occurrence c t o.database_now ≡ ok none
      → Follows c o (suc k) ts db db' n failed
      → Follows c o k (t ∷ ts) db db' n failed
  misread :
      (k : ℕ) (t : TaskRow) (ts : List TaskRow) (db : Database)
      → ((d : Option Due) → ¬ (due_occurrence c t o.database_now ≡ ok d))
      → Follows c o k (t ∷ ts) db db 0 true
  unanswered :
      (k : ℕ) (t : TaskRow) (ts : List TaskRow) (db : Database) (d : Due)
      → due_occurrence c t o.database_now ≡ ok (some d)
      → o.answers k ≡ false
      → Follows c o k (t ∷ ts) db (history (o.others k) db) 0 true
  throws :
      (k : ℕ) (t : TaskRow) (ts : List TaskRow) (db : Database) (expected : Time) (d : Due)
      → due_occurrence c t o.database_now ≡ ok (some d)
      → t.next_due_at ≡ some expected
      → ((stored_due o k t expected d db).1 ≡ CreateDueResult.body_unavailable)
        ⊎ ((stored_due o k t expected d db).1 ≡ CreateDueResult.unique_violation)
      → Follows c o k (t ∷ ts) db (stored_due o k t expected d db).0 0 true
  creates :
      (k : ℕ) (t : TaskRow) (ts : List TaskRow) (db db' : Database) (n : ℕ) (failed : Bool)
      (expected : Time) (d : Due) (r : RunRow)
      → due_occurrence c t o.database_now ≡ ok (some d)
      → t.next_due_at ≡ some expected
      → (stored_due o k t expected d db).1 ≡ CreateDueResult.created r
      → Follows c o (suc k) ts (stored_due o k t expected d db).0 db' n failed
      → Follows c o k (t ∷ ts) db db' (suc n) failed
  passes :
      (k : ℕ) (t : TaskRow) (ts : List TaskRow) (db db' : Database) (n : ℕ) (failed : Bool)
      (expected : Time) (d : Due)
      → due_occurrence c t o.database_now ≡ ok (some d)
      → t.next_due_at ≡ some expected
      → Memᴰ (stored_due o k t expected d db).1 (
          CreateDueResult.not_found ∷ CreateDueResult.not_due ∷ CreateDueResult.inactive
          ∷ CreateDueResult.active_run ∷ [])
      → Follows c o (suc k) ts (stored_due o k t expected d db).0 db' n failed
      → Follows c o k (t ∷ ts) db db' n failed

due_has_time :
    (c : Cron) (t : TaskRow) (now : Time) (d : Due)
    → due_occurrence c t now ≡ ok (some d)
    → (expected : Time) × (t.next_due_at ≡ some expected)
unfolding due_occurrence
due_has_time c t now d h = elim (Option-cases t.next_due_at) [
  | inl e ↦ absurd (ground arith)
  | inr (at, e) ↦ (at, e)
]

module _ (c : Cron) (o : Outside) where
  -- From one state of the poll to another by the tasks of a list.
  abbrev Goes : ℕ → List TaskRow → Polled → Polled → Type 0
  Goes k ts p p' =
      (n : ℕ) × Follows c o k ts p.database p'.database n p'.failed × (p'.created ≡ p.created + n)

  abbrev Rest : ℕ → List TaskRow → Type 0
  Rest k ts = (p : Polled) → p.failed ≡ false → Goes k ts p (poll_each c o k ts p)

  -- The state after the transaction of a task has given a result.
  abbrev given : Polled → Due → Database → CreateDueResult → Polled
  given p d db result = record {
    database = db;
    created = p.created + counts_created result;
    folded = p.folded + (if is_thrown result then 0 else counts_folded d.folded result);
    failed = is_thrown result;
  }

  abbrev onward : ℕ → List TaskRow → Polled → Polled
  onward k ts after = if after.failed then after else poll_each c o (suc k) ts after

  module _ (k : ℕ) (t : TaskRow) (ts : List TaskRow) (p : Polled) (rest : Rest (suc k) ts) where
    module _ (expected : Time) (d : Due) (due : due_occurrence c t o.database_now ≡ ok (some d))
        (has : t.next_due_at ≡ some expected) where
      abbrev met : Database
      met = (stored_due o k t expected d p.database).0

      passes-Goes :
          (result : CreateDueResult)
          → Memᴰ result (
              CreateDueResult.not_found ∷ CreateDueResult.not_due ∷ CreateDueResult.inactive
              ∷ CreateDueResult.active_run ∷ [])
          → (stored_due o k t expected d p.database).1 ≡ result
          → is_thrown result ≡ false
          → counts_created result ≡ 0
          → Goes k (t ∷ ts) p (poll_each c o (suc k) ts (given p d met result))
      passes-Goes result m e on none_created =
          let (n, f, same) = rest (given p d met result) on in
          (
            n,
            Follows.passes k t ts p.database _ n _ expected d due has (rw e m) f,
            omega (arith, same, none_created),
          )

      result-Goes :
          (result : CreateDueResult)
          → (stored_due o k t expected d p.database).1 ≡ result
          → Goes k (t ∷ ts) p (onward k ts (given p d met result))
      result-Goes (CreateDueResult.created r) e =
          let (n, f, same) = rest (given p d met (CreateDueResult.created r)) refl in
          (
            suc n,
            Follows.creates k t ts p.database _ n _ expected d r due has e f,
            omega (arith, same),
          )
      result-Goes CreateDueResult.not_found e =
          passes-Goes CreateDueResult.not_found (Memᴰ.head refl) e refl refl
      result-Goes CreateDueResult.not_due e =
          passes-Goes CreateDueResult.not_due (Memᴰ.tail (Memᴰ.head refl)) e refl refl
      result-Goes CreateDueResult.inactive e =
          passes-Goes CreateDueResult.inactive (Memᴰ.tail (Memᴰ.tail (Memᴰ.head refl))) e refl refl
      result-Goes CreateDueResult.active_run e =
          passes-Goes CreateDueResult.active_run
            (Memᴰ.tail (Memᴰ.tail (Memᴰ.tail (Memᴰ.head refl)))) e refl refl
      result-Goes CreateDueResult.body_unavailable e =
          (0, Follows.throws k t ts p.database expected d due has (inl e), omega arith)
      result-Goes CreateDueResult.unique_violation e =
          (0, Follows.throws k t ts p.database expected d due has (inr e), omega arith)

      -- The due time in the transaction's input, as the code reads it.
      abbrev made : Time → Polled
      made at = given p d (stored_due o k t at d p.database).0 (stored_due o k t at d p.database).1

      create_one-Goes :
          Goes k (t ∷ ts) p (onward k ts (create_one o k t d p (history (o.others k) p.database)))
      unfolding create_one
      create_one-Goes = elim (Bool-cases (o.answers k)) [
        | inl answers ↦
            subst
              (λ b. Goes k (t ∷ ts) p (
                onward k ts (
                  if b
                  then made (or_default t.next_due_at 0)
                  else record p { database = history (o.others k) p.database; failed = true })))
              (sym answers)
              (subst (λ at. Goes k (t ∷ ts) p (onward k ts (made at)))
                (sym (ap (λ x. or_default x 0) has))
                (result-Goes (stored_due o k t expected d p.database).1 refl))
        | inr no_answer ↦
            rw no_answer (0, Follows.unanswered k t ts p.database d due no_answer, omega arith)
      ]

    poll_task-Goes :
        (x : Checked (Option Due))
        → due_occurrence c t o.database_now ≡ x
        → p.failed ≡ false
        → Goes k (t ∷ ts) p (onward k ts (poll_task o k t x p))
    unfolding poll_task
    poll_task-Goes (calendar_fail code) e h =
        (0, Follows.misread k t ts p.database (λ d q. absurd (cc)), omega arith)
    poll_task-Goes (ok none) e h =
        let (n, f, same) = rest p h in
        subst (λ b. Goes k (t ∷ ts) p (if b then p else poll_each c o (suc k) ts p)) (sym h)
          (n, Follows.not_due k t ts p.database _ n _ e f, same)
    poll_task-Goes (ok (some d)) e h =
        let (expected, has) = due_has_time c t o.database_now d e in
        create_one-Goes expected d e has

  pub poll_each-Goes : (k : ℕ) (ts : List TaskRow) → Rest k ts
  unfolding poll_each
  poll_each-Goes k [] p h = (
    0,
    subst (Follows c o k [] p.database p.database 0) (sym h) (Follows.done k p.database),
    omega arith,
  )
  poll_each-Goes k (t ∷ ts) p h =
      poll_task-Goes k t ts p (poll_each-Goes (suc k) ts) (due_occurrence c t o.database_now) refl h
