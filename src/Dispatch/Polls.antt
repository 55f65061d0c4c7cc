-- ===== src/Dispatch/Polls.antt =====
-- What one poll of the dispatcher comes to.
use minori.Common.{
  ◌≡◌, refl, sym, subst, List, Bool, true, false, if◌then◌else◌, arith, Bool-cases, inl, inr,
}
use minori.Database.{TaskRow, Database}
use minori.Schedules.{list_dispatchable}
use minori.Dispatch.{
  Outside, Polled, poll, poll_each, starts_at, Dispatcher, dispatcher_poll, Health, healthy,
  degraded,
}
use minori.Dispatch.Calendar.{Cron}
use minori.Dispatch.Listed.{IsListed, list_dispatchable-IsListed}
use minori.Dispatch.Followed.{Follows, poll_each-Goes}

-- What a poll comes to, by whether the dispatcher is enabled and whether the first reads answer.
abbrev pub IsPoll : Cron → Outside → Health → Database → Bool → Bool → Dispatcher × Polled → Type 0
IsPoll c o before db true true (d, p) =
    (ts : List TaskRow) × IsListed o.database_now db ts
    × Follows c o 0 ts db p.database p.created p.failed
    × (d.health ≡ (if p.failed then degraded else healthy))
IsPoll c o before db true false (d, p) =
    (p.database ≡ db) × (p.created ≡ 0) × (p.failed ≡ true) × (d.health ≡ degraded)
IsPoll c o before db false reads (d, p) =
    (p.database ≡ db) × (p.created ≡ 0) × (p.failed ≡ false) × (d.health ≡ before)

-- The dispatcher after a poll.
abbrev after_poll : Dispatcher → Polled → Dispatcher × Polled
after_poll d p = (record d { health = if p.failed then degraded else healthy }, p)

poll-IsPoll :
    (c : Cron) (o : Outside) (d : Dispatcher) (db : Database)
    → IsPoll c o d.health db true o.reads_answer (after_poll d (poll c o db))
unfolding poll
poll-IsPoll c o d db =
    let ts = list_dispatchable o.database_now 50 db in
    let ends = poll_each c o 0 ts (starts_at db) in
    let (n, f, same) = poll_each-Goes c o 0 ts (starts_at db) refl in
    let counted : n ≡ ends.created = omega (arith, same) in
    let out : Bool → Polled = λ b. if b then ends else record (starts_at db) { failed = true } in
    elim (Bool-cases o.reads_answer) [
      | inl answers ↦
          subst (λ b. IsPoll c o d.health db true b (after_poll d (out b))) (sym answers)
            (
              ts,
              list_dispatchable-IsListed o.database_now db,
              subst (λ m. Follows c o 0 ts db ends.database m ends.failed) counted f,
              refl,
            )
      | inr no_answer ↦
          subst (λ b. IsPoll c o d.health db true b (after_poll d (out b))) (sym no_answer)
            (refl, refl, refl, refl)
    ]

-- A poll of an enabled dispatcher whose first reads answer goes through the tasks that are active,
-- and due by the database's clock or with a missed occurrence, in a list that has all of them or
-- fifty. For each in turn it makes no transaction if the task has no occurrence, and otherwise one
-- `createDue` with the task's id, its due time, and the two times of the occurrence, on what the
-- others have committed before. It counts the runs that are created, and it stops with an error and
-- a degraded health at the first task whose occurrence cannot be computed, whose transaction is not
-- answered or throws; without an error its health is healthy. If the first reads are not answered,
-- it fails and changes nothing in the database; if the dispatcher is not enabled, the database and
-- its health stay as they are.
pub dispatcher_poll-IsPoll :
    (c : Cron) (o : Outside) (d : Dispatcher) (db : Database)
    → IsPoll c o d.health db d.enabled o.reads_answer (dispatcher_poll c o d db)
unfolding dispatcher_poll
dispatcher_poll-IsPoll c o d db =
    let out : Bool → Dispatcher × Polled =
      λ b. if b then after_poll d (poll c o db) else (d, starts_at db) in
    elim (Bool-cases d.enabled) [
      | inl on ↦
          subst (λ b. IsPoll c o d.health db b o.reads_answer (out b)) (sym on)
            (poll-IsPoll c o d db)
      | inr off ↦
          subst (λ b. IsPoll c o d.health db b o.reads_answer (out b)) (sym off)
            (refl, refl, refl, refl)
    ]
