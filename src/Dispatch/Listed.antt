-- ===== src/Dispatch/Listed.antt =====
-- Which tasks a poll goes through.
use mathlib.Core.List.{Memᴰ}
use minori.Common.{
  ℕ, suc, zero, ◌≤◌, ◌≡◌, ◌⊎◌, refl, sym, subst, List, [], ◌∷◌, some, true, &&_iff, arith, leb,
  leb→le, le→leb, Bool-cases, Option-cases, inl, inr, length, length-take-le, take, sort_by,
}
use minori.Common.Table.{select}
use minori.Common.Sorting.{mem-select, select-mem, mem-sort_by}
use minori.Common.Sorting.Kept.{mem-take, take-eq_self, sort_by-mem}
use minori.Domain.{Time, ScheduleState}
use minori.Database.{TaskRow, Database}
use minori.Runs.{is_active_state}
use minori.Schedules.{list_dispatchable, dispatch_earlier, is_dispatchable}

-- The task is active and, at the time, due or with a missed occurrence.
pub record IsWaiting (now : Time) (t : TaskRow) : Type 0 where
  pub active : t.state ≡ ScheduleState.active
  pub waits :
      ((at : Time) × (t.next_due_at ≡ some at) × (at ≤ now))
      ⊎ ((at : Time) × (t.latest_missed_at ≡ some at))

active_state : (s : ScheduleState) → is_active_state s ≡ true → s ≡ ScheduleState.active
active_state ScheduleState.active h = refl
active_state ScheduleState.paused h = absurd (cc)
active_state ScheduleState.in_flight h = absurd (cc)
active_state ScheduleState.completed h = absurd (cc)
active_state ScheduleState.deleted h = absurd (cc)

is_dispatchable-IsWaiting :
    (now : Time) (t : TaskRow) → is_dispatchable now t ≡ true → IsWaiting now t
is_dispatchable-IsWaiting now t h =
    let (active, waits) = (&&_iff (is_active_state t.state) _).0 h in
    record {
      active = active_state t.state active;
      waits = elim (Option-cases t.latest_missed_at) [
        | inr (at, e) ↦ inr (at, e)
        | inl none_missed ↦ elim (Option-cases t.next_due_at) [
          | inl no_time ↦ absurd (ground arith)
          | inr (at, e) ↦ inl (at, e, leb→le at now (ground arith))
        ]
      ];
    }

IsWaiting-is_dispatchable :
    (now : Time) (t : TaskRow) → IsWaiting now t → is_dispatchable now t ≡ true
IsWaiting-is_dispatchable now t h = rw h.active (elim h.waits [
  | inl (at, e, due) ↦ rw (e, le→leb at now due) refl
  | inr (at, e) ↦ rw e (ground arith)
])

-- A list of tasks that a poll goes through: the waiting ones of the database, all of them unless there
-- are more than fifty.
pub record IsListed (now : Time) (db : Database) (ts : List TaskRow) : Type 0 where
  pub few : length ts ≤ 50
  pub sound : (t : TaskRow) → Memᴰ t ts → Memᴰ t db.tasks × IsWaiting now t
  pub complete : (t : TaskRow) → Memᴰ t db.tasks → IsWaiting now t → Memᴰ t ts ⊎ (50 ≤ length ts)

take_full : {A : Type 0} (n : ℕ) (xs : List A) → n ≤ length xs → n ≤ length (take n xs)
take_full zero xs h = omega arith
take_full (suc n) [] h = h
take_full (suc n) (x ∷ xs) h = omega (arith, take_full n xs (omega (arith, h)))

pub list_dispatchable-IsListed :
    (now : Time) (db : Database) → IsListed now db (list_dispatchable now 50 db)
unfolding list_dispatchable
list_dispatchable-IsListed now db =
    let chosen = select (is_dispatchable now) db.tasks in
    let sorted = sort_by dispatch_earlier chosen in
    record {
      few = length-take-le 50 sorted;
      sound = λ t m.
          let (entry, h) =
            mem-select (is_dispatchable now) db.tasks t
              (mem-sort_by dispatch_earlier chosen t (mem-take 50 sorted t m)) in
          (entry, is_dispatchable-IsWaiting now t h);
      complete = λ t m h.
          let entry =
            sort_by-mem dispatch_earlier chosen t
              (select-mem (is_dispatchable now) db.tasks t m (IsWaiting-is_dispatchable now t h)) in
          elim (Bool-cases (leb (length sorted) 50)) [
            | inl all ↦ inl (subst (Memᴰ t) (sym (take-eq_self 50 sorted (leb→le _ 50 all))) entry)
            | inr many ↦ inr (take_full 50 sorted (ground arith))
          ];
    }
