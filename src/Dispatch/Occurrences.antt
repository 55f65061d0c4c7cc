-- ===== src/Dispatch/Occurrences.antt =====
-- When an occurrence is due: `dueOccurrence` of src/schedule/dispatcher.ts.
use minori.Common.{
  ◌-◌, ◌<◌, ◌≤◌, ◌≡◌, refl, Option, none, some, false, arith, opt_leb, ltb, Bool-cases, inl, inr,
}
use minori.Domain.{Time, CalendarSchedule, once, cron}
use minori.Database.{TaskRow}
use minori.Dispatch.{Due, recurring_due, reached_due, due_at, due_occurrence}
use minori.Dispatch.Calendar.{
  Cron, Checked, ok, calendar_fail, next, latest_at_or_before, StepsForward, latest_in_window,
  next_is_later,
}

-- An occurrence that has come, with a following one that has not.
abbrev pub IsTimely : Time → Due → Type 0
IsTimely now d = (d.scheduled_for ≤ now) × (opt_leb d.next_due_at now ≡ false)

recurring-IsTimely :
    (next_due now : Time) (latest following : Checked (Option Time)) (d : Due)
    → next_due ≤ now
    → ((t : Time) → latest ≡ ok (some t) → t ≤ now)
    → ((t : Time) → following ≡ ok (some t) → now < t)
    → recurring_due next_due latest following ≡ ok (some d)
    → IsTimely now d
recurring-IsTimely next_due now (calendar_fail c) following d due l f h = absurd (cc)
recurring-IsTimely next_due now (ok latest) (calendar_fail c) d due l f h = absurd (cc)
recurring-IsTimely next_due now (ok none) (ok none) d due l f h = ground arith
recurring-IsTimely next_due now (ok none) (ok (some u)) d due l f h = ground (arith, f u refl)
recurring-IsTimely next_due now (ok (some t)) (ok none) d due l f h = ground (arith, l t refl)
recurring-IsTimely next_due now (ok (some t)) (ok (some u)) d due l f h =
    ground (arith, l t refl, f u refl)

reached-IsTimely :
    (c : Cron) (s : CalendarSchedule) (next_due now : Time) (d : Due)
    → StepsForward c
    → next_due ≤ now
    → reached_due c s next_due now ≡ ok (some d)
    → IsTimely now d
unfolding reached_due
reached-IsTimely c (once at timezone) next_due now d p due h = ground arith
reached-IsTimely c (cron e z) next_due now d p due h =
    recurring-IsTimely next_due now (latest_at_or_before c (cron e z) (next_due - 1) now)
      (next c (cron e z) now) d due
      (λ t q. (latest_in_window c (cron e z) (next_due - 1) now t q).1)
      (λ t q. next_is_later c (cron e z) now t p q) h

due_at-IsTimely :
    (c : Cron) (next_due missed : Option Time) (s : CalendarSchedule) (now : Time) (d : Due)
    → StepsForward c
    → ((m : Time) → missed ≡ some m → m ≤ now)
    → due_at c next_due missed s now ≡ ok (some d)
    → IsTimely now d
unfolding due_at
due_at-IsTimely c none missed s now d p m h = absurd (cc)
due_at-IsTimely c (some next_due) none s now d p m h = elim (Bool-cases (ltb now next_due)) [
  | inl early ↦ absurd (ground arith)
  | inr come ↦ reached-IsTimely c s next_due now d p (ground arith) (rw come at h)
]
due_at-IsTimely c (some next_due) (some missed) s now d p m h =
    elim (Bool-cases (ltb now next_due)) [
      | inl early ↦ ground (arith, m missed refl)
      | inr come ↦ reached-IsTimely c s next_due now d p (ground arith) (rw come at h)
    ]

-- If the iterator returns dates after its start and no missed occurrence of the task lies in the
-- future, then an occurrence that is due is not in the future, and the due time that follows it is.
pub due_is_timely :
    (c : Cron) (t : TaskRow) (now : Time) (d : Due)
    → StepsForward c
    → ((m : Time) → t.latest_missed_at ≡ some m → m ≤ now)
    → due_occurrence c t now ≡ ok (some d)
    → (d.scheduled_for ≤ now) × (opt_leb d.next_due_at now ≡ false)
unfolding due_occurrence
due_is_timely c t now d p m h =
    due_at-IsTimely c t.next_due_at t.latest_missed_at t.schedule now d p m h
