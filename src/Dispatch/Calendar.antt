-- ===== src/Dispatch/Calendar.antt =====
-- `next` and `latestAtOrBefore` of src/schedule/calendar.ts.
use minori.Common.{
  ℕ, suc, zero, ◌+◌, ◌<◌, ◌≤◌, ◌≡◌, String, Option, none, some, Bool, true, ◌&&◌, ltb, leb,
  if◌then◌else◌, arith,
}
use minori.Domain.{Time, CalendarSchedule, once, cron}

-- The package cron-parser and the time zones of the platform: whether a zone exists, and for an
-- expression and a zone the date that the call of `next()` or `prev()` with a number returns after
-- `currentDate`, and `includesDate`.
pub record Cron : Type 0 where
  pub valid_timezone : String → Bool
  pub next_date : String → String → Time → ℕ → Time
  pub prev_date : String → String → Time → ℕ → Time
  pub includes_date : String → String → Time → Bool

-- An error's text, or a value.
pub data Checked (A : Type 0) : Type 0 where
  ok : A → Checked A
  calendar_fail : String → Checked A

-- At most `fuel` dates of the iterator, from the `k`-th on.
unfoldable pub first_included : (ℕ → Time) → (Time → Bool) → ℕ → ℕ → Option Time
first_included dates includes zero k = none
first_included dates includes (suc fuel) k =
    let later = first_included dates includes fuel (suc k) in
    if includes (dates k) then some (dates k) else later

abbrev pub available : Option Time → Checked (Option Time)
available none = calendar_fail "calendar_occurrence_unavailable"
available (some t) = ok (some t)

unfoldable pub next_cron : Cron → String → String → Time → Checked (Option Time)
unfolding first_included
next_cron c expression timezone after = available (
    first_included (c.next_date expression timezone after) (c.includes_date expression timezone) 8
      0)

-- Backwards: `none` when the iterator leaves the window or the fuel is spent.
unfoldable pub last_included : (ℕ → Time) → (Time → Bool) → Time → Time → ℕ → ℕ → Option Time
last_included dates includes after through zero k = none
last_included dates includes after through (suc fuel) k =
    let earlier = last_included dates includes after through fuel (suc k) in
    if leb (dates k) after
    then none
    else if leb (dates k) through && includes (dates k)
    then some (dates k)
    else earlier

unfoldable pub latest_cron_at_or_before : Cron → String → String → Time → Time → Option Time
unfolding last_included
latest_cron_at_or_before c expression timezone after through =
    last_included (c.prev_date expression timezone (through + 1_000))
      (c.includes_date expression timezone) after through 8 0

unfoldable pub next : Cron → CalendarSchedule → Time → Checked (Option Time)
unfolding next_cron
next c (once at timezone) after =
    if c.valid_timezone timezone
    then ok (if ltb after at then some at else none)
    else calendar_fail "calendar_timezone_invalid"
next c (cron expression timezone) after =
    if c.valid_timezone timezone
    then next_cron c expression timezone after
    else calendar_fail "calendar_timezone_invalid"

unfoldable pub latest_at_or_before : Cron → CalendarSchedule → Time → Time → Checked (Option Time)
unfolding latest_cron_at_or_before
latest_at_or_before c (once at timezone) after through =
    ok (if ltb after through && (ltb after at && leb at through) then some at else none)
latest_at_or_before c (cron expression timezone) after through = ok (
    if leb through after
    then none
    else latest_cron_at_or_before c expression timezone after through)

last_included-window :
    (dates : ℕ → Time) (includes : Time → Bool) (after through : Time) (fuel k : ℕ) (t : Time)
    → last_included dates includes after through fuel k ≡ some t
    → (after < t) × (t ≤ through) × (includes t ≡ true)
unfolding last_included
last_included-window dates includes after through zero k t h = absurd (cc)
last_included-window dates includes after through (suc fuel) k t h =
    ground (arith, last_included-window dates includes after through fuel (suc k) t)

-- The latest occurrence that the calendar finds lies in the window: after its start, and not after
-- its end.
pub latest_in_window :
    (c : Cron) (s : CalendarSchedule) (after through t : Time)
    → latest_at_or_before c s after through ≡ ok (some t)
    → (after < t) × (t ≤ through)
unfolding latest_at_or_before latest_cron_at_or_before
latest_in_window c (once at timezone) after through t h = ground arith
latest_in_window c (cron expression timezone) after through t h = ground (
  arith,
  last_included-window (c.prev_date expression timezone (through + 1_000))
      (c.includes_date expression timezone) after through 8 0 t,
)

-- The iterator's documented promise: `next()` returns dates after `currentDate`.
abbrev pub StepsForward : Cron → Type 0
StepsForward c = (e z : String) (after : Time) (k : ℕ) → after < c.next_date e z after k

first_included-later :
    (dates : ℕ → Time) (includes : Time → Bool) (after : Time) (fuel k : ℕ) (t : Time)
    → ((k : ℕ) → after < dates k)
    → first_included dates includes fuel k ≡ some t
    → after < t
unfolding first_included
first_included-later dates includes after zero k t p h = absurd (cc)
first_included-later dates includes after (suc fuel) k t p h =
    ground (arith, p k, first_included-later dates includes after fuel (suc k) t p)

-- If the iterator returns dates after its start, the next occurrence is later than the date given.
pub next_is_later :
    (c : Cron) (s : CalendarSchedule) (after t : Time)
    → StepsForward c
    → next c s after ≡ ok (some t)
    → after < t
unfolding next next_cron
next_is_later c (once at timezone) after t p h = ground arith
next_is_later c (cron expression timezone) after t p h = ground (
  arith,
  first_included-later (c.next_date expression timezone after) (c.includes_date expression timezone)
      after 8 0 t (p expression timezone after),
)
