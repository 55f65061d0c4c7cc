-- ===== src/Dispatch/Normalize.antt =====
-- `normalize` of src/schedule/calendar.ts: a schedule as it is typed becomes one with a date, or a
-- checked expression. What the platform and the package cron-parser make of texts is a parameter.
use Prim.Native.Char.{Char, code}
use minori.Common.{
  ℕ, zero, suc, ◌+◌, ◌-◌, ◌*◌, String, List, [], ◌∷◌, Option, none, some, Bool, true, false, ◌&&◌,
  ◌||◌, not, leb, ◌==◌, ◌>>=◌, if◌then◌else◌, length,
}
use minori.Common.Text.{codes, is_between, is_empty, is_space, trim, join}
use minori.Domain.{Time, CalendarSchedule, once, cron}
use minori.Dispatch.Calendar.{Cron, Checked, ok, calendar_fail}

-- `CalendarScheduleInput`
pub data CalendarScheduleInput : Type 0 where
  once_input cron_input : String → String → CalendarScheduleInput

pub record WallParts : Type 0 where
  pub year : ℕ
  pub month : ℕ
  pub day : ℕ
  pub hour : ℕ
  pub minute : ℕ
  pub second : ℕ

-- `new CronDate(value, timezone).toDate()`: it throws, or the date is not a number, or it is one.
pub data LocalDate : Type 0 where
  threw not_finite : LocalDate
  local_date : Time → LocalDate

-- `new Date(value)` of a text with an offset (`none` if that is no date), the date of a local text in a
-- zone, the wall clock of a zone at a date (`wallParts`), and an expression printed back after it is
-- parsed (`none` if that throws).
pub record Zones : Type 0 where
  pub offset_date : String → Option Time
  pub zoned_date : String → String → LocalDate
  pub wall_parts : Time → String → WallParts
  pub stringify : String → String → Option String

abbrev pub is_digit : ℕ → Bool
is_digit c = is_between b'0' b'9' c

-- `\d{n}`, read as a number after the digits that came before.
abbrev pub number : ℕ → ℕ → List ℕ → Option (ℕ × List ℕ)
number zero read s = some (read, s)
number (suc n) read [] = none
number (suc n) read (c ∷ s) =
    let rest = number n (read * 10 + (c - b'0')) s in if is_digit c then rest else none

-- One character of two, which may be the same.
abbrev pub literal : ℕ → ℕ → List ℕ → Option (List ℕ)
literal a b [] = none
literal a b (c ∷ s) = if c == a || c == b then some s else none

-- `(?:\.(\d{1,3}))?`
abbrev pub drop_digits : ℕ → List ℕ → List ℕ
drop_digits zero s = s
drop_digits (suc n) [] = []
drop_digits (suc n) (c ∷ s) = let rest = drop_digits n s in if is_digit c then rest else c ∷ s

abbrev pub fraction : List ℕ → Option (List ℕ)
fraction [] = some []
fraction (c ∷ s) =
    if c == b'.' then number 1 0 s >>= (λ found. some (drop_digits 2 found.1)) else some (c ∷ s)

-- `(?::(\d{2})(?:\.(\d{1,3}))?)?`, with 0 where the group is missing.
abbrev pub seconds : List ℕ → Option (ℕ × List ℕ)
seconds [] = some (0, [])
seconds (c ∷ s) =
    if c == b':'
    then number 2 0 s >>= (λ found. fraction found.1 >>= (λ rest. some (found.0, rest)))
    else some (0, c ∷ s)

-- The common start of both expressions: the wall clock that is written, and the rest of the text. The
-- one with an offset ignores the case of `T`.
unfoldable pub timestamp : Bool → List ℕ → Option (WallParts × List ℕ)
timestamp any_case s = do
  (year, s) ← number 4 0 s
  s ← literal b'-' b'-' s
  (month, s) ← number 2 0 s
  s ← literal b'-' b'-' s
  (day, s) ← number 2 0 s
  s ← literal b'T' (if any_case then b't' else b'T') s
  (hour, s) ← number 2 0 s
  s ← literal b':' b':' s
  (minute, s) ← number 2 0 s
  (second, s) ← seconds s
  some (
    record { year = year; month = month; day = day; hour = hour; minute = minute; second = second },
    s,
  )

abbrev pub if_at_end : Option (WallParts × List ℕ) → Option WallParts
if_at_end none = none
if_at_end (some (parts, [])) = some parts
if_at_end (some (parts, c ∷ s)) = none

-- `LOCAL_TIMESTAMP.exec`
unfoldable pub local_timestamp : List ℕ → Option WallParts
unfolding timestamp
local_timestamp s = if_at_end (timestamp false s)

-- `Z|[+-]\d{2}:\d{2}` up to the end, in any case.
abbrev pub hours_and_minutes : List ℕ → Option (List ℕ)
hours_and_minutes s = number 2 0 s >>= (λ hours.
    literal b':' b':' hours.1 >>= (λ rest. number 2 0 rest >>= (λ minutes. some minutes.1)))

abbrev pub is_end : Option (List ℕ) → Bool
is_end (some []) = true
is_end _ = false

abbrev pub is_offset : List ℕ → Bool
is_offset [] = false
is_offset (c ∷ s) =
    if c == b'Z' || c == b'z'
    then is_end (some s)
    else if c == b'+' || c == b'-'
    then is_end (hours_and_minutes s)
    else false

abbrev pub ends_with_offset : Option (WallParts × List ℕ) → Bool
ends_with_offset none = false
ends_with_offset (some (parts, s)) = is_offset s

-- `OFFSET_TIMESTAMP.test`
unfoldable pub is_offset_timestamp : List ℕ → Bool
unfolding timestamp
is_offset_timestamp s = ends_with_offset (timestamp true s)

abbrev pub is_same : WallParts → WallParts → Bool
is_same a b =
    a.year == b.year
    && (a.month == b.month
        && (a.day == b.day && (a.hour == b.hour && (a.minute == b.minute && a.second == b.second))))

abbrev pub checked_date : Zones → WallParts → String → LocalDate → Checked Time
checked_date z expected timezone threw = calendar_fail "calendar_once_invalid"
checked_date z expected timezone not_finite = calendar_fail "calendar_local_time_nonexistent"
checked_date z expected timezone (local_date at) =
    if is_same expected (z.wall_parts at timezone)
    then ok at
    else calendar_fail "calendar_local_time_nonexistent"

abbrev pub matched_date : Zones → String → String → Option WallParts → Checked Time
matched_date z value timezone none = calendar_fail "calendar_once_invalid"
matched_date z value timezone (some expected) =
    checked_date z expected timezone (z.zoned_date value timezone)

unfoldable pub parse_local_timestamp : Zones → String → String → Checked Time
unfolding local_timestamp
parse_local_timestamp z value timezone =
    matched_date z value timezone (local_timestamp (codes value))

abbrev pub finite_date : Option Time → Checked Time
finite_date none = calendar_fail "calendar_once_invalid"
finite_date (some at) = ok at

unfoldable pub parse_once : Zones → String → String → Checked Time
unfolding is_offset_timestamp parse_local_timestamp
parse_once z value timezone =
    if is_offset_timestamp (codes value)
    then finite_date (z.offset_date value)
    else parse_local_timestamp z value timezone

-- `split(/\s+/)` of a trimmed text; the first argument says that the last character was white space.
abbrev pub add_char : Char → List String → List String
add_char c [] = String.◌∷◌ c "" ∷ []
add_char c (w ∷ ws) = String.◌∷◌ c w ∷ ws

unfoldable pub split_fields : Bool → String → List String
unfolding is_space
split_fields after String.[] = "" ∷ []
split_fields after (String.◌∷◌ c s) =
    let gap = split_fields true s in
    let field = split_fields false s in
    if is_space (code c) then (if after then gap else "" ∷ gap) else add_char c field

-- `BASIC_CRON_FIELD`
abbrev pub is_field_char : ℕ → Bool
is_field_char c = is_digit c || (c == b'*' || (c == b',' || (c == b'/' || c == b'-')))

abbrev pub all_field_chars : String → Bool
all_field_chars String.[] = true
all_field_chars (String.◌∷◌ c s) = is_field_char (code c) && all_field_chars s

abbrev pub is_basic_field : String → Bool
is_basic_field s = not (is_empty s) && all_field_chars s

abbrev pub all_basic : List String → Bool
all_basic [] = true
all_basic (f ∷ fs) = is_basic_field f && all_basic fs

abbrev pub printed_cron : Option String → Checked String
printed_cron none = calendar_fail "calendar_cron_invalid"
printed_cron (some e) = ok e

unfoldable pub normalize_cron : Zones → String → String → Checked String
unfolding split_fields trim
normalize_cron z expression timezone =
    let fields = split_fields false (trim expression) in
    if not (length fields == 5) || not (all_basic fields)
    then calendar_fail "calendar_cron_invalid"
    else printed_cron (z.stringify (join " " fields) timezone)

abbrev pub once_at : String → Time → Checked Time → Checked CalendarSchedule
once_at timezone now (calendar_fail c) = calendar_fail c
once_at timezone now (ok at) =
    if leb at now then calendar_fail "calendar_once_not_future" else ok (once at timezone)

abbrev pub cron_of : String → Checked String → Checked CalendarSchedule
cron_of timezone (calendar_fail c) = calendar_fail c
cron_of timezone (ok e) = ok (cron e timezone)

unfoldable pub normalize : Cron → Zones → CalendarScheduleInput → Time → Checked CalendarSchedule
unfolding parse_once normalize_cron trim
normalize c z (once_input local_time timezone) now =
    if c.valid_timezone timezone
    then once_at timezone now (parse_once z (trim local_time) timezone)
    else calendar_fail "calendar_timezone_invalid"
normalize c z (cron_input expression timezone) now =
    if c.valid_timezone timezone
    then cron_of timezone (normalize_cron z expression timezone)
    else calendar_fail "calendar_timezone_invalid"
