-- ===== src/Dispatch/Written.antt =====
-- What a normalized schedule has to do with the text that was typed.
use minori.Common.{
  ◌<◌, ◌≡◌, refl, sym, ap, ◌∙◌, inl, inr, String, Option, none, some, Bool, true, false, ltb, leb,
  arith, Bool-cases,
}
use minori.Common.Text.{codes, trim}
use minori.Domain.{Time, CalendarSchedule, once}
use minori.Dispatch.Calendar.{Cron, Checked, ok, calendar_fail, next}
use minori.Dispatch.Normalize.{
  once_input, WallParts, LocalDate, threw, not_finite, local_date, Zones, local_timestamp,
  is_offset_timestamp, is_same, checked_date, matched_date, parse_local_timestamp, finite_date,
  parse_once, once_at, normalize,
}

-- A text with an offset is the date that the platform reads in it; a text without one is what the
-- clock of the zone shows at the date.
abbrev pub IsWritten : Zones → String → String → Time → Bool → Type 0
IsWritten z text timezone at true = z.offset_date text ≡ some at
IsWritten z text timezone at false = local_timestamp (codes text) ≡ some (z.wall_parts at timezone)

same-eq : (a b : WallParts) → is_same a b ≡ true → a ≡ b
same-eq a b h = ground arith

checked-IsWritten :
    (z : Zones) (expected : WallParts) (text timezone : String) (at : Time) (d : LocalDate)
    → local_timestamp (codes text) ≡ some expected
    → checked_date z expected timezone d ≡ ok at
    → IsWritten z text timezone at false
checked-IsWritten z expected text timezone at threw w h = absurd (cc)
checked-IsWritten z expected text timezone at not_finite w h = absurd (cc)
checked-IsWritten z expected text timezone at (local_date t) w h =
    elim (Bool-cases (is_same expected (z.wall_parts t timezone))) [
      | inr e ↦ absurd (ground (arith, rw e at h))
      | inl e ↦
          let at_t : t ≡ at = ground (arith, rw e at h) in
          let shown = same-eq expected (z.wall_parts t timezone) e in
          w ∙ ap some (shown ∙ ap (λ (u : Time). z.wall_parts u timezone) at_t)
    ]

matched-IsWritten :
    (z : Zones) (text timezone : String) (at : Time) (o : Option WallParts)
    → local_timestamp (codes text) ≡ o
    → matched_date z text timezone o ≡ ok at
    → IsWritten z text timezone at false
matched-IsWritten z text timezone at none w h = absurd (cc)
matched-IsWritten z text timezone at (some expected) w h =
    checked-IsWritten z expected text timezone at (z.zoned_date text timezone) w h

finite-eq : (o : Option Time) (at : Time) → finite_date o ≡ ok at → o ≡ some at
finite-eq none at h = absurd (cc)
finite-eq (some t) at h = ground arith

once-IsWritten :
    (z : Zones) (text timezone : String) (at : Time)
    → parse_once z text timezone ≡ ok at
    → IsWritten z text timezone at (is_offset_timestamp (codes text))
unfolding parse_once parse_local_timestamp
once-IsWritten z text timezone at h = elim (Bool-cases (is_offset_timestamp (codes text))) [
  | inl e ↦ rw e (finite-eq (z.offset_date text) at (rw e at h))
  | inr e ↦
      rw e (matched-IsWritten z text timezone at (local_timestamp (codes text)) refl (rw e at h))
]

-- What a normalized one-time schedule is: its date is later than now, is what was written, and is the
-- next occurrence.
pub record IsOnce (c : Cron) (z : Zones) (text timezone : String) (now : Time)
    (s : CalendarSchedule) : Type 0 where
  pub at : Time
  pub schedule : s ≡ once at timezone
  pub later : now < at
  pub written : IsWritten z (trim text) timezone at (is_offset_timestamp (codes (trim text)))
  pub occurs : next c s now ≡ ok (some at)

dated-IsOnce :
    (c : Cron) (z : Zones) (text timezone : String) (now : Time) (s : CalendarSchedule)
    (d : Checked Time)
    → c.valid_timezone timezone ≡ true
    → parse_once z (trim text) timezone ≡ d
    → once_at timezone now d ≡ ok s
    → IsOnce c z text timezone now s
unfolding next
dated-IsOnce c z text timezone now s (calendar_fail e) v p h = absurd (cc)
dated-IsOnce c z text timezone now s (ok t) v p h = elim (Bool-cases (leb t now)) [
  | inl past ↦ absurd (ground (arith, rw past at h))
  | inr future ↦
      let made : once t timezone ≡ s = ground (arith, rw future at h) in
      let after : ltb now t ≡ true = ground arith in
      record {
        at = t;
        schedule = sym made;
        later = ground arith;
        written = once-IsWritten z (trim text) timezone t p;
        occurs = rw (sym made) (rw (v, after) refl);
      }
]

-- A one-time schedule is accepted only in a zone that exists. Its date is later than now and is the one
-- that was typed: read with its offset, or, without one, such that the clock of the zone shows exactly
-- the typed date and time at it, which refuses the times that a change of the clocks leaves out. The
-- date is then the next occurrence.
pub normalize-IsOnce :
    (c : Cron) (z : Zones) (text timezone : String) (now : Time) (s : CalendarSchedule)
    → normalize c z (once_input text timezone) now ≡ ok s
    → IsOnce c z text timezone now s
unfolding normalize
normalize-IsOnce c z text timezone now s h = elim (Bool-cases (c.valid_timezone timezone)) [
  | inr e ↦ absurd (ground (arith, rw e at h))
  | inl e ↦
      dated-IsOnce c z text timezone now s (parse_once z (trim text) timezone) e refl (rw e at h)
]
