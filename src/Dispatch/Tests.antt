-- ===== src/Dispatch/Tests.antt =====
-- A task that runs every second, with an iterator written out.
use minori.Common.{
  suc, ◌+◌, ◌-◌, ◌*◌, ◌≤◌, ◌≡◌, refl, [], ◌∷◌, none, some, true, false, arith, opt_leb,
}
use minori.Common.Text.{trim, trim_start, trim_end, is_space}
use minori.Dispatch.Normalize.{
  Zones, local_date, once_input, cron_input, timestamp, local_timestamp, is_offset_timestamp,
  parse_local_timestamp, parse_once, split_fields, normalize_cron, normalize,
}
use minori.Dispatch.Written.{IsOnce, normalize-IsOnce}
use minori.Domain.{once, CalendarSchedule, cron, group, ScheduleTarget}
use minori.Database.{TaskRow, Database}
use minori.Admission.{Move}
use minori.Schedules.{new_task}
use minori.Dispatch.{
  due_occurrence, due_at, reached_due, Outside, Dispatcher, healthy, dispatcher_poll,
}
use minori.Dispatch.Calendar.{
  ok, calendar_fail, Cron, StepsForward, next, next_cron, first_included, latest_at_or_before,
  latest_cron_at_or_before, last_included,
}
use minori.Dispatch.Occurrences.{due_is_timely}
use minori.Dispatch.Polls.{IsPoll, dispatcher_poll-IsPoll}

-- `next` steps by a second from its start, `prev` too.
abbrev slow_steps : Cron
slow_steps = record {
  valid_timezone = λ z. true;
  next_date = λ e z after k. after + 1_000 * suc k;
  prev_date = λ e z before k. before - 1_000 * suc k;
  includes_date = λ e z t. true;
}

slow_steps-StepsForward : StepsForward slow_steps
slow_steps-StepsForward e z after k = omega arith

abbrev ticks : CalendarSchedule
ticks = cron "* * * * *" "UTC"

-- A zone whose clock is set forward at half past two: the date that is read in a text at that time
-- shows half past three.
abbrev summer : Zones
summer = record {
  offset_date = λ s. some 4_000;
  zoned_date = λ s z. local_date 9_000;
  wall_parts =
      λ t z. record { year = 2026; month = 3; day = 29; hour = 3; minute = 30; second = 0 };
  stringify = λ e z. some e;
}

left_out_time :
    normalize slow_steps summer (once_input "2026-03-29T02:30" "Europe/Berlin") 5_000
    ≡ calendar_fail "calendar_local_time_nonexistent"
unfolding normalize parse_once parse_local_timestamp is_offset_timestamp local_timestamp timestamp
    trim trim_start trim_end is_space
left_out_time = refl

offset_in_the_past :
    normalize slow_steps summer (once_input "2026-03-29t02:30:00.125+01:00" "UTC") 5_000
    ≡ calendar_fail "calendar_once_not_future"
unfolding normalize parse_once is_offset_timestamp timestamp trim trim_start trim_end is_space
offset_in_the_past = refl

five_fields :
    normalize slow_steps summer (cron_input "  */5  0,12 * * 1-5 " "UTC") 5_000
    ≡ ok (cron "*/5 0,12 * * 1-5" "UTC")
unfolding normalize normalize_cron split_fields trim trim_start trim_end is_space
five_fields = refl

normalize-IsOnce_example :
    IsOnce slow_steps summer " 2026-03-29T03:30 " "Europe/Berlin" 5_000 (once 9_000 "Europe/Berlin")
unfolding normalize parse_once parse_local_timestamp is_offset_timestamp local_timestamp timestamp
    trim trim_start trim_end is_space
normalize-IsOnce_example =
    normalize-IsOnce slow_steps summer " 2026-03-29T03:30 " "Europe/Berlin" 5_000
      (once 9_000 "Europe/Berlin") refl

abbrev chat : ScheduleTarget
chat = record { chat_id = 7; display_name = "team"; chat_type = group }

abbrev task : TaskRow
task =
    new_task 30
      (record {
        name = "report";
        creator_open_id = 9;
        actor_open_id = 9;
        origin = chat;
        instruction = "write the report";
        schedule = ticks;
        result_target = chat;
        scheduled_context = none;
        next_due_at = 1_000;
      })
      10

-- Occurrences were missed.
due_is_timely_example : (6_000 ≤ 6_000) × (opt_leb (some 7_000) 6_000 ≡ false)
unfolding new_task due_occurrence due_at reached_due next next_cron first_included
    latest_at_or_before latest_cron_at_or_before last_included
due_is_timely_example =
    due_is_timely slow_steps task 6_000
      (record { scheduled_for = 6_000; next_due_at = some 7_000; folded = true })
      slow_steps-StepsForward (λ m h. absurd (cc)) refl

abbrev database : Database
database = record { events = []; tasks = task ∷ []; revisions = []; runs = [] }

-- Another process creates the run before the dispatcher's transaction.
abbrev outside : Outside
outside = record {
  reads_answer = true;
  database_now = 6_000;
  others = λ k.
      Move.creates_due 90
        (record {
          schedule_id = 30;
          expected_due_at = 1_000;
          scheduled_for = 1_000;
          next_due_at = some 7_000;
        })
        6_000
      ∷ [];
  clock = λ k. 6_001;
  answers = λ k. true;
  ids = λ k. 40 + k;
}

abbrev dispatcher : Dispatcher
dispatcher = record { enabled = true; health = healthy; ticking = true }

dispatcher_poll-IsPoll_example :
    IsPoll slow_steps outside healthy database true true
      (dispatcher_poll slow_steps outside dispatcher database)
dispatcher_poll-IsPoll_example = dispatcher_poll-IsPoll slow_steps outside dispatcher database
