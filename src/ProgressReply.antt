-- ===== src/ProgressReply.antt =====
-- The reply that says that the work goes on: `startProgressReply` of src/worker/progress-reply.ts.
-- Between two awaits the code runs without interruption; each such stretch is one step. The store and
-- the chat platform answer from outside.
pub mod Settled
pub mod Tests
use minori.Common.{
  ℕ, suc, ◌+◌, ◌-◌, String, List, [], ◌∷◌, Option, none, some, Bool, true, false, ◌&&◌, ◌||◌, not,
  leb, if◌then◌else◌, is_some,
}
use minori.Domain.{Ident, Time, Content, text, unsupported}
use minori.Events.{StoredEvent}

abbrev pub progress_reply_delay_ms : ℕ
progress_reply_delay_ms = 20_000

-- The attempt: not begun, at the store's marker, at the platform, or over. A delivery that has begun
-- is what `settle` waits for.
pub data Attempt : Type 0 where
  not_begun marking delivering over : Attempt

-- `settle`: not called, called but not past its first await, or `settled` set.
pub data Settling : Type 0 where
  not_called called settled : Settling

pub record Progress : Type 0 where
  pub timer : Bool
  pub attempt : Attempt
  pub settling : Settling
  pub sends : ℕ
  pub confirms : ℕ

pub data Event : Type 0 where
  timer_fires : Event
  marker_answers : Option Bool → Event
  delivery_answers : Option Ident → Event
  settles turn_passes : Event

abbrev pub is_unsupported : Content → Bool
is_unsupported (text body links) = false
is_unsupported (unsupported source_type) = true

-- `NO_PROGRESS`
unfoldable pub has_no_progress : StoredEvent → Bool
has_no_progress e =
    is_unsupported e.payload.content
    || (is_some e.reply_attempted_at || is_some e.progress_attempted_at)

-- The delay from the message's arrival, never below zero.
unfoldable pub delay : StoredEvent → Time → ℕ
delay e now = e.received_at + progress_reply_delay_ms - now

abbrev pub is_settled : Settling → Bool
is_settled settled = true
is_settled _ = false

-- `begin`: the first await of the attempt is at the store's marker.
abbrev pub begin_at : Progress → Attempt → Progress
begin_at p not_begun = if is_settled p.settling then p else record p { attempt = marking }
begin_at p a = p

abbrev pub begin : Progress → Progress
begin p = begin_at p p.attempt

abbrev pub waits : Progress
waits = record { timer = true; attempt = not_begun; settling = not_called; sends = 0; confirms = 0 }

-- `none` is the handle that does nothing.
unfoldable pub start_progress_reply : StoredEvent → Time → Option Progress
unfolding has_no_progress delay
start_progress_reply e now =
    if has_no_progress e
    then none
    else if leb (delay e now) 0
    then some (begin (record waits { timer = false }))
    else some waits

-- The marker has answered: `none` is an error, `false` that another attempt has the mark.
abbrev pub marked : Progress → Option Bool → Progress
marked p none = record p { attempt = over }
marked p (some false) = record p { attempt = over }
marked p (some true) =
    if is_settled p.settling
    then record p { attempt = over }
    else record p { attempt = delivering; sends = suc p.sends }

-- The platform has answered; the message that was sent is confirmed to the store.
abbrev pub delivered : Progress → Option Ident → Progress
delivered p none = record p { attempt = over }
delivered p (some message_id) = record p { attempt = over; confirms = suc p.confirms }

abbrev pub call_settle : Settling → Settling
call_settle not_called = called
call_settle s = s

-- The microtask that `settle` awaits has run.
abbrev pub pass_turn : Settling → Settling
pass_turn called = settled
pass_turn s = s

-- An event that does not fit the state does not occur, and changes nothing.
unfoldable pub step_at : Event → Progress → Attempt → Progress
step_at timer_fires p a = if p.timer then begin_at (record p { timer = false }) a else p
step_at (marker_answers r) p marking = marked p r
step_at (delivery_answers r) p delivering = delivered p r
step_at settles p a = record p { timer = false; settling = call_settle p.settling }
step_at turn_passes p a = record p { settling = pass_turn p.settling }
step_at e p a = p

unfoldable pub step : Event → Progress → Progress
unfolding step_at
step e p = step_at e p p.attempt

unfoldable pub steps : List Event → Progress → Progress
unfolding step
steps [] p = p
steps (e ∷ es) p = steps es (step e p)

abbrev pub is_delivering : Attempt → Bool
is_delivering delivering = true
is_delivering _ = false

-- `settle` has returned: `settled` is set and no delivery is awaited.
abbrev pub has_returned : Progress → Bool
has_returned p = is_settled p.settling && not (is_delivering p.attempt)
