-- ===== src/Worker/Calls.antt =====
-- The calls of the event store that the actions of a worker are, among those of all others.
use minori.Common.{ℕ, suc, ◌≡◌, refl, List, [], ◌∷◌, ◌++◌, some}
use minori.Domain.{Time}
use minori.Database.{EventRow}
use minori.Events.{EventStoreOptions, StoredEvent}
use minori.Events.Calls.{Call, apply, run}
use minori.Worker.{Action, marks_uncertain, marks_reply, completes, retries}

-- Around each action of the worker: the calls that others make before it, and the clocks of the worker
-- and of the database.
pub record Around : Type 0 where
  pub options : EventStoreOptions
  pub others : ℕ → List Call
  pub clock : ℕ → Time
  pub database_clock : ℕ → Time

-- The call of the event store that an action is, if it is one: each has the id of the event and the
-- attempt of the claim.
abbrev pub calls_of : Around → StoredEvent → ℕ → Action → List Call
calls_of w e k (marks_reply key body kind) =
    Call.starts_reply e.event_id e.attempts key (w.clock k) (some (body, kind)) (w.database_clock k)
    ∷ []
calls_of w e k (completes message_id code) =
    Call.completes e.event_id e.attempts
      (record { reply_message_id = message_id; error_code = code }) (w.database_clock k)
    ∷ []
calls_of w e k marks_uncertain =
    Call.marks_uncertain e.event_id e.attempts (w.database_clock k) ∷ []
calls_of w e k (retries code next) =
    Call.retries w.options e.event_id e.attempts code next (w.database_clock k) ∷ []
calls_of w e k _ = []

-- The calls of the worker for its actions, each after the calls of others before it; and these alone.
abbrev pub all_calls : Around → StoredEvent → ℕ → List Action → List Call
all_calls w e k [] = []
all_calls w e k (a ∷ later) = w.others k ++ (calls_of w e k a ++ all_calls w e (suc k) later)

pub run-append : (cs ds : List Call) (es : List EventRow) → run (cs ++ ds) es ≡ run ds (run cs es)
unfolding run
run-append [] ds es = refl
run-append (c ∷ cs) ds es = run-append cs ds (apply c es)
