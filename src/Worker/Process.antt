-- ===== src/Worker/Process.antt =====
-- From a claimed message to its settlement: `process` and `processWithinDeadline` of
-- src/worker/message-worker.ts, with the reply that an earlier claim has prepared.
use minori.Common.{
  ℕ, ◌+◌, String, List, [], ◌∷◌, ◌++◌, Option, none, some, true, false, leb, ◌==◌, if◌then◌else◌,
}
use minori.Domain.{Ident, Time}
use minori.Events.{StoredEvent, truthy}
use minori.Worker.{
  deadline_drain_ms, answered, refused, timed_out, Answers, Action, stores_user, marks_uncertain,
  retries, Ending, returned, threw, deadline, next_attempt_at, clean_up, and_then, ended,
  fail_before_reply, Prepared, prepare_reply, send_reply,
}

-- The reply that was prepared in an earlier claim, if it may still be sent again.
unfoldable pub recovered_reply : ℕ → Time → StoredEvent → Time → Option Prepared
recovered_reply reply_deduplication_ms now e attempted_at =
    if leb (attempted_at + reply_deduplication_ms) now
    then none
    else elim (truthy e.reply_idempotency_key) [
      | none ↦ none
      | some key ↦ elim (truthy e.prepared_reply_text) [
        | none ↦ none
        | some body ↦ elim e.prepared_reply_kind [
          | none ↦ none
          | some kind ↦ some (record { text = body; kind = kind; key = key })
        ]
      ]
    ]

unfoldable pub store_failed : StoredEvent → Answers → Option Prepared → ℕ → List Action × Ending
unfolding fail_before_reply next_attempt_at
store_failed e a none drain_ms =
    fail_before_reply e a a.settlement
      (if drain_ms == 0 then "conversation_store_failed" else "processing_deadline_exceeded")
      drain_ms
store_failed e a (some p) drain_ms = (
  retries "conversation_store_failed" (next_attempt_at a.ended_at e.attempts drain_ms) ∷ [],
  ended true a.settlement,
)

-- From the stored message on: `recovering` is the reply of an earlier claim.
unfoldable pub answer :
    (Ident → String) → StoredEvent → Answers → Option Prepared → List Action × Ending
unfolding prepare_reply send_reply
answer stable_reply_key e a none =
    prepare_reply stable_reply_key e a (send_reply e a) e.payload.content
answer stable_reply_key e a (some p) = send_reply e a p

unfoldable pub converse :
    (Ident → String) → StoredEvent → Answers → Option Prepared → List Action × Ending
unfolding answer store_failed
converse stable_reply_key e a recovering = and_then stores_user (elim a.conversation [
  | answered u ↦ answer stable_reply_key e a recovering
  | refused ↦ store_failed e a recovering 0
  | timed_out ↦ store_failed e a recovering deadline_drain_ms
])

unfoldable pub resume_or_settle :
    (Ident → String) → StoredEvent → Answers → Option Prepared → List Action × Ending
unfolding converse
resume_or_settle stable_reply_key e a none = and_then marks_uncertain (clean_up true a.settlement)
resume_or_settle stable_reply_key e a (some p) = converse stable_reply_key e a (some p)

-- The last argument is `replyAttemptedAt`.
unfoldable pub process_attempt :
    (Ident → String) → ℕ → StoredEvent → Answers → Option Time → List Action × Ending
unfolding converse recovered_reply resume_or_settle
process_attempt stable_reply_key reply_deduplication_ms e a none =
    converse stable_reply_key e a none
process_attempt stable_reply_key reply_deduplication_ms e a (some at) =
    resume_or_settle stable_reply_key e a (recovered_reply reply_deduplication_ms a.started_at e at)

unfoldable pub process_within_deadline :
    (Ident → String) → ℕ → StoredEvent → Answers → List Action × Ending
unfolding process_attempt
process_within_deadline stable_reply_key reply_deduplication_ms e a =
    process_attempt stable_reply_key reply_deduplication_ms e a e.reply_attempted_at

-- What follows the deadline's error: the event is given back, or settled as failed.
unfoldable pub drain_deadline : StoredEvent → Answers → List Action × Ending → List Action × Ending
unfolding fail_before_reply next_attempt_at
drain_deadline e a (cs, returned) = (cs, returned)
drain_deadline e a (cs, threw) = (cs, threw)
drain_deadline e a (cs, deadline true) = (
  cs
      ++ retries "processing_deadline_exceeded"
          (next_attempt_at a.ended_at e.attempts deadline_drain_ms)
        ∷ [],
  ended true a.drain,
)
drain_deadline e a (cs, deadline false) =
    let (last, end) =
      fail_before_reply e a a.drain "processing_deadline_exceeded" deadline_drain_ms in
    (cs ++ last, end)

unfoldable pub process : (Ident → String) → ℕ → StoredEvent → Answers → List Action × Ending
unfolding process_within_deadline drain_deadline
process stable_reply_key reply_deduplication_ms e a =
    drain_deadline e a (process_within_deadline stable_reply_key reply_deduplication_ms e a)
