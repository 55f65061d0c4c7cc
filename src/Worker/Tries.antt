-- ===== src/Worker/Tries.antt =====
-- What a message is given back for from its third attempt on.
use minori.Common.{ℕ, ◌≤◌, ◌≡◌, ◌∙◌, List, none, Bool, true, false, ◌||◌, arith, String}
use minori.Common.Table.{exists}
use minori.Domain.{Ident, Content, text, unsupported}
use minori.Database.{PreparedReplyKind, rich, control}
use minori.Events.{StoredEvent}
use minori.Worker.{
  Answers, Reply, answered, refused, timed_out, Action, Ending, send_reply, prepare_reply,
  agent_answered, attempts_loaded, retry_action, persist_prepared_reply, fail_before_reply,
  unsupported_reply, temporary_error_reply, deadline_drain_ms,
}
use minori.Worker.Process.{
  process, drain_deadline, process_within_deadline, converse, answer, store_failed, process_attempt,
}
use minori.Worker.Endings.{is_retry, is_mark, exists-append}

abbrev is_late : Ending → Bool
is_late (Ending.deadline started) = started
is_late _ = false

-- A retry, or the deadline in a state of reply, only comes after the mark of a reply.
abbrev MarksFirst : List Action × Ending → Type 0
MarksFirst out = (exists is_retry out.0 || is_late out.1) ≡ true → exists is_mark out.0 ≡ true

persist-MarksFirst :
    (key : Ident → String) (e : StoredEvent) (a : Answers) (body : String)
    (kind : PreparedReplyKind)
    → MarksFirst (persist_prepared_reply key e a body kind (send_reply e a))
unfolding persist_prepared_reply
persist-MarksFirst key e a body kind = λ h. ground arith

module _ (e : StoredEvent) (tried : 3 ≤ e.attempts) where
  agent-MarksFirst :
      (key : Ident → String) (a : Answers) (r : Reply String)
      → MarksFirst (agent_answered key e a (send_reply e a) r)
  unfolding agent_answered retry_action
  agent-MarksFirst key a (answered body) = persist-MarksFirst key e a body rich
  agent-MarksFirst key a refused =
      ground (arith, persist-MarksFirst key e a temporary_error_reply control)
  agent-MarksFirst key a timed_out = λ h. absurd (cc)

  attempts-MarksFirst :
      (key : Ident → String) (a : Answers) (r : Reply String)
      → MarksFirst (attempts_loaded key e a (send_reply e a) r)
  unfolding attempts_loaded
  attempts-MarksFirst key a (answered body) = persist-MarksFirst key e a body rich
  attempts-MarksFirst key a refused = λ h. absurd (cc)
  attempts-MarksFirst key a timed_out = λ h. absurd (cc)

  prepare_reply-MarksFirst :
      (key : Ident → String) (a : Answers) (c : Content)
      → MarksFirst (prepare_reply key e a (send_reply e a) c)
  unfolding prepare_reply
  prepare_reply-MarksFirst key a (unsupported s) =
      persist-MarksFirst key e a unsupported_reply control
  prepare_reply-MarksFirst key a (text body links) =
      ground (arith, attempts-MarksFirst key a a.attempts_text, agent-MarksFirst key a a.agent)

  store_failed-MarksFirst :
      (a : Answers) (drain_ms : ℕ) → MarksFirst (store_failed e a none drain_ms)
  unfolding store_failed fail_before_reply
  store_failed-MarksFirst a drain_ms = ground arith

  converse-MarksFirst : (key : Ident → String) (a : Answers) → MarksFirst (converse key e a none)
  unfolding converse answer
  converse-MarksFirst key a =
      ground (arith, store_failed-MarksFirst a, prepare_reply-MarksFirst key a e.payload.content)

  last_try :
      (a : Answers) (code : String) (d : ℕ)
      → exists is_retry (fail_before_reply e a a.drain code d).0 ≡ false
  unfolding fail_before_reply
  last_try a code d = ground arith

  drain-MarksFirst :
      (a : Answers) (cs : List Action) (end : Ending)
      → MarksFirst (cs, end)
      → exists is_retry (drain_deadline e a (cs, end)).0 ≡ true
      → exists is_mark (drain_deadline e a (cs, end)).0 ≡ true
  unfolding drain_deadline
  drain-MarksFirst a cs Ending.returned h k = ground arith
  drain-MarksFirst a cs Ending.threw h k = ground arith
  drain-MarksFirst a cs (Ending.deadline true) h k = exists-append is_mark cs _ ∙ ground arith
  drain-MarksFirst a cs (Ending.deadline false) h k =
      let last = fail_before_reply e a a.drain "processing_deadline_exceeded" deadline_drain_ms in
      ground (
        arith,
        exists-append is_retry cs last.0,
        exists-append is_mark cs last.0,
        last_try a "processing_deadline_exceeded" deadline_drain_ms,
      )

-- If an event is in its third attempt or a later one, and no reply to it was begun before, then a
-- processing that gives it back for another attempt marks a reply to it as stored.
pub late_retry_is_marked :
    (key : Ident → String) (window : ℕ) (e : StoredEvent) (a : Answers)
    → 3 ≤ e.attempts
    → e.reply_attempted_at ≡ none
    → exists is_retry (process key window e a).0 ≡ true
    → exists is_mark (process key window e a).0 ≡ true
unfolding process process_within_deadline process_attempt
late_retry_is_marked key window e a tried fresh = rw fresh (
    let out = converse key e a none in
    drain-MarksFirst e tried a out.0 out.1 (converse-MarksFirst e tried key a))
