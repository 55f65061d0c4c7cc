-- ===== src/Worker/Again.antt =====
-- What a message that was interrupted or failed before is not done again.
use minori.Common.{
  ℕ, ◌≡◌, refl, ◌∙◌, List, Option, none, some, true, false, ◌||◌, arith, String, is_some,
}
use minori.Common.Table.{exists}
use minori.Domain.{Ident, Time, Content, text, unsupported}
use minori.Database.{PreparedReplyKind, rich, control}
use minori.Events.{StoredEvent}
use minori.Worker.{
  Answers, Reply, answered, refused, timed_out, Action, Ending, Prepared, send_reply, finish_reply,
  prepare_reply, attempts_loaded, retry_action, persist_prepared_reply, fail_before_reply,
  unsupported_reply,
}
use minori.Worker.Process.{
  process, drain_deadline, process_within_deadline, resume_or_settle, converse, answer,
  store_failed, recovered_reply, process_attempt,
}
use minori.Worker.Endings.{is_ask, exists-append}

abbrev NeverAsks : List Action × Ending → Type 0
NeverAsks out = exists is_ask out.0 ≡ false

send_reply-NeverAsks : (e : StoredEvent) (a : Answers) (p : Prepared) → NeverAsks (send_reply e a p)
unfolding send_reply finish_reply retry_action
send_reply-NeverAsks e a p = ground arith

persist-NeverAsks :
    (key : Ident → String) (e : StoredEvent) (a : Answers) (body : String)
    (kind : PreparedReplyKind)
    → NeverAsks (persist_prepared_reply key e a body kind (send_reply e a))
unfolding persist_prepared_reply
persist-NeverAsks key e a body kind =
    ground
      (arith, send_reply-NeverAsks e a (record { text = body; kind = kind; key = key e.event_id }))

attempts-NeverAsks :
    (key : Ident → String) (e : StoredEvent) (a : Answers) (r : Reply String)
    → NeverAsks (attempts_loaded key e a (send_reply e a) r)
unfolding attempts_loaded
attempts-NeverAsks key e a (answered body) = persist-NeverAsks key e a body rich
attempts-NeverAsks key e a refused = refl
attempts-NeverAsks key e a timed_out = refl

prepare_reply-NeverAsks :
    (key : Ident → String) (e : StoredEvent) (a : Answers) (c : Content)
    → is_some e.write_started_at ≡ true
    → NeverAsks (prepare_reply key e a (send_reply e a) c)
unfolding prepare_reply
prepare_reply-NeverAsks key e a (unsupported s) w =
    persist-NeverAsks key e a unsupported_reply control
prepare_reply-NeverAsks key e a (text body links) w =
    ground (arith, attempts-NeverAsks key e a a.attempts_text)

store_failed-NeverAsks :
    (e : StoredEvent) (a : Answers) (o : Option Prepared) (drain_ms : ℕ)
    → NeverAsks (store_failed e a o drain_ms)
unfolding store_failed fail_before_reply
store_failed-NeverAsks e a o drain_ms = ground arith

converse-NeverAsks :
    (key : Ident → String) (e : StoredEvent) (a : Answers) (o : Option Prepared)
    → (is_some e.write_started_at || is_some o) ≡ true
    → NeverAsks (converse key e a o)
unfolding converse answer
converse-NeverAsks key e a none w =
    ground
      (arith, store_failed-NeverAsks e a none, prepare_reply-NeverAsks key e a e.payload.content)
converse-NeverAsks key e a (some p) w =
    ground (arith, store_failed-NeverAsks e a (some p), send_reply-NeverAsks e a p)

resume-NeverAsks :
    (key : Ident → String) (e : StoredEvent) (a : Answers) (o : Option Prepared)
    → NeverAsks (resume_or_settle key e a o)
unfolding resume_or_settle
resume-NeverAsks key e a none = ground arith
resume-NeverAsks key e a (some p) = converse-NeverAsks key e a (some p) (ground arith)

attempt-NeverAsks :
    (key : Ident → String) (window : ℕ) (e : StoredEvent) (a : Answers) (o : Option Time)
    → (is_some e.write_started_at || is_some o) ≡ true
    → NeverAsks (process_attempt key window e a o)
unfolding process_attempt
attempt-NeverAsks key window e a none w = converse-NeverAsks key e a none w
attempt-NeverAsks key window e a (some at) w =
    resume-NeverAsks key e a (recovered_reply window a.started_at e at)

drain-NeverAsks :
    (e : StoredEvent) (a : Answers) (cs : List Action) (end : Ending)
    → NeverAsks (cs, end)
    → NeverAsks (drain_deadline e a (cs, end))
unfolding drain_deadline fail_before_reply
drain-NeverAsks e a cs Ending.returned h = h
drain-NeverAsks e a cs Ending.threw h = h
drain-NeverAsks e a cs (Ending.deadline true) h = exists-append is_ask cs _ ∙ ground arith
drain-NeverAsks e a cs (Ending.deadline false) h = exists-append is_ask cs _ ∙ ground arith

-- The agent is not asked about an event in whose earlier processing a write was begun or a reply was
-- begun, whatever the store and the platform answer.
pub agent_is_not_asked_again :
    (key : Ident → String) (window : ℕ) (e : StoredEvent) (a : Answers)
    → (is_some e.write_started_at || is_some e.reply_attempted_at) ≡ true
    → exists is_ask (process key window e a).0 ≡ false
unfolding process process_within_deadline
agent_is_not_asked_again key window e a w =
    let out = process_attempt key window e a e.reply_attempted_at in
    drain-NeverAsks e a out.0 out.1 (attempt-NeverAsks key window e a e.reply_attempted_at w)
