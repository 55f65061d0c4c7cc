-- ===== src/Worker/Endings.antt =====
-- How a processing ends: settled, given back for another attempt, or with an error.
use minori.Common.{
  ℕ, ◌≡◌, refl, ◌∙◌, List, [], ◌∷◌, ◌++◌, Option, none, some, Bool, true, false, ◌||◌, arith,
  String,
}
use minori.Common.Table.{exists}
use minori.Domain.{Ident, Time, Content, text, unsupported}
use minori.Database.{PreparedReplyKind, rich, control}
use minori.Events.{StoredEvent}
use minori.Worker.{
  Answers, Reply, answered, refused, timed_out, Action, Ending, Prepared, send_reply, finish_reply,
  prepare_reply, agent_answered, attempts_loaded, retry_action, persist_prepared_reply,
  fail_before_reply, unsupported_reply, temporary_error_reply,
}
use minori.Worker.Process.{
  process, drain_deadline, process_within_deadline, resume_or_settle, converse, answer,
  store_failed, recovered_reply, process_attempt,
}

-- `complete`, `markReplyUncertain` or `retry`.
abbrev pub is_settlement : Action → Bool
is_settlement Action.marks_uncertain = true
is_settlement (Action.completes m c) = true
is_settlement (Action.retries c t) = true
is_settlement _ = false

abbrev pub is_ask : Action → Bool
is_ask Action.asks_agent = true
is_ask _ = false

abbrev pub is_retry : Action → Bool
is_retry (Action.retries c t) = true
is_retry _ = false

abbrev pub is_mark : Action → Bool
is_mark (Action.marks_reply k b s) = true
is_mark _ = false

abbrev pub is_returned : Ending → Bool
is_returned Ending.returned = true
is_returned _ = false

-- A processing that returns has settled its event.
abbrev IsSettled : List Action × Ending → Type 0
IsSettled out = is_returned out.1 ≡ true → exists is_settlement out.0 ≡ true

pub exists-append :
    (p : Action → Bool) (cs ds : List Action) → exists p (cs ++ ds) ≡ (exists p cs || exists p ds)
exists-append p [] ds = refl
exists-append p (c ∷ cs) ds = ground (arith, exists-append p cs ds)

finish_reply-IsSettled :
    (a : Answers) (sent : String) (m : Ident) → IsSettled (finish_reply a sent m)
unfolding finish_reply
finish_reply-IsSettled a sent m = ground arith

send_reply-IsSettled : (e : StoredEvent) (a : Answers) (p : Prepared) → IsSettled (send_reply e a p)
unfolding send_reply retry_action
send_reply-IsSettled e a p = ground (arith, finish_reply-IsSettled a p.text)

persist-IsSettled :
    (key : Ident → String) (e : StoredEvent) (a : Answers) (body : String)
    (kind : PreparedReplyKind)
    → IsSettled (persist_prepared_reply key e a body kind (send_reply e a))
unfolding persist_prepared_reply
persist-IsSettled key e a body kind =
    ground
      (arith, send_reply-IsSettled e a (record { text = body; kind = kind; key = key e.event_id }))

agent-IsSettled :
    (key : Ident → String) (e : StoredEvent) (a : Answers) (r : Reply String)
    → IsSettled (agent_answered key e a (send_reply e a) r)
unfolding agent_answered retry_action
agent-IsSettled key e a (answered body) = persist-IsSettled key e a body rich
agent-IsSettled key e a refused =
    ground (arith, persist-IsSettled key e a temporary_error_reply control)
agent-IsSettled key e a timed_out = λ h. absurd (cc)

attempts-IsSettled :
    (key : Ident → String) (e : StoredEvent) (a : Answers) (r : Reply String)
    → IsSettled (attempts_loaded key e a (send_reply e a) r)
unfolding attempts_loaded
attempts-IsSettled key e a (answered body) = persist-IsSettled key e a body rich
attempts-IsSettled key e a refused = λ h. absurd (cc)
attempts-IsSettled key e a timed_out = λ h. absurd (cc)

prepare_reply-IsSettled :
    (key : Ident → String) (e : StoredEvent) (a : Answers) (c : Content)
    → IsSettled (prepare_reply key e a (send_reply e a) c)
unfolding prepare_reply
prepare_reply-IsSettled key e a (unsupported s) =
    persist-IsSettled key e a unsupported_reply control
prepare_reply-IsSettled key e a (text body links) =
    ground (arith, attempts-IsSettled key e a a.attempts_text, agent-IsSettled key e a a.agent)

store_failed-IsSettled :
    (e : StoredEvent) (a : Answers) (o : Option Prepared) (drain_ms : ℕ)
    → IsSettled (store_failed e a o drain_ms)
unfolding store_failed fail_before_reply
store_failed-IsSettled e a o drain_ms = ground arith

converse-IsSettled :
    (key : Ident → String) (e : StoredEvent) (a : Answers) (o : Option Prepared)
    → IsSettled (converse key e a o)
unfolding converse answer
converse-IsSettled key e a none =
    ground
      (arith, store_failed-IsSettled e a none, prepare_reply-IsSettled key e a e.payload.content)
converse-IsSettled key e a (some p) =
    ground (arith, store_failed-IsSettled e a (some p), send_reply-IsSettled e a p)

resume-IsSettled :
    (key : Ident → String) (e : StoredEvent) (a : Answers) (o : Option Prepared)
    → IsSettled (resume_or_settle key e a o)
unfolding resume_or_settle
resume-IsSettled key e a none = ground arith
resume-IsSettled key e a (some p) = converse-IsSettled key e a (some p)

attempt-IsSettled :
    (key : Ident → String) (window : ℕ) (e : StoredEvent) (a : Answers) (o : Option Time)
    → IsSettled (process_attempt key window e a o)
unfolding process_attempt
attempt-IsSettled key window e a none = converse-IsSettled key e a none
attempt-IsSettled key window e a (some at) =
    resume-IsSettled key e a (recovered_reply window a.started_at e at)

drain-IsSettled :
    (e : StoredEvent) (a : Answers) (cs : List Action) (end : Ending)
    → IsSettled (cs, end)
    → IsSettled (drain_deadline e a (cs, end))
unfolding drain_deadline fail_before_reply
drain-IsSettled e a cs Ending.returned h = h
drain-IsSettled e a cs Ending.threw h = h
drain-IsSettled e a cs (Ending.deadline true) h =
    λ k. exists-append is_settlement cs _ ∙ ground arith
drain-IsSettled e a cs (Ending.deadline false) h =
    λ k. exists-append is_settlement cs _ ∙ ground arith

-- A processing that returns without an error has completed its event, marked its reply uncertain or
-- given it back for another attempt, whatever the store, the agent and the platform answered.
pub returned_is_settled :
    (key : Ident → String) (window : ℕ) (e : StoredEvent) (a : Answers)
    → is_returned (process key window e a).1 ≡ true
    → exists is_settlement (process key window e a).0 ≡ true
unfolding process process_within_deadline
returned_is_settled key window e a =
    let out = process_attempt key window e a e.reply_attempted_at in
    drain-IsSettled e a out.0 out.1 (attempt-IsSettled key window e a e.reply_attempted_at)
