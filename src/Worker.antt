-- ===== src/Worker.antt =====
-- One claimed message from claim to settlement: `MessageWorker.process` of
-- src/worker/message-worker.ts. The store, the agent and the chat platform answer from outside: what
-- they answered is an argument, and the result is the list of the calls made, in order.
pub mod Process
pub mod Delays
pub mod Replies
pub mod Endings
pub mod Again
pub mod Tries
pub mod Calls
pub mod Released
pub mod Tests
use package.text.Mathlib.Text.{◌==◌ as str_eq}
use minori.Common.{
  ℕ, suc, ◌+◌, ◌-◌, ◌*◌, ◌^◌, String, List, [], ◌∷◌, ◌++◌, Option, none, some, Bool, true, false,
  ◌&&◌, ◌||◌, min, max, ltb, leb, ◌==◌, if◌then◌else◌, is_none, is_some, or_default,
}
use minori.Domain.{Ident, Time, Content, text, unsupported}
use minori.Database.{PreparedReplyKind, rich, control}
use minori.Events.{StoredEvent, truthy}

abbrev pub unsupported_reply : String
unsupported_reply = "我暂不支持直接读取这种消息类型。请发送文字、富文本，或粘贴飞书文档链接。"

abbrev pub temporary_error_reply : String
temporary_error_reply = "我暂时无法完成这次查询，请稍后重试。"

abbrev pub deadline_drain_ms : ℕ
deadline_drain_ms = 120_000

-- What an operation under the deadline comes to: a value, an error, or the deadline.
pub data Reply (A : Type 0) : Type 0 where
  answered : A → Reply A
  refused timed_out : Reply A

-- The answers of one processing, and the clock readings that it takes.
pub record Answers : Type 0 where
  pub started_at : Time
  pub conversation : Reply (Unit {0})
  pub attempts_text : Reply String
  pub agent : Reply String
  pub mark : Reply (Unit {0})
  pub delivery : Reply Ident
  pub reply_append : Reply (Unit {0})
  pub settlement : Reply (Option Ident)
  pub drain : Reply (Option Ident)
  pub ended_at : Time

-- The calls that are made. `retries` has the error code and the time of the next attempt.
pub data Action : Type 0 where
  stores_user asks_agent loads_attempts marks_uncertain : Action
  marks_reply : String → String → PreparedReplyKind → Action
  sends : PreparedReplyKind → String → String → Action
  stores_reply : Ident → String → Action
  completes : Option Ident → Option String → Action
  retries : String → Time → Action
  removes_reaction : Ident → Action

-- `deadline reply_started`: the deadline's error is thrown, with the state of that moment.
pub data Ending : Type 0 where
  returned threw : Ending
  deadline : Bool → Ending

unfoldable pub next_attempt_at : Time → ℕ → ℕ → Time
next_attempt_at now attempts minimum_delay_ms =
    now + max (min (30_000 * 2 ^ (attempts - 1)) 300_000) minimum_delay_ms

-- The end of a store call that returns the reaction to remove.
abbrev pub clean_up : Bool → Reply (Option Ident) → List Action × Ending
clean_up started (answered none) = ([], returned)
clean_up started (answered (some reaction)) = (removes_reaction reaction ∷ [], returned)
clean_up started refused = ([], threw)
clean_up started timed_out = ([], deadline started)

abbrev pub and_then : Action → List Action × Ending → List Action × Ending
and_then c (cs, e) = (c ∷ cs, e)

-- The ending of a store call whose result is not used.
abbrev pub ended : {A : Type 0} → Bool → Reply A → Ending
ended started (answered a) = returned
ended started refused = threw
ended started timed_out = deadline started

unfoldable pub fail_before_reply :
    StoredEvent → Answers → Reply (Option Ident) → String → ℕ → List Action × Ending
unfolding next_attempt_at
fail_before_reply e a outcome code minimum_delay_ms =
    if ltb e.attempts 3
    then (
      retries code (next_attempt_at a.ended_at e.attempts minimum_delay_ms) ∷ [],
      ended false outcome,
    )
    else and_then (completes none (some code)) (clean_up false outcome)

-- A reply that is to be sent: text, kind and idempotency key.
pub record Prepared : Type 0 where
  pub text : String
  pub kind : PreparedReplyKind
  pub key : String

-- `persistPreparedReply`, then the rest of the processing by `send`.
unfoldable pub persist_prepared_reply :
    (Ident → String)
    → StoredEvent
    → Answers
    → String
    → PreparedReplyKind
    → (Prepared → List Action × Ending)
    → List Action × Ending
persist_prepared_reply stable_reply_key e a body kind send =
    let key = stable_reply_key e.event_id in
    and_then (marks_reply key body kind) (elim a.mark [
      | answered u ↦ send (record { text = body; kind = kind; key = key })
      | refused ↦ ([], threw)
      | timed_out ↦ ([], deadline false)
    ])

unfoldable pub retry_action : StoredEvent → Answers → Bool → String → List Action × Ending
unfolding next_attempt_at
retry_action e a started code =
    (retries code (next_attempt_at a.ended_at e.attempts 0) ∷ [], ended started a.settlement)

-- The agent has answered, failed, or the deadline has passed.
unfoldable pub agent_answered :
    (Ident → String)
    → StoredEvent
    → Answers
    → (Prepared → List Action × Ending)
    → Reply String
    → List Action × Ending
unfolding persist_prepared_reply retry_action
agent_answered stable_reply_key e a send (answered body) =
    persist_prepared_reply stable_reply_key e a body rich send
agent_answered stable_reply_key e a send refused =
    if ltb e.attempts 3
    then retry_action e a false "agent_failed"
    else persist_prepared_reply stable_reply_key e a temporary_error_reply control send
agent_answered stable_reply_key e a send timed_out = ([], deadline false)

-- The write attempts of an interrupted processing were read, for the report on them.
unfoldable pub attempts_loaded :
    (Ident → String)
    → StoredEvent
    → Answers
    → (Prepared → List Action × Ending)
    → Reply String
    → List Action × Ending
unfolding persist_prepared_reply
attempts_loaded stable_reply_key e a send (answered report) =
    persist_prepared_reply stable_reply_key e a report rich send
attempts_loaded stable_reply_key e a send refused = ([], threw)
attempts_loaded stable_reply_key e a send timed_out = ([], deadline false)

unfoldable pub prepare_reply :
    (Ident → String)
    → StoredEvent
    → Answers
    → (Prepared → List Action × Ending)
    → Content
    → List Action × Ending
unfolding persist_prepared_reply agent_answered attempts_loaded
prepare_reply stable_reply_key e a send (unsupported source_type) =
    persist_prepared_reply stable_reply_key e a unsupported_reply control send
prepare_reply stable_reply_key e a send (text body links) =
    if is_some e.write_started_at
    then and_then loads_attempts (attempts_loaded stable_reply_key e a send a.attempts_text)
    else and_then asks_agent (agent_answered stable_reply_key e a send a.agent)

-- After the reply was sent: it is stored, the event is completed, its reaction removed.
unfoldable pub finish_reply : Answers → String → Ident → List Action × Ending
finish_reply a sent_text message_id =
    if str_eq sent_text ""
    then ([], threw)
    else and_then (stores_reply message_id sent_text) (elim a.reply_append [
      | answered u ↦ and_then (completes (some message_id) none) (clean_up true a.settlement)
      | refused ↦ ([], threw)
      | timed_out ↦ ([], deadline true)
    ])

unfoldable pub send_reply : StoredEvent → Answers → Prepared → List Action × Ending
unfolding finish_reply retry_action
send_reply e a p = and_then (sends p.kind p.text p.key) (elim a.delivery [
  | answered message_id ↦ finish_reply a p.text message_id
  | refused ↦ retry_action e a true "reply_failed"
  | timed_out ↦ ([], deadline true)
])
