-- ===== src/Recent.antt =====
-- The recent messages that fit a budget of tokens: `recentWithinBudget` and `purgeExpired` of
-- src/storage/conversation-store.ts and `selectRecentHistory` of src/agent/context-window.ts.
-- `estimate` is the estimate of a text's tokens, which the callers may replace.
pub mod Stored
pub mod Budget
pub mod Tokens
pub mod Store
pub mod Trigger
pub mod Own
pub mod Search
pub mod Found
pub mod Words
pub mod Searched
pub mod Tests
use minori.Common.{
  ℕ, ◌+◌, ◌-◌, ◌/◌, String, List, [], ◌∷◌, ◌++◌, reverse, Option, none, some, Bool, true, false,
  ◌&&◌, ltb, leb, max, ◌==◌, if◌then◌else◌, is_some, sort_by,
}
use minori.Common.Table.{select, count, exists, update}
use minori.Domain.{Ident, Time, ChatType}

pub data Role : Type 0 where
  user assistant : Role

-- `{ role, content }`
pub record HistoryMessage : Type 0 where
  pub role : Role
  pub content : String

-- A row of `conversations`.
pub record ConversationRow : Type 0 where
  pub id : Ident
  pub conversation_key : Ident
  pub chat_id : Ident
  pub type : ChatType
  pub last_activity_at : Time
  pub created_at : Time

-- A row of `messages`.
pub record MessageRow : Type 0 where
  pub message_id : Ident
  pub conversation_id : Ident
  pub role : Role
  pub sender_open_id : Option Ident
  pub content : Option String
  pub created_at : Time
  pub sequence : ℕ
  pub purged_at : Option Time

pub record StoredMessage : Type 0 where
  pub message_id : Ident
  pub conversation_id : Ident
  pub role : Role
  pub sender_open_id : Option Ident
  pub content : String
  pub created_at : Time

-- `Math.ceil(n / 4)`
abbrev pub quarter : ℕ → ℕ
quarter n = (n + 3) / 4

-- The loop over the code points of a text.
unfoldable pub count_tokens : ℕ → ℕ → List ℕ → ℕ
count_tokens tokens latin_run [] = max 1 (tokens + quarter latin_run)
count_tokens tokens latin_run (c ∷ cs) =
    let wide = count_tokens (tokens + quarter latin_run + 1) 0 cs in
    let latin = count_tokens tokens (latin_run + 1) cs in if ltb 127 c then wide else latin

unfoldable pub estimate_conversation_tokens : List ℕ → ℕ
unfolding count_tokens
estimate_conversation_tokens text = count_tokens 0 0 text

-- The loop from the newest message on: `any` tells whether one is selected.
unfoldable pub take_recent {ℓ} : {A : Type ℓ} → (A → ℕ) → ℕ → Bool → ℕ → List A → List A
take_recent tokens token_target any used [] = []
take_recent tokens token_target any used (x ∷ xs) =
    let rest = take_recent tokens token_target true (used + tokens x) xs in
    if any && ltb token_target (used + tokens x) then [] else x ∷ rest

unfoldable pub select_recent_history : (String → ℕ) → List HistoryMessage → ℕ → List HistoryMessage
unfolding take_recent
select_recent_history estimate history token_target =
    reverse (take_recent (λ m. estimate m.content) token_target false 0 (reverse history))

abbrev pub newer : MessageRow → MessageRow → Bool
newer a b = ltb b.sequence a.sequence

-- `inner join conversations` with the key.
abbrev pub is_of : Ident → List ConversationRow → Ident → Bool
is_of key conversations conversation_id =
    exists (λ (c : ConversationRow). c.id == conversation_id && c.conversation_key == key)
      conversations

abbrev pub is_retained : Ident → List ConversationRow → Time → MessageRow → Bool
is_retained key conversations retained_since r =
    is_of key conversations r.conversation_id
    && (is_some r.content && leb retained_since r.created_at)

-- `rows.slice(findIndex(...))`; a missing trigger is an error.
unfoldable pub from_trigger : Ident → List MessageRow → Option (List MessageRow)
from_trigger trigger_message_id [] = none
from_trigger trigger_message_id (r ∷ rs) =
    let rest = from_trigger trigger_message_id rs in
    if r.message_id == trigger_message_id then some (r ∷ rs) else rest

-- Rows without a content are passed over.
unfoldable pub with_content : List MessageRow → List StoredMessage
with_content [] = []
with_content (r ∷ rs) =
    let rest = with_content rs in
    elim r.content [
      | none ↦ rest
      | some body ↦
          record {
            message_id = r.message_id;
            conversation_id = r.conversation_id;
            role = r.role;
            sender_open_id = r.sender_open_id;
            content = body;
            created_at = r.created_at;
          }
          ∷ rest
    ]

abbrev pub chosen : (String → ℕ) → ℕ → Option (List MessageRow) → Option (List StoredMessage)
unfolding take_recent with_content
chosen estimate token_target none = none
chosen estimate token_target (some rows) = some (
    reverse (
      take_recent (λ (m : StoredMessage). estimate m.content) token_target false 0
        (with_content rows)))

-- `none` is the error `trigger_message_not_found`.
unfoldable pub recent_within_budget :
    (String → ℕ)
    → ℕ
    → Time
    → Ident
    → ℕ
    → Ident
    → List ConversationRow
    → List MessageRow
    → Option (List StoredMessage)
unfolding from_trigger take_recent with_content
recent_within_budget estimate retention_ms now conversation_key token_target trigger_message_id
      conversations rows =
    chosen estimate token_target (
      from_trigger trigger_message_id (
        sort_by newer
          (select (is_retained conversation_key conversations (now - retention_ms)) rows)))

-- `before` purges the contents of older messages.
unfoldable pub purge_expired : Time → Time → List MessageRow → List MessageRow × ℕ
purge_expired before now rows =
    let hit = λ (r : MessageRow). ltb r.created_at before && is_some r.content in
    (update hit (λ r. record r { content = none; purged_at = some now }) rows, count hit rows)
