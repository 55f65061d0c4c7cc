-- ===== src/Recent/Store.antt =====
-- The messages and conversations that are stored: `getOrCreateConversation` and `append` of
-- src/storage/conversation-store.ts.
use minori.Common.{
  ℕ, ◌+◌, List, [], ◌∷◌, ◌++◌, Option, none, some, Bool, true, false, max, ◌==◌, if◌then◌else◌,
}
use minori.Common.Table.{exists, find, update}
use minori.Domain.{Ident, Time, ChatType}
use minori.Recent.{ConversationRow, MessageRow, StoredMessage, purge_expired}

pub record ConversationIdentity : Type 0 where
  pub conversation_key : Ident
  pub chat_id : Ident
  pub type : ChatType

-- Both tables, and the next value of the sequence of `messages.sequence`.
pub record Conversations : Type 0 where
  pub conversations : List ConversationRow
  pub messages : List MessageRow
  pub next_sequence : ℕ

abbrev pub has_key : Ident → ConversationRow → Bool
has_key key c = c.conversation_key == key

abbrev pub has_id : Ident → ConversationRow → Bool
has_id id c = c.id == id

abbrev pub has_message : Ident → MessageRow → Bool
has_message id r = r.message_id == id

abbrev pub new_conversation : Ident → ConversationIdentity → Time → ConversationRow
new_conversation id i now = record {
  id = id;
  conversation_key = i.conversation_key;
  chat_id = i.chat_id;
  type = i.type;
  last_activity_at = now;
  created_at = now;
}

abbrev pub id_of : Option ConversationRow → Option Ident
id_of none = none
id_of (some c) = some c.id

-- `fresh` is the random id of a new row; `none` is `conversation_identity_unavailable`.
unfoldable pub get_or_create_conversation :
    Ident → ConversationIdentity → Time → Conversations → Conversations × Option Ident
get_or_create_conversation fresh i now d =
    let after =
      if exists (has_key i.conversation_key) d.conversations
      then update (has_key i.conversation_key) (λ c. record c { last_activity_at = now })
          d.conversations
      else d.conversations ++ new_conversation fresh i now ∷ [] in
    (record d { conversations = after }, id_of (find (has_key i.conversation_key) after))

abbrev pub message_row : StoredMessage → ℕ → MessageRow
message_row m sequence = record {
  message_id = m.message_id;
  conversation_id = m.conversation_id;
  role = m.role;
  sender_open_id = m.sender_open_id;
  content = some m.content;
  created_at = m.created_at;
  sequence = sequence;
  purged_at = none;
}

abbrev pub active_at : Time → ConversationRow → ConversationRow
active_at t c = record c { last_activity_at = max c.last_activity_at t }

-- A number of the sequence is used up by every insertion. `false` is the violation of the foreign key
-- of a conversation that does not exist.
unfoldable pub append : StoredMessage → Conversations → Conversations × Bool
append m d =
    let used = record d { next_sequence = d.next_sequence + 1 } in
    if exists (has_message m.message_id) d.messages
    then (used, true)
    else if exists (has_id m.conversation_id) d.conversations
    then (
      record used {
        messages = d.messages ++ message_row m d.next_sequence ∷ [];
        conversations = update (has_id m.conversation_id) (active_at m.created_at) d.conversations;
      },
      true,
    )
    else (used, false)

-- The methods that change rows, called by anyone.
pub data StoreCall : Type 0 where
  creates : Ident → ConversationIdentity → Time → StoreCall
  appends : StoredMessage → StoreCall
  purges : Time → Time → StoreCall

unfoldable pub apply : StoreCall → Conversations → Conversations
unfolding get_or_create_conversation append purge_expired
apply (creates fresh i now) d = (get_or_create_conversation fresh i now d).0
apply (appends m) d = (append m d).0
apply (purges before now) d = record d { messages = (purge_expired before now d.messages).0 }

unfoldable pub run : List StoreCall → Conversations → Conversations
unfolding apply
run [] d = d
run (c ∷ cs) d = run cs (apply c d)
