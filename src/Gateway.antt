-- ===== src/Gateway.antt =====
-- Messages that arrive from the chat platform: src/feishu/normalize-event.ts and `handle` of
-- src/feishu/gateway.ts. An event is what its schema read from the received data. An optional
-- identifier that is empty counts as missing, as in the code.
pub mod Attached
pub mod Handle
pub mod Activation
pub mod Outcome
pub mod Unchanged
pub mod Tests
use package.text.Mathlib.Text.{◌==◌ as str_eq}
use minori.Common.{
  String, List, [], ◌∷◌, Option, none, some, Bool, true, false, ◌&&◌, ◌||◌, if◌then◌else◌, is_some,
  opt_eqb, ◌>>=◌, guard,
}
use minori.Domain.{Ident, Time, ChatType, group, p2p, Content, NormalizedMessage}
use minori.Content.{Platform, ParsedContent}
use minori.Content.Post.{parse_feishu_message_content}

pub record Mention : Type 0 where
  pub key : String
  pub open_id : Option Ident

pub record MessageEvent : Type 0 where
  pub event_id : Ident
  pub sender_type : String
  pub sender_open_id : Option Ident
  pub message_id : Ident
  pub parent_id : Option Ident
  pub create_time : String
  pub chat_id : Ident
  pub chat_type : ChatType
  pub message_type : String
  pub content : String
  pub mentions : List Mention

-- The bot's own identity, as an identifier and as the text that a post names.
pub record Bot : Type 0 where
  pub open_id : Ident
  pub open_id_text : String

-- The platform, with `new Date(Number(text))` where it is a valid date.
pub record Host : Type 0 where
  pub platform : Platform
  pub parse_time : String → Option Time

abbrev pub is_p2p : ChatType → Bool
is_p2p group = false
is_p2p p2p = true

-- The sender, if it is a user with an identifier.
abbrev pub user_sender : MessageEvent → Option Ident
user_sender d = if str_eq d.sender_type "user" then d.sender_open_id else none

unfoldable pub is_valid_user_message_event : Host → MessageEvent → Bool
is_valid_user_message_event h d =
    is_some (user_sender d)
    && (is_some (h.parse_time d.create_time) && is_some (h.platform.parse_json d.content))

abbrev pub bot_mention_keys : Bot → List Mention → List String
bot_mention_keys bot [] = []
bot_mention_keys bot (m ∷ ms) =
    let rest = bot_mention_keys bot ms in
    if opt_eqb m.open_id bot.open_id then m.key ∷ rest else rest

abbrev pub is_nonempty : List String → Bool
is_nonempty [] = false
is_nonempty (k ∷ ks) = true

abbrev pub is_activated : Bot → MessageEvent → Bool → Bool
is_activated bot d replied_to_bot =
    is_p2p d.chat_type || (is_nonempty (bot_mention_keys bot d.mentions) || replied_to_bot)

abbrev pub message_content : ParsedContent → Content
message_content (ParsedContent.text body links) = Content.text body links
message_content (ParsedContent.omitted source_type) = Content.unsupported source_type

abbrev pub normalized : MessageEvent → Ident → Content → Time → NormalizedMessage
normalized d sender content occurred_at = record {
  event_id = d.event_id;
  message_id = d.message_id;
  chat_id = d.chat_id;
  conversation_key = d.chat_id;
  sender_open_id = sender;
  chat_type = d.chat_type;
  content = content;
  occurred_at = occurred_at;
}

-- `replied_to_bot` is false where the activation context does not say so.
unfoldable pub normalize_message_event : Host → Bot → MessageEvent → Bool → Option NormalizedMessage
normalize_message_event h bot d replied_to_bot = do
  sender ← user_sender d
  activated ← guard (is_activated bot d replied_to_bot)
  parsed ←
      parse_feishu_message_content h.platform d.message_type d.content bot.open_id_text
        (bot_mention_keys bot d.mentions)
  occurred_at ← h.parse_time d.create_time
  some (normalized d sender (message_content parsed) occurred_at)
