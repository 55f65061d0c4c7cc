-- ===== src/Gateway/Tests.antt =====
-- A message in a group that answers one of the bot's.
use minori.Common.{◌≡◌, refl, [], none, some, true, arith}
use minori.Domain.{NormalizedMessage, Content, group}
use minori.Content.{Json, Fields}
use minori.Content.Post.{parse_feishu_message_content}
use minori.Events.Calls.{run}
use minori.Gateway.{MessageEvent, Bot, Host, normalize_message_event}
use minori.Gateway.Handle.{answers, fails, Outside, resolve, handle}
use minori.Gateway.Activation.{is_reply_to_bot, activation_is_one_rule}
use minori.Gateway.Outcome.{stored_message-Answered}
use minori.Gateway.Attached.{Answered}
use minori.Gateway.Unchanged.{IsUnchanged, unsignalled-IsUnchanged}

abbrev host : Host
host = record {
  platform = record {
    parse_json = λ raw. some (Json.object (Fields.field "text" (Json.string raw) Fields.end));
    parse_url = λ url. none;
  };
  parse_time = λ text. some 5;
}

abbrev bot : Bot
bot = record { open_id = 1; open_id_text = "ou_bot" }

abbrev event : MessageEvent
event = record {
  event_id = 10;
  sender_type = "user";
  sender_open_id = some 2;
  message_id = 20;
  parent_id = some 19;
  create_time = "5";
  chat_id = 7;
  chat_type = group;
  message_type = "text";
  content = "hello";
  mentions = [];
}

abbrev message : NormalizedMessage
message = record {
  event_id = 10;
  message_id = 20;
  chat_id = 7;
  conversation_key = 7;
  sender_open_id = 2;
  chat_type = group;
  content = Content.text "hello" [];
  occurred_at = 5;
}

-- The reaction is added, but the transaction that notes it fails, and so do its removal and the signal.
abbrev outside : Outside
outside = record {
  lookup = some true;
  others = λ n. [];
  clock = λ n. 100;
  enqueue_end = answers;
  reaction = some (some 3);
  attach_end = fails;
  removal_fails = true;
  signal_fails = true;
}

abbrev not_asked : Outside
not_asked = record outside { lookup = none }

activation_is_one_rule_example :
    (resolve host bot event (some true)).1
    ≡ normalize_message_event host bot event (is_reply_to_bot host event (some true))
activation_is_one_rule_example = activation_is_one_rule host bot event (some true)

stored_message-Answered_example :
    Answered message (some (some 3)) (handle host bot outside (some event) [])
unfolding resolve parse_feishu_message_content run
stored_message-Answered_example =
    stored_message-Answered host bot outside event message [] (λ i. omega arith) refl refl refl

unsignalled-IsUnchanged_example :
    IsUnchanged not_asked [] (handle host bot not_asked (some event) [])
unfolding handle
unsignalled-IsUnchanged_example =
    unsignalled-IsUnchanged host bot not_asked (some event) [] refl refl
