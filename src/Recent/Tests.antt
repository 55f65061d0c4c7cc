-- ===== src/Recent/Tests.antt =====
-- Three texts and a budget, and a conversation to which a message is appended.
use minori.Common.{
  ℕ, ◌-◌, ◌≡◌, refl, String, List, [], ◌∷◌, ◌++◌, none, some, false, if◌then◌else◌, ◌+◌, arith,
}
use minori.Common.Text.{codes, is_between, is_space}
use minori.Domain.{group}
use minori.Sources.{trim_start, trim_end}
use minori.Recent.{
  MessageRow, StoredMessage, user, assistant, take_recent, count_tokens,
  estimate_conversation_tokens, from_trigger, with_content, recent_within_budget,
}
use minori.Recent.Budget.{IsLongestFit, take_recent-IsLongestFit}
use minori.Recent.Store.{Conversations, append, appends, purges, run}
use minori.Recent.Trigger.{trigger_is_last}
use minori.Recent.Search.{
  search, search_for, excerpts, excerpt_around_match, terms_of, split_at_spaces, ilike,
}
use minori.Recent.Found.{IsFolding}
use minori.Sources.{Text}
use minori.Recent.Words.{Words}
use minori.Recent.Searched.{IsRight, search-IsRight}

abbrev own_size : ℕ → ℕ
own_size n = n

take_recent-IsLongestFit_example :
    IsLongestFit own_size 10 false 0
      (6 ∷ 4 ∷ 1 ∷ [])
      (take_recent own_size 10 false 0 (6 ∷ 4 ∷ 1 ∷ []))
take_recent-IsLongestFit_example = take_recent-IsLongestFit own_size 10 false 0 (6 ∷ 4 ∷ 1 ∷ [])

abbrev mixed_text : List ℕ
mixed_text = 104 ∷ 105 ∷ 25105 ∷ 33 ∷ []

mixed_text_estimate : estimate_conversation_tokens mixed_text ≡ 3
unfolding estimate_conversation_tokens count_tokens
mixed_text_estimate = refl

abbrev one_token : String → ℕ
one_token s = 1

abbrev question : StoredMessage
question = record {
  message_id = 1;
  conversation_id = 50;
  role = user;
  sender_open_id = some 9;
  content = "question";
  created_at = 1000;
}

abbrev reply : StoredMessage
reply = record {
  message_id = 2;
  conversation_id = 50;
  role = assistant;
  sender_open_id = none;
  content = "reply";
  created_at = 1100;
}

abbrev next_question : StoredMessage
next_question = record question { message_id = 3; created_at = 1200 }

abbrev tables : Conversations
tables = record {
  conversations =
      record {
        id = 50;
        conversation_key = 7;
        chat_id = 7;
        type = group;
        last_activity_at = 900;
        created_at = 900;
      }
      ∷ [];
  messages = [];
  next_sequence = 1;
}

abbrev answered : Conversations
answered = (append reply (append question tables).0).0

abbrev later : Conversations
later = run (purges 1050 1150 ∷ appends next_question ∷ []) answered

-- The reply is the trigger: the first question is purged, the next one is after the trigger.
reply_only :
    recent_within_budget one_token 500 1300 7 10 2 later.conversations later.messages
    ≡ some (reply ∷ [])
unfolding recent_within_budget from_trigger take_recent with_content append run
reply_only = refl

trigger_is_last_example :
    (before : List StoredMessage) × (recent_within_budget one_token 500 1300 7 10 2
        later.conversations later.messages
      ≡ some (before ++ reply ∷ []))
unfolding append
trigger_is_last_example =
    trigger_is_last one_token 500 1300 10 7 reply (purges 1050 1150 ∷ appends next_question ∷ [])
      (append question tables).0 refl refl (refl, (refl, tt)) (omega arith)

-- Upper-case letters of the alphabet are folded.
abbrev fold_letters : ℕ → ℕ
fold_letters c = if is_between b'A' b'Z' c then c + 32 else c

fold_letters-IsFolding : IsFolding fold_letters
fold_letters-IsFolding = record { fixes = λ c h. ground arith; apart = λ c h. ground arith }

abbrev same_text : List ℕ → List ℕ
same_text s = s

abbrev discount : MessageRow
discount = record {
  message_id = 4;
  conversation_id = 50;
  role = user;
  sender_open_id = some 9;
  content = some "Now 50% OFF";
  created_at = 1000;
  sequence = 1;
  purged_at = none;
}

-- `%` is not a wildcard, or it would be found in both.
abbrev no_discount : MessageRow
no_discount = record discount { message_id = 5; content = some "500 offers"; sequence = 2 }

offers_found :
    search fold_letters same_text 500 1300 7
      (codes " 50% off ")
      5
      tables.conversations
      (discount ∷ no_discount ∷ [])
    ≡ record { message_id = 4; role = user; created_at = 1000; excerpt = codes "Now 50% OFF" } ∷ []
unfolding search search_for excerpts excerpt_around_match terms_of split_at_spaces trim_start
    trim_end is_space ilike
offers_found = refl

abbrev sale : Text
sale = 32 ∷ 53 ∷ 48 ∷ 37 ∷ 32 ∷ 111 ∷ 102 ∷ 102 ∷ 32 ∷ []

sale-Words : Words sale ((53 ∷ 48 ∷ 37 ∷ []) ∷ (111 ∷ 102 ∷ 102 ∷ []) ∷ [])
unfolding is_space
sale-Words = Words.space 32 _ _ refl (
    Words.word 53 (48 ∷ 37 ∷ []) _ _ (refl, (refl, (refl, tt))) refl
      (Words.space 32 _ _ refl (
        Words.word 111 (102 ∷ 102 ∷ []) _ _ (refl, (refl, (refl, tt))) refl
          (Words.space 32 [] [] refl Words.ends))))

search-IsRight_example :
    IsRight fold_letters same_text 7 tables.conversations
      (1300 - 500)
      (codes "50%")
      (codes "off" ∷ [])
      5
      (discount ∷ no_discount ∷ [])
      (search fold_letters same_text 500 1300 7
        (codes " 50% off ")
        5
        tables.conversations
        (discount ∷ no_discount ∷ []))
search-IsRight_example =
    search-IsRight fold_letters fold_letters-IsFolding same_text 500 1300 7 (codes " 50% off ")
      (codes "50%") (codes "off" ∷ []) 5 tables.conversations (discount ∷ no_discount ∷ [])
      sale-Words
