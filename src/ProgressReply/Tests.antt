-- ===== src/ProgressReply/Tests.antt =====
-- The progress reply of a message that arrived twenty seconds ago.
use minori.Common.{◌≤◌, ◌≡◌, refl, List, [], ◌∷◌, ◌++◌, none, some, true, false}
use minori.Domain.{NormalizedMessage, Content, group}
use minori.Events.{StoredEvent}
use minori.ProgressReply.{
  Event, timer_fires, marker_answers, delivery_answers, settles, turn_passes, begin, waits,
  start_progress_reply, steps, has_returned,
}
use minori.ProgressReply.Settled.{settled_progress_is_silent}

abbrev message : NormalizedMessage
message = record {
  event_id = 1;
  message_id = 1;
  chat_id = 7;
  conversation_key = 7;
  sender_open_id = 9;
  chat_type = group;
  content = Content.text "hello" [];
  occurred_at = 0;
}

abbrev event : StoredEvent
event = record {
  event_id = 1;
  payload = message;
  attempts = 1;
  received_at = 0;
  processing_reaction_id = none;
  progress_attempted_at = none;
  progress_message_id = none;
  write_started_at = none;
  reply_idempotency_key = none;
  reply_attempted_at = none;
  prepared_reply_text = none;
  prepared_reply_kind = none;
}

-- `settle` is called while the reply is being delivered, and waits for it.
abbrev delivered_first : List Event
delivered_first =
    timer_fires
    ∷ marker_answers (some true)
    ∷ settles
    ∷ turn_passes
    ∷ delivery_answers (some 5)
    ∷ []

waits_for_delivery :
    has_returned
      (steps (timer_fires ∷ marker_answers (some true) ∷ settles ∷ turn_passes ∷ []) waits)
    ≡ false
unfolding steps
waits_for_delivery = refl

-- The marker answers after `settle` has returned.
late_marker :
    (steps (settles ∷ turn_passes ∷ marker_answers (some true) ∷ []) (begin waits)).sends ≡ 0
unfolding steps
late_marker = refl

settled_progress_is_silent_example :
    ((steps (delivered_first ++ marker_answers (some true) ∷ timer_fires ∷ []) waits).sends
      ≡ (steps delivered_first waits).sends)
    × ((steps (delivered_first ++ marker_answers (some true) ∷ timer_fires ∷ []) waits).sends ≤ 1)
unfolding steps start_progress_reply
settled_progress_is_silent_example =
    settled_progress_is_silent event 5000 waits delivered_first
      (marker_answers (some true) ∷ timer_fires ∷ []) refl refl
