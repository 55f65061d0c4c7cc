-- ===== src/Gateway/Handle.antt =====
-- `FeishuGateway.handle` on the table of events, with the calls that it makes in their order.
use minori.Common.{ℕ, String, List, [], ◌∷◌, ◌++◌, Option, none, some, Bool, false, if◌then◌else◌}
use minori.Domain.{Ident, Time, NormalizedMessage}
use minori.Database.{EventRow}
use minori.Events.{EnqueueStatus, enqueued, duplicate, enqueue, attach_processing_reaction}
use minori.Events.Calls.{Call, run}
use minori.Gateway.{
  MessageEvent, Bot, Host, is_p2p, is_valid_user_message_event, normalize_message_event,
}

-- How a transaction of the store ends: with its answer, or with an error, committed or not.
pub data CallEnd : Type 0 where
  answers loses_answer fails : CallEnd

-- What happens outside: the answers, the clock, and the transactions of others before the first and
-- the second of the gateway's. An error is `none`; `addReaction` may also answer with no identifier.
pub record Outside : Type 0 where
  pub lookup : Option Bool
  pub others : ℕ → List Call
  pub clock : ℕ → Time
  pub enqueue_end : CallEnd
  pub reaction : Option (Option Ident)
  pub attach_end : CallEnd
  pub removal_fails : Bool
  pub signal_fails : Bool

pub data Action : Type 0 where
  looks_up adds_reaction : Ident → Action
  removes_reaction : Ident → Ident → Action
  signals_worker : Action
  warns : String → Action

pub data Ending : Type 0 where
  returned threw : Ending

pub record Handled : Type 0 where
  pub rows : List EventRow
  pub actions : List Action
  pub ended : Ending

-- What `isBotMessage` answered is used for a second normalization.
unfoldable pub looked_up :
    Host → Bot → MessageEvent → Ident → Option Bool → List Action × Option NormalizedMessage
looked_up h bot d parent none =
    (looks_up parent ∷ warns "message_activation_lookup_failed" ∷ [], none)
looked_up h bot d parent (some replied_to_bot) =
    (looks_up parent ∷ [], normalize_message_event h bot d replied_to_bot)

unfoldable pub second_look :
    Host → Bot → MessageEvent → Option Bool → Option Ident → List Action × Option NormalizedMessage
unfolding looked_up
second_look h bot d lookup none = ([], none)
second_look h bot d lookup (some parent) = looked_up h bot d parent lookup

-- The schema of `activationLookupSchema` asks for less than the event's, and always succeeds here.
unfoldable pub resolved :
    Host
    → Bot
    → MessageEvent
    → Option Bool
    → Option NormalizedMessage
    → List Action × Option NormalizedMessage
unfolding second_look is_valid_user_message_event
resolved h bot d lookup (some m) = ([], some m)
resolved h bot d lookup none =
    if is_valid_user_message_event h d
    then if is_p2p d.chat_type then ([], none) else second_look h bot d lookup d.parent_id
    else ([], none)

unfoldable pub resolve :
    Host → Bot → MessageEvent → Option Bool → List Action × Option NormalizedMessage
unfolding resolved normalize_message_event
resolve h bot d lookup = resolved h bot d lookup (normalize_message_event h bot d false)

abbrev pub signal : Outside → List EventRow → List Action → Handled
signal o rows before = record {
  rows = rows;
  actions =
      before ++ signals_worker ∷ (if o.signal_fails then warns "worker_signal_failed" ∷ [] else []);
  ended = returned;
}

abbrev pub remove : Outside → NormalizedMessage → Ident → List Action
remove o m r =
    removes_reaction m.message_id r
    ∷ (if o.removal_fails then warns "reaction_remove_failed" ∷ [] else [])

-- The reaction was added; `rows` are the rows before the gateway's second transaction.
unfoldable pub attach : Outside → NormalizedMessage → Ident → List EventRow → CallEnd → Handled
unfolding attach_processing_reaction
attach o m r rows answers =
    let (after, attached) = attach_processing_reaction m.event_id r (o.clock 1) rows in
    signal o after (adds_reaction m.message_id ∷ (if attached then [] else remove o m r))
attach o m r rows loses_answer =
    signal o (attach_processing_reaction m.event_id r (o.clock 1) rows).0
      (adds_reaction m.message_id ∷ warns "reaction_state_attach_failed" ∷ remove o m r)
attach o m r rows fails =
    signal o rows (adds_reaction m.message_id ∷ warns "reaction_state_attach_failed" ∷ remove o m r)

unfoldable pub react : Outside → NormalizedMessage → List EventRow → Option (Option Ident) → Handled
unfolding attach
react o m rows none = signal o rows (adds_reaction m.message_id ∷ warns "reaction_add_failed" ∷ [])
react o m rows (some none) = signal o rows (adds_reaction m.message_id ∷ [])
react o m rows (some (some r)) = attach o m r (run (o.others 1) rows) o.attach_end

unfoldable pub enqueue_answered :
    Outside → NormalizedMessage → List EventRow → EnqueueStatus → Handled
unfolding react
enqueue_answered o m rows duplicate = record { rows = rows; actions = []; ended = returned }
enqueue_answered o m rows enqueued = react o m rows o.reaction

unfoldable pub store : Outside → NormalizedMessage → List EventRow → CallEnd → Handled
unfolding enqueue_answered enqueue
store o m rows answers =
    let (after, status) = enqueue m (o.clock 0) rows in enqueue_answered o m after status
store o m rows loses_answer = record {
  rows = (enqueue m (o.clock 0) rows).0;
  actions = [];
  ended = threw;
}
store o m rows fails = record { rows = rows; actions = []; ended = threw }

abbrev pub after : List Action → Handled → Handled
after before done = record done { actions = before ++ done.actions }

unfoldable pub store_resolved :
    Outside → List EventRow → List Action × Option NormalizedMessage → Handled
unfolding store
store_resolved o rows (before, none) = record { rows = rows; actions = before; ended = returned }
store_resolved o rows (before, some m) =
    after before (store o m (run (o.others 0) rows) o.enqueue_end)

-- `data` is `none` where the schema does not accept it.
unfoldable pub handle : Host → Bot → Outside → Option MessageEvent → List EventRow → Handled
unfolding resolve store_resolved
handle h bot o none rows = record { rows = rows; actions = []; ended = returned }
handle h bot o (some d) rows = store_resolved o rows (resolve h bot d o.lookup)
