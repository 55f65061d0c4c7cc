-- ===== src/Gateway/Unchanged.antt =====
-- What becomes of a message that the gateway does not store.
use minori.Common.{
  ◌≡◌, refl, ◌∙◌, ◌⊎◌, inl, inr, List, [], ◌∷◌, ◌++◌, Option, none, some, Bool, true, false, ◌==◌,
  if◌then◌else◌, arith, Bool-cases,
}
use minori.Common.Table.{count, exists}
use minori.Common.Table.Counts.{exists-append}
use minori.Domain.{Ident, NormalizedMessage}
use minori.Database.{EventRow}
use minori.Events.{new_row, enqueue, attach_processing_reaction}
use minori.Events.Calls.{run}
use minori.Events.Rows.{has_id}
use minori.Gateway.{
  MessageEvent, Bot, Host, is_p2p, is_valid_user_message_event, normalize_message_event,
}
use minori.Gateway.Handle.{
  CallEnd, answers, loses_answer, fails, Outside, Action, signals_worker, adds_reaction, warns,
  remove, Ending, Handled, resolve, attach, react, store, store_resolved, enqueue_answered, handle,
  resolved, second_look, looked_up,
}
use minori.Gateway.Attached.{is_signal, is_reaction, takes_reaction}

-- The table is the one before, or the one that others have left; no reaction was added.
abbrev pub IsUnchanged : Outside → List EventRow → Handled → Type 0
IsUnchanged o es done =
    ((done.rows ≡ es) ⊎ (done.rows ≡ run (o.others 0) es))
    × (exists is_reaction done.actions ≡ false)

signal-signals :
    (o : Outside) (cs : List Action)
    → exists is_signal
        (cs ++ signals_worker ∷ (if o.signal_fails then warns "worker_signal_failed" ∷ [] else []))
      ≡ true
signal-signals o cs = exists-append is_signal cs _ ∙ ground arith

attach-signals :
    (o : Outside) (m : NormalizedMessage) (r : Ident) (rows : List EventRow) (how : CallEnd)
    → exists is_signal (attach o m r rows how).actions ≡ true
unfolding attach attach_processing_reaction
attach-signals o m r rows answers =
    signal-signals o (
      adds_reaction m.message_id
      ∷ (if count (takes_reaction m) rows == 1 then [] else remove o m r))
attach-signals o m r rows loses_answer = signal-signals o (remove o m r)
attach-signals o m r rows fails = signal-signals o (remove o m r)

react-signals :
    (o : Outside) (m : NormalizedMessage) (rows : List EventRow) (reaction : Option (Option Ident))
    → exists is_signal (react o m rows reaction).actions ≡ true
unfolding react
react-signals o m rows none = refl
react-signals o m rows (some none) = refl
react-signals o m rows (some (some r)) = attach-signals o m r (run (o.others 1) rows) o.attach_end

store-IsUnchanged :
    (o : Outside) (m : NormalizedMessage) (es : List EventRow) (how : CallEnd)
    → let done = store o m (run (o.others 0) es) how in
      exists is_signal done.actions ≡ false → done.ended ≡ Ending.returned → IsUnchanged o es done
unfolding store enqueue enqueue_answered
store-IsUnchanged o m es answers h k =
    let rows = run (o.others 0) es in
    elim (Bool-cases (exists (has_id m.event_id) rows)) [
      | inl known ↦ rw known (inr refl, refl)
      | inr fresh ↦ absurd (
          ground (
            arith,
            rw fresh at h,
            react-signals o m (rows ++ new_row m (o.clock 0) ∷ []) o.reaction,
          ))
    ]
store-IsUnchanged o m es loses_answer h k = absurd (ground arith)
store-IsUnchanged o m es fails h k = absurd (ground arith)

stored-IsUnchanged :
    (o : Outside) (es : List EventRow) (cs : List Action) (found : Option NormalizedMessage)
    → exists is_reaction cs ≡ false
    → let done = store_resolved o es (cs, found) in
      exists is_signal done.actions ≡ false → done.ended ≡ Ending.returned → IsUnchanged o es done
unfolding store_resolved
stored-IsUnchanged o es cs none q h k = (inl refl, q)
stored-IsUnchanged o es cs (some m) q h k =
    let done = store o m (run (o.others 0) es) o.enqueue_end in
    let (rows, none_) =
      store-IsUnchanged o m es o.enqueue_end
        (ground (arith, exists-append is_signal cs done.actions)) k in
    (rows, exists-append is_reaction cs done.actions ∙ ground arith)

second-adds_none :
    (h : Host) (bot : Bot) (d : MessageEvent) (lookup : Option Bool) (parent : Option Ident)
    → exists is_reaction (second_look h bot d lookup parent).0 ≡ false
unfolding second_look looked_up
second-adds_none h bot d lookup none = refl
second-adds_none h bot d none (some p) = refl
second-adds_none h bot d (some b) (some p) = refl

resolved-adds_none :
    (h : Host) (bot : Bot) (d : MessageEvent) (lookup : Option Bool) (m : Option NormalizedMessage)
    → exists is_reaction (resolved h bot d lookup m).0 ≡ false
unfolding resolved
resolved-adds_none h bot d lookup (some m) = refl
resolved-adds_none h bot d lookup none = elim (Bool-cases (is_valid_user_message_event h d)) [
  | inl v ↦ rw v (elim (Bool-cases (is_p2p d.chat_type)) [
    | inl p ↦ rw p refl
    | inr p ↦ rw p (second-adds_none h bot d lookup d.parent_id)
  ])
  | inr v ↦ rw v refl
]

-- A received message for which the handling returns and the worker is not signalled has changed
-- nothing: no event was inserted, no row was changed and no reaction was added. Others may have
-- committed transactions in between.
pub unsignalled-IsUnchanged :
    (h : Host) (bot : Bot) (o : Outside) (received : Option MessageEvent) (es : List EventRow)
    → let done = handle h bot o received es in
      exists is_signal done.actions ≡ false → done.ended ≡ Ending.returned → IsUnchanged o es done
unfolding handle resolve
unsignalled-IsUnchanged h bot o none es s k = (inl refl, refl)
unsignalled-IsUnchanged h bot o (some d) es s k =
    let out = resolve h bot d o.lookup in
    stored-IsUnchanged o es out.0 out.1
      (resolved-adds_none h bot d o.lookup (normalize_message_event h bot d false)) s k
