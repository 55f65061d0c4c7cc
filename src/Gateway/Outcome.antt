-- ===== src/Gateway/Outcome.antt =====
-- What becomes of a message that the gateway stores.
use minori.Common.{
  ◌≡◌, refl, sym, ◌∙◌, subst, inr, List, [], ◌∷◌, ◌++◌, Option, none, some, false, arith,
}
use minori.Common.Table.{exists}
use minori.Common.Table.Counts.{exists-append}
use minori.Domain.{Ident, NormalizedMessage}
use minori.Database.{EventRow}
use minori.Events.{new_row, enqueue}
use minori.Events.Calls.{run}
use minori.Events.Rows.{HasUniqueIds, has_id, row}
use minori.Events.Lives.{run-Keeps, enqueue-HasUniqueIds}
use minori.Events.Once.{find_of_missing}
use minori.Gateway.{MessageEvent, Bot, Host}
use minori.Gateway.Handle.{
  answers, Outside, Action, adds_reaction, warns, after, Handled, resolve, react, store,
  store_resolved, enqueue_answered, handle,
}
use minori.Gateway.Attached.{
  is_signal, Answered, IsKept-append, run-HasUniqueIds, signal-Answered, attach-Answered,
}

react-Answered :
    (o : Outside) (m : NormalizedMessage) (rows : List EventRow) (e : EventRow)
    (reaction : Option (Option Ident))
    → HasUniqueIds rows
    → row m.event_id rows ≡ some e
    → e.payload ≡ m
    → Answered m reaction (react o m rows reaction)
unfolding react
react-Answered o m rows e none u h p =
    signal-Answered o m none rows e (adds_reaction m.message_id ∷ warns "reaction_add_failed" ∷ [])
      h p tt
react-Answered o m rows e (some none) u h p =
    signal-Answered o m (some none) rows e (adds_reaction m.message_id ∷ []) h p tt
react-Answered o m rows e (some (some r)) u h p =
    let (e', h', k, _, v) = run-Keeps (o.others 1) rows m.event_id e u h in
    attach-Answered o m r (run (o.others 1) rows) e' o.attach_end v h' (k.payload_stays ∙ p)

-- A new message: it is inserted and answered.
store-Answered :
    (o : Outside) (m : NormalizedMessage) (rows : List EventRow)
    → HasUniqueIds rows
    → exists (has_id m.event_id) rows ≡ false
    → Answered m o.reaction (store o m rows answers)
unfolding store enqueue enqueue_answered
store-Answered o m rows u fresh =
    let now = o.clock 0 in
    rw fresh (
      react-Answered o m (rows ++ new_row m now ∷ []) (new_row m now) o.reaction
        (rw fresh at (enqueue-HasUniqueIds m now rows u))
        (find_of_missing (has_id m.event_id) rows (new_row m now) fresh (ground arith)) refl)

after-Answered :
    (m : NormalizedMessage) (reaction : Option (Option Ident)) (cs : List Action) (done : Handled)
    → Answered m reaction done
    → Answered m reaction (after cs done)
after-Answered m reaction cs done a = record {
  stored = a.stored;
  found = a.found;
  same = a.same;
  signalled = exists-append is_signal cs done.actions ∙ ground (arith, a.signalled);
  returned = a.returned;
  reaction_kept =
      IsKept-append m reaction a.stored.processing_reaction_id cs done.actions
        (inr a.reaction_kept);
}

resolved-Answered :
    (o : Outside) (m : NormalizedMessage) (es : List EventRow) (cs : List Action)
    (found : Option NormalizedMessage)
    → HasUniqueIds es
    → found ≡ some m
    → exists (has_id m.event_id) (run (o.others 0) es) ≡ false
    → o.enqueue_end ≡ answers
    → Answered m o.reaction (store_resolved o es (cs, found))
unfolding store_resolved
resolved-Answered o m es cs none u q fresh ok = absurd (cc)
resolved-Answered o m es cs (some n) u q fresh ok =
    let rows = run (o.others 0) es in
    let same : m ≡ n = ground arith in
    let done = store-Answered o m rows (run-HasUniqueIds (o.others 0) es u) fresh in
    let ended = subst (λ how. Answered m o.reaction (store o m rows how)) (sym ok) done in
    subst (λ k. Answered m o.reaction (after cs (store o k rows o.enqueue_end))) same
      (after-Answered m o.reaction cs _ ended)

-- If event ids are unique, a received message is for the bot, its event is not stored yet and the
-- transaction that stores it answers, then whatever fails of the reaction, its note in the event's
-- row, its removal and the signal: the handling returns, the event is in the table with the message,
-- the worker has been signalled, and a reaction that was added is in the event's row or has been given
-- to be removed. Others may commit any transactions before each of the gateway's two.
pub stored_message-Answered :
    (h : Host) (bot : Bot) (o : Outside) (d : MessageEvent) (m : NormalizedMessage)
    (es : List EventRow)
    → HasUniqueIds es
    → (resolve h bot d o.lookup).1 ≡ some m
    → exists (has_id m.event_id) (run (o.others 0) es) ≡ false
    → o.enqueue_end ≡ answers
    → Answered m o.reaction (handle h bot o (some d) es)
unfolding handle
stored_message-Answered h bot o d m es u q fresh ok =
    let out = resolve h bot d o.lookup in resolved-Answered o m es out.0 out.1 u q fresh ok
