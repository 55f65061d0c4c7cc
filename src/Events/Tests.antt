-- ===== src/Events/Tests.antt =====
-- Runs of the event store on a small inbox: three messages, two of them in one conversation.
use mathlib.Core.List.{Memᴰ}
use minori.Common.{
  ◌+◌, ◌<◌, ◌⊎◌, ◌≤◌, ◌≡◌, refl, List, [], ◌∷◌, none, some, Bool, false, arith, or_default, max,
}
use minori.Domain.{Ident, Time, NormalizedMessage, Content, group}
use minori.Database.{EventRow}
use minori.Events.{
  duplicate, enqueue, new_row, claim_ready, candidates, eligible, is_head, slots, stored_event,
  claimed_row, agent_admission_concurrency,
}
use minori.Events.Settle.{Settlement, complete, settle, recover_expired_leases, expired_leases}
use minori.Events.Calls.{Call, apply, run}
use minori.Events.Rows.{HasUniqueIds, row}
use minori.Events.Fencing.{IsRefused, stale_forever, settled_forever}
use minori.Events.Capacity.{processing_events, IsOldestReady, claim_capacity, claim_oldest}
use minori.Events.Once.{enqueued_once}
use minori.Events.Turns.{Reach, start, next, Reach-IsSound, one_at_a_time, in_order_of_arrival}

abbrev message : Ident → Ident → NormalizedMessage
message i chat = record {
  event_id = i;
  message_id = i;
  chat_id = chat;
  conversation_key = chat;
  sender_open_id = 9;
  chat_type = group;
  content = Content.text "hello" [];
  occurred_at = 0;
}

abbrev unlocked : EventRow → Bool
unlocked e = false

abbrev received : List Call
received =
    Call.enqueues (message 1 7) 100
    ∷ Call.enqueues (message 2 7) 200
    ∷ Call.enqueues (message 3 8) 300
    ∷ []

abbrev claim_at : Time → Call
claim_at now = Call.claims unlocked 2 (now + 1000) now []

-- The first message is claimed, its lease runs out, and it is claimed again.
abbrev claimed_twice : List EventRow
claimed_twice =
    apply (claim_at 3000)
      (apply (Call.recovers unlocked 2000 10 2000) (apply (claim_at 400) (run received [])))

abbrev claimed_once : List EventRow
claimed_once = apply (claim_at 400) (run received [])

Reach-inbox : Reach (run received [])
unfolding run enqueue apply
Reach-inbox =
    next
      (next (next start (Call.enqueues (message 1 7) 100) tt) (Call.enqueues (message 2 7) 200)
        (refl, tt))
      (Call.enqueues (message 3 8) 300) (refl, (refl, tt))

Reach-once : Reach claimed_once
Reach-once = next Reach-inbox (claim_at 400) tt

ids_once : HasUniqueIds claimed_once
ids_once = (Reach-IsSound Reach-once).unique

ids_twice : HasUniqueIds claimed_twice
ids_twice =
    (Reach-IsSound
      (next (next Reach-once (Call.recovers unlocked 2000 10 2000) tt) (claim_at 3000) tt)).unique

abbrev inbox_row : EventRow
inbox_row = new_row (message 1 7) 100

abbrev once_row : EventRow
once_row = claimed_row 1400 400 inbox_row

abbrev twice_row : EventRow
twice_row = or_default (row 1 claimed_twice) inbox_row

abbrev done_with : Settlement
done_with = record { reply_message_id = some 50; error_code = none }

once_row_stored : row 1 claimed_once ≡ some once_row
unfolding run apply enqueue claim_ready candidates eligible is_head slots new_row stored_event
once_row_stored = refl

stale_forever_example : IsRefused 1 1 (run (Call.completes 1 1 done_with 3100 ∷ []) claimed_twice)
unfolding run apply enqueue claim_ready candidates eligible is_head slots new_row stored_event
    recover_expired_leases expired_leases
stale_forever_example =
    stale_forever (Call.completes 1 1 done_with 3100 ∷ []) claimed_twice 1 1 twice_row ids_twice
      refl (omega arith)

settled_forever_example :
    let after = (complete 1 1 done_with 500 claimed_once).0 in
    (row 1 (run (claim_at 600 ∷ []) after) ≡ row 1 after)
    × IsRefused 1 1 (run (claim_at 600 ∷ []) after)
unfolding run apply enqueue claim_ready candidates eligible is_head slots new_row stored_event
    complete settle
settled_forever_example =
    settled_forever (claim_at 600 ∷ []) claimed_once 1 1 1 done_with 500 none ids_once refl

claim_capacity_example :
    let after = (claim_ready unlocked 1 1400 400 [] (run received [])).0 in
    (processing_events after + 0
      ≤ max (processing_events (run received []) + 0) agent_admission_concurrency)
    × (processing_events after ≤ processing_events (run received []) + 1)
claim_capacity_example =
    claim_capacity unlocked 1 1400 400 [] (run received []) ((Reach-IsSound Reach-inbox).unique)

claim_oldest_example :
    (y : EventRow) × IsOldestReady unlocked 400 [] (run received []) y
    × ((claim_ready unlocked 1 1400 400 [] (run received [])).1
        ≡ stored_event (claimed_row 1400 400 y) ∷ [])
unfolding run apply enqueue eligible is_head slots new_row
claim_oldest_example =
    claim_oldest unlocked 1400 400 [] (run received []) inbox_row
      ((Reach-IsSound Reach-inbox).unique) (Memᴰ.head refl)
      (record {
        waits = refl;
        is_due = omega arith;
        is_free = refl;
        is_first = (refl, (refl, (refl, tt)));
        no_run = tt;
      })
      (omega arith)

one_at_a_time_example : once_row.event_id ≡ inbox_row.event_id
unfolding run apply enqueue claim_ready candidates eligible is_head slots new_row stored_event
one_at_a_time_example =
    one_at_a_time Reach-once once_row once_row (Memᴰ.head refl) (Memᴰ.head refl) refl refl refl

in_order_of_arrival_example :
    (once_row.received_at < 200) ⊎ ((once_row.received_at ≡ 200) × (once_row.event_id ≤ 2))
unfolding run apply enqueue claim_ready candidates eligible is_head slots new_row stored_event
in_order_of_arrival_example =
    in_order_of_arrival Reach-once once_row (new_row (message 2 7) 200) (Memᴰ.head refl)
      (Memᴰ.tail (Memᴰ.head refl)) refl refl refl

enqueued_once_example :
    let later = run (claim_at 400 ∷ []) (enqueue (message 4 9) 350 (run received [])).0 in
    enqueue (message 4 9) 500 later ≡ (later, duplicate)
enqueued_once_example =
    enqueued_once (claim_at 400 ∷ []) (run received []) (message 4 9) (message 4 9) 350 500
      ((Reach-IsSound Reach-inbox).unique) refl
