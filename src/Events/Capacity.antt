-- ===== src/Events/Capacity.antt =====
-- How many events a claim takes, and which.
use mathlib.Core.List.{Memᴰ}
use minori.Common.{
  ℕ, ◌+◌, ◌≤◌, ◌≡◌, refl, subst, List, [], ◌∷◌, some, Bool, true, false, ◌&&◌, ◌||◌, not, arith,
  ◌==◌, ==_iff, max, min, length, length-take-le, All-mem, All, ltb, le→leb, sort_by,
}
use minori.Common.Table.{count, exists, select}
use minori.Common.Table.Counts.{count-update-le, count-or-le, count-false}
use minori.Common.Table.Keys.{count-congr}
use minori.Common.Sorting.{Starts, sort_by-Starts, select-mem, mem-select, select-find, find-mem}
use minori.Domain.{Time}
use minori.Database.{EventRow, RunRow, is_queued, is_active, is_processing, run_is_processing}
use minori.Events.{
  agent_admission_concurrency, claim_ready, claimed_row, candidates, eligible, earlier, slots,
  stored_event, precedes, is_head,
}
use minori.Events.Rows.{HasUniqueIds, has_id, row, row-mem}

abbrev pub processing_events : List EventRow → ℕ
processing_events es = count (λ e. is_processing e.status) es

abbrev pub processing_runs : List RunRow → ℕ
processing_runs rs = count (λ r. run_is_processing r.status) rs

-- A list of rows picks at most one row for each of its entries.
picked-le :
    (es cs : List EventRow)
    → HasUniqueIds es
    → count (λ e. exists (λ c. c.event_id == e.event_id) cs) es ≤ length cs
picked-le es [] u = omega (arith, count-false es)
picked-le es (c ∷ cs) u = omega (
  arith,
  count-or-le (λ e. c.event_id == e.event_id) (λ e. exists (λ d. d.event_id == e.event_id) cs) es,
  count-congr (λ e. c.event_id == e.event_id) (has_id c.event_id) es (λ e. ground arith),
  u c.event_id,
  picked-le es cs u,
)

candidates-le :
    (locked : EventRow → Bool) (limit : ℕ) (now : Time) (runs : List RunRow) (es : List EventRow)
    → length (candidates locked limit now runs es) ≤ min (slots runs es) limit
unfolding candidates
candidates-le locked limit now runs es = length-take-le (min (slots runs es) limit) _

-- If event ids are unique, a claim leaves at most four events and runs in processing, or no more
-- than there were, and it puts no more events in processing than its limit.
pub claim_capacity :
    (locked : EventRow → Bool) (limit : ℕ) (lease now : Time) (runs : List RunRow)
    (es : List EventRow)
    → HasUniqueIds es
    → let after = (claim_ready locked limit lease now runs es).0 in
      (processing_events after + processing_runs runs
        ≤ max (processing_events es + processing_runs runs) agent_admission_concurrency)
      × (processing_events after ≤ processing_events es + limit)
unfolding claim_ready slots
claim_capacity locked limit lease now runs es u =
    let chosen = candidates locked limit now runs es in
    let hit = λ (e : EventRow). exists (λ c. c.event_id == e.event_id) chosen in
    let taken = picked-le es chosen u in
    let room = candidates-le locked limit now runs es in
    let more = count-update-le (λ e. is_processing e.status) hit (claimed_row lease now) es in
    ground (arith, taken, room, more)

earlier_asym : (a b : EventRow) → earlier a b ≡ true → earlier b a ≡ false
earlier_asym a b h = ground arith

earlier_follows :
    (a b c : EventRow) → earlier a b ≡ false → earlier b c ≡ false → earlier a c ≡ false
earlier_follows a b c h k = ground arith

-- Received before, or at the same time with a smaller id.
abbrev pub arrived_before : EventRow → EventRow → Bool
arrived_before a b =
    ltb a.received_at b.received_at || (a.received_at == b.received_at && ltb a.event_id b.event_id)

-- A queued event, not locked, whose next attempt is due; no active event of its conversation arrived
-- before it, and no scheduled run is in processing for the chat of its conversation.
pub record IsReady (locked : EventRow → Bool) (now : Time) (runs : List RunRow) (es : List EventRow)
    (y : EventRow) : Type 0 where
  pub waits : is_queued y.status ≡ true
  pub is_due : y.next_attempt_at ≤ now
  pub is_free : locked y ≡ false
  pub is_first :
      All
        (λ o.
          (is_active o.status && (o.conversation_key == y.conversation_key && arrived_before o y))
          ≡ false)
        es
  pub no_run :
      All
        (λ r. (run_is_processing r.status && r.result_target.chat_id == y.conversation_key) ≡ false)
        runs

exists-All :
    {A : Type 0} (p : A → Bool) (xs : List A) → exists p xs ≡ false → All (λ x. p x ≡ false) xs
exists-All p [] h = tt
exists-All p (x ∷ xs) h = (ground arith, exists-All p xs (ground arith))

All-exists :
    {A : Type 0} (p : A → Bool) (xs : List A) → All (λ x. p x ≡ false) xs → exists p xs ≡ false
All-exists p [] h = refl
All-exists p (x ∷ xs) h = rw h.0 (All-exists p xs h.1)

abbrev busy_chat : EventRow → RunRow → Bool
busy_chat y r = run_is_processing r.status && r.result_target.chat_id == y.conversation_key

ready_lem :
    (locked : EventRow → Bool) (now : Time) (runs : List RunRow) (es : List EventRow) (y : EventRow)
    → (eligible runs es now y && not (locked y)) ≡ true
    → IsReady locked now runs es y
unfolding eligible is_head
ready_lem locked now runs es y h = record {
  waits = ground arith;
  is_due = ground arith;
  is_free = ground arith;
  is_first = exists-All (precedes y) es (ground arith);
  no_run = exists-All (busy_chat y) runs (ground arith);
}

IsReady-ready :
    (locked : EventRow → Bool) (now : Time) (runs : List RunRow) (es : List EventRow) (y : EventRow)
    → IsReady locked now runs es y
    → (eligible runs es now y && not (locked y)) ≡ true
unfolding eligible is_head
IsReady-ready locked now runs es y h =
    let first = All-exists (precedes y) es h.is_first in
    let no_run = All-exists (busy_chat y) runs h.no_run in
    rw (h.waits, first, no_run, h.is_free, le→leb y.next_attempt_at now h.is_due) refl

-- The row that a claim with limit 1 takes.
pub record IsOldestReady (locked : EventRow → Bool) (now : Time) (runs : List RunRow)
    (es : List EventRow) (y : EventRow) : Type 0 where
  pub stored : row y.event_id es ≡ some y
  pub is_ready : IsReady locked now runs es y
  pub is_oldest :
      (x : EventRow) → Memᴰ x es → IsReady locked now runs es x → arrived_before x y ≡ false

abbrev ready : (EventRow → Bool) → Time → List RunRow → List EventRow → EventRow → Bool
ready locked now runs es x = eligible runs es now x && not (locked x)

candidates_one :
    (locked : EventRow → Bool) (now : Time) (runs : List RunRow) (es : List EventRow) (y : EventRow)
    (rest : List EventRow)
    → sort_by earlier (select (ready locked now runs es) es) ≡ y ∷ rest
    → 1 ≤ slots runs es
    → candidates locked 1 now runs es ≡ y ∷ []
unfolding candidates
candidates_one locked now runs es y rest sorted room =
    let one : min (slots runs es) 1 ≡ 1 = omega arith in rw (one, sorted)

claim_of_least :
    (locked : EventRow → Bool) (lease now : Time) (runs : List RunRow) (es : List EventRow)
    (y : EventRow) (rest : List EventRow)
    → HasUniqueIds es
    → row y.event_id es ≡ some y
    → sort_by earlier (select (ready locked now runs es) es) ≡ y ∷ rest
    → 1 ≤ slots runs es
    → (claim_ready locked 1 lease now runs es).1 ≡ stored_event (claimed_row lease now y) ∷ []
unfolding claim_ready
claim_of_least locked lease now runs es y rest u found sorted room =
    let picks : EventRow → Bool = λ e. (y.event_id == e.event_id) || false in
    let chosen : select picks es ≡ y ∷ [] =
      select-find picks es y
        (subst (λ n. n ≤ 1) (count-congr (has_id y.event_id) picks es (λ e. ground arith))
          (u y.event_id))
        (find-mem picks es y
          (subst (λ n. n ≤ 1) (count-congr (has_id y.event_id) picks es (λ e. ground arith))
            (u y.event_id))
          (row-mem y.event_id es y found) (ground arith)) in
    rw (candidates_one locked now runs es y rest sorted room, chosen)

Starts-mem :
    (xs : List EventRow) (x : EventRow)
    → Memᴰ x xs
    → (s : Starts earlier xs) × (earlier x s.least ≡ false)
Starts-mem [] x m = elim m [ ]
Starts-mem (y ∷ ys) x m =
    let s = sort_by-Starts earlier earlier_asym earlier_follows y ys in
    (s, All-mem (λ w. earlier w s.least ≡ false) (y ∷ ys) x s.minimal m)

-- If event ids are unique, an event is ready, and a slot is free, then a claim with limit 1 takes one
-- event, which is ready, and none that is ready was received earlier. An event is ready if it is queued
-- and not locked, its next attempt is due, no active event of its conversation was received before it,
-- and no scheduled run is in processing for its chat.
pub claim_oldest :
    (locked : EventRow → Bool) (lease now : Time) (runs : List RunRow) (es : List EventRow)
    (x : EventRow)
    → HasUniqueIds es
    → Memᴰ x es
    → IsReady locked now runs es x
    → 1 ≤ slots runs es
    → (y : EventRow) × IsOldestReady locked now runs es y
      × ((claim_ready locked 1 lease now runs es).1 ≡ stored_event (claimed_row lease now y) ∷ [])
claim_oldest locked lease now runs es x u m h room =
    let is_ready = ready locked now runs es in
    let (s, least) =
      Starts-mem (select is_ready es) x
        (select-mem is_ready es x m (IsReady-ready locked now runs es x h)) in
    let (there, good) = mem-select is_ready es s.least s.entry in
    let found =
      find-mem (has_id s.least.event_id) es s.least (u s.least.event_id) there
        ((==_iff s.least.event_id s.least.event_id).1 refl) in
    (
      s.least,
      record {
        stored = found;
        is_ready = ready_lem locked now runs es s.least good;
        is_oldest = λ z k e.
            All-mem (λ w. earlier w s.least ≡ false) (select is_ready es) z s.minimal
              (select-mem is_ready es z k (IsReady-ready locked now runs es z e));
      },
      claim_of_least locked lease now runs es s.least s.rest u found s.sorted room,
    )
