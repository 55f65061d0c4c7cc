-- ===== src/Events/Turns.antt =====
-- The order of a conversation under every call, and over every history.
use mathlib.Core.List.{Memᴰ}
use minori.Common.{
  ℕ, ◌≤◌, ◌<◌, ltb, ◌||◌, ◌≡◌, refl, inl, inr, List, [], ◌∷◌, ◌++◌, ◌⊎◌, Bool, true, false, ◌&&◌,
  not, arith, ◌==◌, ==_iff, if◌then◌else◌, Bool-cases, All, All-mem, Option-cases,
}
use minori.Common.Table.{exists, find}
use minori.Common.Table.Counts.{exists-append, count-zero_of_exists, count-pos_of_mem}
use minori.Domain.{Ident, Time, NormalizedMessage}
use minori.Database.{EventRow, RunRow, is_queued, is_processing, is_active}
use minori.Events.{
  new_row, enqueue, claim_ready, claimed_row, eligible, earlier, precedes, is_head, holds,
  attach_processing_reaction, attached_row,
}
use minori.Events.Settle.{
  settle, complete, mark_reply_uncertain, retry, retried_row, recovered_row, recover_expired_leases,
  completed_row, uncertain_row,
}
use minori.Events.Progress.{
  mark_reply_started, mark_progress_attempted, confirm_progress_sent, mark_write_started,
  reply_started_row, progress_row, progress_sent_row, writing_row,
}
use minori.Events.Calls.{Call, HasClaim, apply}
use minori.Common.Sorting.{find-mem}
use minori.Events.Rows.{
  HasUniqueIds, has_id, eligible_of_hit, held_of_find, late_of_hit, queued_of_eligible,
}
use minori.Events.Lives.{apply-HasUniqueIds}
use minori.Events.Serial.{HeadsFirst, IsOrderly, HeadsFirst-update, HeadsFirst-release}

-- A message is received after the stored ones of its conversation, or with a later id at the same
-- time. The other calls have no such condition.
abbrev pub was_before : Time → NormalizedMessage → EventRow → Bool
was_before now m e =
    not (e.conversation_key == m.conversation_key)
    || (ltb e.received_at now || (e.received_at == now && ltb e.event_id m.event_id))

abbrev pub InOrder : Call → List EventRow → Type 0
InOrder (Call.enqueues m now) es = All (λ e. was_before now m e ≡ true) es
InOrder _ es = Unit {0}

settle-HeadsFirst :
    (f : EventRow → EventRow) (j : Ident) (n : ℕ) (es : List EventRow)
    → HasUniqueIds es
    → ((y : EventRow) → HasClaim n y → IsOrderly y (f y))
    → ((y : EventRow) → is_processing (f y).status ≡ false)
    → HeadsFirst es
    → HeadsFirst (settle f j n es).0
unfolding settle
settle-HeadsFirst f j n es u o ends heads = elim (Option-cases (find (holds j n) es)) [
  | inl gone ↦ rw (gone, settle) heads
  | inr (c, held) ↦
      rw (held, settle)
        (HeadsFirst-release (has_id j) f es
          (λ y m h. o y (
            held_of_find y.event_id j n es y c u
              (find-mem (has_id y.event_id) es y (u y.event_id) m
                ((==_iff y.event_id y.event_id).1 refl))
              held h))
          (λ y h b. absurd (ground (arith, ends y))) heads)
]

guarded-HeadsFirst {ℓ} :
    {R : Type ℓ} (b : Bool) (r s : R) (es es' : List EventRow)
    → HeadsFirst es
    → HeadsFirst es'
    → let out : List EventRow × R = if b then (es, r) else (es', s) in HeadsFirst out.0
guarded-HeadsFirst true r s es es' u v = u
guarded-HeadsFirst false r s es es' u v = v

head_of_eligible :
    (runs : List RunRow) (es : List EventRow) (now : Time) (e : EventRow) (l : Bool)
    → (eligible runs es now e && not l) ≡ true
    → is_head es e ≡ true
unfolding eligible
head_of_eligible runs es now e l h = ground arith

IsOrderly-claim :
    (lease now : Time) (y : EventRow)
    → is_queued y.status ≡ true
    → IsOrderly y (claimed_row lease now y)
IsOrderly-claim lease now y h = ground arith

pub append_mem : {A : Type 0} (xs : List A) (y x : A) → Memᴰ x (xs ++ y ∷ []) → Memᴰ x xs ⊎ (x ≡ y)
append_mem [] y x (Memᴰ.head e) = inr e
append_mem [] y x (Memᴰ.tail m) = elim m [ ]
append_mem (z ∷ zs) y x (Memᴰ.head e) = inl (Memᴰ.head e)
append_mem (z ∷ zs) y x (Memᴰ.tail m) = elim (append_mem zs y x m) [
  | inl k ↦ inl (Memᴰ.tail k)
  | inr e ↦ inr e
]

enqueue-HeadsFirst :
    (m : NormalizedMessage) (now : Time) (es : List EventRow)
    → All (λ e. was_before now m e ≡ true) es
    → HeadsFirst es
    → HeadsFirst (enqueue m now es).0
unfolding enqueue is_head
enqueue-HeadsFirst m now es late heads = elim (Bool-cases (exists (has_id m.event_id) es)) [
  | inl known ↦ rw (known, enqueue) heads
  | inr fresh ↦
      rw (fresh, enqueue)
        (λ e k busy. elim (append_mem es (new_row m now) e k) [
          | inl old ↦ ground (
            arith,
            exists-append (precedes e) es (new_row m now ∷ []),
            heads e old busy,
            All-mem (λ e. was_before now m e ≡ true) es e late old,
          )
          | inr new ↦ absurd (ground arith)
        ])
]

pub apply-HeadsFirst :
    (c : Call) (es : List EventRow)
    → HasUniqueIds es
    → InOrder c es
    → HeadsFirst es
    → HeadsFirst (apply c es)
unfolding apply claim_ready attach_processing_reaction complete mark_reply_uncertain retry
    recover_expired_leases mark_reply_started mark_progress_attempted confirm_progress_sent
    mark_write_started
apply-HeadsFirst (Call.enqueues m now) es u o heads = enqueue-HeadsFirst m now es o heads
apply-HeadsFirst (Call.claims locked limit lease now runs) es u o heads =
    guarded-HeadsFirst (limit == 0) _ _ es _ heads (
      HeadsFirst-update _ (claimed_row lease now) es
        (λ y m hit. IsOrderly-claim lease now y (
          queued_of_eligible runs es now y (locked y)
            (eligible_of_hit locked limit now runs es y u m hit)))
        (λ x m hit _. inr (
          head_of_eligible runs es now x (locked x)
            (eligible_of_hit locked limit now runs es x u m hit)))
        heads)
apply-HeadsFirst (Call.attaches j r now) es u o heads =
    HeadsFirst-release _ (attached_row r now) es (λ y m h. ground arith) (λ y h b. b) heads
apply-HeadsFirst (Call.completes j n s now) es u o heads =
    settle-HeadsFirst (completed_row s now) j n es u (λ y h. ground arith) (λ y. refl) heads
apply-HeadsFirst (Call.marks_uncertain j n now) es u o heads =
    settle-HeadsFirst (uncertain_row now) j n es u (λ y h. ground arith) (λ y. refl) heads
apply-HeadsFirst (Call.retries s j n code next now) es u o heads =
    HeadsFirst-release (holds j n) (retried_row s code next now) es (λ y m h. ground arith)
      (λ y h b. absurd (cc)) heads
apply-HeadsFirst (Call.recovers locked deadline limit now) es u o heads =
    guarded-HeadsFirst (limit == 0) _ _ es _ heads (
      HeadsFirst-release _ (recovered_row now) es
        (λ y m h. ground (arith, late_of_hit locked deadline limit es y u m h))
        (λ y h b. absurd (cc)) heads)
apply-HeadsFirst (Call.starts_reply j n key at p now) es u o heads =
    HeadsFirst-release _ (reply_started_row key at p now) es (λ y m h. ground arith) (λ y h b. b)
      heads
apply-HeadsFirst (Call.attempts_progress j n at now) es u o heads =
    HeadsFirst-release _ (progress_row at now) es (λ y m h. ground arith) (λ y h b. b) heads
apply-HeadsFirst (Call.confirms_progress j n m now) es u o heads =
    HeadsFirst-release _ (progress_sent_row m now) es (λ y k h. ground arith) (λ y h b. b) heads
apply-HeadsFirst (Call.starts_write j n now) es u o heads =
    HeadsFirst-release _ (writing_row now) es (λ y m h. ground arith) (λ y h b. b) heads

-- The tables that the calls can lead to, messages being received in order.
pub data Reach : List EventRow → Type 0 where
  start : Reach []
  next : {es : List EventRow} → Reach es → (c : Call) → InOrder c es → Reach (apply c es)

pub record IsSound (es : List EventRow) : Type 0 where
  pub unique : HasUniqueIds es
  pub in_turn : HeadsFirst es

pub Reach-IsSound : {es : List EventRow} → Reach es → IsSound es
Reach-IsSound start = record { unique = λ i. omega arith; in_turn = λ e m. elim m [ ] }
Reach-IsSound (next {es} r c o) =
    let s = Reach-IsSound r in
    record {
      unique = apply-HasUniqueIds c es s.unique;
      in_turn = apply-HeadsFirst c es s.unique o s.in_turn;
    }

not_earlier :
    (es : List EventRow) (x y : EventRow)
    → Memᴰ y es
    → is_head es x ≡ true
    → is_active y.status ≡ true
    → y.conversation_key ≡ x.conversation_key
    → earlier y x ≡ false
unfolding is_head
not_earlier es x y m h a k =
    ground (arith, count-zero_of_exists (precedes x) es, count-pos_of_mem (precedes x) es y m)

-- In every table that calls lead to from the empty one, in any order, if each message is stored with a
-- later time of receipt than those stored before it in its conversation, or with the same time and a
-- later id: two rows in processing that belong to one conversation are one event.
pub one_at_a_time :
    {es : List EventRow}
    → Reach es
    → (x y : EventRow) → Memᴰ x es
    → Memᴰ y es
    → is_processing x.status ≡ true
    → is_processing y.status ≡ true
    → x.conversation_key ≡ y.conversation_key
    → x.event_id ≡ y.event_id
one_at_a_time {es} r x y mx my bx by k =
    let s = Reach-IsSound r in
    ground
      (arith, not_earlier es x y my (s.in_turn x mx bx), not_earlier es y x mx (s.in_turn y my by))

came_first :
    (x y : EventRow)
    → earlier y x ≡ false
    → (x.received_at < y.received_at)
      ⊎ ((x.received_at ≡ y.received_at) × (x.event_id ≤ y.event_id))
came_first x y h = ground arith

-- In every table that calls lead to from the empty one, in any order, if each message is stored with a
-- later time of receipt than those stored before it in its conversation, or with the same time and a
-- later id: while an event is in processing, each active event of its conversation was received later,
-- or at the same time with an id that is not smaller.
pub in_order_of_arrival :
    {es : List EventRow}
    → Reach es
    → (x y : EventRow) → Memᴰ x es
    → Memᴰ y es
    → is_processing x.status ≡ true
    → is_active y.status ≡ true
    → y.conversation_key ≡ x.conversation_key
    → (x.received_at < y.received_at)
      ⊎ ((x.received_at ≡ y.received_at) × (x.event_id ≤ y.event_id))
in_order_of_arrival {es} r x y mx my bx ay k =
    came_first x y (not_earlier es x y my ((Reach-IsSound r).in_turn x mx bx) ay k)
