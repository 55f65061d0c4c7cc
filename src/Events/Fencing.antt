-- ===== src/Events/Fencing.antt =====
-- Claims fence one another: what a worker may still do after its claim was lost or its event settled.
use minori.Common.{
  ℕ, ◌<◌, ◌≡◌, refl, sym, ap, subst, ◌∙◌, inl, inr, List, Option, some, Bool, false, ◌&&◌, arith,
  ◌==◌, ==_iff, String, Option-cases,
}
use minori.Common.Table.{count, find, update}
use minori.Common.Table.Counts.{update-eq_of_count, find-none}
use minori.Common.Table.Keys.{count-and, count-and-le, find-eq_none}
use minori.Domain.{Ident, Time}
use minori.Database.{PreparedReplyKind, EventRow, is_processing}
use minori.Events.{EventStoreOptions, holds, done, stale_event_claim}
use minori.Events.Settle.{
  Settlement, settle, complete, completed_row, mark_reply_uncertain, retry, retried_row,
  fenced_update,
}
use minori.Events.Progress.{
  mark_reply_started, mark_progress_attempted, confirm_progress_sent, mark_write_started,
  may_attempt_progress, may_confirm_progress, reply_started_row,
}
use minori.Events.Calls.{Call, run}
use minori.Events.Rows.{HasUniqueIds, has_id, row, row-id, row-update}
use minori.Events.Lives.{run-Keeps, update-HasUniqueIds}

-- A refused update: no row is selected, so nothing is written.
fenced_update_stale :
    (p : EventRow → Bool) (f : EventRow → EventRow) (es : List EventRow)
    → count p es ≡ 0
    → fenced_update p f es ≡ (es, stale_event_claim)
unfolding fenced_update
fenced_update_stale p f es h = rw (update-eq_of_count p f es h, h) refl

settle_stale :
    (f : EventRow → EventRow) (i : Ident) (n : ℕ) (es : List EventRow)
    → count (holds i n) es ≡ 0
    → settle f i n es ≡ (es, stale_event_claim)
unfolding settle
settle_stale f i n es h = rw (find-eq_none (holds i n) es h, settle) refl

-- All methods of a claim refuse it and leave the table as it is.
abbrev pub IsRefused : Ident → ℕ → List EventRow → Type 0
IsRefused i n es =
    ((o : Settlement) (now : Time) → complete i n o now es ≡ (es, stale_event_claim))
    × ((now : Time) → mark_reply_uncertain i n now es ≡ (es, stale_event_claim))
    × ((o : EventStoreOptions) (code : String) (next now : Time)
        → retry o i n code next now es ≡ (es, stale_event_claim))
    × ((key : String) (at : Time) (p : Option (String × PreparedReplyKind)) (now : Time)
        → mark_reply_started i n key at p now es ≡ (es, stale_event_claim))
    × ((now : Time) → mark_write_started i n now es ≡ (es, stale_event_claim))
    × ((at now : Time) → mark_progress_attempted i n at now es ≡ (es, false))
    × ((m : Ident) (now : Time) → confirm_progress_sent i n m now es ≡ (es, false))

none_narrower :
    (p q : EventRow → Bool) (es : List EventRow) → count p es ≡ 0 → count (λ e. p e && q e) es ≡ 0
none_narrower p q es h = omega (arith, count-and-le p q es)

pub boolean_update_refused :
    (p : EventRow → Bool) (f : EventRow → EventRow) (es : List EventRow)
    → count p es ≡ 0
    → ◌≡◌ {A = List EventRow × Bool} (update p f es, count p es == 1) (es, false)
boolean_update_refused p f es h = rw (update-eq_of_count p f es h, h) refl

IsRefused-count :
    (i : Ident) (n : ℕ) (es : List EventRow) → count (holds i n) es ≡ 0 → IsRefused i n es
unfolding complete mark_reply_uncertain retry mark_reply_started mark_write_started
    mark_progress_attempted confirm_progress_sent
IsRefused-count i n es h = (
  (λ o now. settle_stale (completed_row o now) i n es h),
  (λ now. settle_stale _ i n es h),
  (λ o code next now. fenced_update_stale (holds i n) (retried_row o code next now) es h),
  (λ key at p now. fenced_update_stale (holds i n) (reply_started_row key at p now) es h),
  (λ now. fenced_update_stale (holds i n) _ es h),
  (λ at now.
      boolean_update_refused (may_attempt_progress i n) _ es (none_narrower (holds i n) _ es h)),
  (λ m now.
      boolean_update_refused (may_confirm_progress i n) _ es (none_narrower (holds i n) _ es h)),
)

not_held :
    (i : Ident) (n : ℕ) (es : List EventRow) (e : EventRow)
    → HasUniqueIds es
    → row i es ≡ some e
    → (is_processing e.status && e.attempts == n) ≡ false
    → count (holds i n) es ≡ 0
not_held i n es e u h q =
    count-and (has_id i) (λ x. is_processing x.status && x.attempts == n) es e (u i) h ∙ rw q

-- If event ids are unique and an event was claimed more than n times, then after any calls attempt
-- n of it is refused by every method of a claim, and none of them changes a row.
pub stale_forever :
    (cs : List Call) (es : List EventRow) (i : Ident) (n : ℕ) (e : EventRow)
    → HasUniqueIds es
    → row i es ≡ some e
    → n < e.attempts
    → IsRefused i n (run cs es)
stale_forever cs es i n e u h late =
    let (e', h', k, _, v) = run-Keeps cs es i e u h in
    IsRefused-count i n (run cs es) (not_held i n (run cs es) e' v h' (ground arith))

held_row :
    (i : Ident) (n : ℕ) (es : List EventRow) (c : EventRow)
    → find (holds i n) es ≡ some c
    → (e : EventRow) × (row i es ≡ some e)
held_row i n es c held = elim (Option-cases (row i es)) [
  | inl gone ↦ absurd (
      cc (
        find-eq_none (holds i n) es (none_narrower (has_id i) _ es (find-none (has_id i) es gone))))
  | inr found ↦ found
]

completed_rows :
    (i : Ident) (n : ℕ) (o : Settlement) (now : Time) (es : List EventRow) (c : EventRow)
    → find (holds i n) es ≡ some c
    → (complete i n o now es).0 ≡ update (has_id i) (completed_row o now) es
unfolding complete settle
completed_rows i n o now es c held = rw (held, settle)

held_of_done :
    (i : Ident) (n : ℕ) (o : Settlement) (now : Time) (es : List EventRow) (reaction : Option Ident)
    → (complete i n o now es).1 ≡ done reaction
    → (c : EventRow) × (find (holds i n) es ≡ some c)
unfolding complete settle
held_of_done i n o now es reaction h = elim (Option-cases (find (holds i n) es)) [
  | inl gone ↦ absurd (ground arith)
  | inr held ↦ held
]

-- If event ids are unique and an event was completed, then after any calls its row is the
-- completed one, and every claim on it is refused.
pub settled_forever :
    (cs : List Call) (es : List EventRow) (i : Ident) (n m : ℕ) (o : Settlement) (now : Time)
    (reaction : Option Ident)
    → HasUniqueIds es
    → (complete i n o now es).1 ≡ done reaction
    → let after = (complete i n o now es).0 in
      (row i (run cs after) ≡ row i after) × IsRefused i m (run cs after)
settled_forever cs es i n m o now reaction u h =
    let (c, held) = held_of_done i n o now es reaction h in
    let (e, found) = held_row i n es c held in
    let after : row i (update (has_id i) (completed_row o now) es) ≡ some (completed_row o now e) =
      row-update i (has_id i) (completed_row o now) es e (λ x. refl) found
      ∙ rw ((==_iff e.event_id i).1 (row-id i es e found)) in
    let (e', h', k, t, v) =
      run-Keeps cs (update (has_id i) (completed_row o now) es) i (completed_row o now e)
        (update-HasUniqueIds (has_id i) (completed_row o now) es (λ x. refl) u) after in
    subst (λ rows. (row i (run cs rows) ≡ row i rows) × IsRefused i m (run cs rows))
      (sym (completed_rows i n o now es c held))
      (
        h' ∙ ap some (t refl) ∙ sym after,
        IsRefused-count i m _ (
            not_held i m (run cs (update (has_id i) (completed_row o now) es)) e' v h'
              (ground (arith, t refl))),
      )
