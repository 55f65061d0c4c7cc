-- ===== src/Events/Reported.antt =====
-- The marks of a progress reply: made once, and never after the reply was begun.
use minori.Common.{
  ℕ, ◌≡◌, refl, ◌∙◌, inl, inr, List, some, Bool, true, false, ◌&&◌, arith, ◌==◌, ==_iff, is_none,
  is_some, Option-cases,
}
use minori.Common.Table.{count, update}
use minori.Common.Table.Counts.{find-none}
use minori.Common.Table.Keys.{count-and-le, count-and-and}
use minori.Domain.{Ident, Time}
use minori.Database.{EventRow, is_processing}
use minori.Events.{holds}
use minori.Events.Progress.{
  mark_progress_attempted, confirm_progress_sent, may_attempt_progress, may_confirm_progress,
}
use minori.Events.Calls.{Call, apply, run}
use minori.Events.Rows.{HasUniqueIds, has_id, row, row-id, row-update}
use minori.Events.Lives.{run-Keeps, apply-HasUniqueIds}
use minori.Events.Fencing.{boolean_update_refused}

narrow_none :
    (i : Ident) (n : ℕ) (q : EventRow → Bool) (es : List EventRow) (e : EventRow)
    → HasUniqueIds es
    → row i es ≡ some e
    → q e ≡ false
    → count (λ x. holds i n x && q x) es ≡ 0
narrow_none i n q es e u h bad =
    count-and-and (has_id i) (λ x. is_processing x.status && x.attempts == n) q es e (u i) h
    ∙ ground arith

attempted_row :
    (i : Ident) (n : ℕ) (es : List EventRow)
    → count (may_attempt_progress i n) es ≡ 1
    → (e : EventRow) × (row i es ≡ some e)
attempted_row i n es h = elim (Option-cases (row i es)) [
  | inl gone ↦ absurd (
      omega (
        arith,
        find-none (has_id i) es gone,
        count-and-le (has_id i) (λ x. is_processing x.status && x.attempts == n) es,
        count-and-le (holds i n)
            (λ x. is_none x.reply_attempted_at && is_none x.progress_attempted_at) es,
      ))
  | inr found ↦ found
]

progress_marked :
    (i : Ident) (n : ℕ) (es : List EventRow) (e : EventRow)
    → HasUniqueIds es
    → row i es ≡ some e
    → count (may_attempt_progress i n) es ≡ 1
    → may_attempt_progress i n e ≡ true
progress_marked i n es e u h one = ground (
  arith,
  row-id i es e h,
  count-and-and (has_id i) (λ x. is_processing x.status && x.attempts == n)
      (λ x. is_none x.reply_attempted_at && is_none x.progress_attempted_at) es e (u i) h,
)

-- If event ids are unique and a progress reply to an event was admitted, then after any calls no
-- claim is admitted another one.
progress_once :
    (cs : List Call) (es : List EventRow) (i : Ident) (n m : ℕ) (at now at' now' : Time)
    → HasUniqueIds es
    → (mark_progress_attempted i n at now es).1 ≡ true
    → let later = run cs (mark_progress_attempted i n at now es).0 in
      mark_progress_attempted i m at' now' later ≡ (later, false)
unfolding mark_progress_attempted apply
progress_once cs es i n m at now at' now' u h =
    let change : EventRow → EventRow =
      λ x. record x { progress_attempted_at = some at; updated_at = now } in
    let hit = may_attempt_progress i n in
    let one : count hit es ≡ 1 = (==_iff (count hit es) 1).0 h in
    let (e, found) = attempted_row i n es one in
    let marked = progress_marked i n es e u found one in
    let after = row-update i hit change es e (λ x. refl) found ∙ rw marked in
    let (e', h', k, _, v) =
      run-Keeps cs (update hit change es) i (change e)
        (apply-HasUniqueIds (Call.attempts_progress i n at now) es u) after in
    boolean_update_refused (may_attempt_progress i m) _ _
      (narrow_none i m _ _ e' v h' (ground arith))

-- If event ids are unique and the final reply to an event was begun, then after any calls no
-- progress reply to it is admitted or confirmed.
no_progress_after_reply :
    (cs : List Call) (es : List EventRow) (i : Ident) (m : ℕ) (e : EventRow) (at now : Time)
    (sent : Ident)
    → HasUniqueIds es
    → row i es ≡ some e
    → is_some e.reply_attempted_at ≡ true
    → (mark_progress_attempted i m at now (run cs es) ≡ (run cs es, false))
      × (confirm_progress_sent i m sent now (run cs es) ≡ (run cs es, false))
unfolding mark_progress_attempted confirm_progress_sent
no_progress_after_reply cs es i m e at now sent u h begun =
    let (e', h', k, _, v) = run-Keeps cs es i e u h in
    (
      boolean_update_refused (may_attempt_progress i m) _ (run cs es)
          (narrow_none i m _ (run cs es) e' v h' (ground arith)),
      boolean_update_refused (may_confirm_progress i m) _ (run cs es)
          (narrow_none i m _ (run cs es) e' v h' (ground arith)),
    )
