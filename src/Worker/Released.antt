-- ===== src/Worker/Released.antt =====
-- A processing that returns has given up its claim, whatever others do meanwhile.
use minori.Common.{
  ℕ, suc, ◌≤◌, ◌≡◌, refl, sym, subst, ◌∙◌, inl, inr, String, List, [], ◌∷◌, ◌++◌, some, Bool, true,
  false, ◌&&◌, ◌==◌, arith, Bool-cases, Option-cases, ==_iff,
}
use minori.Common.Table.{count, exists, find, update}
use minori.Common.Table.Counts.{count-pos_of_mem, find-none}
use minori.Domain.{Ident}
use minori.Database.{EventRow, is_processing}
use minori.Events.{StoredEvent, holds}
use minori.Events.Settle.{settle, complete, mark_reply_uncertain, retry, fenced_update}
use minori.Events.Calls.{Call, RowStep, apply, run}
use minori.Events.Rows.{HasUniqueIds, has_id, row, row-id, row-mem, apply-RowStep}
use minori.Events.Lives.{run-Keeps, apply-HasUniqueIds}
use minori.Worker.{Answers, Action, marks_uncertain, completes, retries}
use minori.Worker.Process.{process}
use minori.Worker.Endings.{is_settlement, is_returned, returned_is_settled}
use minori.Worker.Calls.{Around, calls_of, all_calls, run-append}

-- The event is not in processing by claim `n`, and this claim is not to come.
abbrev pub IsReleased : ℕ → EventRow → Type 0
IsReleased n e = (n ≤ e.attempts) × ((is_processing e.status && e.attempts == n) ≡ false)

step-IsReleased : (n : ℕ) (e e' : EventRow) → RowStep e e' → IsReleased n e → IsReleased n e'
step-IsReleased n e e' (RowStep.idle q) h = ground arith
step-IsReleased n e e' (RowStep.claimed lease now a q) h = ground arith
step-IsReleased n e e' (RowStep.attached r now a f q) h = ground arith
step-IsReleased n e e' (RowStep.settled m o now k q) h = ground arith
step-IsReleased n e e' (RowStep.unsettled m now k q) h = ground arith
step-IsReleased n e e' (RowStep.retried m o code next now k q) h = ground arith
step-IsReleased n e e' (RowStep.recovered now a q) h = ground arith
step-IsReleased n e e' (RowStep.reply_started m key at p now k q) h = ground arith
step-IsReleased n e e' (RowStep.progress_attempted m at now k f g q) h = ground arith
step-IsReleased n e e' (RowStep.progress_confirmed m i now k f g q) h = ground arith
step-IsReleased n e e' (RowStep.write_started m w now k q) h = ground arith

run-IsReleased :
    (cs : List Call) (es : List EventRow) (i : Ident) (n : ℕ) (e : EventRow)
    → HasUniqueIds es
    → row i es ≡ some e
    → IsReleased n e
    → (e' : EventRow) × (row i (run cs es) ≡ some e') × IsReleased n e'
unfolding run
run-IsReleased [] es i n e u h released = (e, h, released)
run-IsReleased (c ∷ cs) es i n e u h released =
    let (d, hd, step) = apply-RowStep c es i e u h in
    run-IsReleased cs (apply c es) i n d (apply-HasUniqueIds c es u) hd
      (step-IsReleased n e d step released)

-- An update leaves no row that fulfils `p`, if it changes all that do, and to one that does not.
count-update-zero :
    (p q : EventRow → Bool) (f : EventRow → EventRow)
    → ((x : EventRow) → q x ≡ true → p (f x) ≡ false)
    → ((x : EventRow) → q x ≡ false → p x ≡ false)
    → (es : List EventRow) → count p (update q f es) ≡ 0
count-update-zero p q f hit miss [] = refl
count-update-zero p q f hit miss (x ∷ xs) = elim (Bool-cases (q x)) [
  | inl e ↦ rw e (rw (hit x e) (count-update-zero p q f hit miss xs))
  | inr e ↦ rw e (rw (miss x e) (count-update-zero p q f hit miss xs))
]

settle-count :
    (f : EventRow → EventRow) (i : Ident) (n : ℕ) (es : List EventRow)
    → ((x : EventRow) → is_processing (f x).status ≡ false)
    → count (holds i n) (settle f i n es).0 ≡ 0
unfolding settle
settle-count f i n es over = elim (Option-cases (find (holds i n) es)) [
  | inl e ↦ rw (e, settle) (find-none (holds i n) es e)
  | inr (c, e) ↦
      rw (e, settle)
        (count-update-zero (holds i n) (has_id i) f (λ x h. rw (over x) (ground arith))
          (λ x h. ground arith) es)
]

-- `complete`, `markReplyUncertain` or `retry` ends the claim, if it held, and is refused if it did not.
settlement-count :
    (w : Around) (e : StoredEvent) (k : ℕ) (a : Action) (es : List EventRow)
    → is_settlement a ≡ true
    → count (holds e.event_id e.attempts) (run (calls_of w e k a) es) ≡ 0
unfolding run apply complete mark_reply_uncertain retry fenced_update
settlement-count w e k (completes message_id code) es h =
    settle-count _ e.event_id e.attempts es (λ x. refl)
settlement-count w e k marks_uncertain es h = settle-count _ e.event_id e.attempts es (λ x. refl)
settlement-count w e k (retries code next) es h =
    count-update-zero (holds e.event_id e.attempts) (holds e.event_id e.attempts) _
      (λ x h. ground arith) (λ x h. h) es
settlement-count w e k _ es h = absurd (cc)

not_held_row :
    (i : Ident) (n : ℕ) (es : List EventRow) (r : EventRow)
    → row i es ≡ some r
    → count (holds i n) es ≡ 0
    → (is_processing r.status && r.attempts == n) ≡ false
not_held_row i n es r h none_held = elim (Bool-cases (is_processing r.status && r.attempts == n)) [
  | inr e ↦ e
  | inl e ↦ absurd (
      omega (
        arith,
        none_held,
        count-pos_of_mem (holds i n) es r (row-mem i es r h)
            (rw (row-id i es r h) (rw ((==_iff i i).1 refl) e)),
      ))
]

calls-IsReleased :
    (w : Around) (e : StoredEvent) (k : ℕ) (actions : List Action) (es : List EventRow)
    (r : EventRow)
    → HasUniqueIds es
    → row e.event_id es ≡ some r
    → e.attempts ≤ r.attempts
    → exists is_settlement actions ≡ true
    → (r' : EventRow) × (row e.event_id (run (all_calls w e k actions) es) ≡ some r')
      × IsReleased e.attempts r'
calls-IsReleased w e k [] es r u h began settled = absurd (cc)
calls-IsReleased w e k (a ∷ later) es r u h began settled =
    let between = run (w.others k) es in
    let after = run (calls_of w e k a) between in
    let (r1, h1, kept1, t1, u1) = run-Keeps (w.others k) es e.event_id r u h in
    let (r2, h2, kept2, t2, u2) = run-Keeps (calls_of w e k a) between e.event_id r1 u1 h1 in
    let same : run (all_calls w e k (a ∷ later)) es ≡ run (all_calls w e (suc k) later) after =
      run-append (w.others k) (calls_of w e k a ++ all_calls w e (suc k) later) es
      ∙ run-append (calls_of w e k a) (all_calls w e (suc k) later) between in
    let still : e.attempts ≤ r2.attempts = ground arith in
    subst (λ rows. (r' : EventRow) × (row e.event_id rows ≡ some r') × IsReleased e.attempts r')
      (sym same)
      (elim (Bool-cases (is_settlement a)) [
        | inl now ↦
            run-IsReleased (all_calls w e (suc k) later) after e.event_id e.attempts r2 u2 h2 (
              still,
              not_held_row e.event_id e.attempts after r2 h2 (settlement-count w e k a between now),
            )
        | inr not_yet ↦
            calls-IsReleased w e (suc k) later after r2 u2 h2 still (rw not_yet at settled)
      ])

-- If event ids are unique and an event counts at least the attempt of a worker's claim, as it does from
-- that claim on, then after a processing of it that returns without an error the event is not in
-- processing by this claim, whatever the worker was answered and whatever others did meanwhile.
pub returned_claim-IsReleased :
    (w : Around) (stable_reply_key : Ident → String) (reply_deduplication_ms : ℕ) (e : StoredEvent)
    (a : Answers) (es : List EventRow) (r : EventRow)
    → HasUniqueIds es
    → row e.event_id es ≡ some r
    → e.attempts ≤ r.attempts
    → is_returned (process stable_reply_key reply_deduplication_ms e a).1 ≡ true
    → (r' : EventRow) × (row e.event_id
          (run (all_calls w e 0 (process stable_reply_key reply_deduplication_ms e a).0) es)
        ≡ some r')
      × IsReleased e.attempts r'
returned_claim-IsReleased w stable_reply_key reply_deduplication_ms e a es r u h began returned =
    calls-IsReleased w e 0 (process stable_reply_key reply_deduplication_ms e a).0 es r u h began
      (returned_is_settled stable_reply_key reply_deduplication_ms e a returned)
