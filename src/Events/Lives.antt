-- ===== src/Events/Lives.antt =====
-- What holds along every life of an event, from one row step to any history of calls.
use minori.Common.Table.{count, exists, find, update}
use minori.Common.Table.Counts.{count-update-eq, count-append, count-zero_of_exists}
use minori.Common.{
  Option-cases, ℕ, ◌≤◌, ◌≡◌, refl, sym, ap, subst, ◌∙◌, inl, inr, List, [], ◌∷◌, some, Bool, true,
  false, arith, ◌==◌, ==_iff, if◌then◌else◌, Bool-cases, is_some,
}
use minori.Domain.{Ident, Time, NormalizedMessage}
use minori.Database.{EventRow, is_active}
use minori.Events.{new_row, enqueue, claim_ready, holds, attach_processing_reaction}
use minori.Events.Settle.{
  settle, complete, mark_reply_uncertain, retry, recover_expired_leases, retried_row,
}
use minori.Events.Progress.{
  mark_reply_started, mark_progress_attempted, confirm_progress_sent, mark_write_started,
}
use minori.Events.Calls.{Call, RowStep, apply, run}
use minori.Events.Rows.{HasUniqueIds, has_id, row, apply-RowStep}

abbrev pub IsTerminal : EventRow → Type 0
IsTerminal e = is_active e.status ≡ false

-- A completed or failed event is never touched again.
terminal_step : (e e' : EventRow) → RowStep e e' → IsTerminal e → e' ≡ e
terminal_step e e' (RowStep.idle q) t = q
terminal_step e e' (RowStep.claimed lease now a q) t = absurd (ground arith)
terminal_step e e' (RowStep.attached r now a f q) t = absurd (ground arith)
terminal_step e e' (RowStep.settled n o now k q) t = absurd (ground arith)
terminal_step e e' (RowStep.unsettled n now k q) t = absurd (ground arith)
terminal_step e e' (RowStep.retried n o code next now k q) t = absurd (ground arith)
terminal_step e e' (RowStep.recovered now a q) t = absurd (ground arith)
terminal_step e e' (RowStep.reply_started n key at p now k q) t = absurd (ground arith)
terminal_step e e' (RowStep.progress_attempted n at now k f g q) t = absurd (ground arith)
terminal_step e e' (RowStep.progress_confirmed n m now k f g q) t = absurd (ground arith)
terminal_step e e' (RowStep.write_started n w now k q) t = absurd (ground arith)

-- What a step keeps: the message; the attempts never fall; a reply that was begun,
-- a progress reply that was attempted and a write that was begun stay so.
pub record Keeps (e e' : EventRow) : Type 0 where
  pub payload_stays : e'.payload ≡ e.payload
  pub attempts_grow : e.attempts ≤ e'.attempts
  pub reply_stays : is_some e.reply_attempted_at ≡ true → is_some e'.reply_attempted_at ≡ true
  pub progress_stays :
      is_some e.progress_attempted_at ≡ true → e'.progress_attempted_at ≡ e.progress_attempted_at
  pub write_stays : is_some e.write_started_at ≡ true → is_some e'.write_started_at ≡ true

step-Keeps : (e e' : EventRow) → RowStep e e' → Keeps e e'
step-Keeps e e' (RowStep.idle q) = ground arith
step-Keeps e e' (RowStep.claimed lease now a q) = ground arith
step-Keeps e e' (RowStep.attached r now a f q) = ground arith
step-Keeps e e' (RowStep.settled n o now k q) = ground arith
step-Keeps e e' (RowStep.unsettled n now k q) = ground arith
step-Keeps e e' (RowStep.retried n o code next now k q) = ground arith
step-Keeps e e' (RowStep.recovered now a q) = ground arith
step-Keeps e e' (RowStep.reply_started n key at p now k q) = ground arith
step-Keeps e e' (RowStep.progress_attempted n at now k f g q) = ground arith
step-Keeps e e' (RowStep.progress_confirmed n m now k f g q) = ground arith
step-Keeps e e' (RowStep.write_started n w now k q) = ground arith

Keeps-trans : (a b c : EventRow) → Keeps a b → Keeps b c → Keeps a c
Keeps-trans a b c h k = ground arith

-- Ids stay unique: a call inserts a fresh id, or changes rows and keeps their ids.
pub update-HasUniqueIds :
    (p : EventRow → Bool) (f : EventRow → EventRow) (es : List EventRow)
    → ((x : EventRow) → (f x).event_id ≡ x.event_id)
    → HasUniqueIds es
    → HasUniqueIds (update p f es)
update-HasUniqueIds p f es same u i =
    rw (count-update-eq (has_id i) p f es (λ x. ap (λ (n : ℕ). n == i) (same x))) (u i)

settle-HasUniqueIds :
    (f : EventRow → EventRow) (j : Ident) (n : ℕ) (es : List EventRow)
    → ((x : EventRow) → (f x).event_id ≡ x.event_id)
    → HasUniqueIds es
    → HasUniqueIds (settle f j n es).0
unfolding settle
settle-HasUniqueIds f j n es same u = elim (Option-cases (find (holds j n) es)) [
  | inl gone ↦ rw (gone, settle) u
  | inr (c, held) ↦ rw (held, settle) (update-HasUniqueIds (has_id j) f es same u)
]

guarded-HasUniqueIds {ℓ} :
    {R : Type ℓ} (b : Bool) (r s : R) (es es' : List EventRow)
    → HasUniqueIds es
    → HasUniqueIds es'
    → let out : List EventRow × R = if b then (es, r) else (es', s) in HasUniqueIds out.0
guarded-HasUniqueIds true r s es es' u v = u
guarded-HasUniqueIds false r s es es' u v = v

pub enqueue-HasUniqueIds :
    (m : NormalizedMessage) (now : Time) (es : List EventRow)
    → HasUniqueIds es
    → HasUniqueIds (enqueue m now es).0
unfolding enqueue
enqueue-HasUniqueIds m now es u = elim (Bool-cases (exists (has_id m.event_id) es)) [
  | inl known ↦ rw (known, enqueue) u
  | inr fresh ↦
      rw (fresh, enqueue)
        (λ i. ground (
          arith,
          count-append (has_id i) es (new_row m now ∷ []),
          count-zero_of_exists (has_id m.event_id) es fresh,
          u i,
          fresh_count m now es i fresh,
        ))
]
  where
    fresh_count :
        (m : NormalizedMessage) (now : Time) (es : List EventRow) (i : Ident)
        → exists (has_id m.event_id) es ≡ false
        → (m.event_id == i) ≡ true
        → count (has_id i) es ≡ 0
    fresh_count m now es i fresh hit =
        subst (λ k. count (has_id k) es ≡ 0) ((==_iff m.event_id i).0 hit)
          (count-zero_of_exists (has_id m.event_id) es fresh)

pub apply-HasUniqueIds :
    (c : Call) (es : List EventRow) → HasUniqueIds es → HasUniqueIds (apply c es)
unfolding apply claim_ready attach_processing_reaction complete mark_reply_uncertain retry
    recover_expired_leases mark_reply_started mark_progress_attempted confirm_progress_sent
    mark_write_started
apply-HasUniqueIds (Call.enqueues m now) es u = enqueue-HasUniqueIds m now es u
apply-HasUniqueIds (Call.claims locked limit lease now runs) es u =
    guarded-HasUniqueIds (limit == 0) _ _ es _ u (update-HasUniqueIds _ _ es (λ x. refl) u)
apply-HasUniqueIds (Call.attaches j r now) es u = update-HasUniqueIds _ _ es (λ x. refl) u
apply-HasUniqueIds (Call.completes j n o now) es u = settle-HasUniqueIds _ j n es (λ x. refl) u
apply-HasUniqueIds (Call.marks_uncertain j n now) es u = settle-HasUniqueIds _ j n es (λ x. refl) u
apply-HasUniqueIds (Call.retries o j n code next now) es u =
    update-HasUniqueIds _ (retried_row o code next now) es (λ x. refl) u
apply-HasUniqueIds (Call.recovers locked deadline limit now) es u =
    guarded-HasUniqueIds (limit == 0) _ _ es _ u (update-HasUniqueIds _ _ es (λ x. refl) u)
apply-HasUniqueIds (Call.starts_reply j n key at p now) es u =
    update-HasUniqueIds _ _ es (λ x. refl) u
apply-HasUniqueIds (Call.attempts_progress j n at now) es u =
    update-HasUniqueIds _ _ es (λ x. refl) u
apply-HasUniqueIds (Call.confirms_progress j n m now) es u =
    update-HasUniqueIds _ _ es (λ x. refl) u
apply-HasUniqueIds (Call.starts_write j n now) es u = update-HasUniqueIds _ _ es (λ x. refl) u

-- The row of an event after any history of calls.
pub run-Keeps :
    (cs : List Call) (es : List EventRow) (i : Ident) (e : EventRow)
    → HasUniqueIds es
    → row i es ≡ some e
    → (e' : EventRow) × (row i (run cs es) ≡ some e')
      × Keeps e e'
      × (IsTerminal e → e' ≡ e)
      × HasUniqueIds (run cs es)
unfolding run
run-Keeps [] es i e u h = (e, h, step-Keeps e e (RowStep.idle refl), (λ t. refl), u)
run-Keeps (c ∷ cs) es i e u h =
    let (d, hd, st) = apply-RowStep c es i e u h in
    let (e', he, k, t, v) = run-Keeps cs (apply c es) i d (apply-HasUniqueIds c es u) hd in
    (
      e',
      he,
      Keeps-trans e d e' (step-Keeps e d st) k,
      (λ still.
          t (subst IsTerminal (sym (terminal_step e d st still)) still)
          ∙ terminal_step e d st still),
      v,
    )
