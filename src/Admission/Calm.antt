-- ===== src/Admission/Calm.antt =====
-- Calls of the event store that put no event in processing.
use mathlib.Core.List.{Memᴰ}
use minori.Common.{
  ℕ, ◌≤◌, ◌≡◌, refl, sym, ap, ◌∙◌, inl, inr, List, [], ◌∷◌, Bool, true, false, arith, if◌then◌else◌,
  Bool-cases, Option-cases, ◌==◌,
}
use minori.Common.Table.{exists, find, update}
use minori.Common.Table.Counts.{count-update-antitone, count-append}
use minori.Domain.{Ident, Time, NormalizedMessage}
use minori.Database.{EventRow, is_processing}
use minori.Events.{new_row, enqueue, holds, attach_processing_reaction, attached_row}
use minori.Events.Settle.{
  settle, complete, completed_row, mark_reply_uncertain, uncertain_row, retry, retried_row,
  recover_expired_leases, recovered_row,
}
use minori.Events.Progress.{
  mark_reply_started, reply_started_row, mark_progress_attempted, progress_row,
  confirm_progress_sent, progress_sent_row, mark_write_started, writing_row,
}
use minori.Events.Calls.{Call, apply}
use minori.Events.Capacity.{processing_events}
use minori.Events.Serial.{mem-update}
use minori.Events.Rows.{has_id}
use minori.Events.Turns.{append_mem}

-- Every event in processing was so before, in the same conversation.
pub record Calm (es es' : List EventRow) : Type 0 where
  pub fewer : processing_events es' ≤ processing_events es
  pub kept :
      (e' : EventRow)
      → Memᴰ e' es'
      → is_processing e'.status ≡ true
      → (e : EventRow) × Memᴰ e es
        × (is_processing e.status ≡ true)
        × (e.conversation_key ≡ e'.conversation_key)

Calm-refl : (es : List EventRow) → Calm es es
Calm-refl es = record { fewer = omega arith; kept = λ e m b. (e, m, b, refl) }

Calm-update :
    (p : EventRow → Bool) (f : EventRow → EventRow) (es : List EventRow)
    → ((e : EventRow) → is_processing (f e).status ≡ true → is_processing e.status ≡ true)
    → ((e : EventRow) → (f e).conversation_key ≡ e.conversation_key)
    → Calm es (update p f es)
Calm-update p f es antitone same = record {
  fewer = count-update-antitone (λ e. is_processing e.status) p f es antitone;
  kept = λ e' m b. came_from e' (mem-update p f es e' m) b;
}
  where
    came_from :
        (e' : EventRow)
        → (x : EventRow) × Memᴰ x es × (e' ≡ (if p x then f x else x))
        → is_processing e'.status ≡ true
        → (e : EventRow) × Memᴰ e es
          × (is_processing e.status ≡ true)
          × (e.conversation_key ≡ e'.conversation_key)
    came_from e' (x, k, q) b = elim (Bool-cases (p x)) [
      | inl hit ↦
          let q' : e' ≡ f x = q ∙ rw hit in
          (x, k, antitone x (rw q' at b), sym (same x) ∙ sym (ap (λ y. y.conversation_key) q'))
      | inr miss ↦
          let q' : e' ≡ x = q ∙ rw miss in
          (x, k, (rw q' at b), sym (ap (λ y. y.conversation_key) q'))
    ]

Calm-settle :
    (f : EventRow → EventRow) (j : Ident) (n : ℕ) (es : List EventRow)
    → ((e : EventRow) → is_processing (f e).status ≡ true → is_processing e.status ≡ true)
    → ((e : EventRow) → (f e).conversation_key ≡ e.conversation_key)
    → Calm es (settle f j n es).0
unfolding settle
Calm-settle f j n es antitone same = elim (Option-cases (find (holds j n) es)) [
  | inl gone ↦ rw (gone, settle) (Calm-refl es)
  | inr (c, held) ↦ rw (held, settle) (Calm-update (has_id j) f es antitone same)
]

Calm-enqueue :
    (m : NormalizedMessage) (now : Time) (es : List EventRow) → Calm es (enqueue m now es).0
unfolding enqueue
Calm-enqueue m now es = elim (Bool-cases (exists (has_id m.event_id) es)) [
  | inl known ↦ rw (known, enqueue) (Calm-refl es)
  | inr fresh ↦
      rw (fresh, enqueue)
        (record {
          fewer =
              ground (arith, count-append (λ e. is_processing e.status) es (new_row m now ∷ []));
          kept = λ e' k b. elim (append_mem es (new_row m now) e' k) [
            | inl old ↦ (e', old, b, refl)
            | inr new ↦ absurd (ground arith)
          ];
        })
]

Calm-guarded {ℓ} :
    {R : Type ℓ} (b : Bool) (r s : R) (es es' : List EventRow)
    → Calm es es'
    → let out : List EventRow × R = if b then (es, r) else (es', s) in Calm es out.0
Calm-guarded true r s es es' c = Calm-refl es
Calm-guarded false r s es es' c = c

abbrev pub is_claim : Call → Bool
is_claim (Call.claims locked limit lease now runs) = true
is_claim _ = false

pub apply-Calm : (c : Call) (es : List EventRow) → is_claim c ≡ false → Calm es (apply c es)
unfolding apply attach_processing_reaction complete mark_reply_uncertain retry
    recover_expired_leases mark_reply_started mark_progress_attempted confirm_progress_sent
    mark_write_started
apply-Calm (Call.enqueues m now) es h = Calm-enqueue m now es
apply-Calm (Call.claims locked limit lease now runs) es h = absurd (cc)
apply-Calm (Call.attaches j r now) es h =
    Calm-update _ (attached_row r now) es (λ e b. b) (λ e. refl)
apply-Calm (Call.completes j n s now) es h =
    Calm-settle (completed_row s now) j n es (λ e b. absurd (cc)) (λ e. refl)
apply-Calm (Call.marks_uncertain j n now) es h =
    Calm-settle (uncertain_row now) j n es (λ e b. absurd (cc)) (λ e. refl)
apply-Calm (Call.retries s j n code next now) es h =
    Calm-update _ (retried_row s code next now) es (λ e b. absurd (cc)) (λ e. refl)
apply-Calm (Call.recovers locked deadline limit now) es h =
    Calm-guarded (limit == 0) _ _ es _
      (Calm-update _ (recovered_row now) es (λ e b. absurd (cc)) (λ e. refl))
apply-Calm (Call.starts_reply j n key at p now) es h =
    Calm-update _ (reply_started_row key at p now) es (λ e b. b) (λ e. refl)
apply-Calm (Call.attempts_progress j n at now) es h =
    Calm-update _ (progress_row at now) es (λ e b. b) (λ e. refl)
apply-Calm (Call.confirms_progress j n m now) es h =
    Calm-update _ (progress_sent_row m now) es (λ e b. b) (λ e. refl)
apply-Calm (Call.starts_write j n now) es h =
    Calm-update _ (writing_row now) es (λ e b. b) (λ e. refl)
