-- ===== src/Events/Rows.antt =====
-- The row of one event under each call: it makes a step of its life, or stays.
use mathlib.Core.List.{Memᴰ}
use minori.Common.{
  ℕ, ◌≤◌, ◌≡◌, refl, sym, ap, subst, ◌∙◌, inl, inr, List, [], ◌∷◌, Option, some, Bool, true, false,
  ◌&&◌, not, arith, ◌==◌, ==_iff, if◌then◌else◌, Bool-cases, Option-cases, opt_leb, or_default,
}
use minori.Common.Table.{count, exists, find, update}
use minori.Common.Table.Counts.{find-some}
use minori.Common.Table.Keys.{map_some, find-update, find-append, find-and, picked-selected}
use minori.Domain.{Ident, Time}
use minori.Database.{EventRow, RunRow, is_queued, is_processing}
use minori.Events.{
  new_row, enqueue, claim_ready, claimed_row, candidates, eligible, earlier, holds,
  attach_processing_reaction, attached_row,
}
use minori.Events.Settle.{
  settle, complete, mark_reply_uncertain, retry, recover_expired_leases, recovered_row, retried_row,
  expired_leases, lease_earlier,
}
use minori.Events.Progress.{
  mark_reply_started, mark_progress_attempted, confirm_progress_sent, mark_write_started,
}
use minori.Events.Calls.{Call, RowStep, HasClaim, apply}

-- The primary key of `processed_events`.
abbrev pub has_id : Ident → EventRow → Bool
has_id i e = e.event_id == i

abbrev pub row : Ident → List EventRow → Option EventRow
row i es = find (has_id i) es

abbrev pub HasUniqueIds : List EventRow → Type 0
HasUniqueIds es = (i : Ident) → count (has_id i) es ≤ 1

-- After an update the row of `i` is the old one, or the changed one if `p` selects it.
pub row-update :
    (i : Ident) (p : EventRow → Bool) (f : EventRow → EventRow) (es : List EventRow) (e : EventRow)
    → ((x : EventRow) → (f x).event_id ≡ x.event_id)
    → row i es ≡ some e
    → row i (update p f es) ≡ some (if p e then f e else e)
row-update i p f es e same h =
    find-update (has_id i) p f es (λ x. ap (λ (n : ℕ). n == i) (same x))
    ∙ ap (map_some (λ (x : EventRow). if p x then f x else x)) h

-- An update makes a step of each row, if its change is a step wherever it selects.
pub update-RowStep :
    (i : Ident) (p : EventRow → Bool) (f : EventRow → EventRow) (es : List EventRow) (e : EventRow)
    → ((x : EventRow) → (f x).event_id ≡ x.event_id)
    → row i es ≡ some e
    → (p e ≡ true → RowStep e (f e))
    → (e' : EventRow) × (row i (update p f es) ≡ some e') × RowStep e e'
update-RowStep i p f es e same h st = elim (Bool-cases (p e)) [
  | inl hit ↦ (f e, row-update i p f es e same h ∙ rw hit, st hit)
  | inr miss ↦ (e, row-update i p f es e same h ∙ rw miss, RowStep.idle refl)
]

pub row-id : (i : Ident) (es : List EventRow) (e : EventRow) → row i es ≡ some e → e.event_id ≡ i
row-id i es e h = (==_iff e.event_id i).0 ((find-some (has_id i) es e h).0)

pub row-mem : (i : Ident) (es : List EventRow) (e : EventRow) → row i es ≡ some e → Memᴰ e es
row-mem i es e h = (find-some (has_id i) es e h).1

-- The row that the id alone selects is the one that holds the claim, ids being unique.
pub held_of_find :
    (i j : Ident) (n : ℕ) (es : List EventRow) (e c : EventRow)
    → HasUniqueIds es
    → row i es ≡ some e
    → find (holds j n) es ≡ some c
    → (e.event_id == j) ≡ true
    → HasClaim n e
held_of_find i j n es e c u h held hit = ground (
  arith,
  find-and (has_id j) (λ x. is_processing x.status && x.attempts == n) es e (u j)
      (subst (λ k. row k es ≡ some e) (sym (row-id i es e h) ∙ (==_iff e.event_id j).0 hit) h),
)

settle-RowStep :
    (i j : Ident) (n : ℕ) (f : EventRow → EventRow) (es : List EventRow) (e : EventRow)
    → HasUniqueIds es
    → ((x : EventRow) → (f x).event_id ≡ x.event_id)
    → row i es ≡ some e
    → (HasClaim n e → RowStep e (f e))
    → (e' : EventRow) × (row i (settle f j n es).0 ≡ some e') × RowStep e e'
unfolding settle
settle-RowStep i j n f es e u same h st = elim (Option-cases (find (holds j n) es)) [
  | inl gone ↦ (e, rw (gone, settle) h, RowStep.idle refl)
  | inr (c, held) ↦
      rw (held, settle)
        (update-RowStep i (has_id j) f es e same h
          (λ hit. st (held_of_find i j n es e c u h held hit)))
]

held_claim : (j : Ident) (n : ℕ) (e : EventRow) → holds j n e ≡ true → HasClaim n e
held_claim j n e h = ground arith

pub eligible_of_hit :
    (locked : EventRow → Bool) (limit : ℕ) (now : Time) (runs : List RunRow) (es : List EventRow)
    (e : EventRow)
    → HasUniqueIds es
    → Memᴰ e es
    → exists (λ c. c.event_id == e.event_id) (candidates locked limit now runs es) ≡ true
    → (eligible runs es now e && not (locked e)) ≡ true
unfolding candidates
eligible_of_hit locked limit now runs es e u m h =
    picked-selected (has_id e.event_id) _ earlier _ es e (u e.event_id) m
      ((==_iff e.event_id e.event_id).1 refl) h

pub queued_of_eligible :
    (runs : List RunRow) (es : List EventRow) (now : Time) (e : EventRow) (l : Bool)
    → (eligible runs es now e && not l) ≡ true
    → is_queued e.status ≡ true
unfolding eligible
queued_of_eligible runs es now e l h = ground arith

pub late_of_hit :
    (locked : EventRow → Bool) (deadline : Time) (limit : ℕ) (es : List EventRow) (e : EventRow)
    → HasUniqueIds es
    → Memᴰ e es
    → exists (λ c. c.event_id == e.event_id) (expired_leases locked deadline limit es) ≡ true
    → (is_processing e.status && opt_leb e.leased_until deadline) ≡ true
unfolding expired_leases
late_of_hit locked deadline limit es e u m h = ground (
  arith,
  picked-selected (has_id e.event_id)
      (λ x. (is_processing x.status && opt_leb x.leased_until deadline) && not (locked x))
      lease_earlier limit es e (u e.event_id) m ((==_iff e.event_id e.event_id).1 refl) h,
)

-- A method that returns early where its limit is 0.
guarded-RowStep {ℓ} :
    {R : Type ℓ} (b : Bool) (r s : R) (i : Ident) (es es' : List EventRow) (e : EventRow)
    → row i es ≡ some e
    → (e' : EventRow) × (row i es' ≡ some e') × RowStep e e'
    → let out : List EventRow × R = if b then (es, r) else (es', s) in
      (e' : EventRow) × (row i out.0 ≡ some e') × RowStep e e'
guarded-RowStep true r s i es es' e h st = (e, h, RowStep.idle refl)
guarded-RowStep false r s i es es' e h st = st

-- If event ids are unique, every call moves the row of each event by one step of its life, under
-- the guard of the step, or leaves it alone.
pub apply-RowStep :
    (c : Call) (es : List EventRow) (i : Ident) (e : EventRow)
    → HasUniqueIds es
    → row i es ≡ some e
    → (e' : EventRow) × (row i (apply c es) ≡ some e') × RowStep e e'
unfolding apply enqueue claim_ready attach_processing_reaction complete mark_reply_uncertain retry
    recover_expired_leases mark_reply_started mark_progress_attempted confirm_progress_sent
    mark_write_started
apply-RowStep (Call.enqueues m now) es i e u h =
    (e, ground (arith, find-append (has_id i) es (new_row m now ∷ []), h), RowStep.idle refl)
apply-RowStep (Call.claims locked limit lease now runs) es i e u h =
    guarded-RowStep (limit == 0) _ _ i es _ e h (
      update-RowStep i _ (claimed_row lease now) es e (λ x. refl) h
        (λ hit.
          RowStep.claimed lease now
            (queued_of_eligible runs es now e (locked e)
              (eligible_of_hit locked limit now runs es e u (row-mem i es e h) hit))
            refl))
apply-RowStep (Call.attaches j r now) es i e u h =
    update-RowStep i _ (attached_row r now) es e (λ x. refl) h
      (λ hit. RowStep.attached r now (ground arith) (ground arith) refl)
apply-RowStep (Call.completes j n o now) es i e u h =
    settle-RowStep i j n _ es e u (λ x. refl) h (λ k. RowStep.settled n o now k refl)
apply-RowStep (Call.marks_uncertain j n now) es i e u h =
    settle-RowStep i j n _ es e u (λ x. refl) h (λ k. RowStep.unsettled n now k refl)
apply-RowStep (Call.retries o j n code next now) es i e u h =
    update-RowStep i _ (retried_row o code next now) es e (λ x. refl) h
      (λ hit. RowStep.retried n o code next now (held_claim j n e hit) refl)
apply-RowStep (Call.recovers locked deadline limit now) es i e u h =
    guarded-RowStep (limit == 0) _ _ i es _ e h (
      update-RowStep i _ (recovered_row now) es e (λ x. refl) h
        (λ hit.
          RowStep.recovered now
            (ground (arith, late_of_hit locked deadline limit es e u (row-mem i es e h) hit)) refl))
apply-RowStep (Call.starts_reply j n key at p now) es i e u h =
    update-RowStep i _ _ es e (λ x. refl) h
      (λ hit. RowStep.reply_started n key at p now (held_claim j n e hit) refl)
apply-RowStep (Call.attempts_progress j n at now) es i e u h =
    update-RowStep i _ _ es e (λ x. refl) h
      (λ hit. RowStep.progress_attempted n at now (ground arith) (ground arith) (ground arith) refl)
apply-RowStep (Call.confirms_progress j n m now) es i e u h =
    update-RowStep i _ _ es e (λ x. refl) h
      (λ hit. RowStep.progress_confirmed n m now (ground arith) (ground arith) (ground arith) refl)
apply-RowStep (Call.starts_write j n now) es i e u h =
    update-RowStep i _ _ es e (λ x. refl) h
      (λ hit.
        RowStep.write_started n (or_default e.write_started_at now) now (held_claim j n e hit) refl)
