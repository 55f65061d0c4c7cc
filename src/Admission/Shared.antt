-- ===== src/Admission/Shared.antt =====
-- What holds of the shared slots after any history.
use mathlib.Core.List.{Memᴰ}
use minori.Common.{
  ℕ, ◌+◌, ◌≤◌, ◌≡◌, ◌≢◌, sym, ap, subst, ◌∙◌, inl, inr, List, Bool, true, false, ◌&&◌, not, arith,
  if◌then◌else◌, Bool-cases, ◌==◌,
}
use minori.Common.Table.{exists, update}
use minori.Common.Table.Counts.{count-zero_of_exists, count-pos_of_mem}
use minori.Domain.{Time}
use minori.Database.{EventRow, RunRow, Database, is_processing, run_is_processing}
use minori.Events.{claim_ready, candidates, claimed_row, eligible, agent_admission_concurrency}
use minori.Events.Calls.{Call, apply}
use minori.Events.Rows.{HasUniqueIds, eligible_of_hit}
use minori.Events.Lives.{apply-HasUniqueIds}
use minori.Events.Capacity.{processing_events, processing_runs, claim_capacity}
use minori.Events.Serial.{mem-update}
use minori.Admission.{with_events}
use minori.Admission.Calm.{Calm}
use minori.Admission.Quiet.{HasUniqueRuns, Peaceful}

-- At most four invocations, at most one of them a scheduled run, and never a message and a
-- scheduled run for the same chat.
pub record IsAdmitted (db : Database) : Type 0 where
  pub event_ids : HasUniqueIds db.events
  pub run_ids : HasUniqueRuns db.runs
  pub capacity : processing_events db.events + processing_runs db.runs ≤ agent_admission_concurrency
  pub single_run : processing_runs db.runs ≤ 1
  pub apart :
      (e : EventRow) (r : RunRow)
      → Memᴰ e db.events
      → Memᴰ r db.runs
      → is_processing e.status ≡ true
      → run_is_processing r.status ≡ true
      → e.conversation_key ≢ r.result_target.chat_id

pub Peaceful-IsAdmitted : (db db' : Database) → Peaceful db db' → IsAdmitted db → IsAdmitted db'
Peaceful-IsAdmitted db db' p a = record {
  event_ids = subst HasUniqueIds (sym p.same_events) a.event_ids;
  run_ids = p.quiet_runs.ids a.run_ids;
  capacity = rw p.same_events (omega (arith, a.capacity, p.quiet_runs.fewer));
  single_run = omega (arith, a.single_run, p.quiet_runs.fewer);
  apart = λ e r' me mr be br.
      let (r, m, was, same) = p.quiet_runs.kept r' mr br in
      λ clash. a.apart e r (subst (Memᴰ e) p.same_events me) m be was (clash ∙ sym same);
}

pub Calm-IsAdmitted :
    (db : Database) (es : List EventRow)
    → Calm db.events es
    → HasUniqueIds es
    → IsAdmitted db
    → IsAdmitted (with_events db es)
Calm-IsAdmitted db es c u a = record {
  event_ids = u;
  run_ids = a.run_ids;
  capacity = omega (arith, a.capacity, c.fewer);
  single_run = a.single_run;
  apart = λ e' r me mr be br.
      let (e, m, was, same) = c.kept e' me be in λ clash. a.apart e r m mr was br (same ∙ clash);
}

-- A ready event belongs to no chat that a run is processing.
no_run_of_eligible :
    (runs : List RunRow) (es : List EventRow) (now : Time) (e : EventRow) (l : Bool) (r : RunRow)
    → (eligible runs es now e && not l) ≡ true
    → Memᴰ r runs
    → run_is_processing r.status ≡ true
    → e.conversation_key ≢ r.result_target.chat_id
unfolding eligible
no_run_of_eligible runs es now e l r h m b clash = absurd (
    ground (
      arith,
      count-zero_of_exists
          (λ r. run_is_processing r.status && r.result_target.chat_id == e.conversation_key) runs,
      count-pos_of_mem
          (λ r. run_is_processing r.status && r.result_target.chat_id == e.conversation_key) runs r
          m,
    ))

claim-IsApart :
    (locked : EventRow → Bool) (limit : ℕ) (lease now : Time) (db : Database)
    → IsAdmitted db
    → (e : EventRow) (r : RunRow)
    → Memᴰ e (
        update
          (λ x.
            exists (λ c. c.event_id == x.event_id) (candidates locked limit now db.runs db.events))
          (claimed_row lease now)
          db.events)
    → Memᴰ r db.runs
    → is_processing e.status ≡ true
    → run_is_processing r.status ≡ true
    → e.conversation_key ≢ r.result_target.chat_id
claim-IsApart locked limit lease now db a e r me mr be br =
    came_from (mem-update hit (claimed_row lease now) db.events e me)
  where
    hit : EventRow → Bool
    hit x = exists (λ c. c.event_id == x.event_id) (candidates locked limit now db.runs db.events)

    came_from :
        (x : EventRow) × Memᴰ x db.events × (e ≡ (if hit x then claimed_row lease now x else x))
        → e.conversation_key ≢ r.result_target.chat_id
    came_from (x, k, q) = elim (Bool-cases (hit x)) [
      | inl taken ↦
          let q' : e ≡ claimed_row lease now x = q ∙ rw taken in
          λ clash.
            no_run_of_eligible db.runs db.events now x (locked x) r
              (eligible_of_hit locked limit now db.runs db.events x a.event_ids k taken) mr br
              (sym (ap (λ y. y.conversation_key) q') ∙ clash)
      | inr left ↦
          let q' : e ≡ x = q ∙ rw left in
          λ clash. a.apart x r k mr (rw q' at be) br (sym (ap (λ y. y.conversation_key) q') ∙ clash)
    ]

-- No event in processing is in the chat of a run in processing.
abbrev IsApart : List EventRow → List RunRow → Type 0
IsApart es rs =
    (e : EventRow) (r : RunRow)
    → Memᴰ e es
    → Memᴰ r rs
    → is_processing e.status ≡ true
    → run_is_processing r.status ≡ true
    → e.conversation_key ≢ r.result_target.chat_id

guarded-IsApart {ℓ} :
    {R : Type ℓ} (b : Bool) (r s : R) (es es' : List EventRow) (rs : List RunRow)
    → IsApart es rs
    → IsApart es' rs
    → let out : List EventRow × R = if b then (es, r) else (es', s) in IsApart out.0 rs
guarded-IsApart true r s es es' rs h k = h
guarded-IsApart false r s es es' rs h k = k

claim_ready-IsApart :
    (locked : EventRow → Bool) (limit : ℕ) (lease now : Time) (db : Database)
    → IsAdmitted db
    → IsApart (claim_ready locked limit lease now db.runs db.events).0 db.runs
unfolding claim_ready
claim_ready-IsApart locked limit lease now db a =
    guarded-IsApart (limit == 0) _ _ db.events _ db.runs a.apart
      (claim-IsApart locked limit lease now db a)

claim_ready-ids :
    (locked : EventRow → Bool) (limit : ℕ) (lease now : Time) (db : Database)
    → IsAdmitted db
    → HasUniqueIds (claim_ready locked limit lease now db.runs db.events).0
unfolding apply
claim_ready-ids locked limit lease now db a =
    apply-HasUniqueIds (Call.claims locked limit lease now db.runs) db.events a.event_ids

pub claim_events :
    (locked : EventRow → Bool) (limit : ℕ) (lease now : Time) (db : Database)
    → IsAdmitted db
    → IsAdmitted (with_events db (claim_ready locked limit lease now db.runs db.events).0)
claim_events locked limit lease now db a = record {
  event_ids = claim_ready-ids locked limit lease now db a;
  run_ids = a.run_ids;
  capacity =
      omega
        (arith, a.capacity, claim_capacity locked limit lease now db.runs db.events a.event_ids);
  single_run = a.single_run;
  apart = claim_ready-IsApart locked limit lease now db a;
}
