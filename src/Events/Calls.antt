-- ===== src/Events/Calls.antt =====
-- The store as a state machine: one constructor for each call that changes `processed_events`,
-- and what each call may do to a single row.
use minori.Common.{ℕ, ◌≡◌, List, [], ◌∷◌, Option, none, some, Bool, true, String}
use minori.Domain.{Ident, Time, NormalizedMessage}
use minori.Database.{PreparedReplyKind, EventRow, RunRow, is_queued, is_processing, is_active}
use minori.Events.{EventStoreOptions, enqueue, claim_ready, claimed_row, attach_processing_reaction}
use minori.Events.Settle.{
  Settlement, completed_row, uncertain_row, retried_row, recovered_row, complete,
  mark_reply_uncertain, retry, recover_expired_leases,
}
use minori.Events.Progress.{
  reply_started_row, mark_reply_started, mark_progress_attempted, confirm_progress_sent,
  mark_write_started,
}

pub data Call : Type 0 where
  enqueues : NormalizedMessage → Time → Call
  claims : (EventRow → Bool) → ℕ → Time → Time → List RunRow → Call
  attaches : Ident → Ident → Time → Call
  completes : Ident → ℕ → Settlement → Time → Call
  marks_uncertain : Ident → ℕ → Time → Call
  retries : EventStoreOptions → Ident → ℕ → String → Time → Time → Call
  recovers : (EventRow → Bool) → Time → ℕ → Time → Call
  starts_reply : Ident → ℕ → String → Time → Option (String × PreparedReplyKind) → Time → Call
  attempts_progress : Ident → ℕ → Time → Time → Call
  confirms_progress : Ident → ℕ → Ident → Time → Call
  starts_write : Ident → ℕ → Time → Call

-- The rows after a call.
unfoldable pub apply : Call → List EventRow → List EventRow
apply (enqueues m now) es = (enqueue m now es).0
apply (claims locked limit lease now runs) es = (claim_ready locked limit lease now runs es).0
apply (attaches i r now) es = (attach_processing_reaction i r now es).0
apply (completes i n o now) es = (complete i n o now es).0
apply (marks_uncertain i n now) es = (mark_reply_uncertain i n now es).0
apply (retries o i n code next now) es = (retry o i n code next now es).0
apply (recovers locked deadline limit now) es =
    (recover_expired_leases locked deadline limit now es).0
apply (starts_reply i n key at prepared now) es = (mark_reply_started i n key at prepared now es).0
apply (attempts_progress i n at now) es = (mark_progress_attempted i n at now es).0
apply (confirms_progress i n m now) es = (confirm_progress_sent i n m now es).0
apply (starts_write i n now) es = (mark_write_started i n now es).0

-- A history is any interleaving of calls by any number of workers.
unfoldable pub run : List Call → List EventRow → List EventRow
unfolding apply
run [] es = es
run (c ∷ cs) es = run cs (apply c es)

-- The life of one row. `HasClaim n e`: attempt `n` holds the row.
abbrev pub HasClaim : ℕ → EventRow → Type 0
HasClaim n e = (is_processing e.status ≡ true) × (e.attempts ≡ n)

pub data RowStep (e e' : EventRow) : Type 0 where
  idle : e' ≡ e → RowStep e e'
  claimed :
      (lease now : Time) → is_queued e.status ≡ true → e' ≡ claimed_row lease now e → RowStep e e'
  attached :
      (r : Ident) (now : Time)
      → is_active e.status ≡ true
      → e.processing_reaction_id ≡ none
      → e' ≡ record e { processing_reaction_id = some r; updated_at = now }
      → RowStep e e'
  settled :
      (n : ℕ) (o : Settlement) (now : Time)
      → HasClaim n e
      → e' ≡ completed_row o now e
      → RowStep e e'
  unsettled : (n : ℕ) (now : Time) → HasClaim n e → e' ≡ uncertain_row now e → RowStep e e'
  retried :
      (n : ℕ) (o : EventStoreOptions) (code : String) (next now : Time)
      → HasClaim n e
      → e' ≡ retried_row o code next now e
      → RowStep e e'
  recovered : (now : Time) → is_processing e.status ≡ true → e' ≡ recovered_row now e → RowStep e e'
  reply_started :
      (n : ℕ) (key : String) (at : Time) (p : Option (String × PreparedReplyKind)) (now : Time)
      → HasClaim n e
      → e' ≡ reply_started_row key at p now e
      → RowStep e e'
  progress_attempted :
      (n : ℕ) (at now : Time)
      → HasClaim n e
      → e.reply_attempted_at ≡ none
      → e.progress_attempted_at ≡ none
      → e' ≡ record e { progress_attempted_at = some at; updated_at = now }
      → RowStep e e'
  progress_confirmed :
      (n : ℕ) (m : Ident) (now : Time)
      → HasClaim n e
      → e.reply_attempted_at ≡ none
      → e.progress_message_id ≡ none
      → e' ≡ record e { progress_message_id = some m; updated_at = now }
      → RowStep e e'
  write_started :
      (n : ℕ) (w now : Time)
      → HasClaim n e
      → e' ≡ record e { write_started_at = some w; updated_at = now }
      → RowStep e e'
