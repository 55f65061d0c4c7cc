-- ===== src/TeamContext.antt =====
-- The snapshots of the team's context document: `PostgresTeamContextStore` of
-- src/storage/team-context-store.ts on the table `team_context_snapshots`, and the types of
-- src/team-context/types.ts.
pub mod Replaced
pub mod Load
pub mod Text
pub mod Source
pub mod Update
pub mod Fits
pub mod Served
pub mod Allowed
pub mod Tests
use minori.Common.{
  ℕ, String, List, [], ◌∷◌, ◌++◌, Option, none, some, Bool, true, false, ◌&&◌, ◌||◌, ltb, leb, ◌==◌,
  ◌>>=◌, if◌then◌else◌,
}
use minori.Common.Table.{exists, find, update}
use minori.Domain.{Ident, Time}

pub data InvalidationCategory : Type 0 where
  team_context_missing team_context_forbidden : InvalidationCategory

pub record TeamContextSnapshot : Type 0 where
  pub document_token : Ident
  pub source_revision : ℕ
  pub normalized_content : String
  pub estimated_tokens : ℕ
  pub fetched_at : Time

-- A row of `team_context_snapshots`.
pub record SnapshotRow : Type 0 where
  pub document_token : Ident
  pub source_revision : Option ℕ
  pub normalized_content : Option String
  pub estimated_tokens : Option ℕ
  pub fetched_at : Option Time
  pub invalidated_at : Option Time
  pub invalidation_category : Option InvalidationCategory
  pub updated_at : Time

abbrev pub has_token : Ident → SnapshotRow → Bool
has_token token r = r.document_token == token

-- A snapshot, if the row has all of it.
unfoldable pub snapshot_of : SnapshotRow → Option TeamContextSnapshot
snapshot_of r = do
  revision ← r.source_revision
  content ← r.normalized_content
  tokens ← r.estimated_tokens
  fetched ← r.fetched_at
  some (record {
    document_token = r.document_token;
    source_revision = revision;
    normalized_content = content;
    estimated_tokens = tokens;
    fetched_at = fetched;
  })

unfoldable pub load : Ident → List SnapshotRow → Option TeamContextSnapshot
unfolding snapshot_of
load token rows = find (has_token token) rows >>= snapshot_of

abbrev pub accepted_row : TeamContextSnapshot → Time → SnapshotRow
accepted_row s now = record {
  document_token = s.document_token;
  source_revision = some s.source_revision;
  normalized_content = some s.normalized_content;
  estimated_tokens = some s.estimated_tokens;
  fetched_at = some s.fetched_at;
  invalidated_at = none;
  invalidation_category = none;
  updated_at = now;
}

-- `source_revision is null or excluded.source_revision >= source_revision`
abbrev pub may_replace : TeamContextSnapshot → Option ℕ → Bool
may_replace s none = true
may_replace s (some revision) = leb revision s.source_revision

abbrev pub accepts : TeamContextSnapshot → SnapshotRow → Bool
accepts s r = has_token s.document_token r && may_replace s r.source_revision

-- `false` is `team_context_snapshot_stale`.
unfoldable pub accept : TeamContextSnapshot → Time → List SnapshotRow → List SnapshotRow × Bool
accept s now rows =
    if exists (has_token s.document_token) rows
    then (update (accepts s) (λ r. accepted_row s now) rows, exists (accepts s) rows)
    else (rows ++ accepted_row s now ∷ [], true)

abbrev pub invalidated_row : Ident → InvalidationCategory → Time → SnapshotRow
invalidated_row token category now = record {
  document_token = token;
  source_revision = none;
  normalized_content = none;
  estimated_tokens = none;
  fetched_at = none;
  invalidated_at = some now;
  invalidation_category = some category;
  updated_at = now;
}

unfoldable pub invalidate :
    Ident → InvalidationCategory → Time → List SnapshotRow → List SnapshotRow
invalidate token category now rows =
    if exists (has_token token) rows
    then update (has_token token) (λ r. invalidated_row token category now) rows
    else rows ++ invalidated_row token category now ∷ []

-- The transactions of the store that change rows, by any process.
pub data StoreCall : Type 0 where
  accepts_snapshot : TeamContextSnapshot → Time → StoreCall
  invalidates : Ident → InvalidationCategory → Time → StoreCall

unfoldable pub apply : StoreCall → List SnapshotRow → List SnapshotRow
unfolding accept invalidate
apply (accepts_snapshot s now) rows = (accept s now rows).0
apply (invalidates token category now) rows = invalidate token category now rows

unfoldable pub run : List StoreCall → List SnapshotRow → List SnapshotRow
unfolding apply
run [] rows = rows
run (c ∷ cs) rows = run cs (apply c rows)
