-- ===== src/TeamContext/Load.antt =====
-- `load` of `DefaultTeamContextSource`, src/team-context/source.ts: the document itself, or the stored
-- snapshot where that may be served, or nothing.
use minori.Common.{List, Option, none, some, Bool, true, false, not, ltb, ◌==◌, if◌then◌else◌}
use minori.TeamContext.{
  InvalidationCategory, team_context_missing, TeamContextSnapshot, SnapshotRow, accept, invalidate,
  run, load as load_stored,
}
use minori.TeamContext.Text.{normalize_team_context}
use minori.TeamContext.Source.{
  loaded, unavailable, team_context_unavailable, Options, Document, Error, invalid, other_error,
  invalidation_for, is_temporary, Fetched, fetched, fetch_failed, Outside, LoadEnd, load_threw,
  nothing, serve, fallback_over_budget, fallback_stale, read,
}

-- The snapshot is marked as invalid and removed.
unfoldable pub invalidated :
    Options → Outside → InvalidationCategory → List SnapshotRow → Bool → List SnapshotRow × LoadEnd
unfolding invalidate
invalidated opt o category rows true = (
  invalidate opt.document_token category (o.clock 1) rows,
  nothing unavailable team_context_unavailable,
)
invalidated opt o category rows false = (rows, load_threw)

unfoldable pub caught_other :
    Options → Outside → List SnapshotRow → Bool → List SnapshotRow × LoadEnd
unfolding fallback_stale load_stored run
caught_other opt o rows true =
    let seen = run (o.others 1) rows in
    (
      seen,
      read (o.store_answers 1)
          (fallback_stale opt (o.clock 1) (load_stored opt.document_token seen)),
    )
caught_other opt o rows false = (rows, nothing unavailable team_context_unavailable)

unfoldable pub caught_by :
    Options
    → Outside
    → Error
    → List SnapshotRow
    → Option InvalidationCategory
    → List SnapshotRow × LoadEnd
unfolding invalidated caught_other is_temporary run
caught_by opt o e rows (some category) =
    invalidated opt o category (run (o.others 1) rows) (o.store_answers 1)
caught_by opt o e rows none = caught_other opt o rows (is_temporary e)

unfoldable pub caught : Options → Outside → Error → List SnapshotRow → List SnapshotRow × LoadEnd
unfolding caught_by invalidation_for
caught opt o e rows =
    if o.is_aborted then (rows, load_threw) else caught_by opt o e rows (invalidation_for e)

unfoldable pub snapshot : Options → Outside → Document → TeamContextSnapshot
unfolding normalize_team_context
snapshot opt o d =
    let content = normalize_team_context d.markdown in
    record {
      document_token = d.token;
      source_revision = d.revision_id;
      normalized_content = content;
      estimated_tokens = opt.estimate_tokens content;
      fetched_at = o.clock 0;
    }

-- The store has a newer revision already: that one is served.
unfoldable pub newer_served :
    Options
    → Outside
    → List SnapshotRow
    → Bool
    → Option TeamContextSnapshot
    → List SnapshotRow × LoadEnd
unfolding caught
newer_served opt o rows true (some newer) = (rows, serve loaded none newer)
newer_served opt o rows answers newer = caught opt o other_error rows

unfoldable pub accept_answered :
    Options → Outside → TeamContextSnapshot → List SnapshotRow → Bool → List SnapshotRow × LoadEnd
unfolding newer_served load_stored run
accept_answered opt o s rows true = (rows, serve loaded none s)
accept_answered opt o s rows false =
    let seen = run (o.others 1) rows in
    newer_served opt o seen (o.store_answers 1) (load_stored opt.document_token seen)

unfoldable pub within_budget :
    Options → Outside → TeamContextSnapshot → List SnapshotRow → Bool → List SnapshotRow × LoadEnd
unfolding accept_answered accept caught
within_budget opt o s rows true =
    let (after, accepted) = accept s (o.clock 0) rows in accept_answered opt o s after accepted
within_budget opt o s rows false = caught opt o other_error rows

unfoldable pub load_fetched :
    Options → Outside → Document → List SnapshotRow → List SnapshotRow × LoadEnd
unfolding caught snapshot within_budget fallback_over_budget load_stored run
load_fetched opt o d rows =
    let s = snapshot opt o d in
    let seen = run (o.others 0) rows in
    if not (d.token == opt.document_token)
    then caught opt o (invalid team_context_missing) rows
    else if ltb opt.token_budget s.estimated_tokens
    then (
      seen,
      read (o.store_answers 0) (fallback_over_budget (load_stored opt.document_token seen)),
    )
    else within_budget opt o s seen (o.store_answers 0)

-- `load`: the rows after it, and its end.
unfoldable pub load : Options → Outside → Fetched → List SnapshotRow → List SnapshotRow × LoadEnd
unfolding load_fetched caught
load opt o (fetched d) rows = load_fetched opt o d rows
load opt o (fetch_failed e) rows = caught opt o e rows
