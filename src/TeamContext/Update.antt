-- ===== src/TeamContext/Update.antt =====
-- `update` of `DefaultTeamContextSource`, src/team-context/source.ts.
use package.text.Mathlib.Text.{◌==◌ as str_eq}
use minori.Common.{
  ℕ, String, List, [], ◌∷◌, Option, none, some, Bool, true, false, ◌&&◌, not, ltb, ◌==◌,
  if◌then◌else◌,
}
use minori.Domain.{Ident}
use minori.TeamContext.{InvalidationCategory, team_context_missing, SnapshotRow, invalidate, run}
use minori.TeamContext.Text.{normalize_team_context, replace_exactly_once, mechanical_sequence}
use minori.TeamContext.Source.{
  Options, Document, Error, Fetched, fetched, fetch_failed, Outside, invalidation_for,
}

pub data MutationReason : Type 0 where
  durable_assertion explicit_retention correction forgetting approved_consolidation : MutationReason
  mechanical_cleanup : MutationReason

pub record UpdateInput : Type 0 where
  pub expected_revision : ℕ
  pub pattern : String
  pub replacement : String
  pub reason : MutationReason
  pub semantic_change_approved : Bool

-- The call of `patchDocument`.
pub record Patch : Type 0 where
  pub doc : Ident
  pub pattern : String
  pub replacement : String
  pub expected_revision : ℕ

-- What the service answers to the patch: the new revision, a conflict or another error.
pub data PatchAnswer : Type 0 where
  patched : ℕ → PatchAnswer
  patch_conflict : PatchAnswer
  patch_failed : Error → PatchAnswer

pub data UpdateEnd : Type 0 where
  updated : ℕ → UpdateEnd
  over_budget unavailable semantic_approval_required write_conflict aborted store_failed : UpdateEnd
  service_failed : Error → UpdateEnd

pub record Updated : Type 0 where
  pub rows : List SnapshotRow
  pub patch : Option Patch
  pub ended : UpdateEnd

abbrev pub is_mechanical : MutationReason → Bool
is_mechanical mechanical_cleanup = true
is_mechanical _ = false

-- `JSON.stringify(a) === JSON.stringify(b)` of two lists of texts.
abbrev pub texts_eq : List String → List String → Bool
texts_eq [] [] = true
texts_eq [] (y ∷ ys) = false
texts_eq (x ∷ xs) [] = false
texts_eq (x ∷ xs) (y ∷ ys) = str_eq x y && texts_eq xs ys

-- A mechanical cleanup keeps the sequence of entries; any other change is approved.
unfoldable pub is_permitted : UpdateInput → String → String → Bool
unfolding mechanical_sequence
is_permitted i current proposed =
    if is_mechanical i.reason
    then texts_eq (mechanical_sequence current) (mechanical_sequence proposed)
    else i.semantic_change_approved

abbrev pub stops : Option Patch → List SnapshotRow → UpdateEnd → Updated
stops call rows e = record { rows = rows; patch = call; ended = e }

-- The document is missing or forbidden.
unfoldable pub invalidates_for :
    Options → Outside → Option Patch → List SnapshotRow → InvalidationCategory → Updated
unfolding invalidate run
invalidates_for opt o call rows category =
    let seen = run (o.others 0) rows in
    if o.store_answers 0
    then stops call (invalidate opt.document_token category (o.clock 0) seen) unavailable
    else stops call seen store_failed

unfoldable pub failed_by :
    Options
    → Outside
    → Option Patch
    → Error
    → List SnapshotRow
    → Option InvalidationCategory
    → Updated
unfolding invalidates_for
failed_by opt o call e rows none = stops call rows (service_failed e)
failed_by opt o call e rows (some category) = invalidates_for opt o call rows category

-- A call of the service has failed.
unfoldable pub failed : Options → Outside → Option Patch → Error → List SnapshotRow → Updated
unfolding failed_by invalidation_for
failed opt o call e rows =
    if o.is_aborted
    then stops call rows aborted
    else failed_by opt o call e rows (invalidation_for e)

unfoldable pub patch_answered : Options → Outside → Patch → List SnapshotRow → PatchAnswer → Updated
unfolding failed
patch_answered opt o call rows (patched revision) = stops (some call) rows (updated revision)
patch_answered opt o call rows patch_conflict =
    stops (some call) rows (if o.is_aborted then aborted else write_conflict)
patch_answered opt o call rows (patch_failed e) = failed opt o (some call) e rows

abbrev pub patch_of : Options → UpdateInput → Document → Patch
patch_of opt i d = record {
  doc = opt.document_token;
  pattern = i.pattern;
  replacement = i.replacement;
  expected_revision = d.revision_id;
}

-- The change was made on a copy, of which this is the normalized text.
unfoldable pub propose :
    Options
    → Outside
    → UpdateInput
    → Document
    → PatchAnswer
    → List SnapshotRow
    → Option String
    → Updated
unfolding is_permitted patch_answered normalize_team_context
propose opt o i d answer rows none = stops none rows write_conflict
propose opt o i d answer rows (some changed) =
    let proposed = normalize_team_context changed in
    if not (is_permitted i d.markdown proposed)
    then stops none rows semantic_approval_required
    else if ltb opt.token_budget (opt.estimate_tokens proposed)
    then stops none rows over_budget
    else patch_answered opt o (patch_of opt i d) rows answer

unfoldable pub update_fetched :
    Options → Outside → UpdateInput → Document → PatchAnswer → List SnapshotRow → Updated
unfolding propose invalidates_for replace_exactly_once
update_fetched opt o i d answer rows =
    if not (d.token == opt.document_token)
    then invalidates_for opt o none rows team_context_missing
    else propose opt o i d answer rows (replace_exactly_once d.markdown i.pattern i.replacement)

-- `update`: the rows after it, the patch that was asked for, and its end.
unfoldable pub update :
    Options → Outside → UpdateInput → Fetched → PatchAnswer → List SnapshotRow → Updated
unfolding update_fetched failed
update opt o i (fetched d) answer rows = update_fetched opt o i d answer rows
update opt o i (fetch_failed e) answer rows = failed opt o none e rows
