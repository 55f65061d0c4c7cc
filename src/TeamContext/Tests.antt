-- ===== src/TeamContext/Tests.antt =====
-- A document of two entries, loaded and changed.
use minori.Common.Text.{codes}
use minori.Common.{◌≡◌, refl, List, [], none, true, false, length}
use minori.TeamContext.{SnapshotRow}
use minori.TeamContext.Text.{
  normalize_team_context, replaced, replace_exactly_once, mechanical_sequence,
}
use minori.TeamContext.Source.{
  Options, Document, Error, lark_error, timeout, fetched, fetch_failed, Outside,
}
use minori.TeamContext.Load.{load}
use minori.TeamContext.Update.{
  UpdateInput, mechanical_cleanup, Patch, patched, is_permitted, patch_answered, propose,
  update_fetched, update,
}
use minori.TeamContext.Served.{EndsServable, served_context_fits}
use minori.TeamContext.Fits.{RowsFit}
use minori.TeamContext.Allowed.{IsAllowed, sent_patch-IsAllowed}

abbrev options : Options
options = record {
  document_token = 1;
  token_budget = 100;
  stale_max_ms = 1000;
  estimate_tokens = λ s. length (codes s);
}

abbrev document : Document
document = record { token = 1; markdown = "# Team\r\n\r\nFirst.  \nFirst.\n"; revision_id = 7 }

abbrev outside : Outside
outside = record {
  others = λ n. [];
  store_answers = λ n. true;
  clock = λ n. 500;
  is_aborted = false;
}

abbrev later : Outside
later = record outside { clock = λ n. 1400 }

normalized : normalize_team_context document.markdown ≡ "# Team\n\nFirst.\nFirst.\n"
unfolding normalize_team_context
normalized = refl

same_sequence : mechanical_sequence document.markdown ≡ mechanical_sequence "# Team\nFirst.\n"
unfolding mechanical_sequence
same_sequence = refl

-- The document is loaded; then the service times out, and the stored snapshot is served.
abbrev stored : List SnapshotRow
stored = (load options outside (fetched document) []).0

abbrev busy : Error
busy = lark_error timeout none none

served_context_fits_example :
    EndsServable options later (load options later (fetch_failed busy) stored).1
    × RowsFit options (load options later (fetch_failed busy) stored).0
served_context_fits_example =
    served_context_fits options later (fetch_failed busy) stored tt tt
      (served_context_fits options outside (fetched document) [] tt tt tt).1

abbrev cleanup : UpdateInput
cleanup = record {
  expected_revision = 7;
  pattern = "First.  \n";
  replacement = "";
  reason = mechanical_cleanup;
  semantic_change_approved = false;
}

abbrev patch : Patch
patch = record { doc = 1; pattern = "First.  \n"; replacement = ""; expected_revision = 7 }

sent_patch-IsAllowed_example :
    (d : Document) × (fetched document ≡ fetched d) × IsAllowed options cleanup d patch
unfolding update update_fetched propose is_permitted mechanical_sequence replace_exactly_once
    replaced normalize_team_context patch_answered
sent_patch-IsAllowed_example =
    sent_patch-IsAllowed options outside cleanup (fetched document) (patched 8) [] patch refl
