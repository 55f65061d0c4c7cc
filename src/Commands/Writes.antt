-- ===== src/Commands/Writes.antt =====
-- Which commands write, and where their content goes.
use minori.Common.Text.{codes, codes_eq}
use minori.Common.{◌≡◌, refl, List, ◌∷◌, Option, none, some, Bool, true, false, ◌||◌}
use minori.Sources.{Text}
use minori.Commands.{
  LarkCommand, auth_status, contact_search_user, vc_search, minutes_search, vc_detail, note_detail,
  note_transcript, minutes_detail, minutes_transcript, drive_search, docs_fetch, docs_create,
  docs_append, docs_patch, wiki_space_list, wiki_node_list, wiki_node_get, build_invocation,
}

-- The command with another content.
abbrev pub with_content : Text → LarkCommand → LarkCommand
with_content t (docs_create title content parent_token) = docs_create title t parent_token
with_content t (docs_append doc content revision_id) = docs_append doc t revision_id
with_content t (docs_patch doc pattern content revision_id) = docs_patch doc pattern t revision_id
with_content t c = c

abbrev pub content_of : LarkCommand → Option Text
content_of (docs_create title content parent_token) = some content
content_of (docs_append doc content revision_id) = some content
content_of (docs_patch doc pattern content revision_id) = some content
content_of _ = none

abbrev pub is_some_text : Option Text → Bool
is_some_text none = false
is_some_text (some t) = true

-- The subcommand of a command line, and whether it is one that changes a document.
abbrev pub is_writing_line : List Text → Bool
is_writing_line (x ∷ y ∷ ys) = codes_eq y (codes "+create") || codes_eq y (codes "+update")
is_writing_line _ = false

-- A command line changes a document if and only if its command has a content; the content is passed
-- on the standard input, which is unused otherwise, and the command line does not depend on it.
pub content_is_on_stdin :
    (c : LarkCommand) (t : Text)
    → (is_writing_line (build_invocation c).args ≡ is_some_text (content_of c))
      × ((build_invocation c).stdin ≡ content_of c)
      × ((build_invocation (with_content t c)).args ≡ (build_invocation c).args)
unfolding build_invocation
content_is_on_stdin (docs_create title content parent_token) t = (refl, refl, refl)
content_is_on_stdin (docs_append doc content revision_id) t = (refl, refl, refl)
content_is_on_stdin (docs_patch doc pattern content revision_id) t = (refl, refl, refl)
content_is_on_stdin auth_status t = (refl, refl, refl)
content_is_on_stdin (contact_search_user query page_size) t = (refl, refl, refl)
content_is_on_stdin (vc_search i) t = (refl, refl, refl)
content_is_on_stdin (minutes_search i) t = (refl, refl, refl)
content_is_on_stdin (vc_detail ids) t = (refl, refl, refl)
content_is_on_stdin (note_detail id) t = (refl, refl, refl)
content_is_on_stdin (note_transcript id dir) t = (refl, refl, refl)
content_is_on_stdin (minutes_detail tokens a) t = (refl, refl, refl)
content_is_on_stdin (minutes_transcript tokens dir) t = (refl, refl, refl)
content_is_on_stdin (drive_search query ids) t = (refl, refl, refl)
content_is_on_stdin (docs_fetch doc) t = (refl, refl, refl)
content_is_on_stdin wiki_space_list t = (refl, refl, refl)
content_is_on_stdin (wiki_node_list id token) t = (refl, refl, refl)
content_is_on_stdin (wiki_node_get token) t = (refl, refl, refl)
