-- ===== src/Commands/Tests.antt =====
-- A change of one passage of a document.
use minori.Common.Text.{codes}
use minori.Commands.Identity.{value_in, as_option, runs_as_user}
use minori.Common.{◌≡◌, refl, [], ◌∷◌, none, some}
use minori.Commands.{LarkCommand, docs_patch, wiki_node_list, build_invocation, drive_search}

abbrev change : LarkCommand
change = docs_patch (codes "doc") (codes "old") (codes "new") 12

patch_line :
    (build_invocation change).args
    ≡ codes "docs"
      ∷ codes "+update"
      ∷ codes "--doc"
      ∷ codes "doc"
      ∷ codes "--command"
      ∷ codes "str_replace"
      ∷ codes "--pattern"
      ∷ codes "old"
      ∷ codes "--revision-id"
      ∷ codes "12"
      ∷ codes "--doc-format"
      ∷ codes "markdown"
      ∷ codes "--content"
      ∷ codes "-"
      ∷ codes "--format"
      ∷ codes "json"
      ∷ codes "--as"
      ∷ codes "user"
      ∷ []
unfolding build_invocation
patch_line = refl

empty_token_is_left_out :
    build_invocation (wiki_node_list (codes "space") (some []))
    ≡ build_invocation (wiki_node_list (codes "space") none)
unfolding build_invocation
empty_token_is_left_out = refl

-- The query looks like an option.
abbrev sly_query : LarkCommand
sly_query = drive_search (codes "--as") (codes "bot" ∷ [])

runs_as_user_example : value_in as_option (build_invocation sly_query) ≡ some (codes "user")
runs_as_user_example = runs_as_user sly_query refl
