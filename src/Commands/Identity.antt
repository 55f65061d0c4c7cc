-- ===== src/Commands/Identity.antt =====
-- No text of a command changes as whom and in which format the command line runs.
use minori.Common.Text.{codes, codes_eq}
use minori.Common.{
  ◌≡◌, refl, ◌∙◌, inl, inr, List, [], ◌∷◌, Option, none, some, Bool, true, false, ◌||◌, drop,
  if◌then◌else◌, Bool-cases,
}
use minori.Sources.{Text, is_nil}
use minori.Commands.{
  Artifact, basic, summary, todo, chapter, SearchInput, LarkCommand, auth_status,
  contact_search_user, vc_search, minutes_search, vc_detail, note_detail, note_transcript,
  minutes_detail, minutes_transcript, drive_search, docs_fetch, docs_create, docs_append,
  docs_patch, wiki_space_list, wiki_node_list, wiki_node_get, LarkInvocation, user_json_args,
  optional, optional_ids, search_args, artifact_args, markdown_stdin, build_invocation,
}

-- The options without a value.
abbrev pub is_flag : Text → Bool
is_flag t =
    codes_eq t (codes "--summary")
    || (codes_eq t (codes "--todo")
        || (codes_eq t (codes "--chapter") || codes_eq t (codes "--transcript")))

-- The value of an option, as a reader of the command line finds it: after the name of an option, a
-- text is its value, whatever it looks like.
abbrev pub option_value : Text → List Text → Option Text
option_value name [] = none
option_value name (n ∷ []) = none
option_value name (n ∷ v ∷ rest) =
    let flag = option_value name (v ∷ rest) in
    let later = option_value name rest in
    if is_flag n then flag else if codes_eq n name then some v else later

abbrev pub value_in : Text → LarkInvocation → Option Text
value_in name i = option_value name (drop 2 i.args)

abbrev pub is_status : LarkCommand → Bool
is_status auth_status = true
is_status _ = false

value-optional :
    (name n : Text) (v : Option Text) (rest : List Text)
    → is_flag n ≡ false
    → codes_eq n name ≡ false
    → option_value name (optional n v rest) ≡ option_value name rest
value-optional name n none rest f d = refl
value-optional name n (some v) rest f d = elim (Bool-cases (is_nil v)) [
  | inl e ↦ rw e refl
  | inr e ↦ rw e (rw (f, d) refl)
]

value-optional_ids :
    (name n : Text) (ids : List Text) (rest : List Text)
    → is_flag n ≡ false
    → codes_eq n name ≡ false
    → option_value name (optional_ids n ids rest) ≡ option_value name rest
value-optional_ids name n [] rest f d = refl
value-optional_ids name n (x ∷ xs) rest f d = rw (f, d) refl

abbrev pub as_option : Text
as_option = codes "--as"

search_args-value :
    (owners : Text) (i : SearchInput)
    → is_flag owners ≡ false
    → codes_eq owners as_option ≡ false
    → option_value as_option (search_args owners i) ≡ some (codes "user")
search_args-value owners i f d =
    value-optional as_option (codes "--query") i.query _ refl refl
    ∙ value-optional as_option (codes "--start") i.start _ refl refl
    ∙ value-optional as_option (codes "--end") i.end _ refl refl
    ∙ value-optional_ids as_option owners i.owner_ids _ f d
    ∙ value-optional_ids as_option (codes "--participant-ids") i.participant_ids _ refl refl
    ∙ value-optional as_option (codes "--page-token") i.page_token user_json_args refl refl

artifact_args-value :
    (a : Artifact) → option_value as_option (artifact_args a user_json_args) ≡ some (codes "user")
artifact_args-value basic = refl
artifact_args-value summary = refl
artifact_args-value todo = refl
artifact_args-value chapter = refl

-- Every command line but that of the status runs as the user: a reader that takes the text after an
-- option's name as its value finds this under `--as`, whatever the texts of the command are, even
-- where they look like options.
pub runs_as_user :
    (c : LarkCommand)
    → is_status c ≡ false
    → value_in as_option (build_invocation c) ≡ some (codes "user")
unfolding build_invocation
runs_as_user auth_status h = absurd (cc)
runs_as_user (contact_search_user query page_size) h = refl
runs_as_user (vc_search i) h = search_args-value (codes "--organizer-ids") i refl refl
runs_as_user (minutes_search i) h = search_args-value (codes "--owner-ids") i refl refl
runs_as_user (vc_detail ids) h = refl
runs_as_user (note_detail id) h = refl
runs_as_user (note_transcript id dir) h = refl
runs_as_user (minutes_detail tokens a) h = artifact_args-value a
runs_as_user (minutes_transcript tokens dir) h = refl
runs_as_user (drive_search query ids) h =
    value-optional_ids as_option (codes "--space-ids") ids user_json_args refl refl
runs_as_user (docs_fetch doc) h = refl
runs_as_user (docs_create title content parent_token) h =
    value-optional as_option (codes "--parent-token") parent_token markdown_stdin refl refl
runs_as_user (docs_append doc content revision_id) h = refl
runs_as_user (docs_patch doc pattern content revision_id) h = refl
runs_as_user wiki_space_list h = refl
runs_as_user (wiki_node_list id token) h =
    value-optional as_option (codes "--parent-node-token") token user_json_args refl refl
runs_as_user (wiki_node_get token) h = refl
