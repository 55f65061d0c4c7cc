-- ===== src/Commands.antt =====
-- The command lines that the program may run: `buildInvocation` of src/lark/command-catalog.ts. A text
-- is the list of its code points.
pub mod Writes
pub mod Identity
pub mod Tests
use minori.Common.Text.{codes, decimal}
use minori.Common.{ℕ, List, [], ◌∷◌, ◌++◌, Option, none, some, Bool, true, false, if◌then◌else◌}
use minori.Sources.{Text, is_nil}

pub data Artifact : Type 0 where
  basic summary todo chapter : Artifact

-- Optional lists of ids are lists: a missing one counts as an empty one.
pub record SearchInput : Type 0 where
  pub query : Option Text
  pub start : Option Text
  pub end : Option Text
  pub owner_ids : List Text
  pub participant_ids : List Text
  pub page_size : ℕ
  pub page_token : Option Text

pub data LarkCommand : Type 0 where
  auth_status : LarkCommand
  contact_search_user : Text → ℕ → LarkCommand
  vc_search minutes_search : SearchInput → LarkCommand
  vc_detail : List Text → LarkCommand
  note_detail : Text → LarkCommand
  note_transcript : Text → Text → LarkCommand
  minutes_detail : List Text → Artifact → LarkCommand
  minutes_transcript : List Text → Text → LarkCommand
  drive_search : Text → List Text → LarkCommand
  docs_fetch : Text → LarkCommand
  docs_create : Text → Text → Option Text → LarkCommand
  docs_append : Text → Text → ℕ → LarkCommand
  docs_patch : Text → Text → Text → ℕ → LarkCommand
  wiki_space_list : LarkCommand
  wiki_node_list : Text → Option Text → LarkCommand
  wiki_node_get : Text → LarkCommand

pub record LarkInvocation : Type 0 where
  pub args : List Text
  pub stdin : Option Text
  pub cwd : Option Text

abbrev pub user_json_args : List Text
user_json_args = codes "--format" ∷ codes "json" ∷ codes "--as" ∷ codes "user" ∷ []

-- `join(',')`
abbrev pub join_ids : List Text → Text
join_ids [] = []
join_ids (x ∷ []) = x
join_ids (x ∷ y ∷ ys) = x ++ (codes "," ++ join_ids (y ∷ ys))

-- `...(value ? [name, value] : [])`
abbrev pub optional : Text → Option Text → List Text → List Text
optional name none rest = rest
optional name (some v) rest = if is_nil v then rest else name ∷ v ∷ rest

-- `...(ids?.length ? [name, ids.join(',')] : [])`
abbrev pub optional_ids : Text → List Text → List Text → List Text
optional_ids name [] rest = rest
optional_ids name (x ∷ xs) rest = name ∷ join_ids (x ∷ xs) ∷ rest

abbrev pub reads : List Text → LarkInvocation
reads args = record { args = args; stdin = none; cwd = none }

-- The options of both searches, after their own ones.
abbrev pub search_args : Text → SearchInput → List Text
search_args owners i = optional (codes "--query") i.query (
    optional (codes "--start") i.start (
      optional (codes "--end") i.end (
        optional_ids owners i.owner_ids (
          optional_ids (codes "--participant-ids") i.participant_ids (
            codes "--page-size"
            ∷ codes (decimal i.page_size)
            ∷ optional (codes "--page-token") i.page_token user_json_args)))))

abbrev pub artifact_args : Artifact → List Text → List Text
artifact_args basic rest = rest
artifact_args summary rest = codes "--summary" ∷ rest
artifact_args todo rest = codes "--todo" ∷ rest
artifact_args chapter rest = codes "--chapter" ∷ rest

abbrev pub markdown_stdin : List Text
markdown_stdin =
    codes "--doc-format" ∷ codes "markdown" ∷ codes "--content" ∷ codes "-" ∷ user_json_args

unfoldable pub build_invocation : LarkCommand → LarkInvocation
build_invocation auth_status =
    reads (codes "auth" ∷ codes "status" ∷ codes "--json" ∷ codes "--verify" ∷ [])
build_invocation (contact_search_user query page_size) = reads (
    codes "contact"
    ∷ codes "+search-user"
    ∷ codes "--query"
    ∷ query
    ∷ codes "--page-size"
    ∷ codes (decimal page_size)
    ∷ user_json_args)
build_invocation (vc_search i) =
    reads (codes "vc" ∷ codes "+search" ∷ search_args (codes "--organizer-ids") i)
build_invocation (vc_detail meeting_ids) =
    reads
      (codes "vc" ∷ codes "+detail" ∷ codes "--meeting-ids" ∷ join_ids meeting_ids ∷ user_json_args)
build_invocation (note_detail note_id) =
    reads (codes "note" ∷ codes "+detail" ∷ codes "--note-id" ∷ note_id ∷ user_json_args)
build_invocation (note_transcript note_id work_dir) = record {
  args =
      codes "note"
      ∷ codes "+transcript"
      ∷ codes "--note-id"
      ∷ note_id
      ∷ codes "--output"
      ∷ codes "unified_transcript.md"
      ∷ codes "--transcript-format"
      ∷ codes "markdown"
      ∷ user_json_args;
  stdin = none;
  cwd = some work_dir;
}
build_invocation (minutes_search i) =
    reads (codes "minutes" ∷ codes "+search" ∷ search_args (codes "--owner-ids") i)
build_invocation (minutes_detail minute_tokens artifact) = reads (
    codes "minutes"
    ∷ codes "+detail"
    ∷ codes "--minute-tokens"
    ∷ join_ids minute_tokens
    ∷ artifact_args artifact user_json_args)
build_invocation (minutes_transcript minute_tokens work_dir) = record {
  args =
      codes "minutes"
      ∷ codes "+detail"
      ∷ codes "--minute-tokens"
      ∷ join_ids minute_tokens
      ∷ codes "--transcript"
      ∷ codes "--output-dir"
      ∷ codes "."
      ∷ user_json_args;
  stdin = none;
  cwd = some work_dir;
}
build_invocation (drive_search query space_ids) = reads (
    codes "drive"
    ∷ codes "+search"
    ∷ codes "--query"
    ∷ query
    ∷ optional_ids (codes "--space-ids") space_ids user_json_args)
build_invocation (docs_fetch doc) = reads (
    codes "docs"
    ∷ codes "+fetch"
    ∷ codes "--doc"
    ∷ doc
    ∷ codes "--doc-format"
    ∷ codes "markdown"
    ∷ user_json_args)
build_invocation (docs_create title content parent_token) = record {
  args =
      codes "docs"
      ∷ codes "+create"
      ∷ codes "--title"
      ∷ title
      ∷ optional (codes "--parent-token") parent_token markdown_stdin;
  stdin = some content;
  cwd = none;
}
build_invocation (docs_append doc content revision_id) = record {
  args =
      codes "docs"
      ∷ codes "+update"
      ∷ codes "--doc"
      ∷ doc
      ∷ codes "--command"
      ∷ codes "append"
      ∷ codes "--revision-id"
      ∷ codes (decimal revision_id)
      ∷ markdown_stdin;
  stdin = some content;
  cwd = none;
}
build_invocation (docs_patch doc pattern content revision_id) = record {
  args =
      codes "docs"
      ∷ codes "+update"
      ∷ codes "--doc"
      ∷ doc
      ∷ codes "--command"
      ∷ codes "str_replace"
      ∷ codes "--pattern"
      ∷ pattern
      ∷ codes "--revision-id"
      ∷ codes (decimal revision_id)
      ∷ markdown_stdin;
  stdin = some content;
  cwd = none;
}
build_invocation wiki_space_list = reads (codes "wiki" ∷ codes "+space-list" ∷ user_json_args)
build_invocation (wiki_node_list space_id parent_node_token) = reads (
    codes "wiki"
    ∷ codes "+node-list"
    ∷ codes "--space-id"
    ∷ space_id
    ∷ optional (codes "--parent-node-token") parent_node_token user_json_args)
build_invocation (wiki_node_get node_token) =
    reads (codes "wiki" ∷ codes "+node-get" ∷ codes "--node-token" ∷ node_token ∷ user_json_args)
